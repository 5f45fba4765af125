-- ===== src/Tests/SharedCases.antt =====
-- The shared packages at concrete inputs: the breaker, the drop counter, the timer group and the texts.
use pushward_integrations.Prelude.{
  none, ℕ, ◌≤◌, ◌≡◌, ◌≢◌, ◌⊎◌, true, not, List, [], ◌∷◌, ◌++◌, arith, leb, replicate,
}
use pushward_integrations.Breaker.{
  CircuitBreaker, new_circuit_breaker, report_all, is_open, allow, blocking, state_open, Outcome,
  failure, reachable, aborted,
}
use pushward_integrations.Breaker.Streak.{opens_at_threshold, count_failures}
use pushward_integrations.Breaker.Probe.{one_probe, admitted, blocking-allow}
use pushward_integrations.Syncx.TimerGroup.{
  fire, Event, resets, fires, finishes, close, run, empty, wait_returns,
}
use pushward_integrations.Syncx.TimerGroup.Safety.{close_drains}
use pushward_integrations.Text.Slug.{slug, normalize, matches, slug_shape}

abbrev outcomes : List (Outcome × ℕ)
outcomes = (failure, 1) ∷ (reachable, 2) ∷ (failure, 3) ∷ (aborted, 4) ∷ []

-- Two failures around a reachable call open a breaker with a threshold of two.
opens_at_threshold_example :
    is_open (report_all outcomes (new_circuit_breaker 2 10)) ≡ leb 2 (count_failures outcomes)
opens_at_threshold_example = opens_at_threshold 2 10 outcomes (omega arith) tt

abbrev opened : CircuitBreaker
opened = record (new_circuit_breaker 2 10) { failures = 2; state = state_open; open_until = 15 }

-- After the cooldown, three calls ask, and at most one goes out.
one_probe_example : admitted (20 ∷ 21 ∷ 22 ∷ []) opened ≤ 1
one_probe_example = one_probe (20 ∷ 21 ∷ 22 ∷ []) opened (ground arith)

blocking-allow_example : blocking 20 opened ≡ not (allow 20 opened).1
blocking-allow_example = blocking-allow 20 opened

abbrev events : List Event
events = resets 7 ∷ fires ∷ resets 8 ∷ fires ∷ resets 9 ∷ []

close_drains_example :
    let g = close (run events empty) in
    ((ws : List Event) → ((run ws g).running ≤ g.running) × ((fire (run ws g)).1 ≡ none))
    × (wait_returns (run (replicate g.running finishes) g) ≡ true)
close_drains_example = close_drains events

abbrev word : List ℕ
word = b'a' ∷ b'b' ∷ b'c' ∷ b'd' ∷ b'e' ∷ b'f' ∷ []

abbrev no_hash : List ℕ → ℕ → List ℕ
no_hash s n = replicate n b'0'

abbrev same : ℕ → ℕ
same c = c

slug_shape_example :
    ((word ≡ []) × (slug same no_hash [] word ≡ []))
    ⊎ ((word ≢ [])
        × (normalize same word ≡ [])
        × (slug same no_hash [] word ≡ [] ++ no_hash word 8))
    ⊎ ((matches true (normalize same word) ≡ true)
        × (slug same no_hash [] word ≡ [] ++ normalize same word))
slug_shape_example = slug_shape same no_hash [] word

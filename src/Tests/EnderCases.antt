-- ===== src/Tests/EnderCases.antt =====
-- The two-phase end at concrete inputs.
use pushward_integrations.Prelude.{
  ◌<◌, ℕ, ◌+◌, ◌≤◌, ◌≡◌, ◌≢◌, refl, true, false, List, [], ◌∷◌, map, arith, some, Str, Eq_str,
  str_eq, length, take, get_elem?,
}
use pushward_integrations.Prelude.GoMap.{get, put}
use pushward_integrations.Ender.{
  Target, TimerPair, Callback, Event, schedules, stops, fires, finishes, sends, phase_one,
  phase_two, new_ender, run, install, stop_pairs,
}
use pushward_integrations.Ender.Pairs.{IsPair}
use pushward_integrations.Ender.Balance.{run_balanced}
use pushward_integrations.Ender.Ready.{IsOrdered}
use pushward_integrations.Ender.Order.{run-IsOrdered}
use pushward_integrations.Ender.Flush.{
  flush_all, collect, ends_with, row_of, NoSchedule, flush_quiet, flush_sends,
}
use pushward_integrations.Tests.RelayCases.{tenant_a, tenant_b, tenant_c}

abbrev target : Target
target = record { user_key = tenant_a; map_key = tenant_b; slug = tenant_c; content = [] }

-- One end is superseded while its first callback runs; then its own first callback fires.
abbrev life : List Event
life =
    schedules tenant_a target false
    ∷ fires phase_one tenant_a
    ∷ schedules tenant_a target false
    ∷ fires phase_one tenant_a
    ∷ sends 1
    ∷ []

run_balanced_example :
    ((run life new_ender).wg
      ≡ stop_pairs (run life new_ender).timers + length (run life new_ender).running)
    × ((key : Str) (tp : TimerPair)
        → get key (run life new_ender).timers ≡ some tp
        → IsPair key tp (run life new_ender).running (run life new_ender).next_gen)
run_balanced_example = run_balanced life

run-IsOrdered_example : IsOrdered (run life new_ender).sent
run-IsOrdered_example = run-IsOrdered life

abbrev later : List Event
later = finishes 0 ∷ stops tenant_a ∷ fires phase_two tenant_a ∷ []

later-NoSchedule : NoSchedule later
later-NoSchedule = ground arith

flush_quiet_example :
    let e = run life new_ender in
    let e' = run later (flush_all true (λ n. true) e).0 in
    (e'.timers ≡ []) × (length e'.running ≤ length e.running) × (e'.wg ≡ length e'.running)
flush_quiet_example = flush_quiet life later true (λ n. true) later-NoSchedule

flush_sends_example :
    let tps = collect (run life new_ender).timers in
    let f = (flush_all true (λ k. true) (run life new_ender)).1 in
    (n : ℕ) × (f.updates ≡ map ends_with (take n tps))
    × (f.rows ≡ map row_of (take n tps))
    × (n ≤ length tps)
    × ((k : ℕ) → k < n → true ≡ true)
    × (n ≢ length tps → true ≡ false)
flush_sends_example = flush_sends true (λ k. true) (run life new_ender)

abbrev first_running : Callback
first_running = record {
  phase = phase_one;
  key = tenant_a;
  gen = 1;
  target = target;
  updated = true;
}

abbrev superseded : List Event
superseded = schedules tenant_a target false ∷ fires phase_one tenant_a ∷ sends 0 ∷ []

superseded_runs :
    get_elem? (install tenant_a target (run superseded new_ender)).running 0 ≡ some first_running
unfolding install run new_ender get put str_eq
superseded_runs = refl

abbrev id_hash : Str → Str
id_hash s = s

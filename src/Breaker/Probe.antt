-- ===== src/Breaker/Probe.antt =====
-- The half-open probe of shared/pushward/breaker.go: one call at a time, and never a wedged breaker.
use pushward_integrations.Prelude.{
  ℕ, suc, ◌+◌, ◌≤◌, ◌<◌, ◌≡◌, ◌≢◌, refl, Bool, true, false, not, List, [], ◌∷◌, arith, Time,
}
use pushward_integrations.Breaker.{
  CircuitBreaker, state_closed, state_open, state_half_open, allow, blocking, Outcome, report,
}

-- `Blocking` is true at a time exactly when `Allow` would refuse a call at that time.
pub blocking-allow : (now : Time) (cb : CircuitBreaker) → blocking now cb ≡ not (allow now cb).1
unfolding blocking allow
blocking-allow now cb = ground arith

abbrev tally : Bool → ℕ → ℕ
tally true n = suc n
tally false n = n

-- How many of a row of `Allow` calls are let through, with no outcome reported in between.
unfoldable pub admitted : List Time → CircuitBreaker → ℕ
admitted [] cb = 0
admitted (now ∷ ts) cb = tally (allow now cb).1 (admitted ts (allow now cb).0)

half_open_admits_none :
    (ts : List Time) (cb : CircuitBreaker) → cb.state ≡ state_half_open → admitted ts cb ≡ 0
unfolding admitted allow
half_open_admits_none [] cb h = refl
half_open_admits_none (now ∷ ts) cb h = ground (arith, half_open_admits_none ts cb h)

-- From a breaker that is not closed, any row of `Allow` calls at any times, with no outcome reported
-- in between, lets at most one call through.
pub one_probe :
    (ts : List Time) (cb : CircuitBreaker) → cb.state ≢ state_closed → admitted ts cb ≤ 1
unfolding admitted allow
one_probe [] cb h = omega arith
one_probe (now ∷ ts) cb h =
    ground (arith, one_probe ts cb h, half_open_admits_none ts (allow now cb).0)

-- Whatever outcome of a call is reported to a breaker that is not open, the breaker is not left
-- half-open, and it admits a call at every time later than the report by more than the cooldown.
pub report_recovers :
    (o : Outcome) (now later : Time) (cb : CircuitBreaker)
    → cb.state ≢ state_open
    → now + cb.cooldown < later
    → ((report o now cb).state ≢ state_half_open) × ((allow later (report o now cb)).1 ≡ true)
unfolding report allow
report_recovers o now later cb h l = ground arith

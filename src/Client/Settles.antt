-- ===== src/Client/Settles.antt =====
-- A call of shared/pushward/client.go and its breaker.
use pushward_integrations.Prelude.{
  ◌+◌, ◌<◌, ◌≡◌, ◌≢◌, refl, true, false, Bool-cases, inl, inr, some, arith, Time,
}
use pushward_integrations.Breaker as Breaker
use pushward_integrations.Breaker.{CircuitBreaker, state_open, state_half_open}
use pushward_integrations.Breaker.Probe.{report_recovers}
use pushward_integrations.Client.{World, Call, do_with_retry, admitted_call, outcome_of}
use pushward_integrations.Client.Errors.{circuit_open}

admitted_not_open :
    (now : Time) (cb : CircuitBreaker)
    → (Breaker.allow now cb).1 ≡ true
    → (Breaker.allow now cb).0.state ≢ state_open
unfolding Breaker.allow
admitted_not_open now cb h = ground (arith, h)

cooldown-allow :
    (now : Time) (cb : CircuitBreaker) → (Breaker.allow now cb).0.cooldown ≡ cb.cooldown
unfolding Breaker.allow
cooldown-allow now cb = ground arith

refused-allow :
    (now : Time) (cb : CircuitBreaker)
    → (Breaker.allow now cb).1 ≡ false
    → (Breaker.allow now cb).0 ≡ cb
unfolding Breaker.allow
refused-allow now cb h = ground (arith, h)

-- Whatever the server, the network and the context do, an admitted call leaves no half-open breaker
-- behind, and the breaker admits a call again at every time later than the call's end by more than the
-- cooldown. A refused call sends no request, fails with the open circuit and leaves the breaker alone.
pub call_settles :
    (asked settled later : Time) (w : World) (call : Call) (cb : CircuitBreaker)
    → settled + cb.cooldown < later
    → let (e, cb') = do_with_retry asked settled w call cb in
      ((Breaker.allow asked cb).1 ≡ true
        → (cb'.state ≢ state_half_open) × ((Breaker.allow later cb').1 ≡ true))
      × ((Breaker.allow asked cb).1 ≡ false
          → (e.attempts ≡ 0) × (e.error ≡ some circuit_open) × (cb' ≡ cb))
unfolding do_with_retry
call_settles asked settled later w call cb h = elim (Bool-cases (Breaker.allow asked cb).1) [
  | inl yes' ↦
      let r =
        report_recovers (outcome_of (admitted_call w call).signal) settled later
          (Breaker.allow asked cb).0 (admitted_not_open asked cb yes')
          (ground (arith, h, cooldown-allow asked cb)) in
      (λ _. rw yes' r, λ no'. cc)
  | inr no' ↦ (λ yes'. cc, λ _. rw no' (refl, refl, refused-allow asked cb no'))
]

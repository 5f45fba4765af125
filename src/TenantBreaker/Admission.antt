-- ===== src/TenantBreaker/Admission.antt =====
-- How the two breakers of relay/internal/client/breaker.go admit a call together.
use pushward_integrations.Prelude.{◌≡◌, true, false, ◌&&◌, not, arith, Time}
use pushward_integrations.Breaker
use pushward_integrations.Breaker.{CircuitBreaker, state_closed, state_open, state_half_open}
use pushward_integrations.TenantBreaker.{ServerBreaker, TenantBreaker, tenant_allow, blocking}

-- A call goes out exactly when neither breaker is blocking. A refused call leaves the tenant's own
-- breaker half-open only if it was half-open before, and the server's only if it was; a call that
-- goes out leaves both as their own `Allow` does.
pub tenant_allow-both :
    (now : Time) (b : TenantBreaker) (s : ServerBreaker)
    → let (b', s', admitted) = tenant_allow now b s in
      (admitted ≡ (not (Breaker.blocking now b.own) && not (blocking now s)))
      × (admitted ≡ false → b'.own.state ≡ state_half_open → b.own.state ≡ state_half_open)
      × (admitted ≡ false → s'.cb ≡ s.cb)
      × (admitted ≡ true
          → (b'.own ≡ (Breaker.allow now b.own).0) × (s'.cb ≡ (Breaker.allow now s.cb).0))
unfolding tenant_allow blocking Breaker.allow Breaker.blocking Breaker.abort
tenant_allow-both now b s =
    (ground arith, ground arith, ground arith, λ h. (ground arith, ground arith))

-- ===== src/TenantBreaker.antt =====
-- The two breakers of relay/internal/client/breaker.go: one for the whole server, and one for each
-- tenant in front of it. A method takes the clock's reading where the source calls `now()`. The
-- server breaker's mutex makes each of its methods one step.
pub mod Faults
pub mod Isolation
pub mod Admission
use pushward_integrations.Prelude.{
  ℕ, ◌+◌, ◌-◌, Bool, true, false, not, ◌&&◌, List, [], ◌∷◌, Time, Duration, ltb, leb, if◌then◌else◌,
  length, Str, Eq_str,
}
use pushward_integrations.Prelude.GoMap.{Map, put}
use pushward_integrations.Breaker
use pushward_integrations.Breaker.{CircuitBreaker, new_circuit_breaker, is_open}

abbrev pub server_tenants : ℕ
server_tenants = 3

pub record ServerBreaker : Type 0 where
  pub cb : CircuitBreaker
  pub threshold : ℕ
  pub min_tenants : ℕ
  pub window : Duration
  pub streak : ℕ
  pub last_fault : Time
  pub tenants : Map Str (Unit {0})

unfoldable pub new_server_breaker : ℕ → Duration → ServerBreaker
unfolding new_circuit_breaker
new_server_breaker threshold cooldown = record {
  cb = new_circuit_breaker 1 cooldown;
  threshold = threshold;
  min_tenants = server_tenants;
  window = cooldown;
  streak = 0;
  last_fault = 0;
  tenants = [];
}

unfoldable pub allow : Time → ServerBreaker → ServerBreaker × Bool
allow now s = let (cb', admitted) = Breaker.allow now s.cb in (record s { cb = cb' }, admitted)

unfoldable pub abort : Time → ServerBreaker → ServerBreaker
abort now s = record s { cb = Breaker.abort now s.cb }

unfoldable pub blocking : Time → ServerBreaker → Bool
blocking now s = Breaker.blocking now s.cb

unfoldable pub reset_locked : ServerBreaker → ServerBreaker
reset_locked s = record s { streak = 0; tenants = [] }

unfoldable pub record_success : ServerBreaker → ServerBreaker
unfolding reset_locked
record_success s = reset_locked (record s { cb = Breaker.record_success s.cb })

unfoldable pub record_reachable : ServerBreaker → ServerBreaker
record_reachable s = record s { cb = Breaker.record_reachable s.cb }

-- A gap since the last fault, `now.Sub(lastFault) > window`, ends the streak. If the clock went back
-- the difference is negative and not above the window, and neither is the 0 that stands for it here.
unfoldable pub forget_stale : Time → ServerBreaker → ServerBreaker
unfolding reset_locked
forget_stale now s =
    if ltb 0 s.streak && ltb s.window (now - s.last_fault) then reset_locked s else s

-- `s.streak++`, the fault's time and tenant.
unfoldable pub count_fault : Time → Str → ServerBreaker → ServerBreaker
count_fault now tenant s = record s {
  streak = s.streak + 1;
  last_fault = now;
  tenants = put tenant tt s.tenants;
}

-- The gate in front of the server's CircuitBreaker.
unfoldable pub gate : Time → ServerBreaker → ServerBreaker
unfolding reset_locked
gate now s =
    if leb s.threshold s.streak && leb s.min_tenants (length s.tenants)
    then reset_locked (record s { cb = Breaker.record_failure now s.cb })
    else s

unfoldable pub record_failure : Time → Str → ServerBreaker → ServerBreaker
unfolding forget_stale count_fault gate
record_failure now tenant s =
    if is_open s.cb
    then record s { cb = Breaker.record_failure now s.cb }
    else gate now (count_fault now tenant (forget_stale now s))

-- A tenant's breaker points to the one server breaker that all share: its methods take the shared
-- state and return it.
pub record TenantBreaker : Type 0 where
  pub tenant : Str
  pub own : CircuitBreaker

-- `Allow`: the outcome of the server's breaker is asked for only if the own one admits the call.
unfoldable pub after_server :
    Time → TenantBreaker → ServerBreaker × Bool → TenantBreaker × ServerBreaker × Bool
after_server now b (s, true) = (b, s, true)
after_server now b (s, false) = (record b { own = Breaker.abort now b.own }, s, false)

unfoldable pub after_own :
    Time
    → CircuitBreaker × Bool
    → TenantBreaker
    → ServerBreaker
    → TenantBreaker × ServerBreaker × Bool
unfolding after_server allow
after_own now (own, false) b s = (record b { own = own }, s, false)
after_own now (own, true) b s = after_server now (record b { own = own }) (allow now s)

unfoldable pub tenant_allow :
    Time → TenantBreaker → ServerBreaker → TenantBreaker × ServerBreaker × Bool
unfolding after_own
tenant_allow now b s = after_own now (Breaker.allow now b.own) b s

unfoldable pub tenant_success : TenantBreaker → ServerBreaker → TenantBreaker × ServerBreaker
unfolding record_success
tenant_success b s = (record b { own = Breaker.record_success b.own }, record_success s)

unfoldable pub tenant_reachable : TenantBreaker → ServerBreaker → TenantBreaker × ServerBreaker
unfolding record_reachable
tenant_reachable b s = (record b { own = Breaker.record_reachable b.own }, record_reachable s)

unfoldable pub tenant_failure : Time → TenantBreaker → ServerBreaker → TenantBreaker × ServerBreaker
unfolding record_failure
tenant_failure now b s =
    (record b { own = Breaker.record_failure now b.own }, record_failure now b.tenant s)

unfoldable pub tenant_abort : Time → TenantBreaker → ServerBreaker → TenantBreaker × ServerBreaker
unfolding abort
tenant_abort now b s = (record b { own = Breaker.abort now b.own }, abort now s)

-- What happens to the shared server breaker: a call asks it, or reports to it.
pub data ServerEvent : Type 0 where
  asks succeeds reaches aborts : Time → ServerEvent
  fails : Time → Str → ServerEvent

unfoldable pub server_step : ServerEvent → ServerBreaker → ServerBreaker
unfolding allow record_success record_reachable abort record_failure
server_step (asks now) s = (allow now s).0
server_step (succeeds now) s = record_success s
server_step (reaches now) s = record_reachable s
server_step (aborts now) s = abort now s
server_step (fails now tenant) s = record_failure now tenant s

unfoldable pub server_run : List ServerEvent → ServerBreaker → ServerBreaker
unfolding server_step
server_run [] s = s
server_run (e ∷ es) s = server_run es (server_step e s)

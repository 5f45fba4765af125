-- ===== src/TenantBreaker/Faults.antt =====
-- The fault streak of the server breaker, relay/internal/client/breaker.go.
use pushward_integrations.Prelude.{
  ℕ, ◌+◌, ◌≤◌, ◌<◌, max, [], arith, Time, Duration, length, Str, Eq_str,
}
use pushward_integrations.Prelude.GoMap.{Map, put, Distinct, Distinct-put, length-put}
use pushward_integrations.TenantBreaker.{
  ServerBreaker, new_server_breaker, record_failure, ServerEvent, asks, succeeds, reaches, aborts,
  fails, server_step,
}

-- The tenants are distinct, no more than the streak, and fewer than would open the breaker.
pub record IsValid (s : ServerBreaker) : Type 0 where
  pub positive : 0 < s.min_tenants
  pub distinct : Distinct s.tenants
  pub counted : length s.tenants ≤ s.streak
  pub below : length s.tenants < max s.threshold s.min_tenants

pub new-IsValid :
    (threshold : ℕ) (cooldown : Duration) → IsValid (new_server_breaker threshold cooldown)
unfolding new_server_breaker
new-IsValid threshold cooldown = ground arith

length-put-le : (t : Str) (m : Map Str (Unit {0})) → length (put t tt m) ≤ length m + 1
length-put-le t m = ground (arith, length-put t tt m)

fault-IsValid :
    (now : Time) (t : Str) (s : ServerBreaker) → IsValid s → IsValid (record_failure now t s)
unfolding record_failure
fault-IsValid now t s v = ground (
  arith,
  length-put-le t s.tenants,
  length-put-le t [],
  Distinct-put {0, 0} t tt s.tenants,
  Distinct-put {0, 0} t tt [] tt,
)

-- Every event keeps the set of tenants distinct, no larger than the streak, and below
-- max(threshold, minTenants).
pub server_step-IsValid :
    (e : ServerEvent) (s : ServerBreaker) → IsValid s → IsValid (server_step e s)
unfolding server_step
server_step-IsValid (asks now) s v = ground arith
server_step-IsValid (succeeds now) s v = ground arith
server_step-IsValid (reaches now) s v = ground arith
server_step-IsValid (aborts now) s v = ground arith
server_step-IsValid (fails now t) s v = fault-IsValid now t s v

-- ===== src/TenantBreaker/Isolation.antt =====
-- One tenant's faults and the others: relay/internal/client/breaker.go.
use pushward_integrations.Prelude.{
  ℕ, ◌+◌, ◌≤◌, ◌≡◌, ◌≢◌, refl, ◌⊎◌, true, false, List, [], ◌∷◌, arith, Time, Duration, length, Str,
  Eq_str, str_eq_iff,
}
use pushward_integrations.Prelude.GoMap.{Map, put, get, Distinct, Distinct-put}
use pushward_integrations.Breaker
use pushward_integrations.Breaker.{
  CircuitBreaker, state_closed, state_open, new_circuit_breaker, is_open,
}
use pushward_integrations.TenantBreaker.{
  ServerBreaker, new_server_breaker, allow, abort, record_success, record_reachable, record_failure,
  ServerEvent, asks, succeeds, reaches, aborts, fails, server_step, server_run, TenantBreaker,
  tenant_allow,
}

module _ (a b : Str) where
  abbrev pub IsEither : Str → Type 0
  IsEither t = (t ≡ a) ⊎ (t ≡ b)

  -- Every failure among the events is by one of the two tenants.
  abbrev pub FailsOnlyBy : List ServerEvent → Type 0
  FailsOnlyBy [] = Unit
  FailsOnlyBy (fails now t ∷ es) = IsEither t × FailsOnlyBy es
  FailsOnlyBy (_ ∷ es) = FailsOnlyBy es

  abbrev KeysEither : Map Str (Unit {0}) → Type 0
  KeysEither [] = Unit
  KeysEither ((t, u) ∷ m) = IsEither t × KeysEither m

  KeysEither-put :
      (t : Str) (m : Map Str (Unit {0})) → IsEither t → KeysEither m → KeysEither (put t tt m)
  unfolding put
  KeysEither-put t [] h k = (h, tt)
  KeysEither-put t ((j, u) ∷ m) h k = ground (arith, KeysEither-put t m h)

  -- Two keys are all that there are.
  length-KeysEither : (m : Map Str (Unit {0})) → Distinct m → KeysEither m → length m ≤ 2
  unfolding get
  length-KeysEither [] d k = omega arith
  length-KeysEither (x ∷ []) d k = omega arith
  length-KeysEither (x ∷ y ∷ []) d k = omega arith
  length-KeysEither ((x, u) ∷ (y, v) ∷ (z, w) ∷ m) d k =
      ground (arith, str_eq_iff y x, str_eq_iff z x, str_eq_iff z y)

  record Quiet (s : ServerBreaker) : Type 0 where
    shut : s.cb.state ≡ state_closed
    gate : s.min_tenants ≡ 3
    distinct : Distinct s.tenants
    keys : KeysEither s.tenants

  fault-Quiet :
      (now : Time) (t : Str) (s : ServerBreaker)
      → IsEither t
      → Quiet s
      → Quiet (record_failure now t s)
  unfolding record_failure is_open
  fault-Quiet now t s h q =
      let d = Distinct-put {0, 0} t tt s.tenants q.distinct in
      let d' = Distinct-put {0, 0} {K = Str} {V = Unit {0}} t tt [] tt in
      let k = KeysEither-put t s.tenants h q.keys in
      let k' = KeysEither-put t [] h tt in
      ground
        (arith, length-KeysEither (put t tt s.tenants) d k, length-KeysEither (put t tt []) d' k')

  server_run-Quiet :
      (es : List ServerEvent) (s : ServerBreaker)
      → FailsOnlyBy es
      → Quiet s
      → Quiet (server_run es s)
  unfolding server_run server_step Breaker.allow Breaker.abort Breaker.record_reachable
      Breaker.record_success
  server_run-Quiet [] s f q = q
  server_run-Quiet (fails now t ∷ es) s f q =
      server_run-Quiet es (record_failure now t s) f.1 (fault-Quiet now t s f.0 q)
  server_run-Quiet (asks now ∷ es) s f q = server_run-Quiet es (allow now s).0 f (ground arith)
  server_run-Quiet (succeeds now ∷ es) s f q =
      server_run-Quiet es (record_success s) f (ground arith)
  server_run-Quiet (reaches now ∷ es) s f q =
      server_run-Quiet es (record_reachable s) f (ground arith)
  server_run-Quiet (aborts now ∷ es) s f q = server_run-Quiet es (abort now s) f (ground arith)

  -- From a new server breaker, after any events at any times in which at most two tenants fail,
  -- however often, the server breaker is closed, and a call of every tenant whose own breaker admits
  -- it goes out.
  pub two_tenants_never_open :
      (threshold : ℕ) (cooldown : Duration) (es : List ServerEvent) (now : Time)
      (other : TenantBreaker)
      → FailsOnlyBy es
      → (is_open (server_run es (new_server_breaker threshold cooldown)).cb ≡ false)
        × ((tenant_allow now other (server_run es (new_server_breaker threshold cooldown))).2
            ≡ (Breaker.allow now other.own).1)
  unfolding new_server_breaker tenant_allow allow Breaker.allow is_open
  two_tenants_never_open threshold cooldown es now other f =
      let q =
        server_run-Quiet es (new_server_breaker threshold cooldown) f
          (record { shut = refl; gate = refl; distinct = tt; keys = tt }) in
      (ground arith, ground arith)

-- Three faults in a row of three different tenants, each within the window of the one before, open a
-- new server breaker whose threshold is at most 3, and the streak is forgotten.
pub three_tenants_open :
    (threshold : ℕ) (cooldown : Duration) (a b c : Str) (t₁ t₂ t₃ : Time)
    → threshold ≤ 3
    → a ≢ b
    → a ≢ c
    → b ≢ c
    → t₂ ≤ t₁ + cooldown
    → t₃ ≤ t₂ + cooldown
    → let s =
        server_run
          (fails t₁ a ∷ fails t₂ b ∷ fails t₃ c ∷ [])
          (new_server_breaker threshold cooldown) in
      (is_open s.cb ≡ true) × (s.streak ≡ 0) × (s.tenants ≡ []) × (Breaker.blocking t₃ s.cb ≡ true)
unfolding new_server_breaker server_run record_failure is_open put Breaker.record_failure
    Breaker.blocking
three_tenants_open threshold cooldown a b c t₁ t₂ t₃ h ab ac bc w₂ w₃ =
    ground (arith, str_eq_iff a b, str_eq_iff a c, str_eq_iff b c)

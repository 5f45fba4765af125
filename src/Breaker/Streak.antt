-- ===== src/Breaker/Streak.antt =====
-- Which outcomes count towards opening the breaker of shared/pushward/breaker.go, and which do not.
use pushward_integrations.Prelude.{
  ℕ, suc, ◌+◌, ◌<◌, ◌≡◌, refl, ◌⊎◌, List, [], ◌∷◌, arith, Time, Duration, leb,
}
use pushward_integrations.Breaker.{
  CircuitBreaker, state_closed, state_open, new_circuit_breaker, is_open, Outcome, success,
  reachable, failure, aborted, report, report_all,
}

-- A closed breaker's streak is below the threshold.
pub record IsValid (cb : CircuitBreaker) : Type 0 where
  pub below : cb.state ≡ state_closed → (cb.failures ≡ 0) ⊎ (cb.failures < cb.threshold)

-- A new breaker is valid.
pub new-IsValid :
    (threshold : ℕ) (cooldown : Duration) → IsValid (new_circuit_breaker threshold cooldown)
unfolding new_circuit_breaker
new-IsValid threshold cooldown = ground arith

pub report-IsValid :
    (o : Outcome) (now : Time) {cb : CircuitBreaker} → IsValid cb → IsValid (report o now cb)
unfolding report
report-IsValid o now v = ground arith

pub report_all-IsValid :
    (os : List (Outcome × Time)) {cb : CircuitBreaker} → IsValid cb → IsValid (report_all os cb)
unfolding report_all
report_all-IsValid [] v = v
report_all-IsValid ((o, now) ∷ os) v = report_all-IsValid os (report-IsValid o now v)

-- `success` ends a streak; the other three do not.
abbrev pub NoSuccess : List (Outcome × Time) → Type 0
NoSuccess [] = Unit
NoSuccess ((success, now) ∷ os) = ⊥
NoSuccess ((_, now) ∷ os) = NoSuccess os

abbrev pub count_failures : List (Outcome × Time) → ℕ
count_failures [] = 0
count_failures ((failure, now) ∷ os) = suc (count_failures os)
count_failures ((_, now) ∷ os) = count_failures os

stays_open :
    (os : List (Outcome × Time)) (cb : CircuitBreaker)
    → NoSuccess os
    → cb.state ≡ state_open
    → (report_all os cb).state ≡ state_open
unfolding report_all report
stays_open [] cb n h = h
stays_open ((success, now) ∷ os) cb n h = absurd n
stays_open ((reachable, now) ∷ os) cb n h = stays_open os _ n (ground arith)
stays_open ((failure, now) ∷ os) cb n h = stays_open os _ n (ground arith)
stays_open ((aborted, now) ∷ os) cb n h = stays_open os _ n (ground arith)

trips_from :
    (os : List (Outcome × Time)) (cb : CircuitBreaker)
    → NoSuccess os
    → cb.state ≡ state_closed
    → cb.failures < cb.threshold
    → is_open (report_all os cb) ≡ leb cb.threshold (cb.failures + count_failures os)
unfolding report_all report is_open
trips_from [] cb n c f = ground arith
trips_from ((success, now) ∷ os) cb n c f = absurd n
trips_from ((reachable, now) ∷ os) cb n c f = ground (arith, trips_from os cb n c f)
trips_from ((aborted, now) ∷ os) cb n c f = ground (arith, trips_from os cb n c f)
trips_from ((failure, now) ∷ os) cb n c f = ground (
  arith,
  trips_from os (record cb { failures = cb.failures + 1 }) n c,
  stays_open os (report failure now cb) n,
)

-- A new breaker with a positive threshold, told any outcomes among which is no success, is open
-- exactly when at least `threshold` of them were failures: reachable and aborted calls in between
-- neither count nor end the streak.
pub opens_at_threshold :
    (threshold : ℕ) (cooldown : Duration) (os : List (Outcome × Time))
    → 0 < threshold
    → NoSuccess os
    → is_open (report_all os (new_circuit_breaker threshold cooldown))
      ≡ leb threshold (count_failures os)
unfolding new_circuit_breaker
opens_at_threshold threshold cooldown os p n =
    ground (arith, trips_from os (new_circuit_breaker threshold cooldown) n refl p)

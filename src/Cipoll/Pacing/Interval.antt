-- ===== src/Cipoll/Pacing/Interval.antt =====
-- The pace of the idle tier, shared/cipoll/poller.go.
use pushward_integrations.Prelude.{
  ℕ, ◌+◌, ◌≤◌, ◌≡◌, ◌≢◌, ◌↔◌, true, false, Option, arith, Time, length,
}
use pushward_integrations.Prelude.Float.{Float64}
use pushward_integrations.Cipoll.Pacing.{
  Options, Poller, due, effective_idle_interval, claim_idle_pass,
}

module _ {T : Type 0} (opts : Options) (fl : Float64) where
  -- After a pass claimed at a non-zero time, the test claims the next one exactly when the effective
  -- interval has elapsed; a claim moves the stamp to its own time and a refusal leaves it.
  pub claims_apart :
      (a b c : Time) (budget : Option (ℕ × Time)) (p : Poller T)
      → p.last_idle ≢ 0
      → let (claimed, after) = claim_idle_pass opts fl a b c budget p in
        ((claimed ≡ true)
          ↔ (p.last_idle + effective_idle_interval opts fl a budget (length p.repos) p ≤ b))
        × ((claimed ≡ true) → after.last_idle ≡ c)
        × ((claimed ≡ false) → after.last_idle ≡ p.last_idle)
  unfolding claim_idle_pass due
  claims_apart a b c budget p h = ground arith

-- ===== src/Ender/Retry.antt =====
-- `updateWithRetry` of relay/internal/lifecycle/ender.go: the answers of the server to the two
-- attempts, and whether the Ender is shut down during the pause, are arguments.
use pushward_integrations.Prelude.{
  ℕ, ◌≡◌, ◌≢◌, refl, inl, inr, ◌⊎◌, Bool, true, false, Option, none, some, if◌then◌else◌,
}

-- The error that is returned, if any, and how many attempts were made.
unfoldable pub update_with_retry {ℓ} : {E : Type ℓ} → Option E → Bool → Option E → Option E × ℕ
update_with_retry none shut_down second = (none, 1)
update_with_retry (some err) shut_down second = if shut_down then (some err, 1) else (second, 2)

-- It fails exactly if the first attempt failed and either the Ender was shut down during the pause or
-- the second attempt failed too; a second attempt is made only after a failure and a full pause.
pub update_with_retry_outcome {ℓ} :
    {E : Type ℓ} (first second : Option E) (shut_down : Bool)
    → ((update_with_retry first shut_down second).0 ≢ none
        → (first ≢ none) × ((shut_down ≡ true) ⊎ (second ≢ none)))
      × (first ≡ none → update_with_retry first shut_down second ≡ (none, 1))
      × (first ≢ none → shut_down ≡ false → update_with_retry first shut_down second ≡ (second, 2))
      × (first ≢ none → shut_down ≡ true → update_with_retry first shut_down second ≡ (first, 1))
unfolding update_with_retry
update_with_retry_outcome none second shut_down =
    (λ h. absurd (h refl), λ h. refl, λ h s. absurd (h refl), λ h s. absurd (h refl))
update_with_retry_outcome (some x) second true =
    (λ h. ((λ q. cc), inl refl), λ h. cc, λ h s. cc, λ h s. refl)
update_with_retry_outcome (some x) second false =
    (λ h. ((λ q. cc), inr h), λ h. cc, λ h s. refl, λ h s. cc)

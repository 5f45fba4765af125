-- ===== src/Ci/Weights/Project.antt =====
-- `ProjectWeights` and `UniformWeights` of shared/ci/weights.go: the sizes of what they return.
use pushward_integrations.Prelude.{
  ℕ, zero, suc, ◌≡◌, ◌≢◌, refl, inl, inr, none, some, Option-cases, List, [], ◌∷◌, map, arith, Str,
  Eq_str, length, length-map, length-replicate, get_elem?, replicate,
}
use pushward_integrations.Prelude.Float.{Float64}
use pushward_integrations.Prelude.GoMap.{Map, get}
use pushward_integrations.Ci.Weights.{
  step_weight_floor, mean_weight, or_mean, project_weights, uniform_weights,
}

get_elem?-map {ℓ κ} :
    {A : Type ℓ} {B : Type κ} (f : A → B) (xs : List A) (i : ℕ) (x : A)
    → get_elem? xs i ≡ some x
    → get_elem? (map f xs) i ≡ some (f x)
get_elem?-map f [] i x h = cc
get_elem?-map f (y ∷ xs) zero x h = ground (arith, h)
get_elem?-map f (y ∷ xs) (suc i) x h = get_elem?-map f xs i x h

module _ (fl : Float64) where
  -- With any history at all, `ProjectWeights` returns one weight for each label, in the labels' order:
  -- the label's own where it has one, else the floored mean of the history; without history it returns
  -- nil. `UniformWeights` of a positive n returns n weights.
  pub project_weights-aligned :
      (labels : List Str) (by_name : Map Str fl.F) (n : ℕ)
      → (by_name ≢ []
          → (mean : fl.F) × ((out : List fl.F) × ((mean_weight fl by_name ≡ some mean)
                × ((project_weights fl labels by_name ≡ some out)
                    × ((length out ≡ length labels)
                        × ((i : ℕ) (l : Str)
                            → get_elem? labels i ≡ some l
                            → get_elem? out i ≡ some (or_mean fl (get l by_name) mean)))))))
        × ((project_weights fl labels [] ≡ none)
            × ((out : List fl.F) × ((uniform_weights fl (suc n) ≡ some out)
                  × (length out ≡ suc n))))
  unfolding project_weights uniform_weights mean_weight
  project_weights-aligned labels by_name n = (
    λ some_history. elim (Option-cases (mean_weight fl by_name)) [
      | inl absent ↦ absurd (ground (arith, absent, some_history))
      | inr (mean, e) ↦ (
        mean,
        (
          map (λ l. or_mean fl (get l by_name) mean) labels,
          (
            e,
            (
              rw (e, project_weights) refl,
              (
                length-map labels (λ l. or_mean fl (get l by_name) mean),
                λ i l h. get_elem?-map (λ l. or_mean fl (get l by_name) mean) labels i l h,
              ),
            ),
          ),
        ),
      )
    ],
    (
      refl,
      (
        replicate (suc n) (step_weight_floor fl),
        (ground arith, length-replicate (suc n) (step_weight_floor fl)),
      ),
    ),
  )

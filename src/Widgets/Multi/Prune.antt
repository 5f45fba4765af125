-- ===== src/Widgets/Multi/Prune.antt =====
-- Which series the prune of shared/widgets/manager.go keeps.
use pushward_integrations.Prelude.{
  ◌≤◌, ◌≡◌, refl, ◌∙◌, Bool, Option, none, some, Option-cases, List, [], ◌∷◌, if◌then◌else◌, Str,
  str_eq, str_eq_iff, Eq_str, length, arith, inl, inr,
}
use pushward_integrations.Prelude.Float.{Float64}
use pushward_integrations.Prelude.GoMap.{Map, get, Distinct}
use pushward_integrations.Widgets.{Spec}
use pushward_integrations.Widgets.Multi.{SeriesState, is_seen, missed, prune, keep_series}

module _ (fl : Float64) (spec : Spec fl) (seen : List Str) (deletes : Str → Bool) where
  -- What becomes of a series.
  abbrev pub kept : Str → Option (SeriesState fl) → Option (SeriesState fl)
  kept slug none = none
  kept slug (some st) = if is_seen fl seen slug then some st else missed fl spec (deletes slug) st

  get-keep_series :
      (slug j : Str) (o : Option (SeriesState fl)) (m : Map Str (SeriesState fl))
      → get slug m ≡ none
      → get j (keep_series fl slug o m) ≡ (if str_eq slug j then o else get j m)
  unfolding get
  get-keep_series slug j none m absent = ground (arith, str_eq_iff slug j, absent)
  get-keep_series slug j (some st) m absent = refl

  -- The prune leaves a series that was seen as it is. One that was not is dropped exactly when its misses
  -- reach the grace and, where missing widgets are deleted, its delete lands; else its miss is counted.
  pub get-prune :
      (m : Map Str (SeriesState fl)) (j : Str)
      → Distinct m
      → get j (prune fl spec seen deletes m) ≡ kept j (get j m)
  unfolding prune get
  get-prune [] j d = refl
  get-prune ((slug, st) ∷ m) j (absent, d) =
      let o = if is_seen fl seen slug then some st else missed fl spec (deletes slug) st in
      get-keep_series slug j o (prune fl spec seen deletes m)
        (get-prune m slug d ∙ ground (arith, absent))
      ∙ ground (arith, str_eq_iff slug j, get-prune m j d)

  pub length-prune-le :
      (m : Map Str (SeriesState fl)) → length (prune fl spec seen deletes m) ≤ length m
  unfolding prune
  length-prune-le [] = omega arith
  length-prune-le ((slug, st) ∷ m) =
      elim (Option-cases
        (if is_seen fl seen slug then some st else missed fl spec (deletes slug) st)) [
          | inl gone ↦ rw gone (omega (arith, length-prune-le m))
          | inr (st', stays) ↦ rw stays (omega (arith, length-prune-le m))
        ]

  pub Distinct-prune :
      (m : Map Str (SeriesState fl)) → Distinct m → Distinct (prune fl spec seen deletes m)
  unfolding prune
  Distinct-prune [] d = tt
  Distinct-prune ((slug, st) ∷ m) (absent, d) =
      elim (Option-cases
        (if is_seen fl seen slug then some st else missed fl spec (deletes slug) st)) [
          | inl gone ↦ rw gone (Distinct-prune m d)
          | inr (st', stays) ↦
              rw stays (get-prune m slug d ∙ ground (arith, absent), Distinct-prune m d)
        ]

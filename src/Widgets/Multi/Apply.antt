-- ===== src/Widgets/Multi/Apply.antt =====
-- The series after a poll, `applyMulti` of shared/widgets/manager.go.
use pushward_integrations.Prelude.{
  suc, ◌≤◌, ◌≡◌, ◌≢◌, ◌↔◌, refl, sym, subst, ap, ◌∙◌, Bool, true, false, ◌&&◌, Bool-cases, Option,
  none, some, List, [], ◌∷◌, Str, str_eq, Eq_str, length, arith, inl, inr, All, leb, leb_false→lt,
}
use pushward_integrations.Prelude.Int.{to_ℕ}
use pushward_integrations.Prelude.Float.{Float64}
use pushward_integrations.Prelude.GoMap.{Map, get, put, Distinct, Distinct-put, length-put, get-put}
use pushward_integrations.Widgets.{Spec, is_finite}
use pushward_integrations.Widgets.Multi.{
  SeriesState, Sample, Tally, is_seen, missed, create_series, update_series, apply_known,
  apply_slug, apply_value, apply_values, apply_multi, fresh,
}
use pushward_integrations.Widgets.Multi.Prune.{kept, get-prune, length-prune-le, Distinct-prune}

module _ (fl : Float64) (spec : Spec fl) where
  -- One entry for a slug, and no more entries than the cap.
  abbrev pub IsTracked : Map Str (SeriesState fl) → Type 0
  IsTracked m = Distinct m × (length m ≤ to_ℕ spec.max_series)

  put_known-IsTracked :
      (slug : Str) (st st' : SeriesState fl) (m : Map Str (SeriesState fl))
      → get slug m ≡ some st
      → IsTracked m
      → IsTracked (put slug st' m)
  put_known-IsTracked slug st st' m known (d, le) =
      (Distinct-put slug st' m d, ground (arith, length-put slug st' m, known, le))

  put_new-IsTracked :
      (slug : Str) (st' : SeriesState fl) (m : Map Str (SeriesState fl))
      → get slug m ≡ none
      → suc (length m) ≤ to_ℕ spec.max_series
      → IsTracked m
      → IsTracked (put slug st' m)
  put_new-IsTracked slug st' m new room (d, le) =
      (Distinct-put slug st' m d, ground (arith, length-put slug st' m, new, room))

  module _ (first_time : Bool) where
    apply_known-IsTracked :
        (slug : Str) (x : Sample fl) (o : Option (SeriesState fl)) (y : Tally fl)
        → get slug y.series ≡ o
        → IsTracked y.series
        → IsTracked (apply_known fl spec first_time slug x o y).series
    unfolding apply_known create_series update_series
    apply_known-IsTracked slug x (some st) y known ok =
        let fresh_ok = put_known-IsTracked slug st (fresh fl x) y.series known ok in
        let reset_ok =
          put_known-IsTracked slug st (record st { miss_count = 0 }) y.series known ok in
        ground (arith, fresh_ok, reset_ok, ok)
    apply_known-IsTracked slug x none y new ok =
        elim (Bool-cases (leb (to_ℕ spec.max_series) (length y.series))) [
          | inl full ↦ rw full ok
          | inr room ↦
              let fresh_ok =
                put_new-IsTracked slug (fresh fl x) y.series new
                  (leb_false→lt (to_ℕ spec.max_series) (length y.series) room) ok in
              elim (Bool-cases x.lands) [
                | inl lands ↦ rw (room, lands) fresh_ok
                | inr lost ↦ rw (room, lost) ok
              ]
        ]

    apply_slug-IsTracked :
        (x : Sample fl) (o : Option Str) (y : Tally fl)
        → IsTracked y.series
        → IsTracked (apply_slug fl spec first_time x o y).series
    unfolding apply_slug
    apply_slug-IsTracked x none y ok = ok
    apply_slug-IsTracked x (some slug) y ok =
        apply_known-IsTracked slug x (get slug y.series) y refl ok

    apply_values-IsTracked :
        (xs : List (Sample fl)) (y : Tally fl)
        → IsTracked y.series
        → IsTracked (apply_values fl spec first_time xs y).series
    unfolding apply_values apply_value
    apply_values-IsTracked [] y ok = ok
    apply_values-IsTracked (x ∷ xs) y ok =
        let y' = apply_value fl spec first_time x y in
        let step : IsTracked y'.series = elim (Bool-cases (is_finite fl x.value)) [
          | inl finite ↦ rw finite (apply_slug-IsTracked x x.slug y ok)
          | inr other ↦ rw other ok
        ] in
        elim (Bool-cases y'.failed) [
          | inl failed ↦ rw failed step
          | inr going ↦ rw going (apply_values-IsTracked xs y' step)
        ]

    -- The slug that a value is about.
    abbrev pub names : Str → Sample fl → Bool
    names j x = is_finite fl x.value && elim x.slug [ none ↦ false | some s ↦ str_eq s j ]

    -- A value about another series.
    abbrev Leaves : Str → Tally fl → Tally fl → Type 0
    Leaves j y y' =
        (get j y'.series ≡ get j y.series) × (is_seen fl y'.seen j ≡ is_seen fl y.seen j)

    apply_known-Leaves :
        (slug j : Str) (x : Sample fl) (o : Option (SeriesState fl)) (y : Tally fl)
        → str_eq slug j ≡ false
        → Leaves j y (apply_known fl spec first_time slug x o y)
    unfolding apply_known create_series update_series
    apply_known-Leaves slug j x (some st) y h = ground (
      arith,
      h,
      get-put slug j (fresh fl x) y.series,
      get-put slug j (record st { miss_count = 0 }) y.series,
    )
    apply_known-Leaves slug j x none y h = ground (arith, h, get-put slug j (fresh fl x) y.series)

    apply_slug-Leaves :
        (j : Str) (x : Sample fl) (o : Option Str) (y : Tally fl)
        → elim o [ none ↦ false | some s ↦ str_eq s j ] ≡ false
        → Leaves j y (apply_slug fl spec first_time x o y)
    unfolding apply_slug
    apply_slug-Leaves j x none y h = (refl, refl)
    apply_slug-Leaves j x (some slug) y h = apply_known-Leaves slug j x (get slug y.series) y h

    apply_value-Leaves :
        (j : Str) (x : Sample fl) (y : Tally fl)
        → names j x ≡ false
        → Leaves j y (apply_value fl spec first_time x y)
    unfolding apply_value
    apply_value-Leaves j x y h = elim (Bool-cases (is_finite fl x.value)) [
      | inl finite ↦ rw finite (apply_slug-Leaves j x x.slug y (ground (arith, h, finite)))
      | inr other ↦ rw other (refl, refl)
    ]

    apply_values-Leaves :
        (j : Str) (xs : List (Sample fl)) (y : Tally fl)
        → All (λ x. names j x ≡ false) xs
        → Leaves j y (apply_values fl spec first_time xs y)
    unfolding apply_values
    apply_values-Leaves j [] y h = (refl, refl)
    apply_values-Leaves j (x ∷ xs) y (h, hs) =
        let y' = apply_value fl spec first_time x y in
        let (a, b) = apply_value-Leaves j x y h in
        let (c, d) = apply_values-Leaves j xs y' hs in
        elim (Bool-cases y'.failed) [
          | inl failed ↦ rw failed (a, b)
          | inr going ↦ rw going (c ∙ a, d ∙ b)
        ]

  abbrev begin : Map Str (SeriesState fl) → Tally fl
  begin m = record { seen = []; series = m; failed = false }

  -- Whatever the poll returns and whichever calls fail, the series stay within the cap, one entry for each
  -- slug.
  pub apply_multi-IsTracked :
      (first_time : Bool) (xs : List (Sample fl)) (deletes : Str → Bool)
      (m : Map Str (SeriesState fl))
      → IsTracked m
      → IsTracked (apply_multi fl spec first_time xs deletes m).0
  unfolding apply_multi
  apply_multi-IsTracked first_time xs deletes m ok =
      let y = apply_values fl spec first_time xs (begin m) in
      let applied : IsTracked y.series = apply_values-IsTracked first_time xs (begin m) ok in
      elim (Bool-cases y.failed) [
        | inl failed ↦ rw failed applied
        | inr done ↦ rw done (
          Distinct-prune fl spec y.seen deletes y.series applied.0,
          omega (arith, length-prune-le fl spec y.seen deletes y.series, applied.1),
        )
      ]

  missed_lem :
      (deleted : Bool) (st : SeriesState fl)
      → let after = missed fl spec deleted st in
        ((after ≡ none) ↔ (
          (to_ℕ spec.miss_grace ≤ suc st.miss_count)
          × (spec.cleanup_missing ≡ true → deleted ≡ true)))
        × ((after ≢ none) → after ≡ some (record st { miss_count = suc st.miss_count }))
  unfolding missed
  missed_lem deleted st = ground arith

  apply_multi-missed :
      (first_time : Bool) (xs : List (Sample fl)) (deletes : Str → Bool)
      (m : Map Str (SeriesState fl)) (j : Str) (st : SeriesState fl)
      → IsTracked m
      → get j m ≡ some st
      → All (λ x. names first_time j x ≡ false) xs
      → (apply_multi fl spec first_time xs deletes m).1 ≡ false
      → get j (apply_multi fl spec first_time xs deletes m).0 ≡ missed fl spec (deletes j) st
  unfolding apply_multi
  apply_multi-missed first_time xs deletes m j st ok known absent fine =
      let y = apply_values fl spec first_time xs (begin m) in
      let applied : IsTracked y.series = apply_values-IsTracked first_time xs (begin m) ok in
      let (same, unseen) = apply_values-Leaves first_time j xs (begin m) absent in
      elim (Bool-cases y.failed) [
        | inl failed ↦ absurd (ground (arith, failed, fine))
        | inr done ↦ rw done (
            get-prune fl spec y.seen deletes y.series j applied.0
            ∙ ap (kept fl spec y.seen deletes j) (same ∙ known)
            ∙ rw unseen refl)
      ]

  -- Of a series that no finite value of the poll is about, a poll that returns no error drops it exactly
  -- when its misses, this one counted, reach the grace and, where missing widgets are deleted, its delete
  -- lands; else it keeps it with one miss more and nothing else changed.
  pub apply_multi_absent :
      (first_time : Bool) (xs : List (Sample fl)) (deletes : Str → Bool)
      (m : Map Str (SeriesState fl)) (j : Str) (st : SeriesState fl)
      → IsTracked m
      → get j m ≡ some st
      → All (λ x. names first_time j x ≡ false) xs
      → (apply_multi fl spec first_time xs deletes m).1 ≡ false
      → let after = get j (apply_multi fl spec first_time xs deletes m).0 in
        ((after ≡ none) ↔ (
          (to_ℕ spec.miss_grace ≤ suc st.miss_count)
          × (spec.cleanup_missing ≡ true → deletes j ≡ true)))
        × ((after ≢ none) → after ≡ some (record st { miss_count = suc st.miss_count }))
  apply_multi_absent first_time xs deletes m j st ok known absent fine =
      let same = apply_multi-missed first_time xs deletes m j st ok known absent fine in
      subst
        (λ (o : Option (SeriesState fl)).
          ((o ≡ none) ↔ (
            (to_ℕ spec.miss_grace ≤ suc st.miss_count)
            × (spec.cleanup_missing ≡ true → deletes j ≡ true)))
          × ((o ≢ none) → o ≡ some (record st { miss_count = suc st.miss_count })))
        (sym same) (missed_lem (deletes j) st)

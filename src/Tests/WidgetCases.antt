-- ===== src/Tests/WidgetCases.antt =====
-- The widget manager at concrete inputs.
use pushward_integrations.Prelude.{
  ℕ, ◌≡◌, ◌≢◌, ◌≤◌, ◌↔◌, refl, inr, true, false, none, some, List, [], ◌∷◌, Str, arith, length,
  str_eq, Eq_str,
}
use pushward_integrations.Prelude.Int.{pos}
use pushward_integrations.Prelude.GoMap.{Map, get}
use pushward_integrations.Widgets.{Spec, value, on_change, prepare, with_defaults}
use pushward_integrations.Widgets.Ready.{IsReady, prepare-IsReady}
use pushward_integrations.Widgets.Scalar as Scalar
use pushward_integrations.Widgets.Scalar.{ScalarState, run_scalar, reading}
use pushward_integrations.Widgets.Scalar.Held.{held_after, Mirrors, IsThrifty, run_scalar-Mirrors}
use pushward_integrations.Widgets.StatList.{StatRow, stat_rows_equal_masked}
use pushward_integrations.Widgets.StatList.Masked.{Agree, stat_rows_equal_masked_iff}
use pushward_integrations.Widgets.Multi.{SeriesState, Sample, apply_multi}
use pushward_integrations.Widgets.Multi.Apply.{IsTracked, apply_multi-IsTracked, apply_multi_absent}
use pushward_integrations.Tests.CiCases.{whole, build, check}

abbrev spec : Spec whole
spec = record {
  slug = build;
  name = build;
  template = value;
  source = true;
  point_source = false;
  multi_source = false;
  stat_list_source = false;
  seeded_points = false;
  max_stat_rows = pos 0;
  stat_change_mask = none;
  interval = 60;
  update_mode = on_change;
  min_change = 0;
  heartbeat = 100;
  label_template = [];
  slug_template = [];
  name_template = [];
  max_series = pos 2;
  cleanup_missing = true;
  miss_grace = pos 2;
}

prepare-IsReady_example : IsReady (λ s. true) (λ s. true) (with_defaults whole spec)
unfolding prepare
prepare-IsReady_example =
    prepare-IsReady whole (λ s. true) (λ s. true) spec (with_defaults whole spec) refl

abbrev scalar : ScalarState whole ℕ
scalar = record { last_value = some 3; last_sent = 10; last_content = some 3; needs_create = false }

abbrev tick : Scalar.Tick whole ℕ
tick = record { polled = reading 3; lands = true; checked = 200; sent = 201 }

run_scalar-Mirrors_example :
    let (sent, st') = run_scalar whole ℕ spec (λ v. v) tick scalar in
    Mirrors whole ℕ spec (λ v. v) (held_after true sent (some 3)) st'
    × IsThrifty whole ℕ spec (λ v. v) tick scalar (some 3) sent
run_scalar-Mirrors_example =
    run_scalar-Mirrors whole ℕ spec (λ v. v) tick scalar (some 3) (inr (3, refl, refl, refl))

abbrev row : Str → StatRow
row v = record { label = build; value = v; unit = []; timer = none }

abbrev old_rows : List StatRow
old_rows = row build ∷ row build ∷ []

abbrev new_rows : List StatRow
new_rows = row check ∷ row build ∷ []

stat_rows_equal_masked_iff_example :
    (stat_rows_equal_masked old_rows new_rows (some (false ∷ [])) ≡ true)
    ↔ ((length old_rows ≡ length new_rows) × Agree (some (false ∷ [])) old_rows new_rows)
stat_rows_equal_masked_iff_example =
    stat_rows_equal_masked_iff old_rows new_rows (some (false ∷ []))

abbrev state : SeriesState whole
state = record { last_value = 5; has_value = true; miss_count = 1; last_sent = 10 }

abbrev series : Map Str (SeriesState whole)
series = (build, state) ∷ []

abbrev samples : List (Sample whole)
samples = record { value = 8; slug = some check; lands = true; checked = 20; sent = 21 } ∷ []

series-IsTracked : IsTracked whole spec series
unfolding get
series-IsTracked = ((refl, tt), omega arith)

apply_multi-IsTracked_example :
    IsTracked whole spec (apply_multi whole spec false samples (λ s. true) series).0
apply_multi-IsTracked_example =
    apply_multi-IsTracked whole spec false samples (λ s. true) series series-IsTracked

is_known : get build series ≡ some state
unfolding get str_eq
is_known = refl

succeeds : (apply_multi whole spec false samples (λ s. true) series).1 ≡ false
unfolding apply_multi get str_eq
succeeds = refl

apply_multi_absent_example :
    let after = get build (apply_multi whole spec false samples (λ s. true) series).0 in
    ((after ≡ none) ↔ ((2 ≤ 2) × (true ≡ true → true ≡ true)))
    × ((after ≢ none) → after ≡ some (record state { miss_count = 2 }))
unfolding str_eq
apply_multi_absent_example =
    apply_multi_absent whole spec false samples (λ s. true) series build state series-IsTracked
      is_known (refl, tt) succeeds

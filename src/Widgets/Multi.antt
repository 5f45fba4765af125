-- ===== src/Widgets/Multi.antt =====
-- The series of a multi-source spec, `applyMulti` of shared/widgets/manager.go. The map of the series is
-- walked in the order of its list, which the results do not depend on: each series is looked at once.
pub mod Prune
pub mod Apply
use pushward_integrations.Prelude.{
  ℕ, ◌+◌, Bool, true, false, not, ◌&&◌, ◌||◌, Option, none, some, List, [], ◌∷◌, ltb, leb, ◌==◌,
  if◌then◌else◌, Str, str_eq, Eq_str, Time, length, is_some,
}
use pushward_integrations.Prelude.Int.{to_ℕ}
use pushward_integrations.Prelude.Float.{Float64}
use pushward_integrations.Prelude.GoMap.{Map, put, get}
use pushward_integrations.Widgets.{Spec, is_always, heartbeat_due, value_changed, is_finite}

module _ (fl : Float64) where
  pub record SeriesState : Type 0 where
    pub last_value : fl.F
    pub has_value : Bool
    pub miss_count : ℕ
    pub last_sent : Time

  -- A value of the poll: its slug, none where the templates fail, and whether its call lands.
  pub record Sample : Type 0 where
    pub value : fl.F
    pub slug : Option Str
    pub lands : Bool
    pub checked : Time
    pub sent : Time

  -- The slugs that are seen and the series; `failed` is the error of the first time.
  pub record Tally : Type 0 where
    pub seen : List Str
    pub series : Map Str SeriesState
    pub failed : Bool

  abbrev pub fresh : Sample → SeriesState
  fresh x = record { last_value = x.value; has_value = true; miss_count = 0; last_sent = x.sent }

  module _ (spec : Spec fl) (first_time : Bool) where
    -- A new series, under the cap.
    unfoldable pub create_series : Str → Sample → Tally → Tally
    create_series slug x y =
        if x.lands
        then record y { seen = slug ∷ y.seen; series = put slug (fresh x) y.series }
        else record y { seen = slug ∷ y.seen; failed = first_time }

    abbrev pub wants_update : Sample → SeriesState → Bool
    unfolding value_changed heartbeat_due
    wants_update x st =
        is_always spec.update_mode
        || (not st.has_value || value_changed fl st.last_value x.value spec.min_change)
        || heartbeat_due fl spec st.last_sent x.checked

    unfoldable pub update_series : Str → Sample → SeriesState → Tally → Tally
    unfolding wants_update
    update_series slug x st y =
        if wants_update x st
        then record y {
          seen = slug ∷ y.seen;
          series = if x.lands then put slug (fresh x) y.series else y.series;
        }
        else record y {
          seen = slug ∷ y.seen;
          series =
              if st.miss_count == 0
              then y.series
              else put slug (record st { miss_count = 0 }) y.series;
        }

    abbrev pub apply_known : Str → Sample → Option SeriesState → Tally → Tally
    unfolding create_series update_series
    apply_known slug x (some st) y = update_series slug x st y
    apply_known slug x none y =
        if leb (to_ℕ spec.max_series) (length y.series) then y else create_series slug x y

    abbrev apply_slug : Sample → Option Str → Tally → Tally
    unfolding apply_known
    apply_slug x none y = y
    apply_slug x (some slug) y = apply_known slug x (get slug y.series) y

    unfoldable pub apply_value : Sample → Tally → Tally
    unfolding apply_slug
    apply_value x y = if is_finite fl x.value then apply_slug x x.slug y else y

    -- The first loop, which an error ends.
    unfoldable pub apply_values : List Sample → Tally → Tally
    unfolding apply_value
    apply_values [] y = y
    apply_values (x ∷ xs) y =
        let y' = apply_value x y in let rest = apply_values xs y' in if y'.failed then y' else rest

  abbrev pub is_seen : List Str → Str → Bool
  is_seen [] slug = false
  is_seen (s ∷ ss) slug = str_eq s slug || is_seen ss slug

  -- One series that is absent: counted, or dropped after its delete. `deletes` is whether that lands.
  unfoldable pub missed : Spec fl → Bool → SeriesState → Option SeriesState
  missed spec deletes st =
      let counted = record st { miss_count = st.miss_count + 1 } in
      if ltb counted.miss_count (to_ℕ spec.miss_grace)
      then some counted
      else if spec.cleanup_missing && not deletes
      then some counted
      else none

  abbrev pub keep_series : Str → Option SeriesState → Map Str SeriesState → Map Str SeriesState
  keep_series slug none m = m
  keep_series slug (some st) m = (slug, st) ∷ m

  unfoldable pub prune :
      Spec fl → List Str → (Str → Bool) → Map Str SeriesState → Map Str SeriesState
  unfolding missed
  prune spec seen deletes [] = []
  prune spec seen deletes ((slug, st) ∷ m) =
      keep_series slug (if is_seen seen slug then some st else missed spec (deletes slug) st)
        (prune spec seen deletes m)

  -- The whole of it: none with the error of a create of the first time.
  unfoldable pub apply_multi :
      Spec fl → Bool → List Sample → (Str → Bool) → Map Str SeriesState → Map Str SeriesState × Bool
  unfolding apply_values prune
  apply_multi spec first_time xs deletes series =
      let y =
        apply_values spec first_time xs (record { seen = []; series = series; failed = false }) in
      if y.failed then (y.series, true) else (prune spec y.seen deletes y.series, false)

-- ===== src/Widgets.antt =====
-- The widget manager, shared/widgets/manager.go: how a spec is prepared, and what the three loops share.
-- `K` is the rendered content of a widget, which the loops store, compare nowhere and send. The
-- limits of a spec are signed, and only 0 stands for the default: a negative one is kept, and the loops
-- compare with it as with 0. A duration is never negative here, so that a test for one that is not
-- positive is a test for 0.
pub mod Scalar
pub mod StatList
pub mod Multi
pub mod Ready
use pushward_integrations.Prelude.{
  ℕ, ◌+◌, ◌*◌, ◌/◌, max, Bool, true, false, not, ◌&&◌, ◌||◌, Option, none, some, List, [], ◌∷◌, ltb,
  leb, ◌==◌, if◌then◌else◌, Str, Time, Duration, is_zero, second,
}
use pushward_integrations.Prelude.Int.{ℤ, pos, negsuc}
use pushward_integrations.Prelude.Float.{Float64}
use pushward_integrations.Cipoll.Cache.{is_blank}

-- The templates that the manager tells apart, the blank one, and the rest.
pub data Template : Type 0 where
  unset value stat_list trend gauge progress_bar other : Template

pub data UpdateMode : Type 0 where
  unset_mode on_change always : UpdateMode

abbrev pub is_always : UpdateMode → Bool
is_always always = true
is_always _ = false

abbrev pub is_unset : Template → Bool
is_unset unset = true
is_unset _ = false

abbrev pub is_stat_list : Template → Bool
is_stat_list stat_list = true
is_stat_list _ = false

abbrev pub is_trend : Template → Bool
is_trend trend = true
is_trend _ = false

abbrev pub default_interval : Duration
default_interval = 60 * second

abbrev pub default_max_series : ℕ
default_max_series = 20

abbrev pub default_max_stat_rows : ℕ
default_max_stat_rows = 6

abbrev pub default_miss_grace : ℕ
default_miss_grace = 2

pub data Invalid : Type 0 where
  slug_required not_one_source stat_list_needs_source source_needs_stat_list : Invalid
  trend_needs_scalar trend_needs_points bad_label_template slug_template_required : Invalid
  slug_template_constant bad_slug_template bad_name_template : Invalid

pub data Prepared (A : Type 0) : Type 0 where
  invalid : Invalid → Prepared A
  ready : A → Prepared A

module _ (fl : Float64) where
  pub record Spec : Type 0 where
    pub slug : Str
    pub name : Str
    pub template : Template
    pub source : Bool
    pub point_source : Bool  -- the source implements PointSource
    pub multi_source : Bool
    pub stat_list_source : Bool
    pub seeded_points : Bool  -- len(Content.Points) is not 0
    pub max_stat_rows : ℤ
    pub stat_change_mask : Option (List Bool)
    pub interval : Duration
    pub update_mode : UpdateMode
    pub min_change : fl.F
    pub heartbeat : Duration
    pub label_template : Str
    pub slug_template : Str
    pub name_template : Str
    pub max_series : ℤ
    pub cleanup_missing : Bool
    pub miss_grace : ℤ

  abbrev pub count : Bool → ℕ
  count true = 1
  count false = 0

  unfoldable pub exactly_one_source : Spec → Bool
  exactly_one_source s = count s.source + count s.multi_source + count s.stat_list_source == 1

  abbrev pub template_of : Spec → Template
  template_of s =
      if is_unset s.template then (if s.stat_list_source then stat_list else value) else s.template

  abbrev mode_of : UpdateMode → UpdateMode
  mode_of unset_mode = on_change
  mode_of m = m

  -- The source tests a limit for 0 only.
  abbrev pub or_default : ℤ → ℕ → ℤ
  or_default (pos n) d = if n == 0 then pos d else pos n
  or_default (negsuc n) d = negsuc n

  -- The defaults, with the template that is settled.
  unfoldable pub with_defaults : Spec → Spec
  with_defaults s = record s {
    name = if is_blank s.name && not s.multi_source then s.slug else s.name;
    template = template_of s;
    max_stat_rows = or_default s.max_stat_rows default_max_stat_rows;
    interval = if s.interval == 0 then default_interval else s.interval;
    update_mode = mode_of s.update_mode;
    max_series = or_default s.max_series default_max_series;
    miss_grace = or_default s.miss_grace default_miss_grace;
  }

  -- `parses` is whether text/template takes a template, and `refers` whether it has an action in it.
  unfoldable pub check_templates : (Str → Bool) → (Str → Bool) → Spec → Prepared Spec
  check_templates parses refers s =
      if not (is_blank s.label_template) && not (parses s.label_template)
      then invalid bad_label_template
      else if not s.multi_source
      then ready s
      else if is_blank s.slug_template
      then invalid slug_template_required
      else if not (refers s.slug_template)
      then invalid slug_template_constant
      else if not (parses s.slug_template)
      then invalid bad_slug_template
      else if not (is_blank s.name_template) && not (parses s.name_template)
      then invalid bad_name_template
      else ready s

  unfoldable pub prepare : (Str → Bool) → (Str → Bool) → Spec → Prepared Spec
  unfolding exactly_one_source with_defaults check_templates
  prepare parses refers s =
      let template = template_of s in
      if is_blank s.slug
      then invalid slug_required
      else if not (exactly_one_source s)
      then invalid not_one_source
      else if is_stat_list template && not s.stat_list_source
      then invalid stat_list_needs_source
      else if s.stat_list_source && not (is_stat_list template)
      then invalid source_needs_stat_list
      else if is_trend template && not s.source
      then invalid trend_needs_scalar
      else if is_trend template && not s.point_source && not s.seeded_points
      then invalid trend_needs_points
      else check_templates parses refers (with_defaults s)

  unfoldable pub heartbeat_due : Spec → Time → Time → Bool
  heartbeat_due s last_sent now =
      ltb 0 s.heartbeat && not (is_zero last_sent) && leb (last_sent + s.heartbeat) now

  unfoldable pub value_changed : fl.F → fl.F → fl.F → Bool
  value_changed old_v new_v min_change =
      if fl.is_nan old_v && fl.is_nan new_v
      then false
      else if fl.eqb min_change (fl.of_nat 0)
      then not (fl.eqb old_v new_v)
      else fl.ltb min_change (fl.abs (fl.sub new_v old_v))

  -- NaN and the infinities count as no reading.
  abbrev pub is_finite : fl.F → Bool
  is_finite v = not (fl.is_nan v || fl.is_inf v)

-- `staleAfter` is in seconds.
unfoldable pub heartbeat_for : Option ℕ → Duration
heartbeat_for none = 0
heartbeat_for (some stale_after) = max (30 * second) (stale_after * second / 2)

unfoldable pub requires_initial_value : Template → Bool
requires_initial_value gauge = true
requires_initial_value progress_bar = true
requires_initial_value trend = true
requires_initial_value _ = false

-- What a loop sends.
pub data Sent (K : Type 0) : Type 0 where
  nothing : Sent K
  creates updates : K → Sent K

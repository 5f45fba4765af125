-- ===== src/Cipoll/Track.antt =====
-- A tracked run and its tick, `trackedRun` of shared/cipoll/state.go and `pollActive` of
-- shared/cipoll/poller.go. One goroutine polls, and an entry without end timers is changed by it alone, so
-- that a tick is one function of the entry. The forge's answers and the clock are arguments. A nil map of
-- weights is an empty one, which every reader treats alike.
pub mod Tick
pub mod Shape
pub mod Consistent
pub mod Animates
use pushward_integrations.Prelude.{
  ℕ, zero, suc, ◌+◌, ◌-◌, ◌*◌, ◌/◌, min, max, Bool, true, false, not, ◌&&◌, ◌||◌, Option, none,
  some, List, [], ◌∷◌, ltb, leb, ◌==◌, if◌then◌else◌, Str, str_eq, Eq_str, length, Time, Duration,
  is_zero, second, is_some,
}
use pushward_integrations.Prelude.Float.{Float64}
use pushward_integrations.Prelude.GoMap.{Map}
use pushward_integrations.Ci.{Job}
use pushward_integrations.Ci.Names.{base_job_name, step_color, realign_step}
use pushward_integrations.Ci.Steps.{StepInfo, compute_steps, queued_step_name}
use pushward_integrations.Ci.Weights.{project_weights, uniform_weights}
use pushward_integrations.Ci.Anchor.{Anchor, AnchorDecline, declined, window, live_anchor}
use pushward_integrations.Cipoll.Cache.{labels_eq, zero_shape}
use pushward_integrations.Cipoll.Card.{
  clamp_step_shape, Ladder, Live, untouched, cleared, anchored, Patch,
}

-- The settings that a tick reads.
pub record Settings : Type 0 where
  pub step_colors : Bool
  pub step_weights : Bool
  pub live_progress : Bool
  pub stale_timeout : Duration
  pub default_stale_timeout : Duration
  pub interval : Duration
  pub idle_interval : Duration

abbrev pub max_run_lifetime : Duration
max_run_lifetime = 43200 * second

abbrev pub stale_eviction_grace : Duration
stale_eviction_grace = 30 * second

unfoldable pub stale_after : Settings → Duration
stale_after s = max (max s.stale_timeout s.idle_interval) s.interval + stale_eviction_grace

unfoldable pub heartbeat_every : Settings → Duration
heartbeat_every s = (if s.stale_timeout == 0 then s.default_stale_timeout else s.stale_timeout) / 2

module _ (fl : Float64) where
  pub record TrackedRun : Type 0 where
    pub run_id : ℕ
    pub name : Str
    pub slug : Str
    pub html_url : Str
    pub repo_url : Str
    pub ref : Str
    pub created_at : Time
    pub started_at : Time
    pub last_update : Time
    pub tracked_at : Time
    pub ending : Bool  -- the end timers are set
    pub max_total_steps : ℕ
    pub max_step_rows : List ℕ
    pub max_step_labels : List Str
    pub max_step_colors : List Str
    pub step_weight_by_name : Map Str fl.F
    pub shape_sent : List Str
    pub last_progress : fl.F
    pub last_state : Str
    pub last_current_step : ℕ
    pub last_total_steps : ℕ
    pub last_patch_at : Time
    pub live_step_name : Str
    pub live_sent : Bool

  -- A scan with its progress as the float that is sent.
  pub record Frame : Type 0 where
    pub info : StepInfo
    pub progress : fl.F

abbrev or_zero_shape : Option StepInfo → StepInfo
or_zero_shape none = zero_shape
or_zero_shape (some info) = info

-- `lower` is `strings.ToLower`.
unfoldable pub shape : (Str → Str) → Settings → List Job → StepInfo
unfolding compute_steps base_job_name step_color
shape lower cfg jobs =
    let info = or_zero_shape (compute_steps base_job_name (step_color lower) jobs) in
    if cfg.step_colors then info else record info { step_colors = [] }

-- The guards that drop a run: no successful poll for too long, or too old altogether.
unfoldable pub evicted : {fl : Float64} → Settings → Time → TrackedRun fl → Bool
evicted cfg now t =
    not (is_zero t.last_update) && ltb (t.last_update + stale_after cfg) now
    || not (is_zero t.tracked_at) && ltb (t.tracked_at + max_run_lifetime) now

-- `slices.Contains`
abbrev pub has_label : List Str → Str → Bool
has_label [] l = false
has_label (k ∷ ks) l = str_eq k l || has_label ks l

-- The 1-based place of the first label that the scan does not have.
unfoldable pub next_group : ℕ → ℕ → List Str → List Str → ℕ
next_group otherwise i observed [] = otherwise
next_group otherwise i observed (l ∷ ls) =
    let rest = next_group otherwise (i + 1) observed ls in
    if has_label observed l then rest else i + 1

module _ {fl : Float64} where
  unfoldable pub adopt : StepInfo → TrackedRun fl → TrackedRun fl
  adopt info t = record t {
    max_total_steps = info.total_steps;
    max_step_rows = info.step_rows;
    max_step_labels = info.step_labels;
    max_step_colors = info.step_colors;
  }

  unfoldable pub carry_over : StepInfo → TrackedRun fl → StepInfo
  unfolding realign_step
  carry_over info t = record info {
    current_step = realign_step info.current_step info.step_labels t.max_step_labels;
    total_steps = t.max_total_steps;
    step_rows = t.max_step_rows;
    step_labels = t.max_step_labels;
    step_colors = t.max_step_colors;
  }

  -- The live scan against the shape that is tracked.
  unfoldable pub reconcile : StepInfo → TrackedRun fl → StepInfo × TrackedRun fl
  unfolding adopt carry_over labels_eq
  reconcile info t =
      if ltb t.max_total_steps info.total_steps
        || info.total_steps == t.max_total_steps
          && not (labels_eq info.step_labels t.max_step_labels)
      then (info, adopt info t)
      else if ltb info.total_steps t.max_total_steps
      then (carry_over info t, t)
      else (info, t)

  unfoldable pub between_waves : Frame fl → StepInfo → fl.F → Frame fl
  unfolding next_group
  between_waves f observed last_progress = record {
    info = record f.info {
      all_completed = false;
      current_step_name = queued_step_name;
      current_step_started_at = 0;
      current_step = next_group f.info.total_steps 0 observed.step_labels f.info.step_labels;
    };
    progress = last_progress;
  }

module _ (fl : Float64) where
  unfoldable pub progress_of : ℕ × ℕ → fl.F
  progress_of (done, total) =
      if total == 0 then fl.of_nat 0 else fl.div (fl.of_nat done) (fl.of_nat total)

  abbrev or_uniform : ℕ → Option (List fl.F) → Option (List fl.F)
  or_uniform total none = uniform_weights fl total
  or_uniform total (some ws) = if length ws == total then some ws else uniform_weights fl total

  -- `none` is the nil slice, which is not sent.
  unfoldable pub payload_weights : Settings → ℕ → List Str → Map Str fl.F → Option (List fl.F)
  unfolding project_weights uniform_weights
  payload_weights cfg total labels by_name =
      if cfg.step_weights then or_uniform total (project_weights fl labels by_name) else none

  -- What the tick decides to send.
  pub record Gate : Type 0 where
    pub shape_changed : Bool
    pub scalar_changed : Bool
    pub heartbeat_due : Bool
    pub anchor_changed : Bool
    pub clear_live : Bool

  abbrev wants : Anchor → Bool
  wants (declined why) = false
  wants (window start end_at) = true

  -- With the feature off there is no window and no reason.
  unfoldable pub anchor_of : Settings → Frame fl → Map Str fl.F → Time → Option Anchor
  unfolding live_anchor
  anchor_of cfg f by_name now =
      if cfg.live_progress then some (live_anchor fl f.info by_name now max_run_lifetime) else none

  abbrev pub want_live : Option Anchor → Bool
  want_live none = false
  want_live (some a) = wants a

  unfoldable pub gate : Settings → Time → Frame fl → Option Anchor → TrackedRun fl → Gate
  unfolding heartbeat_every labels_eq
  gate cfg now f anchor t = record {
    shape_changed = not (labels_eq t.shape_sent t.max_step_labels);
    scalar_changed =
        is_zero t.last_patch_at
        || not (fl.eqb f.progress t.last_progress)
        || not (str_eq f.info.current_step_name t.last_state)
        || not (f.info.current_step == t.last_current_step)
        || not (f.info.total_steps == t.last_total_steps);
    heartbeat_due =
        not (is_zero t.last_patch_at) && leb (t.last_patch_at + heartbeat_every cfg) now;
    anchor_changed =
        want_live anchor
        && (not t.live_sent || not (str_eq f.info.current_step_name t.live_step_name));
    clear_live =
        t.live_sent
        && not (want_live anchor)
        && not (str_eq f.info.current_step_name t.live_step_name);
  }

  abbrev pub opens : Gate → Bool
  opens g =
      g.shape_changed || g.scalar_changed || g.heartbeat_due || g.anchor_changed || g.clear_live

  abbrev window_of : Option Anchor → Live fl
  window_of (some (window start end_at)) = anchored start end_at
  window_of _ = untouched

  abbrev pub live_of : Gate → Option Anchor → Live fl
  live_of g anchor =
      if g.anchor_changed then window_of anchor else if g.clear_live then cleared else untouched

  abbrev pub ladder_of : StepInfo → Option (List fl.F) → Ladder fl
  ladder_of info weights =
      let (rows, labels) = clamp_step_shape info.step_rows info.step_labels in
      record { rows = rows; labels = labels; colors = info.step_colors; weights = weights }

  unfoldable pub patch_of : Frame fl → Option (List fl.F) → Gate → Option Anchor → Patch fl
  unfolding clamp_step_shape
  patch_of f weights g anchor = record {
    progress = f.progress;
    state = f.info.current_step_name;
    current_step = f.info.current_step;
    total_steps = f.info.total_steps;
    ladder = if g.shape_changed then some (ladder_of f.info weights) else none;
    live = live_of g anchor;
  }

  -- What is recorded when the patch has landed.
  unfoldable pub promote : Time → Frame fl → Gate → TrackedRun fl → TrackedRun fl
  promote now f g t = record t {
    shape_sent = if g.shape_changed then t.max_step_labels else t.shape_sent;
    last_progress = f.progress;
    last_state = f.info.current_step_name;
    last_current_step = f.info.current_step;
    last_total_steps = f.info.total_steps;
    last_patch_at = now;
    live_step_name =
        if g.anchor_changed
        then f.info.current_step_name
        else if g.clear_live
        then []
        else t.live_step_name;
    live_sent = if g.anchor_changed then true else if g.clear_live then false else t.live_sent;
  }

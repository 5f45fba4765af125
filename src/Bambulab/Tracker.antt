-- ===== src/Bambulab/Tracker.antt =====
-- The tracker of one print, bambulab/internal/tracker/tracker.go. A pass of the loop is a function of the
-- tracker, of the printer's state and of what the calls return, and says what it does to the server and to
-- the end timers. The formatted texts are parameters.
pub mod Sessions
pub mod Ticks
use pushward_integrations.Prelude.{
  ℕ, ◌+◌, ◌*◌, ◌%◌, ◌^◌, Bool, true, false, not, ◌&&◌, ◌||◌, Option, none, some, List, [], ◌∷◌, ltb,
  leb, ◌==◌, if◌then◌else◌, Str, str_eq, Time, Duration,
}
use pushward_integrations.Prelude.Float.{Float64}
use pushward_integrations.Cipoll.Cache.{is_blank}
use pushward_integrations.Text.Truncate.{truncate}
use pushward_integrations.Bambulab.{
  GcodeState, idle, prepare, running, pause, failed, finish, other, MergedState,
}

-- The icon and the accent go together.
pub data Look : Type 0 where
  preparing paused printing complete failure cancelled interrupted : Look

abbrev pub look_code : Look → ℕ
look_code preparing = 0
look_code paused = 1
look_code printing = 2
look_code complete = 3
look_code failure = 4
look_code cancelled = 5
look_code interrupted = 6

abbrev pub state_code : GcodeState → ℕ
state_code idle = 0
state_code prepare = 1
state_code running = 2
state_code pause = 3
state_code failed = 4
state_code finish = 5
state_code other = 6

-- `==` on two states.
abbrev pub same_state : GcodeState → GcodeState → Bool
same_state a b = state_code a == state_code b

-- The words of the frames that are fixed, and the formatted ones.
pub record Words : Type 0 where
  pub fixed : Look → Str
  pub layer : ℕ → ℕ → Str
  pub percent : ℕ → Str

module _ (fl : Float64) where
  pub record Frame : Type 0 where
    pub progress : fl.F
    pub state_text : Str
    pub look : Look
    pub remaining : ℕ
    pub subtitle : Str

  unfoldable pub frame_eq : Frame → Frame → Bool
  frame_eq f g =
      fl.eqb f.progress g.progress
      && str_eq f.state_text g.state_text
      && (look_code f.look == look_code g.look)
      && (f.remaining == g.remaining)
      && str_eq f.subtitle g.subtitle

  abbrev zero_frame : Frame
  zero_frame = record {
    progress = fl.of_nat 0;
    state_text = [];
    look = preparing;
    remaining = 0;
    subtitle = [];
  }

  -- `subtitle` is `buildSubtitle`.
  unfoldable pub derive_frame : Words → (MergedState fl → Str) → MergedState fl → Frame
  unfolding truncate
  derive_frame w subtitle s =
      let fraction = fl.div (fl.of_nat s.percent) (fl.of_nat 100) in
      elim s.gcode_state [
        | prepare ↦ record {
          progress = fl.of_nat 0;
          state_text = w.fixed preparing;
          look = preparing;
          remaining = 0;
          subtitle = if is_blank s.subtask_name then [] else truncate s.subtask_name 30;
        }
        | pause ↦ record {
          progress = fraction;
          state_text = w.fixed paused;
          look = paused;
          remaining = 0;
          subtitle = subtitle s;
        }
        | _ ↦ record {
          progress = fraction;
          state_text =
              if s.total_layer_num == 0
              then w.percent s.percent
              else w.layer s.layer_num s.total_layer_num;
          look = printing;
          remaining = s.remaining_time * 60;
          subtitle = subtitle s;
        }
      ]

  pub record Tracker : Type 0 where
    pub tracking : Bool
    pub last_state : GcodeState
    pub last_tick_at : Time
    pub last_frame : Frame
    pub gen : ℕ

  -- What a pass does: calls of the server, and the end timers stopped or armed for a session.
  pub data Action : Type 0 where
    stops_timers creates : Action
    seeds patches ends : Frame → Action
    arms : ℕ → Frame → Action

  -- The clock, the poll interval, and whether the create and the seed succeed.
  pub record Pass : Type 0 where
    pub now : Time
    pub interval : Duration
    pub created : Bool
    pub seeded : Bool

  -- `gen.Add(1)` on a uint64.
  abbrev pub next_gen : ℕ → ℕ
  next_gen g = (g + 1) % 2 ^ 64

  module _ (w : Words) (subtitle : MergedState fl → Str) where
    unfoldable pub start_tracking : Pass → MergedState fl → Tracker → List Action × Tracker
    unfolding derive_frame
    start_tracking p s t =
        let f = derive_frame w subtitle s in
        let t' = record t { gen = next_gen t.gen } in
        if not p.created
        then (stops_timers ∷ creates ∷ [], t')
        else if not p.seeded
        then (stops_timers ∷ creates ∷ seeds f ∷ [], t')
        else (
          stops_timers ∷ creates ∷ seeds f ∷ [],
          record t' {
            tracking = true;
            last_state = s.gcode_state;
            last_tick_at = p.now;
            last_frame = f;
          },
        )

    abbrev pub terminal_frame : MergedState fl → fl.F → Look → Frame
    unfolding truncate
    terminal_frame s progress look = record {
      progress = progress;
      state_text = w.fixed look;
      look = look;
      remaining = 0;
      subtitle = if is_blank s.subtask_name then [] else truncate s.subtask_name 30;
    }

    unfoldable pub schedule_end : Frame → Tracker → List Action × Tracker
    schedule_end f t = (arms t.gen f ∷ [], record t { tracking = false })

    unfoldable pub end_activity : Look → Tracker → List Action × Tracker
    end_activity look t = (
      ends (record zero_frame { state_text = w.fixed look; look = look }) ∷ [],
      record t { gen = next_gen t.gen; tracking = false },
    )

    -- A tick of a print under way.
    unfoldable pub progress_tick : Pass → MergedState fl → Tracker → List Action × Tracker
    unfolding derive_frame frame_eq
    progress_tick p s t =
        let f = derive_frame w subtitle s in
        if not (same_state s.gcode_state t.last_state)
          || not (frame_eq f t.last_frame) && leb (t.last_tick_at + p.interval) p.now
        then (patches f ∷ [], record t { last_tick_at = p.now; last_frame = f })
        else ([], t)

    abbrev pub unless_seen :
        MergedState fl → Tracker → List Action × Tracker → List Action × Tracker
    unless_seen s t r = if same_state s.gcode_state t.last_state then ([], t) else r

    unfoldable pub transition_in :
        GcodeState → Pass → MergedState fl → Tracker → List Action × Tracker
    unfolding schedule_end end_activity progress_tick terminal_frame
    transition_in finish p s t =
        unless_seen s t (schedule_end (terminal_frame s (fl.of_nat 1) complete) t)
    transition_in failed p s t =
        unless_seen s t
          (schedule_end (terminal_frame s (fl.div (fl.of_nat s.percent) (fl.of_nat 100)) failure) t)
    transition_in idle p s t = unless_seen s t (end_activity cancelled t)
    transition_in other p s t = ([], t)
    transition_in prepare p s t = progress_tick p s t
    transition_in running p s t = progress_tick p s t
    transition_in pause p s t = progress_tick p s t

    abbrev pub is_active : GcodeState → Bool
    is_active prepare = true
    is_active running = true
    is_active pause = true
    is_active _ = false

    -- By whether a print is tracked and whether the printer's state is one to track.
    unfoldable pub process_when :
        Bool → Bool → Pass → MergedState fl → Tracker → List Action × Tracker
    unfolding start_tracking transition_in
    process_when true active p s t =
        let (done, t') = transition_in s.gcode_state p s t in
        (done, record t' { last_state = s.gcode_state })
    process_when false true p s t = start_tracking p s t
    process_when false false p s t = ([], t)

    unfoldable pub process : Pass → MergedState fl → Tracker → List Action × Tracker
    unfolding process_when
    process p s t = process_when t.tracking (is_active s.gcode_state) p s t

    -- The start of the loop, with a print that may be under way, and its end.
    unfoldable pub run_start : Pass → MergedState fl → Tracker → List Action × Tracker
    unfolding start_tracking
    run_start p s t = if is_active s.gcode_state then start_tracking p s t else ([], t)

    unfoldable pub shut_down : Tracker → List Action × Tracker
    unfolding end_activity
    shut_down t = if t.tracking then end_activity interrupted t else ([], t)

    -- The callbacks of the two end timers, which were armed in the session g.
    unfoldable pub phase1 : ℕ → Frame → Tracker → List Action
    phase1 g f t = if t.gen == g then patches f ∷ arms g f ∷ [] else []

    unfoldable pub phase2 : ℕ → Frame → Tracker → List Action
    phase2 g f t = if t.gen == g then ends f ∷ [] else []

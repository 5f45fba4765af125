-- ===== src/Cipoll/Track/Tick.antt =====
-- One tick of a tracked run, from `pollActive` and `scheduleEnd` of shared/cipoll/poller.go.
use pushward_integrations.Prelude.{
  ℕ, ◌-◌, Bool, true, false, not, Option, none, some, List, [], ◌∷◌, if◌then◌else◌, Str, Time,
  Duration, is_zero, ◌||◌, ◌==◌, Eq_str,
}
use pushward_integrations.Prelude.Float.{Float64}
use pushward_integrations.Prelude.GoMap.{Map, put, delete, get}
use pushward_integrations.Ci.{Job, Conclusion, success}
use pushward_integrations.Ci.Names.{base_job_name}
use pushward_integrations.Ci.Steps.{StepInfo}
use pushward_integrations.Ci.Weights.{group_weights}
use pushward_integrations.Cipoll.Ended.{Run, EndedRun, terminal}
use pushward_integrations.Cipoll.Cache.{SeedEntry}
use pushward_integrations.Cipoll.Card.{Patch, cleared, untouched, clamp_step_shape}
use pushward_integrations.Cipoll.Track.{
  Settings, TrackedRun, Frame, evicted, shape, reconcile, between_waves, progress_of,
  payload_weights, anchor_of, gate, opens, patch_of, promote,
}

module _ (fl : Float64) where
  -- The content of the two end frames, as far as it is computed.
  pub record EndContent : Type 0 where
    pub state : Str
    pub color : Str
    pub current_step : ℕ
    pub total_steps : ℕ
    pub rows : List ℕ
    pub labels : List Str
    pub colors : List Str
    pub weights : Option (List fl.F)

  pub data Outcome : Type 0 where
    waits : TrackedRun fl → Outcome
    sends : Patch fl → TrackedRun fl → Outcome
    finishes : EndContent → SeedEntry fl.F → TrackedRun fl → Outcome

  -- What the tick is told: the jobs, the run re-read where it asks for it (none on an error or a nil run),
  -- whether a patch lands, the outcome of a terminal run, and the clock.
  pub record Reads : Type 0 where
    pub jobs : Option (List Job)
    pub run : Option Run
    pub lands : Bool
    pub outcome : Run → Bool → Str × Str
    pub now : Time

  -- The gate and what follows it.
  unfoldable pub advance : Settings → Reads → Frame fl → TrackedRun fl → Outcome
  unfolding anchor_of gate patch_of promote payload_weights
  advance cfg r f t =
      let anchor = anchor_of fl cfg f t.step_weight_by_name r.now in
      let g = gate fl cfg r.now f anchor t in
      let weights =
        payload_weights fl cfg f.info.total_steps f.info.step_labels t.step_weight_by_name in
      if opens fl g
      then sends (patch_of fl f weights g anchor) (if r.lands then promote fl r.now f g t else t)
      else waits t

  abbrev started_of : Run → TrackedRun fl → Time
  started_of run t = if is_zero run.started_at then t.started_at else run.started_at

  abbrev length_of : Time → Time → TrackedRun fl → Duration
  length_of now started t =
      if not (is_zero started)
      then now - started
      else if not (is_zero t.created_at)
      then now - t.created_at
      else 0

  abbrev is_success : Conclusion → Bool
  is_success success = true
  is_success _ = false

  -- The run filed as the seed of its workflow's next one.
  unfoldable pub filed :
      Settings → Reads → Run → List Job → StepInfo → TrackedRun fl → SeedEntry fl.F
  unfolding group_weights base_job_name
  filed cfg r run jobs observed t = record {
    shape = observed;
    weights =
        if cfg.step_weights || cfg.live_progress then group_weights fl base_job_name jobs else none;
    duration = length_of r.now (started_of run t) t;
    run_id = t.run_id;
    success = is_success run.conclusion;
  }

  unfoldable pub end_content : Settings → Reads → Run → StepInfo → TrackedRun fl → EndContent
  unfolding clamp_step_shape payload_weights
  end_content cfg r run info t =
      let (state, color) = r.outcome run info.any_failed in
      let (rows, labels) = clamp_step_shape info.step_rows info.step_labels in
      record {
        state = state;
        color = color;
        current_step = info.total_steps;
        total_steps = info.total_steps;
        rows = rows;
        labels = labels;
        colors = info.step_colors;
        weights = payload_weights fl cfg info.total_steps info.step_labels t.step_weight_by_name;
      }

  -- What both end frames send of it: the whole bar, and the last step's window taken away.
  unfoldable pub end_patch : Settings → EndContent → Patch fl
  end_patch cfg content = record {
    progress = fl.of_nat 1;
    state = content.state;
    current_step = content.current_step;
    total_steps = content.total_steps;
    ladder = some (record {
      rows = content.rows;
      labels = content.labels;
      colors = content.colors;
      weights = content.weights;
    });
    live = if cfg.live_progress then cleared else untouched;
  }

  abbrev begin_end : Run → TrackedRun fl → TrackedRun fl
  begin_end run t = record t { started_at = started_of run t; ending = true }

  -- All visible jobs are done: the run has the last word.
  unfoldable pub complete :
      Settings → Reads → List Job → StepInfo → Frame fl → TrackedRun fl → Option Run → Outcome
  unfolding advance filed end_content between_waves terminal
  complete cfg r jobs observed f t none = advance cfg r (between_waves f observed t.last_progress) t
  complete cfg r jobs observed f t (some run) =
      if terminal run
      then finishes (end_content cfg r run f.info t) (filed cfg r run jobs observed t)
          (begin_end run t)
      else advance cfg r (between_waves f observed t.last_progress) t

  abbrev pub frame_of : StepInfo → StepInfo → Frame fl
  frame_of observed info = record { info = info; progress = progress_of fl observed.progress }

  unfoldable pub scan_tick : (Str → Str) → Settings → Reads → List Job → TrackedRun fl → Outcome
  unfolding shape reconcile complete advance progress_of
  scan_tick lower cfg r jobs t =
      let observed = shape lower cfg jobs in
      let (info, t') = reconcile observed (record t { last_update = r.now }) in
      let f = frame_of observed info in
      if info.all_completed then complete cfg r jobs observed f t' r.run else advance cfg r f t'

  abbrev tick_jobs : (Str → Str) → Settings → Reads → TrackedRun fl → Option (List Job) → Outcome
  tick_jobs lower cfg r t none = waits t
  tick_jobs lower cfg r t (some []) = waits t
  tick_jobs lower cfg r t (some (job ∷ jobs)) = scan_tick lower cfg r (job ∷ jobs) t

  unfoldable pub tick : (Str → Str) → Settings → Reads → TrackedRun fl → Outcome
  unfolding scan_tick
  tick lower cfg r t = tick_jobs lower cfg r t r.jobs

  -- The entry that a tick leaves.
  abbrev pub run_after : Outcome → TrackedRun fl
  run_after (waits t) = t
  run_after (sends p t) = t
  run_after (finishes content entry t) = t

  -- One repository of the active pass: a run whose end is pending is left to its timers, one that is stale
  -- or too old is dropped, and any other has its tick.
  unfoldable pub poll_active_repo :
      (Str → Str)
      → Settings
      → Reads
      → Str
      → Map Str (TrackedRun fl)
      → Map Str (TrackedRun fl) × Option Outcome
  unfolding evicted tick
  poll_active_repo lower cfg r repo tracked = elim (get repo tracked) [
    | none ↦ (tracked, none)
    | some t ↦
        let o = tick lower cfg r t in
        if t.ending
        then (tracked, none)
        else if evicted cfg r.now t
        then (delete repo tracked, none)
        else (put repo (run_after o) tracked, some o)
  ]

  -- The end of phase 2: the run is forgotten, and remembered as closed, if it is still the one tracked.
  unfoldable pub close_run :
      Str
      → ℕ
      → EndedRun
      → Map Str (TrackedRun fl)
      → Map Str EndedRun
      → Map Str (TrackedRun fl) × Map Str EndedRun
  close_run repo run_id ended tracked last_ended = elim (get repo tracked) [
    | none ↦ (tracked, last_ended)
    | some t ↦
        if t.run_id == run_id
        then (delete repo tracked, put repo ended last_ended)
        else (tracked, last_ended)
  ]

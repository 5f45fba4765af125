-- ===== src/Cipoll/Detect.antt =====
-- The detection of a run, from `pollIdle` and `baselineShape` of shared/cipoll/poller.go.
pub mod Pick
pub mod Seed
use pushward_integrations.Prelude.{
  ℕ, ◌≡◌, ◌≤◌, refl, Bool, true, false, not, ◌&&◌, Option, none, some, List, [], ◌∷◌, ltb, ◌==◌,
  if◌then◌else◌, Str, Eq_str, Time, Duration, after, arith, length, ◌||◌, Bool-cases, ◌⊎◌, inl, inr,
  is_some,
}
use pushward_integrations.Prelude.Float.{Float64}
use pushward_integrations.Prelude.GoMap.{Map, put, delete, get}
use pushward_integrations.Ci.{Job}
use pushward_integrations.Ci.Names.{base_job_name}
use pushward_integrations.Ci.Steps.{StepInfo}
use pushward_integrations.Ci.Weights.{baseline_weights, fill_weights, or_empty, WeightsSource}
use pushward_integrations.Cipoll.Ended.{Run, EndedRun, closed}
use pushward_integrations.Cipoll.Cache.{SeedEntry, SeedMatch, is_miss, is_blank, zero_shape}
use pushward_integrations.Cipoll.Card.{Patch, Ladder, untouched, cleared, clamp_step_shape}
use pushward_integrations.Cipoll.Track.{Settings, TrackedRun, shape, payload_weights}

unfoldable pub is_closed : Option EndedRun → Run → Bool
unfolding closed
is_closed none run = false
is_closed (some e) run = closed e run

-- What the pick holds after one more run.
abbrev pub prefer : Run → Option Run → Run
prefer r none = r
prefer r (some run) = if after r.created_at run.created_at then r else run

-- The most recently created run that the loop has not closed.
unfoldable pub pick_run : Option EndedRun → List Run → Option Run → Option Run
unfolding is_closed
pick_run last [] found = found
pick_run last (r ∷ rs) found =
    let rest = pick_run last rs found in
    let kept = pick_run last rs (some (prefer r found)) in if is_closed last r then rest else kept

-- What the forge answers for the seed of a run: the jobs of one finished run, and how long it took.
pub record Baseline : Type 0 where
  pub jobs : List Job
  pub duration : Duration

abbrev pub zero_baseline : Baseline
zero_baseline = record { jobs = []; duration = 0 }

abbrev has_jobs : Baseline → Bool
has_jobs b = not (length b.jobs == 0)

-- The candidate refs in their order, up to the first with jobs; an error ends the search.
unfoldable pub walk_rungs : (Str → Option Baseline) → List Str → Baseline → Baseline
walk_rungs ask [] base = base
walk_rungs ask (ref ∷ refs) base = elim (ask ref) [
  | none ↦ zero_baseline
  | some b ↦ let rest = walk_rungs ask refs b in if has_jobs b then b else rest
]

-- `RenderConfig.WantTimings`
abbrev pub want_timings : Settings → Bool
want_timings cfg = cfg.step_weights || cfg.live_progress

module _ (fl : Float64) where
  unfoldable pub seed_weights : SeedEntry fl.F → Option (Map Str fl.F) × WeightsSource
  unfolding fill_weights
  seed_weights e = fill_weights fl e.weights e.shape.step_labels e.duration

  -- The forge's rung, and the cached shape without weights where the forge has nothing either.
  unfoldable pub from_forge :
      (Str → Str)
      → Settings
      → Bool
      → SeedEntry fl.F
      → Baseline
      → Option (StepInfo × Option (Map Str fl.F))
  unfolding shape baseline_weights base_job_name
  from_forge lower cfg hit entry base =
      let info = shape lower cfg base.jobs in
      if has_jobs base
      then some (
        info,
        if want_timings cfg
            then (baseline_weights fl base_job_name base.jobs info.step_labels base.duration).0
            else none,
      )
      else if hit
      then some (entry.shape, none)
      else none

  abbrev pub or_forge :
      Bool
      → SeedEntry fl.F
      → Option (Map Str fl.F)
      → Option (StepInfo × Option (Map Str fl.F))
      → Option (StepInfo × Option (Map Str fl.F))
  or_forge hit entry none forge = forge
  or_forge hit entry (some ws) forge = if hit then some (entry.shape, some ws) else forge

  -- The shape and the weights of a prior run of the same workflow.
  unfoldable pub baseline_shape :
      (Str → Str)
      → Settings
      → Run
      → SeedEntry fl.F × SeedMatch
      → (Str → Option Baseline)
      → List Str
      → Option (StepInfo × Option (Map Str fl.F))
  unfolding seed_weights walk_rungs from_forge
  baseline_shape lower cfg run (entry, match_of) ask refs =
      let hit = not (is_miss match_of) in
      if is_blank run.workflow_key
      then none
      else if hit && not (want_timings cfg)
      then some (entry.shape, none)
      else or_forge hit entry (seed_weights entry).0
          (from_forge lower cfg hit entry (walk_rungs ask refs zero_baseline))

  -- The shape of the first scan, and one step where there is none.
  abbrev pub one_step : StepInfo
  one_step = record zero_shape { total_steps = 1 }

  unfoldable pub first_shape : (Str → Str) → Settings → Option (List Job) → StepInfo
  unfolding shape
  first_shape lower cfg none = one_step
  first_shape lower cfg (some []) = one_step
  first_shape lower cfg (some (job ∷ jobs)) = shape lower cfg (job ∷ jobs)

  abbrev pub grow : StepInfo → Option (StepInfo × Option (Map Str fl.F)) → StepInfo × Map Str fl.F
  grow info none = (info, [])
  grow info (some (base, weights)) =
      (if ltb info.total_steps base.total_steps then base else info, or_empty fl weights)

  -- The entry of a run that is found.
  unfoldable pub new_tracked : Settings → Run → Str → Time → TrackedRun fl
  new_tracked cfg run slug now = record {
    run_id = run.id;
    name = run.name;
    slug = slug;
    html_url = run.html_url;
    repo_url = run.repo_url;
    ref = run.head_branch;
    created_at = run.created_at;
    started_at = run.started_at;
    last_update = now;
    tracked_at = now;
    ending = false;
    max_total_steps = 0;
    max_step_rows = [];
    max_step_labels = [];
    max_step_colors = [];
    step_weight_by_name = [];
    shape_sent = [];
    last_progress = fl.of_nat 0;
    last_state = [];
    last_current_step = 0;
    last_total_steps = 0;
    last_patch_at = 0;
    live_step_name = [];
    live_sent = cfg.live_progress;
  }

  abbrev pub starting : Str
  starting = b'S' ∷ b't' ∷ b'a' ∷ b'r' ∷ b't' ∷ b'i' ∷ b'n' ∷ b'g' ∷ b'.' ∷ b'.' ∷ b'.' ∷ []

  unfoldable pub seed_patch : Settings → StepInfo → Map Str fl.F → Patch fl
  unfolding clamp_step_shape payload_weights
  seed_patch cfg info weights =
      let (rows, labels) = clamp_step_shape info.step_rows info.step_labels in
      record {
        progress = fl.of_nat 0;
        state = starting;
        current_step = 0;
        total_steps = info.total_steps;
        ladder = some (record {
          rows = rows;
          labels = labels;
          colors = info.step_colors;
          weights = payload_weights fl cfg info.total_steps info.step_labels weights;
        });
        live = if cfg.live_progress then cleared else untouched;
      }

  -- The entry with the shape of the seed, which counts as sent once the patch has landed.
  unfoldable pub seeded : Bool → StepInfo → Map Str fl.F → TrackedRun fl → TrackedRun fl
  seeded lands info weights t = record t {
    max_total_steps = info.total_steps;
    max_step_rows = info.step_rows;
    max_step_labels = info.step_labels;
    max_step_colors = info.step_colors;
    step_weight_by_name = weights;
    shape_sent = if lands then info.step_labels else t.shape_sent;
  }

  -- What the pass over one repository is told, by the forge, the server, the cache and the clock.
  pub record Answers : Type 0 where
    pub active_runs : Option (List Run)
    pub slug : Str
    pub created : Bool
    pub live_jobs : Run → Option (List Job)
    pub prior : Run → SeedEntry fl.F × SeedMatch
    pub candidate_refs : Run → List Str
    pub baseline_jobs : Run → Str → Option Baseline
    pub lands : Bool
    pub now : Time

  -- The entry of the repository: a run under way, one whose end is pending, and that of this run.
  abbrev pub is_busy : Option (TrackedRun fl) → Bool
  is_busy none = false
  is_busy (some t) = not t.ending

  abbrev pub is_pending : Option (TrackedRun fl) → Bool
  is_pending none = false
  is_pending (some t) = t.ending

  abbrev ends : ℕ → Option (TrackedRun fl) → Bool
  ends id none = false
  ends id (some t) = t.ending && (id == t.run_id)

  unfoldable pub seed_of : (Str → Str) → Settings → Answers → Run → StepInfo × Map Str fl.F
  unfolding baseline_shape first_shape
  seed_of lower cfg a run =
      grow (first_shape lower cfg (a.live_jobs run))
        (baseline_shape lower cfg run (a.prior run) (a.baseline_jobs run) (a.candidate_refs run))

  -- The activity is there: the entry is made and the seed is sent, where no run has come in between.
  unfoldable pub start_run :
      (Str → Str)
      → Settings
      → Answers
      → Str
      → Run
      → Map Str (TrackedRun fl)
      → Map Str (TrackedRun fl) × Option (Patch fl)
  unfolding new_tracked seed_patch seeded seed_of
  start_run lower cfg a repo run tracked =
      let (info, weights) = seed_of lower cfg a run in
      let t = seeded a.lands info weights (new_tracked cfg run a.slug a.now) in
      if is_busy (get repo tracked)
      then (tracked, none)
      else (put repo t tracked, some (seed_patch cfg info weights))

  -- A run is picked: a pending end stays for its own run, and gives way to another.
  unfoldable pub take_run :
      (Str → Str)
      → Settings
      → Answers
      → Str
      → Run
      → Map Str (TrackedRun fl)
      → Map Str (TrackedRun fl) × Option (Patch fl)
  unfolding start_run
  take_run lower cfg a repo run tracked =
      let freed = if is_pending (get repo tracked) then delete repo tracked else tracked in
      if ends run.id (get repo tracked)
      then (tracked, none)
      else if a.created
      then start_run lower cfg a repo run freed
      else (freed, none)

  abbrev take_picked :
      (Str → Str)
      → Settings
      → Answers
      → Str
      → Option Run
      → Map Str (TrackedRun fl)
      → Map Str (TrackedRun fl) × Option (Patch fl)
  take_picked lower cfg a repo none tracked = (tracked, none)
  take_picked lower cfg a repo (some run) tracked = take_run lower cfg a repo run tracked

  abbrev runs_of : Option (List Run) → List Run
  runs_of none = []
  runs_of (some runs) = runs

  -- One repository of the idle pass.
  unfoldable pub poll_repo :
      (Str → Str)
      → Settings
      → Answers
      → Option EndedRun
      → Str
      → Map Str (TrackedRun fl)
      → Map Str (TrackedRun fl) × Option (Patch fl)
  unfolding pick_run take_run
  poll_repo lower cfg a last repo tracked =
      if is_busy (get repo tracked)
      then (tracked, none)
      else take_picked lower cfg a repo (pick_run last (runs_of a.active_runs) none) tracked

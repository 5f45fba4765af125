-- ===== src/Ci/Steps.antt =====
-- `ComputeSteps` of shared/ci/steps.go. `base` and `color` are `BaseJobName` and `StepColor`, which
-- the loop calls and does not look into. The progress, a quotient of two float64 conversions, is kept as
-- its numerator and denominator.
pub mod Index
pub mod Groups
pub mod Current
use pushward_integrations.Prelude.{
  ℕ, zero, suc, ◌+◌, ◌-◌, Bool, true, false, not, ◌&&◌, ◌||◌, Option, none, some, List, [], ◌∷◌,
  ◌++◌, map, ltb, if◌then◌else◌, Str, Eq_str, length, get_elem?, Time, is_zero, before,
}
use pushward_integrations.Prelude.GoMap.{Map, get, put}
use pushward_integrations.Ci.{Job, Status, queued, in_progress, completed, job_failed}

-- `earliest` of weights.go: a zero time is "unknown".
unfoldable pub earliest : Time → Time → Time
earliest cur ts = if not (is_zero ts) && (is_zero cur || before ts cur) then ts else cur

pub record Step : Type 0 where
  pub name : Str
  pub count : ℕ
  pub done : ℕ
  pub active : Bool
  pub failed : Bool
  pub started_at : Time

abbrev pub new_step : Str → Step
new_step name = record {
  name = name;
  count = 0;
  done = 0;
  active = false;
  failed = false;
  started_at = 0;
}

-- The variables of the loop over the jobs.
pub record Scan : Type 0 where
  pub steps : List Step
  pub step_idx : Map Str ℕ
  pub completed_jobs : ℕ
  pub all_completed : Bool
  pub any_failed : Bool

abbrev pub start : Scan
start = record {
  steps = [];
  step_idx = [];
  completed_jobs = 0;
  all_completed = true;
  any_failed = false;
}

abbrev pub update_at : List Step → ℕ → (Step → Step) → List Step
update_at [] i f = []
update_at (s ∷ ss) zero f = f s ∷ ss
update_at (s ∷ ss) (suc i) f = s ∷ update_at ss i f

-- What the loop's body does to the step of the job.
absorb_status : Status → Job → Step → Step
unfolding job_failed
absorb_status completed job s = record s {
  done = s.done + 1;
  failed = s.failed || job_failed job.conclusion;
}
absorb_status in_progress job s = record s { active = true }
absorb_status queued job s = s

unfoldable pub absorb : Job → Step → Step
unfolding absorb_status
absorb job s =
    absorb_status job.status job
      (record s { count = s.count + 1; started_at = earliest s.started_at job.started_at })

-- And to the variables for the whole run.
unfoldable pub tally : Status → Job → Scan → Scan
unfolding job_failed
tally completed job sc = record sc {
  completed_jobs = sc.completed_jobs + 1;
  any_failed = sc.any_failed || job_failed job.conclusion;
}
tally in_progress job sc = record sc { all_completed = false }
tally queued job sc = record sc { all_completed = false }

-- `stepIdx[base] = si; steps = append(steps, step{name: base})`
unfoldable pub append_step : Str → Scan → Scan
append_step base sc = record sc {
  step_idx = put base (length sc.steps) sc.step_idx;
  steps = sc.steps ++ (new_step base ∷ []);
}

-- The step's index, after a step is appended for a base name that is new.
unfoldable pub locate : Option ℕ → Str → Scan → Scan × ℕ
locate (some si) base sc = (sc, si)
locate none base sc = (append_step base sc, length sc.steps)

unfoldable pub scan_job : (Str → Str) → Job → Scan → Scan
unfolding locate absorb tally
scan_job base_of job sc =
    let base = base_of job.name in
    let (sc', si) = locate (get base sc.step_idx) base sc in
    tally job.status job (record sc' { steps = update_at sc'.steps si (absorb job) })

unfoldable pub scan : (Str → Str) → List Job → Scan → Scan
unfolding scan_job
scan base_of [] sc = sc
scan base_of (job ∷ jobs) sc = scan base_of jobs (scan_job base_of job sc)

abbrev pub is_blank : Str → Bool
is_blank [] = true
is_blank (c ∷ s) = false

-- The second loop: the first active step, by its 1-based index. The name stays blank, and the search
-- goes on, while no active step with a name is met.
unfoldable pub find_active : ℕ → ℕ → Str → List Step → ℕ × Str
find_active i current name [] = (current, name)
find_active i current name (s ∷ ss) =
    find_active (i + 1) (if s.active && is_blank name then i + 1 else current)
      (if s.active && is_blank name then s.name else name) ss

-- The first step with a job that is not completed.
unfoldable pub find_waiting : ℕ → List Step → Option ℕ
find_waiting i [] = none
find_waiting i (s ∷ ss) =
    let rest = find_waiting (i + 1) ss in if ltb s.done s.count then some (i + 1) else rest

abbrev or_keep : Option ℕ → ℕ → ℕ
or_keep none n = n
or_keep (some i) n = i

abbrev pub queued_step_name : Str
queued_step_name = b'Q' ∷ b'u' ∷ b'e' ∷ b'u' ∷ b'e' ∷ b'd' ∷ []

unfoldable pub current_step : Bool → List Step → ℕ × Str
unfolding find_active find_waiting
current_step all_completed steps =
    let (current, name) = find_active 0 0 [] steps in
    if is_blank name && not all_completed
    then (or_keep (find_waiting 0 steps) current, queued_step_name)
    else (current, name)

pub record StepInfo : Type 0 where
  pub total_steps : ℕ
  pub current_step : ℕ
  pub current_step_name : Str
  pub step_rows : List ℕ
  pub step_labels : List Str
  pub step_colors : List Str
  pub current_step_started_at : Time
  pub all_completed : Bool
  pub any_failed : Bool
  pub progress : ℕ × ℕ

-- `steps[currentStep-1].startedAt`; `none` is the panic on an index out of range.
unfoldable pub started_at_of : ℕ → List Step → Option Time
started_at_of current steps =
    if ltb current 1
    then some 0
    else elim (get_elem? steps (current - 1)) [ none ↦ none | some s ↦ some s.started_at ]

abbrev pub info_of : (Str → Str) → List Job → Scan → ℕ × Str → Time → StepInfo
info_of color jobs sc (current, name) started = record {
  total_steps = length sc.steps;
  current_step = current;
  current_step_name = name;
  step_rows = map (λ s. s.count) sc.steps;
  step_labels = map (λ s. s.name) sc.steps;
  step_colors = map (λ s. color s.name) sc.steps;
  current_step_started_at = started;
  all_completed = sc.all_completed;
  any_failed = sc.any_failed;
  progress = (sc.completed_jobs, length jobs);
}

abbrev pub with_started : (Str → Str) → List Job → Scan → ℕ × Str → Option Time → Option StepInfo
with_started color jobs sc current none = none
with_started color jobs sc current (some started) = some (info_of color jobs sc current started)

unfoldable pub compute_steps : (Str → Str) → (Str → Str) → List Job → Option StepInfo
unfolding scan started_at_of current_step
compute_steps base_of color jobs =
    let sc = scan base_of jobs start in
    let current = current_step sc.all_completed sc.steps in
    with_started color jobs sc current (started_at_of current.0 sc.steps)

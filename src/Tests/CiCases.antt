-- ===== src/Tests/CiCases.antt =====
-- The CI steps at concrete inputs: the steps, the weights and the live window. The float64 of these runs
-- is a natural number, which is one way to have the operations.
use pushward_integrations.Prelude.{
  ◌<◌, ◌==◌, false, ℕ, ◌+◌, ◌-◌, ◌*◌, ◌/◌, ◌≤◌, ◌≡◌, ◌≢◌, refl, List, [], ◌∷◌, arith, none, some,
  Str, Eq_str, str_eq, length, get_elem?, ltb, leb, min, second,
}
use pushward_integrations.Prelude.Float.{Float64}
use pushward_integrations.Prelude.GoMap as GoMap
use pushward_integrations.Prelude.GoMap.{Map}
use pushward_integrations.Ci.{Job, queued, in_progress, completed, success, other}
use pushward_integrations.Ci.Names.{base_job_name, step_color}
use pushward_integrations.Ci.Steps.{Step, start, scan, StepInfo, compute_steps, queued_step_name}
use pushward_integrations.Ci.Steps.Groups.{collect, scan_groups}
use pushward_integrations.Ci.Steps.Current.{sum, done_total, compute_steps_totals}
use pushward_integrations.Ci.Busy.{ShardSpan, intervals, busy_time}
use pushward_integrations.Ci.Busy.Cover.{covered, count, StartsFrom, EndsBy}
use pushward_integrations.Ci.Busy.Union.{busy_time_measure}
use pushward_integrations.Ci.Weights.{fill_weights, or_empty, group_weights}
use pushward_integrations.Ci.Weights.Groups.{jobs_of, weight_of_jobs, get-group_weights}
use pushward_integrations.Ci.Weights.Fill.{unmeasured, filled, get-fill_weights}
use pushward_integrations.Ci.Anchor.{window, unix, estimate, live_anchor}
use pushward_integrations.Ci.Anchor.Window.{live_anchor-window}
use pushward_integrations.Cipoll.Cache.{Eq_key, zero_shape}

abbrev pub whole : Float64
whole = record {
  F = ℕ;
  of_nat = λ n. n;
  seconds = λ d. d / second;
  add = λ a b. a + b;
  mul = λ a b. a * b;
  div = λ a b. a / b;
  leb = leb;
  ltb = ltb;
  fmin = min;
  round = λ a. a;
  trunc = λ a. a;
  sub = λ a b. a - b;
  abs = λ a. a;
  eqb = λ a b. a == b;
  is_nan = λ a. false;
  is_inf = λ a. false;
}

abbrev pub build : Str
build = b'b' ∷ []

abbrev pub check : Str
check = b'c' ∷ []

abbrev pub id_name : Str → Str
id_name s = s

abbrev pub jobs : List Job
jobs =
    record {
      name = build;
      status = completed;
      conclusion = success;
      started_at = 10;
      completed_at = 20;
    }
    ∷ record {
      name = check;
      status = in_progress;
      conclusion = other;
      started_at = 21;
      completed_at = 0;
    }
    ∷ record { name = build; status = queued; conclusion = other; started_at = 0; completed_at = 0 }
    ∷ []

scan_groups_example :
    let sc = scan id_name jobs start in
    ((i : ℕ) (s : Step) → get_elem? sc.steps i ≡ some s → collect id_name s.name jobs none ≡ some s)
    × ((i j : ℕ) (s t : Step)
        → get_elem? sc.steps i ≡ some s
        → get_elem? sc.steps j ≡ some t
        → s.name ≡ t.name
        → i ≡ j)
    × ((b : Str) (s : Step)
        → collect id_name b jobs none ≡ some s
        → (i : ℕ) × (get_elem? sc.steps i ≡ some s))
scan_groups_example = scan_groups id_name jobs

compute_steps_totals_example :
    (info : StepInfo) × (compute_steps base_job_name (step_color id_name) jobs ≡ some info)
    × (info.current_step ≤ info.total_steps)
    × (length info.step_rows ≡ info.total_steps)
    × (length info.step_labels ≡ info.total_steps)
    × (length info.step_colors ≡ info.total_steps)
    × (sum info.step_rows ≡ length jobs)
    × (info.progress ≡ (done_total jobs, length jobs))
compute_steps_totals_example = compute_steps_totals base_job_name (step_color id_name) jobs

-- Two shards that overlap, one after a gap, and one without an end.
abbrev pub shard : ℕ → ℕ → ShardSpan
shard a b = record { start = a; end_at = b }

abbrev pub shards : List ShardSpan
shards = shard 30 35 ∷ shard 10 20 ∷ shard 15 22 ∷ shard 33 0 ∷ []

shards-StartsFrom : StartsFrom 10 (intervals 10 40 shards)
unfolding intervals
shards-StartsFrom = ground arith

shards-EndsBy : EndsBy 40 (intervals 10 40 shards)
unfolding intervals
shards-EndsBy = ground arith

shards-some : intervals 10 40 shards ≢ []
unfolding intervals
shards-some = ground arith

busy_time_measure_example :
    busy_time shards 10 40 ≡ some (count (covered (intervals 10 40 shards)) 40)
busy_time_measure_example =
    busy_time_measure shards 10 40 10 40 (omega arith) (omega arith) (omega arith) shards-StartsFrom
      shards-EndsBy shards-some

busy_22 : busy_time shards 10 40 ≡ some 22
unfolding busy_time
busy_22 = refl

abbrev pub history : Map Str ℕ
history = (build, 50) ∷ []

get-fill_weights_example :
    ((out : Map Str ℕ) × (((fill_weights whole (some history) (build ∷ check ∷ []) (40 * second)).0
          ≡ some out)
        × ((l : Str)
            → GoMap.get l out ≡ filled whole history (build ∷ check ∷ []) (40 * second) l)))
    × ((l : Str)
        → GoMap.get l
            (or_empty whole (fill_weights whole none (build ∷ check ∷ []) (40 * second)).0)
          ≡ unmeasured whole (build ∷ check ∷ []) (40 * second) l)
    × ((fill_weights whole none (build ∷ check ∷ []) (40 * second)).0 ≢ some [])
get-fill_weights_example = get-fill_weights whole history (build ∷ check ∷ []) (40 * second)

get-group_weights_example :
    (GoMap.get build (or_empty whole (group_weights whole id_name jobs))
      ≡ weight_of_jobs whole (jobs_of id_name build jobs))
    × ((or_empty whole (group_weights whole id_name jobs) ≡ [])
        → group_weights whole id_name jobs ≡ none)
get-group_weights_example = get-group_weights whole id_name jobs build

abbrev pub at_build : StepInfo
at_build = record zero_shape {
  total_steps = 2;
  current_step = 1;
  current_step_name = build;
  current_step_started_at = 100 * second;
}

anchored : live_anchor whole at_build history (110 * second) (3600 * second) ≡ window 100 150
unfolding live_anchor str_eq GoMap.get
anchored = refl

live_anchor-window_example :
    (secs : ℕ) × (estimate whole build history ≡ some secs)
    × (1 ≤ 1)
    × (build ≢ queued_step_name)
    × (100 * second ≢ 0)
    × (100 ≡ unix (min (100 * second) (110 * second)))
    × (100 ≤ unix (110 * second))
    × (150 ≡ 100 + min secs 3600)
    × (110 * second + 5 * second < min (100 * second) (110 * second) + min secs 3600 * second)
    × (unix (110 * second) + 5 ≤ 150)
live_anchor-window_example =
    live_anchor-window whole at_build history (110 * second) (3600 * second) 100 150 anchored

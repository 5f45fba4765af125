-- ===== src/Ci/Weights.antt =====
-- shared/ci/weights.go: the weights of the step groups. A nil map or slice is `none`. A map is read in
-- the order of its list, and the theorems are about what a key is mapped to, which no order changes.
pub mod Groups
pub mod Fill
pub mod Project
use pushward_integrations.Prelude.{
  ℕ, zero, suc, Bool, true, false, not, ◌&&◌, ◌||◌, Option, none, some, List, [], ◌∷◌, ◌++◌, map,
  ltb, ◌==◌, if◌then◌else◌, Str, Eq_str, length, Time, Duration, is_zero, replicate, is_some,
}
use pushward_integrations.Prelude.Float.{Float64}
use pushward_integrations.Prelude.GoMap.{Map, get, put}
use pushward_integrations.Ci.{Job}
use pushward_integrations.Ci.Steps.{earliest}
use pushward_integrations.Ci.Busy.{ShardSpan, latest, busy_time}

pub record Group : Type 0 where
  pub first : Time
  pub last : Time
  pub shards : List ShardSpan

abbrev pub new_group : Group
new_group = record { first = 0; last = 0; shards = [] }

abbrev pub or_new : Option Group → Group
or_new none = new_group
or_new (some g) = g

unfoldable pub add_job : Job → Group → Group
unfolding earliest latest
add_job job g = record {
  first = earliest g.first job.started_at;
  last = latest g.last job.completed_at;
  shards =
      if not (is_zero job.started_at) || not (is_zero job.completed_at)
      then g.shards ++ (record { start = job.started_at; end_at = job.completed_at } ∷ [])
      else g.shards;
}

-- The first loop of `GroupWeights`. `base_of` is `BaseJobName`.
unfoldable pub group_jobs : (Str → Str) → List Job → Map Str Group → Map Str Group
unfolding add_job
group_jobs base_of [] groups = groups
group_jobs base_of (job ∷ jobs) groups =
    let base = base_of job.name in
    group_jobs base_of jobs (put base (add_job job (or_new (get base groups))) groups)

pub data WeightsSource : Type 0 where
  measured measured_split split no_weights : WeightsSource

module _ (fl : Float64) where
  abbrev pub step_weight_floor : fl.F
  step_weight_floor = fl.of_nat 1

  abbrev pub fmax : fl.F → fl.F → fl.F
  fmax a b = if fl.ltb a b then b else a

  abbrev pub weight_of : Duration → fl.F
  weight_of busy = fmax step_weight_floor (fl.seconds busy)

  -- The second loop; the map is made when the first group is timed.
  unfoldable pub weigh : Map Str Group → Map Str fl.F
  weigh [] = []
  weigh ((base, g) ∷ groups) =
      let rest = weigh groups in
      elim (busy_time g.shards g.first g.last) [
        | none ↦ rest
        | some busy ↦ (base, weight_of busy) ∷ rest
      ]

  abbrev pub nil_if_empty : Map Str fl.F → Option (Map Str fl.F)
  nil_if_empty [] = none
  nil_if_empty (e ∷ m) = some (e ∷ m)

  unfoldable pub group_weights : (Str → Str) → List Job → Option (Map Str fl.F)
  unfolding group_jobs weigh
  group_weights base_of jobs = nil_if_empty (weigh (group_jobs base_of jobs []))

  unfoldable pub put_all : fl.F → List Str → Map Str fl.F → Map Str fl.F
  put_all share [] out = out
  put_all share (l ∷ ls) out = put_all share ls (put l share out)

  abbrev pub share_of : List Str → Duration → fl.F
  share_of labels total = fl.div (fl.seconds total) (fl.of_nat (length labels))

  unfoldable pub even_weights : List Str → Duration → Option (Map Str fl.F)
  unfolding put_all
  even_weights labels total =
      if length labels == 0 || total == 0 || fl.leb (share_of labels total) step_weight_floor
      then none
      else some (put_all (share_of labels total) labels [])

  abbrev pub clamp : fl.F → fl.F → fl.F
  clamp limit w = if fl.ltb step_weight_floor limit && fl.ltb limit w then limit else w

  unfoldable pub clamp_all : fl.F → Map Str fl.F → Map Str fl.F
  clamp_all limit [] = []
  clamp_all limit ((name, w) ∷ m) = (name, clamp limit w) ∷ clamp_all limit m

  -- The last loop of `FillWeights`, over the even shares.
  unfoldable pub share_out :
      Map Str fl.F → Map Str fl.F × WeightsSource → Map Str fl.F × WeightsSource
  share_out [] acc = acc
  share_out ((name, share) ∷ even) (weights, source) =
      let known = share_out even (weights, source) in
      let new = share_out even (put name share weights, measured_split) in
      if is_some (get name weights) then known else new

  abbrev pub or_empty : Option (Map Str fl.F) → Map Str fl.F
  or_empty none = []
  or_empty (some m) = m

  abbrev pub only_even : Option (Map Str fl.F) → Option (Map Str fl.F) × WeightsSource
  only_even none = (none, no_weights)
  only_even (some even) = (some even, split)

  unfoldable pub fill_weights :
      Option (Map Str fl.F) → List Str → Duration → Option (Map Str fl.F) × WeightsSource
  unfolding even_weights clamp_all share_out
  fill_weights none labels run = only_even (even_weights labels run)
  fill_weights (some m) labels run =
      let (weights, source) =
        share_out (or_empty (even_weights labels run)) (clamp_all (fl.seconds run) m, measured) in
      (some weights, source)

  unfoldable pub baseline_weights :
      (Str → Str) → List Job → List Str → Duration → Option (Map Str fl.F) × WeightsSource
  unfolding group_weights fill_weights
  baseline_weights base_of jobs labels run = fill_weights (group_weights base_of jobs) labels run

  unfoldable pub sum_weights : fl.F → Map Str fl.F → fl.F
  sum_weights sum [] = sum
  sum_weights sum ((name, w) ∷ m) = sum_weights (fl.add sum w) m

  abbrev at_floor : fl.F → fl.F
  at_floor mean = if fl.ltb mean step_weight_floor then step_weight_floor else mean

  unfoldable pub mean_weight : Map Str fl.F → Option fl.F
  unfolding sum_weights
  mean_weight m =
      if length m == 0
      then none
      else some (at_floor (fl.div (sum_weights (fl.of_nat 0) m) (fl.of_nat (length m))))

  abbrev pub or_mean : Option fl.F → fl.F → fl.F
  or_mean none mean = mean
  or_mean (some w) mean = w

  unfoldable pub project_weights : List Str → Map Str fl.F → Option (List fl.F)
  unfolding mean_weight
  project_weights labels by_name = elim (mean_weight by_name) [
    | none ↦ none
    | some mean ↦ some (map (λ l. or_mean (get l by_name) mean) labels)
  ]

  unfoldable pub uniform_weights : ℕ → Option (List fl.F)
  uniform_weights n = if n == 0 then none else some (replicate n step_weight_floor)

-- ===== src/Ci/Weights/Groups.antt =====
-- `GroupWeights` of shared/ci/weights.go, against the busy time of the jobs of one name.
use pushward_integrations.Prelude.{
  ◌≡◌, refl, sym, ◌∙◌, ◌&&◌, ◌==◌, ◌++◌, min, max, Bool-cases, Time, ap, inl, inr, Option, none,
  some, Option-cases, List, [], ◌∷◌, arith, if◌then◌else◌, Str, str_eq, Eq_str, str_eq_iff,
}
use pushward_integrations.Prelude.Float.{Float64}
use pushward_integrations.Prelude.GoMap.{Map, get, put, get-put, Distinct, Distinct-put}
use pushward_integrations.Ci.{Job}
use pushward_integrations.Ci.Busy.{ShardSpan, latest, busy_time}
use pushward_integrations.Ci.Steps.{earliest}
use pushward_integrations.Ci.Weights.{
  Group, new_group, or_new, add_job, group_jobs, weight_of, weigh, nil_if_empty, group_weights,
  or_empty,
}

-- The group of a name: the jobs of that name, in their order, and no others.
abbrev collect : (Str → Str) → Str → List Job → Option Group → Option Group
collect base_of b [] o = o
collect base_of b (job ∷ jobs) o =
    collect base_of b jobs
      (if str_eq (base_of job.name) b then some (add_job job (or_new o)) else o)

get-group_jobs :
    (base_of : Str → Str) (b : Str) (jobs : List Job) (groups : Map Str Group)
    → get b (group_jobs base_of jobs groups) ≡ collect base_of b jobs (get b groups)
unfolding group_jobs
get-group_jobs base_of b [] groups = refl
get-group_jobs base_of b (job ∷ jobs) groups =
    let base = base_of job.name in
    let g = add_job job (or_new (get base groups)) in
    get-group_jobs base_of b jobs (put base g groups)
    ∙ ap (collect base_of b jobs) (ground (arith, get-put base b g groups, str_eq_iff base b))

Distinct-group_jobs :
    (base_of : Str → Str) (jobs : List Job) (groups : Map Str Group)
    → Distinct groups
    → Distinct (group_jobs base_of jobs groups)
unfolding group_jobs
Distinct-group_jobs base_of [] groups d = d
Distinct-group_jobs base_of (job ∷ jobs) groups d =
    let base = base_of job.name in
    let g = add_job job (or_new (get base groups)) in
    Distinct-group_jobs base_of jobs (put base g groups) (Distinct-put base g groups d)

-- The jobs of a name.
abbrev pub jobs_of : (Str → Str) → Str → List Job → List Job
jobs_of base_of b [] = []
jobs_of base_of b (job ∷ jobs) =
    let rest = jobs_of base_of b jobs in if str_eq (base_of job.name) b then job ∷ rest else rest

-- The smaller of two times, where 0 is none.
abbrev pub least : Time → Time → Time
least a b = if a == 0 then b else if b == 0 then a else min a b

abbrev pub first_start : List Job → Time
first_start [] = 0
first_start (job ∷ jobs) = least job.started_at (first_start jobs)

abbrev pub last_end : List Job → Time
last_end [] = 0
last_end (job ∷ jobs) = max job.completed_at (last_end jobs)

-- The spans of the jobs that have started or ended.
abbrev pub spans_of : List Job → List ShardSpan
spans_of [] = []
spans_of (job ∷ jobs) =
    let rest = spans_of jobs in
    if (job.started_at == 0) && (job.completed_at == 0)
    then rest
    else record { start = job.started_at; end_at = job.completed_at } ∷ rest

abbrev with_jobs : List Job → Group → Group
with_jobs jobs g = record {
  first = least g.first (first_start jobs);
  last = max g.last (last_end jobs);
  shards = g.shards ++ spans_of jobs;
}

append_one : (xs ys : List ShardSpan) (x : ShardSpan) → (xs ++ (x ∷ [])) ++ ys ≡ xs ++ (x ∷ ys)
append_one [] ys x = refl
append_one (y ∷ xs) ys x = ap (λ zs. y ∷ zs) (append_one xs ys x)

append_nil : (xs : List ShardSpan) → xs ++ [] ≡ xs
append_nil [] = refl
append_nil (x ∷ xs) = ap (λ zs. x ∷ zs) (append_nil xs)

add_job-shards :
    (job : Job) (g : Group) (jobs : List Job)
    → (add_job job g).shards ++ spans_of jobs ≡ g.shards ++ spans_of (job ∷ jobs)
unfolding add_job
add_job-shards job g jobs = elim (Bool-cases ((job.started_at == 0) && (job.completed_at == 0))) [
  | inl neither ↦ ground (arith, neither)
  | inr either ↦
      let span : ShardSpan = record { start = job.started_at; end_at = job.completed_at } in
      ground (arith, either, append_one g.shards (spans_of jobs) span)
]

add_job-times :
    (job : Job) (g : Group) (jobs : List Job)
    → (least (add_job job g).first (first_start jobs) ≡ least g.first (first_start (job ∷ jobs)))
      × (max (add_job job g).last (last_end jobs) ≡ max g.last (last_end (job ∷ jobs)))
unfolding add_job earliest latest
add_job-times job g jobs = (ground arith, ground arith)

add_job-with_jobs :
    (job : Job) (g : Group) (jobs : List Job)
    → with_jobs jobs (add_job job g) ≡ with_jobs (job ∷ jobs) g
add_job-with_jobs job g jobs =
    let (first, last) = add_job-times job g jobs in
    let shards = add_job-shards job g jobs in
    λ i. record { first = first i; last = last i; shards = shards i }

collect_more :
    (base_of : Str → Str) (b : Str) (jobs : List Job) (g : Group)
    → collect base_of b jobs (some g) ≡ some (with_jobs (jobs_of base_of b jobs) g)
collect_more base_of b [] g =
    let last : max g.last 0 ≡ g.last = omega arith in
    let first : least g.first 0 ≡ g.first = ground arith in
    let shards = append_nil g.shards in
    sym (λ i. some (record { first = first i; last = last i; shards = shards i }))
collect_more base_of b (job ∷ jobs) g = elim (Bool-cases (str_eq (base_of job.name) b)) [
  | inl its ↦ rw its (
      collect_more base_of b jobs (add_job job g)
      ∙ ap some (add_job-with_jobs job g (jobs_of base_of b jobs)))
  | inr other ↦ rw other (collect_more base_of b jobs g)
]

-- The group of some jobs, none without any.
abbrev group_of : List Job → Option Group
group_of [] = none
group_of (job ∷ jobs) = some (with_jobs (job ∷ jobs) new_group)

collect_lem :
    (base_of : Str → Str) (b : Str) (jobs : List Job)
    → collect base_of b jobs none ≡ group_of (jobs_of base_of b jobs)
collect_lem base_of b [] = refl
collect_lem base_of b (job ∷ jobs) = elim (Bool-cases (str_eq (base_of job.name) b)) [
  | inl its ↦ rw its (
      collect_more base_of b jobs (add_job job new_group)
      ∙ ap some (add_job-with_jobs job new_group (jobs_of base_of b jobs)))
  | inr other ↦ rw other (collect_lem base_of b jobs)
]

module _ (fl : Float64) where
  -- The busy time of a group as a weight, where it has one.
  abbrev timed : Option Group → Option fl.F
  timed none = none
  timed (some g) = elim (busy_time g.shards g.first g.last) [
    | none ↦ none
    | some busy ↦ some (weight_of fl busy)
  ]

  -- What some jobs weigh: their busy time in seconds, at least one; nothing where they have none.
  abbrev pub weight_of_jobs : List Job → Option fl.F
  weight_of_jobs [] = none
  weight_of_jobs (job ∷ jobs) =
      let all = job ∷ jobs in
      elim (busy_time (spans_of all) (first_start all) (last_end all)) [
        | none ↦ none
        | some busy ↦
            some (if fl.ltb (fl.of_nat 1) (fl.seconds busy) then fl.seconds busy else fl.of_nat 1)
      ]

  timed_lem : (jobs : List Job) → timed (group_of jobs) ≡ weight_of_jobs jobs
  timed_lem [] = refl
  timed_lem (job ∷ jobs) = ground arith

  get-weigh :
      (b : Str) (groups : Map Str Group)
      → Distinct groups
      → get b (weigh fl groups) ≡ timed (get b groups)
  unfolding get weigh
  get-weigh b [] d = refl
  get-weigh b ((k, g) ∷ groups) d = elim (Option-cases (busy_time g.shards g.first g.last)) [
    | inl untimed ↦ ground (arith, untimed, get-weigh b groups, d, str_eq_iff k b)
    | inr (busy, e) ↦ ground (arith, e, get-weigh b groups, d, str_eq_iff k b)
  ]

  or_empty-nil : (m : Map Str fl.F) → or_empty fl (nil_if_empty fl m) ≡ m
  or_empty-nil [] = refl
  or_empty-nil (e ∷ m) = refl

  -- `GroupWeights` weighs a base name by the jobs that have it and no others: with none of them, or
  -- without a busy time, it has no weight; else the weight is the busy time in seconds, at least one, of the
  -- spans of those that started or ended, within their first start and their last completion. Its result
  -- is nil when it has no entry.
  pub get-group_weights :
      (base_of : Str → Str) (jobs : List Job) (b : Str)
      → (get b (or_empty fl (group_weights fl base_of jobs))
          ≡ weight_of_jobs (jobs_of base_of b jobs))
        × ((or_empty fl (group_weights fl base_of jobs) ≡ [])
            → group_weights fl base_of jobs ≡ none)
  unfolding group_weights get
  get-group_weights base_of jobs b =
      let groups = group_jobs base_of jobs [] in
      (
        ap (get b) (or_empty-nil (weigh fl groups))
            ∙ (get-weigh b groups (Distinct-group_jobs base_of jobs [] tt)
                ∙ ap timed (get-group_jobs base_of b jobs [] ∙ collect_lem base_of b jobs)
                ∙ timed_lem (jobs_of base_of b jobs)),
        λ empty. ground (arith, empty, or_empty-nil (weigh fl groups)),
      )

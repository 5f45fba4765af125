-- ===== src/Ci/Steps/Current.antt =====
-- The current step and the totals of `ComputeSteps`, shared/ci/steps.go.
use pushward_integrations.Prelude.{
  ℕ, zero, suc, ◌+◌, ◌-◌, ◌≤◌, ◌<◌, ◌≡◌, ◌≢◌, refl, ap, ◌∙◌, inl, inr, Bool, ◌&&◌, none, some,
  Option-cases, List, [], ◌∷◌, ◌++◌, map, arith, if◌then◌else◌, Str, Eq_str, length, length-map,
  length-append, get_elem?,
}
use pushward_integrations.Prelude.GoMap.{get}
use pushward_integrations.Ci.{Job, queued, in_progress, completed}
use pushward_integrations.Ci.Steps.Index.{IsIndexed, get_elem?-end}
use pushward_integrations.Ci.Steps.Groups.{start-IsIndexed, scan_job-IsIndexed}
use pushward_integrations.Ci.Steps.{
  Step, new_step, Scan, start, update_at, append_step, absorb, tally, locate, scan_job, scan,
  find_active, find_waiting, current_step, started_at_of, StepInfo, compute_steps, info_of,
  with_started, is_blank,
}

find_active-le :
    (i current : ℕ) (name : Str) (ss : List Step)
    → current ≤ i
    → (find_active i current name ss).0 ≤ i + length ss
unfolding find_active
find_active-le i current name [] h = omega arith
find_active-le i current name (s ∷ ss) h = ground (
  arith,
  find_active-le (i + 1) (if s.active && is_blank name then i + 1 else current)
      (if s.active && is_blank name then s.name else name) ss,
)

find_waiting-le : (i n : ℕ) (ss : List Step) → find_waiting i ss ≡ some n → n ≤ i + length ss
unfolding find_waiting
find_waiting-le i n [] h = cc
find_waiting-le i n (s ∷ ss) h = ground (arith, find_waiting-le (i + 1) n ss)

current_step-le : (all : Bool) (ss : List Step) → (current_step all ss).0 ≤ length ss
unfolding current_step
current_step-le all ss = elim (Option-cases (find_waiting 0 ss)) [
  | inl e ↦ ground (arith, e, find_active-le 0 0 [] ss)
  | inr (n, e) ↦ ground (arith, e, find_active-le 0 0 [] ss, find_waiting-le 0 n ss e)
]

get_elem?-some : (ss : List Step) (i : ℕ) → i < length ss → get_elem? ss i ≢ none
get_elem?-some [] i h = absurd (omega arith)
get_elem?-some (s ∷ ss) zero h = ground arith
get_elem?-some (s ∷ ss) (suc i) h = get_elem?-some ss i (omega arith)

started_at_of-some : (n : ℕ) (ss : List Step) → n ≤ length ss → started_at_of n ss ≢ none
unfolding started_at_of
started_at_of-some n ss h = ground (arith, get_elem?-some ss (n - 1))

-- Sums over the steps.
abbrev pub sum_of : (Step → ℕ) → List Step → ℕ
sum_of f [] = 0
sum_of f (s ∷ ss) = f s + sum_of f ss

sum_of-append :
    (f : Step → ℕ) (ss : List Step) (x : Step) → sum_of f (ss ++ (x ∷ [])) ≡ sum_of f ss + f x
sum_of-append f [] x = omega arith
sum_of-append f (s ∷ ss) x = ground (arith, sum_of-append f ss x)

-- What one job adds to the jobs done.
abbrev pub done_by : Job → ℕ
done_by job = elim job.status [ queued ↦ 0 | in_progress ↦ 0 | completed ↦ 1 ]

abbrev pub done_total : List Job → ℕ
done_total [] = 0
done_total (job ∷ jobs) = done_by job + done_total jobs

count-absorb : (job : Job) (s : Step) → (absorb job s).count ≡ s.count + 1
unfolding absorb
count-absorb job s = ground arith

sum_of-update_at :
    (ss : List Step) (i : ℕ) (job : Job)
    → i < length ss
    → sum_of (λ s. s.count) (update_at ss i (absorb job)) ≡ sum_of (λ s. s.count) ss + 1
sum_of-update_at [] i job h = absurd (omega arith)
sum_of-update_at (s ∷ ss) zero job h = ground (arith, count-absorb job s)
sum_of-update_at (s ∷ ss) (suc i) job h = ground (arith, sum_of-update_at ss i job (omega arith))

module _ (base_of : Str → Str) (job : Job) (sc : Scan) (ok : IsIndexed sc) where
  index_in_range : (i : ℕ) → get (base_of job.name) sc.step_idx ≡ some i → i < length sc.steps
  index_in_range i known =
      ground (arith, ok.there (base_of job.name) i known, get_elem?-end sc.steps i)

  count-scan_job :
      sum_of (λ s. s.count) (scan_job base_of job sc).steps ≡ sum_of (λ s. s.count) sc.steps + 1
  unfolding scan_job tally append_step
  count-scan_job = elim (Option-cases (get (base_of job.name) sc.step_idx)) [
    | inl new ↦
        rw (new, locate) ground
          (
            arith,
            job.status,
            length-append sc.steps (new_step (base_of job.name) ∷ []),
            sum_of-update_at (sc.steps ++ (new_step (base_of job.name) ∷ [])) (length sc.steps) job,
            sum_of-append (λ s. s.count) sc.steps (new_step (base_of job.name)),
          )
    | inr (i, known) ↦
        rw (known, locate) ground
          (arith, job.status, sum_of-update_at sc.steps i job (index_in_range i known))
  ]

  done-scan_job : (scan_job base_of job sc).completed_jobs ≡ sc.completed_jobs + done_by job
  unfolding scan_job tally append_step
  done-scan_job = elim (Option-cases (get (base_of job.name) sc.step_idx)) [
    | inl new ↦ rw (new, locate) ground (arith, job.status)
    | inr (i, known) ↦ rw (known, locate) ground (arith, job.status)
  ]

scan-totals :
    (base_of : Str → Str) (jobs : List Job) (sc : Scan)
    → IsIndexed sc
    → (sum_of (λ s. s.count) (scan base_of jobs sc).steps
        ≡ sum_of (λ s. s.count) sc.steps + length jobs)
      × ((scan base_of jobs sc).completed_jobs ≡ sc.completed_jobs + done_total jobs)
unfolding scan
scan-totals base_of [] sc ok = (omega arith, omega arith)
scan-totals base_of (job ∷ jobs) sc ok =
    let (a, b) =
      scan-totals base_of jobs (scan_job base_of job sc) (scan_job-IsIndexed base_of job sc ok) in
    (
      ground (arith, a, count-scan_job base_of job sc ok),
      ground (arith, b, done-scan_job base_of job sc ok),
    )

abbrev pub sum : List ℕ → ℕ
sum [] = 0
sum (n ∷ ns) = n + sum ns

sum-map : (f : Step → ℕ) (ss : List Step) → sum (map f ss) ≡ sum_of f ss
sum-map f [] = refl
sum-map f (s ∷ ss) = ap (λ n. f s + n) (sum-map f ss)

-- `ComputeSteps` always returns: the index it reads the current step at is in range. The current step
-- it returns is at most the number of steps, the rows, labels and colors have one entry for each step,
-- every job is counted in exactly one row, and the progress is the completed jobs over all jobs.
pub compute_steps_totals :
    (base_of color : Str → Str) (jobs : List Job)
    → (info : StepInfo) × (compute_steps base_of color jobs ≡ some info)
      × (info.current_step ≤ info.total_steps)
      × (length info.step_rows ≡ info.total_steps)
      × (length info.step_labels ≡ info.total_steps)
      × (length info.step_colors ≡ info.total_steps)
      × (sum info.step_rows ≡ length jobs)
      × (info.progress ≡ (done_total jobs, length jobs))
unfolding compute_steps
compute_steps_totals base_of color jobs =
    let sc = scan base_of jobs start in
    let (counts, dones) = scan-totals base_of jobs start start-IsIndexed in
    let current = current_step sc.all_completed sc.steps in
    let bound = current_step-le sc.all_completed sc.steps in
    elim (Option-cases (started_at_of current.0 sc.steps)) [
      | inl e ↦ absurd (started_at_of-some current.0 sc.steps bound e)
      | inr (t, e) ↦ (
        info_of color jobs sc current t,
        ap (with_started color jobs sc current) e,
        bound,
        length-map sc.steps (λ s. s.count),
        length-map sc.steps (λ s. s.name),
        length-map sc.steps (λ s. color s.name),
        sum-map (λ s. s.count) sc.steps ∙ ground (arith, counts),
        ap (λ n. (n, length jobs)) (ground (arith, dones)),
      )
    ]

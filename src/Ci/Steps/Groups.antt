-- ===== src/Ci/Steps/Groups.antt =====
-- The loop over the jobs of `ComputeSteps`, shared/ci/steps.go, against its meaning: one step for each
-- base name, and in it exactly the jobs of that name.
use pushward_integrations.Prelude.{
  ℕ, ◌≡◌, refl, ap, sym, ◌∙◌, inl, inr, Option, none, some, Option-cases, List, [], ◌∷◌, arith,
  if◌then◌else◌, Str, Eq_str, str_eq, str_eq_iff, length, get_elem?,
}
use pushward_integrations.Prelude.GoMap.{get}
use pushward_integrations.Ci.{Job}
use pushward_integrations.Ci.Steps.{Step, Scan, start, append_step, absorb, locate, scan_job, scan}
use pushward_integrations.Ci.Steps.Index.{
  name_of, IsIndexed, step_of, or_new, append_step-IsIndexed, update-IsIndexed, tally-IsIndexed,
  step_of-tally, step_of-update, get-append_step, step_of-append, step_of_new, step_of_known,
  step_of_back, step_of-some,
}

-- One job: its own step, or a new one, takes it in, and no other step changes.
module _ (base_of : Str → Str) (job : Job) (sc : Scan) (ok : IsIndexed sc) where
  abbrev base : Str
  base = base_of job.name

  pub scan_job-IsIndexed : IsIndexed (scan_job base_of job sc)
  unfolding scan_job
  scan_job-IsIndexed = elim (Option-cases (get base sc.step_idx)) [
    | inl new ↦
        rw (new, locate)
          (tally-IsIndexed job.status job _ (
            update-IsIndexed job (length sc.steps) (append_step base sc)
              (append_step-IsIndexed base sc new ok)))
    | inr (i, known) ↦
        rw (known, locate) (tally-IsIndexed job.status job _ (update-IsIndexed job i sc ok))
  ]

  step_of-scan_job :
      (b : Str)
      → step_of b (scan_job base_of job sc)
        ≡ (if str_eq base b then some (absorb job (or_new b (step_of b sc))) else step_of b sc)
  unfolding scan_job
  step_of-scan_job b = elim (Option-cases (get base sc.step_idx)) [
    | inl new ↦
        let sc' = append_step base sc in
        let ok' = append_step-IsIndexed base sc new ok in
        let known = get-append_step base sc in
        rw (new, locate)
          (step_of-tally b job.status job _
            ∙ step_of-update base b (length sc.steps) job sc' ok' known
            ∙ ground (
              arith,
              step_of-append base b sc ok new,
              step_of_new base sc new,
              str_eq_iff base b,
            ))
    | inr (i, known) ↦
        rw (known, locate)
          (step_of-tally b job.status job _
            ∙ step_of-update base b i job sc ok known
            ∙ ground (arith, step_of_known base i sc ok known, str_eq_iff base b))
  ]

-- What a list of jobs adds to the step of a name: the jobs of that name, and no others.
abbrev pub collect : (Str → Str) → Str → List Job → Option Step → Option Step
collect base_of b [] o = o
collect base_of b (job ∷ jobs) o =
    collect base_of b jobs
      (if str_eq (base_of job.name) b then some (absorb job (or_new b o)) else o)

scan-IsIndexed :
    (base_of : Str → Str) (jobs : List Job) (sc : Scan)
    → IsIndexed sc
    → IsIndexed (scan base_of jobs sc)
unfolding scan
scan-IsIndexed base_of [] sc ok = ok
scan-IsIndexed base_of (job ∷ jobs) sc ok =
    scan-IsIndexed base_of jobs (scan_job base_of job sc) (scan_job-IsIndexed base_of job sc ok)

step_of-scan :
    (base_of : Str → Str) (b : Str) (jobs : List Job) (sc : Scan)
    → IsIndexed sc
    → step_of b (scan base_of jobs sc) ≡ collect base_of b jobs (step_of b sc)
unfolding scan
step_of-scan base_of b [] sc ok = refl
step_of-scan base_of b (job ∷ jobs) sc ok =
    step_of-scan base_of b jobs (scan_job base_of job sc) (scan_job-IsIndexed base_of job sc ok)
    ∙ ap (collect base_of b jobs) (step_of-scan_job base_of job sc ok b)

some_injective : (i j : ℕ) → some i ≡ some j → i ≡ j
some_injective i j e = ground arith

pub start-IsIndexed : IsIndexed start
unfolding get
start-IsIndexed = record { there = λ b i h. cc; back = λ b i h. cc }

-- Each step that `ComputeSteps` makes is the aggregate of the jobs with its name, in their order, and
-- of no other job; no two steps share a name; and every base name of a job has a step.
pub scan_groups :
    (base_of : Str → Str) (jobs : List Job)
    → let sc = scan base_of jobs start in
      ((i : ℕ) (s : Step)
        → get_elem? sc.steps i ≡ some s
        → collect base_of s.name jobs none ≡ some s)
      × ((i j : ℕ) (s t : Step)
          → get_elem? sc.steps i ≡ some s
          → get_elem? sc.steps j ≡ some t
          → s.name ≡ t.name
          → i ≡ j)
      × ((b : Str) (s : Step)
          → collect base_of b jobs none ≡ some s
          → (i : ℕ) × (get_elem? sc.steps i ≡ some s))
unfolding step_of get
scan_groups base_of jobs =
    let sc = scan base_of jobs start in
    let ok = scan-IsIndexed base_of jobs start start-IsIndexed in
    (
      (λ i s h.
          sym (step_of-scan base_of s.name jobs start start-IsIndexed) ∙ step_of_back i s sc ok h),
      (λ i j s t h k e. some_injective i j (
          sym (ok.back s.name i (ap name_of h))
          ∙ ap (λ b. get b sc.step_idx) e
          ∙ ok.back t.name j (ap name_of k))),
      (λ b s h. step_of-some b s sc (step_of-scan base_of b jobs start start-IsIndexed ∙ h)),
    )

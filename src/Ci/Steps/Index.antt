-- ===== src/Ci/Steps/Index.antt =====
-- The index of the steps by base name that the loop of `ComputeSteps` keeps, shared/ci/steps.go.
use pushward_integrations.Prelude.{
  ℕ, zero, suc, ◌≤◌, ◌≡◌, refl, ap, inl, inr, Option, none, some, Option-cases, List, [], ◌∷◌, ◌++◌,
  arith, ◌==◌, if◌then◌else◌, Str, Eq_str, str_eq, str_eq_iff, length, get_elem?,
}
use pushward_integrations.Prelude.GoMap.{get, get-put, get-put_self}
use pushward_integrations.Ci.{Job, Status, queued, in_progress, completed}
use pushward_integrations.Ci.Steps.{Step, new_step, Scan, update_at, append_step, absorb, tally}

abbrev pub map_step : (Step → Step) → Option Step → Option Step
map_step f none = none
map_step f (some s) = some (f s)

pub get_elem?-update_at :
    (ss : List Step) (i j : ℕ) (f : Step → Step)
    → get_elem? (update_at ss i f) j
      ≡ (if i == j then map_step f (get_elem? ss j) else get_elem? ss j)
get_elem?-update_at [] i j f = ground arith
get_elem?-update_at (s ∷ ss) zero zero f = refl
get_elem?-update_at (s ∷ ss) zero (suc j) f = ground arith
get_elem?-update_at (s ∷ ss) (suc i) zero f = ground arith
get_elem?-update_at (s ∷ ss) (suc i) (suc j) f = ground (arith, get_elem?-update_at ss i j f)

pub get_elem?-snoc :
    (ss : List Step) (j : ℕ) (x : Step)
    → get_elem? (ss ++ (x ∷ [])) j ≡ (if j == length ss then some x else get_elem? ss j)
get_elem?-snoc [] zero x = ground arith
get_elem?-snoc [] (suc j) x = ground arith
get_elem?-snoc (s ∷ ss) zero x = ground arith
get_elem?-snoc (s ∷ ss) (suc j) x = ground (arith, get_elem?-snoc ss j x)

pub get_elem?-end : (ss : List Step) (j : ℕ) → length ss ≤ j → get_elem? ss j ≡ none
get_elem?-end [] j h = refl
get_elem?-end (s ∷ ss) zero h = absurd (omega arith)
get_elem?-end (s ∷ ss) (suc j) h = get_elem?-end ss j (omega arith)

abbrev pub name_of : Option Step → Option Str
name_of none = none
name_of (some s) = some s.name

-- The index and the list of steps name one another.
pub record IsIndexed (sc : Scan) : Type 0 where
  pub there :
      (b : Str) (i : ℕ) → get b sc.step_idx ≡ some i → name_of (get_elem? sc.steps i) ≡ some b
  pub back :
      (b : Str) (i : ℕ) → name_of (get_elem? sc.steps i) ≡ some b → get b sc.step_idx ≡ some i

pub name-absorb : (job : Job) (s : Step) → (absorb job s).name ≡ s.name
unfolding absorb
name-absorb job s = ground arith

pub name-absorb_all : (job : Job) (o : Option Step) → name_of (map_step (absorb job) o) ≡ name_of o
name-absorb_all job none = refl
name-absorb_all job (some s) = ap some (name-absorb job s)

pub tally_keeps :
    (st : Status) (job : Job) (sc : Scan)
    → ((tally st job sc).steps ≡ sc.steps) × ((tally st job sc).step_idx ≡ sc.step_idx)
unfolding tally
tally_keeps st job sc = ground arith

unfoldable pub step_of : Str → Scan → Option Step
step_of b sc = elim (get b sc.step_idx) [ none ↦ none | some i ↦ get_elem? sc.steps i ]

abbrev pub or_new : Str → Option Step → Step
or_new b none = new_step b
or_new b (some s) = s

pub append_step-IsIndexed :
    (base : Str) (sc : Scan)
    → get base sc.step_idx ≡ none
    → IsIndexed sc
    → IsIndexed (append_step base sc)
unfolding append_step
append_step-IsIndexed base sc new ok = record {
  there = λ b i h. ground (
    arith,
    get-put base b (length sc.steps) sc.step_idx,
    get_elem?-snoc sc.steps i (new_step base),
    get_elem?-end sc.steps i,
    ok.there b i,
    str_eq_iff base b,
  );
  back = λ b i h. ground (
    arith,
    new,
    get-put base b (length sc.steps) sc.step_idx,
    get_elem?-snoc sc.steps i (new_step base),
    ok.back b i,
    str_eq_iff base b,
  );
}

-- A change of one step that keeps its name.
pub update-IsIndexed :
    (job : Job) (i : ℕ) (sc : Scan)
    → IsIndexed sc
    → IsIndexed (record sc { steps = update_at sc.steps i (absorb job) })
update-IsIndexed job i sc ok = record {
  there = λ b j h. ground (
    arith,
    get_elem?-update_at sc.steps i j (absorb job),
    ok.there b j h,
    name-absorb_all job (get_elem? sc.steps j),
  );
  back = λ b j h. ground (
    arith,
    get_elem?-update_at sc.steps i j (absorb job),
    ok.back b j,
    name-absorb_all job (get_elem? sc.steps j),
  );
}

pub tally-IsIndexed :
    (st : Status) (job : Job) (sc : Scan) → IsIndexed sc → IsIndexed (tally st job sc)
unfolding tally
tally-IsIndexed completed job sc ok = record { there = ok.there; back = ok.back }
tally-IsIndexed in_progress job sc ok = record { there = ok.there; back = ok.back }
tally-IsIndexed queued job sc ok = record { there = ok.there; back = ok.back }

pub step_of-tally :
    (b : Str) (st : Status) (job : Job) (sc : Scan) → step_of b (tally st job sc) ≡ step_of b sc
unfolding step_of tally
step_of-tally b completed job sc = refl
step_of-tally b in_progress job sc = refl
step_of-tally b queued job sc = refl

pub step_of-update :
    (base b : Str) (i : ℕ) (job : Job) (sc : Scan)
    → IsIndexed sc
    → get base sc.step_idx ≡ some i
    → step_of b (record sc { steps = update_at sc.steps i (absorb job) })
      ≡ (if str_eq base b then map_step (absorb job) (step_of b sc) else step_of b sc)
unfolding step_of
step_of-update base b i job sc ok known = elim (Option-cases (get b sc.step_idx)) [
  | inl absent ↦ ground (arith, absent, known, str_eq_iff base b)
  | inr (j, found) ↦ ground (
    arith,
    found,
    known,
    str_eq_iff base b,
    get_elem?-update_at sc.steps i j (absorb job),
    ok.there b j found,
    ok.there base i known,
  )
]

pub get-append_step :
    (base : Str) (sc : Scan) → get base (append_step base sc).step_idx ≡ some (length sc.steps)
unfolding append_step
get-append_step base sc = get-put_self base (length sc.steps) sc.step_idx

pub step_of-append :
    (base b : Str) (sc : Scan)
    → IsIndexed sc
    → get base sc.step_idx ≡ none
    → step_of b (append_step base sc)
      ≡ (if str_eq base b then some (new_step base) else step_of b sc)
unfolding step_of append_step
step_of-append base b sc ok new = elim (Option-cases (get b sc.step_idx)) [
  | inl absent ↦ ground (
    arith,
    absent,
    get-put base b (length sc.steps) sc.step_idx,
    get_elem?-snoc sc.steps (length sc.steps) (new_step base),
    str_eq_iff base b,
  )
  | inr (j, found) ↦ ground (
    arith,
    new,
    found,
    get-put base b (length sc.steps) sc.step_idx,
    get_elem?-snoc sc.steps (length sc.steps) (new_step base),
    get_elem?-snoc sc.steps j (new_step base),
    get_elem?-end sc.steps j,
    ok.there b j found,
    str_eq_iff base b,
  )
]

pub step_of_new : (base : Str) (sc : Scan) → get base sc.step_idx ≡ none → step_of base sc ≡ none
unfolding step_of
step_of_new base sc new = rw (new, step_of) refl

pub step_of_known :
    (base : Str) (i : ℕ) (sc : Scan)
    → IsIndexed sc
    → get base sc.step_idx ≡ some i
    → (s : Step) × (step_of base sc ≡ some s)
unfolding step_of
step_of_known base i sc ok known = elim (Option-cases (get_elem? sc.steps i)) [
  | inl none' ↦ absurd (ground (arith, none', ok.there base i known))
  | inr (s, e) ↦ (s, rw (known, step_of) e)
]

pub step_of_back :
    (i : ℕ) (s : Step) (sc : Scan)
    → IsIndexed sc
    → get_elem? sc.steps i ≡ some s
    → step_of s.name sc ≡ some s
unfolding step_of
step_of_back i s sc ok h = ground (arith, h, ok.back s.name i)

pub step_of-some :
    (b : Str) (s : Step) (sc : Scan)
    → step_of b sc ≡ some s
    → (i : ℕ) × (get_elem? sc.steps i ≡ some s)
unfolding step_of
step_of-some b s sc h = elim (Option-cases (get b sc.step_idx)) [
  | inl absent ↦ absurd (ground (arith, absent, h))
  | inr (i, found) ↦ (i, ground (arith, found, h))
]

-- ===== src/Ci/Names/Laws.antt =====
-- What `BaseJobName` and `RealignStep` of shared/ci/steps.go compute.
use pushward_integrations.Prelude.{
  ℕ, zero, suc, ◌+◌, ◌-◌, ◌≤◌, ◌<◌, ◌≡◌, ◌≢◌, refl, ap, ◌∙◌, ◌⊎◌, inl, inr, true, none, some,
  Option-cases, List, [], ◌∷◌, ◌++◌, arith, Str, Eq_str, str_eq_iff, length, take, drop, get_elem?,
}
use mathlib.Core.List.{append_assoc}
use pushward_integrations.Ci.Names.{
  starts_with, index, last_index, ends_with, caller_mark, matrix_mark, strip_caller, strip_matrix,
  base_job_name, label_index, realign_step,
}

-- A byte does not stand in a string.
abbrev pub Without : ℕ → Str → Type 0
Without b [] = Unit
Without b (c ∷ s) = (c ≢ b) × Without b s

index_caller :
    (a rest : Str)
    → Without b'/' a
    → index caller_mark (a ++ (caller_mark ++ rest)) ≡ some (length a)
unfolding index starts_with
index_caller [] rest w = refl
index_caller (c ∷ []) rest w = ground (arith, index_caller [] rest tt)
index_caller (c ∷ d ∷ a) rest w = ground (arith, index_caller (d ∷ a) rest w.1)

index_absent : (a : Str) → Without b'/' a → index caller_mark a ≡ none
unfolding index starts_with
index_absent [] w = refl
index_absent (c ∷ []) w = ground arith
index_absent (c ∷ d ∷ a) w = ground (arith, index_absent (d ∷ a) w.1)

last_index_absent : (a : Str) → Without b'(' a → last_index matrix_mark a ≡ none
unfolding last_index starts_with
last_index_absent [] w = refl
last_index_absent (c ∷ []) w = ground arith
last_index_absent (c ∷ d ∷ a) w = ground (arith, last_index_absent (d ∷ a) w.1)

last_index_matrix :
    (a params : Str)
    → Without b'(' params
    → last_index matrix_mark (a ++ (matrix_mark ++ params)) ≡ some (length a)
unfolding last_index starts_with
last_index_matrix [] params w = ground (arith, last_index_absent params w)
last_index_matrix (c ∷ a) params w = rw (last_index_matrix a params w) refl

ends_with-append : (b : ℕ) (a : Str) → ends_with b (a ++ (b ∷ [])) ≡ true
unfolding ends_with
ends_with-append b [] = ground arith
ends_with-append b (c ∷ []) = ground arith
ends_with-append b (c ∷ d ∷ a) = ends_with-append b (d ∷ a)

drop-append : (a s : Str) (n : ℕ) → drop (length a + n) (a ++ s) ≡ drop n s
drop-append [] s n = ap (λ (k : ℕ). drop k s) (let e : 0 + n ≡ n = omega arith in e)
drop-append (c ∷ a) s n =
    ap (λ (k : ℕ). drop k (c ∷ (a ++ s)))
      (let e : suc (length a) + n ≡ suc (length a + n) = omega arith in e)
    ∙ drop-append a s n

take-append : (a s : Str) → take (length a) (a ++ s) ≡ a
take-append [] s = refl
take-append (c ∷ a) s = rw (take-append a s) refl

Without-snoc : (b d : ℕ) (s : Str) → d ≢ b → Without b s → Without b (s ++ (d ∷ []))
Without-snoc b d [] h w = (h, tt)
Without-snoc b d (c ∷ s) h w = (w.0, Without-snoc b d s h w.1)

strip_caller_lem :
    (caller rest : Str)
    → Without b'/' caller
    → strip_caller (caller ++ (caller_mark ++ rest)) ≡ rest
unfolding strip_caller
strip_caller_lem caller rest w =
    rw (index_caller caller rest w, strip_caller) (drop-append caller (caller_mark ++ rest) 3)

ends_with-matrix :
    (job params : Str) → ends_with b')' (job ++ (matrix_mark ++ (params ++ (b')' ∷ [])))) ≡ true
ends_with-matrix job params =
    let assoc : job ++ (matrix_mark ++ (params ++ (b')' ∷ [])))
        ≡ (job ++ (matrix_mark ++ params)) ++ (b')' ∷ []) =
      simp append_assoc in
    rw assoc (ends_with-append b')' (job ++ (matrix_mark ++ params)))

strip_matrix_lem :
    (job params : Str)
    → Without b'(' params
    → strip_matrix (job ++ (matrix_mark ++ (params ++ (b')' ∷ [])))) ≡ job
unfolding strip_matrix
strip_matrix_lem job params w =
    let found =
      last_index_matrix job (params ++ (b')' ∷ []))
        (Without-snoc b'(' b')' params (omega arith) w) in
    rw (found, strip_matrix)
      (rw (ends_with-matrix job params) (take-append job (matrix_mark ++ (params ++ (b')' ∷ [])))))

strip_caller_none : (s : Str) → Without b'/' s → strip_caller s ≡ s
unfolding strip_caller
strip_caller_none s w = rw (index_absent s w, strip_caller) refl

strip_matrix_none : (s : Str) → Without b'(' s → strip_matrix s ≡ s
unfolding strip_matrix
strip_matrix_none s w = rw (last_index_absent s w, strip_matrix) refl

-- The base name of "<caller> / <job> (<params>)" is the job, and so it is without the caller's part,
-- without the parameters or without either, if the caller's name has no slash, the parameters have no
-- opening bracket, and, where such a part is missing, the job has none itself.
pub base_job_name_forms :
    (caller job params : Str)
    → Without b'/' caller
    → Without b'(' params
    → let matrix = matrix_mark ++ (params ++ (b')' ∷ [])) in
      (base_job_name (caller ++ (caller_mark ++ (job ++ matrix))) ≡ job)
      × (Without b'(' job → base_job_name (caller ++ (caller_mark ++ job)) ≡ job)
      × (Without b'/' (job ++ matrix) → base_job_name (job ++ matrix) ≡ job)
      × (Without b'/' job → Without b'(' job → base_job_name job ≡ job)
unfolding base_job_name
base_job_name_forms caller job params wc wp =
    let matrix = matrix_mark ++ (params ++ (b')' ∷ [])) in
    (
      rw (strip_caller_lem caller (job ++ matrix) wc) (strip_matrix_lem job params wp),
      (λ wj. rw (strip_caller_lem caller job wc) (strip_matrix_none job wj)),
      (λ ws. rw (strip_caller_none (job ++ matrix) ws) (strip_matrix_lem job params wp)),
      (λ ws wj. rw (strip_caller_none job ws) (strip_matrix_none job wj)),
    )

label_index-get :
    (to : List Str) (l : Str) (i : ℕ)
    → label_index to l ≡ some i
    → (get_elem? to i ≡ some l) × (i < length to)
unfolding label_index
label_index-get [] l i h = cc
label_index-get (x ∷ to) l zero h = ground (arith, h, str_eq_iff x l)
label_index-get (x ∷ to) l (suc i) h = ground (arith, h, label_index-get to l i)

label_index-absent :
    (to : List Str) (l : Str) → label_index to l ≡ none → (i : ℕ) → get_elem? to i ≢ some l
unfolding label_index
label_index-absent [] l h i = cc
label_index-absent (x ∷ to) l h zero = ground (arith, h, str_eq_iff x l)
label_index-absent (x ∷ to) l h (suc i) = label_index-absent to l (ground (arith, h)) i

get_elem?-lt : (xs : List Str) (i : ℕ) (l : Str) → get_elem? xs i ≡ some l → i < length xs
get_elem?-lt [] i l h = cc
get_elem?-lt (x ∷ xs) zero l h = omega arith
get_elem?-lt (x ∷ xs) (suc i) l h = omega (arith, get_elem?-lt xs i l h)

module _ (current : ℕ) (from to : List Str) where
  realign_step_out :
      (current < 1) ⊎ (length from < current) → realign_step current from to ≡ current
  unfolding realign_step
  realign_step_out out = ground arith

  module _ (l : Str) where
    realign_step_absent :
        1 ≤ current
        → get_elem? from (current - 1) ≡ some l
        → label_index to l ≡ none
        → realign_step current from to ≡ current
    unfolding realign_step
    realign_step_absent h g absent = ground (arith, g, absent)

    realign_step_found :
        (i : ℕ)
        → 1 ≤ current
        → get_elem? from (current - 1) ≡ some l
        → label_index to l ≡ some i
        → realign_step current from to ≡ i + 1
    unfolding realign_step
    realign_step_found i h g found = ground (arith, g, found, get_elem?-lt from (current - 1) l g)

-- A step that has a label in the first list either is moved to a step of the second list with the same
-- label, or stays as it is because the second list has no such label; a step out of the first list's
-- range stays as it is.
pub realign_step_label :
    (current : ℕ) (from to : List Str)
    → ((l : Str)
        → 1 ≤ current
        → get_elem? from (current - 1) ≡ some l
        → (get_elem? to (realign_step current from to - 1) ≡ some l)
            × (1 ≤ realign_step current from to)
            × (realign_step current from to ≤ length to)
          ⊎ (realign_step current from to ≡ current) × ((i : ℕ) → get_elem? to i ≢ some l))
      × ((current < 1) ⊎ (length from < current) → realign_step current from to ≡ current)
realign_step_label current from to = (
  (λ l h g. elim (Option-cases (label_index to l)) [
    | inl absent ↦
        inr (realign_step_absent current from to l h g absent, label_index-absent to l absent)
    | inr (i, found) ↦
        let e = realign_step_found current from to l i h g found in
        let (there, inside) = label_index-get to l i found in
        let back : i + 1 - 1 ≡ i = omega arith in
        inl (rw (e, back) there, omega (arith, e), omega (arith, e, inside))
  ]),
  (λ out. realign_step_out current from to out),
)

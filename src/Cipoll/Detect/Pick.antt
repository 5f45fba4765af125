-- ===== src/Cipoll/Detect/Pick.antt =====
-- Which run the idle pass takes up, `pollIdle` of shared/cipoll/poller.go.
use pushward_integrations.Prelude.{
  ◌≡◌, ◌≤◌, refl, true, false, Option, none, some, List, [], ◌∷◌, arith, Bool-cases, ◌⊎◌, inl, inr,
  Eq_str, after, All, ◌∙◌,
}
use pushward_integrations.Cipoll.Ended.{Run, EndedRun}
use pushward_integrations.Cipoll.Detect.{pick_run, prefer, is_closed}

-- No open run of the list was created later.
abbrev pub NoneLater : Option EndedRun → Run → List Run → Type 0
NoneLater last run rs = All (λ r. is_closed last r ≡ false → r.created_at ≤ run.created_at) rs

abbrev pub Among : Run → List Run → Type 0
Among run [] = ⊥
Among run (r ∷ rs) = (run ≡ r) ⊎ Among run rs

-- What the pick is, of a list: a run of the list that is not closed, with none created later, and none
-- only where all are closed.
abbrev pub IsPick : Option EndedRun → List Run → Option Run → Type 0
IsPick last rs none = All (λ r. is_closed last r ≡ true) rs
IsPick last rs (some run) = (is_closed last run ≡ false) × Among run rs × NoneLater last run rs

prefer-le :
    (r best : Run)
    → let p = prefer r (some best) in
      (r.created_at ≤ p.created_at) × (best.created_at ≤ p.created_at) × ((p ≡ r) ⊎ (p ≡ best))
prefer-le r best = elim (Bool-cases (after r.created_at best.created_at)) [
  | inl later ↦ rw later (omega arith, ground (arith, later), inl refl)
  | inr early ↦ rw early (ground (arith, early), omega arith, inr refl)
]

Among-step :
    (run r best p : Run) (rs : List Run)
    → (run ≡ p) ⊎ Among run rs
    → (p ≡ r) ⊎ (p ≡ best)
    → (run ≡ best) ⊎ ((run ≡ r) ⊎ Among run rs)
Among-step run r best p rs (inl a) (inl b) = inr (inl (a ∙ b))
Among-step run r best p rs (inl a) (inr b) = inl (a ∙ b)
Among-step run r best p rs (inr a) b = inr (inr a)

IsPick-skip :
    (last : Option EndedRun) (r : Run) (rs : List Run) (o : Option Run)
    → is_closed last r ≡ true
    → IsPick last rs o
    → IsPick last (r ∷ rs) o
IsPick-skip last r rs none over all_over = (over, all_over)
IsPick-skip last r rs (some run) over (fresh, there, latest) =
    (fresh, inr there, (λ h. ground (arith, over, h), latest))

pick_run-best :
    (last : Option EndedRun) (rs : List Run) (best : Run)
    → is_closed last best ≡ false
    → (run : Run) × (pick_run last rs (some best) ≡ some run)
      × (is_closed last run ≡ false)
      × ((run ≡ best) ⊎ Among run rs)
      × (best.created_at ≤ run.created_at)
      × NoneLater last run rs
unfolding pick_run
pick_run-best last [] best open_run = (best, refl, open_run, inl refl, omega arith, tt)
pick_run-best last (r ∷ rs) best open_run = elim (Bool-cases (is_closed last r)) [
  | inl over ↦
      let (run, e, fresh, there, le, latest) = pick_run-best last rs best open_run in
      (run, (rw over e), fresh, ground (arith, there), le, (λ h. ground (arith, over, h), latest))
  | inr going ↦
      let (r_le, best_le, one) = prefer-le r best in
      let (run, e, fresh, there, le, latest) =
        pick_run-best last rs (prefer r (some best)) (ground (arith, one, going, open_run)) in
      (
        run,
        (rw going e),
        fresh,
        Among-step run r best (prefer r (some best)) rs there one,
        omega (arith, le, best_le),
        (λ h. omega (arith, le, r_le), latest),
      )
]

-- The pass takes up a run that the loop has not closed and after which no other such run was created, and
-- none only where the loop has closed every run that is listed.
pub pick_run_lem : (last : Option EndedRun) (rs : List Run) → IsPick last rs (pick_run last rs none)
unfolding pick_run
pick_run_lem last [] = tt
pick_run_lem last (r ∷ rs) = elim (Bool-cases (is_closed last r)) [
  | inl over ↦ rw over (IsPick-skip last r rs (pick_run last rs none) over (pick_run_lem last rs))
  | inr going ↦
      let (run, e, fresh, there, le, latest) = pick_run-best last rs r going in
      rw (going, e) (fresh, there, (λ h. le, latest))
]

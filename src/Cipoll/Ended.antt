-- ===== src/Cipoll/Ended.antt =====
-- `endedRun` of shared/cipoll/state.go, and the `Run` of shared/cipoll/forge.go.
use pushward_integrations.Prelude.{
  ℕ, ◌≤◌, ◌≡◌, ◌↔◌, Bool, true, false, not, arith, ◌==◌, if◌then◌else◌, Time, is_zero, after, Str,
}
use pushward_integrations.Ci.{Status, Conclusion, queued, in_progress, completed}

pub record Run : Type 0 where
  pub id : ℕ
  pub name : Str
  pub workflow_key : Str
  pub status : Status
  pub conclusion : Conclusion
  pub head_branch : Str
  pub created_at : Time
  pub started_at : Time
  pub html_url : Str
  pub repo_url : Str

unfoldable pub terminal : Run → Bool
terminal run = elim run.status [ completed ↦ true | in_progress ↦ false | queued ↦ false ]

pub record EndedRun : Type 0 where
  pub id : ℕ
  pub started_at : Time

unfoldable pub closed : EndedRun → Run → Bool
closed e run =
    if not (run.id == e.id)
    then false
    else if is_zero run.started_at
    then is_zero e.started_at
    else not (after run.started_at e.started_at)

-- The run is the closed attempt exactly when it has its ID, started no later, and has no start only if
-- the attempt had none. In particular the closed attempt itself is closed, and a re-run with a later
-- start is not.
pub closed_iff :
    (e : EndedRun) (run : Run)
    → (closed e run ≡ true) ↔ (
        (run.id ≡ e.id)
        × (run.started_at ≤ e.started_at)
        × ((run.started_at ≡ 0) → e.started_at ≡ 0))
unfolding closed
closed_iff e run = ground arith

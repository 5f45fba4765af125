-- ===== src/Ci.antt =====
-- The steps ladder of a CI run, shared/ci: the vocabulary that its parts share.
pub mod Names
pub mod Steps
pub mod Busy
pub mod Weights
pub mod Anchor
use pushward_integrations.Prelude.{ℕ, Bool, true, false, Str, Time}

-- The statuses that the code tells apart, and the rest.
pub data Status : Type 0 where
  queued in_progress completed : Status

pub data Conclusion : Type 0 where
  success failure cancelled skipped timed_out startup_failure other : Conclusion

pub record Job : Type 0 where
  pub name : Str
  pub status : Status
  pub conclusion : Conclusion
  pub started_at : Time
  pub completed_at : Time

unfoldable pub job_failed : Conclusion → Bool
job_failed failure = true
job_failed cancelled = true
job_failed timed_out = true
job_failed startup_failure = true
job_failed _ = false

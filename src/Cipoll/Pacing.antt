-- ===== src/Cipoll/Pacing.antt =====
-- Discovery and the idle tier of shared/cipoll/poller.go. A clock read is an argument; the forge's
-- answers (`Budget`, `ListRepos`) are arguments too. `T` is the tracked run, of which only the number
-- is read here. `spendable` is signed in the source: 0 stands here for every number that is not positive,
-- which its readers but a log line do not tell apart. `time.Since` saturates, and `due` compares it with
-- durations that fit, so the comparison is the exact one.
pub mod Interval
pub mod Discovery
use pushward_integrations.Prelude.{
  ℕ, zero, suc, ◌+◌, ◌-◌, ◌*◌, ◌/◌, min, max, Bool, true, false, not, ◌&&◌, ◌||◌, Option, none,
  some, List, [], ◌∷◌, ◌++◌, ltb, leb, ◌==◌, if◌then◌else◌, Str, str_eq, Eq_str, length, Time,
  Duration, is_zero, second,
}
use pushward_integrations.Prelude.Float.{Float64}
use pushward_integrations.Prelude.GoMap.{Map}
use pushward_integrations.Cipoll.Ended.{EndedRun}

-- `PollingConfig`, and the options read here.
pub record Options : Type 0 where
  pub owner : Str
  pub repos : List Str
  pub interval : Duration
  pub idle_interval : Duration

pub record Poller (T : Type 0) : Type 0 where
  pub tracked : Map Str T
  pub repos : List Str
  pub last_refresh : Time
  pub last_idle : Time
  pub was_paced : Bool
  pub last_ended : Map Str EndedRun

abbrev pub repo_refresh_interval : Duration
repo_refresh_interval = 300 * second

unfoldable pub due : Time → Time → Duration → Bool
due now last interval = is_zero last || leb (last + interval) now

module _ (opts : Options) (fl : Float64) where
  unfoldable pub pace : ℕ → ℕ → Duration → Duration
  pace repos spend until_reset =
      let needed =
        fl.div (fl.mul (fl.of_nat repos) (fl.seconds until_reset))
          (fl.seconds opts.idle_interval) in
      let paced =
        fl.trunc (fl.div (fl.mul (fl.of_nat repos) (fl.seconds until_reset)) (fl.of_nat spend))
        * second in
      if fl.leb needed (fl.of_nat spend)
      then opts.idle_interval
      else min (max paced opts.idle_interval) until_reset

  unfoldable pub pace_by : ℕ → Option (ℕ × Duration) → Duration
  unfolding pace
  pace_by repos none = opts.idle_interval
  pace_by repos (some (spend, until_reset)) =
      if spend == 0 then until_reset else pace repos spend until_reset

module _ {T : Type 0} (opts : Options) where
  -- `time.Duration / time.Duration` panics on a zero interval, which the configuration's validation
  -- excludes.
  unfoldable pub active_reserve : Duration → Poller T → ℕ
  active_reserve until_reset p = length p.tracked * (until_reset / opts.interval + 1)

  -- The forge's allowance, where a response has been seen: what remains and when it is reset.
  unfoldable pub spendable : Time → Option (ℕ × Time) → Poller T → Option (ℕ × Duration)
  unfolding active_reserve
  spendable now none p = none
  spendable now (some (remaining, reset_at)) p =
      if leb reset_at now
      then none
      else some (remaining - active_reserve (reset_at - now) p, reset_at - now)

  module _ (fl : Float64) where
    unfoldable pub effective_idle_interval : Time → Option (ℕ × Time) → ℕ → Poller T → Duration
    unfolding spendable pace_by
    effective_idle_interval now budget repos p =
        if repos == 0 then opts.idle_interval else pace_by opts fl repos (spendable now budget p)

    -- The clock is read three times: for the pace, for the test and for the claim.
    unfoldable pub claim_idle_pass :
        Time → Time → Time → Option (ℕ × Time) → Poller T → Bool × Poller T
    unfolding effective_idle_interval due
    claim_idle_pass t_pace t_due t_claim budget p =
        let interval = effective_idle_interval t_pace budget (length p.repos) p in
        let claim = due t_due p.last_idle interval in
        (
          claim,
          record p {
            last_idle = if claim then t_claim else p.last_idle;
            was_paced = ltb opts.idle_interval interval;
          },
        )

abbrev pub member : Str → List Str → Bool
member r [] = false
member r (s ∷ ss) = str_eq s r || member r ss

-- The two merging loops of `refreshRepos`: `seen` and `merged` hold the same repos.
unfoldable pub merge_repos : List Str → List Str → List Str
merge_repos merged [] = merged
merge_repos merged (r ∷ rs) =
    merge_repos (if member r merged then merged else merged ++ (r ∷ [])) rs

unfoldable pub prune : List Str → Map Str EndedRun → Map Str EndedRun
prune seen [] = []
prune seen ((repo, e) ∷ m) =
    let rest = prune seen m in if member repo seen then (repo, e) ∷ rest else rest

unfoldable pub install : {T : Type 0} → Time → List Str → Poller T → Poller T
unfolding prune
install now merged p = record p {
  repos = merged;
  last_refresh = now;
  last_ended =
      if not (length merged == length p.repos) then prune merged p.last_ended else p.last_ended;
}

abbrev pub is_blank : Str → Bool
is_blank [] = true
is_blank (c ∷ s) = false

-- How `refreshRepos` ends: without an error, or with that of `ListRepos`.
pub data Refreshed : Type 0 where
  done failed : Refreshed

-- `ListRepos` answers with the repos or an error.
unfoldable pub discover :
    {T : Type 0} → Options → Time → Option (List Str) → Poller T → Refreshed × Poller T
unfolding install merge_repos
discover opts now none p = (failed, p)
discover opts now (some discovered) p =
    (done, install now (merge_repos (merge_repos [] discovered) opts.repos) p)

abbrev pub exhausted : Option (ℕ × Duration) → Bool
exhausted none = false
exhausted (some (n, until_reset)) = n == 0

-- The clock is read for the test, for the budget and for the stamp.
unfoldable pub refresh_repos :
    {T : Type 0}
    → Options
    → Time
    → Time
    → Time
    → Option (ℕ × Time)
    → Option (List Str)
    → Poller T
    → Refreshed × Poller T
unfolding due spendable discover
refresh_repos opts t_due t_pace t_claim budget listed p =
    if is_blank opts.owner
      || not (due t_due p.last_refresh repo_refresh_interval)
      || exhausted (spendable opts t_pace budget p)
    then (done, p)
    else discover opts t_claim listed p

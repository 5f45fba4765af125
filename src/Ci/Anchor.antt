-- ===== src/Ci/Anchor.antt =====
-- `LiveAnchor` of shared/ci/anchor.go. A unix time is here the whole seconds of the clock of the model,
-- which counts from the year 1: the source's number plus a constant.
pub mod Window
use pushward_integrations.Prelude.{
  ℕ, ◌+◌, ◌*◌, ◌/◌, Bool, true, false, not, Option, none, some, ltb, ◌==◌, if◌then◌else◌, Str,
  str_eq, Eq_str, Time, Duration, is_zero, after, second,
}
use pushward_integrations.Prelude.Float.{Float64}
use pushward_integrations.Prelude.GoMap.{Map, get}
use pushward_integrations.Ci.Steps.{StepInfo, queued_step_name}
use pushward_integrations.Ci.Weights.{mean_weight}

abbrev pub min_live_window : Duration
min_live_window = 5 * second

pub data AnchorDecline : Type 0 where
  no_step_running queued_placeholder unmeasured no_start estimate_spent : AnchorDecline

-- The results with `ok`, and the reason without it.
pub data Anchor : Type 0 where
  declined : (why : AnchorDecline) → Anchor
  window : (start end_at : ℕ) → Anchor

abbrev pub unix : Time → ℕ
unix t = t / second

-- A start in the future is moved to now.
abbrev pub not_ahead : Time → Time → Time
not_ahead now t = if after t now then now else t

unfoldable pub anchor_at : Time → Time → Duration → Anchor
anchor_at started now len =
    let start_at = not_ahead now started in
    if is_zero started
    then declined no_start
    else if not (after (start_at + len) (now + min_live_window))
    then declined estimate_spent
    else window (unix start_at) (unix (start_at + len))

module _ (fl : Float64) where
  abbrev or_else : Option fl.F → Option fl.F → Option fl.F
  or_else none o = o
  or_else (some w) o = some w

  -- The step's own measurement, else the mean.
  unfoldable pub estimate : Str → Map Str fl.F → Option fl.F
  unfolding mean_weight
  estimate name by_name = or_else (get name by_name) (mean_weight fl by_name)

  -- The length of the window, once it is bounded, in whole seconds.
  abbrev pub length_of : Duration → fl.F → Duration
  length_of max_window secs = fl.round (fl.fmin secs (fl.seconds max_window)) * second

  unfoldable pub anchor_for : Option fl.F → Time → Time → Duration → Anchor
  unfolding anchor_at
  anchor_for none started now max_window = declined unmeasured
  anchor_for (some secs) started now max_window = anchor_at started now (length_of max_window secs)

  unfoldable pub live_anchor : StepInfo → Map Str fl.F → Time → Duration → Anchor
  unfolding estimate anchor_for
  live_anchor info by_name now max_window =
      if ltb info.current_step 1
      then declined no_step_running
      else if str_eq info.current_step_name queued_step_name
      then declined queued_placeholder
      else anchor_for (estimate info.current_step_name by_name) info.current_step_started_at now
          max_window

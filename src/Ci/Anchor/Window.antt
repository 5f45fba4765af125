-- ===== src/Ci/Anchor/Window.antt =====
-- When `LiveAnchor` of shared/ci/anchor.go sends a window, and which.
use pushward_integrations.Prelude.{
  ℕ, ◌+◌, ◌*◌, ◌<◌, ◌≤◌, ◌≡◌, ◌≢◌, inl, inr, some, Option-cases, arith, Str, Eq_str, str_eq_iff,
  Time, Duration, min, second,
}
use pushward_integrations.Prelude.Float.{Float64}
use pushward_integrations.Prelude.GoMap.{Map}
use pushward_integrations.Ci.Steps.{StepInfo, queued_step_name}
use pushward_integrations.Ci.Anchor.{window, anchor_at, anchor_for, estimate, live_anchor, unix}

module _ (fl : Float64) where
  -- A window that is sent is for a step that has started and is not the placeholder, starts no later
  -- than now, lasts as many seconds as its step is estimated at, at most the bound, and ends more than
  -- five seconds after now on the clock, which is at least five whole seconds of the unix times sent.
  pub live_anchor-window :
      (info : StepInfo) (by_name : Map Str fl.F) (now : Time) (max_window : Duration) (s e : ℕ)
      → live_anchor fl info by_name now max_window ≡ window s e
      → (secs : fl.F) × (estimate fl info.current_step_name by_name ≡ some secs)
        × (1 ≤ info.current_step)
        × (info.current_step_name ≢ queued_step_name)
        × (info.current_step_started_at ≢ 0)
        × (s ≡ unix (min info.current_step_started_at now))
        × (s ≤ unix now)
        × (e ≡ s + fl.round (fl.fmin secs (fl.seconds max_window)))
        × (now + 5 * second
            < min info.current_step_started_at now
              + fl.round (fl.fmin secs (fl.seconds max_window)) * second)
        × (unix now + 5 ≤ e)
  unfolding live_anchor anchor_for anchor_at
  live_anchor-window info by_name now max_window s e h =
      elim (Option-cases (estimate fl info.current_step_name by_name)) [
        | inl absent ↦ absurd (ground (arith, h, absent))
        | inr (secs, known) ↦
            let same = str_eq_iff info.current_step_name queued_step_name in
            (
              secs,
              known,
              ground (arith, h),
              ground (arith, h, same),
              ground (arith, h, known),
              ground (arith, h, known),
              ground (arith, h, known),
              ground (arith, h, known),
              ground (arith, h, known),
              ground (arith, h, known),
            )
      ]

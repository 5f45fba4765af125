-- ===== src/Syncx/TimerGroup.antt =====
-- shared/syncx/timergroup.go. A callback is a number; the wait group's counter is `wg`. `time.Timer`
-- is the runtime's: a timer is armed until it fires or is stopped, and `Stop` reports whether it was
-- still armed. What the runtime does is the step `fire`, and a callback that ends is `finish`.
pub mod Safety
use pushward_integrations.Prelude.{
  ℕ, suc, ◌+◌, ◌-◌, Bool, true, false, Option, none, some, List, [], ◌∷◌, if◌then◌else◌, ◌==◌,
}

-- A group, and the callbacks that have started and not returned.
pub record TimerGroup : Type 0 where
  pub timer : Option (ℕ × Bool)  -- the callback, and whether the timer is still armed
  pub wg : ℕ
  pub stopped : Bool
  pub running : ℕ

unfoldable pub empty : TimerGroup
empty = record { timer = none; wg = 0; stopped = false; running = 0 }

-- `g.timer != nil && g.timer.Stop()`
unfoldable pub stop_timer : Option (ℕ × Bool) → Bool
stop_timer none = false
stop_timer (some (fn, armed)) = armed

-- `g.wg.Done()` if the timer was stopped before it fired. The counter is not 0 then: see Safety.
unfoldable pub balance : TimerGroup → TimerGroup
unfolding stop_timer
balance g = if stop_timer g.timer then record g { wg = g.wg - 1 } else g

unfoldable pub reset : ℕ → TimerGroup → TimerGroup
unfolding balance
reset fn g =
    if g.stopped
    then g
    else record (balance (record g { wg = g.wg + 1 })) { timer = some (fn, true) }

unfoldable pub clear_timer_locked : TimerGroup → TimerGroup
unfolding balance
clear_timer_locked g = record (balance g) { timer = none }

unfoldable pub stop : TimerGroup → TimerGroup
unfolding clear_timer_locked
stop g = clear_timer_locked g

unfoldable pub close : TimerGroup → TimerGroup
unfolding clear_timer_locked
close g = clear_timer_locked (record g { stopped = true })

-- `Wait` returns when this is so.
unfoldable pub wait_returns : TimerGroup → Bool
wait_returns g = g.wg == 0

-- The runtime starts the callback of an armed timer.
fire_in : Option (ℕ × Bool) → TimerGroup → TimerGroup × Option ℕ
fire_in (some (fn, true)) g =
    (record g { timer = some (fn, false); running = g.running + 1 }, some fn)
fire_in _ g = (g, none)

unfoldable pub fire : TimerGroup → TimerGroup × Option ℕ
unfolding fire_in
fire g = fire_in g.timer g

-- A running callback returns: the deferred `g.wg.Done()`.
unfoldable pub finish : TimerGroup → TimerGroup
finish g = if g.running == 0 then g else record g { running = g.running - 1; wg = g.wg - 1 }

pub data Event : Type 0 where
  resets : ℕ → Event
  stops closes fires finishes : Event

unfoldable pub step : Event → TimerGroup → TimerGroup
unfolding reset stop close fire finish
step (resets fn) g = reset fn g
step stops g = stop g
step closes g = close g
step fires g = (fire g).0
step finishes g = finish g

unfoldable pub run : List Event → TimerGroup → TimerGroup
unfolding step
run [] g = g
run (e ∷ es) g = run es (step e g)

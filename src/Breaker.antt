-- ===== src/Breaker.antt =====
-- The circuit breaker of shared/pushward/breaker.go. A method takes the clock's reading where the
-- source calls `cb.now()`, and returns the new state. The mutex makes each method one step.
pub mod Streak
pub mod Probe
use pushward_integrations.Prelude.{
  ℕ, ◌+◌, Bool, true, false, not, List, [], ◌∷◌, Time, Duration, after, leb, if◌then◌else◌,
}

pub data CircuitState : Type 0 where
  state_closed state_open state_half_open : CircuitState

pub record CircuitBreaker : Type 0 where
  pub failures : ℕ
  pub threshold : ℕ
  pub state : CircuitState
  pub open_until : Time
  pub cooldown : Duration

unfoldable pub new_circuit_breaker : ℕ → Duration → CircuitBreaker
new_circuit_breaker threshold cooldown = record {
  failures = 0;
  threshold = threshold;
  state = state_closed;
  open_until = 0;
  cooldown = cooldown;
}

-- The `switch` of `Allow`.
allow_in : CircuitState → Time → CircuitBreaker → CircuitBreaker × Bool
allow_in state_closed now cb = (cb, true)
allow_in state_open now cb =
    if after now cb.open_until then (record cb { state = state_half_open }, true) else (cb, false)
allow_in state_half_open now cb = (cb, false)

unfoldable pub allow : Time → CircuitBreaker → CircuitBreaker × Bool
unfolding allow_in
allow now cb = allow_in cb.state now cb

unfoldable pub record_success : CircuitBreaker → CircuitBreaker
record_success cb = record cb { failures = 0; state = state_closed }

reachable_in : CircuitState → CircuitBreaker → CircuitBreaker
reachable_in state_half_open cb = record cb { state = state_closed; failures = 0 }
reachable_in _ cb = cb

unfoldable pub record_reachable : CircuitBreaker → CircuitBreaker
unfolding reachable_in
record_reachable cb = reachable_in cb.state cb

-- `cb.state = stateOpen; cb.openUntil = cb.now().Add(cb.cooldown)`
reopen : Time → CircuitBreaker → CircuitBreaker
reopen now cb = record cb { state = state_open; open_until = now + cb.cooldown }

failure_in : CircuitState → Time → CircuitBreaker → CircuitBreaker
unfolding reopen
failure_in state_closed now cb =
    let counted = record cb { failures = cb.failures + 1 } in
    if leb counted.threshold counted.failures then reopen now counted else counted
failure_in state_half_open now cb = reopen now cb
failure_in state_open now cb = cb

unfoldable pub record_failure : Time → CircuitBreaker → CircuitBreaker
unfolding failure_in
record_failure now cb = failure_in cb.state now cb

abort_in : CircuitState → Time → CircuitBreaker → CircuitBreaker
unfolding reopen
abort_in state_half_open now cb = reopen now cb
abort_in _ now cb = cb

unfoldable pub abort : Time → CircuitBreaker → CircuitBreaker
unfolding abort_in
abort now cb = abort_in cb.state now cb

abbrev pub is_closed : CircuitState → Bool
is_closed state_closed = true
is_closed _ = false

unfoldable pub is_open : CircuitBreaker → Bool
is_open cb = not (is_closed cb.state)

blocking_in : CircuitState → Time → CircuitBreaker → Bool
blocking_in state_open now cb = not (after now cb.open_until)
blocking_in state_half_open now cb = true
blocking_in state_closed now cb = false

unfoldable pub blocking : Time → CircuitBreaker → Bool
unfolding blocking_in
blocking now cb = blocking_in cb.state now cb

-- How the `Client` reports a call to its breaker.
pub data Outcome : Type 0 where
  success reachable failure aborted : Outcome

unfoldable pub report : Outcome → Time → CircuitBreaker → CircuitBreaker
unfolding record_success record_reachable record_failure abort
report success now cb = record_success cb
report reachable now cb = record_reachable cb
report failure now cb = record_failure now cb
report aborted now cb = abort now cb

unfoldable pub report_all : List (Outcome × Time) → CircuitBreaker → CircuitBreaker
unfolding report
report_all [] cb = cb
report_all ((o, now) ∷ os) cb = report_all os (report o now cb)

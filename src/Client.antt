-- ===== src/Client.antt =====
-- The PushWard client, shared/pushward/client.go: one call with its retries. What lies outside (the
-- transport, the server, the clock, the context and the random numbers) is a `World`, which says for the
-- attempt of each number what happens. The breaker is that of Breaker; a client without one takes no
-- report. Logging and the result callback are left out.
pub mod Delay
pub mod Errors
pub mod Paging
pub mod Rounds
pub mod Settles
pub mod Sleeps
pub mod Verdicts
pub mod Answers
pub mod Faults
use pushward_integrations.Prelude.{
  ℕ, zero, suc, ◌+◌, ◌-◌, ◌*◌, ◌/◌, ◌^◌, min, Bool, true, false, not, ◌&&◌, ◌||◌, Option, none,
  some, ltb, leb, ◌==◌, if◌then◌else◌, Str, str_eq, Time, Duration, second,
}
use pushward_integrations.Prelude.Int.{ℤ}
use pushward_integrations.Client.Delay.{throttle_delay}
use pushward_integrations.Client.Errors.{
  Body, Problem, parse_problem, Error, circuit_open, marshaling, ctx_done, creating_request,
  sending, conflict, decoding, max_retries, budget_spent, new_http_error, http_error,
  activity_limit, code_quota_exceeded, code_activity_limit, code_answer_wait_limit,
}
use pushward_integrations.Breaker as Breaker
use pushward_integrations.Breaker.{CircuitBreaker}

pub record Response : Type 0 where
  pub status : ℕ
  pub retry_after : Str
  pub body : Body
  pub decodes : Bool  -- reading and decoding the body into `out` succeeds

-- What `httpClient.Do` returns.
pub data Answer : Type 0 where
  no_response : Answer
  responds : Response → Answer

pub record World : Type 0 where
  pub parse_time : Str → Option Time
  pub answer : ℕ → Answer
  pub request_fails : ℕ → Bool  -- `http.NewRequestWithContext`
  pub cancelled : ℕ → Bool  -- the context ends before the sleep before the attempt does
  pub busy : ℕ → Duration  -- the time since the start of the call that was not slept, before that sleep
  pub jitter : ℕ → Duration
  pub clock : ℕ → Time

-- The request, as far as the loop reads it: the conflict handler and whether a body is wanted.
pub record Call : Type 0 where
  pub marshals : Bool
  pub handle_conflict : Option (Body → Bool × Option Error)
  pub wants_body : Bool
  pub retry_budget : Duration

-- What a call tells its breaker at its end.
pub data Signal : Type 0 where
  healthy reachable fault aborted : Signal

-- How a call ends: its error, if any, the signal, the requests that were sent and the time that was slept.
pub record Ending : Type 0 where
  pub error : Option Error
  pub signal : Signal
  pub attempts : ℕ
  pub slept : Duration

-- The variables of the loop.
pub record Loop : Type 0 where
  pub last_error : Error
  pub last_throttled : Bool
  pub retry_after_override : Duration
  pub attempts : ℕ
  pub slept : Duration

-- `lastErr` is nil before the first attempt. No path wraps it then, so that any error stands for it.
abbrev pub start : Loop
start = record {
  last_error = sending;
  last_throttled = false;
  retry_after_override = 0;
  attempts = 0;
  slept = 0;
}

-- What one answer means for the loop: it returns, or it goes on with an error.
pub data Verdict : Type 0 where
  final : Option Error → Signal → Verdict
  again : Error → Bool → Duration → Verdict

abbrev handled : Bool × Option Error → Verdict
handled (true, err) = final err reachable
handled (false, err) = again conflict false 0

unfoldable pub verdict_throttled : World → ℕ → Response → Problem → Verdict
unfolding throttle_delay
verdict_throttled w attempt r p =
    if str_eq p.code code_quota_exceeded || str_eq p.code code_answer_wait_limit
    then final (some (new_http_error 429 p)) reachable
    else again (new_http_error 429 p) true
        (throttle_delay w.parse_time (w.clock attempt) r.retry_after p.retry_after_ms)

unfoldable pub verdict_status : World → ℕ → Call → Response → Verdict
unfolding verdict_throttled
verdict_status w attempt call r =
    let p = parse_problem r.body in
    if leb 200 r.status && ltb r.status 300
    then final (if call.wants_body && not r.decodes then some decoding else none) healthy
    else if r.status == 429
    then verdict_throttled w attempt r p
    else if leb 400 r.status && ltb r.status 500
    then final (some (new_http_error r.status p)) reachable
    else again (new_http_error r.status p) false 0

unfoldable pub verdict_response :
    World → ℕ → Call → Response → Option (Body → Bool × Option Error) → Verdict
unfolding verdict_status
verdict_response w attempt call r none = verdict_status w attempt call r
verdict_response w attempt call r (some handle) =
    if r.status == 409 then handled (handle r.body) else verdict_status w attempt call r

unfoldable pub verdict : World → ℕ → Call → Answer → Verdict
unfolding verdict_response
verdict w attempt call no_response = again sending false 0
verdict w attempt call (responds r) = verdict_response w attempt call r call.handle_conflict

-- The wait before an attempt that is not the first.
unfoldable pub backoff : World → ℕ → Duration → Duration
backoff w attempt override =
    let base = min (second * 2 ^ (attempt - 1)) (30 * second) in
    if override == 0 then base / 2 + w.jitter attempt else override

abbrev pub ends : Loop → Option Error → Signal → Ending
ends s err signal = record { error = err; signal = signal; attempts = s.attempts; slept = s.slept }

-- After the loop.
unfoldable pub exhausted : Loop → Ending
exhausted s =
    ends s (some (max_retries s.last_error)) (if s.last_throttled then reachable else fault)

unfoldable pub over_budget : Loop → Ending
over_budget s =
    ends s (some (budget_spent s.attempts s.last_error))
      (if s.last_throttled then reachable else fault)

-- Whether the sleep before the attempt is made, and what comes of it.
pub data Pause : Type 0 where
  over cancels : Pause
  sleeps : Duration → Pause

unfoldable pub pause : World → Call → ℕ → Loop → Pause
unfolding backoff
pause w call attempt s =
    if attempt == 0
    then sleeps 0
    else let d = backoff w attempt s.retry_after_override in
      if ltb 0 call.retry_budget && ltb call.retry_budget (s.slept + w.busy attempt + d)
      then over
      else if w.cancelled attempt
      then cancels
      else sleeps d

abbrev pub awake : Duration → Loop → Loop
awake d s = record s { retry_after_override = 0; slept = s.slept + d; attempts = s.attempts + 1 }

abbrev pub retried : Error → Bool → Duration → Loop → Loop
retried err throttled override s = record s {
  last_error = err;
  last_throttled = throttled;
  retry_after_override = override;
}

-- What one turn of the loop comes to.
pub data Turn : Type 0 where
  stops : Ending → Turn
  goes : Loop → Turn

unfoldable pub after_answer : Loop → Verdict → Turn
after_answer s (final err signal) = stops (ends s err signal)
after_answer s (again err throttled override) = goes (retried err throttled override s)

unfoldable pub after_pause : World → Call → ℕ → Loop → Pause → Turn
unfolding after_answer verdict over_budget
after_pause w call attempt s over = stops (over_budget s)
after_pause w call attempt s cancels = stops (ends s (some ctx_done) aborted)
after_pause w call attempt s (sleeps d) =
    if w.request_fails attempt
    then stops (ends (awake d s) (some creating_request) aborted)
    else after_answer (awake d s) (verdict w attempt call (w.answer attempt))

unfoldable pub turn : World → Call → ℕ → Loop → Turn
unfolding pause after_pause
turn w call attempt s = after_pause w call attempt s (pause w call attempt s)

-- The rest of the loop, `left` attempts of which the first has the number given.
unfoldable pub attempts_from : World → Call → ℕ → ℕ → Loop → Ending
unfolding turn exhausted
attempts_from w call zero attempt s = exhausted s
attempts_from w call (suc left) attempt s = elim (turn w call attempt s) [
  | stops e ↦ e
  | goes s' ↦ attempts_from w call left (suc attempt) s'
]

abbrev pub max_attempts : ℕ
max_attempts = 5

-- An admitted call.
unfoldable pub admitted_call : World → Call → Ending
unfolding attempts_from
admitted_call w call =
    if call.marshals
    then attempts_from w call max_attempts 0 start
    else ends start (some marshaling) aborted

abbrev outcome_of : Signal → Breaker.Outcome
outcome_of healthy = Breaker.success
outcome_of reachable = Breaker.reachable
outcome_of fault = Breaker.failure
outcome_of aborted = Breaker.aborted

-- The call behind its breaker: `Allow`, the call, and the one report, at the given times.
unfoldable pub do_with_retry : Time → Time → World → Call → CircuitBreaker → Ending × CircuitBreaker
unfolding admitted_call
do_with_retry asked settled w call cb =
    let (cb', admitted) = Breaker.allow asked cb in
    let e = admitted_call w call in
    if admitted
    then (e, Breaker.report (outcome_of e.signal) settled cb')
    else (ends start (some circuit_open) aborted, cb')

-- The conflict handlers of `CreateActivity` and `CreateWidget`.
unfoldable pub create_activity_conflict : Body → Bool × Option Error
create_activity_conflict body =
    let p = parse_problem body in
    if str_eq p.code code_activity_limit || body.has_limit
    then (true, some (activity_limit (http_error 409 p)))
    else (true, some (new_http_error 409 p))

unfoldable pub create_widget_conflict : Body → Bool × Option Error
create_widget_conflict body = (true, some (new_http_error 409 (parse_problem body)))

-- ===== src/Client/Sleeps.antt =====
-- How long a call of shared/pushward/client.go may sleep and how often it asks.
use pushward_integrations.Prelude.{
  ℕ, suc, ◌-◌, ◌*◌, ◌/◌, ◌^◌, ◌≤◌, ◌<◌, ◌≡◌, refl, min, Bool, true, false, Bool-cases, inl, inr,
  Option, none, some, arith, ◌==◌, Duration, second,
}
use pushward_integrations.Client.Delay.{max_retry_after, throttle_delay-le}
use pushward_integrations.Client.Errors.{Body, Problem, Error, parse_problem}
use pushward_integrations.Client.Rounds.{Leads, attempts_from-inv}
use pushward_integrations.Client.{
  World, Call, Ending, Loop, start, Verdict, final, again, verdict, verdict_response,
  verdict_status, verdict_throttled, backoff, Response, Pause, over, cancels, sleeps, pause, awake,
  exhausted, over_budget, admitted_call, max_attempts, handled, Answer, no_response, responds, turn,
  after_pause, after_answer,
}

-- What the loop's variables keep: one attempt for each turn, the budget, and the length of each sleep.
record Bounded (call : Call) (n : ℕ) (s : Loop) : Type 0 where
  counted : s.attempts ≡ n
  within : 0 < call.retry_budget → s.slept ≤ call.retry_budget
  hinted : s.retry_after_override ≤ max_retry_after
  short : s.slept ≤ (n - 1) * max_retry_after

-- What is true of an ending.
record Sparing (call : Call) (m : ℕ) (e : Ending) : Type 0 where
  counted : e.attempts ≤ m
  within : 0 < call.retry_budget → e.slept ≤ call.retry_budget
  short : e.slept ≤ (m - 1) * max_retry_after

-- The random part of a wait is less than the fixed one, as `rand.N` has it.
abbrev pub IsJitter : World → Type 0
IsJitter w = (n : ℕ) → w.jitter n < min (second * 2 ^ (n - 1)) (30 * second) / 2

backoff-le :
    (w : World) (n : ℕ) (override : Duration)
    → IsJitter w
    → override ≤ max_retry_after
    → backoff w n override ≤ max_retry_after
unfolding backoff
backoff-le w n override j h = ground (arith, j n, h)

abbrev Hinted : Verdict → Type 0
Hinted (final err signal) = Unit
Hinted (again err throttled override) = override ≤ max_retry_after

verdict_throttled-Hinted :
    (w : World) (n : ℕ) (r : Response) (p : Problem) → Hinted (verdict_throttled w n r p)
unfolding verdict_throttled
verdict_throttled-Hinted w n r p =
    ground (arith, throttle_delay-le w.parse_time (w.clock n) r.retry_after p.retry_after_ms)

verdict_status-Hinted :
    (w : World) (n : ℕ) (call : Call) (r : Response) → Hinted (verdict_status w n call r)
unfolding verdict_status
verdict_status-Hinted w n call r =
    ground (arith, verdict_throttled-Hinted w n r (parse_problem r.body))

handled-Hinted : (b : Bool) (err : Option Error) → Hinted (handled (b, err))
handled-Hinted true err = tt
handled-Hinted false err = omega arith

verdict_response-Hinted :
    (w : World) (n : ℕ) (call : Call) (r : Response) (h : Option (Body → Bool × Option Error))
    → Hinted (verdict_response w n call r h)
unfolding verdict_response
verdict_response-Hinted w n call r none = verdict_status-Hinted w n call r
verdict_response-Hinted w n call r (some handle) = elim (Bool-cases (r.status == 409)) [
  | inl conflicts ↦ rw conflicts (handled-Hinted (handle r.body).0 (handle r.body).1)
  | inr other ↦ rw other (verdict_status-Hinted w n call r)
]

verdict-Hinted : (w : World) (n : ℕ) (call : Call) (a : Answer) → Hinted (verdict w n call a)
unfolding verdict
verdict-Hinted w n call no_response = omega arith
verdict-Hinted w n call (responds r) = verdict_response-Hinted w n call r call.handle_conflict

after_answer-Bounded :
    (call : Call) (n : ℕ) (s : Loop) (v : Verdict)
    → n < max_attempts
    → Hinted v
    → Bounded call (suc n) s
    → Leads (Sparing call max_attempts) (Bounded call (suc n)) (after_answer s v)
unfolding after_answer
after_answer-Bounded call n s (final err signal) l h b = ground arith
after_answer-Bounded call n s (again err throttled override) l h b = record {
  counted = b.counted;
  within = b.within;
  hinted = h;
  short = b.short;
}

awake-Bounded :
    (w : World) (call : Call) (n : ℕ) (s : Loop) (d : Duration)
    → IsJitter w
    → Bounded call n s
    → pause w call n s ≡ sleeps d
    → Bounded call (suc n) (awake d s)
unfolding pause
awake-Bounded w call n s d j b h =
    ground (arith, h, backoff-le w n s.retry_after_override j b.hinted)

after_pause-Bounded :
    (w : World) (call : Call) (n : ℕ) (s : Loop) (p : Pause)
    → IsJitter w
    → n < max_attempts
    → Bounded call n s
    → pause w call n s ≡ p
    → Leads (Sparing call max_attempts) (Bounded call (suc n)) (after_pause w call n s p)
unfolding after_pause over_budget
after_pause-Bounded w call n s over j l b h = ground arith
after_pause-Bounded w call n s cancels j l b h = ground arith
after_pause-Bounded w call n s (sleeps d) j l b h = elim (Bool-cases (w.request_fails n)) [
  | inl refused ↦ rw refused ground (arith, awake-Bounded w call n s d j b h)
  | inr sent ↦ rw sent (
      after_answer-Bounded call n (awake d s) (verdict w n call (w.answer n)) l
        (verdict-Hinted w n call (w.answer n)) (awake-Bounded w call n s d j b h))
]

turn-Bounded :
    (w : World) (call : Call)
    → IsJitter w
    → (n : ℕ) (s : Loop) → n < max_attempts
    → Bounded call n s
    → Leads (Sparing call max_attempts) (Bounded call (suc n)) (turn w call n s)
unfolding turn
turn-Bounded w call j n s l b = after_pause-Bounded w call n s (pause w call n s) j l b refl

exhausted-Sparing :
    (call : Call) (s : Loop) → Bounded call max_attempts s → Sparing call max_attempts (exhausted s)
unfolding exhausted
exhausted-Sparing call s b = ground arith

start-Bounded : (call : Call) → Bounded call 0 start
start-Bounded call = omega arith

-- Whatever the server and the network do, a call sends at most five requests, and it sleeps no longer than
-- its retry budget, where it has one, and in any case at most eight minutes. The random part of a wait is
-- taken to be less than the fixed one.
pub call_bounds :
    (w : World) (call : Call)
    → IsJitter w
    → let e = admitted_call w call in
      (e.attempts ≤ 5)
      × (0 < call.retry_budget → e.slept ≤ call.retry_budget)
      × (e.slept ≤ 480 * second)
unfolding admitted_call
call_bounds w call j =
    let b =
      attempts_from-inv w call max_attempts (Bounded call) (Sparing call max_attempts)
        (turn-Bounded w call j) (exhausted-Sparing call) 5 0 start refl (start-Bounded call) in
    ground (arith, b.counted, b.within, b.short)

-- ===== src/Client/Faults.antt =====
-- What counts as a fault of the backend in shared/pushward/client.go.
use pushward_integrations.Prelude.{
  ℕ, zero, suc, ◌+◌, ◌≤◌, ◌<◌, ◌≡◌, ◌≢◌, refl, subst, Bool, true, false, Bool-cases, inl, inr,
  Option, none, some, arith, ◌==◌, if◌then◌else◌, Eq_str,
}
use pushward_integrations.Client.Errors.{
  Body, Problem, Error, parse_problem, max_retries, budget_spent,
}
use pushward_integrations.Client.Rounds.{Leads, attempts_from-inv}
use pushward_integrations.Client.{
  World, Call, Ending, Loop, start, reachable, fault, Verdict, final, again, verdict,
  verdict_response, verdict_status, verdict_throttled, Response, Pause, over, cancels, sleeps,
  pause, awake, exhausted, over_budget, admitted_call, max_attempts, handled, Answer, no_response,
  responds, turn, after_pause, after_answer,
}

-- No answer, or one that is neither a success nor the client's own error.
abbrev pub IsFaulty : Answer → Type 0
IsFaulty no_response = Unit
IsFaulty (responds r) = ((200 ≤ r.status) → 300 ≤ r.status) × ((400 ≤ r.status) → 500 ≤ r.status)

-- The conflict handler, if any, settles every conflict, as those of this client do.
abbrev pub IsSettled : Option (Body → Bool × Option Error) → Type 0
IsSettled none = Unit
IsSettled (some handle) = (body : Body) → (handle body).0 ≡ true

abbrev Blames : Answer → Verdict → Type 0
Blames a (final err signal) = signal ≢ fault
Blames a (again err throttled override) = throttled ≡ false → IsFaulty a

verdict_throttled-Blames :
    (w : World) (n : ℕ) (r : Response) (p : Problem)
    → Blames (responds r) (verdict_throttled w n r p)
unfolding verdict_throttled
verdict_throttled-Blames w n r p = ground arith

verdict_status-Blames :
    (w : World) (n : ℕ) (call : Call) (r : Response)
    → Blames (responds r) (verdict_status w n call r)
unfolding verdict_status
verdict_status-Blames w n call r =
    ground (arith, verdict_throttled-Blames w n r (parse_problem r.body))

handled-Blames : (a : Answer) (b : Bool × Option Error) → b.0 ≡ true → Blames a (handled b)
handled-Blames a (true, err) h = ground arith
handled-Blames a (false, err) h = cc

verdict_response-Blames :
    (w : World) (n : ℕ) (call : Call) (r : Response) (h : Option (Body → Bool × Option Error))
    → IsSettled h
    → Blames (responds r) (verdict_response w n call r h)
unfolding verdict_response
verdict_response-Blames w n call r none k = verdict_status-Blames w n call r
verdict_response-Blames w n call r (some handle) k = elim (Bool-cases (r.status == 409)) [
  | inl conflicts ↦ rw conflicts (handled-Blames (responds r) (handle r.body) (k r.body))
  | inr other ↦ rw other (verdict_status-Blames w n call r)
]

verdict-Blames :
    (w : World) (n : ℕ) (call : Call) (a : Answer)
    → IsSettled call.handle_conflict
    → Blames a (verdict w n call a)
unfolding verdict
verdict-Blames w n call no_response k = λ _. tt
verdict-Blames w n call (responds r) k = verdict_response-Blames w n call r call.handle_conflict k

-- A loop that is not throttled has a faulty answer behind it, once it has any.
record Blamed (w : World) (n : ℕ) (s : Loop) : Type 0 where
  counted : s.attempts ≡ n
  faulty : (i : ℕ) → n ≡ suc i → s.last_throttled ≡ false → IsFaulty (w.answer i)

-- The error of a call that gave up: after its last attempt, or for want of budget for the next one.
abbrev pub IsSpent : Option Error → Type 0
IsSpent (some (max_retries e)) = Unit
IsSpent (some (budget_spent n e)) = Unit
IsSpent _ = ⊥

abbrev Fair : World → Ending → Type 0
Fair w e =
    e.signal ≡ fault → (i : ℕ) × (e.attempts ≡ i + 1) × IsFaulty (w.answer i) × IsSpent e.error

after_answer-Fair :
    (w : World) (n : ℕ) (s : Loop) (v : Verdict)
    → s.attempts ≡ suc n
    → Blames (w.answer n) v
    → Leads (Fair w) (Blamed w (suc n)) (after_answer s v)
unfolding after_answer
after_answer-Fair w n s (final err signal) c b = λ f. absurd (b f)
after_answer-Fair w n s (again err throttled override) c b = record {
  counted = c;
  faulty = λ i e t. subst (λ k. IsFaulty (w.answer k)) (omega (arith, e)) (b t);
}

close_Fair :
    (w : World) (n : ℕ) (s : Loop)
    → n ≢ 0
    → Blamed w n s
    → s.last_throttled ≡ false
    → (i : ℕ) × (s.attempts ≡ i + 1) × IsFaulty (w.answer i)
close_Fair w zero s h b t = absurd (h refl)
close_Fair w (suc n) s h b t = (n, omega (arith, b.counted), b.faulty n refl t)

not_throttled : (b : Bool) → (if b then reachable else fault) ≡ fault → b ≡ false
not_throttled b h = ground (arith, h)

over-not_first : (w : World) (call : Call) (n : ℕ) (s : Loop) → pause w call n s ≡ over → n ≢ 0
unfolding pause
over-not_first w call n s h = ground (arith, h)

after_pause-Fair :
    (w : World) (call : Call) (n : ℕ) (s : Loop) (p : Pause)
    → IsSettled call.handle_conflict
    → Blamed w n s
    → pause w call n s ≡ p
    → Leads (Fair w) (Blamed w (suc n)) (after_pause w call n s p)
unfolding after_pause over_budget
after_pause-Fair w call n s over k b h = λ f.
    let (i, c, faulty) =
      close_Fair w n s (over-not_first w call n s h) b (not_throttled s.last_throttled f) in
    (i, c, faulty, tt)
after_pause-Fair w call n s cancels k b h = λ f. cc
after_pause-Fair w call n s (sleeps d) k b h = elim (Bool-cases (w.request_fails n)) [
  | inl refused ↦ rw refused (λ f. cc)
  | inr sent ↦ rw sent (
      after_answer-Fair w n (awake d s) (verdict w n call (w.answer n)) (omega (arith, b.counted))
        (verdict-Blames w n call (w.answer n) k))
]

turn-Fair :
    (w : World) (call : Call)
    → IsSettled call.handle_conflict
    → (n : ℕ) (s : Loop) → n < max_attempts
    → Blamed w n s
    → Leads (Fair w) (Blamed w (suc n)) (turn w call n s)
unfolding turn
turn-Fair w call k n s l b = after_pause-Fair w call n s (pause w call n s) k b refl

exhausted-Fair : (w : World) (s : Loop) → Blamed w max_attempts s → Fair w (exhausted s)
unfolding exhausted
exhausted-Fair w s b = λ f.
    let (i, c, faulty) =
      close_Fair w max_attempts s (omega arith) b (not_throttled s.last_throttled f) in
    (i, c, faulty, tt)

start-Blamed : (w : World) → Blamed w 0 start
start-Blamed w = record { counted = refl; faulty = λ i e. absurd (omega (arith, e)) }

admitted_call-Fair :
    (w : World) (call : Call) → IsSettled call.handle_conflict → Fair w (admitted_call w call)
unfolding admitted_call
admitted_call-Fair w call k = elim (Bool-cases call.marshals) [
  | inl fine ↦ rw fine (
      attempts_from-inv w call max_attempts (Blamed w) (Fair w) (turn-Fair w call k)
        (exhausted-Fair w) 5 0 start refl (start-Blamed w))
  | inr bad ↦ rw bad (λ f. cc)
]

-- Where the conflict handler, if any, settles every conflict: a call counts against the backend only if
-- its last request had no response, or one that is neither a success nor a status from 400 to 499, and it
-- ends with the error of its spent attempts or of its spent budget. So a call that is refused, cancelled or
-- undecodable, or whose last request was throttled, never does.
pub fault_blames :
    (w : World) (call : Call)
    → IsSettled call.handle_conflict
    → (admitted_call w call).signal ≡ fault
    → (i : ℕ) × ((admitted_call w call).attempts ≡ i + 1)
      × IsFaulty (w.answer i)
      × IsSpent (admitted_call w call).error
fault_blames w call k f = admitted_call-Fair w call k f

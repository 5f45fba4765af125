-- ===== src/Tests/ClientCases.antt =====
-- The PushWard client at concrete inputs: a server that throttles once and then answers, one that fails,
-- and a listing of two pages.
use pushward_integrations.Prelude.{
  ℕ, zero, suc, ◌+◌, ◌-◌, ◌*◌, ◌≤◌, ◌<◌, ◌≡◌, ◌≢◌, refl, inr, true, false, Option, none, some, List,
  [], ◌∷◌, Str, arith, second,
}
use native.Mathlib.Nat.{one-le-pow}
use pushward_integrations.Prelude.Int.{pos}
use pushward_integrations.Breaker as Breaker
use pushward_integrations.Breaker.{CircuitBreaker, new_circuit_breaker, state_half_open}
use pushward_integrations.Client.{
  World, Call, Answer, no_response, responds, do_with_retry, admitted_call, healthy, fault,
}
use pushward_integrations.Client.Errors.{Body, Problem, circuit_open}
use pushward_integrations.Client.Settles.{call_settles}
use pushward_integrations.Client.Sleeps.{IsJitter, call_bounds}
use pushward_integrations.Client.Verdicts.{IsUndisturbed}
use pushward_integrations.Client.Answers.{Retries, unexpected, Settles, succeeds, first_final}
use pushward_integrations.Client.Faults.{IsFaulty, IsSpent, fault_blames}
use pushward_integrations.Client.Paging.{last, more, list_scheduled, list_scheduled-whole}

abbrev blank_problem : Problem
blank_problem = record {
  status = 0;
  type = [];
  title = [];
  detail = [];
  code = [];
  retry_after_ms = pos 0;
  kind = [];
  used = 0;
  limit = 0;
  reset_at = [];
}

abbrev blank_body : Body
blank_body = record { empty = true; problem = blank_problem; legacy = none; has_limit = false }

abbrev answer_of : ℕ → Answer
answer_of zero =
    responds (record { status = 503; retry_after = []; body = blank_body; decodes = true })
answer_of (suc n) =
    responds (record { status = 200; retry_after = []; body = blank_body; decodes = true })

-- One attempt fails, and the next one is answered.
abbrev recovering : World
recovering = record {
  parse_time = λ s. none;
  answer = answer_of;
  request_fails = λ n. false;
  cancelled = λ n. false;
  busy = λ n. 0;
  jitter = λ n. 0;
  clock = λ n. 0;
}

abbrev dead : World
dead = record recovering { answer = λ n. no_response }

abbrev call : Call
call = record { marshals = true; handle_conflict = none; wants_body = false; retry_budget = 0 }

abbrev cb : CircuitBreaker
cb = new_circuit_breaker 3 10

call_settles_example :
    let (e, cb') = do_with_retry 5 6 recovering call cb in
    ((Breaker.allow 5 cb).1 ≡ true
      → (cb'.state ≢ state_half_open) × ((Breaker.allow 20 cb').1 ≡ true))
    × ((Breaker.allow 5 cb).1 ≡ false
        → (e.attempts ≡ 0) × (e.error ≡ some circuit_open) × (cb' ≡ cb))
unfolding new_circuit_breaker
call_settles_example = call_settles 5 6 20 recovering call cb (omega arith)

recovering-IsJitter : IsJitter recovering
recovering-IsJitter n = ground (arith, one-le-pow (n - 1) 2 (omega arith))

call_bounds_example :
    let e = admitted_call recovering call in
    (e.attempts ≤ 5)
    × (0 < call.retry_budget → e.slept ≤ call.retry_budget)
    × (e.slept ≤ 480 * second)
call_bounds_example = call_bounds recovering call recovering-IsJitter

undisturbed : IsUndisturbed recovering call
undisturbed = record { marshals = refl; made = λ n. refl; alive = λ n. refl; patient = refl }

first_Retries : (i : ℕ) → i < 1 → Retries call (recovering.answer i)
first_Retries zero h =
    unexpected (record { status = 503; retry_after = []; body = blank_body; decodes = true })
      (λ l s. absurd (omega (arith, l))) (inr (omega arith))
first_Retries (suc i) h = absurd (omega arith)

answered : Settles call (recovering.answer 1) none healthy
answered =
    succeeds (record { status = 200; retry_after = []; body = blank_body; decodes = true })
      (omega arith) (omega arith) (λ _. refl)

failed : (admitted_call dead call).signal ≡ fault
unfolding admitted_call
failed = refl

first_final_example :
    let e = admitted_call recovering call in
    (e.error ≡ none) × (e.signal ≡ healthy) × (e.attempts ≡ 2)
first_final_example =
    first_final recovering call 1 none healthy undisturbed (omega arith) first_Retries answered

fault_blames_example :
    (i : ℕ) × ((admitted_call dead call).attempts ≡ i + 1)
    × IsFaulty (dead.answer i)
    × IsSpent (admitted_call dead call).error
fault_blames_example = fault_blames dead call tt failed

abbrev fetch : Str → Option (List ℕ × Str)
fetch [] = some (1 ∷ 2 ∷ [], 7 ∷ [])
fetch (c ∷ s) = some (3 ∷ [], [])

list_scheduled-whole_example : list_scheduled fetch ≡ some (1 ∷ 2 ∷ 3 ∷ [])
list_scheduled-whole_example =
    list_scheduled-whole fetch (1 ∷ 2 ∷ 3 ∷ []) 2 (more refl refl (last refl refl)) (omega arith)

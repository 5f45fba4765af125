-- ===== src/Client/Answers.antt =====
-- Which answers settle a call of shared/pushward/client.go, and which have it tried again.
use pushward_integrations.Prelude.{
  ℕ, ◌+◌, ◌≤◌, ◌<◌, ◌≡◌, ◌≢◌, refl, ◌∙◌, Bool, true, false, inl, Option, none, some, arith, ◌⊎◌,
  str_eq_iff, Eq_str,
}
use pushward_integrations.Client.Errors.{
  Body, Error, parse_problem, decoding, new_http_error, code_quota_exceeded, code_answer_wait_limit,
}
use pushward_integrations.Client.{
  World, Call, Signal, healthy, reachable, final, verdict, verdict_response, verdict_status,
  verdict_throttled, Response, admitted_call, handled, Answer, no_response, responds,
}
use pushward_integrations.Client.Verdicts.{IsAgain, IsUndisturbed, final_ends}

-- The status is not a conflict, or the call has no handler for one.
abbrev Unhandled : Call → Response → Type 0
Unhandled call r = (r.status ≢ 409) ⊎ (call.handle_conflict ≡ none)

-- The answers that settle a call: with which error, and what it tells of the backend.
pub data Settles (call : Call) : Answer → Option Error → Signal → Type 0 where
  succeeds :
      (r : Response)
      → 200 ≤ r.status
      → r.status < 300
      → (call.wants_body ≡ true → r.decodes ≡ true)
      → Settles call (responds r) none healthy
  undecodable :
      (r : Response)
      → 200 ≤ r.status
      → r.status < 300
      → call.wants_body ≡ true
      → r.decodes ≡ false
      → Settles call (responds r) (some decoding) healthy
  conflict_settled :
      (r : Response) (handle : Body → Bool × Option Error) (err : Option Error)
      → call.handle_conflict ≡ some handle
      → r.status ≡ 409
      → handle r.body ≡ (true, err)
      → Settles call (responds r) err reachable
  out_of_quota :
      (r : Response)
      → r.status ≡ 429
      → (parse_problem r.body).code ≡ code_quota_exceeded
      → Settles call (responds r) (some (new_http_error 429 (parse_problem r.body))) reachable
  poll_full :
      (r : Response)
      → r.status ≡ 429
      → (parse_problem r.body).code ≡ code_answer_wait_limit
      → Settles call (responds r) (some (new_http_error 429 (parse_problem r.body))) reachable
  turned_down :
      (r : Response)
      → 400 ≤ r.status
      → r.status < 500
      → r.status ≢ 429
      → Unhandled call r
      → Settles call (responds r) (some (new_http_error r.status (parse_problem r.body))) reachable

-- The answers after which a call is tried again.
pub data Retries (call : Call) : Answer → Type 0 where
  unanswered : Retries call no_response
  unsettled :
      (r : Response) (handle : Body → Bool × Option Error) (err : Option Error)
      → call.handle_conflict ≡ some handle
      → r.status ≡ 409
      → handle r.body ≡ (false, err)
      → Retries call (responds r)
  throttled_again :
      (r : Response)
      → r.status ≡ 429
      → (parse_problem r.body).code ≢ code_quota_exceeded
      → (parse_problem r.body).code ≢ code_answer_wait_limit
      → Retries call (responds r)
  unexpected :
      (r : Response)
      → (r.status < 400 → (200 ≤ r.status) → 300 ≤ r.status)
      → (r.status < 400) ⊎ (500 ≤ r.status)
      → Retries call (responds r)

unhandled_lem :
    (w : World) (n : ℕ) (call : Call) (r : Response) (h : Option (Body → Bool × Option Error))
    → (r.status ≢ 409) ⊎ (h ≡ none)
    → verdict_response w n call r h ≡ verdict_status w n call r
unfolding verdict_response
unhandled_lem w n call r none u = refl
unhandled_lem w n call r (some handle) u = ground (arith, u)

handled_lem :
    (w : World) (n : ℕ) (call : Call) (r : Response) (handle : Body → Bool × Option Error)
    (h : Option (Body → Bool × Option Error)) (b : Bool × Option Error)
    → h ≡ some handle
    → r.status ≡ 409
    → handle r.body ≡ b
    → verdict_response w n call r h ≡ handled b
unfolding verdict_response
handled_lem w n call r handle h b e c s = rw (e, c, s) refl

Settles-verdict :
    (w : World) (n : ℕ) (call : Call) (a : Answer) (err : Option Error) (signal : Signal)
    → Settles call a err signal
    → verdict w n call a ≡ final err signal
unfolding verdict verdict_status verdict_throttled
Settles-verdict w n call _ _ _ (succeeds r lo hi d) =
    unhandled_lem w n call r call.handle_conflict (inl (omega (arith, hi)))
    ∙ ground (arith, lo, hi, d)
Settles-verdict w n call _ _ _ (undecodable r lo hi b d) =
    unhandled_lem w n call r call.handle_conflict (inl (omega (arith, hi)))
    ∙ ground (arith, lo, hi, b, d)
Settles-verdict w n call _ _ _ (conflict_settled r handle err h c s) =
    handled_lem w n call r handle call.handle_conflict (true, err) h c s
Settles-verdict w n call _ _ _ (out_of_quota r c q) =
    unhandled_lem w n call r call.handle_conflict (inl (omega (arith, c)))
    ∙ ground (arith, c, str_eq_iff (parse_problem r.body).code code_quota_exceeded, q)
Settles-verdict w n call _ _ _ (poll_full r c q) =
    unhandled_lem w n call r call.handle_conflict (inl (omega (arith, c)))
    ∙ ground (arith, c, str_eq_iff (parse_problem r.body).code code_answer_wait_limit, q)
Settles-verdict w n call _ _ _ (turned_down r lo hi t u) =
    unhandled_lem w n call r call.handle_conflict u ∙ ground (arith, lo, hi, t)

throttled_lem :
    (w : World) (n : ℕ) (call : Call) (r : Response)
    → r.status ≡ 429
    → (parse_problem r.body).code ≢ code_quota_exceeded
    → (parse_problem r.body).code ≢ code_answer_wait_limit
    → IsAgain (verdict_status w n call r)
unfolding verdict_status verdict_throttled
throttled_lem w n call r c q l = ground (
  arith,
  c,
  q,
  l,
  str_eq_iff (parse_problem r.body).code code_quota_exceeded,
  str_eq_iff (parse_problem r.body).code code_answer_wait_limit,
)

unexpected_lem :
    (w : World) (n : ℕ) (call : Call) (r : Response)
    → (r.status < 400 → (200 ≤ r.status) → 300 ≤ r.status)
    → (r.status < 400) ⊎ (500 ≤ r.status)
    → IsAgain (verdict_status w n call r)
unfolding verdict_status
unexpected_lem w n call r s o = ground (arith, s, o)

Retries-verdict :
    (w : World) (n : ℕ) (call : Call) (a : Answer) → Retries call a → IsAgain (verdict w n call a)
unfolding verdict
Retries-verdict w n call _ unanswered = tt
Retries-verdict w n call _ (unsettled r handle err h c s) =
    rw (handled_lem w n call r handle call.handle_conflict (false, err) h c s) tt
Retries-verdict w n call _ (throttled_again r c q l) =
    rw (unhandled_lem w n call r call.handle_conflict (inl (omega (arith, c))))
      (throttled_lem w n call r c q l)
Retries-verdict w n call _ (unexpected r s o) =
    rw (unhandled_lem w n call r call.handle_conflict (inl (ground (arith, o))))
      (unexpected_lem w n call r s o)

-- Undisturbed, the first of five answers that settles the call decides how it ends, and no request follows
-- it. A success settles it, without an error but for a body that does not decode; so does a conflict that
-- the handler settles, with the handler's error, an exhausted quota, a full long-poll, and any other status
-- from 400 to 499 but 429, with the error of the response; these count for a backend that is reachable. The
-- answers before it are of the other kinds: none at all, a conflict that the handler leaves, another
-- throttling, and the statuses that are neither a success nor from 400 to 499.
pub first_final :
    (w : World) (call : Call) (k : ℕ) (err : Option Error) (signal : Signal)
    → IsUndisturbed w call
    → k < 5
    → ((i : ℕ) → i < k → Retries call (w.answer i))
    → Settles call (w.answer k) err signal
    → let e = admitted_call w call in (e.error ≡ err) × (e.signal ≡ signal) × (e.attempts ≡ k + 1)
first_final w call k err signal u l before settles =
    final_ends w call k err signal u l (λ i h. Retries-verdict w i call (w.answer i) (before i h))
      (Settles-verdict w k call (w.answer k) err signal settles)

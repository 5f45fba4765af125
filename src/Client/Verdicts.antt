-- ===== src/Client/Verdicts.antt =====
-- How the verdicts on the answers decide a call of shared/pushward/client.go.
use pushward_integrations.Prelude.{
  ℕ, zero, suc, ◌+◌, ◌<◌, ◌≡◌, refl, subst, ◌∙◌, true, false, Option, arith, ◌==◌, if◌then◌else◌,
  Duration, Eq_str,
}
use pushward_integrations.Client.Errors.{Error}
use pushward_integrations.Client.{
  World, Call, Loop, start, Signal, Verdict, final, again, verdict, sleeps, pause, awake, retried,
  attempts_from, admitted_call, turn, after_pause, after_answer, backoff, stops, goes, ends,
}

-- The answer of the attempt n, as the loop reads it.
abbrev pub verdict_at : World → Call → ℕ → Verdict
verdict_at w call n = verdict w n call (w.answer n)

abbrev pub IsAgain : Verdict → Type 0
IsAgain (final err signal) = ⊥
IsAgain (again err throttled override) = Unit

-- Nothing but the answers decides: the body marshals, requests are made, the context lives and no budget
-- is set.
pub record IsUndisturbed (w : World) (call : Call) : Type 0 where
  pub marshals : call.marshals ≡ true
  pub made : (n : ℕ) → w.request_fails n ≡ false
  pub alive : (n : ℕ) → w.cancelled n ≡ false
  pub patient : call.retry_budget ≡ 0

after_answer-again :
    (s : Loop) (v : Verdict)
    → IsAgain v
    → (s' : Loop) × (after_answer s v ≡ goes s') × (s'.attempts ≡ s.attempts)
unfolding after_answer
after_answer-again s (final err signal) a = absurd a
after_answer-again s (again err throttled override) a =
    (retried err throttled override s, refl, refl)

module _ (w : World) (call : Call) (u : IsUndisturbed w call) where
  pause-sleeps : (n : ℕ) (s : Loop) → (d : Duration) × (pause w call n s ≡ sleeps d)
  unfolding pause
  pause-sleeps n s = (
    if n == 0 then 0 else backoff w n s.retry_after_override,
    ground (arith, u.alive n, u.patient),
  )

  turn-answer :
      (n : ℕ) (s : Loop)
      → (d : Duration) × (turn w call n s ≡ after_answer (awake d s) (verdict_at w call n))
  unfolding turn after_pause
  turn-answer n s = let (d, e) = pause-sleeps n s in (d, rw (e, after_pause, u.made n) refl)

  turn-final :
      (n : ℕ) (s : Loop) (err : Option Error) (signal : Signal)
      → verdict_at w call n ≡ final err signal
      → (d : Duration) × (turn w call n s ≡ stops (ends (awake d s) err signal))
  unfolding after_answer
  turn-final n s err signal v = let (d, e) = turn-answer n s in (d, rw (e, v) refl)

  turn-again :
      (n : ℕ) (s : Loop)
      → IsAgain (verdict_at w call n)
      → (s' : Loop) × (turn w call n s ≡ goes s') × (s'.attempts ≡ s.attempts + 1)
  turn-again n s a =
      let (d, e) = turn-answer n s in
      let (s', f, g) = after_answer-again (awake d s) (verdict_at w call n) a in (s', e ∙ f, g)

  attempts_from-final :
      (left n k : ℕ) (s : Loop) (err : Option Error) (signal : Signal)
      → k < left
      → ((i : ℕ) → i < k → IsAgain (verdict_at w call (n + i)))
      → verdict_at w call (n + k) ≡ final err signal
      → let e = attempts_from w call left n s in
        (e.error ≡ err) × (e.signal ≡ signal) × (e.attempts ≡ s.attempts + k + 1)
  unfolding attempts_from
  attempts_from-final zero n k s err signal l again' v = absurd (omega arith)
  attempts_from-final (suc left) n zero s err signal l again' v =
      let (d, e) =
        turn-final n s err signal
          (subst (λ m. verdict_at w call m ≡ final err signal) (omega arith) v) in
      rw (e, attempts_from) (refl, refl, omega arith)
  attempts_from-final (suc left) n (suc k) s err signal l again' v =
      let (s', e, c) =
        turn-again n s
          (subst (λ m. IsAgain (verdict_at w call m)) (omega arith) (again' 0 (omega arith))) in
      let rest =
        attempts_from-final left (suc n) k s' err signal (omega arith)
          (λ i h.
            subst (λ m. IsAgain (verdict_at w call m)) (omega arith) (again' (suc i) (omega arith)))
          (subst (λ m. verdict_at w call m ≡ final err signal) (omega arith) v) in
      rw (e, attempts_from) (rest.0, rest.1, omega (arith, rest.2, c))

-- The verdicts decide it.
pub final_ends :
    (w : World) (call : Call) (k : ℕ) (err : Option Error) (signal : Signal)
    → IsUndisturbed w call
    → k < 5
    → ((i : ℕ) → i < k → IsAgain (verdict_at w call i))
    → verdict_at w call k ≡ final err signal
    → let e = admitted_call w call in (e.error ≡ err) × (e.signal ≡ signal) × (e.attempts ≡ k + 1)
unfolding admitted_call
final_ends w call k err signal u l again' v =
    let r =
      attempts_from-final w call u 5 0 k start err signal l
        (λ i h. subst (λ m. IsAgain (verdict_at w call m)) (omega arith) (again' i h))
        (subst (λ m. verdict_at w call m ≡ final err signal) (omega arith) v) in
    rw u.marshals (r.0, r.1, omega (arith, r.2))

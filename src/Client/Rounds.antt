-- ===== src/Client/Rounds.antt =====
-- The rule for the retry loop of shared/pushward/client.go: what every turn keeps holds at the end.
use pushward_integrations.Prelude.{ℕ, zero, suc, ◌+◌, ◌<◌, ◌≡◌, refl, subst, ◌⊎◌, inl, inr, arith}
use pushward_integrations.Client.{
  World, Call, Ending, Loop, Turn, stops, goes, turn, attempts_from, exhausted,
}

-- After a turn: the end is as it should be, or the loop's variables are for the next turn.
abbrev pub Leads : (Ending → Type 0) → (Loop → Type 0) → Turn → Type 0
Leads Q P (stops e) = Q e
Leads Q P (goes s) = P s

pub Turn-cases : (t : Turn) → ((e : Ending) × (t ≡ stops e)) ⊎ ((s : Loop) × (t ≡ goes s))
Turn-cases (stops e) = inl (e, refl)
Turn-cases (goes s) = inr (s, refl)

-- `P n s` holds of the variables before the attempt n; the last turn ends before the attempt `m`.
module _ (w : World) (call : Call) (m : ℕ) (P : ℕ → Loop → Type 0) (Q : Ending → Type 0)
    (keep : (n : ℕ) (s : Loop) → n < m → P n s → Leads Q (P (suc n)) (turn w call n s))
    (close : (s : Loop) → P m s → Q (exhausted s)) where
  pub attempts_from-inv :
      (left n : ℕ) (s : Loop) → n + left ≡ m → P n s → Q (attempts_from w call left n s)
  unfolding attempts_from
  attempts_from-inv zero n s e p = close s (subst (λ k. P k s) (omega (arith, e)) p)
  attempts_from-inv (suc left) n s e p = elim (Turn-cases (turn w call n s)) [
    | inl (r, t) ↦
        rw (t, attempts_from) (subst (Leads Q (P (suc n))) t (keep n s (omega (arith, e)) p))
    | inr (s', t) ↦
        rw (t, attempts_from)
          (attempts_from-inv left (suc n) s' (omega (arith, e))
            (subst (Leads Q (P (suc n))) t (keep n s (omega (arith, e)) p)))
  ]

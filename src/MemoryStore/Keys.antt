-- ===== src/MemoryStore/Keys.antt =====
-- The composite keys of relay/internal/state/memory.go: no two names share one, if the first three
-- parts hold no NUL byte.
use pushward_integrations.Prelude.{
  ◌<◌, ◌≡◌, refl, true, [], ◌∷◌, ◌++◌, arith, length, drop, Str, str_eq,
}
use mathlib.Core.List.{append_assoc}
use pushward_integrations.MemoryStore.{Name, composite_key, group_prefix, has_prefix}

abbrev pub NoNul : Str → Type 0
NoNul [] = Unit
NoNul (c ∷ s) = (0 < c) × NoNul s

pub record IsName (n : Name) : Type 0 where
  pub provider : NoNul n.provider
  pub user_key : NoNul n.user_key
  pub key : NoNul n.key

-- The text up to the first NUL, and the text behind it, are determined.
split_nul : (a b r t : Str) → NoNul a → NoNul b → a ++ (0 ∷ r) ≡ b ++ (0 ∷ t) → (a ≡ b) × (r ≡ t)
split_nul [] [] r t ha hb e = (refl, ground arith)
split_nul [] (d ∷ b) r t ha hb e = absurd (ground arith)
split_nul (c ∷ a) [] r t ha hb e = absurd (ground arith)
split_nul (c ∷ a) (d ∷ b) r t ha hb e =
    let (p, q) = split_nul a b r t ha.1 hb.1 (ground arith) in (ground arith, q)

-- Two names with the same composite key are the same, if their first three parts hold no NUL byte;
-- the last part may hold any.
pub composite_key-injective :
    (m n : Name) → IsName m → IsName n → composite_key m ≡ composite_key n → m ≡ n
unfolding composite_key
composite_key-injective m n hm hn e =
    let (p, e₁) = split_nul m.provider n.provider _ _ hm.provider hn.provider e in
    let (u, e₂) = split_nul m.user_key n.user_key _ _ hm.user_key hn.user_key e₁ in
    let (k, s) = split_nul m.key n.key _ _ hm.key hn.key e₂ in cc (p, u, k, s)

pub composite_key-prefix :
    (n : Name) → composite_key n ≡ group_prefix n.provider n.user_key n.key ++ n.sub_key
unfolding composite_key group_prefix
composite_key-prefix n = simp append_assoc

pub drop-append : (p r : Str) → drop (length p) (p ++ r) ≡ r
drop-append [] r = refl
drop-append (c ∷ p) r = drop-append p r

pub has_prefix-append : (p r : Str) → has_prefix p (p ++ r) ≡ true
unfolding has_prefix str_eq
has_prefix-append [] r = ground arith
has_prefix-append (c ∷ p) r = ground (arith, has_prefix-append p r)

pub append-drop : (p k : Str) → has_prefix p k ≡ true → k ≡ p ++ drop (length p) k
unfolding has_prefix str_eq
append-drop [] k h = refl
append-drop (c ∷ p) [] h = ground arith
append-drop (c ∷ p) (d ∷ k) h = ground (arith, append-drop p k)

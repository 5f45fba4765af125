-- ===== src/Prelude/Classes.antt =====
-- Boolean equality as an interface, for the keys of maps: numbers and byte strings.
use Prim.Native.Nat.{ℕ}
use mathlib.Core.Path.{◌≡◌, refl}
use mathlib.Core.Logic.{◌↔◌}
use mathlib.Core.List.{List, [], ◌∷◌}
use mathlib.Core.Bool.{Bool, true, false, ◌&&◌}
use native.Mathlib.Omega.{arith}
use pushward_integrations.Prelude.Tests.{==_iff}
use pushward_integrations.Prelude.Tests.{◌==◌ as nat_eq}

pub record Eq {ℓ} (A : Type ℓ) : Type ℓ where
  pub beq : A → A → Bool
  pub beq_iff : (a b : A) → (beq a b ≡ true) ↔ (a ≡ b)

instance abbrev pub Eq_nat : Eq ℕ
Eq_nat = record { beq = nat_eq; beq_iff = ==_iff }

-- A Go string is its bytes.
abbrev pub Str : Type 0
Str = List ℕ

unfoldable pub str_eq : Str → Str → Bool
str_eq [] [] = true
str_eq (a ∷ as') (b ∷ bs) = nat_eq a b && str_eq as' bs
str_eq _ _ = false

str_eq→eq : (a b : Str) → str_eq a b ≡ true → a ≡ b
unfolding str_eq
str_eq→eq [] [] h = refl
str_eq→eq [] (b ∷ bs) h = ground arith
str_eq→eq (a ∷ as') [] h = ground arith
str_eq→eq (a ∷ as') (b ∷ bs) h = ground (arith, str_eq→eq as' bs)

str_eq_refl : (a : Str) → str_eq a a ≡ true
unfolding str_eq
str_eq_refl [] = refl
str_eq_refl (a ∷ as') = ground (arith, str_eq_refl as')

eq→str_eq : (a b : Str) → a ≡ b → str_eq a b ≡ true
eq→str_eq a b e = ground (arith, str_eq_refl a)

pub str_eq_iff : (a b : Str) → (str_eq a b ≡ true) ↔ (a ≡ b)
str_eq_iff a b = (str_eq→eq a b, eq→str_eq a b)

instance abbrev pub Eq_str : Eq Str
Eq_str = record { beq = str_eq; beq_iff = str_eq_iff }

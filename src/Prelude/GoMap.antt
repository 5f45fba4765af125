-- ===== src/Prelude/GoMap.antt =====
-- Go's `map`, as an association list in some order of its keys. Code that ranges over a map takes
-- the list in an order that it must not depend on; a theorem about such code says so.
use Prim.Native.Nat.{◌+◌, ◌≤◌}
use mathlib.Core.Path.{◌≡◌, refl, subst}
use mathlib.Core.Logic.{inl, inr}
use mathlib.Core.List.{List, [], ◌∷◌}
use mathlib.Core.Bool.{Bool}
use mathlib.Core.Option.{Option, none, some}
use native.Mathlib.Omega.{arith}
use pushward_integrations.Prelude.Tests.{if◌then◌else◌, is_some, Bool-cases}
use pushward_integrations.Prelude.Lists.{length}
use pushward_integrations.Prelude.Classes.{Eq}

abbrev pub Map {ℓ κ} : Type ℓ → Type κ → Type (ℓ ⊔ κ)
Map K V = List (K × V)

module _ {ℓ κ} {K : Type ℓ} {V : Type κ} ⦃e : Eq K⦄ where
  unfoldable pub get : K → Map K V → Option V
  get k [] = none
  get k ((j, v) ∷ m) = if e.beq j k then some v else get k m

  unfoldable pub put : K → V → Map K V → Map K V
  put k v [] = (k, v) ∷ []
  put k v ((j, w) ∷ m) = if e.beq j k then (k, v) ∷ m else (j, w) ∷ put k v m

  unfoldable pub delete : K → Map K V → Map K V
  delete k [] = []
  delete k ((j, w) ∷ m) = let rest = delete k m in if e.beq j k then rest else (j, w) ∷ rest

  abbrev pub has : K → Map K V → Bool
  has k m = is_some (get k m)

  -- No key stands twice.
  abbrev pub Distinct : Map K V → Type κ
  Distinct [] = Unit
  Distinct ((k, v) ∷ m) = (get k m ≡ none) × Distinct m

  pub get-put :
      (k j : K) (v : V) (m : Map K V) → get j (put k v m) ≡ (if e.beq k j then some v else get j m)
  unfolding get put
  get-put k j v [] = refl
  get-put k j v ((i, w) ∷ m) =
      ground (arith, e.beq_iff k j, e.beq_iff i k, e.beq_iff i j, get-put k j v m)

  pub get-delete :
      (k j : K) (m : Map K V) → get j (delete k m) ≡ (if e.beq k j then none else get j m)
  unfolding get delete
  get-delete k j [] = ground arith
  get-delete k j ((i, w) ∷ m) =
      ground (arith, e.beq_iff k j, e.beq_iff i k, e.beq_iff i j, get-delete k j m)

  pub get-put_self : (k : K) (v : V) (m : Map K V) → get k (put k v m) ≡ some v
  get-put_self k v m = ground (arith, get-put k k v m, e.beq_iff k k)

  pub get-delete_self : (k : K) (m : Map K V) → get k (delete k m) ≡ none
  get-delete_self k m = ground (arith, get-delete k k m, e.beq_iff k k)

  pub Distinct-put : (k : K) (v : V) (m : Map K V) → Distinct m → Distinct (put k v m)
  unfolding put get
  Distinct-put k v [] d = (refl, tt)
  Distinct-put k v ((i, w) ∷ m) d =
      ground (arith, Distinct-put k v m, get-put k i v m, e.beq_iff i k, e.beq_iff k i)

  pub Distinct-delete : (k : K) (m : Map K V) → Distinct m → Distinct (delete k m)
  unfolding delete
  Distinct-delete k [] d = tt
  Distinct-delete k ((i, w) ∷ m) d =
      ground (arith, Distinct-delete k m, get-delete k i m, e.beq_iff i k, e.beq_iff k i)

  pub delete_absent : (k : K) (m : Map K V) → get k m ≡ none → delete k m ≡ m
  unfolding get delete
  delete_absent k [] h = refl
  delete_absent k ((i, w) ∷ m) h = ground (arith, delete_absent k m)

  pub length-delete-le : (k : K) (m : Map K V) → length (delete k m) ≤ length m
  unfolding delete
  length-delete-le k [] = omega arith
  length-delete-le k ((i, w) ∷ m) = ground (arith, length-delete-le k m)

  pub length-delete :
      (k : K) (v : V) (m : Map K V)
      → Distinct m
      → get k m ≡ some v
      → length (delete k m) + 1 ≡ length m
  unfolding get delete
  length-delete k v [] d h = ground arith
  length-delete k v ((i, w) ∷ m) d h =
      ground (arith, length-delete k v m, delete_absent k m, e.beq_iff i k)

  pub length-put :
      (k : K) (v : V) (m : Map K V)
      → length (put k v m) ≡ (if has k m then length m else length m + 1)
  unfolding get put
  length-put k v [] = omega arith
  length-put k v ((i, w) ∷ m) = ground (arith, length-put k v m)

  -- A property of every value.
  abbrev pub AllValues {μ} : (V → Type μ) → Map K V → Type μ
  AllValues P [] = Unit
  AllValues P ((k, v) ∷ m) = P v × AllValues P m

  pub AllValues-put {μ} :
      (P : V → Type μ) (k : K) (v : V) (m : Map K V) → P v → AllValues P m → AllValues P (put k v m)
  unfolding put
  AllValues-put P k v [] p a = (p, tt)
  AllValues-put P k v ((j, w) ∷ m) p a = elim (Bool-cases (e.beq j k)) [
    | inl same ↦ rw same (p, a.1)
    | inr other ↦ rw other (a.0, AllValues-put P k v m p a.1)
  ]

  pub AllValues-delete {μ} :
      (P : V → Type μ) (k : K) (m : Map K V) → AllValues P m → AllValues P (delete k m)
  unfolding delete
  AllValues-delete P k [] a = tt
  AllValues-delete P k ((j, w) ∷ m) a = elim (Bool-cases (e.beq j k)) [
    | inl same ↦ rw same (AllValues-delete P k m a.1)
    | inr other ↦ rw other (a.0, AllValues-delete P k m a.1)
  ]

  pub AllValues-get {μ} :
      (P : V → Type μ) (k : K) (v : V) (m : Map K V) → AllValues P m → get k m ≡ some v → P v
  unfolding get
  AllValues-get P k v [] a h = cc
  AllValues-get P k v ((j, w) ∷ m) a h = elim (Bool-cases (e.beq j k)) [
    | inl same ↦ subst P (ground (arith, same)) a.0
    | inr other ↦ AllValues-get P k v m a.1 (ground (arith, other))
  ]

  pub AllValues-imp {μ ν} :
      (P : V → Type μ) (Q : V → Type ν) (m : Map K V)
      → ((v : V) → P v → Q v)
      → AllValues P m
      → AllValues Q m
  AllValues-imp P Q [] f a = tt
  AllValues-imp P Q ((j, w) ∷ m) f a = (f w a.0, AllValues-imp P Q m f a.1)

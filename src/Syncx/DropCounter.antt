-- ===== src/Syncx/DropCounter.antt =====
-- shared/syncx/dropcounter.go. `Add` on the atomic counter makes a drop one step; the counter wraps
-- at 2 ^ 64 as an atomic.Uint64 does.
use native.Mathlib.Nat.{add-zero, div-eq_of_lt, div-eq_of_lt-le, div-add-mod, mod_def, mod-lt}
use native.Mathlib.Decide.{dec_lt}
use pushward_integrations.Prelude.{
  ap, ℕ, zero, suc, ◌+◌, ◌*◌, ◌/◌, ◌%◌, ◌^◌, ◌<◌, ◌≡◌, Bool, true, false, ◌||◌, Option, none, some,
  arith, ◌==◌, if◌then◌else◌,
}

pub record DropCounter : Type 0 where
  pub n : ℕ
  pub log_every : ℕ

-- `none` is the panic on 0.
unfoldable pub new_drop_counter : ℕ → Option DropCounter
new_drop_counter log_every =
    if log_every == 0 then none else some (record { n = 0; log_every = log_every })

-- The total and whether to log this drop.
unfoldable pub drop : DropCounter → DropCounter × ℕ × Bool
drop c =
    let total = (c.n + 1) % 2 ^ 64 in
    (record c { n = total }, total, total == 1 || total % c.log_every == 0)

abbrev one_if : Bool → ℕ
one_if true = 1
one_if false = 0

-- How many of `k` drops in a row are to be logged, from a state of the counter.
unfoldable pub logged : ℕ → DropCounter → ℕ
logged zero c = 0
logged (suc k) c = one_if (drop c).2 + logged k (drop c).0

unfoldable pub drops : ℕ → DropCounter → DropCounter
drops zero c = c
drops (suc k) c = drops k (drop c).0

-- Before the counter wraps, `k` drops count `k`.
pub n-drops : (k : ℕ) (c : DropCounter) → c.n + k < 2 ^ 64 → (drops k c).n ≡ c.n + k
unfolding drops drop
n-drops zero c h = omega arith
n-drops (suc k) c h = omega (arith, n-drops k (drop c).0)

div-suc : (n l : ℕ) → 0 < l → (n + 1) / l ≡ n / l + one_if ((n + 1) % l == 0)
div-suc n l h = elim (dec_lt (n % l + 1) l) [
  | yes p ↦
      let q =
        div-eq_of_lt-le {k = n / l} l {m = n + 1} (grind (arith, div-add-mod n l))
          (grind (arith, div-add-mod n l)) in
      let r : (n + 1) % l ≡ n % l + 1 =
        omega (arith, mod_def (n + 1) l, ap (λ (t : ℕ). l * t) q, div-add-mod n l) in
      rw q (ground (arith, r))
  | no p ↦
      let e : n % l + 1 ≡ l = omega (arith, mod-lt n h) in
      let q =
        div-eq_of_lt-le {k = n / l + 1} l {m = n + 1} (grind (arith, div-add-mod n l))
          (grind (arith, div-add-mod n l)) in
      let r : (n + 1) % l ≡ 0 =
        omega (arith, mod_def (n + 1) l, ap (λ (t : ℕ). l * t) q, div-add-mod n l) in
      rw q (ground (arith, r))
]

-- A drop that is not the first one, before the counter wraps.
drop_later :
    (c : DropCounter)
    → 0 < c.n
    → c.n + 1 < 2 ^ 64
    → drop c ≡ (record c { n = c.n + 1 }, c.n + 1, (c.n + 1) % c.log_every == 0)
unfolding drop
drop_later c p b = let e : (c.n + 1) % 2 ^ 64 ≡ c.n + 1 = omega arith in rw e (ground arith)

logged_from :
    (k : ℕ) (c : DropCounter)
    → 1 < c.log_every
    → 0 < c.n
    → c.n + k < 2 ^ 64
    → logged k c + c.n / c.log_every ≡ (c.n + k) / c.log_every
unfolding logged
logged_from zero c l p b = rw add-zero (omega arith)
logged_from (suc k) c l p b =
    let next : DropCounter = record c { n = c.n + 1 } in
    let e : c.n + 1 + k ≡ c.n + suc k = omega arith in
    let ih = rw e at (logged_from k next l (omega arith) (omega arith)) in
    rw (drop_later c p (omega arith)) (omega (arith, ih, div-suc c.n c.log_every (omega arith)))

-- Of `k` drops on a new counter with `log_every` above 1, fewer than the counter can hold, the first
-- is logged and then every `log_every`-th: `1 + k / log_every` in all, if there is any.
pub logged_count :
    (k log_every : ℕ)
    → 1 < log_every
    → 0 < k
    → k < 2 ^ 64
    → (c : DropCounter) × (new_drop_counter log_every ≡ some c) × (logged k c ≡ 1 + k / log_every)
unfolding new_drop_counter logged drop
logged_count zero l h p b = absurd (omega arith)
logged_count (suc k) l h p b =
    let c : DropCounter = record { n = 0; log_every = l } in
    let one : DropCounter = record { n = 1; log_every = l } in
    let e : 1 / l ≡ 0 = div-eq_of_lt h in
    let s : 1 + k ≡ suc k = omega arith in
    let ih = rw s at (logged_from k one h (omega arith) (omega arith)) in
    let g : 1 + logged k one ≡ 1 + suc k / l = omega (arith, ih, e) in (c, ground arith, g)

-- ===== src/Ci/Busy/Cover.antt =====
-- The instants that some shards cover, and the sorting of `busyTime`, shared/ci/weights.go.
use pushward_integrations.Prelude.{
  ℕ, zero, suc, ◌+◌, ◌-◌, ◌≤◌, ◌<◌, ◌≡◌, refl, inl, inr, min, Bool, true, false, not, ◌&&◌, ◌||◌,
  Bool-cases, List, [], ◌∷◌, arith, if◌then◌else◌, Time, before, after, All,
}
use pushward_integrations.Ci.Busy.{ShardSpan, insert, sort}

-- The shard runs at the instant t, and some shard of the list does.
abbrev pub covers : Time → ShardSpan → Bool
covers t s = not (before t s.start) && before t s.end_at

abbrev pub covered : List ShardSpan → Time → Bool
covered [] t = false
covered (s ∷ ss) t = covers t s || covered ss t

-- The number of instants before m that pass the test.
abbrev pub count : (Time → Bool) → ℕ → ℕ
count p zero = 0
count p (suc m) = if p m then suc (count p m) else count p m

pub count-ext : (p q : Time → Bool) (m : ℕ) → ((t : Time) → p t ≡ q t) → count p m ≡ count q m
count-ext p q zero h = refl
count-ext p q (suc m) h = ground (arith, h m, count-ext p q m h)

pub count-covers :
    (s : ShardSpan) (m : ℕ)
    → s.start ≤ s.end_at
    → count (λ t. covers t s) m ≡ min s.end_at m - min s.start m
count-covers s zero h = omega arith
count-covers s (suc m) h = ground (arith, count-covers s m h)

pub count-or :
    (p q : Time → Bool) (m : ℕ)
    → ((t : Time) → p t ≡ true → q t ≡ false)
    → count (λ t. p t || q t) m ≡ count p m + count q m
count-or p q zero h = omega arith
count-or p q (suc m) h = ground (arith, h m, count-or p q m h)

-- The starts are at or after `a`; the list is sorted by start; each pair is in order and ends by m.
abbrev pub StartsFrom : Time → List ShardSpan → Type 0
StartsFrom a ss = All (λ s. a ≤ s.start) ss

abbrev pub Sorted : List ShardSpan → Type 0
Sorted [] = Unit
Sorted (s ∷ ss) = StartsFrom s.start ss × Sorted ss

abbrev pub Ordered : List ShardSpan → Type 0
Ordered ss = All (λ s. s.start ≤ s.end_at) ss

abbrev pub EndsBy : ℕ → List ShardSpan → Type 0
EndsBy m ss = All (λ s. s.end_at ≤ m) ss

pub weaken_starts : (a b : Time) (ss : List ShardSpan) → a ≤ b → StartsFrom b ss → StartsFrom a ss
weaken_starts a b [] h k = tt
weaken_starts a b (s ∷ ss) h (k, ks) = (omega (arith, h, k), weaken_starts a b ss h ks)

pub StartsFrom-insert :
    (a : Time) (s : ShardSpan) (ts : List ShardSpan)
    → a ≤ s.start
    → StartsFrom a ts
    → StartsFrom a (insert s ts)
unfolding insert
StartsFrom-insert a s [] h k = (h, tt)
StartsFrom-insert a s (t ∷ ts) h (k, ks) = elim (Bool-cases (after s.start t.start)) [
  | inl e ↦ rw e (k, StartsFrom-insert a s ts h ks)
  | inr e ↦ rw e (h, (k, ks))
]

pub insert-Sorted : (s : ShardSpan) (ts : List ShardSpan) → Sorted ts → Sorted (insert s ts)
unfolding insert
insert-Sorted s [] k = (tt, tt)
insert-Sorted s (t ∷ ts) (k, ks) = elim (Bool-cases (after s.start t.start)) [
  | inl e ↦ rw e (StartsFrom-insert t.start s ts (ground (arith, e)) k, insert-Sorted s ts ks)
  | inr e ↦
      rw e ((ground (arith, e), weaken_starts s.start t.start ts (ground (arith, e)) k), (k, ks))
]

pub All-insert :
    (P : ShardSpan → Type 0) (s : ShardSpan) (ts : List ShardSpan)
    → P s
    → All P ts
    → All P (insert s ts)
unfolding insert
All-insert P s [] h k = (h, tt)
All-insert P s (t ∷ ts) h (k, ks) = elim (Bool-cases (after s.start t.start)) [
  | inl e ↦ rw e (k, All-insert P s ts h ks)
  | inr e ↦ rw e (h, (k, ks))
]

pub covered-insert :
    (s : ShardSpan) (ts : List ShardSpan) (t : Time)
    → covered (insert s ts) t ≡ covers t s || covered ts t
unfolding insert
covered-insert s [] t = refl
covered-insert s (u ∷ ts) t = ground (arith, covered-insert s ts t)

pub sort-Sorted : (ss : List ShardSpan) → Sorted (sort ss)
unfolding sort
sort-Sorted [] = tt
sort-Sorted (s ∷ ss) = insert-Sorted s (sort ss) (sort-Sorted ss)

pub All-sort : (P : ShardSpan → Type 0) (ss : List ShardSpan) → All P ss → All P (sort ss)
unfolding sort
All-sort P [] h = tt
All-sort P (s ∷ ss) (h, hs) = All-insert P s (sort ss) h (All-sort P ss hs)

pub covered-sort : (ss : List ShardSpan) (t : Time) → covered (sort ss) t ≡ covered ss t
unfolding sort
covered-sort [] t = refl
covered-sort (s ∷ ss) t = ground (arith, covered-insert s (sort ss) t, covered-sort ss t)

-- Shards that all start at or after an instant cover none before it.
pub covered_before :
    (base : Time) (ss : List ShardSpan) (t : Time)
    → StartsFrom base ss
    → t < base
    → covered ss t ≡ false
covered_before base [] t k h = refl
covered_before base (s ∷ ss) t (k, ks) h = ground (arith, k, h, covered_before base ss t ks h)

pub count-covered_le :
    (base : Time) (ss : List ShardSpan) (m : ℕ)
    → StartsFrom base ss
    → count (covered ss) m ≤ m - base
count-covered_le base ss zero k = omega arith
count-covered_le base ss (suc m) k =
    ground (arith, covered_before base ss m k, count-covered_le base ss m k)

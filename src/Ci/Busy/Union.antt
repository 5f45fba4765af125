-- ===== src/Ci/Busy/Union.antt =====
-- `busyTime` of shared/ci/weights.go against the measure of a union of intervals.
use pushward_integrations.Prelude.{
  ℕ, ◌+◌, ◌^◌, ◌≤◌, ◌<◌, ◌≡◌, ◌≢◌, ◌↔◌, refl, ap, ◌∙◌, ◌⊎◌, inl, inr, true, false, Bool-cases, none,
  some, List, [], ◌∷◌, arith, Time, Duration, before, after,
}
use pushward_integrations.Ci.Busy.{
  ShardSpan, latest, sub, add, borrow, intervals, insert, sort, merge, merge_sorted, busy_time,
}
use pushward_integrations.Ci.Busy.Cover.{
  covers, covered, count, count-ext, count-covers, count-or, StartsFrom, Sorted, Ordered, EndsBy,
  weaken_starts, sort-Sorted, All-sort, covered-sort, count-covered_le,
}

-- What starts after an interval's end is disjoint from it.
apart_disjoint :
    (cur : ShardSpan) (ss : List ShardSpan) (t : Time)
    → StartsFrom cur.end_at ss
    → covers t cur ≡ true
    → covered ss t ≡ false
apart_disjoint cur [] t k h = refl
apart_disjoint cur (s ∷ ss) t (k, ks) h = ground (arith, k, h, apart_disjoint cur ss t ks h)

-- The merging loop adds the measure of what is left, where no sum wraps and no span saturates.
merge_measure :
    (base m : ℕ) (total : Duration) (cur : ShardSpan) (ss : List ShardSpan)
    → m < base + 2 ^ 63
    → StartsFrom base (cur ∷ ss)
    → Sorted (cur ∷ ss)
    → Ordered (cur ∷ ss)
    → EndsBy m (cur ∷ ss)
    → total + count (covered (cur ∷ ss)) m < 2 ^ 64
    → merge total cur ss ≡ total + count (covered (cur ∷ ss)) m
unfolding merge latest
merge_measure base m total cur [] small (b, _) _ (o, _) (e, _) bound = ground (
  arith,
  small,
  b,
  o,
  e,
  bound,
  count-covers cur m o,
  count-ext (covered (cur ∷ [])) (λ t. covers t cur) m (λ t. ground arith),
)
merge_measure base m total cur (s ∷ ss) small (b, (bs, bss)) ((k, ks), (l, ls)) (o, (os, oss))
      (e, (es, ess)) bound =
    elim (Bool-cases (after s.start cur.end_at)) [
      | inl far ↦
          let disjoint =
            count-or (λ t. covers t cur) (covered (s ∷ ss)) m
              (λ t. apart_disjoint cur (s ∷ ss) t (
                ground (arith, far),
                weaken_starts cur.end_at s.start ss (ground (arith, far)) l,
              )) in
          let add_eq : add total (sub cur.end_at cur.start) ≡ total + count (λ t. covers t cur) m =
            ground (arith, count-covers cur m o, bound, disjoint, small, b, e, o) in
          rw far (
            merge_measure base m (add total (sub cur.end_at cur.start)) s ss small (bs, bss) (l, ls)
              (os, oss) (es, ess) (ground (arith, bound, disjoint, add_eq))
            ∙ ground (arith, disjoint, add_eq))
      | inr near ↦
          let cur' : ShardSpan = record cur { end_at = latest cur.end_at s.end_at } in
          let same =
            count-ext (covered (cur' ∷ ss)) (covered (cur ∷ s ∷ ss)) m
              (λ t. ground (arith, near, k, o, os)) in
          rw near (
            merge_measure base m total cur' ss small (b, bss) (ks, ls) (ground (arith, o), oss)
              (ground (arith, e, es), ess) (ground (arith, same, bound))
            ∙ ap (λ n. total + n) same)
    ]

Ordered-intervals : (first last : Time) (ss : List ShardSpan) → Ordered (intervals first last ss)
unfolding intervals
Ordered-intervals first last [] = tt
Ordered-intervals first last (s ∷ ss) =
    elim (Bool-cases (before (borrow first last s).end_at (borrow first last s).start)) [
      | inl skew ↦ rw skew (Ordered-intervals first last ss)
      | inr fine ↦ rw fine (ground (arith, fine), Ordered-intervals first last ss)
    ]

insert-nonempty : (s : ShardSpan) (ts : List ShardSpan) → insert s ts ≢ []
unfolding insert
insert-nonempty s [] = ground arith
insert-nonempty s (t ∷ ts) = ground arith

sort-nonempty : (ss : List ShardSpan) → ss ≢ [] → sort ss ≢ []
unfolding sort
sort-nonempty [] h = h
sort-nonempty (s ∷ ss) h = insert-nonempty s (sort ss)

merge_sorted-measure :
    (base m : ℕ) (ss : List ShardSpan)
    → m < base + 2 ^ 63
    → StartsFrom base ss
    → Sorted ss
    → Ordered ss
    → EndsBy m ss
    → ss ≢ []
    → merge_sorted ss ≡ some (count (covered ss) m)
merge_sorted-measure base m [] small b k o e h = absurd (h refl)
merge_sorted-measure base m (s ∷ ss) small b k o e h = ap some (
    merge_measure base m 0 s ss small b k o e
      (omega (arith, small, count-covered_le base (s ∷ ss) m b))
    ∙ omega arith)

-- `busyTime` is the measure of the union: when the group has a start and an end, some shard has an
-- interval that is in order once its missing side is borrowed, and all intervals lie between an instant
-- `base` and an instant m less than 2^63 nanoseconds later, it returns the number of instants at which
-- at least one interval runs. Overlaps count once and gaps do not count.
pub busy_time_measure :
    (shards : List ShardSpan) (first last : Time) (base m : ℕ)
    → m < base + 2 ^ 63
    → first ≢ 0
    → last ≢ 0
    → StartsFrom base (intervals first last shards)
    → EndsBy m (intervals first last shards)
    → intervals first last shards ≢ []
    → busy_time shards first last ≡ some (count (covered (intervals first last shards)) m)
unfolding busy_time
busy_time_measure shards first last base m small f l b e h =
    let ivs = intervals first last shards in
    let whole =
      merge_sorted-measure base m (sort ivs) small (All-sort (λ s. base ≤ s.start) ivs b)
        (sort-Sorted ivs)
        (All-sort (λ s. s.start ≤ s.end_at) ivs (Ordered-intervals first last shards))
        (All-sort (λ s. s.end_at ≤ m) ivs e) (sort-nonempty ivs h) in
    ground (arith, f, l, whole, count-ext (covered (sort ivs)) (covered ivs) m (covered-sort ivs))

List-cases :
    (ss : List ShardSpan) → (ss ≡ []) ⊎ ((t : ShardSpan) × ((ts : List ShardSpan) × (ss ≡ t ∷ ts)))
List-cases [] = inl refl
List-cases (s ∷ ss) = inr (s, (ss, refl))

merge_sorted-none : (ss : List ShardSpan) → merge_sorted ss ≡ none → ss ≡ []
merge_sorted-none [] h = refl
merge_sorted-none (s ∷ ss) h = absurd (ground (arith, h))

-- Without a start or an end of the group, or where every pair of stamps is out of order, `busyTime`
-- returns no measurement; and in no other case.
pub busy_time-none :
    (shards : List ShardSpan) (first last : Time)
    → (busy_time shards first last ≡ none)
      ↔ ((first ≡ 0) ⊎ ((last ≡ 0) ⊎ (intervals first last shards ≡ [])))
unfolding busy_time sort
busy_time-none shards first last = elim (List-cases (intervals first last shards)) [
  | inl empty ↦ ground (arith, empty)
  | inr (s, (ss, full)) ↦
      ground (arith, full, merge_sorted-none (sort (s ∷ ss)), insert-nonempty s (sort ss))
]

-- ===== src/Ci/Busy.antt =====
-- `busyTime`, `latest` and `shardSpan` of shared/ci/weights.go. A duration is a number of nanoseconds;
-- `Time.Sub` saturates at 2^63 - 1 nanoseconds, and the sums wrap at 2^64.
pub mod Cover
pub mod Union
use pushward_integrations.Prelude.{
  ℕ, ◌+◌, ◌-◌, ◌%◌, ◌^◌, min, Bool, true, false, not, ◌&&◌, ◌||◌, Option, none, some, List, [], ◌∷◌,
  if◌then◌else◌, Time, Duration, is_zero, before, after,
}

unfoldable pub latest : Time → Time → Time
latest cur ts = if not (is_zero ts) && after ts cur then ts else cur

pub record ShardSpan : Type 0 where
  pub start : Time
  pub end_at : Time

-- `t.Sub(u)` where u is not after t: the only case the loop below meets.
abbrev pub sub : Time → Time → Duration
sub t u = min (t - u) (2 ^ 63 - 1)

abbrev pub add : Duration → Duration → Duration
add a b = (a + b) % 2 ^ 64

abbrev pub borrow : Time → Time → ShardSpan → ShardSpan
borrow first last s = record {
  start = if is_zero s.start then first else s.start;
  end_at = if is_zero s.end_at then last else s.end_at;
}

-- The first loop: the missing sides borrowed, and the pairs that end before they start left out.
unfoldable pub intervals : Time → Time → List ShardSpan → List ShardSpan
intervals first last [] = []
intervals first last (s ∷ ss) =
    let s' = borrow first last s in
    let rest = intervals first last ss in if before s'.end_at s'.start then rest else s' ∷ rest

-- `slices.SortFunc` by start.
unfoldable pub insert : ShardSpan → List ShardSpan → List ShardSpan
insert s [] = s ∷ []
insert s (t ∷ ts) = let rest = insert s ts in if after s.start t.start then t ∷ rest else s ∷ t ∷ ts

unfoldable pub sort : List ShardSpan → List ShardSpan
unfolding insert
sort [] = []
sort (s ∷ ss) = insert s (sort ss)

-- The merging loop, from the interval it is at and the total so far.
unfoldable pub merge : Duration → ShardSpan → List ShardSpan → Duration
unfolding latest
merge total cur [] = add total (sub cur.end_at cur.start)
merge total cur (s ∷ ss) =
    let joined = merge total (record cur { end_at = latest cur.end_at s.end_at }) ss in
    let apart = merge (add total (sub cur.end_at cur.start)) s ss in
    if not (after s.start cur.end_at) then joined else apart

abbrev pub merge_sorted : List ShardSpan → Option Duration
merge_sorted [] = none
merge_sorted (s ∷ ss) = some (merge 0 s ss)

unfoldable pub busy_time : List ShardSpan → Time → Time → Option Duration
unfolding intervals sort merge
busy_time shards first last =
    if is_zero first || is_zero last
    then none
    else merge_sorted (sort (intervals first last shards))

-- ===== src/LruMap.antt =====
-- The map with eviction of relay/internal/lrumap/lrumap.go. Times are in nanoseconds. The lock makes
-- each locked section one step: `hit` is the read-locked one of `GetOrCreate`, `create_locked` the
-- write-locked one. Where the source ranges over the Go map, the order that the runtime takes is an
-- argument.
pub mod Eviction
pub mod Contents
pub mod Sweep
use pushward_integrations.Prelude.{
  ℕ, suc, ◌+◌, ◌-◌, ◌≡◌, Bool, true, false, Option, none, some, List, [], ◌∷◌, ltb, leb,
  if◌then◌else◌, length, take, Str, Eq_str,
}
use pushward_integrations.Prelude.GoMap
use pushward_integrations.Prelude.GoMap.{Map, get, put, delete, Distinct}

abbrev pub eviction_sample_size : ℕ
eviction_sample_size = 8

pub record Entry {ℓ} (V : Type ℓ) : Type ℓ where
  pub value : V
  pub last_access : ℕ

pub record LruMap {ℓ} (V : Type ℓ) : Type ℓ where
  pub entries : Map Str (Entry V)
  pub max_size : ℕ

-- A result of `GetOrCreate`'s write-locked section: the value, and the entry that was evicted, which
-- goes to the callback once the lock is released.
pub record Created {ℓ} (V : Type ℓ) : Type ℓ where
  pub after : LruMap V
  pub result : V
  pub evicted : Option (Str × V)

module _ {ℓ} {V : Type ℓ} where
  -- `seq` is the map's entries in the order of one range loop.
  pub record IsRange (m seq : Map Str (Entry V)) : Type ℓ where
    pub same : (k : Str) → get k seq ≡ get k m
    pub distinct : Distinct seq
    pub size : length seq ≡ length m

  unfoldable pub new : ℕ → LruMap V
  new max_size = record { entries = []; max_size = max_size }

  -- The entry of a key is found: its access time is stored.
  unfoldable pub touch : ℕ → Str → Entry V → LruMap V → LruMap V
  touch now key e m = record m { entries = put key (record e { last_access = now }) m.entries }

  unfoldable pub hit : ℕ → Str → LruMap V → Option (V × LruMap V)
  unfolding touch
  hit now key m = elim (get key m.entries) [
    | none ↦ none
    | some e ↦ some (e.value, touch now key e m)
  ]

  -- The loop over the sample: the key and the time of the oldest entry so far.
  unfoldable pub oldest_from : Str → ℕ → Map Str (Entry V) → Str
  oldest_from k t [] = k
  oldest_from k t ((j, e) ∷ seq) =
      oldest_from (if ltb e.last_access t then j else k)
        (if ltb e.last_access t then e.last_access else t) seq

  unfoldable pub oldest : Map Str (Entry V) → Option Str
  unfolding oldest_from
  oldest [] = none
  oldest ((k, e) ∷ seq) = some (oldest_from k e.last_access seq)

  -- What is evicted: the oldest of the first entries of the loop. The outer `none` is the panic on a
  -- map that has no entry to evict.
  unfoldable pub victim : Map Str (Entry V) → Map Str (Entry V) → Option (Str × V)
  unfolding oldest
  victim seq entries = elim (oldest (take eviction_sample_size seq)) [
    | none ↦ none
    | some k ↦ elim (get k entries) [ none ↦ none | some e ↦ some (k, e.value) ]
  ]

  abbrev pub insert : ℕ → Str → V → Option (Str × V) → LruMap V → Map Str (Entry V) → Created V
  insert now key v evicted m entries = record {
    after = record m { entries = put key (record { value = v; last_access = now }) entries };
    result = v;
    evicted = evicted;
  }

  unfoldable pub make_room : ℕ → Str → V → Map Str (Entry V) → LruMap V → Option (Created V)
  unfolding victim
  make_room now key v seq m =
      if leb m.max_size (length m.entries)
      then elim (victim seq m.entries) [
        | none ↦ none
        | some (k, old) ↦ some (insert now key v (some (k, old)) m (delete k m.entries))
      ]
      else some (insert now key v none m m.entries)

  -- `v` is what `create()` returns; it is called only on the last branch.
  unfoldable pub create_locked : ℕ → Str → V → Map Str (Entry V) → LruMap V → Option (Created V)
  unfolding make_room touch
  create_locked now key v seq m = elim (get key m.entries) [
    | none ↦ make_room now key v seq m
    | some e ↦ some (record { after = touch now key e m; result = e.value; evicted = none })
  ]

  unfoldable pub peek : Str → LruMap V → Option V
  peek key m = elim (get key m.entries) [ none ↦ none | some e ↦ some e.value ]

  -- The entries that stay, and how many go.
  unfoldable pub sweep_entries : ℕ → Map Str (Entry V) → Map Str (Entry V) × ℕ
  sweep_entries cutoff [] = ([], 0)
  sweep_entries cutoff ((k, e) ∷ m) =
      let (stay, removed) = sweep_entries cutoff m in
      if ltb e.last_access cutoff then (stay, removed + 1) else ((k, e) ∷ stay, removed)

  -- `cutoff` is now - maxAge; before the epoch nothing is older, as with the 0 here.
  unfoldable pub sweep : ℕ → ℕ → LruMap V → LruMap V × ℕ
  unfolding sweep_entries
  sweep now max_age m =
      let (stay, removed) = sweep_entries (now - max_age) m.entries in
      (record m { entries = stay }, removed)

  unfoldable pub delete_key : Str → LruMap V → LruMap V
  delete_key key m = record m { entries = delete key m.entries }

  unfoldable pub len : LruMap V → ℕ
  len m = length m.entries

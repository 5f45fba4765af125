-- ===== src/LruMap/Sweep.antt =====
-- `Sweep` and `Len` of relay/internal/lrumap/lrumap.go.
use pushward_integrations.Prelude.{
  ℕ, ◌+◌, ◌-◌, ◌≡◌, refl, Option, none, some, [], ◌∷◌, arith, ltb, if◌then◌else◌, length, Str,
  Eq_str, str_eq_iff,
}
use pushward_integrations.Prelude.GoMap.{Map, get, Distinct}
use pushward_integrations.LruMap.{Entry, LruMap, sweep_entries, sweep, peek, len}

module _ {ℓ} {V : Type ℓ} where
  length-sweep_entries :
      (cutoff : ℕ) (m : Map Str (Entry V))
      → length (sweep_entries cutoff m).0 + (sweep_entries cutoff m).1 ≡ length m
  unfolding sweep_entries
  length-sweep_entries cutoff [] = omega arith
  length-sweep_entries cutoff ((k, e) ∷ m) = ground (arith, length-sweep_entries cutoff m)

  get-sweep_entries-none :
      (cutoff : ℕ) (k : Str) (m : Map Str (Entry V))
      → get k m ≡ none
      → get k (sweep_entries cutoff m).0 ≡ none
  unfolding sweep_entries get
  get-sweep_entries-none cutoff k [] h = refl
  get-sweep_entries-none cutoff k ((j, e) ∷ m) h = ground (arith, get-sweep_entries-none cutoff k m)

  abbrev pub fresh : ℕ → Option (Entry V) → Option V
  fresh cutoff none = none
  fresh cutoff (some e) = if ltb e.last_access cutoff then none else some e.value

  abbrev value_of : Option (Entry V) → Option V
  value_of none = none
  value_of (some e) = some e.value

  get-sweep_entries :
      (cutoff : ℕ) (k : Str) (m : Map Str (Entry V))
      → Distinct m
      → value_of (get k (sweep_entries cutoff m).0) ≡ fresh cutoff (get k m)
  unfolding sweep_entries get
  get-sweep_entries cutoff k [] d = refl
  get-sweep_entries cutoff k ((j, e) ∷ m) d =
      ground
        (arith, get-sweep_entries cutoff k m d.1, get-sweep_entries-none cutoff k m, str_eq_iff j k)

  -- After `Sweep` a key is there exactly if its entry was accessed at or after the cutoff, with the
  -- value that it had; the result is the number of entries that are gone.
  pub sweep_exact :
      (now max_age : ℕ) (k : Str) (m : LruMap V)
      → Distinct m.entries
      → let (m', removed) = sweep now max_age m in
        (peek k m' ≡ fresh (now - max_age) (get k m.entries)) × (len m' + removed ≡ len m)
  unfolding sweep peek len
  sweep_exact now max_age k m d = (
    ground (arith, get-sweep_entries (now - max_age) k m.entries d),
    length-sweep_entries (now - max_age) m.entries,
  )

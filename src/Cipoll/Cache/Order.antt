-- ===== src/Cipoll/Cache/Order.antt =====
-- The seed cache's order and its entries, shared/cipoll/cache.go: `put`.
use pushward_integrations.Prelude.{
  ℕ, suc, ◌≤◌, ◌<◌, ◌≡◌, refl, ◌⊎◌, inl, inr, Bool, false, not, ◌&&◌, ◌||◌, Bool-cases, none,
  Option-cases, List, [], ◌∷◌, ◌++◌, arith, ltb, ◌==◌, Str, length, keep,
}
use pushward_integrations.Prelude.GoMap as GoMap
use pushward_integrations.Prelude.GoMap.{Map, has, get-delete, get-put_self}
use pushward_integrations.Cipoll.Cache.{
  SeedKey, key_eq, key_eq_iff, Eq_key, copy_shape, SeedEntry, ShapeCache, new_shape_cache, evict,
  insert, drop_key, merged, replace, is_blank, put,
}

abbrev pub mem : SeedKey → List SeedKey → Bool
mem k [] = false
mem k (j ∷ js) = key_eq j k || mem k js

abbrev pub Nodup : List SeedKey → Type 0
Nodup [] = Unit
Nodup (k ∷ ks) = (mem k ks ≡ false) × Nodup ks

mem-snoc :
    (k key : SeedKey) (ks : List SeedKey) → mem k (ks ++ (key ∷ [])) ≡ mem k ks || key_eq key k
mem-snoc k key [] = ground arith
mem-snoc k key (j ∷ ks) = ground (arith, mem-snoc k key ks)

Nodup-snoc :
    (key : SeedKey) (ks : List SeedKey) → Nodup ks → mem key ks ≡ false → Nodup (ks ++ (key ∷ []))
Nodup-snoc key [] d h = (refl, tt)
Nodup-snoc key (j ∷ ks) d h =
    ground (arith, mem-snoc j key ks, key_eq_iff j key, key_eq_iff key j, Nodup-snoc key ks)

pub mem-drop_key :
    (k key : SeedKey) (ks : List SeedKey) → mem k (drop_key key ks) ≡ mem k ks && not (key_eq k key)
unfolding drop_key keep
mem-drop_key k key [] = refl
mem-drop_key k key (j ∷ ks) =
    ground (arith, mem-drop_key k key ks, key_eq_iff j k, key_eq_iff j key, key_eq_iff k key)

Nodup-drop_key : (key : SeedKey) (ks : List SeedKey) → Nodup ks → Nodup (drop_key key ks)
unfolding drop_key keep
Nodup-drop_key key [] d = tt
Nodup-drop_key key (j ∷ ks) d = ground (arith, mem-drop_key j key ks, Nodup-drop_key key ks)

length-drop_key : (key : SeedKey) (ks : List SeedKey) → length (drop_key key ks) ≤ length ks
unfolding drop_key keep
length-drop_key key [] = omega arith
length-drop_key key (j ∷ ks) = ground (arith, length-drop_key key ks)

module _ {W : Type 0} where
  Mirrors : List SeedKey → Map SeedKey (SeedEntry W) → Type 0
  Mirrors ks m = (k : SeedKey) → mem k ks ≡ has k m

  -- Well-formedness: the order lists each stored key once, and no other, and is within the capacity.
  pub record IsValid (c : ShapeCache W) : Type 0 where
    pub distinct : Nodup c.order
    pub mirrors : (k : SeedKey) → mem k c.order ≡ has k c.entries
    pub bounded : length c.order ≤ c.capacity

  evict-order :
      (n : ℕ) (ks : List SeedKey) (m : Map SeedKey (SeedEntry W))
      → Nodup ks
      → Nodup (evict n ks m).1 × (length (evict n ks m).1 ≤ n)
  unfolding evict
  evict-order n [] m d = (tt, omega arith)
  evict-order n (k ∷ ks) m (d, ds) = elim (Bool-cases (ltb n (suc (length ks)))) [
    | inl over ↦ rw over (evict-order n ks (GoMap.delete k m) ds)
    | inr fits ↦ rw fits ((d, ds), ground (arith, fits))
  ]

  evict-Mirrors :
      (n : ℕ) (ks : List SeedKey) (m : Map SeedKey (SeedEntry W))
      → Nodup ks
      → Mirrors ks m
      → Mirrors (evict n ks m).1 (evict n ks m).0
  unfolding evict Mirrors
  evict-Mirrors n [] m d h = h
  evict-Mirrors n (k ∷ ks) m (d, ds) h = elim (Bool-cases (ltb n (suc (length ks)))) [
    | inl over ↦ rw over (
        evict-Mirrors n ks (GoMap.delete k m) ds
          (λ j. ground (arith, d, h j, get-delete k j m, key_eq_iff k j)))
    | inr fits ↦ rw fits h
  ]

  -- Eviction changes no entry: it keeps it or removes it.
  evict-frame :
      (n : ℕ) (ks : List SeedKey) (m : Map SeedKey (SeedEntry W)) (j : SeedKey)
      → (GoMap.get j (evict n ks m).0 ≡ GoMap.get j m) ⊎ (GoMap.get j (evict n ks m).0 ≡ none)
  unfolding evict
  evict-frame n [] m j = inl refl
  evict-frame n (k ∷ ks) m j =
      ground (arith, evict-frame n ks (GoMap.delete k m) j, get-delete k j m)

  pub evict_last :
      (n : ℕ) (ks : List SeedKey) (m : Map SeedKey (SeedEntry W)) (key : SeedKey)
      → 0 < n
      → mem key ks ≡ false
      → GoMap.get key (evict n (ks ++ (key ∷ [])) m).0 ≡ GoMap.get key m
  unfolding evict
  evict_last n [] m key pos h = ground arith
  evict_last n (k ∷ ks) m key pos h =
      ground (arith, evict_last n ks (GoMap.delete k m) key, get-delete k key m)

  insert-IsValid :
      (key : SeedKey) (e : SeedEntry W) (c : ShapeCache W)
      → Nodup c.order
      → mem key c.order ≡ false
      → ((k : SeedKey) → (mem k c.order || key_eq key k) ≡ (has k c.entries || key_eq key k))
      → IsValid (insert key e c)
  unfolding insert Mirrors
  insert-IsValid key e c d h same =
      let stored = GoMap.put key (record e { shape = copy_shape e.shape }) c.entries in
      let d' = Nodup-snoc key c.order d h in
      let (distinct, bounded) = evict-order c.capacity (c.order ++ (key ∷ [])) stored d' in
      record {
        distinct = distinct;
        mirrors = evict-Mirrors c.capacity (c.order ++ (key ∷ [])) stored d' (λ k. ground (
          arith,
          mem-snoc k key c.order,
          GoMap.get-put key k (record e { shape = copy_shape e.shape }) c.entries,
          same k,
        ));
        bounded = bounded;
      }

  replace-IsValid :
      (key : SeedKey) (e : SeedEntry W) (c : ShapeCache W)
      → IsValid c
      → IsValid (replace key (GoMap.get key c.entries) e c)
  unfolding replace
  replace-IsValid key e c ok = elim (Option-cases (GoMap.get key c.entries)) [
    | inl new ↦ rw new (
        insert-IsValid key e c ok.distinct (ground (arith, new, ok.mirrors key))
          (λ k. ground (arith, ok.mirrors k)))
    | inr (prev, old) ↦ elim (Bool-cases (prev.success && not e.success)) [
      | inl worse ↦ rw (old, worse) ok
      | inr fine ↦
          rw (old, fine)
            (insert-IsValid key (merged prev e) (record c { order = drop_key key c.order })
              (Nodup-drop_key key c.order ok.distinct)
              (ground (arith, mem-drop_key key key c.order, key_eq_iff key key))
              (λ k. ground (
                arith,
                mem-drop_key k key c.order,
                ok.mirrors k,
                key_eq_iff key k,
                key_eq_iff k key,
              )))
    ]
  ]

  -- A new cache is well formed and `put` keeps it so, whatever it is given: the cache never holds more
  -- runs than its capacity, and the order and the entries name the same keys.
  pub put-IsValid :
      (capacity : ℕ) (repo workflow ref : Str) (e : SeedEntry W) (c : ShapeCache W)
      → IsValid c
      → IsValid (new_shape_cache {W = W} capacity) × IsValid (put repo workflow ref e c)
  unfolding put new_shape_cache GoMap.get
  put-IsValid capacity repo workflow ref e c ok = (
    record { distinct = tt; mirrors = λ k. refl; bounded = omega arith },
    elim (Bool-cases (is_blank workflow || e.shape.total_steps == 0)) [
      | inl skip ↦ rw skip ok
      | inr real ↦
          rw real (replace-IsValid (record { repo = repo; workflow = workflow; ref = ref }) e c ok)
    ],
  )

-- ===== src/LruMap/Contents.antt =====
-- What a map of relay/internal/lrumap/lrumap.go holds after an access.
use pushward_integrations.Prelude.{
  ℕ, ◌≡◌, ◌≢◌, Option, none, some, arith, length, Str, Eq_str, str_eq_iff, Option-cases, Bool-cases,
  inl, inr, leb,
}
use pushward_integrations.Prelude.GoMap.{Map, get, delete, get-put, get-delete}
use pushward_integrations.LruMap.{
  Entry, LruMap, Created, peek, touch, create_locked, make_room, victim,
}

abbrev pub key_of {ℓ} : {V : Type ℓ} → Option (Str × V) → Option Str
key_of none = none
key_of (some (k, v)) = some k

abbrev pub or_new {ℓ} : {V : Type ℓ} → Option V → V → V
or_new none v = v
or_new (some w) v = w

module _ {ℓ} {V : Type ℓ} where
  -- What an access returned, and what stayed: the statement below, of a given result.
  record Serves (key j : Str) (v : V) (m : LruMap V) (c : Created V) : Type ℓ where
    result : c.result ≡ or_new (peek key m) v
    stored : peek key c.after ≡ some c.result
    others : j ≢ key → key_of c.evicted ≢ some j → peek j c.after ≡ peek j m
    only_new : peek key m ≢ none → c.evicted ≡ none

  create_locked-Serves :
      (now : ℕ) (key j : Str) (v : V) (seq : Map Str (Entry V)) (m : LruMap V) (c : Created V)
      → create_locked now key v seq m ≡ some c
      → Serves key j v m c
  unfolding create_locked make_room peek touch
  create_locked-Serves now key j v seq m c h = elim (Option-cases (get key m.entries)) [
    | inr (e, there) ↦
        let t : Entry V = record e { last_access = now } in
        ground (
          arith,
          there,
          get-put key key t m.entries,
          get-put key j t m.entries,
          str_eq_iff key key,
          str_eq_iff key j,
        )
    | inl miss ↦ elim (Bool-cases (leb m.max_size (length m.entries))) [
      | inr room ↦
          let t : Entry V = record { value = v; last_access = now } in
          ground (
            arith,
            miss,
            room,
            get-put key key t m.entries,
            get-put key j t m.entries,
            str_eq_iff key key,
            str_eq_iff key j,
          )
      | inl full ↦ elim (Option-cases (victim seq m.entries)) [
        | inl empty ↦ absurd (ground (arith, miss, full, empty))
        | inr ((k, old), picked) ↦
            let t : Entry V = record { value = v; last_access = now } in
            let rest = delete k m.entries in
            ground (
              arith,
              miss,
              full,
              picked,
              get-put key key t rest,
              get-put key j t rest,
              get-delete k j m.entries,
              str_eq_iff key key,
              str_eq_iff key j,
              str_eq_iff k j,
            )
      ]
    ]
  ]

  -- The locked section returns the value that the map held for the key, or else the created one, and
  -- the map holds it for the key afterwards. Every other key but the evicted one keeps its value, and
  -- an entry is evicted only if the key was new.
  pub create_locked_contents :
      (now : ℕ) (key j : Str) (v : V) (seq : Map Str (Entry V)) (m : LruMap V) (c : Created V)
      → create_locked now key v seq m ≡ some c
      → (c.result ≡ or_new (peek key m) v)
        × (peek key c.after ≡ some c.result)
        × (j ≢ key → key_of c.evicted ≢ some j → peek j c.after ≡ peek j m)
        × (peek key m ≢ none → c.evicted ≡ none)
  create_locked_contents now key j v seq m c h =
      let s = create_locked-Serves now key j v seq m c h in
      (s.result, s.stored, s.others, s.only_new)

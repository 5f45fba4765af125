-- ===== src/MemoryStore/Points.antt =====
-- Reads after writes of single entries, relay/internal/state/memory.go, for names without NUL bytes.
use pushward_integrations.Prelude.{
  ◌+◌, ◌≤◌, ◌≡◌, ◌≢◌, refl, sym, ap, ◌∙◌, ◌&&◌, none, some, is_some, [], ◌∷◌, arith, ltb, length,
  Str, Eq_str, str_eq_iff, Time, Duration, if◌then◌else◌,
}
use pushward_integrations.Prelude.GoMap.{get, get-put, get-delete, Distinct}
use pushward_integrations.MemoryStore.{
  Name, MemEntry, Store, composite_key, set_entry, get_entry, delete_entry, exists, live, cleanup,
}
use pushward_integrations.MemoryStore.Keys.{IsName, composite_key-injective}

-- For names with no NUL in the provider, the user and the map key: a read of the name that was written
-- gives the value exactly until the time to live is over, and always if there is none, and a read of
-- another name is as before.
pub get-set :
    (now later : Time) (m n : Name) (v : Str) (ttl : Duration) (s : Store)
    → IsName m
    → IsName n
    → (m ≡ n
        → get_entry later n (set_entry now m v ttl s)
          ≡ (if ltb 0 ttl && ltb (now + ttl) later then none else some v))
      × (m ≢ n → get_entry later n (set_entry now m v ttl s) ≡ get_entry later n s)
unfolding get_entry set_entry live
get-set now later m n v ttl s hm hn =
    let other : m ≢ n → composite_key m ≢ composite_key n =
      λ p q. p (composite_key-injective m n hm hn q) in
    let e : MemEntry = record {
      value = v;
      expires_at = if ltb 0 ttl then some (now + ttl) else none;
    } in
    let written = get-put (composite_key m) (composite_key n) e s in
    let same = str_eq_iff (composite_key m) (composite_key n) in
    (
      (λ p. ground (arith, written, same, ap composite_key p)),
      (λ p. ground (arith, written, same, other p)),
    )

-- A deleted entry is not read, and every other one is as before.
pub get-delete_entry :
    (later : Time) (m n : Name) (s : Store)
    → IsName m
    → IsName n
    → (m ≡ n → get_entry later n (delete_entry m s) ≡ none)
      × (m ≢ n → get_entry later n (delete_entry m s) ≡ get_entry later n s)
unfolding get_entry delete_entry live
get-delete_entry later m n s hm hn =
    let other : m ≢ n → composite_key m ≢ composite_key n =
      λ p q. p (composite_key-injective m n hm hn q) in
    let gone = get-delete (composite_key m) (composite_key n) s in
    let same = str_eq_iff (composite_key m) (composite_key n) in
    (
      (λ p. ground (arith, gone, same, ap composite_key p)),
      (λ p. ground (arith, gone, same, other p)),
    )

pub exists-get : (now : Time) (n : Name) (s : Store) → exists now n s ≡ is_some (get_entry now n s)
unfolding exists get_entry
exists-get now n s = ground arith

length-cleanup : (now : Time) (s : Store) → length (cleanup now s).0 + (cleanup now s).1 ≡ length s
unfolding cleanup
length-cleanup now [] = omega arith
length-cleanup now ((k, e) ∷ s) = ground (arith, length-cleanup now s)

cleanup_absent :
    (now : Time) (k : Str) (s : Store) → get k s ≡ none → get k (cleanup now s).0 ≡ none
unfolding cleanup get
cleanup_absent now k [] h = refl
cleanup_absent now k ((j, e) ∷ s) h = ground (arith, cleanup_absent now k s)

live-cleanup :
    (now later : Time) (k : Str) (s : Store)
    → now ≤ later
    → Distinct s
    → live later (get k (cleanup now s).0) ≡ live later (get k s)
unfolding cleanup get live
live-cleanup now later k [] h d = refl
live-cleanup now later k ((j, e) ∷ s) h d =
    ground (arith, live-cleanup now later k s h d.1, cleanup_absent now k s, str_eq_iff j k)

-- `Cleanup` changes no read, then or later; it reports how many entries it removed.
pub cleanup_invisible :
    (now later : Time) (n : Name) (s : Store)
    → now ≤ later
    → Distinct s
    → let (s', count) = cleanup now s in
      (get_entry later n s' ≡ get_entry later n s)
      × (exists later n s' ≡ exists later n s)
      × (length s' + count ≡ length s)
unfolding get_entry
cleanup_invisible now later n s h d =
    let c = live-cleanup now later (composite_key n) s h d in
    (c, exists-get later n _ ∙ (ap is_some c) ∙ sym (exists-get later n s), length-cleanup now s)

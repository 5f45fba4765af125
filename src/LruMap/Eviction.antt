-- ===== src/LruMap/Eviction.antt =====
-- The size bound and the victim of an eviction, relay/internal/lrumap/lrumap.go.
use pushward_integrations.Prelude.{
  ℕ, zero, suc, ◌≤◌, ◌<◌, ◌≡◌, refl, sym, ◌∙◌, ◌⊎◌, inl, inr, true, false, none, some, [], ◌∷◌,
  arith, ltb, leb, length, take, Str, Eq_str, str_eq_iff, Option-cases, Bool-cases,
}
use pushward_integrations.Prelude.GoMap.{
  Map, get, put, delete, has, Distinct, Distinct-put, Distinct-delete, length-put, length-delete,
}
use pushward_integrations.LruMap.{
  Entry, LruMap, Created, IsRange, touch, oldest_from, victim, make_room, insert, create_locked,
  eviction_sample_size,
}

module _ {ℓ} {V : Type ℓ} where
  pub record IsValid (m : LruMap V) : Type ℓ where
    pub positive : 0 < m.max_size
    pub bounded : length m.entries ≤ m.max_size
    pub distinct : Distinct m.entries

  abbrev NotOlder : ℕ → Map Str (Entry V) → Type 0
  NotOlder t [] = Unit
  NotOlder t ((k, e) ∷ seq) = (t ≤ e.last_access) × NotOlder t seq

  NotOlder-trans : (s t : ℕ) (seq : Map Str (Entry V)) → s ≤ t → NotOlder t seq → NotOlder s seq
  NotOlder-trans s t [] h n = tt
  NotOlder-trans s t ((k, e) ∷ seq) h n = (omega arith, NotOlder-trans s t seq h n.1)

  NotOlder-get :
      (t : ℕ) (seq : Map Str (Entry V)) (k : Str) (e : Entry V)
      → NotOlder t seq
      → get k seq ≡ some e
      → t ≤ e.last_access
  unfolding get
  NotOlder-get t [] k e n h = cc
  NotOlder-get t ((j, f) ∷ seq) k e n h = ground (arith, NotOlder-get t seq k e n.1)

  Distinct-skip :
      (k i : Str) (e x : Entry V) (seq : Map Str (Entry V))
      → Distinct ((k, e) ∷ (i, x) ∷ seq)
      → Distinct ((k, e) ∷ seq) × Distinct ((i, x) ∷ seq)
  unfolding get
  Distinct-skip k i e x seq d = ground (arith, str_eq_iff i k)

  get-skip :
      (k i r : Str) (e x f : Entry V) (seq : Map Str (Entry V))
      → Distinct ((k, e) ∷ (i, x) ∷ seq)
      → (get r ((i, x) ∷ seq) ≡ some f → get r ((k, e) ∷ (i, x) ∷ seq) ≡ some f)
        × (get r ((k, e) ∷ seq) ≡ some f → get r ((k, e) ∷ (i, x) ∷ seq) ≡ some f)
  unfolding get
  get-skip k i r e x f seq d = ground (arith, str_eq_iff k r, str_eq_iff i r, str_eq_iff i k)

  get-head : (k : Str) (x : Entry V) (seq : Map Str (Entry V)) → get k ((k, x) ∷ seq) ≡ some x
  unfolding get
  get-head k x seq = ground (arith, str_eq_iff k k)

  oldest_from_older :
      (k i : Str) (t : ℕ) (y : Entry V) (seq : Map Str (Entry V))
      → ltb y.last_access t ≡ true
      → oldest_from k t ((i, y) ∷ seq) ≡ oldest_from i y.last_access seq
  unfolding oldest_from
  oldest_from_older k i t y seq h = rw h refl

  oldest_from_newer :
      (k i : Str) (t : ℕ) (y : Entry V) (seq : Map Str (Entry V))
      → ltb y.last_access t ≡ false
      → oldest_from k t ((i, y) ∷ seq) ≡ oldest_from k t seq
  unfolding oldest_from
  oldest_from_newer k i t y seq h = rw h refl

  oldest_from_one :
      (k : Str) (x : Entry V) → get (oldest_from {V = V} k x.last_access []) ((k, x) ∷ []) ≡ some x
  unfolding oldest_from
  oldest_from_one k x = get-head k x []

  -- The oldest of a sequence stands in it, and nothing in it is older.
  oldest_from-oldest :
      (k : Str) (x : Entry V) (seq : Map Str (Entry V))
      → Distinct ((k, x) ∷ seq)
      → (e : Entry V) × (get (oldest_from k x.last_access seq) ((k, x) ∷ seq) ≡ some e)
        × NotOlder e.last_access ((k, x) ∷ seq)
  oldest_from-oldest k x [] d = (x, oldest_from_one k x, (omega arith, tt))
  oldest_from-oldest k x ((i, y) ∷ seq) d = elim (Bool-cases (ltb y.last_access x.last_access)) [
    | inl older ↦
        let (e, found, n) = oldest_from-oldest i y seq (Distinct-skip k i x y seq d).1 in
        (
          e,
          rw (oldest_from_older k i x.last_access y seq older)
              ((get-skip k i _ x y e seq d).0 found),
          (ground arith, n),
        )
    | inr newer ↦
        let (e, found, n) = oldest_from-oldest k x seq (Distinct-skip k i x y seq d).0 in
        (
          e,
          rw (oldest_from_newer k i x.last_access y seq newer)
              ((get-skip k i _ x y e seq d).1 found),
          (n.0, (ground arith, n.1)),
        )
  ]

  Distinct-take :
      (n : ℕ) (k : Str) (seq : Map Str (Entry V)) → get k seq ≡ none → get k (take n seq) ≡ none
  unfolding get
  Distinct-take zero k seq h = refl
  Distinct-take (suc n) k [] h = refl
  Distinct-take (suc n) k ((i, y) ∷ seq) h = ground (arith, Distinct-take n k seq)

  take-Distinct : (n : ℕ) (seq : Map Str (Entry V)) → Distinct seq → Distinct (take n seq)
  take-Distinct zero seq d = tt
  take-Distinct (suc n) [] d = tt
  take-Distinct (suc n) ((i, y) ∷ seq) d = (Distinct-take n i seq d.0, take-Distinct n seq d.1)

  get-take :
      (n : ℕ) (k : Str) (e : Entry V) (seq : Map Str (Entry V))
      → get k (take n seq) ≡ some e
      → get k seq ≡ some e
  unfolding get
  get-take zero k e seq h = cc
  get-take (suc n) k e [] h = cc
  get-take (suc n) k e ((i, y) ∷ seq) h = ground (arith, get-take n k e seq)

  victim_of :
      (k : Str) (x : Entry V) (seq m : Map Str (Entry V)) (e : Entry V)
      → get (oldest_from k x.last_access (take 7 seq)) m ≡ some e
      → victim ((k, x) ∷ seq) m ≡ some (oldest_from k x.last_access (take 7 seq), e.value)
  unfolding victim
  victim_of k x seq m e h = rw (h, victim) refl

  -- A range over a map that is not empty gives a victim: an entry of the map, with its value, and
  -- nothing among the sampled entries is older.
  pub victim-oldest :
      (m seq : Map Str (Entry V))
      → IsRange m seq
      → 0 < length m
      → (k : Str) × (e : Entry V) × (victim seq m ≡ some (k, e.value))
        × (get k m ≡ some e)
        × ((j : Str) (f : Entry V)
            → get j (take eviction_sample_size seq) ≡ some f
            → e.last_access ≤ f.last_access)
  victim-oldest m [] r h = absurd (omega (arith, r.size))
  victim-oldest m ((k, x) ∷ seq) r h =
      let s = take 7 seq in
      let (e, found, n) = oldest_from-oldest k x s (take-Distinct 8 ((k, x) ∷ seq) r.distinct) in
      let there =
        sym (r.same (oldest_from k x.last_access s)) ∙ get-take 8 _ e ((k, x) ∷ seq) found in
      (
        oldest_from k x.last_access s,
        e,
        victim_of k x seq m e there,
        there,
        λ j f g. NotOlder-get e.last_access ((k, x) ∷ s) j f n g,
      )

  IsValid-put :
      (k : Str) (e : Entry V) (m : LruMap V) (entries : Map Str (Entry V))
      → 0 < m.max_size
      → Distinct entries
      → (length entries < m.max_size) ⊎ ((length entries ≤ m.max_size) × (has k entries ≡ true))
      → IsValid (record m { entries = put k e entries })
  IsValid-put k e m entries p d (inl b) = record {
    positive = p;
    bounded = ground (arith, length-put k e entries);
    distinct = Distinct-put k e entries d;
  }
  IsValid-put k e m entries p d (inr (b, h)) = record {
    positive = p;
    bounded = ground (arith, length-put k e entries);
    distinct = Distinct-put k e entries d;
  }

  make_room-IsValid :
      (now : ℕ) (key : Str) (v : V) (seq : Map Str (Entry V)) (m : LruMap V)
      → IsValid m
      → IsRange m.entries seq
      → (c : Created V) × (make_room now key v seq m ≡ some c)
        × IsValid c.after
        × (c.after.max_size ≡ m.max_size)
  unfolding make_room
  make_room-IsValid now key v seq m ok r = elim (Bool-cases (leb m.max_size (length m.entries))) [
    | inl full ↦
        let (k, e, picked, there, _) = victim-oldest m.entries seq r (ground arith) in
        let smaller = length-delete k e m.entries ok.distinct there in
        (
          insert now key v (some (k, e.value)) m (delete k m.entries),
          rw (full, make_room) (rw picked refl),
          IsValid-put key _ m (delete k m.entries) ok.positive
              (Distinct-delete k m.entries ok.distinct) (inl (omega (arith, smaller, ok.bounded))),
          refl,
        )
    | inr room ↦ (
      insert now key v none m m.entries,
      rw (room, make_room) refl,
      IsValid-put key _ m m.entries ok.positive ok.distinct (inl (ground arith)),
      refl,
    )
  ]

  -- On a valid map and with any order of the range loop, `GetOrCreate`'s locked section does not
  -- panic, and the map it leaves is valid: never more entries than `maxSize`.
  pub create_locked-IsValid :
      (now : ℕ) (key : Str) (v : V) (seq : Map Str (Entry V)) (m : LruMap V)
      → IsValid m
      → IsRange m.entries seq
      → (c : Created V) × (create_locked now key v seq m ≡ some c)
        × IsValid c.after
        × (c.after.max_size ≡ m.max_size)
  unfolding create_locked
  create_locked-IsValid now key v seq m ok r = elim (Option-cases (get key m.entries)) [
    | inl miss ↦ rw (miss, create_locked) (make_room-IsValid now key v seq m ok r)
    | inr (e, there) ↦ (
      record { after = touch now key e m; result = e.value; evicted = none },
      rw (there, create_locked) refl,
      unfold touch in
          IsValid-put key _ m m.entries ok.positive ok.distinct (inr (ok.bounded, rw there refl)),
      unfold touch in refl,
    )
  ]

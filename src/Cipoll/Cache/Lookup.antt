-- ===== src/Cipoll/Cache/Lookup.antt =====
-- The lookup of the seed cache, shared/cipoll/cache.go: `get`.
use pushward_integrations.Prelude.{
  ◌≡◌, refl, ap, ◌∙◌, Bool, true, false, ◌&&◌, Option, none, some, List, [], ◌∷◌, arith,
  if◌then◌else◌, Str, str_eq,
}
use pushward_integrations.Prelude.GoMap as GoMap
use pushward_integrations.Prelude.GoMap.{Map}
use pushward_integrations.Cipoll.Cache.{
  SeedKey, Eq_key, SeedMatch, miss, same_ref, any_ref, SeedEntry, ShapeCache, Search, get, walk,
  visit, same_or_walk, or_zero, zero_entry,
}

-- The last key of a list that passes the test.
abbrev pub newest : (SeedKey → Bool) → List SeedKey → Option SeedKey
newest p [] = none
newest p (k ∷ ks) = elim (newest p ks) [ none ↦ if p k then some k else none | some j ↦ some j ]

abbrev pub theirs : Str → Str → SeedKey → Bool
theirs repo workflow k = str_eq k.repo repo && str_eq k.workflow workflow

module _ {W : Type 0} where
  abbrev pub won : Map SeedKey (SeedEntry W) → SeedKey → Bool
  won m k = (or_zero (GoMap.get k m)).success

  -- The newest success, else the newest run, else a miss.
  abbrev pick : Map SeedKey (SeedEntry W) → Option SeedKey → Option SeedKey → Search W
  pick m (some k) last = record {
    found = or_zero (GoMap.get k m);
    match_of = any_ref;
    returned = true;
  }
  pick m none (some k) = record {
    found = or_zero (GoMap.get k m);
    match_of = any_ref;
    returned = false;
  }
  pick m none none = record { found = zero_entry; match_of = miss; returned = false }

  abbrev pub answer :
      Map SeedKey (SeedEntry W)
      → Option (SeedEntry W)
      → Option SeedKey
      → Option SeedKey
      → SeedEntry W × SeedMatch
  answer m (some own) best last = (own, same_ref)
  answer m none (some k) last = (or_zero (GoMap.get k m), any_ref)
  answer m none none (some k) = (or_zero (GoMap.get k m), any_ref)
  answer m none none none = (zero_entry, miss)

  module _ (repo workflow : Str) (m : Map SeedKey (SeedEntry W)) where
    abbrev good : SeedKey → Bool
    good k = theirs repo workflow k && won m k

    visit-pick :
        (k : SeedKey) (best last : Option SeedKey)
        → visit repo workflow m k (pick m best last)
          ≡ pick m
              (elim best [ none ↦ if good k then some k else none | some j ↦ some j ])
              (elim last [
                | none ↦ if theirs repo workflow k then some k else none
                | some j ↦ some j
              ])
    unfolding visit
    visit-pick k (some j) last = refl
    visit-pick k none none = ground arith
    visit-pick k none (some j) = ground arith

    walk-pick :
        (ks : List SeedKey)
        → walk repo workflow m ks ≡ pick m (newest good ks) (newest (theirs repo workflow) ks)
    unfolding walk
    walk-pick [] = refl
    walk-pick (k ∷ ks) =
        ap (visit repo workflow m k) (walk-pick ks)
        ∙ visit-pick k (newest good ks) (newest (theirs repo workflow) ks)

  answer-pick :
      (m : Map SeedKey (SeedEntry W)) (own : Option (SeedEntry W)) (best last : Option SeedKey)
      → same_or_walk own (pick m best last) ≡ answer m own best last
  answer-pick m (some e) best last = refl
  answer-pick m none (some k) last = refl
  answer-pick m none none (some k) = refl
  answer-pick m none none none = refl

  -- A lookup returns the run stored for its own ref; without one, the newest success of the repo and
  -- workflow on any ref; without one, their newest run; and a miss where they have none. Newest is last
  -- in the order.
  pub get-newest :
      (repo workflow ref : Str) (c : ShapeCache W)
      → get repo workflow ref c
        ≡ answer c.entries
            (GoMap.get (record { repo = repo; workflow = workflow; ref = ref }) c.entries)
            (newest (λ k. theirs repo workflow k && won c.entries k) c.order)
            (newest (theirs repo workflow) c.order)
  unfolding get
  get-newest repo workflow ref c =
      let own = GoMap.get (record { repo = repo; workflow = workflow; ref = ref }) c.entries in
      let best = newest (good repo workflow c.entries) c.order in
      let last = newest (theirs repo workflow) c.order in
      ap (same_or_walk own) (walk-pick repo workflow c.entries c.order)
      ∙ answer-pick c.entries own best last

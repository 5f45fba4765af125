-- ===== src/Cipoll/Cache/Stored.antt =====
-- What the seed cache holds of a run that is offered to it, shared/cipoll/cache.go: `put` and its guards.
use pushward_integrations.Prelude.{
  ◌<◌, ◌≡◌, ◌≢◌, refl, ap, ◌∙◌, ◌⊎◌, ◌↔◌, inl, inr, true, false, not, ◌&&◌, ◌||◌, Bool-cases,
  Option, none, some, Option-cases, List, [], ◌∷◌, arith, ◌==◌, if◌then◌else◌, Str, str_eq_iff,
  Eq_str,
}
use pushward_integrations.Prelude.GoMap as GoMap
use pushward_integrations.Prelude.GoMap.{Map, get-put_self}
use pushward_integrations.Cipoll.Cache.{
  SeedKey, key_eq_iff, Eq_key, same_ref, copy_shape, labels_eq, SeedEntry, ShapeCache, insert,
  drop_key, copy_into, merge_weights, merged, replace, is_blank, put, get, walk, same_or_walk,
}
use pushward_integrations.Cipoll.Cache.Order.{mem, IsValid, mem-drop_key, evict_last}

labels_eq_iff : (as' bs : List Str) → (labels_eq as' bs ≡ true) ↔ (as' ≡ bs)
unfolding labels_eq
labels_eq_iff [] [] = ground arith
labels_eq_iff [] (b ∷ bs) = ground arith
labels_eq_iff (a ∷ as') [] = ground arith
labels_eq_iff (a ∷ as') (b ∷ bs) = ground (arith, str_eq_iff a b, labels_eq_iff as' bs)

module _ {W : Type 0} where
  -- The weight of a name; a nil map has none.
  abbrev pub weight_in : Str → Option (Map Str W) → Option W
  weight_in name none = none
  weight_in name (some m) = GoMap.get name m

  -- The first, and the second where there is no first.
  abbrev pub or_old : Option W → Option W → Option W
  or_old none old = old
  or_old (some x) old = some x

  -- The entry is that of the run that was offered, but for the weights.
  pub record IsOfRun (e e' : SeedEntry W) : Type 0 where
    pub steps : e'.shape.total_steps ≡ e.shape.total_steps
    pub rows : e'.shape.step_rows ≡ e.shape.step_rows
    pub labels : e'.shape.step_labels ≡ e.shape.step_labels
    pub colors : e'.shape.step_colors ≡ e.shape.step_colors
    pub lasting : e'.duration ≡ e.duration
    pub named : e'.run_id ≡ e.run_id
    pub passed : e'.success ≡ e.success

  -- What is held after a run `e` is offered where `held` was: the stored success against a failure; else
  -- the run, with its own weights if the labels differ, and with the stored ones for the names that it did
  -- not measure if they are equal.
  abbrev pub IsHeld : Option (SeedEntry W) → SeedEntry W → SeedEntry W → Type 0
  IsHeld none e e' = IsOfRun e e' × (e'.weights ≡ e.weights)
  IsHeld (some prev) e e' =
      ((prev.success ≡ true) × (e.success ≡ false) × (e' ≡ prev))
      ⊎ (((prev.success ≡ false) ⊎ (e.success ≡ true))
          × IsOfRun e e'
          × (((prev.shape.step_labels ≢ e.shape.step_labels) × (e'.weights ≡ e.weights))
              ⊎ ((prev.shape.step_labels ≡ e.shape.step_labels)
                  × ((name : Str)
                      → weight_in name e'.weights
                        ≡ or_old (weight_in name e.weights) (weight_in name prev.weights)))))

  get-copy_into :
      (name : Str) (dst src : Map Str W)
      → GoMap.get name (copy_into dst src) ≡ or_old (GoMap.get name src) (GoMap.get name dst)
  unfolding copy_into GoMap.get
  get-copy_into name dst [] = refl
  get-copy_into name dst ((k, w) ∷ src) = ground (
    arith,
    GoMap.get-put k name w (copy_into dst src),
    get-copy_into name dst src,
    str_eq_iff k name,
  )

  weight_in-merge_weights :
      (name : Str) (fresh prev : Option (Map Str W))
      → weight_in name (merge_weights fresh prev)
        ≡ or_old (weight_in name fresh) (weight_in name prev)
  unfolding merge_weights
  weight_in-merge_weights name none none = refl
  weight_in-merge_weights name (some fresh) none = ground arith
  weight_in-merge_weights name none (some prev) = refl
  weight_in-merge_weights name (some fresh) (some prev) = get-copy_into name prev fresh

  abbrev winner : Option (SeedEntry W) → SeedEntry W → SeedEntry W
  winner none e = record e { shape = copy_shape e.shape }
  winner (some prev) e =
      if prev.success && not e.success
      then prev
      else record (merged prev e) { shape = copy_shape (merged prev e).shape }

  get-insert :
      (key : SeedKey) (e : SeedEntry W) (c : ShapeCache W)
      → 0 < c.capacity
      → mem key c.order ≡ false
      → GoMap.get key (insert key e c).entries ≡ some (record e { shape = copy_shape e.shape })
  unfolding insert
  get-insert key e c pos h =
      let e' : SeedEntry W = record e { shape = copy_shape e.shape } in
      evict_last c.capacity c.order (GoMap.put key e' c.entries) key pos h
      ∙ get-put_self key e' c.entries

  get-replace :
      (key : SeedKey) (e : SeedEntry W) (c : ShapeCache W)
      → IsValid c
      → 0 < c.capacity
      → GoMap.get key (replace key (GoMap.get key c.entries) e c).entries
        ≡ some (winner (GoMap.get key c.entries) e)
  unfolding replace
  get-replace key e c ok pos = elim (Option-cases (GoMap.get key c.entries)) [
    | inl new ↦ rw new (get-insert key e c pos (ground (arith, new, ok.mirrors key)))
    | inr (prev, old) ↦ elim (Bool-cases (prev.success && not e.success)) [
      | inl worse ↦ rw (old, worse) old
      | inr fine ↦
          rw (old, fine)
            (get-insert key (merged prev e) (record c { order = drop_key key c.order }) pos
              (ground (arith, mem-drop_key key key c.order, key_eq_iff key key)))
    ]
  ]

  fresh-IsOfRun :
      (e : SeedEntry W) (ws : Option (Map Str W))
      → IsOfRun e (record e { shape = copy_shape e.shape; weights = ws })
  unfolding copy_shape
  fresh-IsOfRun e ws = record {
    steps = refl;
    rows = refl;
    labels = refl;
    colors = refl;
    lasting = refl;
    named = refl;
    passed = refl;
  }

  winner-IsHeld : (held : Option (SeedEntry W)) (e : SeedEntry W) → IsHeld held e (winner held e)
  unfolding merged
  winner-IsHeld none e = (fresh-IsOfRun e e.weights, refl)
  winner-IsHeld (some prev) e = elim (Bool-cases (prev.success && not e.success)) [
    | inl worse ↦ rw worse (inl (ground (arith, worse), ground (arith, worse), refl))
    | inr fine ↦
        let won : (prev.success ≡ false) ⊎ (e.success ≡ true) = ground (arith, fine) in
        let iff = labels_eq_iff prev.shape.step_labels e.shape.step_labels in
        elim (Bool-cases (labels_eq prev.shape.step_labels e.shape.step_labels)) [
          | inl same ↦
              rw (fine, same)
                (inr (
                  won,
                  fresh-IsOfRun e (merge_weights e.weights prev.weights),
                  inr (
                    ground (arith, same, iff),
                    λ name. weight_in-merge_weights name e.weights prev.weights,
                  ),
                ))
          | inr differ ↦
              rw (fine, differ)
                (inr (won, fresh-IsOfRun e e.weights, inl (ground (arith, differ, iff), refl)))
        ]
  ]

  -- A run of a named workflow with at least one step, offered to a well-formed cache of positive
  -- capacity, decides what a lookup on its own ref then returns: the stored run as it was, if that is a
  -- success and the new one is not; else the new run's shape, duration, number and success. Its weights
  -- are then its own if there was no stored run or one with other labels, and against a stored run with the
  -- same labels every name has the new weight, or the stored one where the new run did not measure it.
  pub get-put :
      (repo workflow ref : Str) (e : SeedEntry W) (c : ShapeCache W)
      → IsValid c
      → 0 < c.capacity
      → workflow ≢ []
      → e.shape.total_steps ≢ 0
      → (e' : SeedEntry W) × (get repo workflow ref (put repo workflow ref e c) ≡ (e', same_ref))
        × IsHeld (GoMap.get (record { repo = repo; workflow = workflow; ref = ref }) c.entries) e e'
  unfolding get put
  get-put repo workflow ref e c ok pos named real =
      let key : SeedKey = record { repo = repo; workflow = workflow; ref = ref } in
      let skip : (is_blank workflow || e.shape.total_steps == 0) ≡ false =
        ground (arith, named, real) in
      let after = replace key (GoMap.get key c.entries) e c in
      (
        winner (GoMap.get key c.entries) e,
        rw skip (
            ap (λ o. same_or_walk o (walk repo workflow after.entries after.order))
              (get-replace key e c ok pos)),
        winner-IsHeld (GoMap.get key c.entries) e,
      )

-- ===== src/Cipoll/Cache.antt =====
-- `shapeCache` of shared/cipoll/cache.go. `W` is float64, which the cache stores and does not compute
-- with; a nil map of weights is `none`. The caller's slices are values here, so that the copies that
-- `copyShape` makes of them are the lists themselves.
pub mod Order
pub mod Lookup
pub mod Stored
use pushward_integrations.Prelude.{
  ℕ, zero, suc, ◌≤◌, ◌<◌, Bool, true, false, not, ◌&&◌, ◌||◌, Option, none, some, List, [], ◌∷◌,
  ◌++◌, ltb, ◌==◌, if◌then◌else◌, Str, str_eq, Eq, Eq_str, str_eq_iff, ◌≡◌, ◌↔◌, arith, length,
  keep, Duration,
}
use pushward_integrations.Prelude.GoMap as GoMap
use pushward_integrations.Prelude.GoMap.{Map}
use pushward_integrations.Ci.Steps.{StepInfo}

pub record SeedKey : Type 0 where
  pub repo : Str
  pub workflow : Str
  pub ref : Str

abbrev pub key_eq : SeedKey → SeedKey → Bool
key_eq a b = str_eq a.repo b.repo && str_eq a.workflow b.workflow && str_eq a.ref b.ref

pub key_eq_iff : (a b : SeedKey) → (key_eq a b ≡ true) ↔ (a ≡ b)
key_eq_iff a b =
    ground
      (arith, str_eq_iff a.repo b.repo, str_eq_iff a.workflow b.workflow, str_eq_iff a.ref b.ref)

instance abbrev pub Eq_key : Eq SeedKey
Eq_key = record { beq = key_eq; beq_iff = key_eq_iff }

pub data SeedMatch : Type 0 where
  miss same_ref any_ref : SeedMatch

abbrev pub is_miss : SeedMatch → Bool
is_miss miss = true
is_miss _ = false

abbrev pub zero_shape : StepInfo
zero_shape = record {
  total_steps = 0;
  current_step = 0;
  current_step_name = [];
  step_rows = [];
  step_labels = [];
  step_colors = [];
  current_step_started_at = 0;
  all_completed = false;
  any_failed = false;
  progress = (0, 0);
}

unfoldable pub copy_shape : StepInfo → StepInfo
copy_shape s = record zero_shape {
  total_steps = s.total_steps;
  step_rows = s.step_rows;
  step_labels = s.step_labels;
  step_colors = s.step_colors;
}

unfoldable pub labels_eq : List Str → List Str → Bool
labels_eq [] [] = true
labels_eq (a ∷ as') (b ∷ bs) = str_eq a b && labels_eq as' bs
labels_eq _ _ = false

-- `slices.DeleteFunc(c.order, …)`
unfoldable pub drop_key : SeedKey → List SeedKey → List SeedKey
unfolding keep
drop_key key ks = keep (λ k. not (key_eq k key)) ks

abbrev pub is_blank : Str → Bool
is_blank [] = true
is_blank (a ∷ s) = false

module _ (W : Type 0) where
  pub record SeedEntry : Type 0 where
    pub shape : StepInfo
    pub weights : Option (Map Str W)
    pub duration : Duration
    pub run_id : ℕ
    pub success : Bool

  pub record ShapeCache : Type 0 where
    pub entries : Map SeedKey SeedEntry
    pub order : List SeedKey
    pub capacity : ℕ

  -- The any-ref scan: what it has found, and whether it has returned.
  pub record Search : Type 0 where
    pub found : SeedEntry
    pub match_of : SeedMatch
    pub returned : Bool

module _ {W : Type 0} where
  -- `maps.Copy(dst, src)`
  unfoldable pub copy_into : Map Str W → Map Str W → Map Str W
  copy_into dst [] = dst
  copy_into dst ((k, w) ∷ src) = GoMap.put k w (copy_into dst src)

  unfoldable pub merge_weights : Option (Map Str W) → Option (Map Str W) → Option (Map Str W)
  unfolding copy_into
  merge_weights fresh none = fresh
  merge_weights none (some prev) = some prev
  merge_weights (some fresh) (some prev) = some (copy_into prev fresh)

  unfoldable pub new_shape_cache : ℕ → ShapeCache W
  new_shape_cache capacity = record { entries = []; order = []; capacity = capacity }

  -- `for len(c.order) > c.capacity { delete the oldest }`
  unfoldable pub evict :
      ℕ → List SeedKey → Map SeedKey (SeedEntry W) → Map SeedKey (SeedEntry W) × List SeedKey
  evict capacity [] entries = (entries, [])
  evict capacity (k ∷ ks) entries =
      let rest = evict capacity ks (GoMap.delete k entries) in
      if ltb capacity (suc (length ks)) then rest else (entries, k ∷ ks)

  unfoldable pub insert : SeedKey → SeedEntry W → ShapeCache W → ShapeCache W
  unfolding evict
  insert key e c =
      let stored = GoMap.put key (record e { shape = copy_shape e.shape }) c.entries in
      let (entries, order) = evict c.capacity (c.order ++ (key ∷ [])) stored in
      record c { entries = entries; order = order }

  unfoldable pub merged : SeedEntry W → SeedEntry W → SeedEntry W
  unfolding labels_eq merge_weights
  merged prev e =
      if labels_eq prev.shape.step_labels e.shape.step_labels
      then record e { weights = merge_weights e.weights prev.weights }
      else e

  unfoldable pub replace :
      SeedKey → Option (SeedEntry W) → SeedEntry W → ShapeCache W → ShapeCache W
  unfolding insert drop_key merged
  replace key none e c = insert key e c
  replace key (some prev) e c =
      if prev.success && not e.success
      then c
      else insert key (merged prev e) (record c { order = drop_key key c.order })

  unfoldable pub put : Str → Str → Str → SeedEntry W → ShapeCache W → ShapeCache W
  unfolding replace
  put repo workflow ref e c =
      let key : SeedKey = record { repo = repo; workflow = workflow; ref = ref } in
      if is_blank workflow || e.shape.total_steps == 0
      then c
      else replace key (GoMap.get key c.entries) e c

  abbrev pub zero_entry : SeedEntry W
  zero_entry = record {
    shape = zero_shape;
    weights = none;
    duration = 0;
    run_id = 0;
    success = false;
  }

  abbrev pub or_zero : Option (SeedEntry W) → SeedEntry W
  or_zero none = zero_entry
  or_zero (some e) = e

  unfoldable pub visit : Str → Str → Map SeedKey (SeedEntry W) → SeedKey → Search W → Search W
  visit repo workflow entries k st =
      let entry = or_zero (GoMap.get k entries) in
      if st.returned || not (str_eq k.repo repo) || not (str_eq k.workflow workflow)
      then st
      else if entry.success
      then record { found = entry; match_of = any_ref; returned = true }
      else if is_miss st.match_of
      then record { found = entry; match_of = any_ref; returned = false }
      else st

  -- The scan walks the order from its end: the keys behind a key are visited before it.
  unfoldable pub walk : Str → Str → Map SeedKey (SeedEntry W) → List SeedKey → Search W
  unfolding visit
  walk repo workflow entries [] = record { found = zero_entry; match_of = miss; returned = false }
  walk repo workflow entries (k ∷ ks) =
      visit repo workflow entries k (walk repo workflow entries ks)

  abbrev pub same_or_walk : Option (SeedEntry W) → Search W → SeedEntry W × SeedMatch
  same_or_walk (some entry) st = (entry, same_ref)
  same_or_walk none st = (st.found, st.match_of)

  unfoldable pub get : Str → Str → Str → ShapeCache W → SeedEntry W × SeedMatch
  unfolding walk
  get repo workflow ref c =
      same_or_walk (GoMap.get (record { repo = repo; workflow = workflow; ref = ref }) c.entries)
        (walk repo workflow c.entries c.order)

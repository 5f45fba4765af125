-- ===== src/Tests/CipollCases.antt =====
-- The CI poller at concrete inputs: the closed attempt, the seed cache, discovery and the pacing.
use pushward_integrations.Prelude.{
  ℕ, ◌≡◌, refl, Bool, true, false, ◌&&◌, ◌||◌, [], ◌∷◌, arith, none, some, Str, Eq_str, length,
  ◌==◌, if◌then◌else◌,
}
use pushward_integrations.Prelude.GoMap as GoMap
use pushward_integrations.Prelude.GoMap.{Map}
use pushward_integrations.Cipoll.Cache.{
  Eq_key, SeedEntry, ShapeCache, new_shape_cache, put, get, zero_entry, zero_shape, same_ref,
}
use pushward_integrations.Cipoll.Cache.Order.{IsValid, put-IsValid}
use pushward_integrations.Cipoll.Cache.Stored.{IsHeld, get-put}
use pushward_integrations.Cipoll.Cache.Lookup.{newest, theirs, won, answer, get-newest}
use pushward_integrations.Cipoll.Pacing as Pacing
use pushward_integrations.Cipoll.Pacing.{Options, Poller, claim_idle_pass, discover, failed}
use pushward_integrations.Cipoll.Pacing.Discovery.{Nodup, discover_lem}
use pushward_integrations.Tests.CiCases.{build, check}

-- A cache of one, and runs of two workflows.
abbrev finished : ℕ → Bool → SeedEntry ℕ
finished n ok = record zero_entry {
  shape = record zero_shape { total_steps = 1; step_labels = build ∷ [] };
  run_id = n;
  success = ok;
}

abbrev small : ShapeCache ℕ
small = put build build build (finished 1 true) (new_shape_cache 1)

empty-IsValid : IsValid {W = ℕ} (new_shape_cache 1)
unfolding new_shape_cache GoMap.get
empty-IsValid = record { distinct = tt; mirrors = λ k. refl; bounded = omega arith }

put-IsValid_example :
    IsValid (new_shape_cache {W = ℕ} 1)
    × IsValid (put build build build (finished 1 true) (new_shape_cache 1))
put-IsValid_example =
    put-IsValid 1 build build build (finished 1 true) (new_shape_cache 1) empty-IsValid

get-put_example :
    (e' : SeedEntry ℕ) × (get build check check
        (put build check check (finished 2 false) (new_shape_cache 1))
      ≡ (e', same_ref))
    × IsHeld
        (GoMap.get
          (record { repo = build; workflow = check; ref = check })
          (new_shape_cache {W = ℕ} 1).entries)
        (finished 2 false)
        e'
unfolding new_shape_cache
get-put_example =
    get-put build check check (finished 2 false) (new_shape_cache 1) empty-IsValid (omega arith)
      (ground arith) (ground arith)

get-newest_example :
    get build build check small
    ≡ answer small.entries
        (GoMap.get (record { repo = build; workflow = build; ref = check }) small.entries)
        (newest (λ k. theirs build build k && won small.entries k) small.order)
        (newest (theirs build build) small.order)
get-newest_example = get-newest build build check small

abbrev options : Options
options = record { owner = build; repos = build ∷ []; interval = 10; idle_interval = 60 }

abbrev poller : Poller ℕ
poller = record {
  tracked = (build, 1) ∷ [];
  repos = build ∷ check ∷ [];
  last_refresh = 0;
  last_idle = 100;
  was_paced = false;
  last_ended = [];
}

discover_lem_example :
    let p' = (discover options 5 (some (check ∷ check ∷ [])) poller).1 in
    Nodup p'.repos
    × ((x : Str)
        → Pacing.member x p'.repos
          ≡ (Pacing.member x (check ∷ check ∷ []) || Pacing.member x options.repos))
    × ((x : Str)
        → GoMap.get x p'.last_ended ≡ (
            if Pacing.member x p'.repos || length p'.repos == length poller.repos
            then GoMap.get x poller.last_ended
            else none))
    × (discover options 5 none poller ≡ (failed, poller))
discover_lem_example = discover_lem options 5 (check ∷ check ∷ []) poller

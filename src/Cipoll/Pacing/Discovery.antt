-- ===== src/Cipoll/Pacing/Discovery.antt =====
-- Discovery, shared/cipoll/poller.go: `refreshRepos`.
use pushward_integrations.Prelude.{
  ◌≡◌, refl, false, ◌||◌, Bool-cases, inl, inr, none, some, List, [], ◌∷◌, ◌++◌, arith, Str, str_eq,
  str_eq_iff, Eq_str, Time, length, if◌then◌else◌, ◌==◌,
}
use pushward_integrations.Prelude.GoMap.{Map, get}
use pushward_integrations.Cipoll.Ended.{EndedRun}
use pushward_integrations.Cipoll.Pacing.{
  Options, Poller, member, merge_repos, prune, install, discover, failed,
}

abbrev pub Nodup : List Str → Type 0
Nodup [] = Unit
Nodup (r ∷ rs) = (member r rs ≡ false) × Nodup rs

member-snoc : (r s : Str) (rs : List Str) → member r (rs ++ (s ∷ [])) ≡ member r rs || str_eq s r
member-snoc r s [] = ground arith
member-snoc r s (t ∷ rs) = ground (arith, member-snoc r s rs)

Nodup-snoc : (s : Str) (rs : List Str) → Nodup rs → member s rs ≡ false → Nodup (rs ++ (s ∷ []))
Nodup-snoc s [] d h = (refl, tt)
Nodup-snoc s (t ∷ rs) d h =
    ground (arith, member-snoc t s rs, str_eq_iff t s, str_eq_iff s t, Nodup-snoc s rs)

Nodup-merge_repos : (merged rs : List Str) → Nodup merged → Nodup (merge_repos merged rs)
unfolding merge_repos
Nodup-merge_repos merged [] d = d
Nodup-merge_repos merged (r ∷ rs) d = elim (Bool-cases (member r merged)) [
  | inl seen ↦ rw seen (Nodup-merge_repos merged rs d)
  | inr new ↦ rw new (Nodup-merge_repos (merged ++ (r ∷ [])) rs (Nodup-snoc r merged d new))
]

member-merge_repos :
    (x : Str) (merged rs : List Str)
    → member x (merge_repos merged rs) ≡ member x merged || member x rs
unfolding merge_repos
member-merge_repos x merged [] = ground arith
member-merge_repos x merged (r ∷ rs) = ground (
  arith,
  member-merge_repos x (if member r merged then merged else merged ++ (r ∷ [])) rs,
  member-snoc x r merged,
  str_eq_iff r x,
)

get-prune :
    (seen : List Str) (repo : Str) (m : Map Str EndedRun)
    → get repo (prune seen m) ≡ (if member repo seen then get repo m else none)
unfolding get prune
get-prune seen repo [] = ground arith
get-prune seen repo ((r, e) ∷ m) = ground (arith, get-prune seen repo m, str_eq_iff r repo)

-- After a discovery that the forge answers, the watched repos are those it listed and the configured
-- ones, each once; the closed attempt of a watched repo is kept, and that of another one is kept only
-- if the number of watched repos did not change. On an error nothing changes.
pub discover_lem :
    {T : Type 0} (opts : Options) (now : Time) (listed : List Str) (p : Poller T)
    → let p' = (discover opts now (some listed) p).1 in
      Nodup p'.repos
      × ((x : Str) → member x p'.repos ≡ (member x listed || member x opts.repos))
      × ((x : Str)
          → get x p'.last_ended ≡ (
              if member x p'.repos || length p'.repos == length p.repos
              then get x p.last_ended
              else none))
      × (discover opts now none p ≡ (failed, p))
unfolding discover install
discover_lem opts now listed p =
    let merged = merge_repos (merge_repos [] listed) opts.repos in
    (
      Nodup-merge_repos (merge_repos [] listed) opts.repos (Nodup-merge_repos [] listed tt),
      λ x. ground (
        arith,
        member-merge_repos x (merge_repos [] listed) opts.repos,
        member-merge_repos x [] listed,
      ),
      λ x. ground (arith, get-prune merged x p.last_ended),
      refl,
    )

-- ===== src/Cipoll/Detect/Seed.antt =====
-- The entry and the card that the seed of a run leaves, `pollIdle` of shared/cipoll/poller.go.
use pushward_integrations.Prelude.{
  ℕ, suc, ◌==◌, ◌≡◌, ◌≤◌, refl, sym, ap, ◌∙◌, Bool, true, false, Option, none, some, List, [], ◌∷◌,
  arith, Bool-cases, ◌⊎◌, inl, inr, Str, length, ltb, if◌then◌else◌, not, ◌&&◌, Duration,
}
use pushward_integrations.Prelude.Float.{Float64}
use pushward_integrations.Prelude.GoMap.{Map}
use pushward_integrations.Ci.{Job}
use pushward_integrations.Ci.Steps.{StepInfo}
use pushward_integrations.Cipoll.Ended.{Run}
use pushward_integrations.Cipoll.Cache.{SeedEntry, SeedMatch, is_miss, is_blank}
use pushward_integrations.Cipoll.Card.{Server, IsMergePatch, Ladder, clamp_step_shape}
use pushward_integrations.Cipoll.Track.{Settings, payload_weights}
use pushward_integrations.Cipoll.Track.Consistent.{
  IsConsistent, IsCoherent, payload_weights-length, shape-scan,
}
use pushward_integrations.Cipoll.Track.Animates.{IsWatched}
use pushward_integrations.Cipoll.Detect.{
  seed_patch, seeded, new_tracked, first_shape, baseline_shape, from_forge, or_forge, Baseline,
  zero_baseline, walk_rungs, want_timings, seed_weights, grow, seed_of, Answers,
}

suc_nonzero : (n : ℕ) → (suc n == 0) ≡ false
suc_nonzero n = ground arith

module _ (fl : Float64) where
  -- A label for each step.
  abbrev pub Fits : StepInfo → Type 0
  Fits info = length info.step_labels ≡ info.total_steps

  abbrev AllFit : Option (StepInfo × Option (Map Str fl.F)) → Type 0
  AllFit none = Unit
  AllFit (some (info, weights)) = Fits info

  AllFit-if :
      (b : Bool) (o p : Option (StepInfo × Option (Map Str fl.F)))
      → AllFit o
      → AllFit p
      → AllFit (if b then o else p)
  AllFit-if true o p a b = a
  AllFit-if false o p a b = b

  module _ (lower : Str → Str) (cfg : Settings) (hit : Bool) (entry : SeedEntry fl.F)
      (fits : Fits entry.shape) where
    forge-jobs :
        (jobs : List Job) (d : Duration)
        → AllFit (from_forge fl lower cfg hit entry (record { jobs = jobs; duration = d }))
    unfolding from_forge
    forge-jobs [] d = AllFit-if hit (some (entry.shape, none)) none fits tt
    forge-jobs (job ∷ jobs) d = rw (suc_nonzero (length jobs)) ((shape-scan lower cfg job jobs).0)

    or_forge-Fits :
        (ws : Option (Map Str fl.F)) (o : Option (StepInfo × Option (Map Str fl.F)))
        → AllFit o
        → AllFit (or_forge fl hit entry ws o)
    or_forge-Fits none o ok = ok
    or_forge-Fits (some ws) o ok = AllFit-if hit (some (entry.shape, some ws)) o fits ok

  baseline_shape-Fits :
      (lower : Str → Str) (cfg : Settings) (run : Run) (prior : SeedEntry fl.F × SeedMatch)
      (ask : Str → Option Baseline) (refs : List Str)
      → Fits prior.0.shape
      → AllFit (baseline_shape fl lower cfg run prior ask refs)
  unfolding baseline_shape
  baseline_shape-Fits lower cfg run (entry, match_of) ask refs fits =
      let hit = not (is_miss match_of) in
      let base = walk_rungs ask refs zero_baseline in
      let forge = from_forge fl lower cfg hit entry base in
      let either = or_forge fl hit entry (seed_weights fl entry).0 forge in
      let cached = if hit && not (want_timings cfg) then some (entry.shape, none) else either in
      AllFit-if (is_blank run.workflow_key) none cached tt (
        AllFit-if (hit && not (want_timings cfg)) (some (entry.shape, none)) either fits (
          or_forge-Fits lower cfg hit entry fits (seed_weights fl entry).0 forge
            (forge-jobs lower cfg hit entry fits base.jobs base.duration)))

  -- A tracked shape, of one step at least.
  abbrev IsSeed : StepInfo × Map Str fl.F → Type 0
  IsSeed (info, weights) =
      (Fits info ⊎ ((info.total_steps ≤ 1) × (info.step_labels ≡ []))) × (1 ≤ info.total_steps)

  first_shape-IsSeed :
      (lower : Str → Str) (cfg : Settings) (jobs : Option (List Job))
      → IsSeed (first_shape fl lower cfg jobs, [])
  unfolding first_shape
  first_shape-IsSeed lower cfg none = (inr (omega arith, refl), omega arith)
  first_shape-IsSeed lower cfg (some []) = (inr (omega arith, refl), omega arith)
  first_shape-IsSeed lower cfg (some (job ∷ jobs)) =
      let (sized, positive) = shape-scan lower cfg job jobs in (inl sized, positive)

  grow-IsSeed :
      (info : StepInfo) (o : Option (StepInfo × Option (Map Str fl.F)))
      → IsSeed (info, [])
      → AllFit o
      → IsSeed (grow fl info o)
  grow-IsSeed info none ok fits = ok
  grow-IsSeed info (some (base, weights)) ok fits =
      elim (Bool-cases (ltb info.total_steps base.total_steps)) [
        | inl larger ↦ rw larger (inl fits, ground (arith, larger, ok))
        | inr enough ↦ rw enough ok
      ]

  module _ (s : Server fl) (law : IsMergePatch fl s) where
    seeded-IsConsistent :
        (cfg : Settings) (run : Run) (slug : Str) (now : ℕ) (lands : Bool) (info : StepInfo)
        (weights : Map Str fl.F) (c : s.Card)
        → cfg.step_weights ≡ true
        → cfg.live_progress ≡ true
        → (length info.step_labels ≡ info.total_steps)
          ⊎ ((info.total_steps ≤ 1) × (info.step_labels ≡ []))
        → 1 ≤ info.total_steps
        → let t = seeded fl lands info weights (new_tracked fl cfg run slug now) in
          let c' = if lands then s.merge (seed_patch fl cfg info weights) c else c in
          IsConsistent fl s c' t × IsCoherent fl t × IsWatched fl s c' t
    unfolding seeded new_tracked seed_patch
    seeded-IsConsistent cfg run slug now true info weights c on live shaped positive =
        let p = seed_patch fl cfg info weights in
        let (ws, (e, size)) =
          payload_weights-length fl cfg info.total_steps info.step_labels weights on positive in
        let (rows, labels) = clamp_step_shape info.step_rows info.step_labels in
        let ladder : Ladder fl = record {
          rows = rows;
          labels = labels;
          colors = info.step_colors;
          weights = payload_weights fl cfg info.total_steps info.step_labels weights;
        } in
        let sent = law.replaced p c ladder ws refl e (ground (arith, size, positive)) in
        (
          elim shaped [
            | inr (one, unknown) ↦ inl unknown
            | inl known ↦ inr (law.total p c ∙ sym known, ap length sent ∙ size ∙ sym known)
          ],
          shaped,
          λ w h. live,
        )
    seeded-IsConsistent cfg run slug now false info weights c on live shaped positive =
        (inl refl, shaped, λ w h. live)

    -- With the weights and the window switched on, a server that merges as documented and a cached shape
    -- that has a label for each step, the entry that is made for a run starts the ticks with their
    -- invariants, whether the seed lands or not: the card is consistent with the labels that were sent, the
    -- tracked total counts the tracked labels or is the default of one unknown step, and the entry knows of
    -- any window that the card has.
    pub seed-IsConsistent :
        (lower : Str → Str) (cfg : Settings) (a : Answers fl) (run : Run) (c : s.Card)
        → cfg.step_weights ≡ true
        → cfg.live_progress ≡ true
        → Fits (a.prior run).0.shape
        → let (info, weights) = seed_of fl lower cfg a run in
          let t = seeded fl a.lands info weights (new_tracked fl cfg run a.slug a.now) in
          let c' = if a.lands then s.merge (seed_patch fl cfg info weights) c else c in
          IsConsistent fl s c' t × IsCoherent fl t × IsWatched fl s c' t
    unfolding seed_of baseline_shape
    seed-IsConsistent lower cfg a run c on live fits =
        let base =
          baseline_shape-Fits lower cfg run (a.prior run) (a.baseline_jobs run)
            (a.candidate_refs run) fits in
        let (info, weights) = seed_of fl lower cfg a run in
        let (shaped, positive) =
          grow-IsSeed (first_shape fl lower cfg (a.live_jobs run))
            (baseline_shape fl lower cfg run (a.prior run) (a.baseline_jobs run)
              (a.candidate_refs run))
            (first_shape-IsSeed lower cfg (a.live_jobs run)) base in
        seeded-IsConsistent cfg run a.slug a.now a.lands info weights c on live shaped positive

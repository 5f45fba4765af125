-- ===== src/Tests/TrackCases.antt =====
-- A tracked run at concrete inputs: a server of totals, weights and windows, and the first ticks.
use pushward_integrations.Prelude.{
  ℕ, ◌*◌, ◌≢◌, ◌≡◌, refl, inl, true, false, Option, none, some, List, [], ◌∷◌, second, str_eq,
  Eq_str,
}
use pushward_integrations.Prelude.GoMap as GoMap
use pushward_integrations.Prelude.GoMap.{Map}
use pushward_integrations.Ci.{Job, queued, in_progress, other}
use pushward_integrations.Ci.Steps.{append_step}
use pushward_integrations.Cipoll.Ended.{Run}
use pushward_integrations.Cipoll.Cache.{zero_entry, zero_shape, miss}
use pushward_integrations.Cipoll.Card.{Server, IsMergePatch, Ladder, live_after}
use pushward_integrations.Cipoll.Track.{Settings, TrackedRun, Frame}
use pushward_integrations.Cipoll.Track.Tick.{Reads, tick, advance, run_after}
use pushward_integrations.Cipoll.Track.Consistent.{
  IsConsistent, IsCoherent, EndsConsistent, card_after, tick-IsConsistent,
}
use pushward_integrations.Cipoll.Track.Animates.{IsWatched, CountsTo, advance-CountsTo}
use pushward_integrations.Cipoll.Detect.{
  Answers, new_tracked, seeded, seed_patch, seed_of, pick_run,
}
use pushward_integrations.Cipoll.Detect.Pick.{IsPick, pick_run_lem}
use pushward_integrations.Cipoll.Detect.Seed.{seed-IsConsistent}
use pushward_integrations.Tests.CiCases.{whole, build, check}

record Shown : Type 0 where
  total : ℕ
  pills : List ℕ
  moving : Option (ℕ × ℕ)

abbrev pills_of : Option (Ladder whole) → List ℕ → List ℕ
pills_of none old = old
pills_of (some l) old = elim l.weights [ none ↦ old | some [] ↦ old | some (w ∷ ws) ↦ w ∷ ws ]

abbrev server : Server whole
server = record {
  Card = Shown;
  total_steps = λ c. c.total;
  weights = λ c. c.pills;
  live = λ c. c.moving;
  merge = λ p c. record {
    total = p.total_steps;
    pills = pills_of p.ladder c.pills;
    moving = live_after whole p.live c.moving;
  };
}

replaces :
    (o : Option (Ladder whole)) (old : List ℕ) (l : Ladder whole) (ws : List ℕ)
    → o ≡ some l
    → l.weights ≡ some ws
    → ws ≢ []
    → pills_of o old ≡ ws
replaces o old l [] e f h = absurd (h refl)
replaces o old l (w ∷ ws) e f h = rw (e, f) refl

server-IsMergePatch : IsMergePatch whole server
server-IsMergePatch = record {
  total = λ p c. refl;
  kept = λ p c h. rw h refl;
  replaced = λ p c l ws h k n. replaces p.ladder c.pills l ws h k n;
  animates = λ p c. refl;
}

abbrev settings : Settings
settings = record {
  step_colors = false;
  step_weights = true;
  live_progress = true;
  stale_timeout = 0;
  default_stale_timeout = 600 * second;
  interval = 10 * second;
  idle_interval = 60 * second;
}

abbrev run : Run
run = record {
  id = 7;
  name = build;
  workflow_key = build;
  status = in_progress;
  conclusion = other;
  head_branch = check;
  created_at = 30;
  started_at = 40;
  html_url = [];
  repo_url = [];
}

abbrev job : Job
job = record {
  name = build;
  status = in_progress;
  conclusion = other;
  started_at = 50 * second;
  completed_at = 0;
}

abbrev job2 : Job
job2 = record job { name = check; status = queued; started_at = 0 }

abbrev reads : Reads whole
reads = record {
  jobs = some (job ∷ job2 ∷ []);
  run = none;
  lands = true;
  outcome = λ r b. ([], []);
  now = 60 * second;
}

abbrev entry : TrackedRun whole
entry = new_tracked whole settings run build 10

abbrev shown : Shown
shown = record { total = 4; pills = 9 ∷ []; moving = some (1, 2) }

tick-IsConsistent_example :
    let o = tick whole (λ s. s) settings reads entry in
    IsConsistent whole server (card_after whole server true o shown) (run_after whole o)
    × IsCoherent whole (run_after whole o)
    × EndsConsistent whole server settings o
unfolding new_tracked
tick-IsConsistent_example =
    tick-IsConsistent whole server server-IsMergePatch settings refl (λ s. s) reads entry shown
      (inl refl) (inl refl)

-- After that tick the card has two steps and two weights.
two_steps :
    card_after whole server true (tick whole (λ s. s) settings reads entry) shown
    ≡ record { total = 2; pills = 1 ∷ 1 ∷ []; moving = none }
unfolding tick new_tracked GoMap.get append_step GoMap.put str_eq
two_steps = refl

abbrev frame : Frame whole
frame = record {
  info = record zero_shape {
    total_steps = 1;
    current_step = 1;
    current_step_name = build;
    step_labels = build ∷ [];
  };
  progress = 0;
}

advance-CountsTo_example :
    let o = advance whole settings reads frame entry in
    CountsTo whole server frame.info reads.now shown entry
      (card_after whole server true o shown)
      (run_after whole o)
unfolding new_tracked
advance-CountsTo_example =
    advance-CountsTo whole server server-IsMergePatch settings reads frame entry shown refl
      (λ w h. refl)

pick_run_lem_example :
    IsPick
      (some (record { id = 7; started_at = 50 }))
      (run ∷ record run { id = 8 } ∷ [])
      (pick_run (some (record { id = 7; started_at = 50 })) (run ∷ record run { id = 8 } ∷ []) none)
pick_run_lem_example =
    pick_run_lem (some (record { id = 7; started_at = 50 })) (run ∷ record run { id = 8 } ∷ [])

abbrev answers : Answers whole
answers = record {
  active_runs = some (run ∷ []);
  slug = build;
  created = true;
  live_jobs = λ r. some (job ∷ []);
  prior = λ r. (zero_entry, miss);
  candidate_refs = λ r. check ∷ [] ∷ [];
  baseline_jobs = λ r ref. some (record { jobs = job ∷ job2 ∷ []; duration = 40 * second });
  lands = true;
  now = 60 * second;
}

seed-IsConsistent_example :
    let (info, weights) = seed_of whole (λ s. s) settings answers run in
    let t = seeded whole true info weights (new_tracked whole settings run build (60 * second)) in
    let c' = server.merge (seed_patch whole settings info weights) shown in
    IsConsistent whole server c' t × IsCoherent whole t × IsWatched whole server c' t
seed-IsConsistent_example =
    seed-IsConsistent whole server server-IsMergePatch (λ s. s) settings answers run shown refl refl
      refl

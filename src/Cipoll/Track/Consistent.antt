-- ===== src/Cipoll/Track/Consistent.antt =====
-- The ladder on the server's card across the ticks of a run, shared/cipoll/poller.go: `shapeSent`, the
-- total that every patch carries, and the weights that only a change of the shape carries. A patch that
-- fails is taken not to have been applied.
use pushward_integrations.Prelude.{
  ℕ, zero, suc, ◌≡◌, ◌≤◌, refl, ap, ◌∙◌, subst, sym, ◌⊎◌, inl, inr, Bool, true, not, Bool-cases,
  Option, none, some, Option-cases, List, [], ◌∷◌, Str, length, length-replicate, replicate, arith,
  if◌then◌else◌, ◌==◌, Time,
}
use pushward_integrations.Prelude.Float.{Float64}
use pushward_integrations.Prelude.GoMap.{Map}
use pushward_integrations.Ci.{Job}
use pushward_integrations.Ci.Names.{base_job_name, step_color}
use pushward_integrations.Ci.Steps.{StepInfo}
use pushward_integrations.Ci.Steps.Current.{compute_steps_totals, sum}
use pushward_integrations.Ci.Weights.{project_weights, uniform_weights}
use pushward_integrations.Ci.Anchor.{Anchor}
use pushward_integrations.Cipoll.Cache.{labels_eq}
use pushward_integrations.Cipoll.Ended.{Run, terminal}
use pushward_integrations.Cipoll.Card.{Server, IsMergePatch, Ladder}
use pushward_integrations.Cipoll.Track.{
  Settings, TrackedRun, Frame, shape, reconcile, between_waves, payload_weights, anchor_of, Gate,
  gate, opens, patch_of, promote, ladder_of,
}
use pushward_integrations.Cipoll.Track.Shape.{labels_eq→eq}
use pushward_integrations.Cipoll.Track.Tick.{
  Reads, Outcome, waits, sends, finishes, end_content, end_patch, advance, complete, frame_of,
  scan_tick, tick, run_after,
}

-- A scan of at least one job has a group, and a label for each.
rows_nonempty : (rows : List ℕ) (n : ℕ) → sum rows ≡ suc n → 1 ≤ length rows
rows_nonempty [] n h = ground arith
rows_nonempty (r ∷ rows) n h = omega arith

pub shape-scan :
    (lower : Str → Str) (cfg : Settings) (job : Job) (jobs : List Job)
    → let info = shape lower cfg (job ∷ jobs) in
      (length info.step_labels ≡ info.total_steps) × (1 ≤ info.total_steps)
unfolding shape
shape-scan lower cfg job jobs =
    let (info, e, le, rows, labels, colors, counted, progress) =
      compute_steps_totals base_job_name (step_color lower) (job ∷ jobs) in
    let positive = rows_nonempty info.step_rows (length jobs) counted in
    elim (Bool-cases cfg.step_colors) [
      | inl on ↦ rw (on, e) (labels, omega (arith, rows, positive))
      | inr off ↦ rw (off, e) (labels, omega (arith, rows, positive))
    ]

module _ (fl : Float64) where
  uniform-length :
      (n : ℕ) → 1 ≤ n → (ws : List fl.F) × ((uniform_weights fl n ≡ some ws) × (length ws ≡ n))
  unfolding uniform_weights
  uniform-length zero h = absurd (omega arith)
  uniform-length (suc n) h =
      (replicate (suc n) (fl.of_nat 1), (ground arith, length-replicate (suc n) (fl.of_nat 1)))

  -- With the feature on and a positive total, there are as many weights as steps.
  pub payload_weights-length :
      (cfg : Settings) (total : ℕ) (labels : List Str) (by_name : Map Str fl.F)
      → cfg.step_weights ≡ true
      → 1 ≤ total
      → (ws : List fl.F) × ((payload_weights fl cfg total labels by_name ≡ some ws)
          × (length ws ≡ total))
  unfolding payload_weights
  payload_weights-length cfg total labels by_name on h =
      let (us, (e, n)) = uniform-length total h in
      elim (Option-cases (project_weights fl labels by_name)) [
        | inl absent ↦ rw (on, absent) (us, (e, n))
        | inr (ws, found) ↦ elim (Bool-cases (length ws == total)) [
          | inl same ↦ rw (on, found, same) (ws, (refl, ground (arith, same)))
          | inr other ↦ rw (on, found, other) (us, (e, n))
        ]
      ]

  -- The card has the total and as many weights as labels were sent, once any were.
  abbrev pub IsConsistent : (s : Server fl) → s.Card → TrackedRun fl → Type 0
  IsConsistent s c t =
      (t.shape_sent ≡ [])
      ⊎ ((s.total_steps c ≡ length t.shape_sent) × (length (s.weights c) ≡ length t.shape_sent))

  -- The tracked shape: a label for each step, or the default of one step that is not known yet.
  abbrev pub IsCoherent : TrackedRun fl → Type 0
  IsCoherent t =
      (length t.max_step_labels ≡ t.max_total_steps)
      ⊎ ((t.max_total_steps ≤ 1) × (t.max_step_labels ≡ []))

  -- What the tick sends has the tracked total, which is positive and counts the tracked labels.
  abbrev IsAligned : Frame fl → TrackedRun fl → Type 0
  IsAligned f t =
      (f.info.total_steps ≡ t.max_total_steps)
      × (length t.max_step_labels ≡ t.max_total_steps)
      × (1 ≤ t.max_total_steps)

  abbrev pub card_after : (s : Server fl) → Bool → Outcome fl → s.Card → s.Card
  card_after s lands (sends p t) c = if lands then s.merge p c else c
  card_after s lands _ c = c

  -- Each of the two end frames leaves a card, whatever it showed, with the tracked labels' number as its
  -- total and the number of its weights.
  abbrev pub EndsConsistent : (s : Server fl) → Settings → Outcome fl → Type 0
  EndsConsistent s cfg (finishes content entry t) =
      (c : s.Card)
      → (s.total_steps (s.merge (end_patch fl cfg content) c) ≡ length t.max_step_labels)
        × (length (s.weights (s.merge (end_patch fl cfg content) c)) ≡ length t.max_step_labels)
  EndsConsistent s cfg (waits t) = Unit
  EndsConsistent s cfg (sends p t) = Unit

  advance-goes_on :
      (s : Server fl) (cfg : Settings) (r : Reads fl) (f : Frame fl) (t : TrackedRun fl)
      → EndsConsistent s cfg (advance fl cfg r f t)
  unfolding advance
  advance-goes_on s cfg r f t =
      elim (Bool-cases
        (opens fl (gate fl cfg r.now f (anchor_of fl cfg f t.step_weight_by_name r.now) t))) [
          | inl passed ↦ rw passed tt
          | inr shut ↦ rw shut tt
        ]

  module _ (s : Server fl) (law : IsMergePatch fl s) where
    end_content-EndsConsistent :
        (cfg : Settings) (r : Reads fl) (run : Run) (f : Frame fl) (t : TrackedRun fl) (c : s.Card)
        → cfg.step_weights ≡ true
        → IsAligned f t
        → let p = end_patch fl cfg (end_content fl cfg r run f.info t) in
          (s.total_steps (s.merge p c) ≡ length t.max_step_labels)
          × (length (s.weights (s.merge p c)) ≡ length t.max_step_labels)
    unfolding end_content end_patch
    end_content-EndsConsistent cfg r run f t c on (total, sized, positive) =
        let content = end_content fl cfg r run f.info t in
        let p = end_patch fl cfg content in
        let (ws, (e, size)) =
          payload_weights-length cfg f.info.total_steps f.info.step_labels t.step_weight_by_name on
            (omega (arith, total, positive)) in
        let ladder : Ladder fl = record {
          rows = content.rows;
          labels = content.labels;
          colors = content.colors;
          weights = content.weights;
        } in
        let sent = law.replaced p c ladder ws refl e (ground (arith, size, total, positive)) in
        (law.total p c ∙ total ∙ sym sized, ap length sent ∙ size ∙ total ∙ sym sized)

    merge-IsConsistent :
        (c : s.Card) (f : Frame fl) (t : TrackedRun fl) (g : Gate fl) (anchor : Option Anchor)
        (now : Time) (ws : List fl.F)
        → g.shape_changed ≡ not (labels_eq t.shape_sent t.max_step_labels)
        → IsAligned f t
        → length ws ≡ f.info.total_steps
        → IsConsistent s c t
        → IsConsistent s (s.merge (patch_of fl f (some ws) g anchor) c) (promote fl now f g t)
    unfolding patch_of promote
    merge-IsConsistent c f t g anchor now ws e a size ok =
        let p = patch_of fl f (some ws) g anchor in
        let (total, sized, positive) = a in
        elim (Bool-cases g.shape_changed) [
          | inl changed ↦
              let sent : (promote fl now f g t).shape_sent ≡ t.max_step_labels = rw changed refl in
              let ladder : p.ladder ≡ some (ladder_of fl f.info (some ws)) = rw changed refl in
              let weights =
                law.replaced p c (ladder_of fl f.info (some ws)) ws ladder refl
                  (ground (arith, size, total, positive)) in
              inr (
                omega (arith, law.total p c, total, sized, ap length sent),
                omega (arith, ap length weights, size, total, sized, ap length sent),
              )
          | inr same ↦
              let labels = labels_eq→eq t.shape_sent t.max_step_labels (ground (arith, e, same)) in
              let sent : (promote fl now f g t).shape_sent ≡ t.shape_sent = rw same refl in
              let weights = law.kept p c (rw same refl) in
              elim ok [
                | inl unsent ↦ absurd (ground (arith, unsent, labels, sized, positive))
                | inr (old, count) ↦ inr (
                  omega (arith, law.total p c, total, sized, ap length labels, ap length sent),
                  omega (arith, ap length weights, count, ap length sent),
                )
              ]
        ]

    -- The gate: where the patch does not go out or does not land, the card and the entry stay.
    advance-IsConsistent :
        (cfg : Settings) (r : Reads fl) (f : Frame fl) (t : TrackedRun fl) (c : s.Card)
        → cfg.step_weights ≡ true
        → IsAligned f t
        → IsConsistent s c t
        → let o = advance fl cfg r f t in
          IsConsistent s (card_after s r.lands o c) (run_after fl o) × IsCoherent (run_after fl o)
    unfolding advance gate promote
    advance-IsConsistent cfg r f t c on a ok =
        let (total, sized, positive) = a in
        let anchor = anchor_of fl cfg f t.step_weight_by_name r.now in
        let g = gate fl cfg r.now f anchor t in
        let (ws, (e, size)) =
          payload_weights-length cfg f.info.total_steps f.info.step_labels t.step_weight_by_name on
            (omega (arith, total, positive)) in
        elim (Bool-cases (opens fl g)) [
          | inr shut ↦ rw shut (ok, inl sized)
          | inl passed ↦ elim (Bool-cases r.lands) [
            | inr lost ↦ rw (passed, lost) (ok, inl sized)
            | inl lands ↦
                rw (passed, lands, e)
                  (merge-IsConsistent c f t g anchor r.now ws refl a size ok, inl sized)
          ]
        ]

  -- A scan with a label for each of its groups leaves the tracked shape so.
  reconcile-aligned :
      (info : StepInfo) (t : TrackedRun fl)
      → length info.step_labels ≡ info.total_steps
      → 1 ≤ info.total_steps
      → IsCoherent t
      → let (info', t') = reconcile info t in
        (info'.total_steps ≡ t'.max_total_steps)
        × (length t'.max_step_labels ≡ t'.max_total_steps)
        × (1 ≤ t'.max_total_steps)
        × (t'.shape_sent ≡ t.shape_sent)
  unfolding reconcile
  reconcile-aligned info t sized positive ok =
      ground (arith, labels_eq→eq info.step_labels t.max_step_labels, sized, positive, ok)

  module _ (s : Server fl) (law : IsMergePatch fl s) (cfg : Settings)
      (on : cfg.step_weights ≡ true) where
    abbrev Keeps : Reads fl → s.Card → Outcome fl → Type 0
    Keeps r c o =
        IsConsistent s (card_after s r.lands o c) (run_after fl o)
        × IsCoherent (run_after fl o)
        × EndsConsistent s cfg o

    advance-Keeps :
        (r : Reads fl) (f : Frame fl) (t : TrackedRun fl) (c : s.Card)
        → IsAligned f t
        → IsConsistent s c t
        → Keeps r c (advance fl cfg r f t)
    advance-Keeps r f t c a ok =
        let (card, shaped) = advance-IsConsistent s law cfg r f t c on a ok in
        (card, shaped, advance-goes_on s cfg r f t)

    complete-IsConsistent :
        (r : Reads fl) (jobs : List Job) (observed : StepInfo) (f : Frame fl) (t : TrackedRun fl)
        (c : s.Card) (run : Option Run)
        → IsAligned f t
        → IsConsistent s c t
        → Keeps r c (complete fl cfg r jobs observed f t run)
    unfolding complete between_waves
    complete-IsConsistent r jobs observed f t c none a ok =
        advance-Keeps r (between_waves f observed t.last_progress) t c a ok
    complete-IsConsistent r jobs observed f t c (some run) a ok = elim (Bool-cases (terminal run)) [
      | inl done ↦
          rw done (ok, inl a.1, λ card. end_content-EndsConsistent s law cfg r run f t card on a)
      | inr going ↦ rw going (advance-Keeps r (between_waves f observed t.last_progress) t c a ok)
    ]

    scan_tick-IsConsistent :
        (lower : Str → Str) (r : Reads fl) (job : Job) (jobs : List Job) (t : TrackedRun fl)
        (c : s.Card)
        → IsCoherent t
        → IsConsistent s c t
        → Keeps r c (scan_tick fl lower cfg r (job ∷ jobs) t)
    unfolding scan_tick
    scan_tick-IsConsistent lower r job jobs t c shaped ok =
        let observed = shape lower cfg (job ∷ jobs) in
        let (sized, positive) = shape-scan lower cfg job jobs in
        let polled : TrackedRun fl = record t { last_update = r.now } in
        let (info, t') = reconcile observed polled in
        let (total, labels, some_step, sent) =
          reconcile-aligned observed polled sized positive shaped in
        let f = frame_of fl observed info in
        let aligned : IsAligned f t' = (total, labels, some_step) in
        let kept : IsConsistent s c t' =
          subst
            (λ (ls : List Str).
              (ls ≡ []) ⊎ ((s.total_steps c ≡ length ls) × (length (s.weights c) ≡ length ls)))
            (sym sent) ok in
        elim (Bool-cases info.all_completed) [
          | inl done ↦
              rw done (complete-IsConsistent r (job ∷ jobs) observed f t' c r.run aligned kept)
          | inr going ↦ rw going (advance-Keeps r f t' c aligned kept)
        ]

    -- With the weights switched on, and a server that merges a patch as documented, every tick keeps the
    -- card consistent with the labels that were sent: once any were, the card's total and the number of its
    -- weights are their number, through growth of the ladder and patches that fail. It keeps as well that
    -- the tracked total counts the tracked labels, or is the default of one unknown step. Where the tick
    -- ends the run, each of the two end frames that it schedules leaves the card, whatever it shows by then,
    -- with the number of the tracked labels as its total and as the number of its weights.
    pub tick-IsConsistent :
        (lower : Str → Str) (r : Reads fl) (t : TrackedRun fl) (c : s.Card)
        → IsCoherent t
        → IsConsistent s c t
        → let o = tick fl lower cfg r t in
          IsConsistent s (card_after s r.lands o c) (run_after fl o)
          × IsCoherent (run_after fl o)
          × EndsConsistent s cfg o
    unfolding tick
    tick-IsConsistent lower r t c shaped ok = elim (Option-cases r.jobs) [
      | inl failed ↦ rw failed (ok, shaped, tt)
      | inr ([], empty) ↦ rw empty (ok, shaped, tt)
      | inr (job ∷ jobs, some_jobs) ↦
          rw some_jobs (scan_tick-IsConsistent lower r job jobs t c shaped ok)
    ]

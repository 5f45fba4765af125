-- ===== src/Bambulab/Tracker/Sessions.antt =====
-- The sessions of the tracker, bambulab/internal/tracker/tracker.go: `gen` and the end callbacks.
use pushward_integrations.Prelude.{
  ℕ, ◌^◌, ◌<◌, ◌≡◌, ◌⊎◌, ◌∙◌, ap, refl, inl, inr, true, false, Bool-cases, [], arith, Str, ◌==◌,
}
use pushward_integrations.Prelude.Float.{Float64}
use pushward_integrations.Bambulab.{idle, MergedState}
use pushward_integrations.Bambulab.Tracker.{
  Words, Frame, Tracker, Pass, same_state, next_gen, start_tracking, end_activity, transition_in,
  process, process_when, is_active, phase1, phase2,
}

-- A uint64 and its successor differ, at the wrap too.
next_gen-other : (fl : Float64) (g : ℕ) → g < 2 ^ 64 → (next_gen fl g == g) ≡ false
next_gen-other fl g h = ground (arith, h)

module _ (fl : Float64) (w : Words) (subtitle : MergedState fl → Str) where
  -- A print starts, or the printer goes idle under a print that is tracked.
  abbrev pub Breaks : MergedState fl → Tracker fl → Type 0
  Breaks s t =
      ((t.tracking ≡ false) × (is_active fl w subtitle s.gcode_state ≡ true))
      ⊎ ((t.tracking ≡ true) × (s.gcode_state ≡ idle) × (same_state idle t.last_state ≡ false))

  start_tracking-gen :
      (p : Pass fl) (s : MergedState fl) (t : Tracker fl)
      → (start_tracking fl w subtitle p s t).1.gen ≡ next_gen fl t.gen
  unfolding start_tracking
  start_tracking-gen p s t = elim (Bool-cases p.created) [
    | inr failed_create ↦ rw failed_create refl
    | inl made ↦ elim (Bool-cases p.seeded) [
      | inl sent ↦ rw (made, sent) refl
      | inr lost ↦ rw (made, lost) refl
    ]
  ]

  idle-gen :
      (p : Pass fl) (s : MergedState fl) (t : Tracker fl)
      → s.gcode_state ≡ idle
      → same_state idle t.last_state ≡ false
      → (transition_in fl w subtitle idle p s t).1.gen ≡ next_gen fl t.gen
  unfolding transition_in end_activity
  idle-gen p s t gone fresh = simp (gone, fresh) refl

  process-gen :
      (p : Pass fl) (s : MergedState fl) (t : Tracker fl)
      → Breaks s t
      → (process fl w subtitle p s t).1.gen ≡ next_gen fl t.gen
  unfolding process process_when
  process-gen p s t (inl (out, active)) =
      ap (λ b. (process_when fl w subtitle b (is_active fl w subtitle s.gcode_state) p s t).1.gen)
        out
      ∙ ap (λ b. (process_when fl w subtitle false b p s t).1.gen) active
      ∙ start_tracking-gen p s t
  process-gen p s t (inr (k, gone, fresh)) =
      ap (λ b. (process_when fl w subtitle b (is_active fl w subtitle s.gcode_state) p s t).1.gen) k
      ∙ ap (λ g. (transition_in fl w subtitle g p s t).1.gen) gone
      ∙ idle-gen p s t gone fresh

  -- When a print starts, or the printer goes idle under a print that is tracked, the end callbacks that
  -- were armed in the session before do nothing any more, whichever calls fail: neither phase sends a frame
  -- or arms a timer.
  pub session_over :
      (p : Pass fl) (s : MergedState fl) (t : Tracker fl) (f : Frame fl)
      → t.gen < 2 ^ 64
      → Breaks s t
      → let t' = (process fl w subtitle p s t).1 in
        (phase1 fl w subtitle t.gen f t' ≡ []) × (phase2 fl w subtitle t.gen f t' ≡ [])
  unfolding phase1 phase2
  session_over p s t f h breaks =
      let g = process-gen p s t breaks in
      let off = next_gen-other fl t.gen h in (rw (g, off) refl, rw (g, off) refl)

-- ===== src/Bambulab/Tracker/Ticks.antt =====
-- When a print under way is sent, bambulab/internal/tracker/tracker.go.
use pushward_integrations.Prelude.{
  ◌+◌, ◌<◌, ◌≤◌, ◌≡◌, ◌≢◌, ◌↔◌, ◌⊎◌, ◌∙◌, ap, refl, inl, inr, true, false, Bool-cases, List, [],
  ◌∷◌, leb, arith, Str, str_eq_iff, Eq_str, Time,
}
use pushward_integrations.Prelude.Float.{Float64}
use pushward_integrations.Bambulab.{
  GcodeState, idle, prepare, running, pause, failed, finish, other, MergedState,
}
use pushward_integrations.Bambulab.Tracker.{
  Look, look_code, Frame, Words, Tracker, Action, patches, Pass, frame_eq, same_state, derive_frame,
  progress_tick, transition_in, process, process_when, is_active,
}

module _ (fl : Float64) (w : Words) (subtitle : MergedState fl → Str) where
  transition_in_active :
      (p : Pass fl) (s : MergedState fl) (t : Tracker fl) (g : GcodeState)
      → is_active fl w subtitle g ≡ true
      → transition_in fl w subtitle g p s t ≡ progress_tick fl w subtitle p s t
  unfolding transition_in
  transition_in_active p s t prepare h = refl
  transition_in_active p s t running h = refl
  transition_in_active p s t pause h = refl
  transition_in_active p s t idle h = ground (arith, h)
  transition_in_active p s t failed h = ground (arith, h)
  transition_in_active p s t finish h = ground (arith, h)
  transition_in_active p s t other h = ground (arith, h)

  -- The tracker after it, with the printer's state stored.
  process_active :
      (p : Pass fl) (s : MergedState fl) (t : Tracker fl)
      → t.tracking ≡ true
      → is_active fl w subtitle s.gcode_state ≡ true
      → process fl w subtitle p s t ≡ (
          let r = progress_tick fl w subtitle p s t in
          (r.0, record r.1 { last_state = s.gcode_state }))
  unfolding process process_when
  process_active p s t k active =
      ap (λ b. process_when fl w subtitle b (is_active fl w subtitle s.gcode_state) p s t) k
      ∙ ap (λ (r : List (Action fl) × Tracker fl). (r.0, record r.1 { last_state = s.gcode_state }))
          (transition_in_active p s t s.gcode_state active)

  -- Two frames that show the same.
  abbrev pub IsSame : Frame fl → Frame fl → Type 0
  IsSame f g =
      (fl.eqb f.progress g.progress ≡ true)
      × (f.state_text ≡ g.state_text)
      × (f.look ≡ g.look)
      × (f.remaining ≡ g.remaining)
      × (f.subtitle ≡ g.subtitle)

  look_code-injective : (a b : Look) → look_code a ≡ look_code b → a ≡ b
  look_code-injective a b h = ground (arith, h)

  same_state_iff : (a b : GcodeState) → (same_state a b ≡ true) ↔ (a ≡ b)
  same_state_iff a b = ground arith

  frame_eq-IsSame : (f g : Frame fl) → frame_eq fl f g ≡ true → IsSame f g
  unfolding frame_eq
  frame_eq-IsSame f g h = ground (
    arith,
    h,
    str_eq_iff f.state_text g.state_text,
    str_eq_iff f.subtitle g.subtitle,
    look_code-injective f.look g.look,
  )

  frame_eq-differs : (f g : Frame fl) → frame_eq fl f g ≡ false → ¬ IsSame f g
  unfolding frame_eq
  frame_eq-differs f g h (a, b, c, d, e) = ground (
    arith,
    h,
    a,
    str_eq_iff f.state_text g.state_text,
    str_eq_iff f.subtitle g.subtitle,
    ap look_code c,
    b,
    d,
    e,
  )

  -- Nothing is sent: the printer's state is that of the pass before, and the frame that last sent or the
  -- interval since not over.
  abbrev IsQuiet : Pass fl → MergedState fl → GcodeState → Time → Frame fl → Type 0
  IsQuiet p s g at_ f =
      (s.gcode_state ≡ g) × (IsSame (derive_frame fl w subtitle s) f ⊎ (p.now < at_ + p.interval))

  -- The frame is sent.
  abbrev IsNews : Pass fl → MergedState fl → GcodeState → Time → Frame fl → Type 0
  IsNews p s g at_ f =
      (s.gcode_state ≢ g)
      ⊎ ((¬ IsSame (derive_frame fl w subtitle s) f) × (at_ + p.interval ≤ p.now))

  -- What the passes of a print send, against the printer's state at the pass before, the time and the frame
  -- of the last one that was sent.
  abbrev pub IsPaced :
      GcodeState
      → Time
      → Frame fl
      → List (Pass fl × MergedState fl)
      → List (List (Action fl))
      → Type 0
  IsPaced g at_ f [] [] = Unit
  IsPaced g at_ f [] (x ∷ xs) = ⊥
  IsPaced g at_ f (ps ∷ pss) [] = ⊥
  IsPaced g at_ f ((p, s) ∷ pss) (x ∷ xs) =
      ((x ≡ []) × IsQuiet p s g at_ f × IsPaced s.gcode_state at_ f pss xs)
      ⊎ ((x ≡ patches (derive_frame fl w subtitle s) ∷ [])
          × IsNews p s g at_ f
          × IsPaced s.gcode_state p.now (derive_frame fl w subtitle s) pss xs)

  -- What each of the passes sends.
  abbrev pub sent_by : List (Pass fl × MergedState fl) → Tracker fl → List (List (Action fl))
  sent_by [] t = []
  sent_by ((p, s) ∷ pss) t = let r = process fl w subtitle p s t in r.0 ∷ sent_by pss r.1

  -- Every pass finds the printer preparing, running or paused.
  abbrev pub AllActive : List (Pass fl × MergedState fl) → Type 0
  AllActive [] = Unit
  AllActive ((p, s) ∷ pss) = (is_active fl w subtitle s.gcode_state ≡ true) × AllActive pss

  -- One pass, the tracker after it included.
  process_cases :
      (p : Pass fl) (s : MergedState fl) (t : Tracker fl)
      → t.tracking ≡ true
      → is_active fl w subtitle s.gcode_state ≡ true
      → let f = derive_frame fl w subtitle s in
        ((process fl w subtitle p s t ≡ ([], record t { last_state = s.gcode_state }))
          × IsQuiet p s t.last_state t.last_tick_at t.last_frame)
        ⊎ ((process fl w subtitle p s t ≡ (
          patches f ∷ [],
          record t { last_tick_at = p.now; last_frame = f; last_state = s.gcode_state },
        ))
            × IsNews p s t.last_state t.last_tick_at t.last_frame)
  unfolding progress_tick
  process_cases p s t k active =
      let e = process_active p s t k active in
      let f = derive_frame fl w subtitle s in
      let iff = same_state_iff s.gcode_state t.last_state in
      elim (Bool-cases (same_state s.gcode_state t.last_state)) [
        | inr moved ↦ inr (e ∙ rw moved refl, inl (ground (arith, moved, iff)))
        | inl same ↦ elim (Bool-cases (frame_eq fl f t.last_frame)) [
          | inl still ↦ inl (
            e ∙ rw (same, still) refl,
            (ground (arith, same, iff), inl (frame_eq-IsSame f t.last_frame still)),
          )
          | inr other_frame ↦ elim (Bool-cases (leb (t.last_tick_at + p.interval) p.now)) [
            | inl late ↦ inr (
              e ∙ rw (same, other_frame, late) refl,
              inr (frame_eq-differs f t.last_frame other_frame, ground (arith, late)),
            )
            | inr early ↦ inl (
              e ∙ rw (same, other_frame, early) refl,
              (ground (arith, same, iff), inr (ground (arith, early))),
            )
          ]
        ]
      ]

  -- While a print that is tracked is being prepared, running or paused, over any passes, each sends either
  -- nothing or the frame of the printer's state. It sends the frame when the printer's state is not that of
  -- the pass before, or when the frame differs from the last that was sent, in what it shows, and an
  -- interval has passed since that. It sends nothing when the printer's state is the same and, as well,
  -- the frame is or the interval is not over. The tracker's fields stand for the passes before the first.
  pub sent_by-IsPaced :
      (pss : List (Pass fl × MergedState fl)) (t : Tracker fl)
      → t.tracking ≡ true
      → AllActive pss
      → IsPaced t.last_state t.last_tick_at t.last_frame pss (sent_by pss t)
  sent_by-IsPaced [] t k a = tt
  sent_by-IsPaced ((p, s) ∷ pss) t k (active, rest) = elim (process_cases p s t k active) [
    | inl (quiet, why) ↦
        rw quiet
          (inl (refl, why, sent_by-IsPaced pss (record t { last_state = s.gcode_state }) k rest))
    | inr (sent, why) ↦
        let f = derive_frame fl w subtitle s in
        let t' : Tracker fl = record t {
          last_tick_at = p.now;
          last_frame = f;
          last_state = s.gcode_state;
        } in
        rw sent (inr (refl, why, sent_by-IsPaced pss t' k rest))
  ]

-- ===== src/Cipoll/Track/Animates.antt =====
-- The live window on the card, shared/cipoll/poller.go: `liveSent`, `liveStepName` and the gate's two
-- conditions on them.
use pushward_integrations.Prelude.{
  ℕ, ◌≡◌, ◌⊎◌, sym, ◌∙◌, inl, inr, true, false, Bool-cases, Option, none, some, Str, arith,
  str_eq_iff, Time,
}
use pushward_integrations.Prelude.Float.{Float64}
use pushward_integrations.Ci.Steps.{StepInfo}
use pushward_integrations.Prelude.GoMap.{Map}
use pushward_integrations.Ci.Anchor.{Anchor, declined, window, live_anchor}
use pushward_integrations.Cipoll.Card.{Server, IsMergePatch, live_after}
use pushward_integrations.Cipoll.Track.{
  Settings, TrackedRun, Frame, payload_weights, anchor_of, gate, opens, patch_of, promote, live_of,
  want_live, max_run_lifetime,
}
use pushward_integrations.Cipoll.Track.Tick.{Reads, advance, run_after}
use pushward_integrations.Cipoll.Track.Consistent.{card_after}

module _ (fl : Float64) where
  -- A card that counts down is known to, by the entry.
  abbrev pub IsWatched : (s : Server fl) → s.Card → TrackedRun fl → Type 0
  IsWatched s c t = (w : ℕ × ℕ) → s.live c ≡ some w → t.live_sent ≡ true

  -- Where a window comes from, for the step of this scan: it is the one that the anchor gives the step, or
  -- it stood on the card before and was the step's already.
  abbrev IsOf : StepInfo → Time → Option (ℕ × ℕ) → TrackedRun fl → ℕ × ℕ → TrackedRun fl → Type 0
  IsOf info now before t (start, end_at) t' =
      (t'.live_sent ≡ true)
      × (t'.live_step_name ≡ info.current_step_name)
      × (((before ≡ some (start, end_at)) × (t.live_step_name ≡ info.current_step_name))
          ⊎ (live_anchor fl info t.step_weight_by_name now max_run_lifetime ≡ window start end_at))

  -- Any window that the card has after a tick is one of the step that the scan found running.
  abbrev pub CountsTo :
      (s : Server fl) → StepInfo → Time → s.Card → TrackedRun fl → s.Card → TrackedRun fl → Type 0
  CountsTo s info now c t c' t' = (w : ℕ × ℕ) → s.live c' ≡ some w → IsOf info now (s.live c) t w t'

  -- What goes out of the window leaves the entry knowing it.
  promote-live :
      (cfg : Settings) (now : Time) (f : Frame fl) (t : TrackedRun fl) (anchor : Option Anchor)
      (before : Option (ℕ × ℕ)) (start end_at : ℕ)
      → (before ≡ some (start, end_at) → t.live_sent ≡ true)
      → let g = gate fl cfg now f anchor t in
        let t' = promote fl now f g t in
        live_after fl (live_of fl g anchor) before ≡ some (start, end_at)
        → (t'.live_sent ≡ true)
          × (t'.live_step_name ≡ f.info.current_step_name)
          × (((before ≡ some (start, end_at)) × (t.live_step_name ≡ f.info.current_step_name))
              ⊎ (anchor ≡ some (window start end_at)))
  unfolding gate promote
  promote-live cfg now f t none before start end_at known live =
      ground (arith, known, live, str_eq_iff f.info.current_step_name t.live_step_name)
  promote-live cfg now f t (some (declined why)) before start end_at known live =
      ground (arith, known, live, str_eq_iff f.info.current_step_name t.live_step_name)
  promote-live cfg now f t (some (window a b)) before start end_at known live =
      ground (arith, known, live, str_eq_iff f.info.current_step_name t.live_step_name)

  anchor_of-some :
      (cfg : Settings) (f : Frame fl) (by_name : Map Str fl.F) (now : Time) (a : Anchor)
      → anchor_of fl cfg f by_name now ≡ some a
      → live_anchor fl f.info by_name now max_run_lifetime ≡ a
  unfolding anchor_of
  anchor_of-some cfg f by_name now a h = ground (arith, h)

  shut-live :
      (cfg : Settings) (now : Time) (f : Frame fl) (t : TrackedRun fl) (anchor : Option Anchor)
      → opens fl (gate fl cfg now f anchor t) ≡ false
      → t.live_sent ≡ true
      → t.live_step_name ≡ f.info.current_step_name
  unfolding gate
  shut-live cfg now f t anchor shut sent =
      ground (
        arith,
        shut,
        sent,
        str_eq_iff f.info.current_step_name t.live_step_name,
        want_live fl anchor,
      )

  module _ (s : Server fl) (law : IsMergePatch fl s) where
    -- Where the server merges as documented, the entry knows of every window that the card has, and the
    -- patch lands if one is sent, any window on the card after the gate is one of the step that the tick
    -- found running: the start and the end that `LiveAnchor` gives for it now, or the window that was on the
    -- card and that the entry has under that step's name. A window of a step that is over is replaced or
    -- taken away, and the entry knows of the window and has it under the step's name.
    pub advance-CountsTo :
        (cfg : Settings) (r : Reads fl) (f : Frame fl) (t : TrackedRun fl) (c : s.Card)
        → r.lands ≡ true
        → IsWatched s c t
        → let o = advance fl cfg r f t in
          CountsTo s f.info r.now c t (card_after fl s r.lands o c) (run_after fl o)
    unfolding advance
    advance-CountsTo cfg r f t c lands known =
        let anchor = anchor_of fl cfg f t.step_weight_by_name r.now in
        let g = gate fl cfg r.now f anchor t in
        let ws =
          payload_weights fl cfg f.info.total_steps f.info.step_labels t.step_weight_by_name in
        let p = patch_of fl f ws g anchor in
        elim (Bool-cases (opens fl g)) [
          | inr shut ↦ rw shut (λ w live.
              let (start, end_at) = w in
              let mine = shut-live cfg r.now f t anchor shut (known w live) in
              (known w live, mine, inl (live, mine)))
          | inl passed ↦
              rw (passed, lands)
                (λ w live.
                  let (start, end_at) = w in
                  let (sent, name, from) =
                    promote-live cfg r.now f t anchor (s.live c) start end_at (known w)
                      (sym (law.animates p c) ∙ live) in
                  (
                    sent,
                    name,
                    elim from [
                      | inl stood ↦ inl stood
                      | inr anew ↦ inr (
                          anchor_of-some cfg f t.step_weight_by_name r.now (window start end_at)
                            anew)
                    ],
                  ))
        ]

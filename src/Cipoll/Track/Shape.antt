-- ===== src/Cipoll/Track/Shape.antt =====
-- The shape that a tick works with, and the weights that go with it, shared/cipoll/poller.go.
use pushward_integrations.Prelude.{◌≡◌, refl, max, true, List, [], ◌∷◌, Str, arith, str_eq_iff}
use pushward_integrations.Prelude.Float.{Float64}
use pushward_integrations.Ci.Steps.{StepInfo}
use pushward_integrations.Cipoll.Cache.{labels_eq}
use pushward_integrations.Cipoll.Track.{TrackedRun, reconcile}

pub labels_eq→eq : (a b : List Str) → labels_eq a b ≡ true → a ≡ b
unfolding labels_eq
labels_eq→eq [] [] h = refl
labels_eq→eq [] (b ∷ bs) h = ground arith
labels_eq→eq (a ∷ as') [] h = ground arith
labels_eq→eq (a ∷ as') (b ∷ bs) h = ground (arith, str_eq_iff a b, labels_eq→eq as' bs)

-- After the scan is held against the tracked shape, the total is the larger of the two, so that it never
-- falls, and what the tick goes on to send has the tracked shape's total and labels.
pub reconcile_lem :
    {fl : Float64} (info : StepInfo) (t : TrackedRun fl)
    → let (info', t') = reconcile info t in
      (t'.max_total_steps ≡ max t.max_total_steps info.total_steps)
      × (info'.total_steps ≡ t'.max_total_steps)
      × (info'.step_labels ≡ t'.max_step_labels)
unfolding reconcile
reconcile_lem info t = ground (arith, labels_eq→eq info.step_labels t.max_step_labels)

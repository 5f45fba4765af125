-- ===== src/Ci/Weights/Fill.antt =====
-- `FillWeights` of shared/ci/weights.go.
use pushward_integrations.Prelude.{
  ◌≡◌, ◌≢◌, refl, ◌∙◌, inl, inr, Bool, false, not, ◌&&◌, ◌||◌, Option, none, some, Option-cases,
  List, [], ◌∷◌, arith, ◌==◌, if◌then◌else◌, Str, str_eq, Eq_str, str_eq_iff, length, Duration,
}
use pushward_integrations.Prelude.Float.{Float64}
use pushward_integrations.Prelude.GoMap.{Map, get, put, get-put}
use pushward_integrations.Ci.Weights.{
  WeightsSource, measured, measured_split, put_all, share_of, even_weights, only_even, clamp,
  clamp_all, share_out, or_empty, fill_weights,
}

abbrev pub member : Str → List Str → Bool
member l [] = false
member l (k ∷ ks) = str_eq k l || member l ks

module _ (fl : Float64) where
  get-put_all :
      (share : fl.F) (ls : List Str) (out : Map Str fl.F) (l : Str)
      → get l (put_all fl share ls out) ≡ (if member l ls then some share else get l out)
  unfolding put_all
  get-put_all share [] out l = refl
  get-put_all share (k ∷ ls) out l =
      ground (arith, get-put_all share ls (put k share out) l, get-put k l share out)

  abbrev map_clamp : fl.F → Option fl.F → Option fl.F
  map_clamp limit none = none
  map_clamp limit (some w) = some (clamp fl limit w)

  get-clamp_all :
      (limit : fl.F) (m : Map Str fl.F) (l : Str)
      → get l (clamp_all fl limit m) ≡ map_clamp limit (get l m)
  unfolding clamp_all get
  get-clamp_all limit [] l = refl
  get-clamp_all limit ((k, w) ∷ m) l = ground (arith, get-clamp_all limit m l)

  abbrev or_else : Option fl.F → Option fl.F → Option fl.F
  or_else (some w) o = some w
  or_else none o = o

  get-share_out :
      (even weights : Map Str fl.F) (source : WeightsSource) (l : Str)
      → get l (share_out fl even (weights, source)).0 ≡ or_else (get l weights) (get l even)
  unfolding share_out get
  get-share_out [] weights source l = ground arith
  get-share_out ((k, share) ∷ even) weights source l = elim (Option-cases (get k weights)) [
    | inl absent ↦ rw absent (
        get-share_out even (put k share weights) measured_split l
        ∙ ground (arith, absent, get-put k l share weights, str_eq_iff k l))
    | inr (w, there) ↦
        rw there (get-share_out even weights source l ∙ ground (arith, there, str_eq_iff k l))
  ]

  -- The length of the run over the number of labels.
  abbrev pub even_share : List Str → Duration → fl.F
  even_share labels run = fl.div (fl.seconds run) (fl.of_nat (length labels))

  -- What a name gets without a measurement: a label the even share, where there is a label, the run has a
  -- length and the share is over one second; no weight otherwise.
  abbrev pub unmeasured : List Str → Duration → Str → Option fl.F
  unmeasured labels run l =
      if (not (length labels == 0)
          && not (run == 0)
          && not (fl.leb (even_share labels run) (fl.of_nat 1)))
        && member l labels
      then some (even_share labels run)
      else none

  get-even :
      (labels : List Str) (run : Duration) (l : Str)
      → get l (or_empty fl (even_weights fl labels run)) ≡ unmeasured labels run l
  unfolding even_weights get
  get-even labels run l = ground (arith, get-put_all (share_of fl labels run) labels [] l)

  put_all-nonempty :
      (share : fl.F) (k : Str) (ls : List Str) (out : Map Str fl.F)
      → put_all fl share (k ∷ ls) out ≢ []
  unfolding put_all put
  put_all-nonempty share k [] [] h = ground (arith, h)
  put_all-nonempty share k [] (e ∷ out) h = ground (arith, h)
  put_all-nonempty share k (l ∷ ls) out h = put_all-nonempty share l ls (put k share out) h

  even_weights-nonempty :
      (labels : List Str) (run : Duration) → (only_even fl (even_weights fl labels run)).0 ≢ some []
  unfolding even_weights
  even_weights-nonempty [] run h = ground (arith, h)
  even_weights-nonempty (k ∷ ls) run h =
      ground (arith, h, put_all-nonempty (even_share (k ∷ ls) run) k ls [])

  -- What a name weighs after the fill of some measurements: its measurement, cut to the length of the run
  -- where that is over one second and less; without one, what an unmeasured name gets.
  abbrev pub filled : Map Str fl.F → List Str → Duration → Str → Option fl.F
  filled m labels run l = elim (get l m) [
    | some x ↦ some (
        if fl.ltb (fl.of_nat 1) (fl.seconds run) && fl.ltb (fl.seconds run) x
        then fl.seconds run
        else x)
    | none ↦ unmeasured labels run l
  ]

  -- `FillWeights` of a map that is not nil returns one that is not nil. In it a measured name weighs its
  -- measurement, or the length of the run in seconds where that is more than one and less than the
  -- measurement; a label that was not measured weighs the even share, the run's length over the number of
  -- the labels, if the run has a length and the share is over one second; no other name has a weight. Of a
  -- nil map it returns the same without the measurements, and nil where that has no weight.
  pub get-fill_weights :
      (m : Map Str fl.F) (labels : List Str) (run : Duration)
      → ((out : Map Str fl.F) × (((fill_weights fl (some m) labels run).0 ≡ some out)
            × ((l : Str) → get l out ≡ filled m labels run l)))
        × ((l : Str)
            → get l (or_empty fl (fill_weights fl none labels run).0) ≡ unmeasured labels run l)
        × ((fill_weights fl none labels run).0 ≢ some [])
  unfolding fill_weights get
  get-fill_weights m labels run =
      let even = or_empty fl (even_weights fl labels run) in
      let clamped = clamp_all fl (fl.seconds run) m in
      (
        (
          (share_out fl even (clamped, measured)).0,
          (
            refl,
            λ l.
                get-share_out even clamped measured l
                ∙ ground (arith, get-clamp_all (fl.seconds run) m l, get-even labels run l),
          ),
        ),
        λ l. elim (Option-cases (even_weights fl labels run)) [
          | inl absent ↦ ground (arith, absent, get-even labels run l)
          | inr (w, there) ↦ ground (arith, there, get-even labels run l)
        ],
        even_weights-nonempty labels run,
      )

-- ===== src/Widgets/StatList/Masked.antt =====
-- What the masked comparison of shared/widgets/manager.go reads: `statRowsEqualMasked`.
use pushward_integrations.Prelude.{
  ℕ, zero, suc, ◌≡◌, ◌↔◌, refl, ap, Bool, true, false, Option, none, some, List, [], ◌∷◌, length,
  get_elem?, arith, str_eq_iff, ◌==◌, Bool-cases, inl, inr,
}
use pushward_integrations.Widgets.StatList.{
  Timer, StatRow, stat_row_equal, stat_rows_equal, masked_equal, stat_rows_equal_masked, same_timer,
}

-- The row i takes part in the comparison.
abbrev pub takes_part : Option (List Bool) → ℕ → Bool
takes_part none i = true
takes_part (some []) i = true
takes_part (some (m ∷ ms)) zero = m
takes_part (some (m ∷ ms)) (suc i) = takes_part (some ms) i

-- The rows at the places that take part are the same.
abbrev pub Agree : Option (List Bool) → List StatRow → List StatRow → Type 0
Agree mask as' bs =
    (i : ℕ) (r s : StatRow)
    → takes_part mask i ≡ true
    → get_elem? as' i ≡ some r
    → get_elem? bs i ≡ some s
    → r ≡ s

same_timer_iff : (t u : Option Timer) → (same_timer t u ≡ true) ↔ (t ≡ u)
same_timer_iff none none = ground arith
same_timer_iff none (some u) = ground arith
same_timer_iff (some t) none = ground arith
same_timer_iff (some t) (some u) = ground (arith, str_eq_iff t.style u.style)

pub stat_row_equal_iff : (a b : StatRow) → (stat_row_equal a b ≡ true) ↔ (a ≡ b)
unfolding stat_row_equal
stat_row_equal_iff a b = ground (
  arith,
  str_eq_iff a.label b.label,
  str_eq_iff a.value b.value,
  str_eq_iff a.unit b.unit,
  same_timer_iff a.timer b.timer,
)

stat_rows_equal→eq : (as' bs : List StatRow) → stat_rows_equal as' bs ≡ true → as' ≡ bs
unfolding stat_rows_equal
stat_rows_equal→eq [] [] h = refl
stat_rows_equal→eq [] (b ∷ bs) h = ground arith
stat_rows_equal→eq (a ∷ as') [] h = ground arith
stat_rows_equal→eq (a ∷ as') (b ∷ bs) h =
    ground (arith, stat_row_equal_iff a b, stat_rows_equal→eq as' bs)

eq-Agree : (mask : Option (List Bool)) (as' bs : List StatRow) → as' ≡ bs → Agree mask as' bs
eq-Agree mask as' bs e i r s h a b = ground (arith, e, a, b)

masked_equal-Agree :
    (as' bs : List StatRow) (ms : List Bool)
    → masked_equal as' bs ms ≡ true
    → Agree (some ms) as' bs
unfolding masked_equal
masked_equal-Agree as' bs [] h i r s t x y =
    eq-Agree (some []) as' bs (stat_rows_equal→eq as' bs h) i r s t x y
masked_equal-Agree [] bs (m ∷ ms) h i r s t x y = ground (arith, x)
masked_equal-Agree (a ∷ as') [] (m ∷ ms) h i r s t x y = ground (arith, y)
masked_equal-Agree (a ∷ as') (b ∷ bs) (m ∷ ms) h zero r s t x y =
    ground (arith, h, t, x, y, stat_row_equal_iff a b)
masked_equal-Agree (a ∷ as') (b ∷ bs) (m ∷ ms) h (suc i) r s t x y =
    masked_equal-Agree as' bs ms (ground (arith, h)) i r s t x y

Agree-tail :
    (m : Bool) (ms : List Bool) (a b : StatRow) (as' bs : List StatRow)
    → Agree (some (m ∷ ms)) (a ∷ as') (b ∷ bs)
    → Agree (some ms) as' bs
Agree-tail m ms a b as' bs h i r s t x y = h (suc i) r s t x y

Agree-stat_rows_equal :
    (as' bs : List StatRow)
    → length as' ≡ length bs
    → Agree none as' bs
    → stat_rows_equal as' bs ≡ true
unfolding stat_rows_equal
Agree-stat_rows_equal [] [] e h = refl
Agree-stat_rows_equal [] (b ∷ bs) e h = ground arith
Agree-stat_rows_equal (a ∷ as') [] e h = ground arith
Agree-stat_rows_equal (a ∷ as') (b ∷ bs) e h = ground (
  arith,
  h 0 a b refl refl refl,
  stat_row_equal_iff a b,
  Agree-stat_rows_equal as' bs (omega (arith, e)) (λ i r s t x y. h (suc i) r s t x y),
)

Agree-masked_equal :
    (as' bs : List StatRow) (ms : List Bool)
    → length as' ≡ length bs
    → Agree (some ms) as' bs
    → masked_equal as' bs ms ≡ true
unfolding masked_equal
Agree-masked_equal as' bs [] e h = Agree-stat_rows_equal as' bs e (λ i r s t x y. h i r s refl x y)
Agree-masked_equal [] [] (m ∷ ms) e h = refl
Agree-masked_equal [] (b ∷ bs) (m ∷ ms) e h = ground arith
Agree-masked_equal (a ∷ as') [] (m ∷ ms) e h = ground arith
Agree-masked_equal (a ∷ as') (b ∷ bs) (true ∷ ms) e h = ground (
  arith,
  h 0 a b refl refl refl,
  stat_row_equal_iff a b,
  Agree-masked_equal as' bs ms (omega (arith, e)) (Agree-tail true ms a b as' bs h),
)
Agree-masked_equal (a ∷ as') (b ∷ bs) (false ∷ ms) e h =
    Agree-masked_equal as' bs ms (omega (arith, e)) (Agree-tail false ms a b as' bs h)

-- The comparison finds no change exactly when there are as many rows as before and every row that takes
-- part is the same as before, in its label, its value, its unit and its timer by value.
pub stat_rows_equal_masked_iff :
    (as' bs : List StatRow) (mask : Option (List Bool))
    → (stat_rows_equal_masked as' bs mask ≡ true) ↔ ((length as' ≡ length bs) × Agree mask as' bs)
unfolding stat_rows_equal_masked
stat_rows_equal_masked_iff as' bs none = (
  λ h. let e = stat_rows_equal→eq as' bs h in (ap length e, eq-Agree none as' bs e),
  λ (e, h). Agree-stat_rows_equal as' bs e h,
)
stat_rows_equal_masked_iff as' bs (some mask) = elim (Bool-cases (length as' == length bs)) [
  | inl same ↦ rw same (
    λ h. (ground (arith, same), masked_equal-Agree as' bs mask h),
    λ (e, h). Agree-masked_equal as' bs mask e h,
  )
  | inr other ↦ rw other (λ h. ground (arith, h), λ (e, h). ground (arith, e, other))
]

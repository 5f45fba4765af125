-- ===== src/Text/Truncate.antt =====
-- shared/text/truncate.go. The functions read a string only through its runes, so a string is the
-- list of its runes here; a `maxLen` of 0 stands for the negative ones too.
use pushward_integrations.Prelude.{
  ℕ, ◌-◌, ◌≤◌, ◌<◌, min, ◌≡◌, refl, List, [], ◌∷◌, ◌++◌, arith, leb, if◌then◌else◌, length, take,
  length-take, length-append,
}

abbrev pub ellipsis : List ℕ
ellipsis = b'.' ∷ b'.' ∷ b'.' ∷ []

unfoldable pub truncate : List ℕ → ℕ → List ℕ
truncate s max_len =
    if leb max_len 0
    then []
    else if leb (length s) max_len
    then s
    else if leb max_len 3
    then take max_len s
    else take (max_len - 3) s ++ ellipsis

unfoldable pub truncate_hard : List ℕ → ℕ → List ℕ
truncate_hard s max_len =
    if leb max_len 0 then [] else if leb (length s) max_len then s else take max_len s

-- The result has as many runes as fit: all of the string's, or exactly `max_len`, for both functions.
pub length-truncate :
    (s : List ℕ) (n : ℕ)
    → (length (truncate s n) ≡ min n (length s)) × (length (truncate_hard s n) ≡ min n (length s))
unfolding truncate truncate_hard
length-truncate s n =
    ground (arith, length-take n s, length-take (n - 3) s, length-append (take (n - 3) s) ellipsis)

length_zero : (s : List ℕ) → length s ≤ 0 → s ≡ []
length_zero [] h = refl
length_zero (x ∷ s) h = absurd (omega arith)

fits : (s : List ℕ) (n : ℕ) → length s ≤ n → (truncate s n ≡ s) × (truncate_hard s n ≡ s)
unfolding truncate truncate_hard
fits s n h = ground (arith, length_zero s)

-- A string that fits is left as it is; one that does not is cut to a part of itself, and where there
-- is room for it `truncate` ends that part by the ellipsis.
pub truncate_cases :
    (s : List ℕ) (n : ℕ)
    → (length s ≤ n → (truncate s n ≡ s) × (truncate_hard s n ≡ s))
      × (n < length s → truncate_hard s n ≡ take n s)
      × (n < length s → 3 < n → truncate s n ≡ take (n - 3) s ++ ellipsis)
unfolding truncate truncate_hard
truncate_cases s n = (fits s n, λ h. ground arith, λ h k. ground arith)

-- Text that was cut to a limit is not cut again by the same limit or a wider one.
pub truncate_again :
    (s : List ℕ) (n m : ℕ)
    → n ≤ m
    → (truncate (truncate s n) m ≡ truncate s n)
      × (truncate_hard (truncate_hard s n) m ≡ truncate_hard s n)
truncate_again s n m h =
    let (soft, hard) = length-truncate s n in
    ((fits (truncate s n) m (omega arith)).0, (fits (truncate_hard s n) m (omega arith)).1)

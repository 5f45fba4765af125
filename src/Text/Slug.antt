-- ===== src/Text/Slug.antt =====
-- shared/text/slug.go. A string is the list of its runes. `lower` is `unicode.ToLower` and `hash_hex`
-- the hexadecimal SHA-256 digest, cut to a number of bytes; both are parameters.
use pushward_integrations.Prelude.{
  ℕ, ◌≡◌, ◌≢◌, refl, ◌⊎◌, inl, inr, Bool, true, false, not, ◌&&◌, ◌||◌, List, [], ◌∷◌, ◌++◌, map,
  arith, leb, ◌==◌, if◌then◌else◌,
}

-- The class [a-z0-9].
abbrev pub is_alnum : ℕ → Bool
is_alnum c = (leb b'a' c && leb c b'z') || (leb b'0' c && leb c b'9')

-- `NonAlphanumeric.ReplaceAllString(s, "-")`: each longest run outside the class becomes one hyphen.
-- The flag says that the rune before was in such a run.
unfoldable pub replace_runs : Bool → List ℕ → List ℕ
replace_runs in_run [] = []
replace_runs in_run (c ∷ s) =
    let kept = c ∷ replace_runs false s in
    let run = replace_runs true s in if is_alnum c then kept else if in_run then run else b'-' ∷ run

-- `strings.Trim(s, "-")`, from the left and from the right.
unfoldable pub trim_left : List ℕ → List ℕ
trim_left [] = []
trim_left (c ∷ s) = let rest = trim_left s in if c == b'-' then rest else c ∷ s

abbrev cons_unless_last : ℕ → List ℕ → List ℕ
cons_unless_last c [] = if c == b'-' then [] else c ∷ []
cons_unless_last c (d ∷ s) = c ∷ d ∷ s

unfoldable pub trim_right : List ℕ → List ℕ
trim_right [] = []
trim_right (c ∷ s) = cons_unless_last c (trim_right s)

unfoldable pub normalize : (ℕ → ℕ) → List ℕ → List ℕ
unfolding replace_runs trim_left trim_right
normalize lower input = trim_right (trim_left (replace_runs false (map lower input)))

abbrev is_empty : List ℕ → Bool
is_empty [] = true
is_empty (c ∷ s) = false

unfoldable pub slug : (ℕ → ℕ) → (List ℕ → ℕ → List ℕ) → List ℕ → List ℕ → List ℕ
slug lower hash_hex prefix input =
    let s = normalize lower input in
    if is_empty s
    then (if is_empty input then prefix else prefix ++ hash_hex input 8)
    else prefix ++ s

unfoldable pub slug_hash : (List ℕ → ℕ → List ℕ) → List ℕ → List ℕ → ℕ → List ℕ
slug_hash hash_hex prefix input hash_bytes = prefix ++ b'-' ∷ hash_hex input hash_bytes

-- The pattern [a-z0-9]+(-[a-z0-9]+)*, as a scan. The flag says that a hyphen may not stand here, at
-- the start or after a hyphen, and neither may the end.
unfoldable pub matches : Bool → List ℕ → Bool
matches edge [] = not edge
matches edge (c ∷ s) =
    let alnum = matches false s in
    let hyphen = matches true s in if is_alnum c then alnum else c == b'-' && not edge && hyphen

-- The same, with any end.
no_double : Bool → List ℕ → Bool
no_double edge [] = true
no_double edge (c ∷ s) =
    let alnum = no_double false s in
    let hyphen = no_double true s in if is_alnum c then alnum else c == b'-' && not edge && hyphen

no_double-replace_runs : (b : Bool) (s : List ℕ) → no_double b (replace_runs b s) ≡ true
unfolding no_double replace_runs
no_double-replace_runs b [] = refl
no_double-replace_runs b (c ∷ s) =
    ground (arith, no_double-replace_runs false s, no_double-replace_runs true s)

no_double-trim_left :
    (b : Bool) (s : List ℕ) → no_double b s ≡ true → no_double true (trim_left s) ≡ true
unfolding no_double trim_left
no_double-trim_left b [] h = refl
no_double-trim_left b (c ∷ s) h = ground (arith, no_double-trim_left true s)

matches-trim_right :
    (b : Bool) (s : List ℕ)
    → no_double b s ≡ true
    → (trim_right s ≡ []) ⊎ (matches b (trim_right s) ≡ true)
unfolding no_double trim_right matches
matches-trim_right b [] h = inl refl
matches-trim_right b (c ∷ s) h =
    ground (arith, matches-trim_right false s, matches-trim_right true s)

matches-normalize :
    (lower : ℕ → ℕ) (s : List ℕ)
    → (normalize lower s ≡ []) ⊎ (matches true (normalize lower s) ≡ true)
unfolding normalize
matches-normalize lower s =
    matches-trim_right true _
      (no_double-trim_left false _ (no_double-replace_runs false (map lower s)))

is_empty-matches : (s : List ℕ) → matches true s ≡ true → is_empty s ≡ false
unfolding matches
is_empty-matches [] h = cc
is_empty-matches (c ∷ s) h = refl

cons-ne-nil : (c : ℕ) (s : List ℕ) → c ∷ s ≢ []
cons-ne-nil c s e = cc

-- The slug of any input is the prefix alone for the empty one; the prefix and the hash if no rune of
-- the input survives; and else the prefix and a body that matches [a-z0-9]+(-[a-z0-9]+)*.
pub slug_shape :
    (lower : ℕ → ℕ) (hash_hex : List ℕ → ℕ → List ℕ) (prefix input : List ℕ)
    → ((input ≡ []) × (slug lower hash_hex prefix input ≡ prefix))
      ⊎ ((input ≢ [])
          × (normalize lower input ≡ [])
          × (slug lower hash_hex prefix input ≡ prefix ++ hash_hex input 8))
      ⊎ ((matches true (normalize lower input) ≡ true)
          × (slug lower hash_hex prefix input ≡ prefix ++ normalize lower input))
unfolding slug normalize
slug_shape lower hash_hex prefix [] = inl (refl, refl)
slug_shape lower hash_hex prefix (c ∷ s) = elim (matches-normalize lower (c ∷ s)) [
  | inl e ↦ inr (inl (cons-ne-nil c s, e, rw e refl))
  | inr m ↦ inr (inr (m, rw (is_empty-matches (normalize lower (c ∷ s)) m) refl))
]

replace_runs_fixed : (b : Bool) (s : List ℕ) → matches b s ≡ true → replace_runs b s ≡ s
unfolding replace_runs matches
replace_runs_fixed b [] h = refl
replace_runs_fixed b (c ∷ s) h =
    ground (arith, replace_runs_fixed false s, replace_runs_fixed true s)

matches_after_alnum : (s : List ℕ) → matches true s ≡ true → matches false s ≡ true
unfolding matches
matches_after_alnum [] h = refl
matches_after_alnum (c ∷ s) h = ground arith

replace_runs_from_start : (s : List ℕ) → matches true s ≡ true → replace_runs false s ≡ s
replace_runs_from_start s m = replace_runs_fixed false s (matches_after_alnum s m)

trim_left_fixed : (s : List ℕ) → matches true s ≡ true → trim_left s ≡ s
unfolding trim_left matches
trim_left_fixed [] h = refl
trim_left_fixed (c ∷ s) h = ground arith

trim_right_fixed : (b : Bool) (s : List ℕ) → matches b s ≡ true → trim_right s ≡ s
unfolding trim_right matches
trim_right_fixed b [] h = refl
trim_right_fixed b (c ∷ s) h = ground (arith, trim_right_fixed false s, trim_right_fixed true s)

map_fixed :
    (lower : ℕ → ℕ)
    → ((c : ℕ) → (is_alnum c || c == b'-') ≡ true → lower c ≡ c)
    → (b : Bool) (s : List ℕ) → matches b s ≡ true
    → map lower s ≡ s
unfolding matches
map_fixed lower fixed b [] h = refl
map_fixed lower fixed b (c ∷ s) h =
    ground (arith, fixed c, map_fixed lower fixed false s, map_fixed lower fixed true s)

-- If `lower` leaves the runes of [a-z0-9-] alone, a text that matches [a-z0-9]+(-[a-z0-9]+)*, such as
-- the body of a slug, is its own slug under the empty prefix.
pub slug_again :
    (lower : ℕ → ℕ) (hash_hex : List ℕ → ℕ → List ℕ) (s : List ℕ)
    → ((c : ℕ) → (is_alnum c || c == b'-') ≡ true → lower c ≡ c)
    → matches true s ≡ true
    → slug lower hash_hex [] s ≡ s
unfolding slug normalize
slug_again lower hash_hex s fixed m =
    rw
      (
        map_fixed lower fixed true s m,
        replace_runs_from_start s m,
        trim_left_fixed s m,
        trim_right_fixed true s m,
        is_empty-matches s m,
      )
      refl

-- ===== src/Ci/Names.antt =====
-- Job names, labels and colors: `BaseJobName`, `StepColor` and `RealignStep` of shared/ci/steps.go.
-- A string is its bytes. `lower` is `strings.ToLower`.
pub mod Laws
use Prim.Native.Char.{code}
use Prim.Native.String.{String}
use pushward_integrations.Prelude.{
  ℕ, zero, suc, ◌+◌, ◌-◌, Bool, true, false, ◌&&◌, ◌||◌, Option, none, some, List, [], ◌∷◌, ◌==◌,
  ltb, if◌then◌else◌, Str, Eq_str, str_eq, length, take, drop, get_elem?, is_some,
}

-- The bytes of an ASCII literal.
abbrev pub codes : String → Str
codes String.[] = []
codes (String.◌∷◌ c s) = code c ∷ codes s

-- strings.HasPrefix
unfoldable pub starts_with : Str → Str → Bool
starts_with [] s = true
starts_with (c ∷ sub) [] = false
starts_with (c ∷ sub) (d ∷ s) = c == d && starts_with sub s

abbrev shift : Option ℕ → Option ℕ
shift none = none
shift (some i) = some (suc i)

abbrev here_if : Bool → Option ℕ
here_if true = some 0
here_if false = none

abbrev first_of : Bool → Option ℕ → Option ℕ
first_of true later = some 0
first_of false later = shift later

abbrev last_of : Bool → Option ℕ → Option ℕ
last_of here (some i) = some (suc i)
last_of here none = here_if here

-- strings.Index and strings.LastIndex, of a substring that is not empty.
unfoldable pub index : Str → Str → Option ℕ
unfolding starts_with
index sub [] = none
index sub (c ∷ s) = first_of (starts_with sub (c ∷ s)) (index sub s)

unfoldable pub last_index : Str → Str → Option ℕ
unfolding starts_with
last_index sub [] = none
last_index sub (c ∷ s) = last_of (starts_with sub (c ∷ s)) (last_index sub s)

-- strings.HasSuffix(s, ")")
unfoldable pub ends_with : ℕ → Str → Bool
ends_with b [] = false
ends_with b (c ∷ []) = c == b
ends_with b (c ∷ d ∷ s) = ends_with b (d ∷ s)

abbrev pub caller_mark : Str
caller_mark = b' ' ∷ b'/' ∷ b' ' ∷ []

abbrev pub matrix_mark : Str
matrix_mark = b' ' ∷ b'(' ∷ []

unfoldable pub strip_caller : Str → Str
unfolding index
strip_caller name = elim (index caller_mark name) [ none ↦ name | some i ↦ drop (i + 3) name ]

unfoldable pub strip_matrix : Str → Str
unfolding last_index ends_with
strip_matrix name = elim (last_index matrix_mark name) [
  | none ↦ name
  | some i ↦ if ends_with b')' name then take i name else name
]

unfoldable pub base_job_name : Str → Str
unfolding strip_caller strip_matrix
base_job_name name = strip_matrix (strip_caller name)

unfoldable pub contains_any : Str → List String → Bool
unfolding index
contains_any s [] = false
contains_any s (sub ∷ subs) = is_some (index (codes sub) s) || contains_any s subs

unfoldable pub step_color : (Str → Str) → Str → Str
unfolding contains_any
step_color lower name =
    let n = lower name in
    if contains_any n ("test" ∷ "e2e" ∷ "pytest" ∷ "jest" ∷ "vitest" ∷ [])
    then codes "yellow"
    else if contains_any n ("lint" ∷ "format" ∷ "typecheck" ∷ "golangci" ∷ "gofmt" ∷ "ruff" ∷ [])
    then codes "purple"
    else if contains_any n ("build" ∷ "compile" ∷ "assemble" ∷ [])
    then codes "blue"
    else if contains_any n ("docker" ∷ "image" ∷ "container" ∷ "buildx" ∷ [])
    then codes "cyan"
    else if contains_any n ("deploy" ∷ "release" ∷ "publish" ∷ [])
    then codes "green"
    else if contains_any n ("security" ∷ "scan" ∷ "codeql" ∷ "trivy" ∷ "grype" ∷ "sast" ∷ [])
    then codes "orange"
    else []

-- slices.Index
unfoldable pub label_index : List Str → Str → Option ℕ
label_index [] l = none
label_index (x ∷ xs) l = first_of (str_eq x l) (label_index xs l)

unfoldable pub realign_step : ℕ → List Str → List Str → ℕ
unfolding label_index
realign_step current from to =
    if ltb current 1 || ltb (length from) current
    then current
    else elim (get_elem? from (current - 1)) [
      | none ↦ current
      | some l ↦ elim (label_index to l) [ none ↦ current | some i ↦ i + 1 ]
    ]

-- ===== src/Client/Delay.antt =====
-- How long the client waits for a throttled request: `boundedDelay`, `parseRetryAfter` and
-- `throttleDelay` of shared/pushward/client.go. `strconv.ParseInt` is written out; `http.ParseTime` is a
-- parameter.
use pushward_integrations.Prelude.{
  ℕ, ◌+◌, ◌-◌, ◌*◌, ◌/◌, ◌^◌, ◌≤◌, min, Bool, true, false, not, ◌&&◌, Option, none, some, [], ◌∷◌,
  arith, ltb, leb, ◌==◌, if◌then◌else◌, Str, Time, Duration, second,
}
use pushward_integrations.Prelude.Int.{ℤ, pos, negsuc, to_ℕ}

abbrev pub millisecond : Duration
millisecond = 1000000

abbrev pub max_retry_after : Duration
max_retry_after = 120 * second

-- The guard comes before the product, which then does not overflow.
unfoldable pub bounded_delay : ℤ → Duration → Duration
bounded_delay n unit =
    if to_ℕ n == 0
    then 0
    else if ltb (max_retry_after / unit) (to_ℕ n)
    then max_retry_after
    else to_ℕ n * unit

-- What `strconv.ParseInt` says of a text: a number of 64 bits, a number with more digits, or none.
pub data Parsed : Type 0 where
  number : ℤ → Parsed
  out_of_range not_a_number : Parsed

pub data Digits : Type 0 where
  value : ℕ → Digits
  overflow no_digit : Digits

-- `ParseUint`: the digits of a text, after the value of those before, up to the first byte that is no
-- digit or that takes the value past 64 bits.
unfoldable pub digits : ℕ → Str → Digits
digits acc [] = value acc
digits acc (c ∷ s) =
    let next = 10 * acc + (c - b'0') in
    let rest = digits next s in
    if not (leb b'0' c && leb c b'9')
    then no_digit
    else if leb (2 ^ 64) next
    then overflow
    else rest

abbrev signed : Bool → ℕ → Parsed
signed negative n =
    if negative
    then (if ltb (2 ^ 63) n
        then out_of_range
        else if n == 0
        then number (pos 0)
        else number (negsuc (n - 1)))
    else (if ltb n (2 ^ 63) then number (pos n) else out_of_range)

abbrev parsed_from : Bool → Digits → Parsed
parsed_from negative no_digit = not_a_number
parsed_from negative overflow = out_of_range
parsed_from negative (value n) = signed negative n

unfoldable pub unsigned : Bool → Str → Parsed
unfolding digits
unsigned negative [] = not_a_number
unsigned negative (c ∷ s) = parsed_from negative (digits 0 (c ∷ s))

unfoldable pub parse_int : Str → Parsed
unfolding unsigned
parse_int [] = not_a_number
parse_int (c ∷ s) =
    if c == b'-'
    then unsigned true s
    else if c == b'+'
    then unsigned false s
    else unsigned false (c ∷ s)

abbrev pub starts_negative : Str → Bool
starts_negative [] = false
starts_negative (c ∷ s) = c == b'-'

module _ (parse_time : Str → Option Time) where
  -- `time.Until(t)`, where it is positive.
  abbrev until : Time → Option Time → Duration
  until now none = 0
  until now (some t) = t - now

  abbrev header_delay : Time → Str → Parsed → Duration
  header_delay now header (number n) = bounded_delay n second
  header_delay now header out_of_range = if starts_negative header then 0 else max_retry_after
  header_delay now header not_a_number = until now (parse_time header)

  unfoldable pub parse_retry_after : Time → Str → Duration
  unfolding parse_int bounded_delay
  parse_retry_after now [] = 0
  parse_retry_after now (c ∷ s) = header_delay now (c ∷ s) (parse_int (c ∷ s))

  unfoldable pub throttle_delay : Time → Str → ℤ → Duration
  unfolding parse_retry_after bounded_delay
  throttle_delay now header problem_ms =
      let d = parse_retry_after now header in
      min (if d == 0 then bounded_delay problem_ms millisecond else d) max_retry_after

  -- Whatever the server sends, the wait is at most two minutes.
  pub throttle_delay-le :
      (now : Time) (header : Str) (problem_ms : ℤ)
      → throttle_delay now header problem_ms ≤ max_retry_after
  unfolding throttle_delay
  throttle_delay-le now header problem_ms = omega arith

-- ===== src/Prelude/Clock.antt =====
-- Go's `time`. A `Time` is its distance in nanoseconds from Go's zero time, so the zero value, which
-- the program reads as "unknown", is 0; the instants before the year 1 are left out. A `Duration` is a
-- number of nanoseconds; negative ones are left out, so that a test for one that is not positive is a
-- test for 0.
use Prim.Native.Nat.{ℕ}
use mathlib.Core.Bool.{Bool}
use pushward_integrations.Prelude.Tests.{ltb, ◌==◌}

abbrev pub Time : Type 0
Time = ℕ

abbrev pub Duration : Type 0
Duration = ℕ

abbrev pub is_zero : Time → Bool
is_zero t = t == 0

-- t.After(u) and t.Before(u)
abbrev pub after : Time → Time → Bool
after t u = ltb u t

abbrev pub before : Time → Time → Bool
before t u = ltb t u

abbrev pub second : Duration
second = 1000000000

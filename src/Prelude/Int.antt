-- ===== src/Prelude/Int.antt =====
-- Signed integers of Go, `int64` among them: the source compares them with 0 and reads their sign.
use Prim.Native.Nat.{ℕ}

-- `negsuc n` is -(n + 1).
pub data ℤ : Type 0 where
  pos : ℕ → ℤ
  negsuc : ℕ → ℤ

-- The count, where a count that is not positive is no hint at all.
abbrev pub to_ℕ : ℤ → ℕ
to_ℕ (pos n) = n
to_ℕ (negsuc n) = 0

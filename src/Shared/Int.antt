-- ===== src/Shared/Int.antt =====
-- The C type int as an integer.
use Prim.Native.Nat.{ℕ, ◌-◌, ◌^◌}
use mathlib.Core.Bool.{Bool, true}
use wfpdriver.Shared.Tests.{ltb}

-- `negsuc n` is -(n + 1).
pub data ℤ : Type 0 where
  pos : ℕ → ℤ
  negsuc : ℕ → ℤ

-- lens < 1
abbrev pub below_one : ℤ → Bool
below_one (pos n) = ltb n 1
below_one (negsuc n) = true

-- The conversion to ULONG wraps at 2^32.
abbrev pub as_ulong : ℤ → ℕ
as_ulong (pos n) = n
as_ulong (negsuc n) = 2 ^ 32 - 1 - n

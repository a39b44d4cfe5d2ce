-- ===== src/Base/Int.antt =====
-- `int` and `off_t` arguments: integers over the native numbers.
use Prim.Native.Nat.{ℕ, ◌-◌, ◌^◌}
use mathlib.Core.Option.{Option, none, some}
use operating_system_challen.Base.Tests.{ltb, if◌then◌else◌}

-- `negsuc n` is -(n + 1).
pub data ℤ : Type 0 where
  pos : ℕ → ℤ
  negsuc : ℕ → ℤ

-- A `uint32_t` converted to `int`.
abbrev pub int32 : ℕ → ℤ
int32 x = if ltb x (2 ^ 31) then pos x else negsuc (2 ^ 32 - x - 1)

-- An index that is -1 when nothing was found.
abbrev pub int_of : Option ℕ → ℤ
int_of none = negsuc 0
int_of (some i) = pos i

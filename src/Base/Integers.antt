-- ===== src/Base/Integers.antt =====
-- Signed integers over the native numbers: `negsuc n` is `-(n + 1)`.
use Prim.Native.Nat.{ℕ, ◌^◌}
use mathlib.Core.Option.{Option, none, some}
use pictophone.Base.Tests.{ltb, if◌then◌else◌}

pub data ℤ : Type 0 where
  pos : ℕ → ℤ
  negsuc : ℕ → ℤ

-- `try_into` from `u64` to `i64`.
abbrev pub to_i64 : ℕ → Option ℤ
to_i64 n = if ltb n (2 ^ 63) then some (pos n) else none

-- `visit_i64` of serde's `u64`: a negative number is an error.
abbrev pub to_u64 : ℤ → Option ℕ
to_u64 (pos n) = some n
to_u64 (negsuc n) = none

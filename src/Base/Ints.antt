-- ===== src/Base/Ints.antt =====
-- C's `int`, where the program uses a sign.
use Prim.Native.Nat.{ℕ, ◌-◌, ◌^◌}
use luarunner.Base.Tests.{leb}
use luarunner.Base.Outcomes.{Result, ok, assert, ◌>>◌}

-- `negsuc n` is -(n + 1).
pub data ℤ : Type 0 where
  pos : ℕ → ℤ
  negsuc : ℕ → ℤ

abbrev pub int_max : ℕ
int_max = 2 ^ 31 - 1

-- A result of `int` arithmetic that is not negative: beyond INT_MAX it is undefined.
abbrev pub int : ℕ → Result ℕ
int n = do assert (leb n int_max); ok n

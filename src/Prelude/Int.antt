-- ===== src/Prelude/Int.antt =====
-- Signed machine integers: `int32_t` and `int` values as whole numbers.
use Prim.Native.Nat.{ℕ, ◌-◌, ◌^◌}
use myjfm_spider.Prelude.Tests.{ltb, if◌then◌else◌}

-- `negsuc n` is -(n + 1).
pub data ℤ : Type 0 where
  pos : ℕ → ℤ
  negsuc : ℕ → ℤ

-- The conversion of a `uint32_t` to `int32_t`.
unfoldable pub to_int32 : ℕ → ℤ
to_int32 n = if ltb n (2 ^ 31) then pos n else negsuc (2 ^ 32 - n - 1)

-- ===== src/Base/Words.antt =====
-- Machine integers as bit patterns: a signed field holds the number below 2 ^ w whose two's
-- complement reading is its value, and arithmetic wraps.
use Prim.Native.Nat.{ℕ, ◌+◌, ◌-◌, ◌%◌, ◌^◌}
use mathlib.Core.Bool.{Bool}
use agentsmith.Base.Tests.{ltb, leb}

abbrev pub add32 : ℕ → ℕ → ℕ
add32 a b = (a + b) % 2 ^ 32

abbrev pub sub64 : ℕ → ℕ → ℕ
sub64 a b = (a + 2 ^ 64 - b) % 2 ^ 64

-- The signed orders: adding half the range turns them into the order of the patterns.
abbrev pub signed_le32 : ℕ → ℕ → Bool
signed_le32 a b = leb ((a + 2 ^ 31) % 2 ^ 32) ((b + 2 ^ 31) % 2 ^ 32)

abbrev pub signed_le64 : ℕ → ℕ → Bool
signed_le64 a b = leb ((a + 2 ^ 63) % 2 ^ 64) ((b + 2 ^ 63) % 2 ^ 64)

abbrev pub signed_lt64 : ℕ → ℕ → Bool
signed_lt64 a b = ltb ((a + 2 ^ 63) % 2 ^ 64) ((b + 2 ^ 63) % 2 ^ 64)

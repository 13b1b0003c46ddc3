-- ===== src/Base/Words.antt =====
-- Machine words as native numbers: a w-bit value is a number below 2 ^ w, and wrap-around is
-- written out.
use Prim.Native.Nat.{ℕ, ◌+◌, ◌-◌, ◌%◌, ◌^◌}
use mathlib.Core.Bool.{Bool}
use tele_bezel.Base.Tests.{ltb}

abbrev pub u16_mod : ℕ
u16_mod = 2 ^ 16

abbrev pub u32_mod : ℕ
u32_mod = 2 ^ 32

-- uint32_t a + b and a - b
abbrev pub add32 : ℕ → ℕ → ℕ
add32 a b = (a + b) % 2 ^ 32

abbrev pub sub32 : ℕ → ℕ → ℕ
sub32 a b = (a + 2 ^ 32 - b) % 2 ^ 32

-- (int32_t)(now - deadline) >= 0
abbrev pub reached : ℕ → ℕ → Bool
reached now deadline = ltb (sub32 now deadline) (2 ^ 31)

-- ===== src/Common/Words.antt =====
-- The machine's words: a uint32_t is a number below 2 ^ 32, and an int32_t is its bit pattern.
use Prim.Native.Nat.{ℕ, ◌+◌, ◌-◌, ◌%◌, ◌^◌, ◌<◌}

abbrev pub u32 : ℕ → ℕ
u32 n = n % 2 ^ 32

abbrev pub IsWord : ℕ → Type 0
IsWord n = n < 2 ^ 32

-- uint32_t addition, subtraction and complement.
abbrev pub add32 : ℕ → ℕ → ℕ
add32 a b = (a + b) % 2 ^ 32

abbrev pub sub32 : ℕ → ℕ → ℕ
sub32 a b = (a + 2 ^ 32 - b) % 2 ^ 32

abbrev pub not32 : ℕ → ℕ
not32 a = 2 ^ 32 - 1 - a

-- The error code -n (errcodes.h) as an int32_t.
abbrev pub neg32 : ℕ → ℕ
neg32 n = 2 ^ 32 - n

-- ===== src/Base/Word.antt =====
-- Unsigned 64-bit arithmetic as C++ has it, with its wrap written out.
pub mod Bits
use Prim.Native.Nat.{ℕ, ◌+◌, ◌-◌, ◌*◌, ◌/◌, ◌%◌, ◌^◌, bit_and, bit_or}

-- One more than the greatest `uint64_t`.
abbrev pub u64_mod : ℕ
u64_mod = 2 ^ 64

-- `std::numeric_limits<uint64_t>::max()`.
abbrev pub u64_max : ℕ
u64_max = 2 ^ 64 - 1

abbrev pub u64 : ℕ → ℕ
u64 n = n % 2 ^ 64

-- `-n`.
abbrev pub neg64 : ℕ → ℕ
neg64 n = (2 ^ 64 - n) % 2 ^ 64

-- `~n`.
abbrev pub not64 : ℕ → ℕ
not64 n = 2 ^ 64 - 1 - n

-- `a - b`; the modulus is added first since `-` on ℕ stops at 0.
abbrev pub sub64 : ℕ → ℕ → ℕ
sub64 a b = (a + 2 ^ 64 - b) % 2 ^ 64

infixl 75 ◌<<<◌ ◌>>>◌
abbrev pub ◌<<<◌ : ℕ → ℕ → ℕ
x <<< k = x * 2 ^ k % 2 ^ 64

abbrev pub ◌>>>◌ : ℕ → ℕ → ℕ
x >>> k = x / 2 ^ k

-- ===== src/Base/Word/Bits.antt =====
-- `&` and `|` at variables: the law of the lowest digit, and from it the masks and the lowest set
-- bit, at every width.
use Prim.Native.Nat.{
  ℕ, zero, suc, ◌+◌, ◌-◌, ◌*◌, ◌/◌, ◌%◌, ◌^◌, ◌≤◌, ◌<◌, min, max, bit_and, bit_or,
}
use Prim.Native.Nat.{digits, bitwise, bit_and-bitwise, bit_or-bitwise}
use mathlib.Core.Path.{◌≡◌, refl, sym, ap, ◌∙◌}
use mathlib.Core.Logic.{◌⊎◌, inl, inr}
use native.Mathlib.Nat.{le_refl, suc-add, zero-add}
use native.Mathlib.Omega.{arith}
use diffmonger.Base.Power.{two-pow-suc, two-pow-pos}

last_or_less : (fuel more : ℕ) → fuel ≤ suc more → (fuel ≡ suc more) ⊎ (fuel ≤ more)
last_or_less fuel more le = ground arith

-- More fuel than digits changes nothing.
module _ (rest : ℕ → ℕ) (digit : ℕ → ℕ → ℕ) where
  one_more :
      (fuel x y : ℕ) → x ≤ fuel → digits rest digit (suc fuel) x y ≡ digits rest digit fuel x y
  one_more zero zero y enough = refl
  one_more (suc fuel) zero y enough = refl
  one_more zero (suc x) y enough = absurd (omega arith)
  one_more (suc fuel) (suc x) y enough = rw (one_more fuel (suc x / 2) (y / 2) (omega arith))

  any_more :
      (more fuel x y : ℕ)
      → x ≤ fuel
      → fuel ≤ more
      → digits rest digit more x y ≡ digits rest digit fuel x y
  any_more zero zero x y enough le = refl
  any_more zero (suc fuel) x y enough le = absurd (omega arith)
  any_more (suc more) fuel x y enough le = elim (last_or_less fuel more le) [
    | inl same ↦ ap (λ n. digits rest digit n x y) (sym same)
    | inr less ↦ one_more more x y (omega arith) ∙ any_more more fuel x y enough less
  ]

  lowest_digit :
      (x y : ℕ)
      → bitwise rest digit (suc x) y
        ≡ 2 * bitwise rest digit (suc x / 2) (y / 2) + digit (suc x % 2) (y % 2)
  lowest_digit x y =
      let half = suc x / 2 in
      omega (arith, any_more x half half (y / 2) (le_refl half) (omega arith))

pub bit_and_step : (x y : ℕ) → bit_and x y ≡ 2 * bit_and (x / 2) (y / 2) + min (x % 2) (y % 2)
bit_and_step zero y = simp bit_and-bitwise (omega arith)
bit_and_step (suc x) y = simp bit_and-bitwise (lowest_digit (λ n. 0) min x y)

pub bit_or_step : (x y : ℕ) → bit_or x y ≡ 2 * bit_or (x / 2) (y / 2) + max (x % 2) (y % 2)
bit_or_step zero y = simp bit_or-bitwise (omega arith)
bit_or_step (suc x) y = simp bit_or-bitwise (lowest_digit (λ n. n) max x y)

bit_and_zero_fuel : (n a : ℕ) → a ≤ n → bit_and a 0 ≡ 0
bit_and_zero_fuel n zero h = refl
bit_and_zero_fuel zero (suc a) h = absurd (omega arith)
bit_and_zero_fuel (suc n) (suc a) h =
    omega (arith, bit_and_step (suc a) 0, bit_and_zero_fuel n (suc a / 2) (omega arith))

bit_and_zero : (a : ℕ) → bit_and a 0 ≡ 0
bit_and_zero a = bit_and_zero_fuel a a (omega arith)

-- A word and its complement have no bit in common.
bit_and_complement : (w b : ℕ) → b < 2 ^ w → bit_and b (2 ^ w - 1 - b) ≡ 0
bit_and_complement zero b h = ground (arith, bit_and_step b 0)
bit_and_complement (suc w) b h =
    ground (arith, two-pow-suc w, bit_and_step b (2 ^ suc w - 1 - b), bit_and_complement w (b / 2))

-- `n & -n` is the lowest set bit of `n`.
pub bit_and_negated :
    (k w a : ℕ)
    → (2 * a + 1) * 2 ^ k < 2 ^ w
    → bit_and ((2 * a + 1) * 2 ^ k) (2 ^ w - (2 * a + 1) * 2 ^ k) ≡ 2 ^ k
bit_and_negated k zero a h = absurd (grind (arith, two-pow-pos k))
bit_and_negated zero (suc w) a h = ground (
  arith,
  two-pow-suc w,
  bit_and_step ((2 * a + 1) * 2 ^ 0) (2 ^ suc w - (2 * a + 1) * 2 ^ 0),
  bit_and_complement w a,
)
bit_and_negated (suc k) (suc w) a h = ground (
  arith,
  ap (λ (t : ℕ). (2 * a + 1) * t) (two-pow-suc k),
  two-pow-suc k,
  two-pow-suc w,
  bit_and_step ((2 * a + 1) * 2 ^ suc k) (2 ^ suc w - (2 * a + 1) * 2 ^ suc k),
  bit_and_negated k w a,
)

-- A mask of `w` ones keeps every word.
bit_and_ones : (w x : ℕ) → x < 2 ^ w → bit_and x (2 ^ w - 1) ≡ x
bit_and_ones zero x h = ground (arith, bit_and_step x 0)
bit_and_ones (suc w) x h =
    ground (arith, two-pow-suc w, bit_and_step x (2 ^ suc w - 1), bit_and_ones w (x / 2))

-- `x & ~(2 ^ m - 1)` clears the lowest `m` bits.
pub bit_and_high :
    (m d q r : ℕ)
    → r < 2 ^ m
    → q * 2 ^ m + r < 2 ^ (m + d)
    → bit_and (q * 2 ^ m + r) (2 ^ (m + d) - 2 ^ m) ≡ q * 2 ^ m
bit_and_high zero d q r fits h = ground (arith, zero-add d, bit_and_ones d q)
bit_and_high (suc m) d q r fits h = ground (
  arith,
  suc-add m d,
  ap (λ (t : ℕ). q * t) (two-pow-suc m),
  two-pow-suc m,
  two-pow-suc (m + d),
  bit_and_step (q * 2 ^ suc m + r) (2 ^ (suc m + d) - 2 ^ suc m),
  bit_and_high m d q (r / 2),
)

-- The same in a word of 64 bits, for operands that are written otherwise.
pub bit_and_clear :
    (m d q r x y : ℕ)
    → m + d ≡ 64
    → x ≡ q * 2 ^ m + r
    → r < 2 ^ m
    → x < 2 ^ 64
    → y ≡ 2 ^ 64 - 2 ^ m
    → bit_and x y ≡ q * 2 ^ m
bit_and_clear m d q r x y width ex fits h ey =
    let power = ap (λ (w : ℕ). 2 ^ w) width in
    rw (ex, ey, ← power) (bit_and_high m d q r fits (rw (← ex, power) h))

-- `x & (2 ^ m - 1)` keeps the lowest `m` bits.
pub bit_and_low : (m q r : ℕ) → r < 2 ^ m → bit_and (q * 2 ^ m + r) (2 ^ m - 1) ≡ r
bit_and_low zero q r fits = ground (arith, bit_and_zero q)
bit_and_low (suc m) q r fits = ground (
  arith,
  ap (λ (t : ℕ). q * t) (two-pow-suc m),
  two-pow-suc m,
  two-pow-pos m,
  bit_and_step (q * 2 ^ suc m + r) (2 ^ suc m - 1),
  bit_and_low m q (r / 2),
)

bit_or_ones : (m : ℕ) → bit_or (2 ^ m - 1) (2 ^ suc m - 1) ≡ 2 ^ suc m - 1
bit_or_ones zero = refl
bit_or_ones (suc m) = ground (
  arith,
  two-pow-suc m,
  two-pow-suc (suc m),
  two-pow-pos m,
  bit_or_step (2 ^ suc m - 1) (2 ^ suc (suc m) - 1),
  bit_or_ones m,
)

-- `mask | mask << 1` is one bit longer than the mask.
pub bit_or_shifted : (m : ℕ) → 0 < m → bit_or (2 ^ m - 1) ((2 ^ m - 1) * 2) ≡ 2 ^ suc m - 1
bit_or_shifted zero pos = absurd (omega arith)
bit_or_shifted (suc m) pos = ground (
  arith,
  two-pow-suc m,
  two-pow-suc (suc m),
  two-pow-pos m,
  bit_or_step (2 ^ suc m - 1) ((2 ^ suc m - 1) * 2),
  bit_or_ones m,
)

zero-bit_or : (b : ℕ) → bit_or 0 b ≡ b
zero-bit_or b = bit_or-bitwise 0 b

-- `r | q << k` is a sum where `r` fits in `k` bits.
pub bit_or_fields : (k q r : ℕ) → r < 2 ^ k → bit_or r (q * 2 ^ k) ≡ q * 2 ^ k + r
bit_or_fields zero q r fits = ground (arith, zero-bit_or q)
bit_or_fields (suc k) q r fits = ground (
  arith,
  ap (λ (t : ℕ). q * t) (two-pow-suc k),
  two-pow-suc k,
  bit_or_step r (q * 2 ^ suc k),
  bit_or_fields k q (r / 2),
)

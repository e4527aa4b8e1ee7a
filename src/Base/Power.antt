-- ===== src/Base/Power.antt =====
-- Powers of two: their order, and the splitting of a number as an odd multiple of a power of two.
use Prim.Native.Nat.{ℕ, zero, suc, ◌+◌, ◌*◌, ◌/◌, ◌%◌, ◌^◌, ◌≤◌, ◌<◌}
use mathlib.Core.Path.{◌≡◌, refl, ap}
use mathlib.Core.Logic.{◌⊎◌, inl, inr}
use native.Mathlib.Nat.{pow-suc, lt_of_mul-lt-mul_right}
use native.Mathlib.Omega.{arith}

pub two-pow-suc : (k : ℕ) → 2 ^ suc k ≡ 2 * 2 ^ k
two-pow-suc k = omega (arith, pow-suc 2 k)

pub two-pow-pos : (k : ℕ) → 0 < 2 ^ k
two-pow-pos zero = omega arith
two-pow-pos (suc k) = omega (arith, two-pow-suc k, two-pow-pos k)

-- Two powers of two: the one divides half of the other, or they are the same.
pub data PowerOrder (k e : ℕ) : Type 0 where
  smaller : (c : ℕ) → 0 < c → 2 ^ e ≡ c * (2 * 2 ^ k) → PowerOrder k e
  same : k ≡ e → PowerOrder k e
  larger : (c : ℕ) → 0 < c → 2 ^ k ≡ c * (2 * 2 ^ e) → PowerOrder k e

PowerOrder-suc : {k e : ℕ} → PowerOrder k e → PowerOrder (suc k) (suc e)
PowerOrder-suc {k} {e} (smaller c pos eq) =
    smaller c pos (rw (two-pow-suc e, two-pow-suc k) (omega arith))
PowerOrder-suc (same eq) = same (ap suc eq)
PowerOrder-suc {k} {e} (larger c pos eq) =
    larger c pos (rw (two-pow-suc e, two-pow-suc k) (omega arith))

pub power_order : (k e : ℕ) → PowerOrder k e
power_order zero zero = same refl
power_order zero (suc e) = smaller (2 ^ e) (two-pow-pos e) (omega (arith, two-pow-suc e))
power_order (suc k) zero = larger (2 ^ k) (two-pow-pos k) (omega (arith, two-pow-suc k))
power_order (suc k) (suc e) = PowerOrder-suc (power_order k e)

-- `n` is an odd multiple of `2 ^ exponent`.
pub record OddTimes (n : ℕ) : Type 0 where
  pub exponent : ℕ
  pub half : ℕ
  pub split : n ≡ (2 * half + 1) * 2 ^ exponent

OddTimes-fuel : (f n : ℕ) → n ≤ f → 0 < n → OddTimes n
OddTimes-fuel zero n h pos = absurd (omega arith)
OddTimes-fuel (suc f) n h pos = elim (cases n) [
  | inl odd ↦ record { exponent = 0; half = n / 2; split = omega arith }
  | inr even ↦ double (OddTimes-fuel f (n / 2) (omega arith) (omega arith)) even
]
  where
    cases : (m : ℕ) → (m % 2 ≡ 1) ⊎ (m % 2 ≡ 0)
    cases m = ground arith

    double : OddTimes (n / 2) → n % 2 ≡ 0 → OddTimes n
    double r even = record {
      exponent = suc r.exponent;
      half = r.half;
      split = rw two-pow-suc (omega (arith, r.split));
    }

pub odd_times : (n : ℕ) → 0 < n → OddTimes n
odd_times n pos = OddTimes-fuel n n (omega arith) pos

-- A multiple of `h` that lies in the interval from `u * h` on, of width `h`, is `u * h`.
pub multiple_between : (h x u : ℕ) → u * h ≤ x * h → x * h < suc u * h → x ≡ u
multiple_between h x u lo hi = grind (arith, lt_of_mul-lt-mul_right h)

pub odd-ne-even : (p a b : ℕ) → 0 < p → (2 * a + 1) * p ≡ 2 * b * p → ⊥
odd-ne-even p a b pos e = elim (order a b) [ inl lt ↦ grind arith | inr le ↦ grind arith ]
  where
    order : (x y : ℕ) → (x < y) ⊎ (y ≤ x)
    order x y = ground arith

pub two-pow_mono : (k e : ℕ) → k ≤ e → 2 ^ k ≤ 2 ^ e
two-pow_mono zero e h = two-pow-pos e
two-pow_mono (suc k) zero h = absurd (omega arith)
two-pow_mono (suc k) (suc e) h = omega (arith, two-pow-suc k, two-pow-suc e, two-pow_mono k e)

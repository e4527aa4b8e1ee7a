-- ===== src/Tree/Prune/Dying.antt =====
-- The nodes that die at `n`, by their lowest set bit.
use native.Mathlib.Nat.{mul-le-mul_right}
use diffmonger.Base.{ℕ, ◌+◌, ◌*◌, ◌^◌, ◌≤◌, ◌<◌, ◌≡◌, ◌⊎◌, inl, inr, ap, ◌∙◌, arith}
use diffmonger.Base.Power.{
  two-pow-pos, OddTimes, odd_times, PowerOrder, power_order, smaller, same, larger,
}
use diffmonger.Tree.{lsb}
use diffmonger.Tree.Lsb.{lsb-OddTimes}
use diffmonger.Tree.Spec.{demise}

-- The lowest set bit of a node is a power of two.
lsb_levels :
    (k e : ℕ)
    → PowerOrder k e
    → 2 ^ e ≤ 2 ^ k
    → (2 ^ k ≡ 2 ^ e) ⊎ ((c : ℕ) × (2 ^ k ≡ c * (2 * 2 ^ e)) × (0 < c))
lsb_levels k e (smaller c pos h) le =
    absurd (omega (arith, h, two-pow-pos k, mul-le-mul_right {m = 1} {n = c} (2 * 2 ^ k) pos))
lsb_levels k e (same h) le = inl (rw h)
lsb_levels k e (larger c pos h) le = inr (c, h, pos)

-- What dies at `n`, with a lowest set bit of at least `2 ^ e`, makes `n` a multiple of twice that.
pub record IsDying (n e x : ℕ) : Type 0 where
  pub times : ℕ
  pub multiple : n ≡ times * (2 * 2 ^ e)
  pub large : 4 * 2 ^ e ≤ n
  pub level_or_above : (lsb x ≡ 2 ^ e) ⊎ (2 * 2 ^ e ≤ lsb x)

pub dying : (n e x : ℕ) → n < 2 ^ 63 → 0 < x → demise x ≡ n → 2 ^ e ≤ lsb x → IsDying n e x
dying n e x h pos d low =
    of_level (lsb_levels o.exponent e (power_order o.exponent e) (rw bit at low)) bit
  where
    o : OddTimes x
    o = odd_times x pos

    bit : lsb x ≡ 2 ^ o.exponent
    bit = lsb-OddTimes x o (omega arith)

    of_level :
        (2 ^ o.exponent ≡ 2 ^ e) ⊎ ((c : ℕ) × (2 ^ o.exponent ≡ c * (2 * 2 ^ e)) × (0 < c))
        → lsb x ≡ 2 ^ o.exponent
        → IsDying n e x
    of_level (inl eq) bit = record {
      times = o.half + 2;
      multiple = omega (arith, o.split, ap (λ (y : ℕ). o.half * y) eq);
      large = omega (arith, o.split);
      level_or_above = inl (bit ∙ eq);
    }
    of_level (inr (c, eq, pc)) bit = record {
      times = (o.half + 2) * (2 * c);
      multiple = omega (arith, o.split, ap (λ (y : ℕ). o.half * y) eq);
      large = omega (arith, o.split, mul-le-mul_right {m = 1} {n = c} (2 * 2 ^ e) pc);
      level_or_above = inr (omega (arith, mul-le-mul_right {m = 1} {n = c} (2 * 2 ^ e) pc));
    }

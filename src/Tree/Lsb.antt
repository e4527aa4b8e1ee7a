-- ===== src/Tree/Lsb.antt =====
-- The lowest set bit, for the words as C++ computes it.
use diffmonger.Base.{ℕ, suc, ◌+◌, ◌-◌, ◌*◌, ◌^◌, ◌≤◌, ◌<◌, ◌≡◌, refl, sym, ap, ◌∙◌, arith}
use diffmonger.Base.Power.{
  PowerOrder, smaller, same, larger, power_order, OddTimes, odd_times, two-pow-suc, two-pow-pos,
  odd-ne-even,
}
use diffmonger.Base.Word.Bits.{bit_and_negated}
use diffmonger.Tree.{lsb, fenwick_parent}

odd_multiple-pos : (a k : ℕ) → 0 < (2 * a + 1) * 2 ^ k
odd_multiple-pos a k = grind (arith, two-pow-pos k)

two-pow-le_odd_multiple : (a k : ℕ) → 2 ^ k ≤ (2 * a + 1) * 2 ^ k
two-pow-le_odd_multiple a k = omega arith

lsb-zero : lsb 0 ≡ 0
unfolding lsb
lsb-zero = refl

-- `node & -node` of an odd multiple of `2 ^ k` is `2 ^ k`.
pub lsb-odd_multiple : (a k : ℕ) → (2 * a + 1) * 2 ^ k < 2 ^ 64 → lsb ((2 * a + 1) * 2 ^ k) ≡ 2 ^ k
unfolding lsb
lsb-odd_multiple a k h = ground (arith, two-pow-pos k, odd_multiple-pos a k, bit_and_negated k 64 a)

pub lsb-OddTimes : (n : ℕ) (o : OddTimes n) → n < 2 ^ 64 → lsb n ≡ 2 ^ o.exponent
lsb-OddTimes n o h = rw (o.split) (lsb-odd_multiple o.half o.exponent (rw (← o.split) h))

pub lsb-pos : (n : ℕ) → 0 < n → n < 2 ^ 64 → 0 < lsb n
lsb-pos n pos h =
    let o = odd_times n pos in omega (arith, lsb-OddTimes n o h, two-pow-pos o.exponent)

pub lsb-le : (n : ℕ) → 0 < n → n < 2 ^ 64 → lsb n ≤ n
lsb-le n pos h =
    let o = odd_times n pos in
    omega (arith, lsb-OddTimes n o h, o.split, two-pow-le_odd_multiple o.half o.exponent)

-- The parent of a node is the node less its lowest set bit.
pub fenwick_parent_lem : (n : ℕ) → n < 2 ^ 64 → fenwick_parent n ≡ n - lsb n
unfolding fenwick_parent
fenwick_parent_lem n h = ground (arith, lsb-zero, lsb-le n)

-- A power of two that divides a node is at most its lowest set bit.
multiple-le-exponent :
    (k e b c : ℕ) → (2 * b + 1) * 2 ^ e ≡ c * 2 ^ k → PowerOrder k e → 2 ^ k ≤ 2 ^ e
multiple-le-exponent k e b c h (smaller d pos eq) = grind arith
multiple-le-exponent k e b c h (same eq) = rw eq (omega arith)
multiple-le-exponent k e b c h (larger d pos eq) =
    absurd
      (odd-ne-even (2 ^ e) b (c * d) (two-pow-pos e) (omega (arith, h, ap (λ (t : ℕ). c * t) eq)))

pub multiple-le-lsb : (n k c : ℕ) → 0 < n → n < 2 ^ 64 → n ≡ c * 2 ^ k → 2 ^ k ≤ lsb n
multiple-le-lsb n k c pos h e =
    let o = odd_times n pos in
    rw (lsb-OddTimes n o h)
      (multiple-le-exponent k o.exponent o.half c (sym o.split ∙ e) (power_order k o.exponent))

-- The lowest set bit of a parent is at least twice that of the child.
pub lsb_parent : (n : ℕ) → lsb n < n → n < 2 ^ 64 → 2 * lsb n ≤ lsb (n - lsb n)
lsb_parent n pos h =
    let o = odd_times n (omega arith) in
    let multiple : n - lsb n ≡ o.half * 2 ^ suc o.exponent =
      rw two-pow-suc (omega (arith, lsb-OddTimes n o h, o.split)) in
    omega (
      arith,
      lsb-OddTimes n o h,
      two-pow-suc o.exponent,
      multiple-le-lsb (n - lsb n) (suc o.exponent) o.half (omega arith) (omega arith) multiple,
    )

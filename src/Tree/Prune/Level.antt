-- ===== src/Tree/Prune/Level.antt =====
-- One round of `prune`'s loop, by the bits of the node above and below the mask's.
use native.Mathlib.Nat.{div-add-mod, mod-lt, mul-le-mul_right}
use diffmonger.Base.{ℕ, suc, ◌+◌, ◌-◌, ◌*◌, ◌/◌, ◌%◌, ◌^◌, ◌≤◌, ◌<◌, ◌≡◌, sym, subst, arith}
use diffmonger.Base.{bit_and, bit_or, leb, if◌then◌else◌}
use diffmonger.Base.Power.{two-pow-suc, two-pow-pos, two-pow_mono}
use diffmonger.Base.Word.Bits.{bit_and_clear, bit_and_low}
use diffmonger.Tree.{returned, emit, stop, time_of_demise, demise_assertion, prune_loop}

-- The bits of `n` above and below a level.
pub record IsLevel (n t c s : ℕ) : Type 0 where
  pub pos : 0 < t
  pub small : t ≤ 2 ^ 63
  pub split : n ≡ c * (2 * t) + s
  pub low : s < 2 * t
  pub high_bits : bit_and n (2 ^ 64 - 2 * t) ≡ c * (2 * t)
  pub low_bits : bit_and n (2 * t - 1) ≡ s

module _ (fuel n t c s : ℕ) (h : n < 2 ^ 63) (l : IsLevel n t c s) where
  pub at_least : 0 < c → (2 * t ≤ n) × (2 * t ≤ c * (2 * t))
  at_least pc = omega (arith, l.split, mul-le-mul_right {m = 1} {n = c} (2 * t) pc)

  pub above_all : c ≡ 0 → prune_loop (suc fuel) n (2 * t - 1) ≡ stop returned
  unfolding prune_loop
  above_all e = ground (arith, l.high_bits)

  pub below_bit : 0 < c → 0 < s → prune_loop (suc fuel) n (2 * t - 1) ≡ stop returned
  unfolding prune_loop
  below_bit pc ps = ground (arith, l.high_bits, l.low_bits, at_least pc, l.pos)

  pub at_level :
      0 < c
      → s ≡ 0
      → prune_loop (suc fuel) n (2 * t - 1) ≡ (
          let rest = prune_loop fuel n (bit_or (2 * t - 1) ((2 * t - 1) * 2)) in
          if leb (3 * t) n
          then emit (n - 3 * t) (demise_assertion (time_of_demise (n - 3 * t)) n rest)
          else rest)
  unfolding prune_loop
  at_level pc e = ground (arith, l.high_bits, l.low_bits, at_least pc, l.pos)

pub level :
    (n e fuel : ℕ)
    → suc e + fuel ≡ 64
    → n < 2 ^ 63
    → IsLevel n (2 ^ e) (n / (2 * 2 ^ e)) (n % (2 * 2 ^ e))
level n e fuel w h = record {
  pos = two-pow-pos e;
  small = two-pow_mono e 63 (omega arith);
  split = split;
  low = low;
  high_bits = rw (two-pow-suc e) at (
      bit_and_clear (suc e) fuel (n / (2 * 2 ^ e)) (n % (2 * 2 ^ e)) n (2 ^ 64 - 2 * 2 ^ e) w
        (rw (two-pow-suc e) split) (rw (two-pow-suc e) low) (omega arith) (rw (two-pow-suc e)));
  low_bits =
      subst (λ x. bit_and x (2 * 2 ^ e - 1) ≡ n % (2 * 2 ^ e)) (sym split)
        (rw (two-pow-suc e) at
          (bit_and_low (suc e) (n / (2 * 2 ^ e)) (n % (2 * 2 ^ e)) (rw (two-pow-suc e) low)));
}
  where
    split : n ≡ n / (2 * 2 ^ e) * (2 * 2 ^ e) + n % (2 * 2 ^ e)
    split = omega (arith, div-add-mod n (2 * 2 ^ e))

    low : n % (2 * 2 ^ e) < 2 * 2 ^ e
    low = mod-lt n (omega (arith, two-pow-pos e))

-- ===== src/Tree/Prune.antt =====
-- `time_of_demise` and `prune`: the pruned nodes are those whose time of demise is the node.
mod Level
mod Dying
use native.Mathlib.Nat.{div-add-mod, mod-lt, mul-le-mul_right}
use diffmonger.Base.{
  zero_or_pos, ℕ, zero, suc, ◌+◌, ◌-◌, ◌*◌, ◌/◌, ◌%◌, ◌^◌, ◌≤◌, ◌<◌, ◌≡◌, ◌⊎◌, inl, inr, refl, ap,
  sym, subst, ◌∙◌, arith,
}
use diffmonger.Base.{
  bit_and, bit_or, Elem, Descends, Descends-mono, List, Option, some, none, true, false, leb,
  if◌then◌else◌,
}
use diffmonger.Base.Power.{
  two-pow-suc, two-pow-pos, two-pow_mono, OddTimes, odd_times, PowerOrder, power_order, smaller,
  same, larger, multiple_between,
}
use diffmonger.Base.Word.Bits.{bit_and_clear, bit_and_low, bit_or_shifted}
use diffmonger.Tree.{
  returned, Visit, emit, stop, lsb, time_of_demise, demise_assertion, prune_loop, prune,
}
use diffmonger.Tree.Lsb.{lsb-pos, lsb-odd_multiple, lsb-OddTimes, multiple-le-lsb}
use diffmonger.Tree.Spec.{demise}
use Level.{IsLevel, level, at_least, above_all, below_bit, at_level}
use Dying.{IsDying, dying}

-- Where the word does not overflow, `time_of_demise` is the mathematical time of demise.
pub time_of_demise_lem : (n : ℕ) → 0 < n → demise n < 2 ^ 64 → time_of_demise n ≡ some (demise n)
unfolding time_of_demise
time_of_demise_lem n pos h = ground arith

-- What is known of the visits from the level `t` on: they are the nodes that die at `n` and whose
-- lowest set bit is at least `t`, in descending order, and the loop returns.
pub record IsPruned (n t : ℕ) (v : Visit) : Type 0 where
  pub returns : v.end ≡ returned
  pub descends : Descends (n + 1 - 3 * t) v.nodes
  pub sound : (x : ℕ) → Elem x v.nodes → (0 < x) × (demise x ≡ n)
  pub complete : (x : ℕ) → 0 < x → demise x ≡ n → t ≤ lsb x → Elem x v.nodes

le_or_lt : (a b : ℕ) → (a ≤ b) ⊎ (b < a)
le_or_lt a b = ground arith

test_true : (a b : ℕ) → a ≤ b → leb a b ≡ true
test_true a b h = ground arith

test_false : (a b : ℕ) → b < a → leb a b ≡ false
test_false a b h = ground arith

nothing_more :
    (n e : ℕ) → ((x : ℕ) → IsDying n e x → ⊥) → n < 2 ^ 63 → IsPruned n (2 ^ e) (stop returned)
nothing_more n e no_more h = record {
  returns = refl;
  descends = tt;
  sound = λ x d. absurd d;
  complete = λ x pos d low. no_more x (dying n e x h pos d low);
}

-- At a multiple of the level the visited node is an odd multiple of half of that.
odd_node :
    (n e c : ℕ)
    → n < 2 ^ 63
    → n ≡ c * (2 * 2 ^ e)
    → 3 * 2 ^ e ≤ n
    → (0 < n - 3 * 2 ^ e) × (demise (n - 3 * 2 ^ e) ≡ n)
odd_node n e zero h split large = absurd (omega (arith, two-pow-pos e))
odd_node n e (suc zero) h split large = absurd (omega (arith, two-pow-pos e))
odd_node n e (suc (suc c)) h split large =
    let at : n - 3 * 2 ^ e ≡ (2 * c + 1) * 2 ^ e = omega arith in
    rw at (omega (arith, two-pow-pos e), omega (arith, at, lsb-odd_multiple c e))

-- A round that visits the node of its level, and one that does not.
module _ (n e c : ℕ) (rest : Visit) (h : n < 2 ^ 63) (split : n ≡ c * (2 * 2 ^ e))
    (later : IsPruned n (2 * 2 ^ e) rest) where
  without_level : n < 3 * 2 ^ e → IsPruned n (2 ^ e) rest
  without_level small = record {
    returns = later.returns;
    descends =
        Descends-mono (n + 1 - 3 * (2 * 2 ^ e)) (n + 1 - 3 * 2 ^ e) rest.nodes (omega arith)
          later.descends;
    sound = later.sound;
    complete = λ x pos d low. above x pos d (dying n e x h pos d low).level_or_above;
  }
    where
      above :
          (x : ℕ) → 0 < x → demise x ≡ n → (lsb x ≡ 2 ^ e) ⊎ (2 * 2 ^ e ≤ lsb x) → Elem x rest.nodes
      above x pos d (inl at) = absurd (omega arith)
      above x pos d (inr up) = later.complete x pos d up

  level_node : 3 * 2 ^ e ≤ n → (0 < n - 3 * 2 ^ e) × (demise (n - 3 * 2 ^ e) ≡ n)
  level_node large = odd_node n e c h split large

  with_level : 3 * 2 ^ e ≤ n → IsPruned n (2 ^ e) (emit (n - 3 * 2 ^ e) rest)
  with_level large = record {
    returns = later.returns;
    descends = (
      omega (arith, two-pow-pos e),
      Descends-mono (n + 1 - 3 * (2 * 2 ^ e)) (n - 3 * 2 ^ e) rest.nodes
          (omega (arith, two-pow-pos e)) later.descends,
    );
    sound = λ x d. elim d [ inl e ↦ rw e (level_node large) | inr up ↦ later.sound x up ];
    complete = λ x pos d low. at_or_above x pos d (dying n e x h pos d low).level_or_above;
  }
    where
      at_or_above :
          (x : ℕ)
          → 0 < x
          → demise x ≡ n
          → (lsb x ≡ 2 ^ e) ⊎ (2 * 2 ^ e ≤ lsb x)
          → (x ≡ n - 3 * 2 ^ e) ⊎ Elem x rest.nodes
      at_or_above x pos d (inl at) = inl (omega arith)
      at_or_above x pos d (inr up) = inr (later.complete x pos d up)

  -- The assertion holds, so the round goes on.
  assertion_holds : 3 * 2 ^ e ≤ n → demise_assertion (time_of_demise (n - 3 * 2 ^ e)) n rest ≡ rest
  unfolding demise_assertion
  assertion_holds large =
      let j = level_node large in
      rw (time_of_demise_lem (n - 3 * 2 ^ e) j.0 (omega (arith, j.1)), j.1) (ground arith)

  round-IsPruned : IsPruned n (2 ^ e) (
      if leb (3 * 2 ^ e) n
      then emit (n - 3 * 2 ^ e) (demise_assertion (time_of_demise (n - 3 * 2 ^ e)) n rest)
      else rest)
  round-IsPruned = elim (le_or_lt (3 * 2 ^ e) n) [
    | inl large ↦ rw (assertion_holds large, test_true (3 * 2 ^ e) n large) (with_level large)
    | inr small ↦ rw (test_false (3 * 2 ^ e) n small) (without_level small)
  ]

-- The mask grows by one bit.
next_mask : (e : ℕ) → bit_or (2 * 2 ^ e - 1) ((2 * 2 ^ e - 1) * 2) ≡ 2 * (2 * 2 ^ e) - 1
next_mask e = rw (two-pow-suc (suc e), two-pow-suc e) at (bit_or_shifted (suc e) (omega arith))

nothing_above : (n e c s x : ℕ) → IsLevel n (2 ^ e) c s → c ≡ 0 → IsDying n e x → ⊥
nothing_above n e c s x l no_bits d =
    omega (arith, l.split, l.low, d.large, ap (λ (y : ℕ). y * (2 * 2 ^ e)) no_bits)

nothing_odd : (n e c s x : ℕ) → IsLevel n (2 ^ e) c s → 0 < s → IsDying n e x → ⊥
nothing_odd n e c s x l odd d =
    let same_times : d.times ≡ c =
      multiple_between (2 * 2 ^ e) d.times c (omega (arith, l.split, d.multiple))
        (omega (arith, l.split, d.multiple, l.low)) in
    omega (arith, l.split, d.multiple, ap (λ (y : ℕ). y * (2 * 2 ^ e)) same_times)

pub prune_loop-IsPruned :
    (fuel e n : ℕ)
    → e + fuel ≡ 64
    → n < 2 ^ 63
    → 2 ^ e ≤ n
    → IsPruned n (2 ^ e) (prune_loop fuel n (2 * 2 ^ e - 1))
prune_loop-IsPruned zero e n w h big = absurd (omega (arith, two-pow_mono 64 e (omega arith)))
prune_loop-IsPruned (suc fuel) e n w h big =
    let c = n / (2 * 2 ^ e) in
    let s = n % (2 * 2 ^ e) in
    let l = level n e fuel (omega arith) h in
    elim (zero_or_pos c) [
      | inl no_bits ↦
          rw (above_all fuel n (2 ^ e) c s h l no_bits)
            (nothing_more n e (λ x. nothing_above n e c s x l no_bits) h)
      | inr bits ↦ elim (zero_or_pos s) [
        | inl even ↦
            let later =
              prune_loop-IsPruned fuel (suc e) n (omega arith) h
                (rw (two-pow-suc e) (at_least fuel n (2 ^ e) c s h l bits).0) in
            rw (at_level fuel n (2 ^ e) c s h l bits even, next_mask e)
              (round-IsPruned n e c _ h (omega (arith, l.split)) (rw (two-pow-suc e) at later))
        | inr odd ↦
            rw (below_bit fuel n (2 ^ e) c s h l bits odd)
              (nothing_more n e (λ x. nothing_odd n e c s x l odd) h)
      ]
    ]

prune-zero : prune 0 ≡ stop returned
unfolding prune prune_loop
prune-zero = refl

-- For a node below 2 ^ 63, `prune` returns with no assertion failed and `time_of_demise` defined
-- where it is asked for, and its calls are, in descending order and once each, for just the nodes
-- other than the root whose time of demise x + 3 LSB(x) is the node.
pub prune-IsPruned : (n : ℕ) → n < 2 ^ 63 → IsPruned n 1 (prune n)
prune-IsPruned zero h = rw prune-zero (record {
  returns = refl;
  descends = tt;
  sound = λ x d. absurd d;
  complete = λ x pos d low. absurd (omega arith);
})
prune-IsPruned (suc n) h = unfold prune in prune_loop-IsPruned 64 0 (suc n) refl h (omega arith)

-- ===== src/Tree/Alive.antt =====
-- `alive_after` visits the alive set of its node, in descending order.
mod Gap
mod Loop
pub use Loop.{IsWalk}
use native.Mathlib.Nat.{mul-one}
use diffmonger.Base.{
  ℕ, zero, suc, ◌+◌, ◌-◌, ◌*◌, ◌/◌, ◌%◌, ◌^◌, ◌≤◌, ◌<◌, ◌≡◌, ◌⊎◌, ◌↔◌, inl, inr, refl, ◌∙◌, arith,
}
use diffmonger.Base.{bit_and, Elem, Descends, List}
use diffmonger.Base.Word.Bits.{bit_and_clear}
use diffmonger.Base.Word.{not64, sub64}
use diffmonger.Tree.{returned, Visit, emit, stop, lsb, alive_loop, alive_after}
use diffmonger.Tree.Lsb.{lsb-pos}
use diffmonger.Tree.Spec.{Alive}
use Loop.{ended-IsWalk, alive_loop-IsWalk}

-- The first two rounds go from the node to its predecessor, and on to a multiple of two.
first_round :
    (fuel n : ℕ)
    → n < 2 ^ 63
    → alive_loop (suc fuel) (suc n) 1 (suc n)
      ≡ emit (suc n) (alive_loop fuel (suc n) 2 (bit_and n (2 ^ 64 - 1)))
unfolding alive_loop
first_round fuel n h = ground arith

second_round :
    (fuel n : ℕ)
    → n < 2 ^ 63
    → alive_loop (suc fuel) (suc (suc n)) 2 (suc n)
      ≡ emit (suc n) (alive_loop fuel (suc (suc n)) 4 (bit_and n (2 ^ 64 - 2)))
unfolding alive_loop
second_round fuel n h = ground arith

start_IsWalk :
    (n : ℕ)
    → suc (suc n) < 2 ^ 63
    → IsWalk (suc (suc n)) 2 (suc n) (alive_loop 62 (suc (suc n)) 4 (bit_and n (2 ^ 64 - 2)))
start_IsWalk n h =
    let walk =
      alive_loop-IsWalk 62 0 (n / 2) (2 + n % 2) (suc n) (suc (suc n)) refl h (omega arith)
        (omega arith) (omega arith) (omega arith) in
    rw
      (bit_and_clear 1 63 (n / 2) (n % 2) n (2 ^ 64 - 2) refl (omega arith) (omega arith)
        (omega arith) refl)
      (rw (mul-one (suc n)) at walk)

IsWalk-emit :
    (n m x : ℕ) (v : Visit) → Alive n x → IsWalk n (suc m) x v → IsWalk n m (suc x) (emit x v)
IsWalk-emit n m x v alive w = record {
  returns = w.returns;
  descends = (omega arith, w.descends);
  sound = λ y d. elim d [ inl e ↦ rw e alive | inr later ↦ w.sound y later ];
  complete = λ y a below. elim (last y below) [ inl e ↦ inl e | inr lt ↦ inr (w.complete y a lt) ];
  short = λ k h pos. omega (arith, w.short k h pos);
}
  where
    last : (y : ℕ) → y < suc x → (y ≡ x) ⊎ (y < x)
    last y below = ground arith

newest-Alive : (n : ℕ) → n < 2 ^ 63 → Alive n n
newest-Alive zero h = (omega arith, inl refl)
newest-Alive (suc n) h = (omega arith, inr (omega (arith, lsb-pos (suc n))))

previous-Alive : (n : ℕ) → suc n < 2 ^ 63 → Alive (suc n) n
previous-Alive zero h = (omega arith, inl refl)
previous-Alive (suc n) h = (omega arith, inr (omega (arith, lsb-pos (suc n))))

no_mask : (n : ℕ) → n < 2 ^ 63 → bit_and n (2 ^ 64 - 1) ≡ n
no_mask n h =
    bit_and_clear 0 64 n 0 n (2 ^ 64 - 1) refl (omega arith) (omega arith) (omega arith) refl
    ∙ mul-one n

root_first : alive_loop 64 0 1 0 ≡ emit 0 (stop returned)
unfolding alive_loop
root_first = refl

root_second : alive_loop 63 1 2 0 ≡ emit 0 (stop returned)
unfolding alive_loop
root_second = refl

from_second : (n : ℕ) → suc n < 2 ^ 63 → IsWalk (suc n) 1 (suc n) (alive_loop 63 (suc n) 2 n)
from_second zero h = rw root_second (
    IsWalk-emit 1 1 0 (stop returned) (omega arith, inl refl)
      (ended-IsWalk 1 2 0 refl (λ w h pos. omega arith)))
from_second (suc n) h =
    rw (second_round 62 n (omega arith))
      (IsWalk-emit (suc (suc n)) 1 (suc n) _ (previous-Alive (suc n) h) (start_IsWalk n h))

-- For a node below 2 ^ 63, `alive_after` returns with no assertion failed, and its calls are, in
-- descending order and once each, for just the alive nodes: the root, and those up to the node
-- whose time of demise x + 3 LSB(x) is later; if the node has `w` bits they are at most `2 * w`.
pub alive_after-IsWalk : (n : ℕ) → n < 2 ^ 63 → IsWalk n 0 (suc n) (alive_after n)
unfolding alive_after
alive_after-IsWalk zero h = rw root_first (
    IsWalk-emit 0 0 0 (stop returned) (omega arith, inl refl)
      (ended-IsWalk 0 1 0 refl (λ w h pos. omega arith)))
alive_after-IsWalk (suc n) h =
    rw (first_round 63 n (omega arith), no_mask n (omega arith))
      (IsWalk-emit (suc n) 0 (suc n) _ (newest-Alive (suc n) h) (from_second n h))

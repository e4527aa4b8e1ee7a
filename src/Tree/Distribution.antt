-- ===== src/Tree/Distribution.antt =====
-- The node distribution invariant of README.md: at any distance back there is an alive node that
-- is at most twice as near.
use native.Mathlib.Nat.{div-add-mod, mod-lt}
use diffmonger.Base.{
  ℕ, zero, suc, ◌+◌, ◌*◌, ◌/◌, ◌%◌, ◌^◌, ◌≤◌, ◌<◌, ◌≡◌, ◌⊎◌, inl, inr, refl, arith,
}
use diffmonger.Base.{Elem}
use diffmonger.Base.Power.{two-pow-suc, two-pow-pos}
use diffmonger.Tree.{lsb, alive_after}
use diffmonger.Tree.Lsb.{lsb-pos, multiple-le-lsb}
use diffmonger.Tree.Spec.{Alive}
use diffmonger.Tree.Evolution.{alive_after_iff}

-- A multiple of a power of two is alive for three times that power.
multiple-Alive :
    (n c e : ℕ) → n < 2 ^ 63 → c * 2 ^ e ≤ n → n < c * 2 ^ e + 3 * 2 ^ e → Alive n (c * 2 ^ e)
multiple-Alive n c e h le near = elim (zero_or_pos (c * 2 ^ e)) [
  | inl root ↦ (le, inl root)
  | inr pos ↦ (le, inr (omega (arith, multiple-le-lsb (c * 2 ^ e) e c pos (omega arith) refl)))
]
  where
    zero_or_pos : (y : ℕ) → (y ≡ 0) ⊎ (0 < y)
    zero_or_pos y = ground arith

-- The power of two of a distance.
record Scale (m : ℕ) : Type 0 where
  exponent : ℕ
  at_least : 2 * 2 ^ exponent ≤ m
  below : m < 4 * 2 ^ exponent

Scale-fuel : (f m : ℕ) → m ≤ f → 2 ≤ m → Scale m
Scale-fuel zero m h lo = absurd (omega arith)
Scale-fuel (suc f) m h lo = elim (small_or_large m) [
  | inl small ↦ record { exponent = 0; at_least = lo; below = small }
  | inr large ↦ double (Scale-fuel f (m / 2) (omega arith) (omega arith))
]
  where
    small_or_large : (y : ℕ) → (y < 4) ⊎ (4 ≤ y)
    small_or_large y = ground arith

    double : Scale (m / 2) → Scale m
    double s = record {
      exponent = suc s.exponent;
      at_least = rw two-pow-suc (omega (arith, s.at_least));
      below = rw two-pow-suc (omega (arith, s.below));
    }

-- An alive node between the distances `m` and `m / 2` from `n`.
abbrev pub Near : ℕ → ℕ → ℕ → Type 0
Near n m k = (n ≤ k + m) × (k + m / 2 ≤ n)

record NearAlive (n m : ℕ) : Type 0 where
  node : ℕ
  alive : Alive n node
  near : Near n m node

-- `n` is `c` whole powers of two and a rest.
near_at :
    (n m e c r : ℕ)
    → n < 2 ^ 63
    → m ≤ n
    → n ≡ c * 2 ^ e + r
    → r < 2 ^ e
    → 2 * 2 ^ e ≤ m
    → m < 4 * 2 ^ e
    → NearAlive n m
near_at n m e zero r h le split low lo hi = absurd (omega arith)
near_at n m e (suc zero) r h le split low lo hi = absurd (omega arith)
near_at n m e (suc (suc c)) r h le split low lo hi = elim (reaches (r + 2 * 2 ^ e) m) [
  | inl fits ↦ record {
    node = c * 2 ^ e;
    alive = multiple-Alive n c e h (omega arith) (omega arith);
    near = omega arith;
  }
  | inr over ↦ record {
    node = suc c * 2 ^ e;
    alive = multiple-Alive n (suc c) e h (omega arith) (omega arith);
    near = omega arith;
  }
]
  where
    reaches : (x y : ℕ) → (x ≤ y) ⊎ (y < x)
    reaches x y = ground arith

previous : (n : ℕ) → suc n < 2 ^ 63 → (n ≡ 0) ⊎ (suc n < n + 3 * lsb n)
previous zero h = inl refl
previous (suc n) h = inr (omega (arith, lsb-pos (suc n)))

near_alive : (n m : ℕ) → n < 2 ^ 63 → 0 < m → m ≤ n → NearAlive n m
near_alive n zero h pos le = absurd (omega arith)
near_alive zero (suc zero) h pos le = absurd (omega arith)
near_alive (suc n) (suc zero) h pos le = record {
  node = n;
  alive = (omega arith, previous n h);
  near = omega arith;
}
near_alive n (suc (suc m)) h pos le =
    let s = Scale-fuel (suc (suc m)) (suc (suc m)) (omega arith) (omega arith) in
    let p = 2 ^ s.exponent in
    near_at n (suc (suc m)) s.exponent (n / p) (n % p) h le (omega (arith, div-add-mod n p))
      (mod-lt n (two-pow-pos s.exponent)) s.at_least s.below

-- For a node `n` below 2 ^ 63 and a distance `m` from 1 to `n`, `alive_after` visits a node whose
-- distance back from `n` is at most `m` and at least half of `m`, rounded down.
pub alive_after-distribution :
    (n m : ℕ) → n < 2 ^ 63 → 0 < m → m ≤ n → (k : ℕ) × Elem k (alive_after n).nodes × Near n m k
alive_after-distribution n m h pos le =
    let a = near_alive n m h pos le in (a.node, (alive_after_iff n a.node h).1 a.alive, a.near)

-- ===== src/Tree/Alive/Gap.antt =====
-- Between two anchors of the walk of `alive_after` the alive nodes are the candidate and the lower
-- anchor. The anchors are at `b * (2 * 2 ^ e)`, and `n` is `r` above, from `2 * 2 ^ e` to
-- `4 * 2 ^ e`; the candidate, `2 ^ e` above the anchor, is alive if `r` is at least `3 * 2 ^ e`.
use native.Mathlib.Nat.{mul-le-mul_right, le_of_mul-le-mul_right, lt_of_mul-lt-mul_right}
use diffmonger.Base.{
  ℕ, zero, suc, ◌+◌, ◌*◌, ◌^◌, ◌≤◌, ◌<◌, ◌≡◌, ◌⊎◌, inl, inr, refl, ap, ◌∙◌, arith,
}
use diffmonger.Base.Power.{
  PowerOrder, smaller, same, larger, power_order, odd_times, two-pow-suc, two-pow-pos,
  multiple_between,
}
use diffmonger.Tree.Lsb.{lsb-odd_multiple, lsb-OddTimes, multiple-le-lsb}
use diffmonger.Tree.Spec.{Alive}

-- The upper anchor is at `q * t`.
abbrev pub IsUpper : ℕ → ℕ → ℕ → ℕ → Type 0
IsUpper t b r q = (r < 3 * t) × (q ≡ 2 * b + 1) ⊎ (3 * t ≤ r) × (q ≡ 2 * b + 2)

IsUpper-le : (t b r q : ℕ) → 2 * t ≤ r → IsUpper t b r q → q * t + t ≤ 2 * b * t + r
IsUpper-le t b r q lo (inl h) = rw h.1 (omega arith)
IsUpper-le t b r q lo (inr h) = rw h.1 (omega arith)

-- A node whose lowest set bit is below `t` died before `n`.
finer_dead :
    (n l t c a q : ℕ)
    → 0 < c
    → t ≡ c * (2 * l)
    → (2 * a + 1) * l < q * t
    → q * t + t ≤ n
    → n < (2 * a + 1) * l + 3 * l
    → ⊥
finer_dead n l t c a q pos e below above near = omega (
  arith,
  below,
  ap (λ (x : ℕ). q * x) e,
  mul-le-mul_right l (
      le_below (
        lt_of_mul-lt-mul_right l {m = 2 * a + 1} {n = q * c * 2}
          (omega (arith, ap (λ (x : ℕ). q * x) e)))),
  mul-le-mul_right l pos,
)
  where
    le_below : 2 * a + 1 < q * c * 2 → a + 1 ≤ q * c
    le_below h = omega arith

-- A node whose lowest set bit is `t`, between the anchors, is the candidate.
level_node :
    (t b r q a : ℕ)
    → 0 < t
    → IsUpper t b r q
    → 2 * b * t ≤ (2 * a + 1) * t
    → (2 * a + 1) * t < q * t
    → (3 * t ≤ r) × ((2 * a + 1) * t ≡ (2 * b + 1) * t)
level_node t b r q a pos up above below = (found.0, ap (λ (x : ℕ). (2 * x + 1) * t) found.1)
  where
    found_of : 2 * b ≤ 2 * a + 1 → 2 * a + 1 < q → (3 * t ≤ r) × (a ≡ b)
    found_of lo hi = omega arith

    found : (3 * t ≤ r) × (a ≡ b)
    found = found_of (le_of_mul-le-mul_right above pos) (lt_of_mul-lt-mul_right t below)

-- A node whose lowest set bit is above `t`, between the anchors, is the lower anchor.
coarser_node :
    (l t b r q c a : ℕ)
    → l ≡ c * (2 * t)
    → IsUpper t b r q
    → 2 * b * t ≤ (2 * a + 1) * l
    → (2 * a + 1) * l < q * t
    → (2 * a + 1) * l ≡ b * (2 * t)
coarser_node l t b r q c a e up above below =
    let multiple : (2 * a + 1) * l ≡ (2 * a + 1) * c * (2 * t) =
      omega (arith, ap (λ (x : ℕ). (2 * a + 1) * x) e) in
    let top : q * t ≤ suc b * (2 * t) =
      omega (arith, mul-le-mul_right {m = q} {n = 2 * b + 2} t (omega arith)) in
    multiple
    ∙ ap (λ (x : ℕ). x * (2 * t))
        (multiple_between (2 * t) ((2 * a + 1) * c) b (omega (arith, multiple))
          (omega (arith, multiple)))

-- What one round of the walk has to visit.
abbrev pub IsVisited : ℕ → ℕ → ℕ → ℕ → Type 0
IsVisited t b r x = (3 * t ≤ r) × (x ≡ (2 * b + 1) * t) ⊎ (x ≡ b * (2 * t))

gap_split :
    (n k e a b r q : ℕ)
    → n ≡ 2 * b * 2 ^ e + r
    → 2 * 2 ^ e ≤ r
    → IsUpper (2 ^ e) b r q
    → 2 * b * 2 ^ e ≤ (2 * a + 1) * 2 ^ k
    → (2 * a + 1) * 2 ^ k < q * 2 ^ e
    → n < (2 * a + 1) * 2 ^ k + 3 * 2 ^ k
    → PowerOrder k e
    → IsVisited (2 ^ e) b r ((2 * a + 1) * 2 ^ k)
gap_split n k e a b r q eq lo up above below near (smaller c pos h) = absurd (
    finer_dead n (2 ^ k) (2 ^ e) c a q pos h below (omega (arith, IsUpper-le (2 ^ e) b r q lo up))
      near)
gap_split n k e a b r q eq lo up above below near (same h) =
    rw h (inl (level_node (2 ^ e) b r q a (two-pow-pos e) up (rw h at above) (rw h at below)))
gap_split n k e a b r q eq lo up above below near (larger c pos h) =
    inr (coarser_node (2 ^ k) (2 ^ e) b r q c a h up above below)

-- Below the upper anchor and not below the lower one, an alive node is visited by the round.
pub Alive-gap :
    (n x e b r q : ℕ)
    → n < 2 ^ 64
    → n ≡ 2 * b * 2 ^ e + r
    → 2 * 2 ^ e ≤ r
    → IsUpper (2 ^ e) b r q
    → Alive n x
    → b * (2 * 2 ^ e) ≤ x
    → x < q * 2 ^ e
    → IsVisited (2 ^ e) b r x
Alive-gap n zero e b r q h eq lo up alive above below = inr (omega arith)
Alive-gap n (suc x) e b r q h eq lo up alive above below =
    let o = odd_times (suc x) (omega arith) in
    let bit = lsb-OddTimes (suc x) o (omega arith) in
    rw o.split (
      gap_split n o.exponent e o.half b r q eq lo up (omega (arith, o.split)) (rw o.split at below)
        (omega (arith, bit, o.split)) (power_order o.exponent e))

-- What the round visits is alive.
pub IsVisited-Alive :
    (n x e b r : ℕ)
    → n < 2 ^ 64
    → n ≡ 2 * b * 2 ^ e + r
    → 2 * 2 ^ e ≤ r
    → r < 4 * 2 ^ e
    → IsVisited (2 ^ e) b r x
    → Alive n x
IsVisited-Alive n x e b r h eq lo hi (inl (wide, at)) =
    rw at (omega arith, inr (omega (arith, lsb-odd_multiple b e)))
IsVisited-Alive n zero e b r h eq lo hi (inr at) = (omega arith, inl refl)
IsVisited-Alive n (suc x) e b r h eq lo hi (inr at) = (
  omega arith,
  inr (
      omega (
        arith,
        at,
        two-pow-suc e,
        multiple-le-lsb (suc x) (suc e) b (omega arith) (omega arith) (rw two-pow-suc at),
      )),
)

-- ===== src/Tree/Alive/Loop.antt =====
-- The walk of `alive_after` from an anchor on, by induction on the fuel.
use diffmonger.Base.{
  ℕ, zero, suc, ◌+◌, ◌-◌, ◌*◌, ◌/◌, ◌%◌, ◌^◌, ◌≤◌, ◌<◌, ◌≡◌, ◌⊎◌, inl, inr, refl, ap, subst, ◌∙◌,
  arith,
}
use diffmonger.Base.{leb, if◌then◌else◌, bit_and, ◌∷◌, length, Elem, Descends}
use diffmonger.Base.Power.{two-pow-suc, two-pow-pos, two-pow_mono}
use diffmonger.Base.Word.Bits.{bit_and_clear}
use diffmonger.Tree.{returned, Visit, stop, emit, alive_loop}
use diffmonger.Tree.Spec.{Alive}
use diffmonger.Tree.Alive.Gap.{IsUpper, IsVisited, Alive-gap, IsVisited-Alive}

-- The calls of one round.
abbrev round : ℕ → ℕ → ℕ → Visit → Visit
round t b r rest =
    if leb (3 * t) r
    then emit ((2 * b + 1) * t) (emit (b * (2 * t)) rest)
    else emit (b * (2 * t)) rest

last_round :
    (fuel t n : ℕ)
    → 0 < t
    → 2 * t ≤ n
    → n < 4 * t
    → n < 2 ^ 63
    → alive_loop (suc fuel) n (4 * t) (0 * (2 * t)) ≡ round t 0 n (stop returned)
unfolding alive_loop
last_round fuel t n pos lo hi h = ground arith

one_round :
    (fuel t b r n : ℕ)
    → 0 < t
    → n ≡ 2 * suc b * t + r
    → 2 * t ≤ r
    → r < 4 * t
    → n < 2 ^ 63
    → alive_loop (suc fuel) n (4 * t) (suc b * (2 * t))
      ≡ round t
          (suc b)
          r
          (alive_loop fuel n (4 * (2 * t)) (bit_and (suc b * (2 * t) - 1) (2 ^ 64 - 4 * t)))
unfolding alive_loop
one_round fuel t b r n pos eq lo hi h = ground arith

-- The mask takes the walk to the next anchor, from an odd or an even multiple.
next_anchor :
    (fuel e b c s : ℕ)
    → e + suc fuel ≡ 62
    → suc b ≡ 2 * c + s
    → (s ≡ 1) ⊎ (s ≡ 2)
    → suc b * (2 * 2 ^ e) < 2 ^ 64
    → bit_and (suc b * (2 * 2 ^ e) - 1) (2 ^ 64 - 4 * 2 ^ e) ≡ c * (2 * (2 * 2 ^ e))
next_anchor fuel e b c s w split bit h =
    bit_and_clear (suc (suc e)) (suc fuel) c (s * (2 * 2 ^ e) - 1) (suc b * (2 * 2 ^ e) - 1)
      (2 ^ 64 - 4 * 2 ^ e) (omega arith) (expand bit) (fits bit) (omega arith)
      (omega (arith, power))
    ∙ ap (λ (x : ℕ). c * x) (omega (arith, power))
  where
    power : 2 ^ suc (suc e) ≡ 4 * 2 ^ e
    power = omega (arith, two-pow-suc e, two-pow-suc (suc e))

    fits : (s ≡ 1) ⊎ (s ≡ 2) → s * (2 * 2 ^ e) - 1 < 2 ^ suc (suc e)
    fits (inl one) = rw (one, power) (omega (arith, two-pow-pos e))
    fits (inr two) = rw (two, power) (omega (arith, two-pow-pos e))

    expand :
        (s ≡ 1) ⊎ (s ≡ 2) → suc b * (2 * 2 ^ e) - 1 ≡ c * 2 ^ suc (suc e) + (s * (2 * 2 ^ e) - 1)
    expand (inl one) = rw (split, one, power) (omega (arith, two-pow-pos e))
    expand (inr two) = rw (split, two, power) (omega (arith, two-pow-pos e))

-- What is known of the visits below the bound `top`: they are the alive nodes there, in descending
-- order, and the walk returns. With the `spent` nodes visited before, they are at most two for each
-- bit of `n`.
pub record IsWalk (n spent top : ℕ) (v : Visit) : Type 0 where
  pub returns : v.end ≡ returned
  pub descends : Descends top v.nodes
  pub sound : (x : ℕ) → Elem x v.nodes → Alive n x
  pub complete : (x : ℕ) → Alive n x → x < top → Elem x v.nodes
  pub short : (w : ℕ) → n < 2 ^ w → 0 < w → length v.nodes + spent ≤ 2 * w

le_or_lt : (a b : ℕ) → (a ≤ b) ⊎ (b < a)
le_or_lt a b = ground arith

round-narrow : (t b r : ℕ) (rest : Visit) → r < 3 * t → round t b r rest ≡ emit (b * (2 * t)) rest
round-narrow t b r rest h = ground arith

round-wide :
    (t b r : ℕ) (rest : Visit)
    → 3 * t ≤ r
    → round t b r rest ≡ emit ((2 * b + 1) * t) (emit (b * (2 * t)) rest)
round-wide t b r rest h = ground arith

-- A round visits the alive nodes between its anchors, before those that the rest visits.
module _ (n m e b r q : ℕ) (rest : Visit) (h : n < 2 ^ 64) (eq : n ≡ 2 * b * 2 ^ e + r)
    (lo : 2 * 2 ^ e ≤ r) (hi : r < 4 * 2 ^ e) (up : IsUpper (2 ^ e) b r q)
    (w : IsWalk n (m + 2) (b * (2 * 2 ^ e)) rest) where
  visited-Alive : (x : ℕ) → IsVisited (2 ^ e) b r x → Alive n x
  visited-Alive x v = IsVisited-Alive n x e b r h eq lo hi v

  complete_from :
      (x : ℕ) (v : Visit)
      → (IsVisited (2 ^ e) b r x → Elem x v.nodes)
      → (Elem x rest.nodes → Elem x v.nodes)
      → Alive n x
      → x < q * 2 ^ e
      → Elem x v.nodes
  complete_from x v here later alive below = elim (le_or_lt (b * (2 * 2 ^ e)) x) [
    | inl ge ↦ here (Alive-gap n x e b r q h eq lo up alive ge below)
    | inr lt ↦ later (w.complete x alive lt)
  ]

  narrow-IsWalk : r < 3 * 2 ^ e → IsWalk n m (q * 2 ^ e) (emit (b * (2 * 2 ^ e)) rest)
  narrow-IsWalk narrow = record {
    returns = w.returns;
    descends = (rw (below up) (omega (arith, two-pow-pos e)), w.descends);
    sound = λ x d. elim d [ inl at ↦ visited-Alive x (inr at) | inr later ↦ w.sound x later ];
    complete = λ x. complete_from x (emit (b * (2 * 2 ^ e)) rest) here inr;
    short = λ v h pos. omega (arith, w.short v h pos);
  }
    where
      below : IsUpper (2 ^ e) b r q → q ≡ 2 * b + 1
      below (inl u) = u.1
      below (inr u) = absurd (omega arith)

      here : {x : ℕ} → IsVisited (2 ^ e) b r x → Elem x (b * (2 * 2 ^ e) ∷ rest.nodes)
      here (inl v) = absurd (omega arith)
      here (inr v) = inl v

  wide-IsWalk :
      3 * 2 ^ e ≤ r
      → IsWalk n m (q * 2 ^ e) (emit ((2 * b + 1) * 2 ^ e) (emit (b * (2 * 2 ^ e)) rest))
  wide-IsWalk wide = record {
    returns = w.returns;
    descends =
        (rw (below up) (omega (arith, two-pow-pos e)), (omega (arith, two-pow-pos e), w.descends));
    sound = λ x d. elim d [
      | inl at ↦ visited-Alive x (inl (wide, at))
      | inr (inl at) ↦ visited-Alive x (inr at)
      | inr (inr later) ↦ w.sound x later
    ];
    complete = λ x.
        complete_from x (emit ((2 * b + 1) * 2 ^ e) (emit (b * (2 * 2 ^ e)) rest)) here
          (λ d. inr (inr d));
    short = λ v h pos. omega (arith, w.short v h pos);
  }
    where
      below : IsUpper (2 ^ e) b r q → q ≡ 2 * b + 2
      below (inl u) = absurd (omega arith)
      below (inr u) = u.1

      here :
          {x : ℕ}
          → IsVisited (2 ^ e) b r x
          → Elem x ((2 * b + 1) * 2 ^ e ∷ b * (2 * 2 ^ e) ∷ rest.nodes)
      here (inl v) = inl v.1
      here (inr v) = inr (inl v)

  round-IsWalk : IsWalk n m (q * 2 ^ e) (round (2 ^ e) b r rest)
  round-IsWalk = elim (le_or_lt (3 * 2 ^ e) r) [
    | inl wide ↦ rw (round-wide (2 ^ e) b r rest wide) (wide-IsWalk wide)
    | inr narrow ↦ rw (round-narrow (2 ^ e) b r rest narrow) (narrow-IsWalk narrow)
  ]

-- Nothing is alive below the root.
pub ended-IsWalk :
    (n m top : ℕ)
    → top ≡ 0
    → ((w : ℕ) → n < 2 ^ w → 0 < w → m ≤ 2 * w)
    → IsWalk n m top (stop returned)
ended-IsWalk n m top zero_top fits = record {
  returns = refl;
  descends = tt;
  sound = λ x d. absurd d;
  complete = λ x alive lt. absurd (omega arith);
  short = λ w h pos. omega (arith, fits w h pos);
}

-- A power of two that is not greater than `n` bounds its length from below.
pub bits_at_least : (e n w : ℕ) → 2 ^ e ≤ n → n < 2 ^ w → e < w
bits_at_least e n w le h = elim (le_or_lt w e) [
  | inl ge ↦ absurd (omega (arith, two-pow_mono w e ge))
  | inr lt ↦ lt
]

-- The next anchor above `b` is at an odd or an even multiple.
record Parity (b : ℕ) : Type 0 where
  half : ℕ
  low : ℕ
  split : suc b ≡ 2 * half + low
  one_or_two : (low ≡ 1) ⊎ (low ≡ 2)

parity : (b : ℕ) → Parity b
parity b = record { half = b / 2; low = b % 2 + 1; split = omega arith; one_or_two = omega arith }

next-IsUpper :
    (t b c s r : ℕ)
    → 2 * t ≤ r
    → r < 4 * t
    → suc b ≡ 2 * c + s
    → (s ≡ 1) ⊎ (s ≡ 2)
    → IsUpper (2 * t) c (2 * s * t + r) (suc b)
next-IsUpper t b c s r lo hi split (inl one) = inl (rw one (omega arith), omega arith)
next-IsUpper t b c s r lo hi split (inr two) = inr (rw two (omega arith), omega arith)

next_bounds :
    (t s r : ℕ)
    → 2 * t ≤ r
    → r < 4 * t
    → (s ≡ 1) ⊎ (s ≡ 2)
    → (2 * (2 * t) ≤ 2 * s * t + r) × (2 * s * t + r < 4 * (2 * t))
next_bounds t s r lo hi (inl one) = rw one (omega arith)
next_bounds t s r lo hi (inr two) = rw two (omega arith)

IsWalk-spent : (n m k top : ℕ) (v : Visit) → m ≡ k → IsWalk n m top v → IsWalk n k top v
IsWalk-spent n m k top v e w = subst (λ (x : ℕ). IsWalk n x top v) e w

pub alive_loop-IsWalk :
    (fuel e b r q n : ℕ)
    → e + fuel ≡ 62
    → n < 2 ^ 63
    → n ≡ 2 * b * 2 ^ e + r
    → 2 * 2 ^ e ≤ r
    → r < 4 * 2 ^ e
    → IsUpper (2 ^ e) b r q
    → IsWalk n (2 * suc e) (q * 2 ^ e) (alive_loop fuel n (4 * 2 ^ e) (b * (2 * 2 ^ e)))
alive_loop-IsWalk zero e b r q n width h eq lo hi up =
    absurd (omega (arith, two-pow_mono 62 e (omega arith)))
alive_loop-IsWalk (suc fuel) e zero r q n width h eq lo hi up =
    let here : n ≡ r = omega arith in
    rw (last_round fuel (2 ^ e) n (two-pow-pos e) (omega arith) (omega arith) h, here)
      (round-IsWalk r (2 * suc e) e 0 r q (stop returned) (omega arith) (omega arith) lo hi up (
        ended-IsWalk r (2 * suc e + 2) (0 * (2 * 2 ^ e)) (omega arith) (λ w below pos.
          omega (arith, bits_at_least (suc e) r w (rw two-pow-suc (omega arith)) below))))
alive_loop-IsWalk (suc fuel) e (suc b) r q n width h eq lo hi up =
    let p = parity b in
    let rest : IsWalk n (2 * suc (suc e)) (suc b * (2 * 2 ^ e))
        (alive_loop fuel n (4 * (2 * 2 ^ e)) (p.half * (2 * (2 * 2 ^ e)))) =
      rw two-pow-suc at (
        alive_loop-IsWalk fuel (suc e) p.half (2 * p.low * 2 ^ e + r) (suc b) n (omega arith) h
          (rw two-pow-suc (omega (arith, eq, ap (λ (x : ℕ). x * 2 ^ e) p.split)))
          (rw two-pow-suc (next_bounds (2 ^ e) p.low r lo hi p.one_or_two).0)
          (rw two-pow-suc (next_bounds (2 ^ e) p.low r lo hi p.one_or_two).1)
          (rw two-pow-suc (next-IsUpper (2 ^ e) b p.half p.low r lo hi p.split p.one_or_two))) in
    rw
      (
        one_round fuel (2 ^ e) b r n (two-pow-pos e) eq lo hi h,
        next_anchor fuel e b p.half p.low width p.split p.one_or_two (omega arith),
      )
      (round-IsWalk n (2 * suc e) e (suc b) r q _ (omega arith) eq lo hi up (
        IsWalk-spent n (2 * suc (suc e)) (2 * suc e + 2) (suc b * (2 * 2 ^ e)) _ (omega arith)
          rest))

-- ===== src/Tree/Size.antt =====
-- How many nodes the tree holds, and how deep it is.
use diffmonger.Base.{ℕ, suc, ◌+◌, ◌*◌, ◌^◌, ◌≤◌, ◌<◌, ◌⊎◌, inl, inr, arith}
use diffmonger.Base.{List, [], ◌∷◌, length, length-append}
use diffmonger.Base.Power.{two-pow-suc, two-pow_mono}
use diffmonger.Tree.{lsb, fenwick_parent, fenwick_path_exc_root, fenwick_path_inc_root, alive_after}
use diffmonger.Tree.Lsb.{lsb-pos, lsb-le, lsb_parent, fenwick_parent_lem}
use diffmonger.Tree.Path.{IsPath, fenwick_path_exc_root-IsPath, fenwick_path_inc_root_lem}
use diffmonger.Tree.Alive.{alive_after-IsWalk}

-- A path of words below `2 ^ w` from a node whose lowest set bit is at least `2 ^ k`.
length-IsPath :
    (w k n : ℕ) (xs : List ℕ)
    → n < 2 ^ w
    → n < 2 ^ 64
    → k ≤ w
    → (0 < n → 2 ^ k ≤ lsb n)
    → IsPath n xs
    → length xs + k ≤ w
length-IsPath w k n [] h word le low p = omega arith
length-IsPath w k n (x ∷ xs) h word le low p =
    let parent = fenwick_parent_lem n word in
    let rest =
      length-IsPath w (suc k) (fenwick_parent n) xs (omega (arith, parent)) (omega (arith, parent))
        (bits (low p.1))
        (λ pos. rw parent (omega (arith, parent, two-pow-suc k, low p.1, lsb_parent n))) p.2 in
    omega (arith, rest)
  where
    less_or_not : (a b : ℕ) → (a < b) ⊎ (b ≤ a)
    less_or_not a b = ground arith

    bits : 2 ^ k ≤ lsb n → k < w
    bits bit = elim (less_or_not k w) [
      | inl lt ↦ lt
      | inr ge ↦ absurd (omega (arith, two-pow_mono w k ge, lsb-le n))
    ]

-- For a word of `w` bits, `fenwick_path_inc_root` visits at most `w + 1` nodes.
pub length-fenwick_path :
    (n w : ℕ) → n < 2 ^ w → n < 2 ^ 64 → length (fenwick_path_inc_root n).nodes ≤ w + 1
length-fenwick_path n w h word =
    let inner =
      length-IsPath w 0 n (fenwick_path_exc_root n).nodes h word (omega arith)
        (λ pos. lsb-pos n pos word) (fenwick_path_exc_root-IsPath n word).1 in
    rw (fenwick_path_inc_root_lem n word)
      (omega (arith, inner, length-append {0} (fenwick_path_exc_root n).nodes (0 ∷ [])))

-- For a node of `w` bits, `w` from 1 to 63, `alive_after` visits at most `2 * w` nodes.
pub length-alive_after :
    (n w : ℕ) → n < 2 ^ w → 0 < w → w ≤ 63 → length (alive_after n).nodes ≤ 2 * w
length-alive_after n w h pos short =
    let walk = alive_after-IsWalk n (omega (arith, two-pow_mono w 63 short)) in
    omega (arith, walk.short w h pos)

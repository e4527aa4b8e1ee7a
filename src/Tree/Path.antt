-- ===== src/Tree/Path.antt =====
-- The Fenwick paths: they are the chain of parents, and reach the root within the word's length.
use diffmonger.Base.{ℕ, zero, suc, ◌+◌, ◌^◌, ◌≤◌, ◌<◌, ◌≡◌, refl, sym, subst, ◌∙◌, arith}
use diffmonger.Base.{List, [], ◌∷◌, ◌++◌, inl, inr, Elem, Descends}
use diffmonger.Base.Power.{two-pow-suc, two-pow_mono}
use diffmonger.Tree.{
  returned, Visit, emit, lsb, fenwick_parent, fenwick_loop, fenwick_path_exc_root, then_root,
  fenwick_path_inc_root,
}
use diffmonger.Tree.Lsb.{lsb-pos, lsb-le, lsb_parent, fenwick_parent_lem}

-- The list is the chain of a node's ancestors, itself first, without the root.
abbrev pub IsPath : ℕ → List ℕ → Type 0
IsPath n [] = n ≡ 0
IsPath n (x ∷ xs) = (x ≡ n) × (0 < n) × IsPath (fenwick_parent n) xs

abbrev pub IsPathVisit : ℕ → Visit → Type 0
IsPathVisit n v = (v.end ≡ returned) × IsPath n v.nodes

fenwick_loop-suc :
    (fuel n : ℕ)
    → 0 < n
    → n < 2 ^ 64
    → fenwick_loop (suc fuel) n ≡ emit n (fenwick_loop fuel (fenwick_parent n))
unfolding fenwick_loop fenwick_parent
fenwick_loop-suc fuel n pos h = ground arith

-- With `suc fuel` rounds a node whose lowest set bit is at least `2 ^ k` reaches the root, where
-- `k + fuel` is the width of a word.
fenwick_loop-IsPath :
    (fuel k n : ℕ)
    → k + fuel ≡ 64
    → n < 2 ^ 64
    → (0 < n → 2 ^ k ≤ lsb n)
    → IsPathVisit n (fenwick_loop (suc fuel) n)
fenwick_loop-IsPath fuel k zero w h low = unfold fenwick_loop in (refl, refl)
fenwick_loop-IsPath zero k (suc n) w h low =
    absurd (omega (arith, two-pow_mono 64 k (omega arith), low (omega arith), lsb-le (suc n)))
fenwick_loop-IsPath (suc fuel) k (suc n) w h low =
    let parent = fenwick_parent_lem (suc n) h in
    let rest =
      fenwick_loop-IsPath fuel (suc k) (fenwick_parent (suc n)) (omega arith)
        (omega (arith, parent))
        (λ pos.
          rw parent
            (omega (arith, parent, two-pow-suc k, low (omega arith), lsb_parent (suc n)))) in
    rw (fenwick_loop-suc (suc fuel) (suc n) (omega arith) h) (rest.0, (refl, omega arith, rest.1))

-- For every word, `fenwick_path_exc_root` returns, and visits the node and its chain of parents
-- down to, and without, the root.
pub fenwick_path_exc_root-IsPath : (n : ℕ) → n < 2 ^ 64 → IsPathVisit n (fenwick_path_exc_root n)
unfolding fenwick_path_exc_root
fenwick_path_exc_root-IsPath n h = fenwick_loop-IsPath 64 0 n refl h (λ pos. lsb-pos n pos h)

then_root-returned :
    (xs : List ℕ) → then_root xs returned ≡ record { nodes = xs ++ 0 ∷ []; end = returned }
unfolding then_root
then_root-returned [] = refl
then_root-returned (x ∷ xs) = rw (then_root-returned xs)

-- For every word, `fenwick_path_inc_root` returns, and visits what `fenwick_path_exc_root` does and
-- then the root.
pub fenwick_path_inc_root_lem :
    (n : ℕ)
    → n < 2 ^ 64
    → fenwick_path_inc_root n
      ≡ record { nodes = (fenwick_path_exc_root n).nodes ++ 0 ∷ []; end = returned }
unfolding fenwick_path_inc_root
fenwick_path_inc_root_lem n h =
    rw (fenwick_path_exc_root-IsPath n h).0 (then_root-returned (fenwick_path_exc_root n).nodes)

-- A chain of parents descends.
pub IsPath-Descends : (b n : ℕ) (xs : List ℕ) → n < 2 ^ 64 → n < b → IsPath n xs → Descends b xs
IsPath-Descends b n [] h lt p = tt
IsPath-Descends b n (x ∷ xs) h lt p = (
  omega arith,
  IsPath-Descends x (fenwick_parent n) xs (omega (arith, fenwick_parent_lem n h))
      (omega (arith, fenwick_parent_lem n h, lsb-pos n)) p.2,
)

-- What lies on the path of `n` differs from `n` by less than its own lowest set bit.
near_ancestor :
    (n m x : ℕ) (xs : List ℕ)
    → m < 2 ^ 64
    → m ≤ n
    → (0 < m → n < m + lsb m)
    → IsPath m xs
    → Elem x xs
    → (x ≤ n) × (0 < x) × (n < x + lsb x)
near_ancestor n m x [] h le near p d = absurd d
near_ancestor n m x (y ∷ xs) h le near p (inl e) = rw (e ∙ p.0) (le, p.1, near p.1)
near_ancestor n m x (y ∷ xs) h le near p (inr d) =
    let parent = fenwick_parent_lem m h in
    near_ancestor n (fenwick_parent m) x xs (omega (arith, parent)) (omega (arith, parent))
      (λ pos. rw parent (omega (arith, parent, near p.1, lsb_parent m))) p.2 d

-- A node on the Fenwick path of `n`, the root apart, exceeds `n` when its lowest set bit is added.
pub path-near :
    (n x : ℕ)
    → n < 2 ^ 64
    → Elem x (fenwick_path_exc_root n).nodes
    → (x ≤ n) × (0 < x) × (n < x + lsb x)
path-near n x h d =
    near_ancestor n n x (fenwick_path_exc_root n).nodes h (omega arith)
      (λ pos. omega (arith, lsb-pos n pos h)) (fenwick_path_exc_root-IsPath n h).1 d

path_le : (m y : ℕ) (xs : List ℕ) → m < 2 ^ 64 → IsPath m xs → Elem y (xs ++ 0 ∷ []) → y ≤ m
path_le m y [] h p (inl root) = omega arith
path_le m y [] h p (inr nothing) = absurd nothing
path_le m y (x ∷ xs) h p (inl same) = omega (arith, same, p.0)
path_le m y (x ∷ xs) h p (inr on) =
    let parent = fenwick_parent_lem m h in
    omega (arith, parent, path_le (fenwick_parent m) y xs (omega (arith, parent)) p.2 on)

chain_below :
    (n x y : ℕ) (xs : List ℕ)
    → n < 2 ^ 64
    → IsPath n xs
    → Elem x (xs ++ 0 ∷ [])
    → Elem y (xs ++ 0 ∷ [])
    → y < x
    → y ≤ fenwick_parent x
chain_below n x y [] h p (inl root) on less = absurd (omega (arith, root, less))
chain_below n x y [] h p (inr nothing) on less = absurd nothing
chain_below n x y (z ∷ zs) h p (inl first) (inl same) less =
    absurd (omega (arith, first, same, less))
chain_below n x y (z ∷ zs) h p (inl first) (inr on) less =
    let parent = fenwick_parent_lem n h in
    subst (λ k. y ≤ fenwick_parent k) (sym (first ∙ p.0))
      (path_le (fenwick_parent n) y zs (omega (arith, parent)) p.2 on)
chain_below n x y (z ∷ zs) h p (inr later) (inl same) less =
    let parent = fenwick_parent_lem n h in
    absurd (
      omega (
        arith,
        parent,
        p.0,
        same,
        less,
        path_le (fenwick_parent n) x zs (omega (arith, parent)) p.2 later,
      ))
chain_below n x y (z ∷ zs) h p (inr later) (inr on) less =
    let parent = fenwick_parent_lem n h in
    chain_below (fenwick_parent n) x y zs (omega (arith, parent)) p.2 later on less

-- On the path of a node to the root, whatever is below a node is up to its parent.
pub path-below :
    (n x y : ℕ)
    → n < 2 ^ 64
    → Elem x ((fenwick_path_exc_root n).nodes ++ 0 ∷ [])
    → Elem y ((fenwick_path_exc_root n).nodes ++ 0 ∷ [])
    → y < x
    → y ≤ fenwick_parent x
path-below n x y h on on' less =
    chain_below n x y (fenwick_path_exc_root n).nodes h (fenwick_path_exc_root-IsPath n h).1 on on'
      less

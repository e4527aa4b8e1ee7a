-- ===== src/Tree/Evolution.antt =====
-- How the functions of the tree fit together: from one node to the next the alive set gains the
-- node and loses what is pruned, and it always holds the Fenwick paths of its members.
use diffmonger.Base.{
  ℕ, zero, suc, ◌+◌, ◌-◌, ◌^◌, ◌≤◌, ◌<◌, ◌≡◌, ◌⊎◌, ◌↔◌, ◌≢◌, inl, inr, ap, subst, arith,
}
use diffmonger.Base.{Elem, append_cases, [], ◌∷◌, ◌++◌, some}
use diffmonger.Tree.{
  Visit, lsb, fenwick_parent, fenwick_path_exc_root, fenwick_path_inc_root, alive_after,
  time_of_demise, prune,
}
use diffmonger.Tree.Lsb.{lsb-pos, lsb-le, lsb_parent, fenwick_parent_lem}
use diffmonger.Tree.Spec.{demise, Alive}
use diffmonger.Tree.Path.{path-near, fenwick_path_inc_root_lem}
use diffmonger.Tree.Alive.{alive_after-IsWalk}
use diffmonger.Tree.Prune.{prune-IsPruned, time_of_demise_lem}

-- Membership in the visited lists, as what the nodes' times of demise say.
pub alive_after_iff : (n x : ℕ) → n < 2 ^ 63 → Elem x (alive_after n).nodes ↔ Alive n x
alive_after_iff n x h =
    let w = alive_after-IsWalk n h in (λ d. w.sound x d, λ a. w.complete x a (omega arith))

pub prune_iff : (n x : ℕ) → n < 2 ^ 63 → Elem x (prune n).nodes ↔ ((0 < x) × (demise x ≡ n))
prune_iff n x h =
    let p = prune-IsPruned n h in
    (λ d. p.sound x d, λ a. p.complete x a.0 a.1 (lsb-pos x a.0 (omega arith)))

-- For a node below 2 ^ 62, `alive_after` visits `x` just if `x` is not newer than the node, and is
-- the root or has a `time_of_demise` that is later than the node.
pub alive_after-time_of_demise :
    (n x : ℕ)
    → n < 2 ^ 62
    → Elem x (alive_after n).nodes
      ↔ ((x ≤ n) × ((x ≡ 0) ⊎ ((t : ℕ) × (time_of_demise x ≡ some t) × (n < t))))
alive_after-time_of_demise n x h = (λ d. to (a.0 d), λ r. a.1 (from r))
  where
    a : Elem x (alive_after n).nodes ↔ Alive n x
    a = alive_after_iff n x (omega arith)

    defined : 0 < x → x ≤ n → time_of_demise x ≡ some (demise x)
    defined pos le = time_of_demise_lem x pos (omega (arith, lsb-le x))

    root_or_not : (y : ℕ) → (y ≡ 0) ⊎ (0 < y)
    root_or_not y = ground arith

    to : Alive n x → (x ≤ n) × ((x ≡ 0) ⊎ ((t : ℕ) × (time_of_demise x ≡ some t) × (n < t)))
    to (le, inl root) = (le, inl root)
    to (le, inr later) = elim (root_or_not x) [
      | inl root ↦ (le, inl root)
      | inr pos ↦ (le, inr (demise x, defined pos le, later))
    ]

    from : (x ≤ n) × ((x ≡ 0) ⊎ ((t : ℕ) × (time_of_demise x ≡ some t) × (n < t))) → Alive n x
    from (le, inl root) = (le, inl root)
    from (le, inr (t, at, later)) = elim (root_or_not x) [
      | inl root ↦ (le, inl root)
      | inr pos ↦ (le, inr (ground (arith, defined pos le)))
    ]

-- From a node to the next one, which is below 2 ^ 63, what `alive_after` visits gains the new node
-- and loses just what `prune` of the new node visits.
pub alive_after-suc :
    (n x : ℕ)
    → suc n < 2 ^ 63
    → Elem x (alive_after (suc n)).nodes
      ↔ ((x ≡ suc n) ⊎ (Elem x (alive_after n).nodes × ¬ (Elem x (prune (suc n)).nodes)))
alive_after-suc n x h = (λ d. gained_or_kept (now.0 d), λ r. now.1 (alive_again r))
  where
    now : Elem x (alive_after (suc n)).nodes ↔ Alive (suc n) x
    now = alive_after_iff (suc n) x h

    before : Elem x (alive_after n).nodes ↔ Alive n x
    before = alive_after_iff n x (omega arith)

    dies : Elem x (prune (suc n)).nodes ↔ ((0 < x) × (demise x ≡ suc n))
    dies = prune_iff (suc n) x h

    kept : Alive (suc n) x → (x ≡ suc n) ⊎ (Alive n x × (0 < x → demise x ≡ suc n → ⊥))
    kept a = elim (newest_or_not x) [
      | inl newest ↦ inl newest
      | inr older ↦ inr ((omega arith, omega arith), λ pos dead. omega arith)
    ]
      where
        newest_or_not : (y : ℕ) → (y ≡ suc n) ⊎ (y ≢ suc n)
        newest_or_not y = ground arith

    gained_or_kept :
        Alive (suc n) x
        → (x ≡ suc n) ⊎ (Elem x (alive_after n).nodes × ¬ (Elem x (prune (suc n)).nodes))
    gained_or_kept a = elim (kept a) [
      | inl newest ↦ inl newest
      | inr (old, lives) ↦ inr (before.1 old, λ d. lives (dies.0 d).0 (dies.0 d).1)
    ]

    zero_or_pos : (y : ℕ) → (y ≡ 0) ⊎ (0 < y)
    zero_or_pos y = ground arith

    later : 0 < x → Alive n x → (demise x ≡ suc n → ⊥) → suc n < demise x
    later pos a not_now = ground arith

    alive_again :
        (x ≡ suc n) ⊎ (Elem x (alive_after n).nodes × ¬ (Elem x (prune (suc n)).nodes))
        → Alive (suc n) x
    alive_again (inl newest) = (omega arith, inr (omega (arith, lsb-pos x)))
    alive_again (inr (old, lives)) = elim (zero_or_pos x) [
      | inl root ↦ (omega (arith, before.0 old), inl root)
      | inr pos ↦ (
        omega (arith, before.0 old),
        inr (later pos (before.0 old) (λ dead. lives (dies.1 (pos, dead)))),
      )
    ]

-- What `prune` visits at a node below 2 ^ 63 that is not the root is visited by `alive_after` of
-- the node before, and not by that of the node.
pub prune-alive_after :
    (n x : ℕ)
    → suc n < 2 ^ 63
    → Elem x (prune (suc n)).nodes
    → Elem x (alive_after n).nodes × ¬ (Elem x (alive_after (suc n)).nodes)
prune-alive_after n x h d =
    let p = (prune_iff (suc n) x h).0 d in
    (
      (alive_after_iff n x (omega arith)).1 (omega (arith, lsb-pos x), inr (omega arith)),
      λ still. omega (arith, (alive_after_iff (suc n) x h).0 still),
    )

-- The nodes of a path: near to the given node, or the root.
on_path_cases :
    (n x : ℕ)
    → n < 2 ^ 63
    → Elem x (fenwick_path_inc_root n).nodes
    → ((x ≤ n) × (0 < x) × (n < x + lsb x)) ⊎ (x ≡ 0)
on_path_cases n x h d =
    elim (append_cases x (fenwick_path_exc_root n).nodes (0 ∷ []) (subst (Elem x) visits d)) [
      | inl inner ↦ inl (path-near n x (omega arith) inner)
      | inr (inl root) ↦ inr root
      | inr (inr nowhere) ↦ absurd nowhere
    ]
  where
    visits : (fenwick_path_inc_root n).nodes ≡ (fenwick_path_exc_root n).nodes ++ 0 ∷ []
    visits = ap (λ (v : Visit). v.nodes) (fenwick_path_inc_root_lem n (omega arith))

-- Nothing that `fenwick_path_inc_root` visits at a node below 2 ^ 63 is visited by its `prune`, so
-- that pruning may come first.
pub prune-path :
    (n x : ℕ) → n < 2 ^ 63 → Elem x (fenwick_path_inc_root n).nodes → ¬ (Elem x (prune n).nodes)
prune-path n x h on_path pruned =
    let p = (prune_iff n x h).0 pruned in
    elim (on_path_cases n x h on_path) [ inl near ↦ omega (arith, near) | inr root ↦ omega arith ]

-- The path of a node survives the next node too.
pub path-survives :
    (n x : ℕ)
    → suc n < 2 ^ 63
    → Elem x (fenwick_path_inc_root n).nodes
    → ¬ (Elem x (prune (suc n)).nodes)
path-survives n x h on_path pruned =
    let p = (prune_iff (suc n) x h).0 pruned in
    elim (on_path_cases n x (omega arith) on_path) [
      | inl near ↦ omega (arith, near)
      | inr root ↦ omega arith
    ]

-- What `fenwick_path_inc_root` visits at a node below 2 ^ 63 is visited by `alive_after`.
pub path-alive_after :
    (n x : ℕ) → n < 2 ^ 63 → Elem x (fenwick_path_inc_root n).nodes → Elem x (alive_after n).nodes
path-alive_after n x h on_path = (alive_after_iff n x h).1 (elim (on_path_cases n x h on_path) [
  | inl near ↦ (near.0, inr (omega (arith, near.2)))
  | inr root ↦ (omega arith, inl root)
])

parent-Alive : (n x : ℕ) → n < 2 ^ 63 → Alive n x → Alive n (x - lsb x)
parent-Alive n zero h a = (omega arith, inl (omega arith))
parent-Alive n (suc x) h a = ground (arith, lsb-le (suc x), lsb_parent (suc x))

-- With a node, `alive_after` of a node below 2 ^ 63 visits its `fenwick_parent`: a restore finds
-- every parent.
pub parent-alive_after :
    (n x : ℕ)
    → n < 2 ^ 63
    → Elem x (alive_after n).nodes
    → Elem (fenwick_parent x) (alive_after n).nodes
parent-alive_after n x h d =
    let a = (alive_after_iff n x h).0 d in
    (alive_after_iff n (fenwick_parent x) h).1
      (rw (fenwick_parent_lem x (omega (arith, a))) (parent-Alive n x h a))

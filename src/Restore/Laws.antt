-- ===== src/Restore/Laws.antt =====
-- The invariant that src/Controller.cpp states of the nodes that `restore` restores: with each node
-- they have its parent, which comes before it.
use diffmonger.Base.{
  ℕ, suc, ◌^◌, ◌≤◌, ◌<◌, ◌≡◌, ◌⊎◌, inl, inr, refl, sym, ap, subst, ◌∙◌, Bool, true, false, ◌||◌,
  List, [], ◌∷◌, ◌++◌, Elem, Elem-append, append_cases, Elem-lt, Bool-cases, ltb, ◌==◌, arith,
}
use diffmonger.Base.Sorted.{
  contains, emplace, emplace_all, Ascends, Elem-contains, emplace-Ascends, Elem-emplace,
  emplace_all-Ascends, Elem-emplace_all,
}
use diffmonger.Error.{ok}
use diffmonger.Tree.{fenwick_parent, fenwick_path_exc_root}
use diffmonger.Tree.Path.{
  IsPath, IsPath-Descends, fenwick_path_exc_root-IsPath, fenwick_path_inc_root_lem,
}
use diffmonger.Repository.{Repository}
use diffmonger.Restore.{emplace_child, available, nodes_to_restore}

-- In ascending order, up to `last`, and each node but the root with its parent.
pub record IsSelfContained (last : ℕ) (nodes : List ℕ) : Type 0 where
  pub ascends : Ascends 0 nodes
  pub within : (x : ℕ) → Elem x nodes → x ≤ last
  pub parents : (x : ℕ) → Elem x nodes → (x ≡ 0) ⊎ Elem (fenwick_parent x) nodes

pub nothing-IsSelfContained : (last : ℕ) → IsSelfContained last []
nothing-IsSelfContained last = record {
  ascends = tt;
  within = λ x h. absurd h;
  parents = λ x h. absurd h;
}

either_true : (a b : Bool) → (a || b) ≡ true → (a ≡ true) ⊎ (b ≡ true)
either_true true b h = inl refl
either_true false b h = inr h

emplaced :
    (last node : ℕ) (set : List ℕ)
    → node ≤ last
    → (node ≡ 0) ⊎ Elem (fenwick_parent node) set
    → IsSelfContained last set
    → IsSelfContained last (emplace node set)
emplaced last node set le parent good = record {
  ascends = emplace-Ascends 0 node set (omega arith) good.ascends;
  within = λ x h. elim ((Elem-emplace x node set).0 h) [
    | inl new ↦ omega arith
    | inr old ↦ good.within x old
  ];
  parents = λ x h. elim ((Elem-emplace x node set).0 h) [
    | inl new ↦ elim parent [
      | inl root ↦ inl (new ∙ root)
      | inr there ↦ inr (
          subst (λ (y : ℕ). Elem (fenwick_parent y) (emplace node set)) (sym new)
            ((Elem-emplace (fenwick_parent node) node set).1 (inr there)))
    ]
    | inr old ↦ elim (good.parents x old) [
      | inl root ↦ inl root
      | inr there ↦ inr ((Elem-emplace (fenwick_parent x) node set).1 (inr there))
    ]
  ];
}

emplace_child-IsSelfContained :
    (last node : ℕ) (set : List ℕ)
    → node ≤ last
    → IsSelfContained last set
    → IsSelfContained last (emplace_child node set)
emplace_child-IsSelfContained last node set le good =
    elim (Bool-cases (contains (fenwick_parent node) set || node == 0)) [
      | inl taken ↦
          let parent : (node ≡ 0) ⊎ Elem (fenwick_parent node) set =
            elim (either_true (contains (fenwick_parent node) set) (node == 0) taken) [
              | inl there ↦ inr (Elem-contains (fenwick_parent node) set there)
              | inr root ↦ inl (ground arith)
            ] in
          rw taken (emplaced last node set le parent good)
      | inr not_taken ↦ rw not_taken good
    ]

pub available-IsSelfContained :
    (last : ℕ) (nodes set : List ℕ)
    → IsSelfContained last set
    → IsSelfContained last (available last nodes set)
unfolding available
available-IsSelfContained last [] set good = good
available-IsSelfContained last (node ∷ nodes) set good = elim (Bool-cases (ltb last node)) [
  | inl beyond ↦ rw (available, beyond) good
  | inr up_to ↦
      rw (available, up_to)
        (available-IsSelfContained last nodes (emplace_child node set)
          (emplace_child-IsSelfContained last node set (ground arith) good))
]

-- A chain of parents has the parent of each of its nodes, or that is the root.
pub path_parent :
    (n x : ℕ) (xs : List ℕ)
    → IsPath n xs
    → Elem x xs
    → (fenwick_parent x ≡ 0) ⊎ Elem (fenwick_parent x) xs
path_parent n x [] p h = absurd h
path_parent n x (y ∷ []) p (inl e) = inl (ap fenwick_parent (e ∙ p.0) ∙ p.2)
path_parent n x (y ∷ z ∷ zs) p (inl e) = inr (inr (inl (ap fenwick_parent (e ∙ p.0) ∙ sym p.2.0)))
path_parent n x (y ∷ ys) p (inr h) = elim (path_parent (fenwick_parent n) x ys p.2 h) [
  | inl root ↦ inl root
  | inr there ↦ inr (inr there)
]

pub path_start : (n : ℕ) (xs : List ℕ) → IsPath n xs → Elem n (xs ++ 0 ∷ [])
path_start n [] p = inl p
path_start n (x ∷ xs) p = inl (sym p.0)

path_member :
    (n x : ℕ)
    → Elem x (emplace_all ((fenwick_path_exc_root n).nodes ++ 0 ∷ []) [])
    → Elem x (fenwick_path_exc_root n).nodes ⊎ (x ≡ 0)
path_member n x held =
    let xs = (fenwick_path_exc_root n).nodes in
    elim ((Elem-emplace_all x (xs ++ 0 ∷ []) []).0 held) [
      | inl visited ↦ elim (append_cases x xs (0 ∷ []) visited) [
        | inl on ↦ inl on
        | inr (inl root) ↦ inr root
        | inr (inr nothing) ↦ absurd nothing
      ]
      | inr nothing ↦ absurd nothing
    ]

pub path-IsSelfContained :
    (n : ℕ)
    → n < 2 ^ 64
    → IsSelfContained n (emplace_all ((fenwick_path_exc_root n).nodes ++ 0 ∷ []) [])
path-IsSelfContained n h =
    let xs = (fenwick_path_exc_root n).nodes in
    let path = (fenwick_path_exc_root-IsPath n h).1 in
    let below = IsPath-Descends (suc n) n xs h (omega arith) path in
    record {
      ascends = emplace_all-Ascends (xs ++ 0 ∷ []) [] tt;
      within = λ x held. elim (path_member n x held) [
        | inl on ↦ omega (arith, Elem-lt x (suc n) xs below on)
        | inr root ↦ omega arith
      ];
      parents = λ x held. elim (path_member n x held) [
        | inl on ↦ inr (
            (Elem-emplace_all (fenwick_parent x) (xs ++ 0 ∷ []) []).1 (
              inl (elim (path_parent n x xs path on) [
                | inl root ↦ Elem-append (fenwick_parent x) xs (0 ∷ []) (inr (inl root))
                | inr there ↦ Elem-append (fenwick_parent x) xs (0 ∷ []) (inl there)
              ])))
        | inr root ↦ inl root
      ];
    }

-- The nodes that a restore of one node needs, whatever the repository has, are in ascending order,
-- up to that node, which is one of them, and each but the root has its parent among them.
pub nodes_to_restore-needed :
    (fuel : ℕ) (r : Repository) (node : ℕ)
    → node < 2 ^ 64
    → (nodes : List ℕ) × (nodes_to_restore fuel r false node ≡ ok nodes)
      × IsSelfContained node nodes
      × Elem node nodes
unfolding nodes_to_restore
nodes_to_restore-needed fuel r node h =
    let path = (fenwick_path_exc_root node).nodes ++ 0 ∷ [] in
    (
      emplace_all path [],
      rw (fenwick_path_inc_root_lem node h) refl,
      path-IsSelfContained node h,
      (Elem-emplace_all node path []).1 (
          inl (
            path_start node (fenwick_path_exc_root node).nodes
              (fenwick_path_exc_root-IsPath node h).1)),
    )

-- ===== src/Restore/Available.antt =====
-- src/Controller.cpp, `restore` of all available nodes: what it takes from the repository.
use mathlib.Core.List.{append-nil}
use diffmonger.Base.{
  ℕ, suc, ◌-◌, ◌^◌, ◌≤◌, ◌<◌, ◌≡◌, ◌⊎◌, ◌↔◌, inl, inr, refl, sym, ap, subst, ◌∙◌, Bool, true, false,
  ◌||◌, none, List, [], ◌∷◌, ◌++◌, Elem, Elem-append, append_cases, Elem-lt, Bool-cases, ltb, ◌==◌,
  if◌then◌else◌, arith,
}
use diffmonger.Base.Sorted.{
  contains, Elem-emplace, sort, IsSorted, sort-IsSorted, Elem-sort, sort-Elem, IsSorted-le,
  contains-Elem,
}
use diffmonger.Error.{ok}
use diffmonger.Tree.{
  Visit, fenwick_parent, fenwick_path_exc_root, fenwick_path_inc_root, alive_after,
}
use diffmonger.Tree.Lsb.{fenwick_parent_lem, lsb-pos}
use diffmonger.Tree.Path.{
  IsPath, path-near, fenwick_path_exc_root-IsPath, fenwick_path_inc_root_lem,
}
use diffmonger.Tree.Evolution.{parent-alive_after}
use diffmonger.Tree.Alive.{alive_after-IsWalk}
use diffmonger.Repository.{Repository, exists, try_get_encoded}
use diffmonger.Repository.Next.{get_next_snapshot_node-stuck}
use diffmonger.Repository.Nodes.{existing, untrusted_nodes, get_nodes_including_untrusted}
use diffmonger.Restore.{emplace_child, available, nodes_to_restore}
use diffmonger.Restore.Laws.{
  path_parent, path_start, IsSelfContained, nothing-IsSelfContained, available-IsSelfContained,
}

Elem-existing :
    (r : Repository) (x : ℕ) (xs : List ℕ) → exists r x ≡ true → Elem x xs → Elem x (existing r xs)
Elem-existing r x [] there h = elim h [ ]
Elem-existing r x (y ∷ ys) there (inl e) =
    let here : exists r y ≡ true = subst (λ (z : ℕ). exists r z ≡ true) e there in rw here (inl e)
Elem-existing r x (y ∷ ys) there (inr h) = elim (Bool-cases (exists r y)) [
  | inl here ↦ rw here (inr (Elem-existing r x ys there h))
  | inr gone ↦ rw gone (Elem-existing r x ys there h)
]

-- With nothing untrusted, the nodes that are listed are those that are there of the trusted ones.
listed :
    (fuel : ℕ) (r : Repository)
    → 0 < r.breadcrumb.untrusted_begin
    → r.breadcrumb.untrusted_begin ≤ 2 ^ 63
    → try_get_encoded r r.breadcrumb.untrusted_begin ≡ ok none
    → get_nodes_including_untrusted (suc fuel) r 0
      ≡ ok (sort (existing r (alive_after (r.breadcrumb.untrusted_begin - 1)).nodes))
unfolding get_nodes_including_untrusted untrusted_nodes
listed fuel r pos small nothing_new =
    let begin = r.breadcrumb.untrusted_begin in
    let some_there : (begin == 0) ≡ false = ground arith in
    let walk = alive_after-IsWalk (begin - 1) (omega arith) in
    let next = (get_next_snapshot_node-stuck r).0 fuel nothing_new in
    let at_end : (begin == begin) ≡ true = ground arith in
    rw (get_nodes_including_untrusted, some_there, walk.returns, next, untrusted_nodes, at_end)
      (ap (λ (xs : List ℕ). ok (sort xs)) (append-nil (existing r (alive_after (begin - 1)).nodes)))

right_true : (a b : Bool) → b ≡ true → (a || b) ≡ true
right_true true b h = refl
right_true false b h = h

-- The loop takes a set of nodes that has the parent of each, if the list has them all.
module _ (P : ℕ → Type 0) (last : ℕ)
    (closed : (y : ℕ) → P y → (y ≡ 0) ⊎ (P (fenwick_parent y) × (fenwick_parent y < y)))
    (bounded : (y : ℕ) → P y → y ≤ last) where
  child-placed :
      (x : ℕ) (xs set : List ℕ)
      → IsSorted x xs
      → ((y : ℕ) → P y → Elem y set ⊎ Elem y (x ∷ xs))
      → P x
      → (contains (fenwick_parent x) set || x == 0) ≡ true
  child-placed x xs set sorted there p = elim (closed x p) [
    | inl root ↦ right_true (contains (fenwick_parent x) set) (x == 0) (ground arith)
    | inr (parent, less) ↦ elim (there (fenwick_parent x) parent) [
      | inl placed ↦ rw (contains-Elem (fenwick_parent x) set placed) refl
      | inr (inl same) ↦ absurd (omega arith)
      | inr (inr later) ↦ absurd (omega (arith, IsSorted-le x (fenwick_parent x) xs sorted later))
    ]
  ]

  after_child :
      (x : ℕ) (xs set : List ℕ)
      → IsSorted x xs
      → ((y : ℕ) → P y → Elem y set ⊎ Elem y (x ∷ xs))
      → (y : ℕ) → P y
      → Elem y (emplace_child x set) ⊎ Elem y xs
  after_child x xs set sorted there y p = elim (there y p) [
    | inl placed ↦ elim (Bool-cases (contains (fenwick_parent x) set || x == 0)) [
      | inl taken ↦ rw taken (inl ((Elem-emplace y x set).1 (inr placed)))
      | inr not_taken ↦ rw not_taken (inl placed)
    ]
    | inr (inl same) ↦
        rw (child-placed x xs set sorted there (subst P same p))
          (inl ((Elem-emplace y x set).1 (inl same)))
    | inr (inr later) ↦ inr later
  ]

  available_complete :
      (b : ℕ) (xs set : List ℕ)
      → IsSorted b xs
      → ((y : ℕ) → P y → Elem y set ⊎ Elem y xs)
      → (y : ℕ) → P y
      → Elem y (available last xs set)
  unfolding available
  available_complete b [] set sorted there y p = elim (there y p) [
    | inl placed ↦ placed
    | inr nowhere ↦ absurd nowhere
  ]
  available_complete b (x ∷ xs) set sorted there y p = elim (Bool-cases (ltb last x)) [
    | inl beyond ↦
        rw (available, beyond)
          (elim (there y p) [
            | inl placed ↦ placed
            | inr (inl same) ↦ absurd (ground (arith, bounded y p))
            | inr (inr later) ↦
                absurd (ground (arith, bounded y p, IsSorted-le x y xs sorted.1 later))
          ])
    | inr up_to ↦
        rw (available, up_to)
          (available_complete x xs (emplace_child x set) sorted.1
            (after_child x xs set sorted.1 there) y p)
  ]

chain_alive :
    (n m x : ℕ) (xs : List ℕ)
    → n < 2 ^ 63
    → Elem m (alive_after n).nodes
    → IsPath m xs
    → Elem x xs
    → Elem x (alive_after n).nodes
chain_alive n m x [] h alive p on = absurd on
chain_alive n m x (y ∷ ys) h alive p (inl e) =
    subst (λ (z : ℕ). Elem z (alive_after n).nodes) (sym (e ∙ p.0)) alive
chain_alive n m x (y ∷ ys) h alive p (inr on) =
    chain_alive n (fenwick_parent m) x ys h (parent-alive_after n m h alive) p.2 on

-- On the path of a node to the root, the root included.
OnPath : ℕ → ℕ → Type 0
OnPath node y = Elem y ((fenwick_path_exc_root node).nodes ++ 0 ∷ [])

path_closed :
    (node : ℕ)
    → node < 2 ^ 64
    → (y : ℕ) → OnPath node y
    → (y ≡ 0) ⊎ (OnPath node (fenwick_parent y) × (fenwick_parent y < y))
unfolding OnPath
path_closed node h y on =
    let xs = (fenwick_path_exc_root node).nodes in
    elim (append_cases y xs (0 ∷ []) on) [
      | inl before ↦
          let near = path-near node y h before in
          let less = lsb-pos y near.1 (omega (arith, near.0)) in
          let parent = fenwick_parent_lem y (omega (arith, near.0)) in
          inr (
            elim (path_parent node y xs (fenwick_path_exc_root-IsPath node h).1 before) [
              | inl root ↦ Elem-append (fenwick_parent y) xs (0 ∷ []) (inr (inl root))
              | inr there ↦ Elem-append (fenwick_parent y) xs (0 ∷ []) (inl there)
            ],
            omega (arith, near.1, less, parent),
          )
      | inr (inl root) ↦ inl root
      | inr (inr nothing) ↦ absurd nothing
    ]

path_bounded : (node : ℕ) → node < 2 ^ 64 → (y : ℕ) → OnPath node y → y ≤ node
unfolding OnPath
path_bounded node h y on = elim (append_cases y (fenwick_path_exc_root node).nodes (0 ∷ []) on) [
  | inl before ↦ (path-near node y h before).0
  | inr (inl root) ↦ omega arith
  | inr (inr nothing) ↦ absurd nothing
]

-- With a node its whole path is alive.
path-alive :
    (n node y : ℕ)
    → n < 2 ^ 63
    → node < 2 ^ 64
    → Elem node (alive_after n).nodes
    → OnPath node y
    → Elem y (alive_after n).nodes
unfolding OnPath
path-alive n node y small h alive on =
    let xs = (fenwick_path_exc_root node).nodes in
    elim (append_cases y xs (0 ∷ []) on) [
      | inl before ↦
          chain_alive n node y xs small alive (fenwick_path_exc_root-IsPath node h).1 before
      | inr (inl root) ↦
          (alive_after-IsWalk n small).complete y (omega arith, inl root) (omega arith)
      | inr (inr nothing) ↦ absurd nothing
    ]

either_list :
    (c : Bool) (x y : ℕ) (ys : List ℕ)
    → Elem x (if c then y ∷ ys else ys)
    → ((c ≡ true) × (x ≡ y)) ⊎ Elem x ys
either_list true x y ys (inl same) = inl (refl, same)
either_list true x y ys (inr on) = inr on
either_list false x y ys on = inr on

existing-Elem :
    (r : Repository) (x : ℕ) (xs : List ℕ)
    → Elem x (existing r xs)
    → (exists r x ≡ true) × Elem x xs
existing-Elem r x [] h = absurd h
existing-Elem r x (y ∷ ys) h = elim (either_list (exists r y) x y (existing r ys) h) [
  | inl (here, same) ↦ (subst (λ (z : ℕ). exists r z ≡ true) (sym same) here, inl same)
  | inr later ↦ let (there, on) = existing-Elem r x ys later in (there, inr on)
]

emplace_child-Elem :
    (x node : ℕ) (set : List ℕ) → Elem x (emplace_child node set) → (x ≡ node) ⊎ Elem x set
emplace_child-Elem x node set h =
    elim (Bool-cases (contains (fenwick_parent node) set || node == 0)) [
      | inl taken ↦
          (Elem-emplace x node set).0 (subst (λ (zs : List ℕ). Elem x zs) (rw taken refl) h)
      | inr not_taken ↦ inr (subst (λ (zs : List ℕ). Elem x zs) (rw not_taken refl) h)
    ]

available-Elem :
    (last x : ℕ) (xs set : List ℕ) → Elem x (available last xs set) → Elem x set ⊎ Elem x xs
unfolding available
available-Elem last x [] set h = inl h
available-Elem last x (y ∷ ys) set h = elim (Bool-cases (ltb last y)) [
  | inl beyond ↦ inl (subst (λ (zs : List ℕ). Elem x zs) (rw (available, beyond) refl) h)
  | inr up_to ↦
      elim (available-Elem last x ys (emplace_child y set)
        (subst (λ (zs : List ℕ). Elem x zs) (rw (available, up_to) refl) h)) [
          | inl placed ↦ elim (emplace_child-Elem x y set placed) [
            | inl same ↦ inr (inl same)
            | inr before ↦ inl before
          ]
          | inr later ↦ inr (inr later)
        ]
]

-- A set with the parent of each has the whole path of each.
path_within :
    (nodes : List ℕ)
    → ((x : ℕ) → Elem x nodes → (x ≡ 0) ⊎ Elem (fenwick_parent x) nodes)
    → (n y : ℕ) (xs : List ℕ) → IsPath n xs
    → Elem n nodes
    → Elem y (xs ++ 0 ∷ [])
    → Elem y nodes
path_within nodes parents n y [] p there (inl root) =
    subst (λ (z : ℕ). Elem z nodes) (p ∙ sym root) there
path_within nodes parents n y [] p there (inr nothing) = absurd nothing
path_within nodes parents n y (x ∷ xs) p there (inl same) =
    subst (λ (z : ℕ). Elem z nodes) (sym (same ∙ p.0)) there
path_within nodes parents n y (x ∷ xs) p there (inr on) = elim (parents n there) [
  | inl root ↦ absurd (omega (arith, root, p.1))
  | inr parent ↦ path_within nodes parents (fenwick_parent n) y xs p.2 parent on
]

-- If some node is trusted, and the breadcrumb's node has no id and is at most 2 ^ 63, then a restore
-- of all available nodes up to a node takes just those that are alive, not above it, and whose whole
-- path to the root is there. They are in ascending order, and each but the root has its parent among
-- them.
pub nodes_to_restore-available :
    (fuel : ℕ) (r : Repository) (node : ℕ)
    → r.breadcrumb.untrusted_begin ≤ 2 ^ 63
    → 0 < r.breadcrumb.untrusted_begin
    → try_get_encoded r r.breadcrumb.untrusted_begin ≡ ok none
    → (nodes : List ℕ) × (nodes_to_restore (suc fuel) r true node ≡ ok nodes)
      × IsSelfContained node nodes
      × ((x : ℕ)
          → Elem x nodes ↔ (
              (x ≤ node)
              × Elem x (alive_after (r.breadcrumb.untrusted_begin - 1)).nodes
              × ((y : ℕ) → Elem y (fenwick_path_inc_root x).nodes → exists r y ≡ true)))
unfolding nodes_to_restore OnPath
nodes_to_restore-available fuel r node small pos nothing_new =
    let begin = r.breadcrumb.untrusted_begin in
    let alive = (alive_after (begin - 1)).nodes in
    let xs = existing r alive in
    let walk = alive_after-IsWalk (begin - 1) (omega arith) in
    let word : (x : ℕ) → Elem x alive → x < 2 ^ 64 =
      λ x on. omega (arith, Elem-lt x (suc (begin - 1)) alive walk.descends on) in
    let contained = available-IsSelfContained node (sort xs) [] (nothing-IsSelfContained node) in
    let origin : (x : ℕ)
        → Elem x (available node (sort xs) [])
        → (exists r x ≡ true) × Elem x alive =
      λ x held. elim (available-Elem node x (sort xs) [] held) [
        | inl nothing ↦ absurd nothing
        | inr listed_in ↦ existing-Elem r x alive (sort-Elem x xs listed_in)
      ] in
    (
      available node (sort xs) [],
      rw (listed fuel r pos small nothing_new) refl,
      contained,
      λ x. (
        λ held.
            let on_list = (origin x held).1 in
            let h = word x on_list in
            (
              contained.within x held,
              on_list,
              λ y on.
                  (origin y (
                    path_within (available node (sort xs) []) contained.parents x y
                      (fenwick_path_exc_root x).nodes (fenwick_path_exc_root-IsPath x h).1 held
                      (subst (λ (v : Visit). Elem y v.nodes) (fenwick_path_inc_root_lem x h)
                        on))).0,
            ),
        λ (le, living, there).
            let h = word x living in
            let walked = fenwick_path_inc_root_lem x h in
            let found : (y : ℕ) → OnPath x y → Elem y [] ⊎ Elem y (sort xs) = λ y on. inr (
              Elem-sort y xs (
                Elem-existing r y alive
                  (there y (subst (λ (v : Visit). Elem y v.nodes) (sym walked) on))
                  (path-alive (begin - 1) x y (omega arith) h living on))) in
            available_complete (OnPath x) node (path_closed x h)
              (λ y on. omega (arith, le, path_bounded x h y on)) 0 (sort xs) [] (sort-IsSorted xs)
              found x
              (path_start x (fenwick_path_exc_root x).nodes (fenwick_path_exc_root-IsPath x h).1),
      ),
    )

-- ===== src/Restore/Success.antt =====
-- src/Controller.cpp, `restore`, on a repository in good order and a backend that can be relied on.
use diffmonger.Base.{
  zero_or_pos, ℕ, suc, ◌^◌, ◌≤◌, ◌<◌, ◌≡◌, ◌⊎◌, ◌↔◌, inl, inr, refl, sym, subst, Bool, true, false,
  not, ◌||◌, List, [], ◌∷◌, ◌++◌, Elem, Bool-cases, ◌==◌, arith,
}
use diffmonger.Base.Sorted.{Ascends, Ascends-le, emplace_all, Elem-emplace_all}
use diffmonger.Error.{Result, ok}
use diffmonger.Tree.{Visit, fenwick_parent, fenwick_path_exc_root, fenwick_path_inc_root}
use diffmonger.Tree.Lsb.{lsb-pos, fenwick_parent_lem}
use diffmonger.Tree.Path.{fenwick_path_inc_root_lem, path-below}
use diffmonger.Repository.{Repository}
use diffmonger.Zfs.Commands.{Run}
use diffmonger.Restore.{nodes_to_restore}
use diffmonger.Restore.Laws.{path-IsSelfContained}
use diffmonger.Backend.{Backend, node_to_snapshot_id}
use diffmonger.Restore.Backend.{IsBackend, Keeps, KeepsTo}
use diffmonger.Restore.Run.{
  read_payload, receive, with_input, unless_found, restore_if_needed, restore_node, restore_nodes,
  restore,
}

was_found : (found skip : Bool) → (not found || not skip) ≡ false → found ≡ true
was_found true skip h = refl
was_found false skip h = cc

module _ {W : Type 0} (backend : Backend W) (decrypted : List ℕ → List ℕ × Result (Unit {0}))
    (upon : backend.SnapshotId → Run W (Unit {0})) (skip_existing : Bool) (r : Repository)
    (Has : W → ℕ → Type 0) (Names : backend.SnapshotId → ℕ → Type 0)
    (Stream : ℕ → List ℕ → Type 0) where
  -- A node's id can be read and is its name, and its payload can be, and is decrypted to its stream.
  pub record IsRestorable (node : ℕ) : Type 0 where
    pub id : backend.SnapshotId
    pub read_id : node_to_snapshot_id backend r node ≡ ok id
    pub names : Names id node
    pub payload : List ℕ
    pub read_bytes : read_payload r node ≡ ok payload
    pub stream : Stream node (decrypted payload).0
    pub ends : (decrypted payload).1 ≡ ok tt

  -- What is done upon each snapshot succeeds and removes none.
  pub record IsHarmless : Type 0 where
    pub succeeds :
        (id : backend.SnapshotId) (w : W) → (w' : W) × (upon id w ≡ (ok tt, w')) × Keeps Has w w'

  module _ (law : IsBackend backend Has Names Stream) (harmless : IsHarmless) where
    -- After the node's own round it is there, and what is up to its parent still is.
    Restored : ℕ → W → Run W (Unit {0}) → Type 0
    Restored node w run =
        (w' : W) × (run w ≡ (ok tt, w'))
        × Has w' node
        × (0 < node → KeepsTo Has (fenwick_parent node) w w')

    -- The parent is there, if the node has one.
    IsReady : ℕ → W → Type 0
    IsReady node w =
        (node ≡ 0) ⊎ ((0 < node) × IsRestorable (fenwick_parent node) × Has w (fenwick_parent node))

    receive-Has :
        (node : ℕ) (good : IsRestorable node) (w : W)
        → IsReady node w
        → Restored node w
            (receive backend decrypted upon skip_existing r node good.id (decrypted good.payload).0)
    unfolding receive Restored IsReady
    receive-Has node good w (inl root) =
        let is_root : (node == 0) ≡ true = ground arith in
        let (w', received, has) =
          law.receives_initial good.id (decrypted good.payload).0 w
            (subst (Names good.id) root good.names)
            (subst (λ (n : ℕ). Stream n (decrypted good.payload).0) root good.stream) in
        (
          w',
          rw (receive, is_root) received,
          subst (Has w') (sym root) has,
          λ pos. absurd (omega (arith, pos, root)),
        )
    receive-Has node good w (inr (pos, parent, there)) =
        let not_root : (node == 0) ≡ false = ground arith in
        let (w', received, has, keeps) =
          law.receives_diff parent.id good.id node (decrypted good.payload).0 w pos parent.names
            good.names there good.stream in
        (w', rw (receive, not_root, parent.read_id) received, has, λ p. keeps)

    with_input-Has :
        (node : ℕ) (good : IsRestorable node) (w : W)
        → IsReady node w
        → Restored node w (with_input backend decrypted upon skip_existing r node good.id)
    unfolding with_input Restored
    with_input-Has node good w parent =
        let (w', received, has, keeps) = receive-Has node good w parent in
        (w', rw (good.read_bytes, received, good.ends) refl, has, keeps)

    restore_if_needed-Has :
        (node : ℕ) (good : IsRestorable node) (w : W)
        → IsReady node w
        → Restored node w (restore_if_needed backend decrypted upon skip_existing r node good.id)
    unfolding restore_if_needed unless_found Restored IsReady
    restore_if_needed-Has node good w ready =
        let (found, w1, answered, there, keeps) = law.answers good.id node w good.names in
        elim (Bool-cases (not found || not skip_existing)) [
          | inl needed ↦
              let still : IsReady node w1 = elim ready [
                | inl root ↦ inl root
                | inr (pos, parent, has) ↦ inr (pos, parent, keeps (fenwick_parent node) has)
              ] in
              let (w2, received, has, keeps') = with_input-Has node good w1 still in
              let step : unless_found backend decrypted upon skip_existing r node good.id found w1
                  ≡ (ok tt, w2) =
                rw (unless_found, needed) received in
              (w2, rw answered step, has, λ pos x le h. keeps' pos x le (keeps x h))
          | inr skipped ↦
              let step : unless_found backend decrypted upon skip_existing r node good.id found w1
                  ≡ (ok tt, w1) =
                rw (unless_found, skipped) refl in
              (
                w1,
                rw answered step,
                there (was_found found skip_existing skipped),
                λ pos x le h. keeps x h,
              )
        ]

    restore_node-Has :
        (node : ℕ)
        → IsRestorable node
        → (w : W) → IsReady node w
        → Restored node w (restore_node backend decrypted upon skip_existing r node)
    unfolding restore_node Restored
    restore_node-Has node good w ready =
        let (w1, restored, has, keeps) = restore_if_needed-Has node good w ready in
        let (w2, done, keeps') = harmless.succeeds good.id w1 in
        (
          w2,
          rw (good.read_id, restored) done,
          keeps' node has,
          λ pos x le h. keeps' x (keeps pos x le h),
        )

    -- A chain: what comes before a node, in the list or in `Before`, is up to its parent, which is
    -- there.
    record IsChain (Before : ℕ → Type 0) (nodes : List ℕ) : Type 0 where
      good : (x : ℕ) → Elem x nodes → IsRestorable x
      linked :
          (x : ℕ)
          → Elem x nodes
          → (x ≡ 0)
            ⊎ ((0 < x)
                × (fenwick_parent x < x)
                × IsRestorable (fenwick_parent x)
                × (Before (fenwick_parent x) ⊎ Elem (fenwick_parent x) nodes))
      ordered :
          (x y : ℕ)
          → Elem x nodes
          → Before y ⊎ (Elem y nodes × (y < x))
          → (0 < x) × (y ≤ fenwick_parent x)

    rest-IsChain :
        (Before : ℕ → Type 0) (b node : ℕ) (nodes : List ℕ)
        → Ascends b (node ∷ nodes)
        → IsChain Before (node ∷ nodes)
        → IsChain (λ y. Before y ⊎ (y ≡ node)) nodes
    rest-IsChain Before b node nodes asc chain = record {
      good = λ x h. chain.good x (inr h);
      linked = λ x h. elim (chain.linked x (inr h)) [
        | inl root ↦ inl root
        | inr (pos, less, parent, inl before) ↦ inr (pos, less, parent, inl (inl before))
        | inr (pos, less, parent, inr (inl same)) ↦ inr (pos, less, parent, inl (inr same))
        | inr (pos, less, parent, inr (inr later)) ↦ inr (pos, less, parent, inr later)
      ];
      ordered = λ x y h earlier. elim earlier [
        | inl (inl before) ↦ chain.ordered x y (inr h) (inl before)
        | inl (inr same) ↦
            chain.ordered x y (inr h)
              (inr (inl same, omega (arith, same, Ascends-le (suc node) x nodes asc.1 h)))
        | inr (on, less) ↦ chain.ordered x y (inr h) (inr (inr on, less))
      ];
    }

    -- The nodes that are left, each of which leaves what came before it.
    restore_nodes-Has :
        (Before : ℕ → Type 0) (b : ℕ) (nodes : List ℕ) (w : W)
        → Ascends b nodes
        → IsChain Before nodes
        → ((x : ℕ) → Before x → Has w x)
        → (w' : W) × (restore_nodes backend decrypted upon skip_existing r nodes w ≡ (ok tt, w'))
          × ((x : ℕ) → Before x ⊎ Elem x nodes → Has w' x)
    unfolding restore_nodes Restored IsReady
    restore_nodes-Has Before b [] w asc chain there =
        (w, refl, λ x. elim [ inl before ↦ there x before | inr nothing ↦ absurd nothing ])
    restore_nodes-Has Before b (node ∷ nodes) w asc chain there =
        let ready : IsReady node w = elim (chain.linked node (inl refl)) [
          | inl root ↦ inl root
          | inr (pos, less, parent, inl before) ↦
              inr (pos, parent, there (fenwick_parent node) before)
          | inr (pos, less, parent, inr (inl same)) ↦ absurd (omega arith)
          | inr (pos, less, parent, inr (inr later)) ↦
              absurd (omega (arith, Ascends-le (suc node) (fenwick_parent node) nodes asc.1 later))
        ] in
        let (w1, restored, has, keeps) =
          restore_node-Has node (chain.good node (inl refl)) w ready in
        let still : (x : ℕ) → Before x ⊎ (x ≡ node) → Has w1 x = λ x. elim [
          | inl before ↦
              let (pos, le) = chain.ordered node x (inl refl) (inl before) in
              keeps pos x le (there x before)
          | inr same ↦ subst (Has w1) (sym same) has
        ] in
        let (w2, done, all) =
          restore_nodes-Has (λ y. Before y ⊎ (y ≡ node)) (suc node) nodes w1 asc.1
            (rest-IsChain Before b node nodes asc chain) still in
        (
          w2,
          rw restored done,
          λ x. elim [
            | inl before ↦ all x (inl (inl before))
            | inr (inl first) ↦ all x (inl (inr first))
            | inr (inr later) ↦ all x (inr later)
          ],
        )

    -- What a set of the nodes on a path holds.
    held_iff :
        (node x : ℕ)
        → node < 2 ^ 64
        → Elem x (emplace_all ((fenwick_path_exc_root node).nodes ++ 0 ∷ []) [])
          ↔ Elem x (fenwick_path_inc_root node).nodes
    held_iff node x h =
        let path = (fenwick_path_exc_root node).nodes ++ 0 ∷ [] in
        let walked = fenwick_path_inc_root_lem node h in
        (
          λ held. elim ((Elem-emplace_all x path []).0 held) [
            | inl on ↦ subst (λ (v : Visit). Elem x v.nodes) (sym walked) on
            | inr nothing ↦ absurd nothing
          ],
          λ on.
              (Elem-emplace_all x path []).1
                (inl (subst (λ (v : Visit). Elem x v.nodes) walked on)),
        )

    on_path :
        (node x : ℕ)
        → Elem x (emplace_all ((fenwick_path_exc_root node).nodes ++ 0 ∷ []) [])
        → Elem x ((fenwick_path_exc_root node).nodes ++ 0 ∷ [])
    on_path node x held =
        elim ((Elem-emplace_all x ((fenwick_path_exc_root node).nodes ++ 0 ∷ []) []).0 held) [
          | inl on ↦ on
          | inr nothing ↦ absurd nothing
        ]

    parent-lt : (x : ℕ) → x < 2 ^ 64 → 0 < x → fenwick_parent x < x
    parent-lt x h pos = omega (arith, fenwick_parent_lem x h, lsb-pos x pos h)

    -- If the nodes on the path of a node can be restored on a backend that can be relied on, where a
    -- stream leaves the snapshots up to the one that it starts from and no more, then `restore` of
    -- that node, of what it needs, ends without an exception, whichever snapshots are there and
    -- whether or not they are skipped. After it the snapshots of the whole path are there.
    pub restore-Has :
        (fuel node : ℕ) (w : W)
        → node < 2 ^ 64
        → ((x : ℕ) → Elem x (fenwick_path_inc_root node).nodes → IsRestorable x)
        → (w' : W) × (restore backend decrypted upon skip_existing r fuel false node w
            ≡ (ok tt, w'))
          × ((x : ℕ) → Elem x (fenwick_path_inc_root node).nodes → Has w' x)
    unfolding restore nodes_to_restore
    restore-Has fuel node w h good =
        let path = (fenwick_path_exc_root node).nodes ++ 0 ∷ [] in
        let nodes = emplace_all path [] in
        let walked = fenwick_path_inc_root_lem node h in
        let contained = path-IsSelfContained node h in
        let chain : IsChain (λ y. ⊥) nodes = record {
          good = λ x held. good x ((held_iff node x h).0 held);
          linked = λ x on. elim (contained.parents x on) [
            | inl root ↦ inl root
            | inr parent ↦ elim (zero_or_pos x) [
              | inl root ↦ inl root
              | inr pos ↦ inr (
                pos,
                parent-lt x (omega (arith, contained.within x on)) pos,
                good (fenwick_parent x) ((held_iff node (fenwick_parent x) h).0 parent),
                inr parent,
              )
            ]
          ];
          ordered = λ x y on. elim [
            | inl nothing ↦ absurd nothing
            | inr (on', less) ↦ (
              omega (arith, less),
              path-below node x y h (on_path node x on) (on_path node y on') less,
            )
          ];
        } in
        let (w', done, all) =
          restore_nodes-Has (λ y. ⊥) 0 nodes w contained.ascends chain (λ x. absurd) in
        (w', rw walked done, λ x on. all x (inr ((held_iff node x h).1 on)))

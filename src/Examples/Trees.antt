-- ===== src/Examples/Trees.antt =====
-- The functions of src/diffmonger.hpp at small nodes.
use diffmonger.Base.{ℕ, ◌≤◌, ◌<◌, ◌≡◌, ◌⊎◌, ◌↔◌, inl, inr, refl, some, [], ◌∷◌, Elem, arith}
use diffmonger.Tree.{
  lsb, demise_assertion, fenwick_loop, fenwick_path_exc_root, fenwick_path_inc_root, then_root,
  alive_loop, alive_after, time_of_demise, prune_loop, prune,
}
use diffmonger.Tree.Alive.{IsWalk, alive_after-IsWalk}
use diffmonger.Tree.Prune.{IsPruned, prune-IsPruned}
use diffmonger.Tree.Evolution.{alive_after-time_of_demise, alive_after-suc}
use diffmonger.Tree.Distribution.{Near, alive_after-distribution}

alive_13 : (alive_after 13).nodes ≡ 13 ∷ 12 ∷ 11 ∷ 10 ∷ 8 ∷ 4 ∷ 0 ∷ []
unfolding alive_after alive_loop lsb
alive_13 = refl

prune_16 : (prune 16).nodes ≡ 13 ∷ 10 ∷ 4 ∷ []
unfolding prune prune_loop time_of_demise lsb demise_assertion
prune_16 = refl

path_13 : (fenwick_path_inc_root 13).nodes ≡ 13 ∷ 12 ∷ 8 ∷ 0 ∷ []
unfolding fenwick_path_inc_root fenwick_path_exc_root fenwick_loop lsb then_root
path_13 = refl

alive_after-IsWalk_example : IsWalk 13 0 14 (alive_after 13)
alive_after-IsWalk_example = alive_after-IsWalk 13 (omega arith)

prune-IsPruned_example : IsPruned 16 1 (prune 16)
prune-IsPruned_example = prune-IsPruned 16 (omega arith)

alive_after-suc_example :
    Elem 12 (alive_after 16).nodes
    ↔ ((◌≡◌ {A = ℕ} 12 16) ⊎ (Elem 12 (alive_after 15).nodes × ¬ (Elem 12 (prune 16).nodes)))
alive_after-suc_example = alive_after-suc 15 12 (omega arith)

alive_after-distribution_example : (k : ℕ) × Elem k (alive_after 100).nodes × Near 100 7 k
alive_after-distribution_example =
    alive_after-distribution 100 7 (omega arith) (omega arith) (omega arith)

alive_after-time_of_demise_example :
    Elem 4 (alive_after 13).nodes
    ↔ ((4 ≤ 13) × ((◌≡◌ {A = ℕ} 4 0) ⊎ ((t : ℕ) × (time_of_demise 4 ≡ some t) × (13 < t))))
alive_after-time_of_demise_example = alive_after-time_of_demise 13 4 (omega arith)

-- Node 12 is on the path of node 13, and node 10 dies at node 16.
on_path : Elem 12 (fenwick_path_inc_root 13).nodes
unfolding fenwick_path_inc_root fenwick_path_exc_root fenwick_loop lsb then_root
on_path = inr (inl refl)

dying : Elem 10 (prune 16).nodes
unfolding prune prune_loop time_of_demise lsb demise_assertion
dying = inr (inl refl)

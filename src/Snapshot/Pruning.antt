-- ===== src/Snapshot/Pruning.antt =====
-- src/Controller.cpp, `_snapshot`: what its pruning does to the backend.
use diffmonger.Base.{Option-cases, none, inl, inr, ℕ, ◌≡◌, refl, List, [], ◌∷◌, ◌==◌, true, arith}
use diffmonger.Error.{ok}
use diffmonger.Tree
use diffmonger.Repository.{
  Repository, try_get_encoded, check_encoded, delete_node, get_latest_trusted_node,
}
use diffmonger.Repository.Exec.{for_each}
use diffmonger.Controller
use diffmonger.Backend.{Backend}
use diffmonger.Snapshot.{prune_node, prune_first, run_each}

deleted_unread : (node : ℕ) (r : Repository) → try_get_encoded (delete_node node r) node ≡ ok none
unfolding try_get_encoded delete_node check_encoded
deleted_unread node r = let own : (node == node) ≡ true = ground arith in rw own refl

prune_node_lem :
    {W : Type 0}
    → (backend : Backend W) (node : ℕ) (r : Repository) (w : W)
    → prune_node backend node (r, w) ≡ (ok tt, (delete_node node r, w))
unfolding prune_node
prune_node_lem backend node r w = rw (deleted_unread node r) refl

run_each_lem :
    {W : Type 0}
    → (backend : Backend W) (nodes : List ℕ) (r : Repository) (w : W)
    → run_each (prune_node backend) nodes (r, w) ≡ (ok tt, (for_each delete_node nodes r, w))
run_each_lem backend [] r w = refl
run_each_lem backend (node ∷ nodes) r w =
    rw (prune_node_lem backend node r w) (run_each_lem backend nodes (delete_node node r) w)

-- The pruning before a snapshot does to the repository what `prune` with the deletion of nodes
-- does, ends as it does, and leaves the backend as it is, so that the snapshots of the pruned
-- nodes stay there.
pub prune_first-prune :
    {W : Type 0}
    → (backend : Backend W) (r : Repository) (w : W)
    → prune_first backend (r, w)
      ≡ ((Controller.prune delete_node r).0, ((Controller.prune delete_node r).1, w))
unfolding prune_first Controller.prune
prune_first-prune backend r w = elim (Option-cases (get_latest_trusted_node r)) [
  | inl none_yet ↦ rw (prune_first, Controller.prune, none_yet) refl
  | inr (node, latest) ↦
      rw (prune_first, Controller.prune, latest, run_each_lem backend (Tree.prune node).nodes r w)
        refl
]

-- ===== src/Examples/Transfers.antt =====
-- Imports and exports of src/Controller.cpp, and the pruning before a snapshot, at the repository that
-- has the first node.
use diffmonger.Base.{ℕ, ◌≡◌, refl, sym, subst, inl, inr, true, false, some, List, [], ◌∷◌, arith}
use diffmonger.Base.Int.{pos}
use diffmonger.Error.{ok}
use diffmonger.Encoded
use diffmonger.Tree.{lsb, fenwick_parent}
use diffmonger.Repository.{Repository, exists, delete_node}
use diffmonger.Repository.Commit.Laws.{IsCommitted}
use diffmonger.Controller
use diffmonger.Zfs.Commands.{Run}
use diffmonger.Snapshot.{prune_first}
use diffmonger.Snapshot.Source.{Same, IsHeld}
use diffmonger.Snapshot.Pruning.{prune_first-prune}
use diffmonger.Export.{snapshot_import}
use diffmonger.Export.Laws.{snapshot_import-IsCommitted}
use diffmonger.Examples.Restores.{id_of, Nodes, in_memory, Has, Names, Stream}
use diffmonger.Examples.Takes.{
  in_memory-IsSource, one_node, one_node-IsHeld, repository_uuid, plain, Good, sealed,
}

abbrev two_snapshots : Nodes
two_snapshots = 0 ∷ 1 ∷ []

parent_of_1 : fenwick_parent 1 ≡ 0
unfolding fenwick_parent lsb
parent_of_1 = refl

first_there : exists one_node 0 ≡ true
unfolding exists
first_there = refl

second_missing : exists one_node 1 ≡ false
unfolding exists
second_missing = refl

parent-IsHeld : IsHeld in_memory Has Names Good one_node two_snapshots (fenwick_parent 1)
parent-IsHeld =
    subst (IsHeld in_memory Has Names Good one_node two_snapshots) (sym parent_of_1)
      (one_node-IsHeld two_snapshots (inl refl) 0 first_there)

snapshot_import-IsCommitted_example :
    (payload : List ℕ) × (s : Repository) × (w' : Nodes) × (snapshot_import in_memory plain false
        repository_uuid
        (pos 7)
        (Encoded.serialise (id_of 1))
        (one_node, two_snapshots)
      ≡ (ok tt, (s, w')))
    × IsCommitted (id_of 1) (some payload) one_node.snapshots s
    × Good 1 payload
    × Same Has two_snapshots w'
snapshot_import-IsCommitted_example =
    snapshot_import-IsCommitted in_memory Has Names Stream Good in_memory-IsSource plain sealed
      repository_uuid (pos 7) 1 1 one_node two_snapshots (omega arith) refl (inr (inl refl)) refl
      second_missing (λ positive. parent-IsHeld)

abbrev import : List ℕ → Run Nodes (Unit {0})
import bytes w = (ok tt, w)

abbrev import_command : List (List ℕ)
import_command = (1 ∷ []) ∷ []

prune_first-prune_example : prune_first in_memory (one_node, two_snapshots) ≡ (
  (Controller.prune delete_node one_node).0,
  ((Controller.prune delete_node one_node).1, two_snapshots),
)
prune_first-prune_example = prune_first-prune in_memory one_node two_snapshots

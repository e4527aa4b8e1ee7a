-- ===== src/Restore.antt =====
-- src/Controller.cpp, `restore`: which nodes are restored, in the order of their set.
pub mod Laws
pub mod Available
pub mod Backend
pub mod Run
pub mod Success
pub mod Driver
use diffmonger.Base.{ℕ, ◌≡◌, Bool, true, false, ◌||◌, List, [], ◌∷◌, ltb, ◌==◌, if◌then◌else◌}
use diffmonger.Base.Sorted.{contains, emplace, emplace_all}
use diffmonger.Error.{Result, ok, ◌>>=◌}
use diffmonger.Tree.{fenwick_parent, fenwick_path_inc_root}
use diffmonger.Repository.{Repository}
use diffmonger.Repository.Nodes.{get_nodes_including_untrusted}
use diffmonger.Repository.Exec.{end_result}

-- The loop that takes all available nodes up to one, each after its parent.
abbrev pub emplace_child : ℕ → List ℕ → List ℕ
emplace_child node set =
    if contains (fenwick_parent node) set || node == 0 then emplace node set else set

unfoldable pub available : ℕ → List ℕ → List ℕ → List ℕ
available last [] set = set
available last (node ∷ nodes) set = elim (ltb last node) [
  | true ↦ set
  | false ↦ available last nodes (emplace_child node set)
]

-- `nodes` of `restore`: those that the node needs, or all that can be restored up to it.
unfoldable pub nodes_to_restore : ℕ → Repository → Bool → ℕ → Result (List ℕ)
nodes_to_restore fuel r false node =
    let path = fenwick_path_inc_root node in
    end_result path.end >>= λ u. ok (emplace_all path.nodes [])
nodes_to_restore fuel r true node =
    get_nodes_including_untrusted fuel r 0 >>= λ nodes. ok (available node nodes [])

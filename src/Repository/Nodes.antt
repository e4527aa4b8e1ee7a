-- ===== src/Repository/Nodes.antt =====
-- src/RepositoryStructure.cpp, `getNodesIncludingUntrusted`: the nodes of the repository, in order.
use diffmonger.Base.{ℕ, zero, suc, ◌-◌, true, false, List, [], ◌∷◌, ◌++◌, leb, ◌==◌, if◌then◌else◌}
use diffmonger.Base.Sorted.{sort}
use diffmonger.Error.{Result, ok, err, ◌>>=◌, no_fuel}
use diffmonger.Node
use diffmonger.Tree.{alive_after}
use diffmonger.Repository.{Repository, exists, get_next_snapshot_node}
use diffmonger.Repository.Exec.{end_result}

abbrev pub existing : Repository → List ℕ → List ℕ
existing r [] = []
existing r (x ∷ xs) = let rest = existing r xs in if exists r x then x ∷ rest else rest

-- The loop over the untrusted nodes, with fuel for their number.
unfoldable pub untrusted_nodes : ℕ → ℕ → ℕ → Result (List ℕ)
untrusted_nodes zero node end = err no_fuel
untrusted_nodes (suc fuel) node end = elim (node == end) [
  | true ↦ ok []
  | false ↦ Node.next node >>= λ next. untrusted_nodes fuel next end >>= λ rest. ok (node ∷ rest)
]

-- Where that loop ends; node 0 stands for no end.
abbrev pub untrusted_end : ℕ → ℕ → ℕ
untrusted_end end next = if end == 0 then next else if leb end next then end else next

unfoldable pub get_nodes_including_untrusted : ℕ → Repository → ℕ → Result (List ℕ)
get_nodes_including_untrusted fuel r end = elim (r.breadcrumb.untrusted_begin == 0) [
  | true ↦ ok []
  | false ↦
      let trusted = alive_after (r.breadcrumb.untrusted_begin - 1) in
      end_result trusted.end >>= λ u. get_next_snapshot_node fuel r >>= λ next.
      untrusted_nodes fuel r.breadcrumb.untrusted_begin (untrusted_end end next) >>= λ untrusted.
      ok (sort (existing r trusted.nodes ++ untrusted))
]

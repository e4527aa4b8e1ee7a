-- ===== src/Examples/Runs.antt =====
-- The pruning of a repository, and the commit of a snapshot, at small repositories.
use diffmonger.Base.{
  ℕ, zero, suc, ◌+◌, ◌≡◌, refl, sym, subst, true, false, none, some, [], ◌∷◌, ◌==◌, arith,
}
use diffmonger.Base.Int.{InInt64, max_ℤ, ◌+ℤ◌, pos, max_ℤ, ◌+ℤ◌}
use diffmonger.Error.{ok, err, node_exists, no_fuel}
use diffmonger.Tree.Evolution.{alive_after_iff}
use diffmonger.Encoded
use diffmonger.Encoded.{Encoded, Breadcrumb}
use diffmonger.Repository.{
  Repository, NodeDir, update, exists, is_some, try_get_encoded, get_next_snapshot_node,
}
use diffmonger.Repository.Next.{get_next_snapshot_node-stuck}
use diffmonger.Repository.Commit.{store_snapshot}
use diffmonger.Repository.Commit.Laws.{
  IsCommitted, check_own, store_snapshot-IsCommitted, store_snapshot-refused,
}
use diffmonger.Controller.{prune_repository}
use diffmonger.Controller.Steps.{IsKept}
use diffmonger.Controller.Outcome.{prune_repository-IsKept}
use diffmonger.Controller.Rate.{IsPaced, prune_repository-IsPaced}
use diffmonger.Controller.Success.{IsReadable, prune_repository-Returns}

-- Node 0 is trusted, node 1 is there and not trusted yet.
abbrev id : ℕ → Encoded
id node = record { bytes = 1 ∷ []; node = node; timestamp = pos (100 + node) }

abbrev stored : ℕ → NodeDir
stored node = record { id = some (Encoded.serialise (id node)); payload = some (5 ∷ []) }

abbrev two_nodes : Repository
two_nodes = record {
  snapshots = update (update (λ k. none) 0 (some (stored 0))) 1 (some (stored 1));
  temporary = none;
  checked_out = none;
  handles = 0;
  breadcrumb = record { untrusted_begin = 1; last_trusted_node_authorised_at = pos 100 };
  breadcrumb_file = none;
}

two_nodes-IsReadable : IsReadable two_nodes
unfolding IsReadable exists try_get_encoded
two_nodes-IsReadable zero there =
    (id 0, check_own (id 0) (omega arith, omega arith, omega arith), refl)
two_nodes-IsReadable (suc zero) there =
    (id 1, check_own (id 1) (omega arith, omega arith, omega arith), refl)
two_nodes-IsReadable (suc (suc x)) there =
    let not_first : (suc (suc x) == 0) ≡ false = ground arith in
    let not_second : (suc (suc x) == 1) ≡ false = ground arith in
    let gone : is_some (two_nodes.snapshots (suc (suc x))) ≡ false =
      rw (not_second, not_first) refl in
    cc

two_nodes-IsKept : IsKept two_nodes
unfolding IsKept exists
two_nodes-IsKept n x at alive survives =
    let here : n ≡ 0 = omega (arith, at) in
    let (in_range, living) = (alive_after_iff n x (omega (arith, here))).0 alive in
    let first : x ≡ 0 = omega (arith, in_range, here) in
    subst (λ z. exists two_nodes z ≡ true) (sym first) refl

third_missing : exists two_nodes 2 ≡ false
unfolding exists
third_missing = refl

room : InInt64 (max_ℤ (pos 100) (pos 20000000000) +ℤ pos 10000000000)
unfolding max_ℤ ◌+ℤ◌
room = omega arith

-- Two rounds: node 2 is not there.
prune_repository-Returns_example : (prune_repository 2 10 (pos 200) two_nodes).0 ≡ ok tt
prune_repository-Returns_example =
    prune_repository-Returns 2 1 10 (pos 200) two_nodes (omega arith) (omega arith) third_missing
      two_nodes-IsReadable two_nodes-IsKept

prune_repository-IsKept_example : IsKept (prune_repository 2 10 (pos 200) two_nodes).1
prune_repository-IsKept_example =
    prune_repository-IsKept 2 10 (pos 200) two_nodes (omega arith) two_nodes-IsKept

prune_repository-IsPaced_example :
    (j : ℕ) × IsPaced 10000000000
      (pos 20000000000)
      j
      two_nodes.breadcrumb
      (prune_repository 2 10 (pos 20000000000) two_nodes).1.breadcrumb
prune_repository-IsPaced_example =
    prune_repository-IsPaced 2 10 (pos 20000000000) two_nodes (omega arith) (omega arith)
      (omega arith) (omega arith) room

get_next_snapshot_node-stuck_example :
    ((fuel : ℕ)
      → try_get_encoded two_nodes 1 ≡ ok none
      → get_next_snapshot_node (suc fuel) two_nodes ≡ ok 1)
    × ((fuel : ℕ) (e : Encoded)
        → try_get_encoded two_nodes 1 ≡ ok (some e)
        → get_next_snapshot_node fuel two_nodes ≡ err no_fuel)
get_next_snapshot_node-stuck_example = get_next_snapshot_node-stuck two_nodes

store_snapshot-IsCommitted_example :
    ((store_snapshot (some 0) (9 ∷ []) (id 2) two_nodes).0 ≡ ok tt)
    × IsCommitted
        (id 2)
        (some (9 ∷ []))
        two_nodes.snapshots
        (store_snapshot (some 0) (9 ∷ []) (id 2) two_nodes).1
store_snapshot-IsCommitted_example =
    store_snapshot-IsCommitted (some 0) (9 ∷ []) (id 2) two_nodes refl refl third_missing
      (omega arith) (omega arith, omega arith, omega arith)

store_snapshot-refused_example :
    ((store_snapshot (some 0) (9 ∷ []) (id 1) two_nodes).0 ≡ err node_exists)
    × ((store_snapshot (some 0) (9 ∷ []) (id 1) two_nodes).1.snapshots ≡ two_nodes.snapshots)
    × ((store_snapshot (some 0) (9 ∷ []) (id 1) two_nodes).1.breadcrumb ≡ two_nodes.breadcrumb)
    × ((store_snapshot (some 0) (9 ∷ []) (id 1) two_nodes).1.breadcrumb_file
        ≡ two_nodes.breadcrumb_file)
store_snapshot-refused_example =
    store_snapshot-refused (some 0) (9 ∷ []) (id 1) two_nodes refl refl refl

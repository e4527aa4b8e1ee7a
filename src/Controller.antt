-- ===== src/Controller.antt =====
-- src/Controller.cpp: the pruning of the repository. `prune_repository` trusts the nodes after the
-- breadcrumb one by one and deletes what dies with each. An exception ends it, and the changes made
-- before stay on the file system.
pub mod Steps
pub mod Outcome
pub mod Latest
pub mod Rate
pub mod Success
use diffmonger.Base.{ℕ, zero, suc, ◌*◌, Option, none, some}
use diffmonger.Base.Int.{ℤ, pos, wrap_64}
use diffmonger.Error.{Result, ok, err, ◌>>=◌, no_fuel}
use diffmonger.Tree
use diffmonger.Encoded.{Breadcrumb}
use diffmonger.Repository.{
  Repository, try_get_encoded, get_latest_trusted_node, delete_node, write_breadcrumb,
}
use diffmonger.Repository.Exec.{Op, continue, walk}
use diffmonger.Trust.{maybe_update_breadcrumb}

-- `prune`, which takes what to do with each node.
unfoldable pub prune : (ℕ → Repository → Repository) → Op Unit
prune fremove r = elim (get_latest_trusted_node r) [
  | none ↦ (ok tt, r)
  | some node ↦ walk fremove (Tree.prune node) r
]

-- What a round of `prune_repository` decides: the new breadcrumb, if the next node is trusted.
unfoldable pub decide : ℤ → ℤ → Repository → Result (Option Breadcrumb)
decide min_time now r = try_get_encoded r r.breadcrumb.untrusted_begin >>= elim [
  | none ↦ ok none
  | some candidate ↦ maybe_update_breadcrumb r r.breadcrumb candidate min_time now
]

-- The rest of the round. The breadcrumb is written in each round, not once at the end.
unfoldable pub trust_next : Breadcrumb → Op Unit
trust_next updated r =
    continue (walk delete_node (Tree.prune r.breadcrumb.untrusted_begin) r)
      (λ u r'. (ok tt, write_breadcrumb updated r'))

-- `min_seconds_between_snapshots` as a duration in nanoseconds, in 64 bits.
unfoldable pub duration_of : ℕ → ℤ
duration_of seconds = wrap_64 (pos (seconds * 1000000000))

-- `prune_repository`; `fuel` bounds the number of rounds.
unfoldable pub prune_repository : ℕ → ℕ → ℤ → Op Unit
prune_repository zero seconds now r = (err no_fuel, r)
prune_repository (suc fuel) seconds now r = elim (decide (duration_of seconds) now r) [
  | err e ↦ (err e, r)
  | ok none ↦ (ok tt, r)
  | ok (some updated) ↦
      continue (trust_next updated r) (λ u r'. prune_repository fuel seconds now r')
]

-- ===== src/Snapshot.antt =====
-- src/Controller.cpp, `_snapshot` and `snapshot`: a snapshot is taken in the backend and stored in
-- the repository. The state is the repository and the world of the backend. The key pairs, the
-- processes and the pipe of the encryption are a function of the bytes that the backend writes; where
-- there is no encryption it returns them.
pub mod Pruning
pub mod Source
pub mod Driver
pub mod Store
pub mod Parent
pub mod Laws
pub mod Rounds
pub mod Restored
pub mod History
pub mod Encrypted
use diffmonger.Base.{
  ℕ, zero, suc, Bool, true, false, not, ◌||◌, Option, none, some, List, [], ◌∷◌, ◌==◌,
  if◌then◌else◌,
}
use diffmonger.Base.Int.{ℤ}
use diffmonger.Error.{Error, Result, ok, err, ◌>>=◌, snapshot_does_not_exist, bug, no_fuel}
use diffmonger.Node
use diffmonger.Tree
use diffmonger.Tree.{Visit}
use diffmonger.Uuid.{Uuid}
use diffmonger.Encoded.{Encoded}
use diffmonger.Repository.{
  Repository, is_some, try_get_encoded, delete_node, get_latest_trusted_node,
  get_next_snapshot_node,
}
use diffmonger.Repository.Exec.{end_result}
use diffmonger.Repository.Commit.{check_out, write_payload, commit}
use diffmonger.Zfs.Commands.{Run}
use diffmonger.ZfsDriver.{resume}
use diffmonger.Backend.{Backend, node_to_snapshot_id}

-- A callback that may throw, called for each node in turn, and then the end of the walk.
abbrev pub run_each : {S : Type 0} → (ℕ → Run S (Unit {0})) → List ℕ → Run S (Unit {0})
run_each f [] s = (ok tt, s)
run_each f (x ∷ xs) s = resume (f x s) (λ u. run_each f xs)

abbrev pub run_walk : {S : Type 0} → (ℕ → Run S (Unit {0})) → Visit → Run S (Unit {0})
run_walk f v s = resume (run_each f v.nodes s) (λ u s'. (end_result v.end, s'))

-- The handler of `SnapshotDoesNotExist`.
abbrev pub ignore_missing : Result (Unit {0}) → Result (Unit {0})
ignore_missing (ok u) = ok u
ignore_missing (err snapshot_does_not_exist) = ok tt
ignore_missing (err e) = err e

module _ {W : Type 0} (backend : Backend W) where
  abbrev pub State : Type 0
  State = Repository × W

  -- An operation of the backend, and one of the repository.
  abbrev pub on_world : {A : Type 0} → Run W A → Run State A
  on_world f (r, w) = let (a, w') = f w in (a, (r, w'))

  abbrev pub on_repository : {A : Type 0} → Run Repository A → Run State A
  on_repository f (r, w) = let (a, r') = f r in (a, (r', w))

  abbrev pub remove_found : Option Encoded → Run State (Unit {0})
  remove_found none s = (ok tt, s)
  remove_found (some e) s =
      resume (backend.snapshot_id e, s) (λ id. on_world (backend.remove_snapshot id))

  -- The callback of the pruning: the node is deleted before its id is read.
  unfoldable pub prune_node : ℕ → Run State (Unit {0})
  prune_node node (r, w) =
      let r' = delete_node node r in
      let (done, s) = resume (try_get_encoded r' node, (r', w)) remove_found in
      (ignore_missing done, s)

  unfoldable pub prune_first : Run State (Unit {0})
  prune_first (r, w) = elim (get_latest_trusted_node r) [
    | none ↦ (ok tt, (r, w))
    | some node ↦ run_walk prune_node (Tree.prune node) (r, w)
  ]

  -- `maybeParentSnapshotId`
  abbrev pub unless_missing : backend.SnapshotId → Bool → Result (Option backend.SnapshotId)
  unless_missing id found = if found then ok (some id) else err snapshot_does_not_exist

  unfoldable pub parent_snapshot_id : ℕ → Run State (Option backend.SnapshotId)
  parent_snapshot_id node (r, w) = elim (Node.fenwick_maybe_parent node) [
    | none ↦ (ok none, (r, w))
    | some parent ↦
        resume (node_to_snapshot_id backend r parent, (r, w))
          (λ id s.
            resume (on_world (backend.exists id) s) (λ found s'. (unless_missing id found, s')))
  ]

  -- `storeSnapshotOrDiff`
  unfoldable pub store_snapshot_or_diff :
      backend.SnapshotId → Option backend.SnapshotId → Run W (List ℕ)
  store_snapshot_or_diff id parent w = elim ((backend.encoded id).node == 0) [
    | true ↦ backend.initial id w
    | false ↦ elim parent [ none ↦ (err bug, w) | some from ↦ backend.diff from id w ]
  ]

  module _ (encrypted : List ℕ → Result (List ℕ)) where
    -- `store_snapshot`; an exception leaves the temporary snapshot checked out.
    unfoldable pub store : backend.SnapshotId → Option backend.SnapshotId → Run State (Unit {0})
    store id parent s = resume (on_repository check_out s) (λ owner s1.
        resume (on_world (store_snapshot_or_diff id parent) s1) (λ bytes s2.
          resume (encrypted bytes, s2)
            (λ payload (r, w).
              on_repository (commit owner (backend.encoded id)) (write_payload payload r, w))))

    -- `_snapshot`, with the repository's UUID, the clock's time, and fuel for the next node.
    unfoldable pub snapshot_once : ℕ → Uuid → ℤ → Run State Bool
    snapshot_once fuel uuid now s =
        resume (get_next_snapshot_node fuel s.0, s)
          (λ node s1. resume (prune_first s1) (λ u s2.
            resume (parent_snapshot_id node s2) (λ parent s3.
              resume (on_world (backend.snapshot node uuid now) s3)
                (λ taken s4. resume (store taken.0 parent s4) (λ v s5. (ok (not taken.1), s5))))))

    -- The loop of `snapshot`, with fuel for its rounds.
    unfoldable pub snapshot : ℕ → ℕ → Uuid → ℤ → Run State (Unit {0})
    snapshot zero fuel uuid now s = (err no_fuel, s)
    snapshot (suc rounds) fuel uuid now s =
        resume (snapshot_once fuel uuid now s)
          (λ fresh s'. elim fresh [ true ↦ (ok tt, s') | false ↦ snapshot rounds fuel uuid now s' ])

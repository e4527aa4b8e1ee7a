-- ===== src/Export.antt =====
-- src/Controller.cpp, `export_repository` and `snapshot_import`: the snapshots of a repository are
-- restored one by one, and each is imported by a command into another repository. What is read from
-- the standard input is an argument, and what the import command does is a parameter.
pub mod Laws
use diffmonger.Base.{ℕ, ◌-◌, ◌==◌, Bool, true, false, Option, none, some, List, [], ◌∷◌}
use diffmonger.Base.Int.{ℤ}
use diffmonger.Base.Text.{is_empty}
use diffmonger.Error.{Result, ok, err, ◌>>=◌, import_exists, bad_value}
use diffmonger.Node
use diffmonger.Uuid.{Uuid}
use diffmonger.Encoded
use diffmonger.Encoded.{Encoded}
use diffmonger.Repository.{Repository, exists, get_next_snapshot_node}
use diffmonger.Zfs.Commands.{Run}
use diffmonger.ZfsDriver.{resume}
use diffmonger.Backend.{Backend, node_to_snapshot_id}
use diffmonger.Restore.Run.{restore}
use diffmonger.Snapshot.{State, on_world, store}

module _ {W : Type 0} (backend : Backend W) where
  -- The snapshot's id: of a new snapshot, or of the one that is there.
  unfoldable pub new_or_adopted : Bool → Uuid → ℤ → Encoded → Run W backend.SnapshotId
  new_or_adopted create uuid now e w = elim create [
    | true ↦ resume (backend.snapshot e.node uuid now w) (λ taken w'. (ok taken.0, w'))
    | false ↦ (backend.snapshot_id e, w)
  ]

  -- `maybeParentSnapshotId`
  unfoldable pub import_parent : Repository → ℕ → Result (Option backend.SnapshotId)
  import_parent r node = elim (Node.fenwick_maybe_parent node) [
    | none ↦ ok none
    | some parent ↦ node_to_snapshot_id backend r parent >>= λ id. ok (some id)
  ]

  module _ (encrypted : List ℕ → Result (List ℕ)) where
    unfoldable pub import_new : Bool → Uuid → ℤ → Encoded → Run (State backend) (Unit {0})
    import_new create uuid now e s =
        resume (on_world backend (new_or_adopted create uuid now e) s) (λ id s1.
          resume (import_parent s1.0 e.node, s1) (λ parent. store backend encrypted id parent))

    -- `snapshot_import`
    unfoldable pub snapshot_import : Bool → Uuid → ℤ → List ℕ → Run (State backend) (Unit {0})
    snapshot_import create uuid now input s =
        resume (Encoded.deserialise input, s)
          (λ e s1. elim (exists s1.0 e.node) [
            | true ↦ (err import_exists, s1)
            | false ↦ import_new create uuid now e s1
          ])

  -- `export_repository`; `import` is the import command, with what it is sent.
  module _ (decrypted : List ℕ → List ℕ × Result (Unit {0})) (import : List ℕ → Run W (Unit {0}))
      (r : Repository) where
    -- The function that is called upon each snapshot.
    abbrev pub send : backend.SnapshotId → Run W (Unit {0})
    send id = import (Encoded.serialise (backend.encoded id))

    unfoldable pub export_until : ℕ → List (List ℕ) → ℕ → Run W (Unit {0})
    export_until fuel command next w = elim (next == 0) [
      | true ↦ (ok tt, w)
      | false ↦ elim (is_empty command) [
        | true ↦ (err bad_value, w)
        | false ↦ restore backend decrypted send false r fuel true (next - 1) w
      ]
    ]

    unfoldable pub export_repository : ℕ → List (List ℕ) → Run W (Unit {0})
    export_repository fuel command w =
        resume (get_next_snapshot_node fuel r, w) (export_until fuel command)

-- ===== src/Restore/Run.antt =====
-- src/Controller.cpp, `restore`. `decrypted` is what the process of the decryption writes of a payload
-- and how it ends; `restore_opened` takes it from the key pair that the password opens. What is done
-- upon each snapshot is a parameter.
use diffmonger.Base.{ℕ, Bool, true, false, not, ◌||◌, Option, none, some, List, [], ◌∷◌, ◌==◌}
use diffmonger.Error.{Result, ok, err, no_such_file}
use diffmonger.Tree.{fenwick_parent}
use diffmonger.Repository.{Repository, NodeDir}
use diffmonger.Zfs.Commands.{Run}
use diffmonger.ZfsDriver.{resume}
use diffmonger.Restore.{nodes_to_restore}
use diffmonger.Sodium.{Sodium}
use diffmonger.KeySlots.{Slots}
use diffmonger.Payload.{decrypted_by, opened_key_pair}
use diffmonger.Backend.{Backend, node_to_snapshot_id}

-- `createPayloadFdForReading`, and what is read
abbrev pub payload_file : Option NodeDir → Result (List ℕ)
payload_file none = err no_such_file
payload_file (some dir) = elim dir.payload [ none ↦ err no_such_file | some bytes ↦ ok bytes ]

unfoldable pub read_payload : Repository → ℕ → Result (List ℕ)
read_payload r node = payload_file (r.snapshots node)

module _ {W : Type 0} (backend : Backend W) (decrypted : List ℕ → List ℕ × Result (Unit {0}))
    (upon_each_snapshot : backend.SnapshotId → Run W (Unit {0})) (skip_existing : Bool)
    (r : Repository) where
  -- The call of the backend, with what it reads.
  unfoldable pub receive : ℕ → backend.SnapshotId → List ℕ → Run W (Unit {0})
  receive node id input w = elim (node == 0) [
    | true ↦ backend.restore_initial id input w
    | false ↦
        resume (node_to_snapshot_id backend r (fenwick_parent node), w)
          (λ parent. backend.restore_diff parent id input)
  ]

  -- `decrypted` of `restore`; an exception of the process is thrown when it is waited for.
  unfoldable pub with_input : ℕ → backend.SnapshotId → Run W (Unit {0})
  with_input node id w =
      resume (read_payload r node, w)
        (λ payload w'.
          let (input, ending) = decrypted payload in
          resume (receive node id input w') (λ u w''. (ending, w'')))

  -- A snapshot that the backend has is skipped, if that is wanted.
  unfoldable pub unless_found : ℕ → backend.SnapshotId → Bool → Run W (Unit {0})
  unless_found node id found w = elim (not found || not skip_existing) [
    | true ↦ with_input node id w
    | false ↦ (ok tt, w)
  ]

  unfoldable pub restore_if_needed : ℕ → backend.SnapshotId → Run W (Unit {0})
  restore_if_needed node id w = resume (backend.exists id w) (unless_found node id)

  -- A round of the loop.
  unfoldable pub restore_node : ℕ → Run W (Unit {0})
  restore_node node w =
      resume (node_to_snapshot_id backend r node, w)
        (λ id w'. resume (restore_if_needed node id w') (λ u. upon_each_snapshot id))

  unfoldable pub restore_nodes : List ℕ → Run W (Unit {0})
  restore_nodes [] w = (ok tt, w)
  restore_nodes (node ∷ nodes) w = resume (restore_node node w) (λ u. restore_nodes nodes)

  -- The rest of `restore`, once the key pair is opened.
  unfoldable pub restore : ℕ → Bool → ℕ → Run W (Unit {0})
  restore fuel all_available node w =
      resume (nodes_to_restore fuel r all_available node, w) (λ nodes. restore_nodes nodes)

-- `restore`, with the key slots of the repository, and fuel for the entries of a payload.
unfoldable pub restore_opened :
    {W : Type 0}
    → (backend : Backend W) (s : Sodium) (partial : List ℕ → List ℕ) (entries : ℕ)
    → (encryption : Bool) (password : Option (List ℕ)) (slots : Slots)
    → (upon : backend.SnapshotId → Run W (Unit {0})) (skip_existing : Bool) (r : Repository) → ℕ
    → Bool
    → ℕ
    → Run W (Unit {0})
restore_opened backend s partial entries encryption password slots upon skip_existing r fuel
      all_available node w =
    resume (opened_key_pair s encryption password slots, w)
      (λ key_pair.
        restore backend (decrypted_by s partial entries key_pair) upon skip_existing r fuel
          all_available node)

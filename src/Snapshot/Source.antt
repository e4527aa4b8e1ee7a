-- ===== src/Snapshot/Source.antt =====
-- What `snapshot` of src/Controller.cpp relies on in a backend, and the state that it keeps in order.
use diffmonger.Base.{suc, ℕ, ◌^◌, ◌≤◌, ◌<◌, ◌≡◌, ◌⊎◌, true, false, none, List}
use diffmonger.Base.Int.{ℤ, InInt64}
use diffmonger.Error.{ok}
use diffmonger.Uuid.{Uuid}
use diffmonger.Encoded.Laws.{FitsEncoded}
use diffmonger.Tree.{fenwick_parent}
use diffmonger.Repository.{Repository, exists}
use diffmonger.Controller.Steps.{IsKept}
use diffmonger.Backend.{Backend, node_to_snapshot_id}
use diffmonger.Restore.Backend.{Keeps}
use diffmonger.Restore.Run.{read_payload}

-- The snapshots of the nodes that two worlds have are the same.
abbrev pub Same : {W : Type 0} → (W → ℕ → Type 0) → W → W → Type 0
Same Has w w' = Keeps Has w w' × Keeps Has w' w

-- A backend, `Has` telling whose snapshots its world has `Names` which ids are those of a node,
-- and `Stream` which bytes are the stream of a node.
-- For the repository of the UUID `uuid`, it takes a new snapshot of a node whose snapshot it does not
-- have, at a time of 64 bits, finds those that it has, and writes their streams. Of a node whose
-- snapshot it has it need not take another.
pub record IsSource {W : Type 0} (backend : Backend W) (Has : W → ℕ → Type 0)
    (Names : backend.SnapshotId → ℕ → Type 0) (Stream : ℕ → List ℕ → Type 0) : Type 0 where
  pub uuid : Uuid
  pub identifies :
      (id : backend.SnapshotId) (node : ℕ)
      → Names id node
      → node < 2 ^ 64
      → ((backend.encoded id).node ≡ node)
        × FitsEncoded (backend.encoded id)
        × (backend.snapshot_id (backend.encoded id) ≡ ok id)
  pub finds :
      (id : backend.SnapshotId) (node : ℕ) (w : W)
      → Names id node
      → Has w node
      → (w' : W) × (backend.exists id w ≡ (ok true, w')) × Same Has w w'
  pub takes :
      (node : ℕ) (now : ℤ) (w : W)
      → node < 2 ^ 64
      → InInt64 now
      → ¬ (Has w node)
      → (id : backend.SnapshotId) × (w' : W) × (backend.snapshot node uuid now w
          ≡ (ok (id, false), w'))
        × Names id node
        × Has w' node
        × Keeps Has w w'
        × ((x : ℕ) → Has w' x → (x ≡ node) ⊎ Has w x)
  pub writes_initial :
      (id : backend.SnapshotId) (w : W)
      → Names id 0
      → Has w 0
      → (bytes : List ℕ) × (w' : W) × (backend.initial id w ≡ (ok bytes, w'))
        × Stream 0 bytes
        × Same Has w w'
  pub writes_diff :
      (from to : backend.SnapshotId) (node : ℕ) (w : W)
      → 0 < node
      → Names from (fenwick_parent node)
      → Names to node
      → Has w (fenwick_parent node)
      → Has w node
      → (bytes : List ℕ) × (w' : W) × (backend.diff from to w ≡ (ok bytes, w'))
        × Stream node bytes
        × Same Has w w'

-- A node's id can be read from the repository, the backend has its snapshot, and the node's payload
-- is good.
pub record IsHeld {W : Type 0} (backend : Backend W) (Has : W → ℕ → Type 0)
    (Names : backend.SnapshotId → ℕ → Type 0) (Good : ℕ → List ℕ → Type 0) (r : Repository) (w : W)
    (x : ℕ) : Type 0 where
  pub id : backend.SnapshotId
  pub read_id : node_to_snapshot_id backend r x ≡ ok id
  pub names : Names id x
  pub has : Has w x
  pub payload : List ℕ
  pub read_bytes : read_payload r x ≡ ok payload
  pub good : Good x payload

-- The repository and the backend are in order: nothing is checked out, the nodes from the
-- breadcrumb on are not there, those that are to be there are, and whatever is there is held.
pub record IsSound {W : Type 0} (backend : Backend W) (Has : W → ℕ → Type 0)
    (Names : backend.SnapshotId → ℕ → Type 0) (Good : ℕ → List ℕ → Type 0) (r : Repository) (w : W)
    : Type 0 where
  pub idle : r.checked_out ≡ none
  pub fresh : (x : ℕ) → r.breadcrumb.untrusted_begin ≤ x → r.snapshots x ≡ none
  pub kept : IsKept r
  pub held : (x : ℕ) → exists r x ≡ true → IsHeld backend Has Names Good r w x

-- A round that took the snapshot of the breadcrumb's node: the repository and the backend are in
-- order, and gained this node only.
pub record IsTaken {W : Type 0} (backend : Backend W) (Has : W → ℕ → Type 0)
    (Names : backend.SnapshotId → ℕ → Type 0) (Good : ℕ → List ℕ → Type 0) (r : Repository) (w : W)
    (s : Repository) (w' : W) : Type 0 where
  pub sound : IsSound backend Has Names Good s w'
  pub advanced : s.breadcrumb.untrusted_begin ≡ suc r.breadcrumb.untrusted_begin
  pub stored : exists s r.breadcrumb.untrusted_begin ≡ true
  pub only : (x : ℕ) → Has w' x → (x ≡ r.breadcrumb.untrusted_begin) ⊎ Has w x

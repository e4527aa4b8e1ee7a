-- ===== src/Restore/Backend.antt =====
-- What `restore` of src/Controller.cpp relies on in a backend.
use diffmonger.Base.{ℕ, ◌<◌, ◌≤◌, ◌≡◌, Bool, true, List}
use diffmonger.Error.{ok}
use diffmonger.Tree.{fenwick_parent}
use diffmonger.Backend.{Backend}

-- The snapshots of the nodes that a world has stay there.
abbrev pub Keeps : {W : Type 0} → (W → ℕ → Type 0) → W → W → Type 0
Keeps Has w w' = (x : ℕ) → Has w x → Has w' x

-- A restore is destructive: what a stream leaves of the snapshots that were there are those up to the
-- one that it starts from.
abbrev pub KeepsTo : {W : Type 0} → (W → ℕ → Type 0) → ℕ → W → W → Type 0
KeepsTo Has last w w' = (x : ℕ) → x ≤ last → Has w x → Has w' x

-- A backend, `Has` telling whose snapshots its world has, `Names` which ids are those of a node, and
-- `Stream` which bytes are the stream of a node. A stream can be received if the snapshot that it
-- starts from is there, and then its own is there.
pub record IsBackend {W : Type 0} (backend : Backend W) (Has : W → ℕ → Type 0)
    (Names : backend.SnapshotId → ℕ → Type 0) (Stream : ℕ → List ℕ → Type 0) : Type 0 where
  pub answers :
      (id : backend.SnapshotId) (node : ℕ) (w : W)
      → Names id node
      → (found : Bool) × (w' : W) × (backend.exists id w ≡ (ok found, w'))
        × ((found ≡ true) → Has w' node)
        × Keeps Has w w'
  pub receives_initial :
      (id : backend.SnapshotId) (input : List ℕ) (w : W)
      → Names id 0
      → Stream 0 input
      → (w' : W) × (backend.restore_initial id input w ≡ (ok tt, w')) × Has w' 0
  pub receives_diff :
      (from to : backend.SnapshotId) (node : ℕ) (input : List ℕ) (w : W)
      → 0 < node
      → Names from (fenwick_parent node)
      → Names to node
      → Has w (fenwick_parent node)
      → Stream node input
      → (w' : W) × (backend.restore_diff from to input w ≡ (ok tt, w'))
        × Has w' node
        × KeepsTo Has (fenwick_parent node) w w'

-- ===== src/Backend.antt =====
-- src/BackendDriver.hpp: a backend, which keeps the snapshots of the data, as an interface. The driver
-- in src/ZfsDriver.cpp fills it.
use diffmonger.Base.{ℕ, Bool, List}
use diffmonger.Base.Int.{ℤ}
use diffmonger.Error.{Result, ◌>>=◌}
use diffmonger.Uuid.{Uuid}
use diffmonger.Encoded.{Encoded}
use diffmonger.Repository.{Repository, get_encoded}
use diffmonger.Zfs.Commands.{Command, Run}
use diffmonger.ZfsDriver
use diffmonger.ZfsDriver.{Driver}

-- `BackendDriver`, with its `SnapshotId`. Where a snapshot is made, the clock's time is an argument.
pub record Backend (W : Type 0) : Type 1 where
  pub SnapshotId : Type 0
  pub encoded : SnapshotId → Encoded
  pub snapshot_id : Encoded → Result SnapshotId
  pub snapshot : ℕ → Uuid → ℤ → Run W (SnapshotId × Bool)
  pub exists : SnapshotId → Run W Bool
  pub remove_snapshot : SnapshotId → Run W (Unit {0})
  -- These two return the bytes that they write.
  pub initial : SnapshotId → Run W (List ℕ)
  pub diff : SnapshotId → SnapshotId → Run W (List ℕ)
  pub restore_initial : SnapshotId → List ℕ → Run W (Unit {0})
  pub restore_diff : SnapshotId → SnapshotId → List ℕ → Run W (Unit {0})

-- The driver of ZFS
abbrev pub zfs_backend : {W : Type 0} → (Command → List ℕ → Run W (List ℕ)) → Driver → Backend W
zfs_backend run d = record {
  SnapshotId = ZfsDriver.SnapshotId;
  encoded = ZfsDriver.encoded;
  snapshot_id = ZfsDriver.parse_no_verify;
  snapshot = ZfsDriver.snapshot run d;
  exists = ZfsDriver.exists run d;
  remove_snapshot = ZfsDriver.remove_snapshot run d;
  initial = ZfsDriver.initial run d;
  diff = ZfsDriver.diff run d;
  restore_initial = ZfsDriver.restore_initial run d;
  restore_diff = ZfsDriver.restore_diff run d;
}

-- `nodeToSnapshotId` of src/Controller.cpp
unfoldable pub node_to_snapshot_id :
    {W : Type 0} (backend : Backend W) → Repository → ℕ → Result backend.SnapshotId
node_to_snapshot_id backend r node = get_encoded r node >>= backend.snapshot_id

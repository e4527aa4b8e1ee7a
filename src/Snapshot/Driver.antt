-- ===== src/Snapshot/Driver.antt =====
-- src/ZfsDriver.cpp as a backend of src/Controller.cpp: it takes, finds and writes snapshots as
-- `IsSource` says, by what the commands of `zfs` do.
use diffmonger.Base.{ℕ, ◌^◌, ◌<◌, ◌≡◌, ◌⊎◌, List, length}
use diffmonger.Base.Int.{ℤ, InInt64}
use diffmonger.Error.{ok}
use diffmonger.Uuid.{Uuid}
use diffmonger.Tree.{fenwick_parent}
use diffmonger.Zfs.Commands.{Command, Run, zfs_snapshot, zfs_get_guid, zfs_send, zfs_diffsend}
use diffmonger.ZfsDriver
use diffmonger.ZfsDriver.{SnapshotId, Driver, named, node_name}
use diffmonger.Restore.Backend.{Keeps}
use diffmonger.Snapshot.Source.{Same}

module _ {W : Type 0} (run : Command → List ℕ → Run W (List ℕ)) (d : Driver) (uuid : Uuid)
    (guid_of : ℕ → ℕ) (Has : W → ℕ → Type 0) (Stream : ℕ → List ℕ → Type 0) where
  -- The id of a node's snapshot, taken at the time `t`.
  abbrev pub id_at : ℕ → ℤ → SnapshotId
  id_at node t = record {
    node = node;
    guid = guid_of node;
    name = node_name node uuid;
    timestamp = t;
  }

  abbrev pub IsIdOf : SnapshotId → ℕ → Type 0
  IsIdOf id node = (t : ℤ) × InInt64 t × (id ≡ id_at node t)

  -- What the commands do: `zfs snapshot` makes a snapshot that is not there, `zfs get` reports the
  -- guid of one that is, and `zfs send` writes its stream.
  pub record IsZfs : Type 0 where
    pub size : length uuid ≡ 16
    pub guids : (node : ℕ) → (0 < guid_of node) × (guid_of node < 2 ^ 64)
    pub makes :
        (node : ℕ) (w : W)
        → node < 2 ^ 64
        → ¬ (Has w node)
        → (w' : W) × (zfs_snapshot run d.zfs_command (named d (node_name node uuid)) w
            ≡ (ok tt, w'))
          × Has w' node
          × Keeps Has w w'
          × ((x : ℕ) → Has w' x → (x ≡ node) ⊎ Has w x)
    pub reports :
        (node : ℕ) (w : W)
        → Has w node
        → (w' : W) × (zfs_get_guid run d.zfs_command (named d (node_name node uuid)) w
            ≡ (ok (guid_of node), w'))
          × Same Has w w'
    pub sends :
        (w : W)
        → Has w 0
        → (bytes : List ℕ) × (w' : W) × (zfs_send run d.zfs_command (named d (node_name 0 uuid)) w
            ≡ (ok bytes, w'))
          × Stream 0 bytes
          × Same Has w w'
    pub sends_diff :
        (node : ℕ) (w : W)
        → 0 < node
        → Has w (fenwick_parent node)
        → Has w node
        → (bytes : List ℕ) × (w' : W) × (zfs_diffsend run d.zfs_command d.dataset
              (node_name (fenwick_parent node) uuid)
              (node_name node uuid)
              w
            ≡ (ok bytes, w'))
          × Stream node bytes
          × Same Has w w'

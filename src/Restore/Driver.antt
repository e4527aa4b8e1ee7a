-- ===== src/Restore/Driver.antt =====
-- src/ZfsDriver.cpp as a backend of `restore` of src/Controller.cpp: it receives streams as `IsBackend`
-- says, by what the commands of `zfs` do.
use diffmonger.Base.{ℕ, ◌<◌, ◌≡◌, ◌⊎◌, List}
use diffmonger.Error.{ok, err, command_failed}
use diffmonger.Uuid.{Uuid}
use diffmonger.Tree.{fenwick_parent}
use diffmonger.Zfs.Commands.{Command, Run, zfs_get_guid, zfs_receive}
use diffmonger.ZfsDriver.{Driver, named, node_name, receive_args}
use diffmonger.Restore.Backend.{Keeps, KeepsTo}
use diffmonger.Snapshot.Source.{Same}

module _ {W : Type 0} (run : Command → List ℕ → Run W (List ℕ)) (d : Driver) (uuid : Uuid)
    (guid_of : ℕ → ℕ) (Has : W → ℕ → Type 0) (Stream : ℕ → List ℕ → Type 0) where
  -- What the commands do: `zfs get` reports the guid of a snapshot that is there and fails for one
  -- that is not, and `zfs receive` makes the snapshot of a stream whose start is there, and leaves
  -- those up to that start.
  pub record IsReceiver : Type 0 where
    pub answers :
        (node : ℕ) (w : W)
        → (w' : W) × Keeps Has w w'
          × (((zfs_get_guid run d.zfs_command (named d (node_name node uuid)) w
                  ≡ (ok (guid_of node), w'))
                × Has w' node)
              ⊎ (zfs_get_guid run d.zfs_command (named d (node_name node uuid)) w
                  ≡ (err command_failed, w')))
    pub reports :
        (node : ℕ) (w : W)
        → Has w node
        → (w' : W) × (zfs_get_guid run d.zfs_command (named d (node_name node uuid)) w
            ≡ (ok (guid_of node), w'))
          × Same Has w w'
    pub receives :
        (input : List ℕ) (w : W)
        → Stream 0 input
        → (w' : W) × (zfs_receive run d.zfs_command
              (named d (node_name 0 uuid))
              input
              (receive_args run d d.receive0_args)
              w
            ≡ (ok tt, w'))
          × Has w' 0
    pub receives_diff :
        (node : ℕ) (input : List ℕ) (w : W)
        → 0 < node
        → Has w (fenwick_parent node)
        → Stream node input
        → (w' : W) × (zfs_receive run d.zfs_command
              (named d (node_name node uuid))
              input
              (receive_args run d d.receiven_args)
              w
            ≡ (ok tt, w'))
          × Has w' node
          × KeepsTo Has (fenwick_parent node) w w'

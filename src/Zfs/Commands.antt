-- ===== src/Zfs/Commands.antt =====
-- src/zfs.cpp: the invocations of `zfs`. What a command does is a parameter: its standard output, or
-- the exception of src/sysutil.cpp, and the state of the world after it.
use diffmonger.Base.{ℕ, ◌==◌, Bool, not, ◌&&◌, List, [], ◌∷◌, ◌++◌, if◌then◌else◌}
use diffmonger.Base.Text.{codes, is_digit, all_of, is_empty}
use diffmonger.Error.{Result, ok, err, ◌>>=◌, invalid_name, malformed_output}
use diffmonger.Zfs.{
  DatasetSnapshotName, full_name, snapshot_guid, SnapshotNameGuid, parse_snapshots,
}

pub record Command : Type 0 where
  pub cmd : List ℕ
  pub args : List (List ℕ)

-- `Command::Command(std::span<std::string const>)`
unfoldable pub command : List (List ℕ) → Result Command
command [] = err invalid_name
command (cmd ∷ args) = ok (record { cmd = cmd; args = cmd ∷ args })

-- `Command::extend`
unfoldable pub extend : Command → List (List ℕ) → Command
extend c xs = record c { args = c.args ++ xs }

-- Code that runs commands.
abbrev pub Run : Type 0 → Type 0 → Type 0
Run W A = W → Result A × W

abbrev pub map_result : {W A B : Type 0} → (A → Result B) → Result A × W → Result B × W
map_result f (r, w) = (r >>= f, w)

-- `systemvp_strchomp`: the output without a newline at its end.
abbrev pub chomp_cons : ℕ → Bool → List ℕ → List ℕ
chomp_cons c last cs = if last && c == 10 then [] else c ∷ cs

abbrev pub chomp : List ℕ → List ℕ
chomp [] = []
chomp (c ∷ cs) = chomp_cons c (is_empty cs) (chomp cs)

-- `zfs_get_guid` on the output.
unfoldable pub reported_guid : List ℕ → Result ℕ
reported_guid output =
    let guid = chomp output in
    if not (is_empty guid) && all_of is_digit guid then snapshot_guid guid else err malformed_output

module _ {W : Type 0} (run : Command → List ℕ → Run W (List ℕ)) where
  -- Run for the success, `systemvp_throw_on_failure`.
  abbrev pub run_only : Command → List ℕ → Run W (Unit {0})
  run_only c input w = map_result (λ output. ok tt) (run c input w)

  unfoldable pub zfs_snapshot : Command → DatasetSnapshotName → Run W (Unit {0})
  zfs_snapshot c n = run_only (extend c (codes "snapshot" ∷ full_name n ∷ [])) []

  unfoldable pub zfs_get_guid : Command → DatasetSnapshotName → Run W ℕ
  zfs_get_guid c n w = map_result reported_guid (
      run
        (extend c
          (codes "get" ∷ codes "-H" ∷ codes "-o" ∷ codes "value" ∷ codes "guid" ∷ full_name n ∷ []))
        [] w)

  unfoldable pub zfs_get_snapshots : Command → List ℕ → Run W (List SnapshotNameGuid)
  zfs_get_snapshots c dataset w = map_result (parse_snapshots dataset) (
      run
        (extend c (
          codes "list"
          ∷ codes "-t"
          ∷ codes "snapshot"
          ∷ codes "-o"
          ∷ codes "name,guid"
          ∷ codes "-H"
          ∷ dataset
          ∷ []))
        [] w)

  -- The stream that `zfs send -i` writes.
  unfoldable pub zfs_diffsend : Command → List ℕ → List ℕ → List ℕ → Run W (List ℕ)
  zfs_diffsend c dataset base cur =
      run
        (extend c (
          codes "send"
          ∷ codes "-i"
          ∷ (64 ∷ base)
          ∷ full_name (record { dataset = dataset; snapshot = cur })
          ∷ []))
        []

  unfoldable pub zfs_send : Command → DatasetSnapshotName → Run W (List ℕ)
  zfs_send c n = run (extend c (codes "send" ∷ full_name n ∷ [])) []

  unfoldable pub zfs_receive :
      Command → DatasetSnapshotName → List ℕ → List (List ℕ) → Run W (Unit {0})
  zfs_receive c n input args =
      run_only (extend (extend (extend c (codes "receive" ∷ [])) args) (full_name n ∷ [])) input

  unfoldable pub zfs_remove_snapshot : Command → DatasetSnapshotName → Run W (Unit {0})
  zfs_remove_snapshot c n = run_only (extend c (codes "destroy" ∷ full_name n ∷ [])) []

  unfoldable pub zfs_destroy_dataset : Command → List ℕ → Run W (Unit {0})
  zfs_destroy_dataset c dataset = run_only (extend c (codes "destroy" ∷ dataset ∷ [])) []

  unfoldable pub zfs_rollback : Command → DatasetSnapshotName → Run W (Unit {0})
  zfs_rollback c n = run_only (extend c (codes "rollback" ∷ codes "-r" ∷ full_name n ∷ [])) []

  unfoldable pub zfs_version_info : Command → Run W (List ℕ)
  zfs_version_info c = run (extend c (codes "--version" ∷ [])) []

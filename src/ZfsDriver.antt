-- ===== src/ZfsDriver.antt =====
-- src/ZfsDriver.cpp: the backend that keeps the snapshots in a ZFS dataset. A method that runs
-- commands takes and returns the state of the world.
pub mod Ids
pub mod Outcomes
use diffmonger.Base.{
  ℕ, ◌≡◌, ◌==◌, Bool, true, false, Option, none, some, List, [], ◌∷◌, ◌++◌, if◌then◌else◌,
}
use diffmonger.Base.Int.{ℤ}
use diffmonger.Base.Text.{codes, bytes_eq}
use diffmonger.Base.Text.Decimal.{to_string}
use diffmonger.Error.{
  Error, Result, ok, err, ◌>>=◌, snapshot_does_not_exist, snapshot_invalid, driver_mismatch,
  command_failed, not_run, malformed_output, corrupt_stream, invalid_name, out_of_range,
}
use diffmonger.Serialisation.{string_codec}
use diffmonger.Uuid.{Uuid, uuid_codec, ascii}
use diffmonger.Encoded.{Encoded}
use diffmonger.Zfs.{DatasetSnapshotName, snapshot_name, snapshot_guid}
use diffmonger.Zfs.Commands.{
  Command, Run, zfs_snapshot, zfs_get_guid, zfs_remove_snapshot, zfs_send, zfs_diffsend,
  zfs_receive,
}

unfoldable pub driver_identity_and_version : Uuid
driver_identity_and_version =
    0xe3 ∷ 0x7c ∷ 0xfb ∷ 0xbe ∷ 0x35 ∷ 0x16 ∷ 0xaf ∷ 0x29 ∷ 0xf4 ∷ 0x26 ∷ 0x7e ∷ 0xc1 ∷ 0xdf ∷ 0x50
    ∷ 0xc1 ∷ 0x61 ∷ []

-- `SnapshotIdImpl`
pub record SnapshotId : Type 0 where
  pub node : ℕ
  pub guid : ℕ
  pub name : List ℕ
  pub timestamp : ℤ

-- `SnapshotIdImpl::encoded`
unfoldable pub encoded : SnapshotId → Encoded
encoded id = record {
  bytes =
      uuid_codec.serialise driver_identity_and_version
      ++ (string_codec.serialise (to_string id.guid) ++ string_codec.serialise id.name);
  node = id.node;
  timestamp = id.timestamp;
}

-- `SnapshotIdImpl::parseNoVerify`
abbrev pub with_version : Encoded → Uuid → List ℕ → List ℕ → Result SnapshotId
with_version e version guid_str name_str =
    if bytes_eq version driver_identity_and_version
    then (snapshot_guid guid_str >>= λ guid. snapshot_name name_str >>= λ name.
        ok (record { node = e.node; guid = guid; name = name; timestamp = e.timestamp }))
    else err driver_mismatch

unfoldable pub parse_no_verify : Encoded → Result SnapshotId
parse_no_verify e = do
  (version, after_version) ← uuid_codec.deserialise e.bytes
  (guid, after_guid) ← string_codec.deserialise after_version
  (name, after_name) ← string_codec.deserialise after_guid
  with_version e version guid name

-- The name of the snapshot of a node, by the repository's UUID.
unfoldable pub node_name : ℕ → Uuid → List ℕ
node_name node uuid = codes "diffmonger-" ++ (to_string node ++ 45 ∷ ascii uuid)

-- `DriverArguments`
pub record Driver : Type 0 where
  pub zfs_command : Command
  pub dataset : List ℕ
  pub receive0_args : Option (List (List ℕ))
  pub receiven_args : Option (List (List ℕ))

abbrev pub named : Driver → List ℕ → DatasetSnapshotName
named d name = record { dataset = d.dataset; snapshot = name }

-- The handlers of the exceptions that the commands and their parsers throw, by their classes.
abbrev pub is_system_error : Error → Bool
is_system_error not_run = true
is_system_error e = false

-- `std::runtime_error` is a base class of `std::system_error` and of `command_failed`.
abbrev pub is_runtime_error : Error → Bool
is_runtime_error not_run = true
is_runtime_error command_failed = true
is_runtime_error malformed_output = true
is_runtime_error snapshot_does_not_exist = true
is_runtime_error snapshot_invalid = true
is_runtime_error e = false

abbrev pub verified : ℕ → Result ℕ → Result (Unit {0})
verified expected (ok guid) = if guid == expected then ok tt else err snapshot_invalid
verified expected (err command_failed) = err snapshot_does_not_exist
verified expected (err e) = err e

abbrev pub caught : Result (Unit {0}) → Result Bool
caught (ok u) = ok true
caught (err snapshot_does_not_exist) = ok false
caught (err e) = err e

-- The next step, unless the one before it threw.
abbrev pub resume : {W A B : Type 0} → Result A × W → (A → Run W B) → Result B × W
resume (ok a, w) f = f a w
resume (err e, w) f = (err e, w)

-- `snapshot`, after `zfs snapshot` gave `taken`. An exception that is caught is thrown again if the
-- guid cannot be had.
abbrev pub guid_or_rethrow : Option Error → Result ℕ → Result ℕ
guid_or_rethrow maybe_exception (ok guid) = ok guid
guid_or_rethrow none (err e) = err e
guid_or_rethrow (some caught) (err e) = if is_runtime_error e then err caught else err e

abbrev pub new_id : ℕ → List ℕ → ℤ → Option Error → ℕ → Result (SnapshotId × Bool)
new_id node name now none guid =
    ok (record { node = node; guid = guid; name = name; timestamp = now }, false)
new_id node name now (some caught) guid =
    ok (record { node = node; guid = guid; name = name; timestamp = now }, true)

-- The exception that the first handler of `snapshot` keeps, or the one that it does not catch.
abbrev pub snapshot_handler : Result (Unit {0}) → Result (Option Error)
snapshot_handler (ok u) = ok none
snapshot_handler (err e) = if is_system_error e then ok (some e) else err e

module _ {W : Type 0} (run : Command → List ℕ → Run W (List ℕ)) (d : Driver) where
  -- `castAndVerify`, and `verify`
  unfoldable pub cast_and_verify : SnapshotId → Run W (Unit {0})
  cast_and_verify id w =
      let (guid, w') = zfs_get_guid run d.zfs_command (named d id.name) w in
      (verified id.guid guid, w')

  -- `exists`
  unfoldable pub exists : SnapshotId → Run W Bool
  exists id w = let (outcome, w') = cast_and_verify id w in (caught outcome, w')

  -- `snapshot`; `now` is the clock's time where the id is made.
  unfoldable pub snapshot : ℕ → Uuid → ℤ → Run W (SnapshotId × Bool)
  snapshot node uuid now w =
      resume (snapshot_name (node_name node uuid), w)
        (λ name w0.
          let (taken, w1) = zfs_snapshot run d.zfs_command (named d name) w0 in
          resume (snapshot_handler taken, w1)
            (λ maybe_exception w2.
              let (guid, w3) = zfs_get_guid run d.zfs_command (named d name) w2 in
              (guid_or_rethrow maybe_exception guid >>= new_id node name now maybe_exception, w3)))

  -- `remove_snapshot`
  unfoldable pub remove_snapshot : SnapshotId → Run W (Unit {0})
  remove_snapshot id w =
      resume (cast_and_verify id w) (λ u. zfs_remove_snapshot run d.zfs_command (named d id.name))

  -- `initial` and `diff`, which return what is written. C++ leaves open which of the ids `diff`
  -- verifies first; here it is the one it starts from.
  unfoldable pub initial : SnapshotId → Run W (List ℕ)
  initial id w = resume (cast_and_verify id w) (λ u. zfs_send run d.zfs_command (named d id.name))

  unfoldable pub diff : SnapshotId → SnapshotId → Run W (List ℕ)
  diff from to w = resume (cast_and_verify from w) (λ u w1.
      resume (cast_and_verify to w1)
        (λ v. zfs_diffsend run d.zfs_command d.dataset from.name to.name))

  abbrev pub receive_args : Option (List (List ℕ)) → List (List ℕ)
  receive_args none = codes "-F" ∷ []
  receive_args (some args) = codes "-F" ∷ args

  -- `restoreInitial` and `restoreDiff`, which read `input`.
  unfoldable pub restore_initial : SnapshotId → List ℕ → Run W (Unit {0})
  restore_initial id input =
      zfs_receive run d.zfs_command (named d id.name) input (receive_args d.receive0_args)

  unfoldable pub restore_diff : SnapshotId → SnapshotId → List ℕ → Run W (Unit {0})
  restore_diff from to input w =
      resume (cast_and_verify from w)
        (λ u. zfs_receive run d.zfs_command (named d to.name) input (receive_args d.receiven_args))

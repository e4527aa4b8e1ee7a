-- ===== src/Examples/Snapshots.antt =====
-- The names, the listings and the driver of src/zfs.cpp and src/ZfsDriver.cpp, with commands that
-- always answer the same and count their calls.
use diffmonger.Base.{
  ℕ, suc, ◌≡◌, refl, Bool, true, false, none, List, [], ◌∷◌, ◌++◌, ◌↔◌, ◌⊎◌, arith,
}
use diffmonger.Base.Int.{pos}
use diffmonger.Base.Text.{codes}
use diffmonger.Error.{ok, err, command_failed, snapshot_does_not_exist, not_run}
use diffmonger.Serialisation.Laws.{All}
use diffmonger.Uuid.{Uuid, IsByte}
use diffmonger.Zfs.{SnapshotNameGuid, parse_snapshots}
use diffmonger.Zfs.Listing.{listing, parse_snapshots-listing}
use diffmonger.Zfs.Commands.{Command, Run, zfs_snapshot, zfs_get_guid}
use diffmonger.ZfsDriver
use diffmonger.ZfsDriver.{SnapshotId, Driver, named, encoded, parse_no_verify, node_name}
use diffmonger.ZfsDriver.Ids.{parse_no_verify-encoded, node_name-injective}
use diffmonger.ZfsDriver.Outcomes.{exists_iff, snapshot_iff}

abbrev a_uuid : Uuid
a_uuid = 1 ∷ 2 ∷ 3 ∷ 4 ∷ 5 ∷ 6 ∷ 7 ∷ 8 ∷ 9 ∷ 10 ∷ 11 ∷ 12 ∷ 13 ∷ 14 ∷ 15 ∷ 255 ∷ []

abbrev an_id : SnapshotId
an_id = record { node = 12; guid = 42; name = codes "diffmonger-12-ab"; timestamp = pos 1700000000 }

abbrev driver : Driver
driver = record {
  zfs_command = record { cmd = codes "zfs"; args = codes "zfs" ∷ [] };
  dataset = codes "tank/home";
  receive0_args = none;
  receiven_args = none;
}

abbrev answering : Command → List ℕ → Run ℕ (List ℕ)
answering c input w = (ok (codes "42" ++ 10 ∷ []), suc w)

parse_no_verify-encoded_example : parse_no_verify (encoded an_id) ≡ ok an_id
parse_no_verify-encoded_example =
    parse_no_verify-encoded an_id
      (record { nonzero = omega arith; small = omega arith; name_ok = refl })

two_bytes : All IsByte (1 ∷ 255 ∷ [])
two_bytes = (omega arith, (omega arith, tt))

node_name-injective_example : ◌≡◌ {A = ℕ} 12 12 × ◌≡◌ {A = List ℕ} (1 ∷ 255 ∷ []) (1 ∷ 255 ∷ [])
node_name-injective_example =
    node_name-injective 12 12 (1 ∷ 255 ∷ []) (1 ∷ 255 ∷ []) two_bytes two_bytes refl

abbrev two_entries : List SnapshotNameGuid
two_entries =
    record { name = codes "daily-1"; guid = 42 } ∷ record { name = codes "x:2"; guid = 1700 } ∷ []

parse_snapshots-listing_example :
    parse_snapshots (codes "tank/home") (listing (codes "tank/home") two_entries) ≡ ok two_entries
parse_snapshots-listing_example = parse_snapshots-listing (codes "tank/home") two_entries refl (
  record { name_ok = refl; nonzero = omega arith; small = omega arith },
  (record { name_ok = refl; nonzero = omega arith; small = omega arith }, tt),
)

exists_iff_example :
    (((ZfsDriver.exists answering driver an_id 0).0 ≡ ok true)
      ↔ ((zfs_get_guid answering driver.zfs_command (named driver an_id.name) 0).0 ≡ ok 42))
    × (((ZfsDriver.exists answering driver an_id 0).0 ≡ ok false) ↔ (
        ((zfs_get_guid answering driver.zfs_command (named driver an_id.name) 0).0
          ≡ err command_failed)
        ⊎ ((zfs_get_guid answering driver.zfs_command (named driver an_id.name) 0).0
            ≡ err snapshot_does_not_exist)))
    × ((ZfsDriver.exists answering driver an_id 0).1
        ≡ (zfs_get_guid answering driver.zfs_command (named driver an_id.name) 0).1)
exists_iff_example = exists_iff answering driver an_id 0

snapshot_iff_example :
    ((ZfsDriver.snapshot answering driver 12 a_uuid (pos 1700000000) 0).0
      ≡ ok (
        record { node = 12; guid = 42; name = node_name 12 a_uuid; timestamp = pos 1700000000 },
        false,
      ))
    ↔ (((zfs_get_guid answering driver.zfs_command
            (named driver (node_name 12 a_uuid))
            (zfs_snapshot answering driver.zfs_command (named driver (node_name 12 a_uuid)) 0).1).0
          ≡ ok 42)
        × ((◌≡◌ {A = Bool} false false
              × ((zfs_snapshot answering driver.zfs_command
                    (named driver (node_name 12 a_uuid))
                    0).0
                  ≡ ok tt))
            ⊎ (◌≡◌ {A = Bool} false true
                × ((zfs_snapshot answering driver.zfs_command
                      (named driver (node_name 12 a_uuid))
                      0).0
                    ≡ err not_run))))
snapshot_iff_example =
    snapshot_iff answering driver 12 a_uuid (pos 1700000000) 0 (omega arith) refl 42 false

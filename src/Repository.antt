-- ===== src/Repository.antt =====
-- src/RepositoryStructure.cpp: the repository directory and the operations on it.
--
-- The files are the state: a directory for each node under `snapshots`, the temporary snapshot and
-- the breadcrumb; the lock is held throughout. A file that is there can be read: of the errors of
-- the file system only ENOENT and that of a rename onto a directory that is not empty are modelled.
pub mod Exec
pub mod Commit
pub mod Next
pub mod Nodes
pub mod Relative
pub mod Create
use diffmonger.Base.{
  ℕ, zero, suc, ◌+◌, ◌-◌, ◌^◌, ◌%◌, Bool, true, false, not, Option, none, some, List, [], ◌∷◌, ◌++◌,
}
use diffmonger.Base.{ltb, leb, ◌==◌, if◌then◌else◌}
use diffmonger.Base.Int.{ℤ, pos, negsuc, pos_part, neg_part, sub_ℕ, leb_ℤ, max_ℤ, ◌+ℤ◌}
use diffmonger.Error.{
  Result, ok, err, ◌>>=◌, no_such_file, node_mismatch, node_too_big, already_checked_out,
  owner_mismatch, node_exists, no_fuel,
}
use diffmonger.Node
use diffmonger.Encoded
use diffmonger.Encoded.{Encoded, Breadcrumb}

-- The files of a node's directory: `id` and `blob`.
pub record NodeDir : Type 0 where
  pub id : Option (List ℕ)
  pub payload : Option (List ℕ)

pub record Repository : Type 0 where
  pub snapshots : ℕ → Option NodeDir
  pub temporary : Option NodeDir
  -- `temporarySnapshotImpl`: which of the `handles` checked out so far it is
  pub checked_out : Option ℕ
  pub handles : ℕ
  -- the member, and the file
  pub breadcrumb : Breadcrumb
  pub breadcrumb_file : Option (List ℕ)

abbrev pub update : (ℕ → Option NodeDir) → ℕ → Option NodeDir → ℕ → Option NodeDir
update snapshots node dir k = if k == node then dir else snapshots k

abbrev pub is_some {ℓ} : {A : Type ℓ} → Option A → Bool
is_some none = false
is_some (some a) = true

-- `nodeExists`
unfoldable pub exists : Repository → ℕ → Bool
exists r node = is_some (r.snapshots node)

-- The bytes of the file `id` of a node.
abbrev pub id_file : Option NodeDir → Option (List ℕ)
id_file none = none
id_file (some dir) = dir.id

-- `tryGetEncodedSnapshotId2` and `tryGetEncodedSnapshotId`, on what was read.
unfoldable pub check_encoded : ℕ → Option (List ℕ) → Result (Option Encoded)
check_encoded node none = ok none
check_encoded node (some bytes) = do
  out ← Encoded.deserialise bytes
  if out.node == node then ok (some out) else err node_mismatch

unfoldable pub try_get_encoded : Repository → ℕ → Result (Option Encoded)
unfolding check_encoded
try_get_encoded r node = check_encoded node (id_file (r.snapshots node))

-- `getEncodedSnapshotId`
abbrev pub or_no_file : Option Encoded → Result Encoded
or_no_file none = err no_such_file
or_no_file (some e) = ok e

unfoldable pub get_encoded : Repository → ℕ → Result Encoded
get_encoded r node = try_get_encoded r node >>= or_no_file

unfoldable pub delete_node : ℕ → Repository → Repository
delete_node node r = record r { snapshots = update r.snapshots node none }

unfoldable pub write_breadcrumb : Breadcrumb → Repository → Repository
write_breadcrumb b r = record r {
  breadcrumb = b;
  breadcrumb_file = some (Encoded.serialise_breadcrumb b);
}

-- `getLatestTrustedNode`
unfoldable pub get_latest_trusted_node : Repository → Option ℕ
get_latest_trusted_node r =
    let node = r.breadcrumb.untrusted_begin in if Node.is_root node then none else some node

-- The loop of `getNextSnapshotNode`.
unfoldable pub next_loop : ℕ → Repository → ℕ → Result ℕ
next_loop zero r prev = err no_fuel
next_loop (suc fuel) r prev =
    try_get_encoded r prev >>= elim [ none ↦ ok prev | some next ↦ next_loop fuel r next.node ]

unfoldable pub get_next_snapshot_node : ℕ → Repository → Result ℕ
get_next_snapshot_node fuel r = next_loop fuel r r.breadcrumb.untrusted_begin

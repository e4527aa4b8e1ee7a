-- ===== src/Repository/Commit.antt =====
-- src/RepositoryStructure.cpp: the temporary snapshot, which a node's payload is written to, and
-- its commit, which renames its directory to that of the node.
--
-- A `TemporarySnapshot` is the number of its check-out, for the identity of the shared pointer. The
-- payload's descriptor is a write at this level: the bytes that the file has when it is closed.
pub mod Laws
use diffmonger.Base.{
  ℕ, suc, ◌==◌, Bool, true, false, not, ◌&&◌, ◌||◌, Option, none, some, List, [], if◌then◌else◌,
}
use diffmonger.Error.{
  Result, ok, err, already_checked_out, owner_mismatch, node_exists, no_such_file, bug,
}
use diffmonger.Node
use diffmonger.Encoded
use diffmonger.Encoded.{Encoded}
use diffmonger.Repository.{Repository, NodeDir, update, is_some, write_breadcrumb}
use diffmonger.Repository.Exec.{Op, continue}

-- `TemporarySnapshot::Impl::Impl` and `checkOutTemporarySnapshot`
unfoldable pub check_out : Op ℕ
check_out r = elim r.checked_out [
  | some owner ↦ (err already_checked_out, r)
  | none ↦ (
    ok r.handles,
    record r {
      temporary = some (record { id = none; payload = some [] });
      checked_out = some r.handles;
      handles = suc r.handles;
    },
  )
]

-- The bytes written through `getFd`.
unfoldable pub write_payload : List ℕ → Repository → Repository
write_payload bytes r = record r {
  temporary = elim r.temporary [
    | none ↦ none
    | some dir ↦ some (record { id = dir.id; payload = some bytes })
  ];
}

abbrev pub is_empty : Option NodeDir → Bool
is_empty none = true
is_empty (some dir) = not (is_some dir.id) && not (is_some dir.payload)

-- `diffmonger::rename`: the target may be an empty directory. The error is the one that the handler
-- of the commit makes of it, as the target exists.
unfoldable pub rename_temporary : NodeDir → ℕ → Op Unit
rename_temporary dir node r =
    if is_empty (r.snapshots node)
    then (ok tt, record r { snapshots = update r.snapshots node (some dir); temporary = none })
    else (err node_exists, record r { temporary = some dir })

-- `TemporarySnapshot::commit`: the file `id` is written first.
unfoldable pub commit_temporary : Encoded → Op Unit
unfolding rename_temporary
commit_temporary e r = elim r.temporary [
  | none ↦ (err no_such_file, r)
  | some dir ↦
      rename_temporary (record { id = some (Encoded.serialise e); payload = dir.payload }) e.node r
]

-- `RepositoryStructure::commit`
abbrev pub owns : ℕ → Option ℕ → Bool
owns owner none = false
owns owner (some checked_out) = checked_out == owner

abbrev pub record_commit : Encoded → Unit {0} → Op Unit
record_commit e u r = elim (Node.next e.node) [
  | err x ↦ (err x, r)
  | ok next ↦ (
    ok tt,
    write_breadcrumb
        (record { untrusted_begin = next; last_trusted_node_authorised_at = e.timestamp }) r,
  )
]

unfoldable pub commit : ℕ → Encoded → Op Unit
unfolding commit_temporary
commit owner e r =
    if owns owner r.checked_out
    then continue (commit_temporary e (record r { checked_out = none })) (record_commit e)
    else (err owner_mismatch, r)

-- `store_snapshot` of src/Controller.cpp, given the parent, of which it matters here that there is
-- one, and the bytes that the backend, or the encryption of what it wrote, sends to the payload's
-- descriptor. The backend does not throw.
unfoldable pub store_snapshot : Option ℕ → List ℕ → Encoded → Op Unit
unfolding check_out write_payload commit
store_snapshot parent bytes e r = continue (check_out r) (λ owner r'.
    if e.node == 0 || is_some parent
    then commit owner e (write_payload bytes r')
    else (err bug, r'))

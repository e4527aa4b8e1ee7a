-- ===== src/Repository/Commit/Laws.antt =====
-- What the commit of a temporary snapshot leaves in the repository.
use diffmonger.Base.{
  ℕ, suc, ◌+◌, ◌-◌, ◌++◌, ◌∷◌, ◌^◌, ◌<◌, ◌≡◌, refl, sym, ap, ◌∙◌, true, false, Option, none, some,
  List, [], ◌==◌, ◌||◌, arith,
}
use diffmonger.Error.{ok, err, node_exists}
use diffmonger.Node
use diffmonger.Encoded
use diffmonger.Encoded.{Encoded, Breadcrumb}
use diffmonger.Encoded.Laws.{ReadsFile, FitsEncoded, deserialise-serialise}
use diffmonger.Repository.{
  Repository, NodeDir, update, check_encoded, id_file, try_get_encoded, write_breadcrumb, exists,
  is_some,
}
use diffmonger.Repository.Commit.{
  check_out, write_payload, commit, commit_temporary, rename_temporary, is_empty, record_commit,
  store_snapshot,
}

-- `e` was committed with the payload `bytes`: `s` has it besides the nodes `before`.
pub record IsCommitted (e : Encoded) (bytes : Option (List ℕ)) (before : ℕ → Option NodeDir)
    (s : Repository) : Type 0 where
  pub stored :
      s.snapshots e.node ≡ some (record { id = some (Encoded.serialise e); payload = bytes })
  pub readable : try_get_encoded s e.node ≡ ok (some e)
  pub others : (x : ℕ) → ¬ (x ≡ e.node) → s.snapshots x ≡ before x
  pub advanced : s.breadcrumb.untrusted_begin ≡ e.node + 1
  pub authorised : s.breadcrumb.last_trusted_node_authorised_at ≡ e.timestamp
  pub written : s.breadcrumb_file ≡ some (Encoded.serialise_breadcrumb s.breadcrumb)
  pub checked_in : s.checked_out ≡ none

committed : Encoded → Option (List ℕ) → Repository → Repository
committed e bytes r = record r {
  snapshots =
      update r.snapshots e.node
        (some (record { id = some (Encoded.serialise e); payload = bytes }));
  temporary = none;
  checked_out = none;
  breadcrumb = record {
    untrusted_begin = e.node + 1;
    last_trusted_node_authorised_at = e.timestamp;
  };
  breadcrumb_file = some (
      Encoded.serialise_breadcrumb
        (record { untrusted_begin = e.node + 1; last_trusted_node_authorised_at = e.timestamp }));
}

record_commit_lem :
    (e : Encoded) (r : Repository)
    → e.node < 2 ^ 64 - 1
    → record_commit e tt r ≡ (
      ok tt,
      write_breadcrumb
          (record { untrusted_begin = e.node + 1; last_trusted_node_authorised_at = e.timestamp })
          r,
    )
unfolding Node.next
record_commit_lem e r small =
    let below : (e.node == 18446744073709551615) ≡ false = ground arith in
    rw (record_commit, below) refl

commit_lem :
    (owner : ℕ) (e : Encoded) (dir : NodeDir) (r : Repository)
    → r.checked_out ≡ some owner
    → r.temporary ≡ some dir
    → is_empty (r.snapshots e.node) ≡ true
    → e.node < 2 ^ 64 - 1
    → commit owner e r ≡ (ok tt, committed e dir.payload r)
unfolding commit commit_temporary rename_temporary committed write_breadcrumb Node.next
commit_lem owner e dir r at temporary free small =
    let own : (owner == owner) ≡ true = ground arith in
    rw (at, own, temporary, free) (record_commit_lem e _ small)

append-nil : (xs : List ℕ) → xs ++ [] ≡ xs
append-nil [] = refl
append-nil (x ∷ xs) = ap (λ ys. x ∷ ys) (append-nil xs)

pub read_back : (e : Encoded) → FitsEncoded e → Encoded.deserialise (Encoded.serialise e) ≡ ok e
read_back e fits =
    ap Encoded.deserialise (sym (append-nil (Encoded.serialise e)))
    ∙ ReadsFile.round_trip (deserialise-serialise e fits) []

pub check_own :
    (e : Encoded) → FitsEncoded e → check_encoded e.node (some (Encoded.serialise e)) ≡ ok (some e)
unfolding check_encoded
check_own e fits =
    let own : (e.node == e.node) ≡ true = ground arith in rw (read_back e fits, own) refl

update_other :
    (snapshots : ℕ → Option NodeDir) (x y : ℕ) (dir : Option NodeDir)
    → ¬ (x ≡ y)
    → update snapshots y dir x ≡ snapshots x
update_other snapshots x y dir apart = ground arith

update_own :
    (snapshots : ℕ → Option NodeDir) (y : ℕ) (dir : Option NodeDir) → update snapshots y dir y ≡ dir
update_own snapshots y dir = ground arith

committed-IsCommitted :
    (e : Encoded) (bytes : Option (List ℕ)) (r : Repository)
    → FitsEncoded e
    → IsCommitted e bytes r.snapshots (committed e bytes r)
unfolding committed try_get_encoded
committed-IsCommitted e bytes r fits =
    let dir : NodeDir = record { id = some (Encoded.serialise e); payload = bytes } in
    let own = update_own r.snapshots e.node (some dir) in
    record {
      stored = own;
      readable = ap (λ d. check_encoded e.node (id_file d)) own ∙ check_own e fits;
      others = λ x apart. update_other r.snapshots x e.node (some dir) apart;
      advanced = refl;
      authorised = refl;
      written = refl;
      checked_in = refl;
    }

missing_empty : (dir : Option NodeDir) → is_some dir ≡ false → is_empty dir ≡ true
missing_empty none h = refl
missing_empty (some dir) h = cc

-- If the node is the first or a parent is given, no snapshot is checked out, the node is not there and is not the last word, and the id's fields
-- fit 64 bits, then `store_snapshot` returns; the node's directory has the payload and the id, which
-- is read back; the other nodes are as before, the breadcrumb is written and is the next node with
-- the id's time, and nothing is checked out.
pub store_snapshot-IsCommitted :
    (parent : Option ℕ) (bytes : List ℕ) (e : Encoded) (r : Repository)
    → (e.node == 0 || is_some parent) ≡ true
    → r.checked_out ≡ none
    → exists r e.node ≡ false
    → e.node < 2 ^ 64 - 1
    → FitsEncoded e
    → ((store_snapshot parent bytes e r).0 ≡ ok tt)
      × IsCommitted e (some bytes) r.snapshots (store_snapshot parent bytes e r).1
unfolding store_snapshot check_out write_payload exists
store_snapshot-IsCommitted parent bytes e r given idle free small fits =
    let opened : Repository = record r {
      temporary = some (record { id = none; payload = some bytes });
      checked_out = some r.handles;
      handles = suc r.handles;
    } in
    let run =
      commit_lem r.handles e (record { id = none; payload = some bytes }) opened refl refl
        (missing_empty (r.snapshots e.node) free) small in
    rw (idle, given, run) (refl, committed-IsCommitted e (some bytes) opened fits)

-- If the node is the first or a parent is given, no snapshot is checked out, and the node's directory is there and is not empty, then
-- `store_snapshot` throws, and no node's directory and not the breadcrumb is changed.
pub store_snapshot-refused :
    (parent : Option ℕ) (bytes : List ℕ) (e : Encoded) (r : Repository)
    → (e.node == 0 || is_some parent) ≡ true
    → r.checked_out ≡ none
    → is_empty (r.snapshots e.node) ≡ false
    → ((store_snapshot parent bytes e r).0 ≡ err node_exists)
      × ((store_snapshot parent bytes e r).1.snapshots ≡ r.snapshots)
      × ((store_snapshot parent bytes e r).1.breadcrumb ≡ r.breadcrumb)
      × ((store_snapshot parent bytes e r).1.breadcrumb_file ≡ r.breadcrumb_file)
unfolding store_snapshot check_out write_payload commit commit_temporary rename_temporary
store_snapshot-refused parent bytes e r given idle taken =
    let own : (r.handles == r.handles) ≡ true = ground arith in
    rw (idle, given, own, taken) (refl, refl, refl, refl)

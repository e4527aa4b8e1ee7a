-- ===== src/Export/Laws.antt =====
-- src/Controller.cpp, `export_repository` and `snapshot_import`: the order in which snapshots are
-- exported, and what an import stores or refuses.
use diffmonger.Base.{
  zero_or_pos, ℕ, ◌^◌, ◌<◌, ◌≡◌, inl, inr, refl, ap, ◌∙◌, ◌==◌, Bool, true, false, Option, none,
  some, List, arith,
}
use diffmonger.Base.Int.{ℤ}
use diffmonger.Error.{Result, ok, err, import_exists}
use diffmonger.Node
use diffmonger.Uuid.{Uuid}
use diffmonger.Tree.{fenwick_parent}
use diffmonger.Encoded
use diffmonger.Encoded.{Encoded}
use diffmonger.Encoded.Laws.{FitsEncoded}
use diffmonger.Repository.{Repository, exists}
use diffmonger.Repository.Commit.Laws.{IsCommitted, read_back}
use diffmonger.Zfs.Commands.{Run}
use diffmonger.ZfsDriver.{resume}
use diffmonger.Backend.{Backend}
use diffmonger.Snapshot.Source.{Same, IsSource, IsHeld}
use diffmonger.Snapshot.Parent.{HasParent, is_first, is_later}
use diffmonger.Snapshot.Laws.{store-IsCommitted}
use diffmonger.Export.{new_or_adopted, import_parent, import_new, snapshot_import}

module _ {W : Type 0} (backend : Backend W) (Has : W → ℕ → Type 0)
    (Names : backend.SnapshotId → ℕ → Type 0) (Stream Good : ℕ → List ℕ → Type 0)
    (law : IsSource backend Has Names Stream) where
  import_parent_lem :
      (r : Repository) (w : W) (node : ℕ)
      → (0 < node → IsHeld backend Has Names Good r w (fenwick_parent node))
      → (parent : Option backend.SnapshotId) × (import_parent backend r node ≡ ok parent)
        × HasParent backend Has Names Stream Good law w node parent
  unfolding import_parent Node.fenwick_maybe_parent Node.is_root
  import_parent_lem r w node held = elim (zero_or_pos node) [
    | inl root ↦
        let is_root : (node == 0) ≡ true = ground arith in
        (none, rw (import_parent, is_root) refl, is_first root)
    | inr pos ↦
        let not_root : (node == 0) ≡ false = ground arith in
        let h = held pos in
        (some h.id, rw (import_parent, not_root, h.read_id) refl, is_later h.id pos h.names h.has)
  ]

  module _ (encrypted : List ℕ → Result (List ℕ))
      (seals : (node : ℕ) (bytes : List ℕ)
        → Stream node bytes
        → (payload : List ℕ) × (encrypted bytes ≡ ok payload) × Good node payload) where
    -- If the backend is as `IsSource` says and streams are encrypted to good payloads, the
    -- snapshot of an id is in the backend and its node, which is below 2 ^ 63, is not in the
    -- repository, nothing is checked out, and the node's parent is held, then the import of the
    -- serialised id, without a new snapshot, returns, the node is committed with that id and a
    -- good payload, and the backend has the snapshots that it had.
    pub snapshot_import-IsCommitted :
        (uuid : Uuid) (now : ℤ) (id : backend.SnapshotId) (node : ℕ) (r : Repository) (w : W)
        → node < 2 ^ 63
        → Names id node
        → Has w node
        → r.checked_out ≡ none
        → exists r node ≡ false
        → (0 < node → IsHeld backend Has Names Good r w (fenwick_parent node))
        → (payload : List ℕ) × (s : Repository) × (w' : W) × (snapshot_import backend encrypted
              false uuid now
              (Encoded.serialise (backend.encoded id))
              (r, w)
            ≡ (ok tt, (s, w')))
          × IsCommitted (backend.encoded id) (some payload) r.snapshots s
          × Good node payload
          × Same Has w w'
    unfolding snapshot_import import_new new_or_adopted
    snapshot_import-IsCommitted uuid now id node r w small names has idle free held =
        let e = backend.encoded id in
        let (same, fits, read) = law.identifies id node names (omega (arith, small)) in
        let (parent, found, from) = import_parent_lem r w node held in
        let (payload, s, w', stored, committed, good, kept) =
          store-IsCommitted backend Has Names Stream Good law encrypted seals id parent node r w
            small idle free names has from in
        (
          payload,
          s,
          w',
          rw
              (
                snapshot_import,
                read_back e fits,
                resume,
                import_new,
                new_or_adopted,
                ap (exists r) same ∙ free,
                read,
                ap (import_parent backend r) same ∙ found,
              )
              stored,
          committed,
          good,
          kept,
        )

-- The import of an id that can be read, of a node that is in the repository, throws, whether or not
-- a snapshot is to be made, and changes neither the repository nor the backend.
pub snapshot_import-refused :
    {W : Type 0}
    → (backend : Backend W) (encrypted : List ℕ → Result (List ℕ)) (create : Bool) (uuid : Uuid)
    → (now : ℤ) (e : Encoded) (r : Repository) (w : W) → FitsEncoded e
    → exists r e.node ≡ true
    → snapshot_import backend encrypted create uuid now (Encoded.serialise e) (r, w)
      ≡ (err import_exists, (r, w))
unfolding snapshot_import
snapshot_import-refused backend encrypted create uuid now e r w fits there =
    rw (snapshot_import, read_back e fits, resume, there) refl

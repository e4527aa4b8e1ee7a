-- ===== src/Snapshot/Parent.antt =====
-- src/Controller.cpp, `_snapshot`: the parent of the snapshot and the stream that is written, on a
-- repository and a backend that are in order.
use diffmonger.Base.{
  zero_or_pos, sym, List, ℕ, zero, suc, ◌^◌, ◌<◌, ◌≡◌, ◌||◌, ◌==◌, inl, inr, refl, subst, ◌∙◌,
  Option, none, some, true, false, List, Elem, arith,
}
use diffmonger.Error.{ok}
use diffmonger.Node
use diffmonger.Tree.{fenwick_parent, alive_after}
use diffmonger.Tree.Lsb.{lsb-pos, lsb-le, fenwick_parent_lem}
use diffmonger.Tree.Evolution.{alive_after_iff, alive_after-suc, parent-alive_after}
use diffmonger.Repository.{Repository, exists, is_some, try_get_encoded, get_encoded}
use diffmonger.Controller.Steps.{IsKept}
use diffmonger.Backend.{Backend, node_to_snapshot_id}
use diffmonger.Restore.Backend.{Keeps}
use diffmonger.Restore.Run.{read_payload}
use diffmonger.Snapshot.{parent_snapshot_id, store_snapshot_or_diff}
use diffmonger.Snapshot.Source.{Same, IsSource, IsHeld}

pub parent-there :
    (p : Repository) (node : ℕ)
    → node < 2 ^ 63
    → 0 < node
    → p.breadcrumb.untrusted_begin ≡ node
    → IsKept p
    → exists p (fenwick_parent node) ≡ true
unfolding IsKept
parent-there p zero small pos at kept = absurd (omega (arith, pos))
parent-there p (suc n) small pos at kept =
    let newest : Elem (suc n) (alive_after (suc n)).nodes =
      (alive_after_iff (suc n) (suc n) small).1
        (omega arith, inr (omega (arith, lsb-pos (suc n)))) in
    let alive = parent-alive_after (suc n) (suc n) small newest in
    elim ((alive_after-suc n (fenwick_parent (suc n)) small).0 alive) [
      | inl same ↦ absurd (
          omega (
            arith,
            same,
            fenwick_parent_lem (suc n) (omega (arith, small)),
            lsb-pos (suc n),
            lsb-le (suc n),
          ))
      | inr (old, survives) ↦ kept n (fenwick_parent (suc n)) at old survives
    ]

pub read-same :
    {W : Type 0}
    → (backend : Backend W) (r s : Repository) (x : ℕ) → s.snapshots x ≡ r.snapshots x
    → node_to_snapshot_id backend s x ≡ node_to_snapshot_id backend r x
unfolding node_to_snapshot_id get_encoded try_get_encoded
read-same backend r s x same = rw same refl

payload-same :
    (r s : Repository) (x : ℕ) → s.snapshots x ≡ r.snapshots x → read_payload s x ≡ read_payload r x
unfolding read_payload
payload-same r s x same = rw same refl

pub exists-same :
    (r s : Repository) (x : ℕ) → s.snapshots x ≡ r.snapshots x → exists s x ≡ exists r x
unfolding exists
exists-same r s x same = rw same refl

pub missing : (r : Repository) (x : ℕ) → r.snapshots x ≡ none → exists r x ≡ false
unfolding exists
missing r x gone = rw gone refl

module _ {W : Type 0} (backend : Backend W) (Has : W → ℕ → Type 0)
    (Names : backend.SnapshotId → ℕ → Type 0) (Stream Good : ℕ → List ℕ → Type 0)
    (law : IsSource backend Has Names Stream) where
  -- What `_snapshot` has for a parent.
  pub data HasParent (w : W) (node : ℕ) : Option backend.SnapshotId → Type 0 where
    is_first : node ≡ 0 → HasParent w node none
    is_later :
        (id : backend.SnapshotId)
        → 0 < node
        → Names id (fenwick_parent node)
        → Has w (fenwick_parent node)
        → HasParent w node (some id)

  pub still-HasParent :
      (w w' : W) (node : ℕ) (parent : Option backend.SnapshotId)
      → Keeps Has w w'
      → HasParent w node parent
      → HasParent w' node parent
  still-HasParent w w' node _ keeps (is_first root) = is_first root
  still-HasParent w w' node _ keeps (is_later id pos names has) =
      is_later id pos names (keeps (fenwick_parent node) has)

  pub still-IsHeld :
      (r s : Repository) (w w' : W) (x : ℕ)
      → s.snapshots x ≡ r.snapshots x
      → Keeps Has w w'
      → IsHeld backend Has Names Good r w x
      → IsHeld backend Has Names Good s w' x
  still-IsHeld r s w w' x same keeps h = record {
    id = h.id;
    read_id = read-same backend r s x same ∙ h.read_id;
    names = h.names;
    has = keeps x h.has;
    payload = h.payload;
    read_bytes = payload-same r s x same ∙ h.read_bytes;
    good = h.good;
  }

  pub parent_snapshot_id_lem :
      (p : Repository) (w : W) (node : ℕ)
      → (0 < node → IsHeld backend Has Names Good p w (fenwick_parent node))
      → (parent : Option backend.SnapshotId) × (w' : W) × (parent_snapshot_id backend node (p, w)
          ≡ (ok parent, (p, w')))
        × HasParent w' node parent
        × Same Has w w'
  unfolding parent_snapshot_id Node.fenwick_maybe_parent Node.is_root
  parent_snapshot_id_lem p w node held = elim (zero_or_pos node) [
    | inl root ↦
        let is_root : (node == 0) ≡ true = ground arith in
        (none, w, rw (parent_snapshot_id, is_root) refl, is_first root, (λ x h. h, λ x h. h))
    | inr pos ↦
        let not_root : (node == 0) ≡ false = ground arith in
        let h = held pos in
        let (w', found, keeps) = law.finds h.id (fenwick_parent node) w h.names h.has in
        (
          some h.id,
          w',
          rw (parent_snapshot_id, not_root, h.read_id, found) refl,
          is_later h.id pos h.names (keeps.0 (fenwick_parent node) h.has),
          keeps,
        )
  ]

  unfoldable pub is_given : {A : Type 0} → Option A → Option ℕ
  is_given none = none
  is_given (some a) = some 0

  pub store_snapshot_or_diff-Stream :
      (id : backend.SnapshotId) (node : ℕ) (w : W) (parent : Option backend.SnapshotId)
      → node < 2 ^ 64
      → Names id node
      → Has w node
      → HasParent w node parent
      → (bytes : List ℕ) × (w' : W) × (store_snapshot_or_diff backend id parent w ≡ (ok bytes, w'))
        × (((backend.encoded id).node == 0 || is_some (is_given parent)) ≡ true)
        × Stream node bytes
        × Same Has w w'
  unfolding store_snapshot_or_diff is_given
  store_snapshot_or_diff-Stream id node w _ small names has (is_first root) =
      let same = (law.identifies id node names small).0 in
      let is_root : ((backend.encoded id).node == 0) ≡ true = ground arith in
      let (bytes, w', wrote, stream, keeps) =
        law.writes_initial id w (subst (Names id) root names) (subst (Has w) root has) in
      (
        bytes,
        w',
        rw (store_snapshot_or_diff, is_root) wrote,
        rw is_root refl,
        subst (λ (n : ℕ). Stream n bytes) (sym root) stream,
        keeps,
      )
  store_snapshot_or_diff-Stream id node w _ small names has
        (is_later from pos parent_names parent_has) =
      let same = (law.identifies id node names small).0 in
      let not_root : ((backend.encoded id).node == 0) ≡ false = ground arith in
      let (bytes, w', wrote, stream, keeps) =
        law.writes_diff from id node w pos parent_names names parent_has has in
      (bytes, w', rw (store_snapshot_or_diff, not_root) wrote, rw not_root refl, stream, keeps)

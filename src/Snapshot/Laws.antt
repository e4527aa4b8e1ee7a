-- ===== src/Snapshot/Laws.antt =====
-- src/Controller.cpp, `_snapshot` and `snapshot`, on a repository and a backend that are in order.
use diffmonger.Base.{
  same_or_apart, ℕ, ◌^◌, ◌≤◌, ◌<◌, ◌≡◌, inl, inr, refl, sym, subst, ap, ◌∙◌, Option, none, some,
  true, false, List, arith,
}
use diffmonger.Error.{Result, ok}
use diffmonger.Encoded.{Encoded}
use diffmonger.Repository.{Repository, exists, get_encoded}
use diffmonger.Repository.Commit.{store_snapshot}
use diffmonger.Repository.Commit.Laws.{IsCommitted, store_snapshot-IsCommitted}
use diffmonger.Controller.Steps.{IsKept, all_alive}
use diffmonger.Backend.{Backend, node_to_snapshot_id}
use diffmonger.Restore.Backend.{Keeps}
use diffmonger.Restore.Run.{read_payload}
use diffmonger.Snapshot.{store}
use diffmonger.Snapshot.Source.{Same, IsSource, IsHeld, IsSound}
use diffmonger.Snapshot.Store.{IsLess, store-store_snapshot}
use diffmonger.Snapshot.Parent.{
  exists-same, missing, HasParent, still-IsHeld, is_given, store_snapshot_or_diff-Stream,
}

module _ (e : Encoded) (bytes : Option (List ℕ)) (p s : Repository)
    (c : IsCommitted e bytes p.snapshots s) where
  pub committed-exists : exists s e.node ≡ true
  unfolding exists
  committed-exists = rw c.stored refl

  grown-exists : (x : ℕ) → exists p x ≡ true → exists s x ≡ true
  grown-exists x there = elim (same_or_apart x e.node) [
    | inl same ↦ subst (λ n. exists s n ≡ true) (sym same) committed-exists
    | inr apart ↦ exists-same p s x (c.others x apart) ∙ there
  ]

  -- A commit at the breadcrumb keeps what is to be kept.
  committed-IsKept : p.breadcrumb.untrusted_begin ≡ e.node → e.node < 2 ^ 63 → IsKept p → IsKept s
  unfolding IsKept exists
  committed-IsKept at small kept n x next alive survives =
      let here : e.node ≡ n = omega (arith, next, c.advanced) in
      let between : Repository = record s { breadcrumb = p.breadcrumb } in
      let still : IsKept between =
        λ m y before old lives. grown-exists y (kept m y before old lives) in
      all_alive between n x (omega (arith, here, small)) still (at ∙ here)
        (subst (λ k. exists s k ≡ true) here committed-exists) alive

  committed-fresh :
      p.breadcrumb.untrusted_begin ≡ e.node
      → ((x : ℕ) → p.breadcrumb.untrusted_begin ≤ x → p.snapshots x ≡ none)
      → (x : ℕ) → s.breadcrumb.untrusted_begin ≤ x
      → s.snapshots x ≡ none
  committed-fresh at fresh x above =
      c.others x (λ same. omega (arith, same, above, c.advanced))
      ∙ fresh x (omega (arith, at, above, c.advanced))

pub less-fresh :
    (r p : Repository)
    → IsLess r p
    → ((x : ℕ) → r.breadcrumb.untrusted_begin ≤ x → r.snapshots x ≡ none)
    → (x : ℕ) → r.breadcrumb.untrusted_begin ≤ x
    → p.snapshots x ≡ none
less-fresh r p less fresh x above = elim (less.nodes x) [
  | inl same ↦ same ∙ fresh x above
  | inr gone ↦ gone
]

module _ {W : Type 0} (backend : Backend W) (Has : W → ℕ → Type 0)
    (Names : backend.SnapshotId → ℕ → Type 0) (Stream Good : ℕ → List ℕ → Type 0)
    (law : IsSource backend Has Names Stream) where
  pub less-IsHeld :
      (r p : Repository) (w : W)
      → IsLess r p
      → ((x : ℕ) → exists r x ≡ true → IsHeld backend Has Names Good r w x)
      → (x : ℕ) → exists p x ≡ true
      → IsHeld backend Has Names Good p w x
  less-IsHeld r p w less held x there = elim (less.nodes x) [
    | inl same ↦
        still-IsHeld backend Has Names Stream Good law r p w w x same (λ y h. h)
          (held x (sym (exists-same r p x same) ∙ there))
    | inr gone ↦ let nothing = missing p x gone in cc
  ]

  -- What is held once a snapshot is committed.
  committed-IsHeld :
      (id : backend.SnapshotId) (payload : List ℕ) (p s : Repository) (w w' : W)
      → IsCommitted (backend.encoded id) (some payload) p.snapshots s
      → Names id (backend.encoded id).node
      → (backend.encoded id).node < 2 ^ 64
      → Has w' (backend.encoded id).node
      → Good (backend.encoded id).node payload
      → Keeps Has w w'
      → ((x : ℕ) → exists p x ≡ true → IsHeld backend Has Names Good p w x)
      → (x : ℕ) → exists s x ≡ true
      → IsHeld backend Has Names Good s w' x
  unfolding node_to_snapshot_id get_encoded read_payload
  committed-IsHeld id payload p s w w' c names small has good keeps held x there =
      let node = (backend.encoded id).node in
      let own : IsHeld backend Has Names Good s w' node = record {
        id = id;
        read_id = rw c.readable (law.identifies id node names small).2;
        names = names;
        has = has;
        payload = payload;
        read_bytes = rw c.stored refl;
        good = good;
      } in
      elim (same_or_apart x node) [
        | inl same ↦ subst (IsHeld backend Has Names Good s w') (sym same) own
        | inr apart ↦
            let before = c.others x apart in
            still-IsHeld backend Has Names Stream Good law p s w w' x before keeps
              (held x (sym (exists-same p s x before) ∙ there))
      ]

  pub committed-IsSound :
      (id : backend.SnapshotId) (payload : List ℕ) (p s : Repository) (w w' : W)
      → IsCommitted (backend.encoded id) (some payload) p.snapshots s
      → Names id (backend.encoded id).node
      → (backend.encoded id).node < 2 ^ 63
      → Has w' (backend.encoded id).node
      → Good (backend.encoded id).node payload
      → Keeps Has w w'
      → p.breadcrumb.untrusted_begin ≡ (backend.encoded id).node
      → ((x : ℕ) → p.breadcrumb.untrusted_begin ≤ x → p.snapshots x ≡ none)
      → IsKept p
      → ((x : ℕ) → exists p x ≡ true → IsHeld backend Has Names Good p w x)
      → IsSound backend Has Names Good s w'
  committed-IsSound id payload p s w w' c names small has good keeps at fresh kept held =
      let e = backend.encoded id in
      record {
        idle = c.checked_in;
        fresh = committed-fresh e (some payload) p s c at fresh;
        kept = committed-IsKept e (some payload) p s c at small kept;
        held =
            committed-IsHeld id payload p s w w' c names (omega (arith, small)) has good keeps held;
      }

  module _ (encrypted : List ℕ → Result (List ℕ))
      (seals : (node : ℕ) (bytes : List ℕ)
        → Stream node bytes
        → (payload : List ℕ) × (encrypted bytes ≡ ok payload) × Good node payload) where
    pub store-IsCommitted :
        (id : backend.SnapshotId) (parent : Option backend.SnapshotId) (node : ℕ) (p : Repository)
        → (w : W) → node < 2 ^ 63
        → p.checked_out ≡ none
        → exists p node ≡ false
        → Names id node
        → Has w node
        → HasParent backend Has Names Stream Good law w node parent
        → (payload : List ℕ) × (s : Repository) × (w' : W) × (store backend encrypted id parent
              (p, w)
            ≡ (ok tt, (s, w')))
          × IsCommitted (backend.encoded id) (some payload) p.snapshots s
          × Good node payload
          × Same Has w w'
    store-IsCommitted id parent node p w small idle free names has from =
        let e = backend.encoded id in
        let (same, fits, read) = law.identifies id node names (omega (arith, small)) in
        let (bytes, w', wrote, given, stream, keeps) =
          store_snapshot_or_diff-Stream backend Has Names Stream Good law id node w parent
            (omega (arith, small)) names has from in
        let (payload, sealed, good) = seals node bytes stream in
        let flag = is_given backend Has Names Stream Good law parent in
        let (returns, committed) =
          store_snapshot-IsCommitted flag payload e p given idle
            (subst (λ n. exists p n ≡ false) (sym same) free) (omega (arith, same, small)) fits in
        (
          payload,
          (store_snapshot flag payload e p).1,
          w',
          store-store_snapshot backend encrypted id parent flag bytes payload p w w' idle wrote
                sealed given
              ∙ ap (λ a. (a, ((store_snapshot flag payload e p).1, w'))) returns,
          committed,
          good,
          keeps,
        )

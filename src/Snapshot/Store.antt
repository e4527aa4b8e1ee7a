-- ===== src/Snapshot/Store.antt =====
-- src/Controller.cpp, `store_snapshot` with the backend and the encryption, and what the pruning of
-- the repository leaves.
use diffmonger.Base.{
  Option-cases, ℕ, ◌^◌, ◌<◌, ◌≡◌, ◌⊎◌, ◌||◌, ◌==◌, inl, inr, refl, ap, ◌∙◌, Option, none, true,
  List, [], ◌∷◌, arith,
}
use diffmonger.Error.{Result, ok}
use diffmonger.Tree
use diffmonger.Repository.{Repository, delete_node, is_some, get_latest_trusted_node}
use diffmonger.Repository.Exec.{for_each}
use diffmonger.Repository.Commit.{check_out, store_snapshot}
use diffmonger.Controller
use diffmonger.Controller.Steps.{IsKept}
use diffmonger.Controller.Latest.{prune-IsKept}
use diffmonger.Backend.{Backend}
use diffmonger.Snapshot.{prune_first, store_snapshot_or_diff, store}
use diffmonger.Snapshot.Pruning.{prune_first-prune}

-- `p` is `r` without some of its nodes.
pub record IsLess (r p : Repository) : Type 0 where
  pub nodes : (x : ℕ) → (p.snapshots x ≡ r.snapshots x) ⊎ (p.snapshots x ≡ none)
  pub breadcrumb : p.breadcrumb ≡ r.breadcrumb
  pub checked_out : p.checked_out ≡ r.checked_out

deleted :
    (node : ℕ) (r : Repository) (x : ℕ)
    → ((delete_node node r).snapshots x ≡ r.snapshots x) ⊎ ((delete_node node r).snapshots x ≡ none)
unfolding delete_node
deleted node r x = ground arith

for_each-IsLess : (xs : List ℕ) (r : Repository) → IsLess r (for_each delete_node xs r)
unfolding delete_node
for_each-IsLess [] r = record { nodes = λ x. inl refl; breadcrumb = refl; checked_out = refl }
for_each-IsLess (y ∷ ys) r =
    let rest = for_each-IsLess ys (delete_node y r) in
    record {
      nodes = λ x. elim (rest.nodes x) [
        | inr gone ↦ inr gone
        | inl same ↦ elim (deleted y r x) [
          | inl kept ↦ inl (same ∙ kept)
          | inr gone ↦ inr (same ∙ gone)
        ]
      ];
      breadcrumb = rest.breadcrumb;
      checked_out = rest.checked_out;
    }

prune-IsLess : (r : Repository) → IsLess r (Controller.prune delete_node r).1
unfolding Controller.prune
prune-IsLess r = elim (Option-cases (get_latest_trusted_node r)) [
  | inl none_yet ↦ rw (Controller.prune, none_yet) (for_each-IsLess [] r)
  | inr (node, latest) ↦ rw (Controller.prune, latest) (for_each-IsLess (Tree.prune node).nodes r)
]

-- The pruning ends, and leaves a repository that has what it is to have.
pub prune_first_lem :
    {W : Type 0}
    → (backend : Backend W) (r : Repository) (w : W) → r.breadcrumb.untrusted_begin < 2 ^ 63
    → IsKept r
    → (p : Repository) × (prune_first backend (r, w) ≡ (ok tt, (p, w))) × IsLess r p × IsKept p
prune_first_lem backend r w small kept =
    let (returns, still) = prune-IsKept r small kept in
    (
      (Controller.prune delete_node r).1,
      prune_first-prune backend r w
          ∙ ap (λ a. (a, ((Controller.prune delete_node r).1, w))) returns,
      prune-IsLess r,
      still,
    )

-- `store` comes to `store_snapshot` of what the backend wrote and the encryption made of it.
pub store-store_snapshot :
    {W : Type 0}
    → (backend : Backend W) (encrypted : List ℕ → Result (List ℕ)) (id : backend.SnapshotId)
    → (from : Option backend.SnapshotId) (parent : Option ℕ) (bytes payload : List ℕ)
    → (r : Repository) (w w' : W) → r.checked_out ≡ none
    → store_snapshot_or_diff backend id from w ≡ (ok bytes, w')
    → encrypted bytes ≡ ok payload
    → ((backend.encoded id).node == 0 || is_some parent) ≡ true
    → store backend encrypted id from (r, w) ≡ (
      (store_snapshot parent payload (backend.encoded id) r).0,
      ((store_snapshot parent payload (backend.encoded id) r).1, w'),
    )
unfolding store store_snapshot check_out
store-store_snapshot backend encrypted id from parent bytes payload r w w' idle wrote sealed given =
    rw (store, store_snapshot, idle, wrote, sealed, given) refl

-- ===== src/Snapshot/Rounds.antt =====
-- src/Controller.cpp, `_snapshot` and the loop of `snapshot`, on a repository and a backend that are
-- in order.
use diffmonger.Base.{
  ℕ, suc, ◌^◌, ◌≤◌, ◌<◌, ◌≡◌, inl, inr, refl, sym, subst, ap, ◌∙◌, none, some, true, List, arith,
}
use diffmonger.Base.Int.{ℤ, InInt64}
use diffmonger.Error.{Result, ok}
use diffmonger.Tree.{fenwick_parent}
use diffmonger.Encoded.{Breadcrumb}
use diffmonger.Repository.{Repository, exists, try_get_encoded, check_encoded}
use diffmonger.Repository.Next.{get_next_snapshot_node-stuck}
use diffmonger.Backend.{Backend}
use diffmonger.Snapshot.{snapshot_once, snapshot}
use diffmonger.Snapshot.Source.{IsSource, IsSound, IsTaken}
use diffmonger.Snapshot.Store.{prune_first_lem}
use diffmonger.Snapshot.Parent.{parent-there, missing, still-HasParent, parent_snapshot_id_lem}
use diffmonger.Snapshot.Laws.{
  committed-exists, committed-IsSound, less-fresh, less-IsHeld, store-IsCommitted,
}

pub fresh_unread : (r : Repository) (n : ℕ) → r.snapshots n ≡ none → try_get_encoded r n ≡ ok none
unfolding try_get_encoded check_encoded
fresh_unread r n gone = rw gone refl

module _ {W : Type 0} (backend : Backend W) (Has : W → ℕ → Type 0)
    (Names : backend.SnapshotId → ℕ → Type 0) (Stream Good : ℕ → List ℕ → Type 0)
    (law : IsSource backend Has Names Stream) (encrypted : List ℕ → Result (List ℕ))
    (seals : (node : ℕ) (bytes : List ℕ)
      → Stream node bytes
      → (payload : List ℕ) × (encrypted bytes ≡ ok payload) × Good node payload) where
  -- If the backend is as `IsSource` says, streams are encrypted to good payloads, the repository
  -- and the backend are in order, the breadcrumb's node is below 2 ^ 63, the backend does not have
  -- its snapshot, and the clock's time is of 64 bits, then a round of `snapshot` returns that the
  -- snapshot is new; the repository has the node, its breadcrumb is the next node, and both are in
  -- order again.
  pub snapshot_once-IsTaken :
      (fuel : ℕ) (now : ℤ) (r : Repository) (w : W)
      → r.breadcrumb.untrusted_begin < 2 ^ 63
      → InInt64 now
      → ¬ (Has w r.breadcrumb.untrusted_begin)
      → IsSound backend Has Names Good r w
      → (s : Repository) × (w' : W) × (snapshot_once backend encrypted
            (suc fuel)
            law.uuid
            now
            (r, w)
          ≡ (ok true, (s, w')))
        × IsTaken backend Has Names Good r w s w'
  unfolding snapshot_once
  snapshot_once-IsTaken fuel now r w small timely gap sound =
      let n = r.breadcrumb.untrusted_begin in
      let next =
        (get_next_snapshot_node-stuck r).0 fuel (fresh_unread r n (sound.fresh n (omega arith))) in
      let (p, pruned, less, kept) = prune_first_lem backend r w small sound.kept in
      let at : p.breadcrumb.untrusted_begin ≡ n =
        ap (λ (c : Breadcrumb). c.untrusted_begin) less.breadcrumb in
      let held = less-IsHeld backend Has Names Stream Good law r p w less sound.held in
      let (parent, w1, found, from, same1) =
        parent_snapshot_id_lem backend Has Names Stream Good law p w n
          (λ pos. held (fenwick_parent n) (parent-there p n small pos at kept)) in
      let (id, w2, taken, names, has, keeps, adds) =
        law.takes n now w1 (omega (arith, small)) timely (λ h. gap (same1.1 n h)) in
      let free = less-fresh r p less sound.fresh in
      let from2 = still-HasParent backend Has Names Stream Good law w1 w2 n parent keeps from in
      let (payload, s, w3, stored, committed, good, same3) =
        store-IsCommitted backend Has Names Stream Good law encrypted seals id parent n p w2 small
          (less.checked_out ∙ sound.idle) (missing p n (free n (omega arith))) names has from2 in
      let own : (backend.encoded id).node ≡ n =
        (law.identifies id n names (omega (arith, small))).0 in
      (
        s,
        w3,
        rw (snapshot_once, next, pruned, found, taken, stored) refl,
        record {
          sound =
              committed-IsSound backend Has Names Stream Good law id payload p s w w3 committed
                (subst (Names id) (sym own) names) (omega (arith, own, small))
                (subst (Has w3) (sym own) (same3.0 n has))
                (subst (λ (k : ℕ). Good k payload) (sym own) good)
                (λ x h. same3.0 x (keeps x (same1.0 x h))) (at ∙ sym own)
                (subst (λ k. (x : ℕ) → k ≤ x → p.snapshots x ≡ none) (sym at) free) kept held;
          advanced = omega (arith, committed.advanced, own);
          stored =
              subst (λ k. exists s k ≡ true) own
                (committed-exists (backend.encoded id) (some payload) p s committed);
          only = λ x h. elim (adds x (same3.1 x h)) [
            | inl this ↦ inl this
            | inr before ↦ inr (same1.1 x before)
          ];
        },
      )

  -- If the backend is as `IsSource` says, streams are encrypted to good payloads, the repository
  -- and the backend are in order, the breadcrumb's node is below 2 ^ 63, the backend does not have
  -- its snapshot, and the clock's time is of 64 bits, then `snapshot` returns after one round,
  -- however many more it has; the repository has gained the breadcrumb's node and the backend no
  -- other snapshot, the breadcrumb is the next node, and both are in order again.
  pub snapshot-Returns :
      (rounds fuel : ℕ) (now : ℤ) (r : Repository) (w : W)
      → r.breadcrumb.untrusted_begin < 2 ^ 63
      → InInt64 now
      → ¬ (Has w r.breadcrumb.untrusted_begin)
      → IsSound backend Has Names Good r w
      → (s : Repository) × (w' : W) × (snapshot backend encrypted
            (suc rounds)
            (suc fuel)
            law.uuid
            now
            (r, w)
          ≡ (ok tt, (s, w')))
        × IsTaken backend Has Names Good r w s w'
  unfolding snapshot
  snapshot-Returns rounds fuel now r w small timely gap sound =
      let (s, w', ran, taken) = snapshot_once-IsTaken fuel now r w small timely gap sound in
      (s, w', rw (snapshot, ran) refl, taken)

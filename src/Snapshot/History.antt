-- ===== src/Snapshot/History.antt =====
-- What a repository goes through that was created and is changed by snapshots and prunings alone: the
-- rounds of `snapshot` and `prune_repository` of src/Controller.cpp as a relation of reachability.
use diffmonger.Base.{
  ℕ, suc, ◌^◌, ◌<◌, ◌≡◌, refl, sym, subst, ap, ◌∙◌, Bool, none, true, List, arith,
}
use diffmonger.Base.Int.{ℤ, InInt64}
use diffmonger.Error.{Result, ok}
use diffmonger.Uuid.{Uuid}
use diffmonger.Repository.{Repository, exists, try_get_encoded}
use diffmonger.Repository.Create.Laws.{IsNew}
use diffmonger.Controller.{decide, duration_of, prune_repository}
use diffmonger.Controller.Steps.{IsKept}
use diffmonger.Backend.{Backend}
use diffmonger.Snapshot.{State, snapshot_once}
use diffmonger.Snapshot.Source.{IsSource, IsSound}
use diffmonger.Snapshot.Parent.{missing}
use diffmonger.Snapshot.Rounds.{fresh_unread, snapshot_once-IsTaken}

module _ {W : Type 0} (backend : Backend W) (Has : W → ℕ → Type 0)
    (encrypted : List ℕ → Result (List ℕ)) (uuid : Uuid) where
  -- The states after a new repository, rounds of `snapshot`, at nodes below 2 ^ 63 whose snapshots
  -- the backend does not have, at times of 64 bits, and prunings.
  pub data Reached : State backend → Type 0 where
    created : (r : Repository) (w : W) → IsNew r → Reached (r, w)
    taken :
        (fuel : ℕ) (now : ℤ) (fresh : Bool) (r s : Repository) (w w' : W)
        → r.breadcrumb.untrusted_begin < 2 ^ 63
        → InInt64 now
        → ¬ (Has w r.breadcrumb.untrusted_begin)
        → Reached (r, w)
        → snapshot_once backend encrypted (suc fuel) uuid now (r, w) ≡ (ok fresh, (s, w'))
        → Reached (s, w')
    pruned :
        (fuel seconds : ℕ) (now : ℤ) (r : Repository) (w : W)
        → Reached (r, w)
        → Reached ((prune_repository (suc fuel) seconds now r).1, w)

new-missing : (r : Repository) (x : ℕ) → r.snapshots x ≡ none → exists r x ≡ true → ⊥
new-missing r x gone there = let nothing = missing r x gone in cc

-- With nothing after the breadcrumb there is nothing to trust.
prune_repository-unchanged :
    (fuel seconds : ℕ) (now : ℤ) (r : Repository)
    → try_get_encoded r r.breadcrumb.untrusted_begin ≡ ok none
    → prune_repository (suc fuel) seconds now r ≡ (ok tt, r)
unfolding prune_repository decide
prune_repository-unchanged fuel seconds now r fresh =
    let stop : decide (duration_of seconds) now r ≡ ok none = rw (decide, fresh) refl in
    rw (prune_repository, stop) refl

module _ {W : Type 0} (backend : Backend W) (Has : W → ℕ → Type 0)
    (Names : backend.SnapshotId → ℕ → Type 0) (Stream Good : ℕ → List ℕ → Type 0)
    (law : IsSource backend Has Names Stream) (encrypted : List ℕ → Result (List ℕ))
    (seals : (node : ℕ) (bytes : List ℕ)
      → Stream node bytes
      → (payload : List ℕ) × (encrypted bytes ≡ ok payload) × Good node payload) where
  pub new-IsSound : (r : Repository) (w : W) → IsNew r → IsSound backend Has Names Good r w
  unfolding IsKept
  new-IsSound r w new = record {
    idle = new.idle;
    fresh = λ x above. new.no_nodes x;
    kept = λ n x at alive survives. absurd (omega (arith, at, new.at_root));
    held = λ x there. absurd (new-missing r x (new.no_nodes x) there);
  }

  -- If the backend is as `IsSource` says and streams are encrypted to good payloads, then whatever
  -- a new repository went through of rounds of `snapshot`, at nodes below 2 ^ 63 whose snapshots
  -- the backend does not have and at times of 64 bits, and of prunings, the repository and the backend are in order: whatever node is there can be read, has
  -- its snapshot in the backend and a good payload, and the nodes that are to be there are.
  pub Reached-IsSound :
      (state : State backend)
      → Reached backend Has encrypted law.uuid state
      → IsSound backend Has Names Good state.0 state.1
  Reached-IsSound _ (created r w new) = new-IsSound r w new
  Reached-IsSound _ (taken fuel now fresh r s w w' small timely gap before ran) =
      let sound = Reached-IsSound (r, w) before in
      let (s', w'', ran', after) =
        snapshot_once-IsTaken backend Has Names Stream Good law encrypted seals fuel now r w small
          timely gap sound in
      subst (λ (state : State backend). IsSound backend Has Names Good state.0 state.1)
        (ap (λ x. x.1) (sym ran' ∙ ran)) after.sound
  Reached-IsSound _ (pruned fuel seconds now r w before) =
      let sound = Reached-IsSound (r, w) before in
      let unread =
        fresh_unread r r.breadcrumb.untrusted_begin
          (sound.fresh r.breadcrumb.untrusted_begin (omega arith)) in
      subst (λ s. IsSound backend Has Names Good s w)
        (sym (ap (λ x. x.1) (prune_repository-unchanged fuel seconds now r unread))) sound

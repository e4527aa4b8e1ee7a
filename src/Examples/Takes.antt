-- ===== src/Examples/Takes.antt =====
-- Snapshots taken by src/Controller.cpp in a repository that has the first node, with a backend that
-- keeps the list of the nodes that it has.
use diffmonger.Base.{
  ℕ, zero, suc, ◌≤◌, ◌≡◌, ◌==◌, refl, sym, subst, ap, Bool-cases, true, false, none, some, List, [],
  ◌∷◌, Elem, inl, inr, arith,
}
use diffmonger.Base.Int.{pos}
use diffmonger.Base.Sorted.{contains, contains-Elem, Elem-contains}
use diffmonger.Error.{Result, ok}
use diffmonger.Uuid.{Uuid}
use diffmonger.Encoded
use diffmonger.Encoded.{Encoded}
use diffmonger.Repository.{Repository, update, is_some, exists, get_encoded, try_get_encoded}
use diffmonger.Repository.Commit.Laws.{check_own}
use diffmonger.Tree.Evolution.{alive_after_iff}
use diffmonger.Controller.Steps.{IsKept}
use diffmonger.Backend.{node_to_snapshot_id}
use diffmonger.Snapshot.{snapshot_once, snapshot}
use diffmonger.Snapshot.Source.{IsSource, IsHeld, IsSound, IsTaken}
use diffmonger.Snapshot.Rounds.{snapshot_once-IsTaken, snapshot-Returns}
use diffmonger.Repository.Create.{earliest}
use diffmonger.Repository.Create.Laws.{IsNew}
use diffmonger.Snapshot.History.{Reached, created, taken, new-IsSound, Reached-IsSound}
use diffmonger.Examples.Restores.{
  id_of, Nodes, in_memory, in_memory-IsBackend, Has, Names, Stream, unencrypted, nothing_more,
}
use diffmonger.Snapshot.Restored.{Decrypts, snapshot_once-restore}
use diffmonger.Restore.Run.{read_payload, restore}
use diffmonger.Tree.{fenwick_path_inc_root}

abbrev pub repository_uuid : Uuid
repository_uuid = 0 ∷ 1 ∷ 2 ∷ 3 ∷ 4 ∷ 5 ∷ 6 ∷ 7 ∷ 8 ∷ 9 ∷ 10 ∷ 11 ∷ 12 ∷ 13 ∷ 14 ∷ 15 ∷ []

pub not_contained : (node : ℕ) (w : Nodes) → ¬ (Elem node w) → contains node w ≡ false
not_contained node w gap = elim (Bool-cases (contains node w)) [
  | inl there ↦ absurd (gap (Elem-contains node w there))
  | inr absent ↦ absent
]

abbrev pub in_memory-IsSource : IsSource in_memory Has Names Stream
in_memory-IsSource = record {
  uuid = repository_uuid;
  identifies =
      λ id node same small. (same, (omega arith, omega (arith, same, small), omega arith), refl);
  finds = λ id node w same has. (
    w,
    rw (contains-Elem id w (subst (λ (x : ℕ). Elem x w) (sym same) has)) refl,
    (λ x h. h, λ x h. h),
  );
  takes = λ node now w small timely gap.
      let absent : contains node w ≡ false = not_contained node w gap in
      (node, node ∷ w, rw absent refl, refl, inl refl, λ x h. inr h, λ x h. h);
  writes_initial = λ id w same has. (5 ∷ [], w, refl, refl, (λ x h. h, λ x h. h));
  writes_diff = λ from to node w pos_node same_from same_to has_from has.
      (5 ∷ [], w, refl, refl, (λ x h. h, λ x h. h));
}

abbrev pub one_node : Repository
one_node = record {
  snapshots =
      update (λ k. none) 0
        (some (record { id = some (Encoded.serialise (id_of 0)); payload = some (5 ∷ []) }));
  temporary = none;
  checked_out = none;
  handles = 0;
  breadcrumb = record { untrusted_begin = 1; last_trusted_node_authorised_at = pos 100 };
  breadcrumb_file = none;
}

one_node-fresh : (x : ℕ) → 1 ≤ x → one_node.snapshots x ≡ none
one_node-fresh x above = let apart : (x == 0) ≡ false = ground arith in rw apart refl

pub one_node-IsKept : IsKept one_node
unfolding IsKept exists
one_node-IsKept n x at alive survives =
    let here : n ≡ 0 = omega (arith, at) in
    let (in_range, living) = (alive_after_iff n x (omega (arith, here))).0 alive in
    let first : x ≡ 0 = omega (arith, in_range, here) in
    subst (λ z. exists one_node z ≡ true) (sym first) refl

abbrev pub plain : List ℕ → Result (List ℕ)
plain bytes = ok bytes

abbrev pub one_snapshot : Nodes
one_snapshot = 0 ∷ []

abbrev pub Good : ℕ → List ℕ → Type 0
Good = Decrypts Stream unencrypted

pub sealed :
    (node : ℕ) (bytes : List ℕ)
    → Stream node bytes
    → (payload : List ℕ) × (plain bytes ≡ ok payload) × Good node payload
sealed node bytes stream = (bytes, refl, (stream, refl))

pub one_node-IsHeld :
    (w : Nodes)
    → Elem 0 w
    → (x : ℕ) → exists one_node x ≡ true
    → IsHeld in_memory Has Names Good one_node w x
unfolding exists node_to_snapshot_id get_encoded try_get_encoded read_payload
one_node-IsHeld w first_there zero there = record {
  id = 0;
  read_id = rw (check_own (id_of 0) (omega arith, omega arith, omega arith)) refl;
  names = refl;
  has = first_there;
  payload = 5 ∷ [];
  read_bytes = refl;
  good = (refl, refl);
}
one_node-IsHeld w first_there (suc x) there =
    let gone : is_some (one_node.snapshots (suc x)) ≡ false =
      ap is_some (one_node-fresh (suc x) (omega arith)) in
    cc

one_node-IsSound : IsSound in_memory Has Names Good one_node one_snapshot
one_node-IsSound = record {
  idle = refl;
  fresh = one_node-fresh;
  kept = one_node-IsKept;
  held = one_node-IsHeld one_snapshot (inl refl);
}

second_not_there : ¬ (Elem 1 one_snapshot)
second_not_there (inl e) = omega (arith, e)
second_not_there (inr h) = h

snapshot-Returns_example :
    (s : Repository) × (w' : Nodes) × (snapshot in_memory plain 3 1 repository_uuid
        (pos 7)
        (one_node, one_snapshot)
      ≡ (ok tt, (s, w')))
    × IsTaken in_memory Has Names Good one_node one_snapshot s w'
snapshot-Returns_example =
    snapshot-Returns in_memory Has Names Stream Good in_memory-IsSource plain sealed 2 0 (pos 7)
      one_node one_snapshot (omega arith) (omega arith) second_not_there one_node-IsSound

snapshot_once-restore_example :
    (s : Repository) × (w' : Nodes) × (snapshot_once in_memory plain 1 repository_uuid
        (pos 7)
        (one_node, one_snapshot)
      ≡ (ok true, (s, w')))
    × ((fuel : ℕ) (v : Nodes)
        → (v' : Nodes) × (restore in_memory unencrypted nothing_more true s fuel false 1 v
            ≡ (ok tt, v'))
          × ((x : ℕ) → Elem x (fenwick_path_inc_root 1).nodes → Has v' x))
snapshot_once-restore_example =
    snapshot_once-restore in_memory Has Names Stream plain unencrypted nothing_more true
      in_memory-IsSource in_memory-IsBackend sealed (λ id w. (w, refl, λ x h. h)) 0 (pos 7) one_node
      one_snapshot (omega arith) (omega arith) second_not_there one_node-IsSound

abbrev pub empty : Repository
empty = record one_node {
  snapshots = λ k. none;
  breadcrumb = record { untrusted_begin = 0; last_trusted_node_authorised_at = earliest };
}

pub empty-IsNew : IsNew empty
empty-IsNew = record { no_nodes = λ x. refl; at_root = refl; idle = refl }

-- The first snapshot of a new repository.
abbrev first :
    (s : Repository) × (w' : Nodes) × (snapshot_once in_memory plain 1 repository_uuid
        (pos 7)
        (empty, [])
      ≡ (ok true, (s, w')))
    × IsTaken in_memory Has Names Good empty [] s w'
first =
    snapshot_once-IsTaken in_memory Has Names Stream Good in_memory-IsSource plain sealed 0 (pos 7)
      empty [] (omega arith) (omega arith) (λ h. h)
      (new-IsSound in_memory Has Names Stream Good in_memory-IsSource plain sealed empty []
        empty-IsNew)

first-Reached : Reached in_memory Has plain repository_uuid (first.0, first.1)
first-Reached =
    taken 0 (pos 7) true empty first.0 [] first.1 (omega arith) (omega arith) (λ h. h)
      (created empty [] empty-IsNew) first.2

Reached-IsSound_example : IsSound in_memory Has Names Good first.0 first.1
Reached-IsSound_example =
    Reached-IsSound in_memory Has Names Stream Good in_memory-IsSource plain sealed
      (first.0, first.1) first-Reached

-- ===== src/Examples/Restores.antt =====
-- A restore by src/Controller.cpp from a repository that has every node, to a backend that keeps the
-- list of the nodes that it has. The nodes that are selected by their distance are of that repository.
use diffmonger.Base.{
  ℕ, ◌≤◌, ◌≡◌, ◌↔◌, refl, sym, subst, Bool, Bool-cases, leb, if◌then◌else◌, true, false, none, some,
  List, [], ◌∷◌, Elem, inl, inr, arith,
}
use diffmonger.Base.Int.{pos}
use diffmonger.Base.Sorted.{contains, contains-Elem, Elem-contains}
use diffmonger.Error.{Result, ok, err, snapshot_does_not_exist, command_failed}
use diffmonger.Encoded
use diffmonger.Encoded.{Encoded}
use diffmonger.Tree.{
  lsb, fenwick_loop, fenwick_path_exc_root, then_root, fenwick_path_inc_root, alive_after,
}
use diffmonger.Repository.{Repository, exists, try_get_encoded, check_encoded, get_encoded}
use diffmonger.Repository.Commit.Laws.{check_own}
use diffmonger.Zfs.Commands.{Run}
use diffmonger.Restore.{nodes_to_restore}
use diffmonger.Restore.Laws.{IsSelfContained, nodes_to_restore-needed}
use diffmonger.Restore.Available.{nodes_to_restore-available}
use diffmonger.Backend.{Backend, node_to_snapshot_id}
use diffmonger.Restore.Backend.{IsBackend}
use diffmonger.Restore.Run.{read_payload, restore}
use diffmonger.Restore.Success.{IsRestorable, IsHarmless, restore-Has}

abbrev pub id_of : ℕ → Encoded
id_of node = record { bytes = 1 ∷ []; node = node; timestamp = pos 100 }

abbrev full : Repository
full = record {
  snapshots =
      λ k. some (record { id = some (Encoded.serialise (id_of k)); payload = some (5 ∷ []) });
  temporary = none;
  checked_out = none;
  handles = 0;
  breadcrumb = record { untrusted_begin = 5; last_trusted_node_authorised_at = pos 100 };
  breadcrumb_file = none;
}

-- The directories are there, and no id is.
abbrev without_ids : Repository
without_ids = record full { snapshots = λ k. some (record { id = none; payload = some (5 ∷ []) }) }

abbrev pub Nodes : Type 0
Nodes = List ℕ

-- A receive destroys what is newer than the snapshot that it starts from.
abbrev kept_to : ℕ → Nodes → Nodes
kept_to last [] = []
kept_to last (x ∷ xs) = if leb x last then x ∷ kept_to last xs else kept_to last xs

kept_to-Elem : (last x : ℕ) (w : Nodes) → x ≤ last → Elem x w → Elem x (kept_to last w)
kept_to-Elem last x [] le h = absurd h
kept_to-Elem last x (y ∷ ys) le (inl same) =
    let low : leb y last ≡ true = ground arith in rw low (inl same)
kept_to-Elem last x (y ∷ ys) le (inr on) = elim (Bool-cases (leb y last)) [
  | inl low ↦ rw low (inr (kept_to-Elem last x ys le on))
  | inr high ↦ rw high (kept_to-Elem last x ys le on)
]

abbrev diff_received : Bool → ℕ → ℕ → Nodes → Result (Unit {0}) × Nodes
diff_received true from to w = (ok tt, to ∷ kept_to from w)
diff_received false from to w = (err snapshot_does_not_exist, w)

abbrev snapshot_taken : Bool → ℕ → Nodes → Result (ℕ × Bool) × Nodes
snapshot_taken true node w = (err command_failed, w)
snapshot_taken false node w = (ok (node, false), node ∷ w)

-- A snapshot that is there cannot be taken again.
abbrev pub in_memory : Backend Nodes
in_memory = record {
  SnapshotId = ℕ;
  encoded = id_of;
  snapshot_id = λ e. ok e.node;
  snapshot = λ node uuid now w. snapshot_taken (contains node w) node w;
  remove_snapshot = λ id w. (ok tt, w);
  initial = λ id w. (ok (5 ∷ []), w);
  diff = λ from to w. (ok (5 ∷ []), w);
  exists = λ id w. (ok (contains id w), w);
  restore_initial = λ id input w. (ok tt, id ∷ []);
  restore_diff = λ from to input w. diff_received (contains from w) from to w;
}

abbrev pub Has : Nodes → ℕ → Type 0
Has w x = Elem x w

abbrev pub Names : ℕ → ℕ → Type 0
Names id node = id ≡ node

abbrev pub Stream : ℕ → List ℕ → Type 0
Stream node bytes = bytes ≡ 5 ∷ []

pub in_memory-IsBackend : IsBackend in_memory Has Names Stream
in_memory-IsBackend = record {
  answers = λ id node w named. (
    contains id w,
    w,
    refl,
    λ found. subst (λ (x : ℕ). Elem x w) named (Elem-contains id w found),
    λ x h. h,
  );
  receives_initial = λ id input w named good. (id ∷ [], refl, inl (sym named));
  receives_diff = λ from to node input w pos named named' has good.
      let there : contains from w ≡ true =
        contains-Elem from w (subst (λ (x : ℕ). Elem x w) (sym named) has) in
      (
        to ∷ kept_to from w,
        rw there refl,
        inl (sym named'),
        λ x le h. inr (kept_to-Elem from x w (omega (arith, le, named)) h),
      );
}

abbrev pub unencrypted : List ℕ → List ℕ × Result (Unit {0})
unencrypted bytes = (bytes, ok tt)

abbrev pub nothing_more : ℕ → Run Nodes (Unit {0})
nothing_more id w = (ok tt, w)

harmless : IsHarmless in_memory unencrypted nothing_more true full Has Names Stream
harmless = record { succeeds = λ id w. (w, refl, λ x h. h) }

full-IsRestorable :
    (x : ℕ) → x ≤ 3 → IsRestorable in_memory unencrypted nothing_more true full Has Names Stream x
unfolding node_to_snapshot_id get_encoded try_get_encoded read_payload
full-IsRestorable x h =
    let own = check_own (id_of x) (omega arith, omega arith, omega arith) in
    record {
      id = x;
      read_id = rw own refl;
      names = refl;
      payload = 5 ∷ [];
      read_bytes = refl;
      stream = refl;
      ends = refl;
    }

path_3 : (fenwick_path_inc_root 3).nodes ≡ 3 ∷ 2 ∷ 0 ∷ []
unfolding fenwick_path_inc_root fenwick_path_exc_root fenwick_loop lsb then_root
path_3 = refl

up_to_3 : (x : ℕ) → Elem x (3 ∷ 2 ∷ 0 ∷ []) → x ≤ 3
up_to_3 x (inl e) = omega arith
up_to_3 x (inr (inl e)) = omega arith
up_to_3 x (inr (inr (inl e))) = omega arith
up_to_3 x (inr (inr (inr h))) = absurd h

path_of_3 : (x : ℕ) → Elem x (fenwick_path_inc_root 3).nodes → x ≤ 3
path_of_3 x on = up_to_3 x (subst (Elem x) path_3 on)

restore-Has_example :
    (w' : Nodes) × (restore in_memory unencrypted nothing_more true full 0 false 3 (9 ∷ [])
      ≡ (ok tt, w'))
    × ((x : ℕ) → Elem x (fenwick_path_inc_root 3).nodes → Has w' x)
restore-Has_example =
    restore-Has in_memory unencrypted nothing_more true full Has Names Stream in_memory-IsBackend
      harmless 0 3 (9 ∷ []) (omega arith) (λ x on. full-IsRestorable x (path_of_3 x on))

nodes_to_restore-needed_example :
    (nodes : List ℕ) × (nodes_to_restore 0 full false 6 ≡ ok nodes)
    × IsSelfContained 6 nodes
    × Elem 6 nodes
nodes_to_restore-needed_example = nodes_to_restore-needed 0 full 6 (omega arith)

no_id : try_get_encoded without_ids 5 ≡ ok none
unfolding try_get_encoded check_encoded
no_id = refl

nodes_to_restore-available_example :
    (nodes : List ℕ) × (nodes_to_restore 1 without_ids true 3 ≡ ok nodes)
    × IsSelfContained 3 nodes
    × ((x : ℕ)
        → Elem x nodes ↔ (
            (x ≤ 3)
            × Elem x (alive_after 4).nodes
            × ((y : ℕ) → Elem y (fenwick_path_inc_root x).nodes → exists without_ids y ≡ true)))
nodes_to_restore-available_example =
    nodes_to_restore-available 0 without_ids 3 (omega arith) (omega arith) no_id

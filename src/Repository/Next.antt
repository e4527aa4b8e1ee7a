-- ===== src/Repository/Next.antt =====
-- src/RepositoryStructure.cpp, `getNextSnapshotNode`: what its loop comes to.
use diffmonger.Base.{
  ℕ, zero, suc, ◌≡◌, refl, ap, ◌∙◌, Option, none, some, ◌==◌, List, arith, if◌then◌else◌,
}
use diffmonger.Error.{ok, err, >>=-eq-ok, node_mismatch, no_fuel}
use diffmonger.Encoded
use diffmonger.Encoded.{Encoded}
use diffmonger.Repository.{
  Repository, check_encoded, try_get_encoded, next_loop, get_next_snapshot_node, id_file,
}

own_node :
    (node : ℕ) (out e : Encoded)
    → (if out.node == node then ok (some out) else err node_mismatch) ≡ ok (some e)
    → e.node ≡ node
own_node node out e h = ground arith

check_encoded-node :
    (node : ℕ) (file : Option (List ℕ)) (e : Encoded)
    → check_encoded node file ≡ ok (some e)
    → e.node ≡ node
unfolding check_encoded
check_encoded-node node none e h = cc
check_encoded-node node (some bytes) e h =
    let (out, decoded, checked) = >>=-eq-ok (Encoded.deserialise bytes) _ h in
    own_node node out e checked

-- An id that can be read is that of its node.
pub try_get_encoded-node :
    (r : Repository) (node : ℕ) (e : Encoded) → try_get_encoded r node ≡ ok (some e) → e.node ≡ node
unfolding try_get_encoded
try_get_encoded-node r node e h = check_encoded-node node (id_file (r.snapshots node)) e h

stuck :
    (fuel : ℕ) (r : Repository) (node : ℕ) (e : Encoded)
    → try_get_encoded r node ≡ ok (some e)
    → next_loop fuel r node ≡ err no_fuel
unfolding next_loop
stuck zero r node e h = refl
stuck (suc fuel) r node e h =
    let same = try_get_encoded-node r node e h in
    rw (next_loop, h) (ap (next_loop fuel r) same ∙ stuck fuel r node e h)

-- `get_next_snapshot_node` returns the breadcrumb's node in its first round if that node has no id;
-- if it has an id that can be read, then no number of rounds is enough: the loop does not end.
pub get_next_snapshot_node-stuck :
    (r : Repository)
    → ((fuel : ℕ)
        → try_get_encoded r r.breadcrumb.untrusted_begin ≡ ok none
        → get_next_snapshot_node (suc fuel) r ≡ ok r.breadcrumb.untrusted_begin)
      × ((fuel : ℕ) (e : Encoded)
          → try_get_encoded r r.breadcrumb.untrusted_begin ≡ ok (some e)
          → get_next_snapshot_node fuel r ≡ err no_fuel)
unfolding get_next_snapshot_node next_loop
get_next_snapshot_node-stuck r =
    (λ fuel h. rw h refl, λ fuel e h. stuck fuel r r.breadcrumb.untrusted_begin e h)

-- ===== src/Controller/Outcome.antt =====
-- What `prune_repository` does, as the steps of the file system, and that it ends.
use diffmonger.Base.{
  zero_or_pos, ℕ, zero, suc, ◌+◌, ◌^◌, ◌≤◌, ◌<◌, ◌≡◌, ◌⊎◌, inl, inr, refl, sym, subst, ap, ◌∙◌,
  true, Option, none, some, List, [], ◌∷◌, Elem, ◌==◌, arith, if◌then◌else◌,
}
use diffmonger.Base.Int.{ℤ}
use diffmonger.Error.{Error, Result, ok, err, >>=-eq-ok}
use diffmonger.Node
use diffmonger.Tree
use diffmonger.Tree.{End}
use diffmonger.Tree.Lsb.{lsb-pos}
use diffmonger.Tree.Prune.{IsPruned, prune-IsPruned}
use diffmonger.Tree.Evolution.{prune_iff}
use diffmonger.Encoded.{Encoded, Breadcrumb}
use diffmonger.Repository.{Repository, try_get_encoded, exists, delete_node, write_breadcrumb}
use diffmonger.Repository.Exec.{for_each}
use diffmonger.Trust.{maybe_update_breadcrumb, trust_node}
use diffmonger.Trust.Laws.{maybe_update_breadcrumb-IsTrusted}
use diffmonger.Controller.{decide, duration_of, trust_next, prune_repository}
use diffmonger.Controller.Steps.{
  Steps, deletes, trusts, stay, ◌then_steps◌, Steps-append, Steps-IsKept, IsKept,
}

pub try_get_encoded-exists :
    (r : Repository) (n : ℕ) {e : Encoded} → try_get_encoded r n ≡ ok (some e) → exists r n ≡ true
unfolding try_get_encoded exists
try_get_encoded-exists r n h = ground arith

first_node :
    (node : ℕ) (now : ℤ) (x : Result (Option Breadcrumb)) {b : Breadcrumb}
    → node ≡ 0
    → (if node == 0 then trust_node node now else x) ≡ ok (some b)
    → b.untrusted_begin ≡ suc node
unfolding Node.next
first_node node now x at h = ground arith

trusts_first :
    (r : Repository) (b b' : Breadcrumb) (candidate : Encoded) (min_time now : ℤ)
    → b.untrusted_begin ≡ 0
    → maybe_update_breadcrumb r b candidate min_time now ≡ ok (some b')
    → b'.untrusted_begin ≡ suc b.untrusted_begin
unfolding maybe_update_breadcrumb
trusts_first r b b' candidate min_time now at h = first_node b.untrusted_begin now _ at h

pub maybe_update_breadcrumb-advances :
    (r : Repository) (b b' : Breadcrumb) (candidate : Encoded) (min_time now : ℤ)
    → maybe_update_breadcrumb r b candidate min_time now ≡ ok (some b')
    → b'.untrusted_begin ≡ suc b.untrusted_begin
maybe_update_breadcrumb-advances r b b' candidate min_time now h =
    elim (zero_or_pos b.untrusted_begin) [
      | inl initial ↦ trusts_first r b b' candidate min_time now initial h
      | inr later ↦
          let (current, got, t) =
            maybe_update_breadcrumb-IsTrusted r b b' candidate min_time now later h in
          omega (arith, t.advanced)
    ]

candidate_case :
    (min_time now : ℤ) (r : Repository) (b : Breadcrumb) (o : Option Encoded)
    → try_get_encoded r r.breadcrumb.untrusted_begin ≡ ok o
    → elim o [
      | none ↦ ok none
      | some candidate ↦ maybe_update_breadcrumb r r.breadcrumb candidate min_time now
    ]
      ≡ ok (some b)
    → (e : Encoded) × (try_get_encoded r r.breadcrumb.untrusted_begin ≡ ok (some e))
      × (maybe_update_breadcrumb r r.breadcrumb e min_time now ≡ ok (some b))
candidate_case min_time now r b none read rest = cc
candidate_case min_time now r b (some e) read rest = (e, read, rest)

pub decide-eq-ok :
    (min_time now : ℤ) (r : Repository) (b : Breadcrumb)
    → decide min_time now r ≡ ok (some b)
    → (e : Encoded) × (try_get_encoded r r.breadcrumb.untrusted_begin ≡ ok (some e))
      × (maybe_update_breadcrumb r r.breadcrumb e min_time now ≡ ok (some b))
unfolding decide
decide-eq-ok min_time now r b h =
    let (o, read, rest) = >>=-eq-ok (try_get_encoded r r.breadcrumb.untrusted_begin) _ h in
    candidate_case min_time now r b o read rest

pub for_each-Steps :
    (xs : List ℕ) (r : Repository)
    → ((x : ℕ) → Elem x xs → Elem x (Tree.prune r.breadcrumb.untrusted_begin).nodes)
    → Steps r (for_each delete_node xs r)
unfolding delete_node
for_each-Steps [] r dying = stay r
for_each-Steps (x ∷ xs) r dying =
    deletes r x (dying x (inl refl))
    then_steps for_each-Steps xs (delete_node x r) (λ y d. dying y (inr d))

pub for_each-breadcrumb :
    (xs : List ℕ) (r : Repository) → (for_each delete_node xs r).breadcrumb ≡ r.breadcrumb
unfolding delete_node
for_each-breadcrumb [] r = refl
for_each-breadcrumb (x ∷ xs) r = for_each-breadcrumb xs (delete_node x r)

exists-other : (r : Repository) (x y : ℕ) → ¬ (y ≡ x) → exists (delete_node x r) y ≡ exists r y
unfolding exists delete_node
exists-other r x y apart = ground arith

pub for_each-exists :
    (xs : List ℕ) (r : Repository) (y : ℕ)
    → ¬ (Elem y xs)
    → exists (for_each delete_node xs r) y ≡ exists r y
unfolding delete_node
for_each-exists [] r y apart = refl
for_each-exists (x ∷ xs) r y apart =
    for_each-exists xs (delete_node x r) y (λ d. apart (inr d))
    ∙ exists-other r x y (λ same. apart (inl same))

newest-survives : (n : ℕ) → n < 2 ^ 63 → ¬ (Elem n (Tree.prune n).nodes)
newest-survives n small dying =
    let (above, dies) = (prune_iff n n small).0 dying in omega (arith, lsb-pos n, above, dies)

-- The repository once what dies with the breadcrumb's node is deleted.
abbrev pub pruned : Repository → Repository
pruned r = for_each delete_node (Tree.prune r.breadcrumb.untrusted_begin).nodes r

pub trust_next_lem :
    (r : Repository) (b : Breadcrumb)
    → r.breadcrumb.untrusted_begin < 2 ^ 63
    → trust_next b r ≡ (ok tt, write_breadcrumb b (pruned r))
unfolding trust_next
trust_next_lem r b small =
    rw (IsPruned.returns (prune-IsPruned r.breadcrumb.untrusted_begin small)) refl

pub trust_next-Steps :
    (r : Repository) (b : Breadcrumb)
    → r.breadcrumb.untrusted_begin < 2 ^ 63
    → exists r r.breadcrumb.untrusted_begin ≡ true
    → b.untrusted_begin ≡ suc r.breadcrumb.untrusted_begin
    → Steps r (write_breadcrumb b (pruned r))
trust_next-Steps r b small there next =
    let ub = r.breadcrumb.untrusted_begin in
    let dying = (Tree.prune ub).nodes in
    let same : (pruned r).breadcrumb.untrusted_begin ≡ ub =
      ap (λ (c : Breadcrumb). c.untrusted_begin) (for_each-breadcrumb dying r) in
    let still : exists (pruned r) ub ≡ true =
      for_each-exists dying r ub (newest-survives ub small) ∙ there in
    Steps-append (for_each-Steps dying r (λ x d. d)) (
      trusts (pruned r) b (subst (λ n. exists (pruned r) n ≡ true) (sym same) still)
        (next ∙ ap suc (sym same))
      then_steps stay (write_breadcrumb b (pruned r)))

-- The three ways that a round goes.
pub data Round (fuel seconds : ℕ) (now : ℤ) (r : Repository) : Type 0 where
  throws :
      (e : Error)
      → decide (duration_of seconds) now r ≡ err e
      → prune_repository (suc fuel) seconds now r ≡ (err e, r)
      → Round fuel seconds now r
  stops :
      decide (duration_of seconds) now r ≡ ok none
      → prune_repository (suc fuel) seconds now r ≡ (ok tt, r)
      → Round fuel seconds now r
  goes_on :
      (b : Breadcrumb)
      → decide (duration_of seconds) now r ≡ ok (some b)
      → prune_repository (suc fuel) seconds now r
        ≡ prune_repository fuel seconds now (write_breadcrumb b (pruned r))
      → Round fuel seconds now r

decision_cases :
    (m : Result (Option Breadcrumb))
    → ((e : Error) × (m ≡ err e)) ⊎ ((m ≡ ok none) ⊎ ((b : Breadcrumb) × (m ≡ ok (some b))))
decision_cases (err e) = inl (e, refl)
decision_cases (ok none) = inr (inl refl)
decision_cases (ok (some b)) = inr (inr (b, refl))

pub round :
    (fuel seconds : ℕ) (now : ℤ) (r : Repository)
    → r.breadcrumb.untrusted_begin < 2 ^ 63
    → Round fuel seconds now r
unfolding prune_repository
round fuel seconds now r small = elim (decision_cases (decide (duration_of seconds) now r)) [
  | inl refused ↦ throws refused.0 refused.1 (rw (prune_repository, refused.1) refl)
  | inr (inl done) ↦ stops done (rw (prune_repository, done) refl)
  | inr (inr next) ↦
      goes_on next.0 next.1 (rw (prune_repository, next.1, trust_next_lem r next.0 small) refl)
]

pub decided_next :
    (min_time now : ℤ) (r : Repository) (b : Breadcrumb)
    → decide min_time now r ≡ ok (some b)
    → (exists r r.breadcrumb.untrusted_begin ≡ true)
      × (b.untrusted_begin ≡ suc r.breadcrumb.untrusted_begin)
decided_next min_time now r b h =
    let (e, read, decided) = decide-eq-ok min_time now r b h in
    (
      try_get_encoded-exists r r.breadcrumb.untrusted_begin read,
      maybe_update_breadcrumb-advances r r.breadcrumb b e min_time now decided,
    )

-- If the breadcrumb's node and the rounds add up to at most 2 ^ 63, then the repository that
-- `prune_repository` leaves, by an exception or not, is one that a sequence of steps leads to:
-- deletions of nodes that die with the breadcrumb's node, and writes of a breadcrumb that is one
-- further, past a node that is there.
pub prune_repository-Steps :
    (fuel seconds : ℕ) (now : ℤ) (r : Repository)
    → r.breadcrumb.untrusted_begin + fuel ≤ 2 ^ 63
    → Steps r (prune_repository fuel seconds now r).1
unfolding write_breadcrumb prune_repository
prune_repository-Steps zero seconds now r small = stay r
prune_repository-Steps (suc fuel) seconds now r small =
    elim (round fuel seconds now r (omega (arith, small))) [
      | throws e decided end ↦ rw end (stay r)
      | stops decided end ↦ rw end (stay r)
      | goes_on b decided next ↦
          let (there, advanced) = decided_next (duration_of seconds) now r b decided in
          rw next (
            Steps-append (trust_next-Steps r b (omega (arith, small)) there advanced) (
              prune_repository-Steps fuel seconds now (write_breadcrumb b (pruned r))
                (omega (arith, small, advanced))))
    ]

pub rounds :
    (fuel seconds : ℕ) (now : ℤ) (r : Repository)
    → r.breadcrumb.untrusted_begin + fuel ≤ 2 ^ 63
    → (prune_repository fuel seconds now r).1.breadcrumb.untrusted_begin
      ≤ r.breadcrumb.untrusted_begin + fuel
unfolding write_breadcrumb prune_repository
rounds zero seconds now r small = omega arith
rounds (suc fuel) seconds now r small = elim (round fuel seconds now r (omega (arith, small))) [
  | throws e decided end ↦ rw end (omega arith)
  | stops decided end ↦ rw end (omega arith)
  | goes_on b decided next ↦
      let (there, advanced) = decided_next (duration_of seconds) now r b decided in
      let rest =
        rounds fuel seconds now (write_breadcrumb b (pruned r)) (omega (arith, small, advanced)) in
      rw next (omega (arith, rest, advanced))
]

-- If the breadcrumb's node and the rounds add up to less than 2 ^ 63, then however
-- `prune_repository` ends, the repository still has the nodes alive at the last trusted node but
-- those that the next node kills, if it had them before.
pub prune_repository-IsKept :
    (fuel seconds : ℕ) (now : ℤ) (r : Repository)
    → r.breadcrumb.untrusted_begin + fuel < 2 ^ 63
    → IsKept r
    → IsKept (prune_repository fuel seconds now r).1
prune_repository-IsKept fuel seconds now r small kept =
    Steps-IsKept (omega (arith, rounds fuel seconds now r (omega (arith, small)), small))
      (prune_repository-Steps fuel seconds now r (omega (arith, small))) kept

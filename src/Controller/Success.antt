-- ===== src/Controller/Success.antt =====
-- That `prune_repository` ends without an exception on a repository in good order.
use diffmonger.Base.{
  ℕ, zero, suc, ◌+◌, ◌-◌, ◌^◌, ◌≤◌, ◌<◌, ◌≡◌, ◌⊎◌, inl, inr, refl, sym, ap, ◌∙◌, Bool, Bool-cases,
  true, false, Option, none, some, List, [], ◌∷◌, Elem, ◌==◌, arith, if◌then◌else◌,
}
use diffmonger.Base.Int.{ℤ}
use diffmonger.Error.{Result, ok, err, invalid_candidate}
use diffmonger.Node
use diffmonger.Tree
use diffmonger.Tree.{alive_after}
use diffmonger.Tree.Lsb.{lsb-pos}
use diffmonger.Tree.Spec.{demise}
use diffmonger.Tree.Evolution.{alive_after_iff, prune_iff}
use diffmonger.Encoded.{Encoded, Breadcrumb}
use diffmonger.Repository.{
  Repository, NodeDir, update, is_some, check_encoded, id_file, try_get_encoded, get_encoded,
  exists, delete_node, write_breadcrumb,
}
use diffmonger.Repository.Exec.{for_each}
use diffmonger.Trust.{maybe_update_breadcrumb, trust_node, judge}
use diffmonger.Controller.{decide, prune_repository, duration_of}
use diffmonger.Controller.Steps.{IsKept, Steps-IsKept}
use diffmonger.Controller.Outcome.{
  throws, stops, goes_on, round, pruned, decided_next, trust_next-Steps,
}

-- The directory of a node that is there has an id, which can be decoded and is that of the node.
unfoldable pub IsReadable : Repository → Type 0
IsReadable r =
    (x : ℕ) → exists r x ≡ true → (e : Encoded) × (try_get_encoded r x ≡ ok (some e)) × (e.node ≡ x)

-- The code returns.
pub Returns {ℓ} : {A : Type ℓ} → Result A → Type ℓ
Returns {A = A} m = (a : A) × (m ≡ ok a)

if-Returns {ℓ} :
    {A : Type ℓ} (c : Bool) (x y : Result A) → Returns x → Returns y → Returns (if c then x else y)
if-Returns true x y h g = h
if-Returns false x y h g = g

trust_node-Returns : (node : ℕ) (t : ℤ) → node < 2 ^ 63 → Returns (trust_node node t)
unfolding Node.next Returns
trust_node-Returns node t small =
    let below : (node == 18446744073709551615) ≡ false = ground arith in rw below (_, refl)

judge-Returns :
    (b : Breadcrumb) (current candidate : Encoded) (min_time now : ℤ)
    → candidate.node < 2 ^ 63
    → Returns (judge b current candidate min_time now)
unfolding judge Returns
judge-Returns b current candidate min_time now small =
    if-Returns _ _ _ (if-Returns _ _ _ (trust_node-Returns candidate.node _ small) (none, refl))
      (none, refl)

checked_node :
    (node candidate : ℕ) (first x : Result (Option Breadcrumb))
    → candidate ≡ node
    → Returns first
    → ((n : ℕ) → node ≡ suc n → Returns x)
    → Returns
        (if node == 0 then first else (if candidate == node then x else err invalid_candidate))
checked_node zero candidate first x same initial later = initial
checked_node (suc n) candidate first x same initial later =
    let apart : (suc n == 0) ≡ false = ground arith in
    let checked : (candidate == suc n) ≡ true = ground arith in rw (apart, checked) (later n refl)

-- Where the node before it is there, a candidate at the breadcrumb is judged without an exception.
pub maybe_update_breadcrumb-Returns :
    (r : Repository) (candidate : Encoded) (min_time now : ℤ)
    → candidate.node < 2 ^ 63
    → candidate.node ≡ r.breadcrumb.untrusted_begin
    → ((n : ℕ) → r.breadcrumb.untrusted_begin ≡ suc n → Returns (get_encoded r n))
    → Returns (maybe_update_breadcrumb r r.breadcrumb candidate min_time now)
unfolding maybe_update_breadcrumb Returns
maybe_update_breadcrumb-Returns r candidate min_time now small same before =
    checked_node r.breadcrumb.untrusted_begin candidate.node _ _ same
      (trust_node-Returns r.breadcrumb.untrusted_begin now (omega (arith, small, same)))
      (λ n at.
        let (current, got) = before n at in
        let here : get_encoded r (r.breadcrumb.untrusted_begin - 1) ≡ ok current =
          ap (get_encoded r) (omega (arith, at)) ∙ got in
        rw here (judge-Returns r.breadcrumb current candidate min_time now small))

newest-survives : (n : ℕ) → suc n < 2 ^ 63 → ¬ (Elem n (Tree.prune (suc n)).nodes)
newest-survives n small dying =
    let (above, dies) = (prune_iff (suc n) n small).0 dying in omega (arith, lsb-pos n, above, dies)

newest-Alive : (n : ℕ) → n < 2 ^ 63 → (n ≤ n) × ((n ≡ 0) ⊎ (n < demise n))
newest-Alive zero small = (omega arith, inl refl)
newest-Alive (suc n) small = (omega arith, inr (omega (arith, lsb-pos (suc n))))

last_trusted-Returns :
    (r : Repository) (n : ℕ)
    → suc n < 2 ^ 63
    → IsReadable r
    → IsKept r
    → r.breadcrumb.untrusted_begin ≡ suc n
    → Returns (get_encoded r n)
unfolding IsReadable IsKept Returns get_encoded
last_trusted-Returns r n small readable kept at =
    let alive =
      (alive_after_iff n n (omega (arith, small))).1 (newest-Alive n (omega (arith, small))) in
    let (e, read, same) = readable n (kept n n at alive (newest-survives n small)) in
    rw read (e, refl)

absent : (r : Repository) (n : ℕ) → exists r n ≡ false → try_get_encoded r n ≡ ok none
unfolding exists try_get_encoded
absent r n h = ground arith

decide-Returns :
    (min_time now : ℤ) (r : Repository)
    → r.breadcrumb.untrusted_begin < 2 ^ 63
    → IsReadable r
    → IsKept r
    → Returns (decide min_time now r)
unfolding decide IsReadable Returns
decide-Returns min_time now r small readable kept =
    elim (Bool-cases (exists r r.breadcrumb.untrusted_begin)) [
      | inl there ↦
          let (e, read, same) = readable r.breadcrumb.untrusted_begin there in
          rw read (
            maybe_update_breadcrumb-Returns r e min_time now (omega (arith, same, small)) same
              (λ n at. last_trusted-Returns r n (omega (arith, at, small)) readable kept at))
      | inr gone ↦ rw (absent r r.breadcrumb.untrusted_begin gone) (none, refl)
    ]

update-kept :
    (snapshots : ℕ → Option NodeDir) (x y : ℕ)
    → is_some (update snapshots y none x) ≡ true
    → update snapshots y none x ≡ snapshots x
update-kept snapshots x y h = ground arith

-- Deletions keep the directories that they leave as they are.
for_each-kept :
    (xs : List ℕ) (r : Repository) (x : ℕ)
    → exists (for_each delete_node xs r) x ≡ true
    → (for_each delete_node xs r).snapshots x ≡ r.snapshots x
unfolding exists delete_node
for_each-kept [] r x h = refl
for_each-kept (y ∷ ys) r x h =
    let rest = for_each-kept ys (delete_node y r) x h in
    let now : is_some (update r.snapshots y none x) ≡ true = ap is_some (sym rest) ∙ h in
    rest ∙ update-kept r.snapshots x y now

for_each-absent :
    (xs : List ℕ) (r : Repository) (x : ℕ)
    → exists r x ≡ false
    → exists (for_each delete_node xs r) x ≡ false
unfolding exists delete_node
for_each-absent [] r x h = h
for_each-absent (y ∷ ys) r x h = for_each-absent ys (delete_node y r) x (ground arith)

next-IsReadable :
    (r : Repository) (b : Breadcrumb) → IsReadable r → IsReadable (write_breadcrumb b (pruned r))
unfolding IsReadable exists try_get_encoded write_breadcrumb
next-IsReadable r b readable x there =
    let same = for_each-kept (Tree.prune r.breadcrumb.untrusted_begin).nodes r x there in
    let before : is_some (r.snapshots x) ≡ true = ap is_some (sym same) ∙ there in
    let (e, read, own) = readable x before in
    let kept : try_get_encoded (pruned r) x ≡ try_get_encoded r x =
      ap (λ dir. check_encoded x (id_file dir)) same in
    (e, kept ∙ read, own)

-- The node at the breadcrumb is not the one that is missing.
further :
    (r : Repository) (k : ℕ)
    → exists r r.breadcrumb.untrusted_begin ≡ true
    → exists r (r.breadcrumb.untrusted_begin + k) ≡ false
    → (j : ℕ) × (k ≡ suc j)
further r zero there gone =
    let same : exists r (r.breadcrumb.untrusted_begin + 0) ≡ true =
      ap (exists r) (omega arith) ∙ there in
    cc
further r (suc j) there gone = (j, refl)

-- If every node that is there has an id that can be read, the nodes alive at the last trusted node
-- but those that the next one kills are there, and the node `k` after the breadcrumb's is not there
-- and is below 2 ^ 63, then with more than `k` rounds `prune_repository` returns and throws nothing.
pub prune_repository-Returns :
    (fuel k seconds : ℕ) (now : ℤ) (r : Repository)
    → k < fuel
    → r.breadcrumb.untrusted_begin + k < 2 ^ 63
    → exists r (r.breadcrumb.untrusted_begin + k) ≡ false
    → IsReadable r
    → IsKept r
    → (prune_repository fuel seconds now r).0 ≡ ok tt
unfolding write_breadcrumb exists Returns
prune_repository-Returns zero k seconds now r enough small gone readable kept =
    absurd (omega (arith, enough))
prune_repository-Returns (suc fuel) k seconds now r enough small gone readable kept =
    let ub = r.breadcrumb.untrusted_begin in
    elim (round fuel seconds now r (omega (arith, small))) [
      | throws e decided end ↦
          let (o, returned) =
            decide-Returns (duration_of seconds) now r (omega (arith, small)) readable kept in
          cc
      | stops decided end ↦ ap (λ (x : Result Unit × Repository). x.0) end
      | goes_on b decided next ↦
          let (there, advanced) = decided_next (duration_of seconds) now r b decided in
          let (j, later) = further r k there gone in
          let target : b.untrusted_begin + j ≡ ub + k = omega (arith, later, advanced) in
          let r' = write_breadcrumb b (pruned r) in
          rw next (
            prune_repository-Returns fuel j seconds now r' (omega (arith, later, enough))
              (omega (arith, target, small))
              (rw target (for_each-absent (Tree.prune ub).nodes r (ub + k) gone))
              (next-IsReadable r b readable)
              (Steps-IsKept (omega (arith, advanced, later, small))
                (trust_next-Steps r b (omega (arith, small)) there advanced) kept))
    ]

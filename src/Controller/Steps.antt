-- ===== src/Controller/Steps.antt =====
-- The changes that pruning makes to the repository, one file operation at a time.
use diffmonger.Base.{
  ℕ, zero, suc, ◌^◌, ◌≤◌, ◌<◌, ◌≡◌, inl, inr, refl, sym, subst, true, Elem, arith,
}
use diffmonger.Tree
use diffmonger.Tree.{alive_after}
use diffmonger.Tree.Evolution.{alive_after-suc, alive_after_iff}
use diffmonger.Encoded.{Breadcrumb}
use diffmonger.Repository.{Repository, exists, delete_node, write_breadcrumb}

-- A change of the file system: a node that dies with the next one is deleted, or the breadcrumb
-- passes a node that is there.
pub data Step : Repository → Repository → Type 0 where
  deletes :
      (r : Repository) (x : ℕ)
      → Elem x (Tree.prune r.breadcrumb.untrusted_begin).nodes
      → Step r (delete_node x r)
  trusts :
      (r : Repository) (b : Breadcrumb)
      → exists r r.breadcrumb.untrusted_begin ≡ true
      → b.untrusted_begin ≡ suc r.breadcrumb.untrusted_begin
      → Step r (write_breadcrumb b r)

infixr 5 ◌then_steps◌
pub data Steps : Repository → Repository → Type 0 where
  stay : (r : Repository) → Steps r r
  ◌then_steps◌ : {r s t : Repository} → Step r s → Steps s t → Steps r t

-- The nodes that are alive once the last trusted node is created are there, but for those that the
-- next node kills.
unfoldable pub IsKept : Repository → Type 0
IsKept r =
    (n x : ℕ)
    → r.breadcrumb.untrusted_begin ≡ suc n
    → Elem x (alive_after n).nodes
    → ¬ (Elem x (Tree.prune (suc n)).nodes)
    → exists r x ≡ true

exists-delete_node :
    (r : Repository) (x y : ℕ) → exists r x ≡ true → (x ≡ y → ⊥) → exists (delete_node y r) x ≡ true
unfolding exists delete_node
exists-delete_node r x y h apart = ground arith

exists-written :
    (r : Repository) (x : ℕ) (b : Breadcrumb) → exists (write_breadcrumb b r) x ≡ exists r x
unfolding exists write_breadcrumb
exists-written r x b = refl

-- With the next node, all that is alive after it is there.
pub all_alive :
    (r : Repository) (n x : ℕ)
    → n < 2 ^ 63
    → IsKept r
    → r.breadcrumb.untrusted_begin ≡ n
    → exists r n ≡ true
    → Elem x (alive_after n).nodes
    → exists r x ≡ true
unfolding IsKept
all_alive r zero x small kept at there alive =
    let (in_range, living) = (alive_after_iff 0 x small).0 alive in
    subst (λ z. exists r z ≡ true) (omega (arith, in_range)) there
all_alive r (suc n) x small kept at there alive = elim ((alive_after-suc n x small).0 alive) [
  | inl newest ↦ subst (λ z. exists r z ≡ true) (sym newest) there
  | inr (old, survives) ↦ kept n x at old survives
]

Step-grows :
    {r s : Repository} → Step r s → r.breadcrumb.untrusted_begin ≤ s.breadcrumb.untrusted_begin
unfolding delete_node write_breadcrumb
Step-grows (deletes r x dying) = omega arith
Step-grows (trusts r b there next) = omega (arith, next)

pub Steps-grows :
    {r s : Repository} → Steps r s → r.breadcrumb.untrusted_begin ≤ s.breadcrumb.untrusted_begin
Steps-grows (stay r) = omega arith
Steps-grows (first then_steps rest) = omega (arith, Step-grows first, Steps-grows rest)

pub Steps-append : {r s t : Repository} → Steps r s → Steps s t → Steps r t
Steps-append (stay r) more = more
Steps-append (first then_steps rest) more = first then_steps (Steps-append rest more)

pub Step-IsKept :
    {r s : Repository} → s.breadcrumb.untrusted_begin < 2 ^ 63 → Step r s → IsKept r → IsKept s
unfolding IsKept delete_node write_breadcrumb exists
Step-IsKept small (deletes r x dying) kept n y at alive survives =
    exists-delete_node r y x (kept n y at alive survives) (λ same. survives (
      subst (λ z. Elem y (Tree.prune z).nodes) at
        (subst (λ z. Elem z (Tree.prune r.breadcrumb.untrusted_begin).nodes) (sym same) dying)))
Step-IsKept small (trusts r b there next) kept n y at alive survives =
    let here : r.breadcrumb.untrusted_begin ≡ n = omega (arith, at, next) in
    all_alive r n y (omega (arith, at, small)) kept here (subst (λ z. exists r z ≡ true) here there)
      alive

-- After any number of steps the repository has the nodes alive at the last trusted node but those
-- that the next node kills, if it had them before and the breadcrumb's node is below 2 ^ 63.
pub Steps-IsKept :
    {r s : Repository} → s.breadcrumb.untrusted_begin < 2 ^ 63 → Steps r s → IsKept r → IsKept s
unfolding delete_node write_breadcrumb
Steps-IsKept small (stay r) kept = kept
Steps-IsKept small (first then_steps rest) kept =
    Steps-IsKept small rest (Step-IsKept (omega (arith, small, Steps-grows rest)) first kept)

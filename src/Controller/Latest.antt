-- ===== src/Controller/Latest.antt =====
-- src/Controller.cpp, `prune`, as it is called before a snapshot is taken.
use diffmonger.Base.{zero_or_pos, ◌^◌, ◌<◌, ◌≡◌, ◌==◌, inl, inr, refl, ap, true, false, arith}
use diffmonger.Error.{ok}
use diffmonger.Node
use diffmonger.Tree
use diffmonger.Tree.Prune.{IsPruned, prune-IsPruned}
use diffmonger.Encoded.{Breadcrumb}
use diffmonger.Repository.{Repository, delete_node, get_latest_trusted_node}
use diffmonger.Controller
use diffmonger.Controller.Steps.{IsKept, Steps-IsKept}
use diffmonger.Controller.Outcome.{for_each-Steps, for_each-breadcrumb, pruned}

prune_nothing :
    (r : Repository)
    → r.breadcrumb.untrusted_begin ≡ 0
    → Controller.prune delete_node r ≡ (ok tt, r)
unfolding Controller.prune get_latest_trusted_node Node.is_root
prune_nothing r at =
    let first : (r.breadcrumb.untrusted_begin == 0) ≡ true = ground arith in
    rw (Controller.prune, first) refl

prune_later :
    (r : Repository)
    → 0 < r.breadcrumb.untrusted_begin
    → r.breadcrumb.untrusted_begin < 2 ^ 63
    → Controller.prune delete_node r ≡ (ok tt, pruned r)
unfolding Controller.prune get_latest_trusted_node Node.is_root
prune_later r later small =
    let apart : (r.breadcrumb.untrusted_begin == 0) ≡ false = ground arith in
    let returned = IsPruned.returns (prune-IsPruned r.breadcrumb.untrusted_begin small) in
    rw (Controller.prune, apart, returned) refl

-- With the deletion of nodes as its callback and a breadcrumb whose node is below 2 ^ 63, `prune`
-- returns, and the repository still has the nodes alive at the last trusted node but those that the
-- next node kills, if it had them before.
pub prune-IsKept :
    (r : Repository)
    → r.breadcrumb.untrusted_begin < 2 ^ 63
    → IsKept r
    → ((Controller.prune delete_node r).0 ≡ ok tt) × IsKept (Controller.prune delete_node r).1
prune-IsKept r small kept = elim (zero_or_pos r.breadcrumb.untrusted_begin) [
  | inl initial ↦ rw (prune_nothing r initial) (refl, kept)
  | inr later ↦
      let dying = (Tree.prune r.breadcrumb.untrusted_begin).nodes in
      let same : (pruned r).breadcrumb.untrusted_begin ≡ r.breadcrumb.untrusted_begin =
        ap (λ (c : Breadcrumb). c.untrusted_begin) (for_each-breadcrumb dying r) in
      let steps = for_each-Steps dying r (λ x d. d) in
      rw (prune_later r later small) (refl, Steps-IsKept (omega (arith, same, small)) steps kept)
]

-- ===== src/Trust/Laws.antt =====
-- What a trusted node promises.
use diffmonger.Base.{ℕ, ◌+◌, ◌-◌, ◌<◌, ◌≡◌, ◌==◌, Option, none, some, arith}
use diffmonger.Base.{Bool, true, false, refl, sym, subst, if◌then◌else◌}
use diffmonger.Base.Int.{ℤ, ◌+ℤ◌, ◌≤ℤ◌, leb_ℤ, max_ℤ, max_ℤ_bounds, wrap_64}
use diffmonger.Error.{Result, ok, err, invalid_candidate, >>=-eq-ok}
use diffmonger.Node
use diffmonger.Encoded.{Encoded, Breadcrumb}
use diffmonger.Repository.{Repository, get_encoded}
use diffmonger.Trust.{trust_node, judge, maybe_update_breadcrumb}

-- The step from the breadcrumb `b` to `b'`, which trusts `candidate` after `current`.
pub record IsTrusted (b b' : Breadcrumb) (current candidate : Encoded) (min_time now : ℤ)
    : Type 0 where
  pub candidate_node : candidate.node ≡ b.untrusted_begin
  pub advanced : b'.untrusted_begin ≡ b.untrusted_begin + 1
  pub honest : current.timestamp ≤ℤ candidate.timestamp
  pub quarantined :
      wrap_64 (b.last_trusted_node_authorised_at +ℤ min_time) ≤ℤ b'.last_trusted_node_authorised_at
  pub stamped : candidate.timestamp ≤ℤ b'.last_trusted_node_authorised_at
  pub due : b'.last_trusted_node_authorised_at ≤ℤ max_ℤ b.last_trusted_node_authorised_at now

pub trust_node_lem :
    (node : ℕ) (t : ℤ) {b : Breadcrumb}
    → trust_node node t ≡ ok (some b)
    → (b.untrusted_begin ≡ node + 1) × (b.last_trusted_node_authorised_at ≡ t)
unfolding Node.next
trust_node_lem node t h = ground arith

granted {ℓ} :
    {A : Type ℓ} (c : Bool) (x : Result (Option A)) {a : A}
    → (if c then x else ok none) ≡ ok (some a)
    → (c ≡ true) × (x ≡ ok (some a))
granted true x h = (refl, h)
granted false x h = cc

leb_ℤ-≤ℤ : (a b : ℤ) → leb_ℤ a b ≡ true → a ≤ℤ b
leb_ℤ-≤ℤ a b h = ground arith

judge_lem :
    (b b' : Breadcrumb) (current candidate : Encoded) (min_time now : ℤ)
    → candidate.node ≡ b.untrusted_begin
    → judge b current candidate min_time now ≡ ok (some b')
    → IsTrusted b b' current candidate min_time now
unfolding judge
judge_lem b b' current candidate min_time now same h =
    let last : ℤ = b.last_trusted_node_authorised_at in
    let ends : ℤ = wrap_64 (last +ℤ min_time) in
    let stamp : ℤ = candidate.timestamp in
    let (honest, inner) = granted (leb_ℤ current.timestamp stamp) _ h in
    let (due, trusted) = granted (leb_ℤ (max_ℤ ends stamp) (max_ℤ last now)) _ inner in
    let (advanced, at) = trust_node_lem candidate.node (max_ℤ ends stamp) trusted in
    let (after, stamped) = max_ℤ_bounds ends stamp in
    record {
      candidate_node = same;
      advanced = cc;
      honest = leb_ℤ-≤ℤ current.timestamp stamp honest;
      quarantined = subst (λ t. ends ≤ℤ t) (sym at) after;
      stamped = subst (λ t. stamp ≤ℤ t) (sym at) stamped;
      due =
          subst (λ t. t ≤ℤ max_ℤ last now) (sym at)
            (leb_ℤ-≤ℤ (max_ℤ ends stamp) (max_ℤ last now) due);
    }

later_node :
    (node : ℕ)
    → 0 < node
    → (candidate : ℕ) (first x : Result (Option Breadcrumb)) {b : Breadcrumb}
    → (if node == 0 then first else (if candidate == node then x else err invalid_candidate))
      ≡ ok (some b)
    → (candidate ≡ node) × (x ≡ ok (some b))
later_node node later candidate first x h = ground arith

-- If a candidate is trusted and the breadcrumb is not at the first node, then the candidate is the
-- breadcrumb's node, the node before it has an id, whose time is not after the candidate's, and the
-- new breadcrumb is one further; its time is at least the old one and the least time between
-- snapshots, as 64 bits hold their sum, not before the candidate's, and not after both the old one and the clock.
pub maybe_update_breadcrumb-IsTrusted :
    (r : Repository) (b b' : Breadcrumb) (candidate : Encoded) (min_time now : ℤ)
    → 0 < b.untrusted_begin
    → maybe_update_breadcrumb r b candidate min_time now ≡ ok (some b')
    → (current : Encoded) × (get_encoded r (b.untrusted_begin - 1) ≡ ok current)
      × IsTrusted b b' current candidate min_time now
unfolding maybe_update_breadcrumb
maybe_update_breadcrumb-IsTrusted r b b' candidate min_time now later h =
    let (checked, unequal) = later_node b.untrusted_begin later candidate.node _ _ h in
    let (current, got, judged) = >>=-eq-ok (get_encoded r (b.untrusted_begin - 1)) _ unequal in
    (current, got, judge_lem b b' current candidate min_time now checked judged)

leb_ℤ-later :
    (t last now later : ℤ)
    → now ≤ℤ later
    → leb_ℤ t (max_ℤ last now) ≡ true
    → leb_ℤ t (max_ℤ last later) ≡ true
unfolding max_ℤ
leb_ℤ-later t last now later le h = ground arith

judge-later :
    (b b' : Breadcrumb) (current candidate : Encoded) (min_time now later : ℤ)
    → now ≤ℤ later
    → judge b current candidate min_time now ≡ ok (some b')
    → judge b current candidate min_time later ≡ ok (some b')
unfolding judge
judge-later b b' current candidate min_time now later le h =
    let last : ℤ = b.last_trusted_node_authorised_at in
    let trusted_at : ℤ = max_ℤ (wrap_64 (last +ℤ min_time)) candidate.timestamp in
    let (honest, inner) = granted (leb_ℤ current.timestamp candidate.timestamp) _ h in
    let (due, trusted) = granted (leb_ℤ trusted_at (max_ℤ last now)) _ inner in
    let still_due = leb_ℤ-later trusted_at last now later le due in rw (honest, still_due) trusted

-- If the breadcrumb is not at the first node, then a candidate that is trusted at some time is
-- trusted at every later time too, with the same new breadcrumb.
pub maybe_update_breadcrumb-later :
    (r : Repository) (b b' : Breadcrumb) (candidate : Encoded) (min_time now later : ℤ)
    → 0 < b.untrusted_begin
    → now ≤ℤ later
    → maybe_update_breadcrumb r b candidate min_time now ≡ ok (some b')
    → maybe_update_breadcrumb r b candidate min_time later ≡ ok (some b')
unfolding maybe_update_breadcrumb
maybe_update_breadcrumb-later r b b' candidate min_time now later above le h =
    let (checked, unequal) = later_node b.untrusted_begin above candidate.node _ _ h in
    let (current, got, judged) = >>=-eq-ok (get_encoded r (b.untrusted_begin - 1)) _ unequal in
    let not_first : (b.untrusted_begin == 0) ≡ false = ground arith in
    let same : (candidate.node == b.untrusted_begin) ≡ true = ground arith in
    rw (not_first, same, got) (judge-later b b' current candidate min_time now later le judged)

-- ===== src/Trust.antt =====
-- src/Trust.cpp: whether the first untrusted node can be trusted now. A new node is in quarantine
-- for the least time between snapshots, so that nodes are trusted at that rate at most.
--
-- Time points are nanoseconds in 64 bits: a sum wraps around.
pub mod Laws
use diffmonger.Base.{ℕ, ◌-◌, ◌==◌, Bool, Option, none, some, if◌then◌else◌}
use diffmonger.Base.Int.{ℤ, ◌+ℤ◌, leb_ℤ, max_ℤ, wrap_64}
use diffmonger.Error.{Result, ok, err, ◌>>=◌, invalid_candidate}
use diffmonger.Node
use diffmonger.Encoded.{Encoded, Breadcrumb}
use diffmonger.Repository.{Repository, get_encoded}

-- The breadcrumb after the node `node` was trusted.
abbrev pub trust_node : ℕ → ℤ → Result (Option Breadcrumb)
trust_node node trusted_at = do
  next ← Node.next node
  ok (some (record { untrusted_begin = next; last_trusted_node_authorised_at = trusted_at }))

-- The decision on a candidate that follows the snapshot `current`.
unfoldable pub judge : Breadcrumb → Encoded → Encoded → ℤ → ℤ → Result (Option Breadcrumb)
judge breadcrumb current candidate min_time now =
    let effective_now = max_ℤ breadcrumb.last_trusted_node_authorised_at now in
    let quarantine_ends = wrap_64 (breadcrumb.last_trusted_node_authorised_at +ℤ min_time) in
    let trusted_at = max_ℤ quarantine_ends candidate.timestamp in
    if leb_ℤ current.timestamp candidate.timestamp
    then (if leb_ℤ trusted_at effective_now then trust_node candidate.node trusted_at else ok none)
    else ok none

unfoldable pub maybe_update_breadcrumb :
    Repository → Breadcrumb → Encoded → ℤ → ℤ → Result (Option Breadcrumb)
unfolding judge
maybe_update_breadcrumb r breadcrumb candidate min_time now =
    if breadcrumb.untrusted_begin == 0
    then trust_node breadcrumb.untrusted_begin now
    else (if candidate.node == breadcrumb.untrusted_begin
        then (get_encoded r (breadcrumb.untrusted_begin - 1) >>= λ current.
            judge breadcrumb current candidate min_time now)
        else err invalid_candidate)

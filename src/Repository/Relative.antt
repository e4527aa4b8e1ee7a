-- ===== src/Repository/Relative.antt =====
-- src/RepositoryStructure.cpp, `getNodeRelativeToLastTrusted`.
use diffmonger.Base.{
  ℕ, zero, suc, ◌+◌, ◌-◌, ◌%◌, ◌^◌, ◌≤◌, ◌<◌, ◌≡◌, refl, true, false, Option, none, some, leb, ltb,
  if◌then◌else◌, arith,
}
use diffmonger.Base.Int.{ℤ, pos, negsuc, pos_part, neg_part, max_ℤ, ◌+ℤ◌}
use diffmonger.Error.{Result, ok, err, ◌>>=◌, node_too_big}
use diffmonger.Encoded.{Encoded}
use diffmonger.Node
use diffmonger.Serialisation.{to_unsigned}
use diffmonger.Repository.{Repository, try_get_encoded}

-- `offset_prime`
unfoldable pub offset_prime : ℤ → ℤ
offset_prime offset = max_ℤ (negsuc (2 ^ 63 - 2)) offset +ℤ negsuc 0

-- The loop over the untrusted nodes, of so many rounds.
unfoldable pub steps_on : ℕ → Repository → Option Encoded → Result (Option Encoded)
steps_on n r none = ok none
steps_on zero r (some e) = ok (some e)
steps_on (suc n) r (some e) = Node.next e.node >>= λ node. try_get_encoded r node >>= steps_on n r

-- The other branch, back from the breadcrumb's node; the sum is one of words.
unfoldable pub step_back : Repository → ℤ → Result (Option Encoded)
step_back r offset =
    let begin = r.breadcrumb.untrusted_begin in
    if ltb (2 ^ 63 - 1) begin
    then err node_too_big
    else if leb (neg_part (offset_prime offset)) begin
    then try_get_encoded r ((begin + to_unsigned offset) % 2 ^ 64)
    else ok none

unfoldable pub get_node_relative_to_last_trusted : ℤ → Repository → Result (Option Encoded)
get_node_relative_to_last_trusted offset r = elim (ltb 0 (pos_part (offset_prime offset))) [
  | true ↦
      try_get_encoded r r.breadcrumb.untrusted_begin >>= steps_on (pos_part (offset_prime offset)) r
  | false ↦ step_back r offset
]

-- For a breadcrumb's node from 2 on and below 2 ^ 63, offset 0 gives that node, which is the first
-- that is not trusted, and offset -1 the one before it.
pub get_node_relative_to_last_trusted_lem :
    (r : Repository)
    → 2 ≤ r.breadcrumb.untrusted_begin
    → r.breadcrumb.untrusted_begin < 2 ^ 63
    → (get_node_relative_to_last_trusted (pos 0) r ≡ try_get_encoded r r.breadcrumb.untrusted_begin)
      × (get_node_relative_to_last_trusted (negsuc 0) r
          ≡ try_get_encoded r (r.breadcrumb.untrusted_begin - 1))
unfolding get_node_relative_to_last_trusted step_back offset_prime max_ℤ ◌+ℤ◌ to_unsigned
get_node_relative_to_last_trusted_lem r low high =
    let begin = r.breadcrumb.untrusted_begin in
    let fits : ltb (2 ^ 63 - 1) begin ≡ false = ground arith in
    let one : leb 1 begin ≡ true = ground arith in
    let two : leb 2 begin ≡ true = ground arith in
    let same : (begin + 0) % 2 ^ 64 ≡ begin = omega arith in
    let before : (begin + (2 ^ 64 - 1 - 0)) % 2 ^ 64 ≡ begin - 1 = omega arith in
    (rw (step_back, fits, one, same) refl, rw (step_back, fits, two, before) refl)

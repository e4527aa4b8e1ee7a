-- ===== src/CommandLine.antt =====
-- src/CommandLineInterface.cpp: the values of the parameters that are its own.
pub mod Password
pub mod Laws
use diffmonger.Base.{
  ℕ, ◌-◌, ◌*◌, ◌%◌, ◌^◌, ◌==◌, ◌||◌, Bool, true, false, Option, none, some, List, [], ◌∷◌,
  if◌then◌else◌,
}
use diffmonger.Base.Int.{ℤ}
use diffmonger.Base.Text.{codes, bytes_eq}
use diffmonger.Error.{Result, ok, err, ◌>>=◌, bad_value, bug}
use diffmonger.Encoded.{Encoded}
use diffmonger.Repository.{Repository, get_next_snapshot_node}
use diffmonger.Repository.Relative.{get_node_relative_to_last_trusted}
use diffmonger.Parser.TextMap.{Text}
use diffmonger.Parser.Values.{from_chars, unsigned_integer, signed_integer}

-- `DiffmongerNode::ValueT`
pub data NodeValue : Type 0 where
  node : ℕ → NodeValue
  relative_node : ℤ → NodeValue
  latest_node : NodeValue

abbrev pub starts_with : ℕ → Text → Bool
starts_with c [] = false
starts_with c (x ∷ xs) = x == c

-- `DiffmongerNode::process`
unfoldable pub process_node : Text → Result NodeValue
process_node x =
    if bytes_eq x (codes "+max")
    then ok latest_node
    else if starts_with 45 x || starts_with 43 x
    then (signed_integer x >>= λ n. ok (relative_node n))
    else unsigned_integer x >>= λ n. ok (node n)

-- `DiffmongerNode::ValueT::toNode`, with fuel for the next node
abbrev pub node_or_none : Option Encoded → Result ℕ
node_or_none none = err bad_value
node_or_none (some e) = ok e.node

abbrev pub latest_before : ℕ → Result ℕ
latest_before next = if next == 0 then err bad_value else ok (next - 1)

unfoldable pub to_node : ℕ → Repository → NodeValue → Result ℕ
to_node fuel r (node n) = ok n
to_node fuel r (relative_node offset) = get_node_relative_to_last_trusted offset r >>= node_or_none
to_node fuel r latest_node = get_next_snapshot_node fuel r >>= latest_before

-- `span_exc_front`
unfoldable pub span_exc_front : List Text → Result (List Text)
span_exc_front [] = err bug
span_exc_front (x ∷ xs) = ok xs

-- The `switch` of `InitV1::before_subcommand`; the products are of 64 bits.
unfoldable pub in_seconds : ℕ → ℕ → Result ℕ
in_seconds suffix value =
    if suffix == 115
    then ok value
    else if suffix == 109
    then ok (60 * value % 2 ^ 64)
    else if suffix == 104
    then ok (60 * 60 * value % 2 ^ 64)
    else if suffix == 100
    then ok (60 * 60 * 24 * value % 2 ^ 64)
    else if suffix == 119
    then ok (60 * 60 * 24 * 7 * value % 2 ^ 64)
    else err bad_value

-- `min_seconds_between_snapshots`: the number ends just before the last character.
abbrev pub with_suffix : Option (ℕ × Text) → Result ℕ
with_suffix none = err bad_value
with_suffix (some (value, [])) = err bad_value
with_suffix (some (value, suffix ∷ [])) = in_seconds suffix value
with_suffix (some (value, suffix ∷ other ∷ rest)) = err bad_value

unfoldable pub min_seconds_between_snapshots : Text → Result ℕ
min_seconds_between_snapshots text = with_suffix (from_chars (2 ^ 64 - 1) text)

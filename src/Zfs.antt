-- ===== src/Zfs.antt =====
-- src/zfs.hpp and src/zfs.cpp: the names of datasets and snapshots and their guids, which their
-- constructors check, and the commands that are run. A regular expression is the test it stands for.
pub mod Commands
pub mod Names
pub mod Listing
use diffmonger.Base.{
  ℕ, zero, suc, ◌+◌, ◌-◌, ◌*◌, ◌^◌, ◌<◌, ◌≤◌, ◌≡◌, Bool, true, false, not, ◌&&◌, ◌||◌, Option, none,
  some, List, [], ◌∷◌, ◌++◌, length, ltb, leb, ◌==◌, if◌then◌else◌,
}
use diffmonger.Base.Text.{codes, is_digit, is_alpha, all_of, is_empty, bytes_eq, split}
use diffmonger.Base.Text.Decimal.{to_string, digits_value}
use diffmonger.Error.{
  Result, ok, err, ◌>>=◌, invalid_name, out_of_range, assertion_failed, malformed_output, no_fuel,
}

-- `[a-zA-Z0-9_\-\.]`
abbrev pub is_dataset_char : ℕ → Bool
is_dataset_char c = is_alpha c || is_digit c || c == 95 || c == 45 || c == 46

-- `^[a-zA-Z0-9_\-\.]+(/[a-zA-Z0-9_\-\.]+)*$`, where a component has begun or not.
abbrev pub dataset_matches : Bool → List ℕ → Bool
dataset_matches begun [] = begun
dataset_matches begun (c ∷ cs) =
    (is_dataset_char c || (begun && c == 47)) && dataset_matches (is_dataset_char c) cs

-- `DatasetName::DatasetName`; a name is its string.
unfoldable pub dataset_name : List ℕ → Result (List ℕ)
dataset_name str = if dataset_matches false str then ok str else err invalid_name

-- `DatasetName::operator/`
unfoldable pub child_dataset : List ℕ → List ℕ → Result (List ℕ)
unfolding dataset_name
child_dataset dataset suffix = dataset_name (dataset ++ 47 ∷ suffix)

-- `^[a-zA-Z][a-zA-Z0-9_\-\.:]{0,254}$`
abbrev pub is_snapshot_char : ℕ → Bool
is_snapshot_char c = is_dataset_char c || c == 58

abbrev pub snapshot_matches : List ℕ → Bool
snapshot_matches [] = false
snapshot_matches (c ∷ cs) = is_alpha c && (all_of is_snapshot_char cs && leb (length cs) 254)

-- `SnapshotName::SnapshotName`
unfoldable pub snapshot_name : List ℕ → Result (List ℕ)
snapshot_name str = if snapshot_matches str then ok str else err invalid_name

-- `std::stoull` of digits
abbrev pub stoull : List ℕ → Result ℕ
stoull str =
    if is_empty str
    then err invalid_name
    else if ltb (digits_value 0 str) (2 ^ 64)
    then ok (digits_value 0 str)
    else err out_of_range

-- `SnapshotGuid::SnapshotGuid`, with its assertion that the string is the canonical one.
abbrev pub checked_guid : List ℕ → ℕ → Result ℕ
checked_guid guid out =
    if out == 0
    then err invalid_name
    else if bytes_eq (to_string out) guid
    then ok out
    else err assertion_failed

unfoldable pub snapshot_guid : List ℕ → Result ℕ
snapshot_guid guid =
    if all_of is_digit guid then stoull guid >>= checked_guid guid else err invalid_name

-- `DatasetSnapshotName`
pub record DatasetSnapshotName : Type 0 where
  pub dataset : List ℕ
  pub snapshot : List ℕ

-- `DatasetSnapshotName::str`
unfoldable pub full_name : DatasetSnapshotName → List ℕ
full_name n = n.dataset ++ 64 ∷ n.snapshot

-- `DatasetSnapshotName::fromString`
abbrev pub both_names : List ℕ × List ℕ → Result DatasetSnapshotName
both_names (before, after) = do
  dataset ← dataset_name before
  snapshot ← snapshot_name after
  ok (record { dataset = dataset; snapshot = snapshot })

unfoldable pub from_string : List ℕ → Result DatasetSnapshotName
from_string str = elim (split 64 str) [ none ↦ err invalid_name | some parts ↦ both_names parts ]

-- `SnapshotNameGuid`
pub record SnapshotNameGuid : Type 0 where
  pub name : List ℕ
  pub guid : ℕ

-- A line of `zfs list -H -o name,guid`, as `zfs_get_snapshots` reads it.
abbrev pub of_dataset : List ℕ → DatasetSnapshotName → ℕ → Result SnapshotNameGuid
of_dataset dataset n guid =
    if bytes_eq n.dataset dataset
    then ok (record { name = n.snapshot; guid = guid })
    else err malformed_output

abbrev pub name_and_guid : List ℕ → List ℕ × List ℕ → Result SnapshotNameGuid
name_and_guid dataset (name, guid_str) = do
  n ← from_string name
  guid ← snapshot_guid guid_str
  of_dataset dataset n guid

unfoldable pub parse_line : List ℕ → List ℕ → Result SnapshotNameGuid
parse_line dataset line = elim (split 9 line) [
  | none ↦ err malformed_output
  | some parts ↦ name_and_guid dataset parts
]

-- The loop of `zfs_get_snapshots` over the output, with fuel for its lines.
unfoldable pub parse_lines : ℕ → List ℕ → List ℕ → Result (List SnapshotNameGuid)
parse_lines fuel dataset [] = ok []
parse_lines zero dataset (c ∷ str) = err no_fuel
parse_lines (suc fuel) dataset (c ∷ str) = elim (split 10 (c ∷ str)) [
  | none ↦ err malformed_output
  | some (line, rest) ↦
      if is_empty line
      then err malformed_output
      else (parse_line dataset line >>= λ entry.
          parse_lines fuel dataset rest >>= λ entries. ok (entry ∷ entries))
]

-- Every line has a newline, so that the length of the output is enough.
unfoldable pub parse_snapshots : List ℕ → List ℕ → Result (List SnapshotNameGuid)
parse_snapshots dataset str = parse_lines (length str) dataset str

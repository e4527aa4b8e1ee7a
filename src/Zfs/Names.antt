-- ===== src/Zfs/Names.antt =====
-- The names and guids of snapshots are read back from their strings.
use diffmonger.Base.{
  ℕ, ◌^◌, ◌<◌, ◌≡◌, refl, Bool, true, false, not, List, [], ◌∷◌, &&_true, ltb, ◌==◌, arith,
}
use diffmonger.Base.Text.{is_alpha, all_of, bytes_eq_refl, split-append}
use diffmonger.Base.Text.Decimal.{
  to_string, digits_value-to_string, to_string-digits, to_string-nonempty,
}
use diffmonger.Error.{ok}
use diffmonger.Zfs.{
  is_dataset_char, is_snapshot_char, dataset_matches, dataset_name, snapshot_matches, snapshot_name,
  snapshot_guid, DatasetSnapshotName, full_name, from_string,
}

-- A guid that is a word and not zero is read back from its digits.
pub snapshot_guid-to_string :
    (guid : ℕ) → 0 < guid → guid < 2 ^ 64 → snapshot_guid (to_string guid) ≡ ok guid
unfolding snapshot_guid
snapshot_guid-to_string guid pos small =
    let digits = to_string-digits guid in
    let there = to_string-nonempty guid in
    let value = digits_value-to_string guid in
    let fits : ltb guid (2 ^ 64) ≡ true = ground arith in
    let nonzero : (guid == 0) ≡ false = ground arith in
    let same = bytes_eq_refl (to_string guid) in rw (digits, there, value, fits, nonzero, same) refl

-- A character that no name has: the separators of the program's text formats.
pub record IsSeparator (c : ℕ) : Type 0 where
  pub not_in_dataset : is_dataset_char c ≡ false
  pub not_in_snapshot : is_snapshot_char c ≡ false
  pub not_slash : (c == 47) ≡ false

pub dataset-IsSeparator :
    (sep : ℕ) (begun : Bool) (str : List ℕ)
    → IsSeparator sep
    → dataset_matches begun str ≡ true
    → all_of (λ c. not (c == sep)) str ≡ true
dataset-IsSeparator sep begun [] s h = refl
dataset-IsSeparator sep begun (c ∷ cs) s h =
    let (here, more) = &&_true _ (dataset_matches (is_dataset_char c) cs) h in
    let other : (c == sep) ≡ false = ground (arith, s.not_in_dataset, s.not_slash) in
    rw (other, dataset-IsSeparator sep (is_dataset_char c) cs s more) refl

all_other :
    (sep : ℕ) (str : List ℕ)
    → IsSeparator sep
    → all_of is_snapshot_char str ≡ true
    → all_of (λ c. not (c == sep)) str ≡ true
all_other sep [] s h = refl
all_other sep (c ∷ cs) s h =
    let (here, more) = &&_true (is_snapshot_char c) (all_of is_snapshot_char cs) h in
    let other : (c == sep) ≡ false = ground (arith, s.not_in_snapshot) in
    rw (other, all_other sep cs s more) refl

pub snapshot-IsSeparator :
    (sep : ℕ) (str : List ℕ)
    → IsSeparator sep
    → snapshot_matches str ≡ true
    → all_of (λ c. not (c == sep)) str ≡ true
snapshot-IsSeparator sep [] s h = refl
snapshot-IsSeparator sep (c ∷ cs) s h =
    let (letter, rest) = &&_true (is_alpha c) _ h in
    let (chars, short) = &&_true (all_of is_snapshot_char cs) _ rest in
    let other : (c == sep) ≡ false = ground (arith, s.not_in_snapshot) in
    rw (other, all_other sep cs s chars) refl

at-IsSeparator : IsSeparator 64
at-IsSeparator = record { not_in_dataset = refl; not_in_snapshot = refl; not_slash = refl }

-- The parts of a full name are found again.
pub from_string-full_name :
    (n : DatasetSnapshotName)
    → dataset_matches false n.dataset ≡ true
    → snapshot_matches n.snapshot ≡ true
    → from_string (full_name n) ≡ ok n
unfolding from_string full_name dataset_name snapshot_name
from_string-full_name n good_dataset good_snapshot =
    let apart =
      split-append 64 n.dataset n.snapshot
        (dataset-IsSeparator 64 false n.dataset at-IsSeparator good_dataset) in
    rw (from_string, apart, good_dataset, good_snapshot) refl

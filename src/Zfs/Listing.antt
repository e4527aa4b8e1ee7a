-- ===== src/Zfs/Listing.antt =====
-- src/zfs.cpp, `zfs_get_snapshots`: what it makes of the output that `zfs list` documents.
use diffmonger.Base.{
  ℕ, zero, suc, ◌^◌, ◌<◌, ◌≤◌, ◌≡◌, refl, true, false, not, List, [], ◌∷◌, ◌++◌, length,
  length-append, ◌==◌, arith,
}
use diffmonger.Base.Text.{
  is_digit, all_of, all_of-append, all_of_mono, is_empty, bytes_eq_refl, split-append,
}
use diffmonger.Base.Text.Decimal.{to_string, to_string-digits}
use diffmonger.Error.{ok}
use diffmonger.Serialisation.Laws.{All}
use diffmonger.Zfs.{
  dataset_matches, snapshot_matches, DatasetSnapshotName, full_name, SnapshotNameGuid, parse_line,
  parse_lines, parse_snapshots,
}
use diffmonger.Zfs.Names.{
  IsSeparator, dataset-IsSeparator, snapshot-IsSeparator, snapshot_guid-to_string,
  from_string-full_name,
}

-- What `zfs list -H -o name,guid` prints of a snapshot: the two fields with a tab between them.
pub listing_line : List ℕ → SnapshotNameGuid → List ℕ
listing_line dataset e =
    full_name (record { dataset = dataset; snapshot = e.name }) ++ 9 ∷ to_string e.guid

pub listing : List ℕ → List SnapshotNameGuid → List ℕ
listing dataset [] = []
listing dataset (e ∷ entries) = listing_line dataset e ++ 10 ∷ listing dataset entries

-- A name that the constructor accepts, and a guid that is a word and not zero.
pub record IsEntry (e : SnapshotNameGuid) : Type 0 where
  pub name_ok : snapshot_matches e.name ≡ true
  pub nonzero : 0 < e.guid
  pub small : e.guid < 2 ^ 64

tab-IsSeparator : IsSeparator 9
tab-IsSeparator = record { not_in_dataset = refl; not_in_snapshot = refl; not_slash = refl }

newline-IsSeparator : IsSeparator 10
newline-IsSeparator = record { not_in_dataset = refl; not_in_snapshot = refl; not_slash = refl }

full_name-IsSeparator :
    (sep : ℕ) (n : DatasetSnapshotName)
    → IsSeparator sep
    → sep < 48
    → dataset_matches false n.dataset ≡ true
    → snapshot_matches n.snapshot ≡ true
    → all_of (λ c. not (c == sep)) (full_name n) ≡ true
unfolding full_name
full_name-IsSeparator sep n s low good_dataset good_snapshot =
    let at : not (64 == sep) ≡ true = ground arith in
    all_of-append (λ c. not (c == sep)) n.dataset (64 ∷ n.snapshot)
      (dataset-IsSeparator sep false n.dataset s good_dataset)
      (rw at (snapshot-IsSeparator sep n.snapshot s good_snapshot))

digits_other : (c : ℕ) → is_digit c ≡ true → not (c == 10) ≡ true
digits_other c h = ground arith

module _ (dataset : List ℕ) (e : SnapshotNameGuid) (good : dataset_matches false dataset ≡ true)
    (entry : IsEntry e) where
  name : DatasetSnapshotName
  name = record { dataset = dataset; snapshot = e.name }

  parse_line-listing_line : parse_line dataset (listing_line dataset e) ≡ ok e
  unfolding parse_line listing_line name
  parse_line-listing_line =
      let tab =
        split-append 9 (full_name name) (to_string e.guid)
          (full_name-IsSeparator 9 name tab-IsSeparator (omega arith) good entry.name_ok) in
      let named = from_string-full_name name good entry.name_ok in
      let read = snapshot_guid-to_string e.guid entry.nonzero entry.small in
      let own = bytes_eq_refl dataset in rw (parse_line, tab, named, read, own) refl

  no_newline : all_of (λ c. not (c == 10)) (listing_line dataset e) ≡ true
  unfolding listing_line name
  no_newline =
      all_of-append (λ c. not (c == 10)) (full_name name) (9 ∷ to_string e.guid)
        (full_name-IsSeparator 10 name newline-IsSeparator (omega arith) good entry.name_ok)
        (all_of_mono is_digit (λ c. not (c == 10)) (to_string e.guid) digits_other
          (to_string-digits e.guid))

-- One round of the loop.
parse_lines-cons :
    (fuel : ℕ) (dataset line rest : List ℕ) (e : SnapshotNameGuid) (entries : List SnapshotNameGuid)
    → is_empty line ≡ false
    → all_of (λ c. not (c == 10)) line ≡ true
    → parse_line dataset line ≡ ok e
    → parse_lines fuel dataset rest ≡ ok entries
    → parse_lines (suc fuel) dataset (line ++ 10 ∷ rest) ≡ ok (e ∷ entries)
unfolding parse_lines
parse_lines-cons fuel dataset [] rest e entries there plain read more = cc
parse_lines-cons fuel dataset (c ∷ cs) rest e entries there plain read more =
    rw (parse_lines, split-append 10 (c ∷ cs) rest plain, read, more) refl

line_there :
    (dataset : List ℕ) (e : SnapshotNameGuid)
    → dataset_matches false dataset ≡ true
    → is_empty (listing_line dataset e) ≡ false
unfolding listing_line full_name
line_there [] e good = cc
line_there (c ∷ cs) e good = refl

parse_lines-listing :
    (fuel : ℕ) (dataset : List ℕ) (entries : List SnapshotNameGuid)
    → length entries ≤ fuel
    → dataset_matches false dataset ≡ true
    → All IsEntry entries
    → parse_lines fuel dataset (listing dataset entries) ≡ ok entries
unfolding listing
parse_lines-listing zero dataset [] h good all = unfold parse_lines in refl
parse_lines-listing (suc fuel) dataset [] h good all = unfold parse_lines in refl
parse_lines-listing zero dataset (e ∷ entries) h good all = absurd (omega arith)
parse_lines-listing (suc fuel) dataset (e ∷ entries) h good all =
    parse_lines-cons fuel dataset (listing_line dataset e) (listing dataset entries) e entries
      (line_there dataset e good) (no_newline dataset e good all.0)
      (parse_line-listing_line dataset e good all.0)
      (parse_lines-listing fuel dataset entries (omega arith) good all.1)

length-listing :
    (dataset : List ℕ) (entries : List SnapshotNameGuid)
    → length entries ≤ length (listing dataset entries)
unfolding listing
length-listing dataset [] = omega arith
length-listing dataset (e ∷ entries) = omega (
  arith,
  length-listing dataset entries,
  length-append {0} (listing_line dataset e) (10 ∷ listing dataset entries),
)

-- From the lines that `zfs list` prints of snapshots whose dataset has a valid name, whose own names
-- are valid and whose guids are words other than zero, `parse_snapshots` gets just these snapshots.
pub parse_snapshots-listing :
    (dataset : List ℕ) (entries : List SnapshotNameGuid)
    → dataset_matches false dataset ≡ true
    → All IsEntry entries
    → parse_snapshots dataset (listing dataset entries) ≡ ok entries
unfolding parse_snapshots
parse_snapshots-listing dataset entries good all =
    parse_lines-listing (length (listing dataset entries)) dataset entries
      (length-listing dataset entries) good all

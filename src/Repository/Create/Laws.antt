-- ===== src/Repository/Create/Laws.antt =====
-- src/RepositoryStructure.cpp: a repository that was created, and opened again.
use mathlib.Core.List.{append-nil}
use diffmonger.Base.{ℕ, ◌≡◌, refl, sym, ap, ◌∙◌, false, none, [], length}
use diffmonger.Base.Text.{is_empty}
use diffmonger.Error.{ok, err, repository_exists}
use diffmonger.Serialisation.{byte_codec}
use diffmonger.Serialisation.Laws.{Reads, array_codec-IsCodec, AnyByte, byte_codec-IsCodec}
use diffmonger.Uuid.{Uuid, uuid_codec}
use diffmonger.Encoded.{InitArgs, serialise_initargs, deserialise_initargs}
use diffmonger.Encoded.Laws.{
  ReadsFile, FitsInitArgs, any_bytes, deserialise_initargs-serialise_initargs,
}
use diffmonger.Repository.{Repository}
use diffmonger.Repository.Create.{
  Directory, earliest, open_repository, get_repository_uuid, write_files, create_repository,
}

-- Nothing is in the directory.
pub record IsVacant (d : Directory) : Type 0 where
  pub free : d.occupied ≡ false
  pub no_breadcrumb : d.breadcrumb_file ≡ none
  pub no_snapshots : (x : ℕ) → d.snapshots x ≡ none

-- A repository that has no node yet.
pub record IsNew (r : Repository) : Type 0 where
  pub no_nodes : (x : ℕ) → r.snapshots x ≡ none
  pub at_root : r.breadcrumb.untrusted_begin ≡ 0
  pub idle : r.checked_out ≡ none

-- If the directory is empty, there are initargs, fewer than 2 ^ 64 and each shorter than that, and
-- both UUIDs have 16 bytes, then `createRepository` returns a new repository with the initargs;
-- the directory that it leaves can be opened, with the same result, and has the UUID, and a second
-- `createRepository` there with these initargs throws and changes nothing.
pub create_repository-IsNew :
    (uuid : Uuid) (a : InitArgs) (d : Directory)
    → length uuid ≡ 16
    → FitsInitArgs a
    → is_empty a.initargs ≡ false
    → IsVacant d
    → (r : Repository) × (d' : Directory) × (create_repository uuid a d ≡ (ok (a, r), d'))
      × IsNew r
      × (open_repository d' ≡ ok (a, r))
      × (get_repository_uuid d' ≡ ok uuid)
      × ((uuid' : Uuid) → create_repository uuid' a d' ≡ (err repository_exists, d'))
unfolding create_repository open_repository get_repository_uuid write_files uuid_codec
create_repository-IsNew uuid a d sixteen fits given vacant =
    let r : Repository = record {
      snapshots = d.snapshots;
      temporary = d.temporary;
      checked_out = none;
      handles = 0;
      breadcrumb = record { untrusted_begin = 0; last_trusted_node_authorised_at = earliest };
      breadcrumb_file = d.breadcrumb_file;
    } in
    let d' = write_files uuid a d in
    let read : deserialise_initargs (serialise_initargs a) ≡ ok a =
      ap deserialise_initargs (sym (append-nil (serialise_initargs a)))
      ∙ ReadsFile.round_trip (deserialise_initargs-serialise_initargs a fits) [] in
    let opened : open_repository d' ≡ ok (a, r) =
      rw (open_repository, read, given, vacant.no_breadcrumb) refl in
    let own =
      ap uuid_codec.deserialise (sym (append-nil (uuid_codec.serialise uuid)))
      ∙ Reads.round_trip
          ((array_codec-IsCodec byte_codec AnyByte byte_codec-IsCodec 16).reads uuid
            (sixteen, any_bytes uuid))
          [] in
    (
      r,
      d',
      rw (create_repository, given, vacant.free) (ap (λ x. (x, d')) opened),
      record { no_nodes = vacant.no_snapshots; at_root = refl; idle = refl },
      opened,
      rw (get_repository_uuid, own) refl,
      λ uuid'. rw (create_repository, given) refl,
    )

-- ===== src/Repository/Create.antt =====
-- src/RepositoryStructure.cpp: `createRepository`, and the constructor, which opens a repository. The
-- bytes of the random UUID are an argument, and the lock is had at once.
pub mod Laws
use diffmonger.Base.{
  ℕ, ◌-◌, ◌^◌, Bool, true, false, Option, none, some, List, [], ◌∷◌, if◌then◌else◌,
}
use diffmonger.Base.Int.{ℤ, negsuc}
use diffmonger.Base.Text.{is_empty}
use diffmonger.Error.{Result, ok, err, ◌>>=◌, no_such_file, repository_exists, empty_initargs}
use diffmonger.Uuid.{Uuid, uuid_codec}
use diffmonger.Encoded.{
  Breadcrumb, deserialise_breadcrumb, InitArgs, serialise_initargs, deserialise_initargs,
}
use diffmonger.Repository.{Repository, NodeDir}

-- The directory of a repository; `occupied` is whether it is there and has anything in it.
pub record Directory : Type 0 where
  pub occupied : Bool
  pub uuid_file : Option (List ℕ)
  pub initargs_file : Option (List ℕ)
  pub breadcrumb_file : Option (List ℕ)
  pub snapshots : ℕ → Option NodeDir
  pub temporary : Option NodeDir

-- `ioutil::readfile`
abbrev pub file_bytes : Option (List ℕ) → Result (List ℕ)
file_bytes none = err no_such_file
file_bytes (some bytes) = ok bytes

-- `timestamp_t::min()`
abbrev pub earliest : ℤ
earliest = negsuc (2 ^ 63 - 1)

abbrev pub read_breadcrumb : Option (List ℕ) → Result Breadcrumb
read_breadcrumb none =
    ok (record { untrusted_begin = 0; last_trusted_node_authorised_at = earliest })
read_breadcrumb (some bytes) = deserialise_breadcrumb bytes

-- The constructor: the initargs, and the state that operations work on.
abbrev pub valid_initargs : InitArgs → Result InitArgs
valid_initargs a = if is_empty a.initargs then err empty_initargs else ok a

unfoldable pub open_repository : Directory → Result (InitArgs × Repository)
open_repository d = do
  bytes ← file_bytes d.initargs_file
  read ← deserialise_initargs bytes
  initargs ← valid_initargs read
  breadcrumb ← read_breadcrumb d.breadcrumb_file
  ok (
    initargs,
    record {
      snapshots = d.snapshots;
      temporary = d.temporary;
      checked_out = none;
      handles = 0;
      breadcrumb = breadcrumb;
      breadcrumb_file = d.breadcrumb_file;
    },
  )

-- `getRepositoryUuid`
unfoldable pub get_repository_uuid : Directory → Result Uuid
get_repository_uuid d = do
  bytes ← file_bytes d.uuid_file
  (uuid, rest) ← uuid_codec.deserialise bytes
  ok uuid

-- The files that `createRepository` writes.
unfoldable pub write_files : Uuid → InitArgs → Directory → Directory
write_files uuid a d = record d {
  occupied = true;
  uuid_file = some (uuid_codec.serialise uuid);
  initargs_file = some (serialise_initargs a);
}

unfoldable pub create_repository :
    Uuid → InitArgs → Directory → Result (InitArgs × Repository) × Directory
create_repository uuid a d = elim (is_empty a.initargs) [
  | true ↦ (err empty_initargs, d)
  | false ↦ elim d.occupied [
    | true ↦ (err repository_exists, d)
    | false ↦ let d' = write_files uuid a d in (open_repository d', d')
  ]
]

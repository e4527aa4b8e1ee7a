-- ===== src/Error.antt =====
-- The exceptions that the program throws, one constructor for each place or kind, and the results
-- of code that may throw.
use diffmonger.Base.{◌≡◌, ◌⊎◌, inl, inr, refl}

pub data Error : Type 0 where
  -- "Insufficient data (corrupt stream)" of the deserialiser, and "Unexpected EOF" of
  -- `ioutil::readBytesExact`
  corrupt_stream : Error
  -- "Node too big" of a node, or of a walk of the tree
  node_too_big : Error
  -- the `std::invalid_argument` of `time_of_demise(0)`
  undefined_demise : Error
  -- a failed `assert`
  assertion_failed : Error
  -- the `std::system_error` with ENOENT of a file that is not there
  no_such_file : Error
  -- "Node mismatch in repository: repository in invalid state"
  node_mismatch : Error
  -- "is_trusted: invalid candidate"
  invalid_candidate : Error
  -- "TemporarySnapshot already checked out"
  already_checked_out : Error
  -- "Invalid TemporarySnapshot: owner mismatch"
  owner_mismatch : Error
  -- "Node ... already exists in repository; this is unexpected"
  node_exists : Error
  -- "Cannot import snapshot: node already exists"
  import_exists : Error
  -- `BackendDriver::SnapshotDoesNotExist` and `SnapshotInvalid`
  snapshot_does_not_exist : Error
  snapshot_invalid : Error
  -- "Driver identity or version mismatch when decoding encoded snapshot"
  driver_mismatch : Error
  -- "Version mismatch" of a key pair
  version_mismatch : Error
  -- a function of libsodium that failed
  sodium_failed : Error
  -- "Password needed but not given"
  password_needed : Error
  -- "Decryption key not present in any key slot"
  no_key_slot : Error
  -- "Invalid data (tag) while decrypting"
  invalid_tag : Error
  -- a name, guid or command that a constructor of src/zfs.cpp refuses
  invalid_name : Error
  -- an external command that failed (`command_failed`, a `std::runtime_error`)
  command_failed : Error
  -- an external command that could not be run (a `std::system_error`)
  not_run : Error
  -- output of an external command that is not as it should be (a `std::runtime_error`)
  malformed_output : Error
  -- a number too large for `std::stoull` (`std::out_of_range`)
  out_of_range : Error
  -- a `std::logic_error` that reports a bug
  bug : Error
  -- the `std::system_error` with EEXIST of a key slot that is taken
  slot_taken : Error
  -- `argument_error` of the command line
  argument_error : Error
  -- "Duplicate subcommand" and "Duplicate parameter"
  duplicate : Error
  -- a `std::runtime_error` about a value of the command line, or a node that is not there
  bad_value : Error
  -- "Repository already exists"
  repository_exists : Error
  -- "Repository initargs were non-valid (empty)", and the `std::invalid_argument` for such
  empty_initargs : Error
  -- a loop of the model that ran out of fuel; the program throws no such thing
  no_fuel : Error

pub data Result {ℓ} (A : Type ℓ) : Type ℓ where
  err : Error → Result A
  ok : A → Result A

-- Sequencing of code that may throw.
infixl 5 ◌>>=◌
abbrev pub ◌>>=◌ {ℓ ℓ'} : {A : Type ℓ} → {B : Type ℓ'} → Result A → (A → Result B) → Result B
err x >>= next = err x
ok a >>= next = next a

-- A sequence that succeeds, taken apart.
pub >>=-eq-ok {ℓ ℓ'} :
    {A : Type ℓ}
    → {B : Type ℓ'} → {b : B} → (first : Result A) (next : A → Result B) → (first >>= next) ≡ ok b
    → (a : A) × (first ≡ ok a) × (next a ≡ ok b)
>>=-eq-ok (err x) next h = cc
>>=-eq-ok (ok a) next h = (a, refl, h)

pub ok_injective {ℓ} : {A : Type ℓ} {a b : A} → ok a ≡ ok b → a ≡ b
ok_injective h = cc

pub Result-cases {ℓ} :
    {A : Type ℓ} (x : Result A) → ((e : Error) × (x ≡ err e)) ⊎ ((a : A) × (x ≡ ok a))
Result-cases (err e) = inl (e, refl)
Result-cases (ok a) = inr (a, refl)

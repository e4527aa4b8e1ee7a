-- ===== src/Encoded.antt =====
-- The serialised forms of the repository's files: `BackendDriver::SnapshotId::Encoded` (src/
-- BackendDriver.cpp), which is the file `id` of a node, and the breadcrumb and the initargs of
-- src/RepositoryStructure.cpp.
pub mod Laws
use diffmonger.Base.{ℕ, List, ◌++◌}
use diffmonger.Base.Int.{ℤ}
use diffmonger.Error.{Result, ok, err, ◌>>=◌}
use diffmonger.Serialisation.{
  Codec, u64_codec, time_codec, byte_codec, string_codec, vector_codec, array_codec,
}

pub record Encoded : Type 0 where
  pub bytes : List ℕ
  pub node : ℕ
  pub timestamp : ℤ

unfoldable pub serialise : Encoded → List ℕ
serialise e =
    (vector_codec byte_codec).serialise e.bytes
    ++ (u64_codec.serialise e.node ++ time_codec.serialise e.timestamp)

-- What follows the time point is not looked at.
unfoldable pub deserialise : List ℕ → Result Encoded
deserialise input = do
  (bytes, after_bytes) ← (vector_codec byte_codec).deserialise input
  (node, after_node) ← u64_codec.deserialise after_bytes
  (timestamp, after_timestamp) ← time_codec.deserialise after_node
  ok (record { bytes = bytes; node = node; timestamp = timestamp })

-- `RepositoryStructure::Breadcrumb`
pub record Breadcrumb : Type 0 where
  pub untrusted_begin : ℕ
  pub last_trusted_node_authorised_at : ℤ

unfoldable pub serialise_breadcrumb : Breadcrumb → List ℕ
serialise_breadcrumb b =
    u64_codec.serialise b.untrusted_begin ++ time_codec.serialise b.last_trusted_node_authorised_at

unfoldable pub deserialise_breadcrumb : List ℕ → Result Breadcrumb
deserialise_breadcrumb input = do
  (untrusted_begin, after_node) ← u64_codec.deserialise input
  (authorised_at, after_time) ← time_codec.deserialise after_node
  ok (record { untrusted_begin = untrusted_begin; last_trusted_node_authorised_at = authorised_at })

-- The file `initargs`: the UUID of the structure's format, then the arguments, which are strings.
pub record InitArgs : Type 0 where
  pub format_uuid : List ℕ
  pub initargs : List (List ℕ)

unfoldable pub serialise_initargs : InitArgs → List ℕ
serialise_initargs a =
    (array_codec byte_codec 16).serialise a.format_uuid
    ++ (vector_codec string_codec).serialise a.initargs

unfoldable pub deserialise_initargs : List ℕ → Result InitArgs
deserialise_initargs input = do
  (format_uuid, after_uuid) ← (array_codec byte_codec 16).deserialise input
  (initargs, after_args) ← (vector_codec string_codec).deserialise after_uuid
  ok (record { format_uuid = format_uuid; initargs = initargs })

-- ===== src/Examples/Files.antt =====
-- The serialised files of src/RepositoryStructure.cpp and src/BackendDriver.cpp, at small contents.
use diffmonger.Base.{[], ◌∷◌, arith}
use diffmonger.Base.Int.{pos, negsuc}
use diffmonger.Encoded.{Encoded, Breadcrumb, InitArgs, serialise, deserialise}
use diffmonger.Encoded.Laws.{ReadsFile, deserialise-serialise}

abbrev an_id : Encoded
an_id = record { bytes = 7 ∷ 0 ∷ 255 ∷ []; node = 258; timestamp = negsuc 4 }

abbrev a_breadcrumb : Breadcrumb
a_breadcrumb = record { untrusted_begin = 13; last_trusted_node_authorised_at = pos 1700000000 }

abbrev some_args : InitArgs
some_args = record {
  format_uuid = 1 ∷ 2 ∷ 3 ∷ 4 ∷ 5 ∷ 6 ∷ 7 ∷ 8 ∷ 9 ∷ 10 ∷ 11 ∷ 12 ∷ 13 ∷ 14 ∷ 15 ∷ 16 ∷ [];
  initargs = (122 ∷ 102 ∷ 115 ∷ []) ∷ [] ∷ [];
}

deserialise-serialise_example : ReadsFile deserialise (serialise an_id) an_id
deserialise-serialise_example = deserialise-serialise an_id (omega arith, omega arith, omega arith)

-- ===== src/ZfsDriver/Ids.antt =====
-- src/ZfsDriver.cpp: the encoded identity of a snapshot, and the names that the driver makes.
use mathlib.Core.List.{append-nil}
use diffmonger.Base.{
  ℕ, ◌+◌, ◌^◌, ◌<◌, ◌≤◌, ◌≡◌, refl, sym, ap, ◌∙◌, Bool, true, false, if◌then◌else◌, Option, some,
  List, [], ◌∷◌, ◌++◌, length, length-append, drop, &&_true, not, leb, ◌==◌, arith,
}
use diffmonger.Base.Text.{
  is_digit, is_alpha, all_of, all_of-append, all_of_mono, bytes_eq_refl, split, split-append,
}
use diffmonger.Base.Text.Decimal.{
  to_string, to_string-digits, length-to_string, digits_value, digits_value-to_string,
}
use diffmonger.Base.Int.{ℤ}
use diffmonger.Error.{ok, err, invalid_name}
use diffmonger.Serialisation.{to_bytes, array_codec, byte_codec, u64_codec, string_codec}
use diffmonger.Serialisation.Bytes.{length-to_bytes}
use diffmonger.Serialisation.Laws.{
  Reads, All, AnyByte, byte_codec-IsCodec, array_codec-IsCodec, string_codec-IsCodec,
}
use diffmonger.Uuid.{
  Uuid, uuid_codec, ascii, IsByte, is_hex, length-ascii, ascii-is_hex, ascii-injective,
}
use diffmonger.Zfs.{is_snapshot_char, snapshot_matches, snapshot_name}
use diffmonger.Zfs.Names.{snapshot_guid-to_string}
use diffmonger.ZfsDriver.{
  SnapshotId, driver_identity_and_version, encoded, parse_no_verify, node_name,
}

-- What the constructors of an id's parts have checked.
pub record IsId (id : SnapshotId) : Type 0 where
  pub nonzero : 0 < id.guid
  pub small : id.guid < 2 ^ 64
  pub name_ok : snapshot_matches id.name ≡ true

snapshot_name-length : (name : List ℕ) → snapshot_matches name ≡ true → length name ≤ 255
snapshot_name-length [] h = omega arith
snapshot_name-length (c ∷ cs) h =
    let (letter, rest) = &&_true (is_alpha c) _ h in
    let (chars, short) = &&_true (all_of is_snapshot_char cs) _ rest in ground (arith, short)

version-Reads :
    Reads uuid_codec.deserialise
      (uuid_codec.serialise driver_identity_and_version)
      driver_identity_and_version
unfolding uuid_codec driver_identity_and_version
version-Reads =
    (array_codec-IsCodec byte_codec AnyByte byte_codec-IsCodec 16).reads driver_identity_and_version
      (
        refl,
        (
          tt,
          (
            tt,
            (tt, (tt, (tt, (tt, (tt, (tt, (tt, (tt, (tt, (tt, (tt, (tt, (tt, (tt, tt)))))))))))))),
          ),
        ),
      )

-- The encoded form of an id whose parts are valid is decoded to that id.
pub parse_no_verify-encoded : (id : SnapshotId) → IsId id → parse_no_verify (encoded id) ≡ ok id
unfolding parse_no_verify encoded snapshot_name
parse_no_verify-encoded id valid =
    let guid =
      string_codec-IsCodec.reads (to_string id.guid)
        (omega (arith, length-to_string id.guid valid.small)) in
    let name =
      string_codec-IsCodec.reads id.name
        (omega (arith, snapshot_name-length id.name valid.name_ok)) in
    let last : string_codec.deserialise (string_codec.serialise id.name) ≡ ok (id.name, []) =
      ap string_codec.deserialise (sym (append-nil (string_codec.serialise id.name)))
      ∙ name.round_trip [] in
    rw
      (
        parse_no_verify,
        version-Reads.round_trip
            (string_codec.serialise (to_string id.guid) ++ string_codec.serialise id.name),
        guid.round_trip (string_codec.serialise id.name),
        last,
        bytes_eq_refl driver_identity_and_version,
        snapshot_guid-to_string id.guid valid.nonzero valid.small,
        valid.name_ok,
      )
      refl

digit_fits : (c : ℕ) → is_digit c ≡ true → is_snapshot_char c ≡ true
digit_fits c h = ground arith

hex_fits : (c : ℕ) → is_hex c ≡ true → is_snapshot_char c ≡ true
hex_fits c h = ground arith

-- The name of a node's snapshot, for a node and a UUID of the sizes of their types, is one that the
-- constructor of snapshot names accepts.
pub snapshot_name-node_name :
    (node : ℕ) (uuid : Uuid)
    → node < 2 ^ 64
    → length uuid ≡ 16
    → snapshot_name (node_name node uuid) ≡ ok (node_name node uuid)
unfolding snapshot_name node_name
snapshot_name-node_name node uuid small size =
    let tail = to_string node ++ 45 ∷ ascii uuid in
    let chars : all_of is_snapshot_char tail ≡ true =
      all_of-append is_snapshot_char (to_string node) (45 ∷ ascii uuid)
        (all_of_mono is_digit is_snapshot_char (to_string node) digit_fits (to_string-digits node))
        (all_of_mono is_hex is_snapshot_char (ascii uuid) hex_fits (ascii-is_hex uuid)) in
    let long : length tail ≤ 53 = omega (
      arith,
      length-append {0} (to_string node) (45 ∷ ascii uuid),
      length-to_string node small,
      length-ascii uuid,
    ) in
    let short : leb (length (drop 1 (node_name node uuid))) 254 ≡ true = ground (arith, long) in
    rw (snapshot_name, chars, short) refl

accepted :
    (c : Bool) (name name' : List ℕ)
    → (if c then ok name else err invalid_name) ≡ ok name'
    → c ≡ true
accepted true name name' h = refl
accepted false name name' h = cc

pub node_name-IsId :
    (node guid : ℕ) (uuid : Uuid) (now : ℤ)
    → node < 2 ^ 64
    → length uuid ≡ 16
    → 0 < guid
    → guid < 2 ^ 64
    → IsId (record { node = node; guid = guid; name = node_name node uuid; timestamp = now })
unfolding snapshot_name
node_name-IsId node guid uuid now small size nonzero fits = record {
  nonzero = nonzero;
  small = fits;
  name_ok =
      accepted (snapshot_matches (node_name node uuid)) (node_name node uuid) (node_name node uuid)
        (snapshot_name-node_name node uuid small size);
}

length-string : (s : List ℕ) → length (string_codec.serialise s) ≡ 8 + length s
unfolding string_codec u64_codec
length-string s =
    omega (arith, length-append {0} (to_bytes 8 (length s)) s, length-to_bytes (length s))

length-version : length (uuid_codec.serialise driver_identity_and_version) ≡ 16
unfolding uuid_codec driver_identity_and_version array_codec byte_codec
length-version = refl

pub length-encoded : (id : SnapshotId) → IsId id → length (encoded id).bytes < 2 ^ 64
unfolding encoded
length-encoded id valid =
    let guid = string_codec.serialise (to_string id.guid) in
    let name = string_codec.serialise id.name in
    omega (
      arith,
      length-append {0} (uuid_codec.serialise driver_identity_and_version) (guid ++ name),
      length-append {0} guid name,
      length-version,
      length-string (to_string id.guid),
      length-string id.name,
      length-to_string id.guid valid.small,
      snapshot_name-length id.name valid.name_ok,
    )

digit_no_dash : (c : ℕ) → is_digit c ≡ true → not (c == 45) ≡ true
digit_no_dash c h = ground arith

split-node_name :
    (node : ℕ) (uuid : Uuid)
    → split 45 (drop 11 (node_name node uuid)) ≡ some (to_string node, ascii uuid)
unfolding node_name
split-node_name node uuid = split-append 45 (to_string node) (ascii uuid) (
    all_of_mono is_digit (λ c. not (c == 45)) (to_string node) digit_no_dash
      (to_string-digits node))

-- The names of the snapshots of different nodes, or of repositories with different UUIDs, differ.
pub node_name-injective :
    (node node' : ℕ) (uuid uuid' : Uuid)
    → All IsByte uuid
    → All IsByte uuid'
    → node_name node uuid ≡ node_name node' uuid'
    → (node ≡ node') × (uuid ≡ uuid')
unfolding node_name
node_name-injective node node' uuid uuid' bytes bytes' h =
    let parts = split-node_name node uuid in
    let parts' = split-node_name node' uuid' in
    let same : ◌≡◌ {A = Option (List ℕ × List ℕ)} (some (to_string node, ascii uuid))
        (some (to_string node', ascii uuid')) =
      sym parts ∙ ap (λ (s : List ℕ). split 45 (drop 11 s)) h ∙ parts' in
    let digits : to_string node ≡ to_string node' = cc in
    let hexes : ascii uuid ≡ ascii uuid' = cc in
    (
      sym (digits_value-to_string node) ∙ ap (digits_value 0) digits ∙ digits_value-to_string node',
      ascii-injective uuid uuid' bytes bytes' hexes,
    )

-- ===== src/KeyPair.antt =====
-- src/KeyPair.hpp and src/KeyPair.cpp: key pairs, whose secret half is encrypted with a key that is
-- derived from a password. Keys are the lists of their bytes; `PasswordBuffer` only locks memory.
pub mod Laws
use diffmonger.Base.{ℕ, ◌+◌, ◌≡◌, Bool, Option, none, some, List, [], ◌∷◌, ◌++◌, if◌then◌else◌}
use diffmonger.Base.Text.{bytes_eq}
use diffmonger.Error.{Error, Result, ok, err, ◌>>=◌, version_mismatch, sodium_failed}
use diffmonger.Serialisation.{
  Parser, Codec, byte_codec, array_codec, u32_codec, u64_codec, then_codec,
}
use diffmonger.Uuid.{Uuid, uuid_codec}
use diffmonger.Sodium.{Sodium}

-- `version`
unfoldable pub version : Uuid
version =
    0xee ∷ 0x2c ∷ 0x0c ∷ 0xcd ∷ 0xd0 ∷ 0x53 ∷ 0x83 ∷ 0x8b ∷ 0xe9 ∷ 0x97 ∷ 0x05 ∷ 0xd8 ∷ 0xfd ∷ 0x1f
    ∷ 0xfd ∷ 0x61 ∷ []

-- The algorithm is an `int`, as the word that is stored.
pub record KdfParams : Type 0 where
  pub opslimit : ℕ
  pub memlimit : ℕ
  pub algorithm : ℕ

pub record KeyPair : Type 0 where
  pub salt : List ℕ
  pub nonce : List ℕ
  pub kdf_params : KdfParams
  pub public_key : List ℕ
  pub private_key_representation : List ℕ
  pub version : Uuid

-- `EncryptionKey`
pub record EncryptionKey : Type 0 where
  pub key_not_password : List ℕ
  pub salt : List ℕ
  pub kdf_params : KdfParams

pub record DecryptedKeyPair : Type 0 where
  pub key_pair : KeyPair
  pub private_key : List ℕ

abbrev pub or_failed {ℓ} : {A : Type ℓ} → Option A → Result A
or_failed none = err sodium_failed
or_failed (some a) = ok a

abbrev pub bytes_codec : ℕ → Codec (List ℕ)
bytes_codec n = array_codec byte_codec n

-- `Codec<KdfParams>`, of the fields
abbrev pub kdf_parts : Codec (ℕ × (ℕ × ℕ))
kdf_parts = then_codec u64_codec (then_codec u64_codec u32_codec)

abbrev pub kdf_tuple : KdfParams → ℕ × (ℕ × ℕ)
kdf_tuple p = (p.opslimit, (p.memlimit, p.algorithm))

abbrev pub kdf_of_tuple : ℕ × (ℕ × ℕ) → KdfParams
kdf_of_tuple (opslimit, (memlimit, algorithm)) = record {
  opslimit = opslimit;
  memlimit = memlimit;
  algorithm = algorithm;
}

module _ (s : Sodium) where
  -- `Codec<KeyPair>`, of the fields
  abbrev pub Parts : Type 0
  Parts = Uuid × (List ℕ × (List ℕ × ((ℕ × (ℕ × ℕ)) × (List ℕ × List ℕ))))

  abbrev pub parts_codec : Codec Parts
  parts_codec = then_codec uuid_codec (
      then_codec (bytes_codec s.salt_bytes) (
        then_codec (bytes_codec s.nonce_bytes) (
          then_codec kdf_parts (
            then_codec (bytes_codec s.public_key_bytes)
              (bytes_codec (s.secret_key_bytes + s.aead_a_bytes))))))

  abbrev pub of_parts : Parts → List ℕ → Result (KeyPair × List ℕ)
  of_parts (v, (salt, (nonce, (kdf, (public_key, private_key))))) rest =
      if bytes_eq v version
      then ok (
        record {
          salt = salt;
          nonce = nonce;
          kdf_params = kdf_of_tuple kdf;
          public_key = public_key;
          private_key_representation = private_key;
          version = v;
        },
        rest,
      )
      else err version_mismatch

  unfoldable pub key_pair_codec : Codec KeyPair
  key_pair_codec = record {
    serialise = λ k. parts_codec.serialise (
      version,
      (k.salt, (k.nonce, (kdf_tuple k.kdf_params, (k.public_key, k.private_key_representation)))),
    );
    deserialise = λ bytes. parts_codec.deserialise bytes >>= λ p. of_parts p.0 p.1;
  }

  -- `DecryptedKeyPair::aeadAdditionalData`
  unfoldable pub aead_additional_data : List ℕ → KdfParams → List ℕ → List ℕ → Uuid → List ℕ
  aead_additional_data salt p nonce public_key v =
      uuid_codec.serialise v
      ++ ((bytes_codec s.salt_bytes).serialise salt
          ++ ((bytes_codec s.nonce_bytes).serialise nonce
              ++ (u64_codec.serialise p.opslimit
                  ++ (u64_codec.serialise p.memlimit
                      ++ (u32_codec.serialise p.algorithm
                          ++ (bytes_codec s.public_key_bytes).serialise public_key)))))

  -- `EncryptionKey::EncryptionKey`
  unfoldable pub encryption_key : List ℕ → List ℕ → KdfParams → Result EncryptionKey
  encryption_key password salt p = do
    key ← or_failed (s.pwhash password salt p.opslimit p.memlimit p.algorithm)
    ok (record { key_not_password = key; salt = salt; kdf_params = p })

  -- `DecryptedKeyPair::generateFromKey`, with the seed of the pair and the nonce.
  unfoldable pub generate_from_key : ℕ → List ℕ → EncryptionKey → DecryptedKeyPair
  generate_from_key seed nonce key =
      let pair = s.box_keypair seed in
      record {
        key_pair = record {
          salt = key.salt;
          nonce = nonce;
          kdf_params = key.kdf_params;
          public_key = pair.0;
          private_key_representation =
              s.aead_encrypt pair.1
                (aead_additional_data key.salt key.kdf_params nonce pair.0 version) nonce
                key.key_not_password;
          version = version;
        };
        private_key = pair.1;
      }

  -- `DecryptedKeyPair::generateFromPassphrase`
  unfoldable pub generate_from_passphrase :
      ℕ → List ℕ → List ℕ → KdfParams → List ℕ → Result DecryptedKeyPair
  generate_from_passphrase seed salt nonce p password = do
    key ← encryption_key password salt p
    ok (generate_from_key seed nonce key)

  -- `DecryptedKeyPair::DecryptedKeyPair(KeyPair, EncryptionKey)`, and `KeyPair::decrypt`
  unfoldable pub decrypt : KeyPair → EncryptionKey → Result DecryptedKeyPair
  decrypt k key = do
    private_key ← or_failed (
        s.aead_decrypt k.private_key_representation
          (aead_additional_data k.salt k.kdf_params k.nonce k.public_key k.version) k.nonce
          key.key_not_password)
    ok (record { key_pair = k; private_key = private_key })

  -- `DecryptedKeyPair::DecryptedKeyPair(KeyPair, PasswordBuffer)`
  unfoldable pub decrypt_with_password : KeyPair → List ℕ → Result DecryptedKeyPair
  decrypt_with_password k password = encryption_key password k.salt k.kdf_params >>= decrypt k

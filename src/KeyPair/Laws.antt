-- ===== src/KeyPair/Laws.antt =====
-- A key pair is read back from its file, and its secret key is had again with the password.
use diffmonger.Base.{ℕ, ◌+◌, ◌^◌, ◌<◌, ◌≡◌, refl, sym, ap, ◌∙◌, subst, List, [], ◌∷◌, length}
use diffmonger.Base.Text.{bytes_eq_refl}
use diffmonger.Error.{ok_injective, ok, >>=-eq-ok}
use diffmonger.Serialisation.{byte_codec, u32_codec, u64_codec, then_codec}
use diffmonger.Serialisation.Laws.{
  Reads, IsCodec, All, AnyByte, FitsU64, FitsU32, byte_codec-IsCodec, array_codec-IsCodec,
  u64_codec-IsCodec, u32_codec-IsCodec, then_codec-IsCodec,
}
use diffmonger.Uuid.{uuid_codec}
use diffmonger.Sodium.{Sodium, IsSodium}
use diffmonger.KeyPair.{
  version, KdfParams, KeyPair, EncryptionKey, DecryptedKeyPair, or_failed, bytes_codec, kdf_parts,
  kdf_tuple, Parts, parts_codec, key_pair_codec, aead_additional_data, encryption_key,
  generate_from_key, generate_from_passphrase, decrypt, decrypt_with_password,
}

abbrev pub OfLength : ℕ → List ℕ → Type 0
OfLength n xs = length xs ≡ n

any : (xs : List ℕ) → All AnyByte xs
any [] = tt
any (x ∷ xs) = (tt, any xs)

bytes_codec-IsCodec : (n : ℕ) → IsCodec (bytes_codec n) (OfLength n)
bytes_codec-IsCodec n = record {
  reads = λ xs size.
      (array_codec-IsCodec byte_codec AnyByte byte_codec-IsCodec n).reads xs (size, any xs);
}

uuid_codec-IsCodec : IsCodec uuid_codec (OfLength 16)
unfolding uuid_codec
uuid_codec-IsCodec = bytes_codec-IsCodec 16

kdf_parts-IsCodec : IsCodec kdf_parts (λ p. FitsU64 p.0 × (FitsU64 p.1.0 × FitsU32 p.1.1))
kdf_parts-IsCodec =
    then_codec-IsCodec u64_codec (then_codec u64_codec u32_codec) FitsU64
      (λ p. FitsU64 p.0 × FitsU32 p.1) u64_codec-IsCodec
      (then_codec-IsCodec u64_codec u32_codec FitsU64 FitsU32 u64_codec-IsCodec u32_codec-IsCodec)

-- The sizes of a key pair's fields are those of their types.
pub record IsKeyPair (s : Sodium) (k : KeyPair) : Type 0 where
  pub salt_size : length k.salt ≡ s.salt_bytes
  pub nonce_size : length k.nonce ≡ s.nonce_bytes
  pub opslimit_fits : k.kdf_params.opslimit < 2 ^ 64
  pub memlimit_fits : k.kdf_params.memlimit < 2 ^ 64
  pub algorithm_fits : k.kdf_params.algorithm < 2 ^ 32
  pub public_key_size : length k.public_key ≡ s.public_key_bytes
  pub private_key_size : length k.private_key_representation ≡ s.secret_key_bytes + s.aead_a_bytes
  pub of_version : k.version ≡ version

module _ (s : Sodium) where
  tuple : KeyPair → Parts s
  tuple k = (
    version,
    (k.salt, (k.nonce, (kdf_tuple k.kdf_params, (k.public_key, k.private_key_representation)))),
  )

  parts-Reads :
      (k : KeyPair)
      → IsKeyPair s k
      → Reads (parts_codec s).deserialise ((parts_codec s).serialise (tuple k)) (tuple k)
  unfolding tuple version
  parts-Reads k valid =
      (then_codec-IsCodec uuid_codec _ (OfLength 16) _ uuid_codec-IsCodec (
          then_codec-IsCodec (bytes_codec s.salt_bytes) _ (OfLength s.salt_bytes) _
            (bytes_codec-IsCodec s.salt_bytes)
            (then_codec-IsCodec (bytes_codec s.nonce_bytes) _ (OfLength s.nonce_bytes) _
              (bytes_codec-IsCodec s.nonce_bytes)
              (then_codec-IsCodec kdf_parts _ _ _ kdf_parts-IsCodec (
                then_codec-IsCodec (bytes_codec s.public_key_bytes)
                  (bytes_codec (s.secret_key_bytes + s.aead_a_bytes)) (OfLength s.public_key_bytes)
                  (OfLength (s.secret_key_bytes + s.aead_a_bytes))
                  (bytes_codec-IsCodec s.public_key_bytes)
                  (bytes_codec-IsCodec (s.secret_key_bytes + s.aead_a_bytes))))))).reads
        (tuple k)
        (
          refl,
          (
            valid.salt_size,
            (
              valid.nonce_size,
              (
                (valid.opslimit_fits, (valid.memlimit_fits, valid.algorithm_fits)),
                (valid.public_key_size, valid.private_key_size),
              ),
            ),
          ),
        )

  -- A key pair whose fields have the sizes of their types is read back from its serialised form,
  -- what follows is left over, and a proper prefix of that form is refused.
  pub key_pair_codec-IsCodec : IsCodec (key_pair_codec s) (IsKeyPair s)
  unfolding key_pair_codec tuple
  key_pair_codec-IsCodec = record {
    reads = λ k valid.
        let parts = parts-Reads k valid in
        record {
          round_trip =
              λ rest. rw (parts.round_trip rest, bytes_eq_refl version, valid.of_version) refl;
          truncated = λ n h. rw (parts.truncated n h) refl;
        };
  }

  module _ (laws : IsSodium s) where
    -- With the key that encrypted it, the secret key of a generated pair is decrypted.
    decrypt-generate_from_key :
        (seed : ℕ) (nonce : List ℕ) (key : EncryptionKey)
        → decrypt s (generate_from_key s seed nonce key).key_pair key
          ≡ ok (generate_from_key s seed nonce key)
    unfolding decrypt generate_from_key
    decrypt-generate_from_key seed nonce key =
        rw
          (laws.aead (s.box_keypair seed).1
            (aead_additional_data s key.salt key.kdf_params nonce (s.box_keypair seed).0 version)
            nonce key.key_not_password)
          refl

    generated-IsKeyPair :
        (seed : ℕ) (nonce : List ℕ) (key : EncryptionKey)
        → length nonce ≡ s.nonce_bytes
        → length key.salt ≡ s.salt_bytes
        → (key.kdf_params.opslimit < 2 ^ 64)
          × (key.kdf_params.memlimit < 2 ^ 64)
          × (key.kdf_params.algorithm < 2 ^ 32)
        → IsKeyPair s (generate_from_key s seed nonce key).key_pair
    unfolding generate_from_key
    generated-IsKeyPair seed nonce key nonce_size salt_size fits = record {
      salt_size = salt_size;
      nonce_size = nonce_size;
      opslimit_fits = fits.0;
      memlimit_fits = fits.1;
      algorithm_fits = fits.2;
      public_key_size = (laws.keypair_size seed).0;
      private_key_size =
          laws.aead_size (s.box_keypair seed).1
            (aead_additional_data s key.salt key.kdf_params nonce (s.box_keypair seed).0 version)
            nonce key.key_not_password
          ∙ ap (λ (n : ℕ). n + s.aead_a_bytes) (laws.keypair_size seed).1;
      of_version = refl;
    }

    key_fields :
        (password salt : List ℕ) (p : KdfParams) (key : EncryptionKey)
        → encryption_key s password salt p ≡ ok key
        → (key.salt ≡ salt) × (key.kdf_params ≡ p)
    unfolding encryption_key
    key_fields password salt p key h =
        let (bytes, hashed, made) =
          >>=-eq-ok (or_failed (s.pwhash password salt p.opslimit p.memlimit p.algorithm)) _ h in
        (
          sym (ap EncryptionKey.salt (ok_injective made)),
          sym (ap EncryptionKey.kdf_params (ok_injective made)),
        )

    same_key :
        (password salt : List ℕ) (p : KdfParams) (key : EncryptionKey)
        → encryption_key s password salt p ≡ ok key
        → encryption_key s password key.salt key.kdf_params ≡ ok key
    same_key password salt p key h =
        let (same_salt, same_params) = key_fields password salt p key h in
        ap (λ (x : List ℕ). encryption_key s password x key.kdf_params) same_salt
        ∙ ap (λ (x : KdfParams). encryption_key s password salt x) same_params
        ∙ h

    opened :
        (seed : ℕ) (password nonce : List ℕ) (key : EncryptionKey)
        → encryption_key s password key.salt key.kdf_params ≡ ok key
        → decrypt_with_password s (generate_from_key s seed nonce key).key_pair password
          ≡ ok (generate_from_key s seed nonce key)
    unfolding decrypt_with_password generate_from_key
    opened seed password nonce key h = rw h (decrypt-generate_from_key seed nonce key)

    -- A key pair that was generated from a password, a salt and a nonce of their sizes, and limits
    -- that fit their types, is read back from its file, and the password gives its secret key again.
    pub generate_from_passphrase-decrypt :
        (seed : ℕ) (salt nonce : List ℕ) (p : KdfParams) (password : List ℕ) (d : DecryptedKeyPair)
        → length nonce ≡ s.nonce_bytes
        → length salt ≡ s.salt_bytes
        → p.opslimit < 2 ^ 64
        → p.memlimit < 2 ^ 64
        → p.algorithm < 2 ^ 32
        → generate_from_passphrase s seed salt nonce p password ≡ ok d
        → Reads (key_pair_codec s).deserialise ((key_pair_codec s).serialise d.key_pair) d.key_pair
          × (decrypt_with_password s d.key_pair password ≡ ok d)
    unfolding generate_from_passphrase
    generate_from_passphrase-decrypt seed salt nonce p password d nonce_size salt_size ops mem alg
          h =
        let (key, derived, made) = >>=-eq-ok (encryption_key s password salt p) _ h in
        let (same_salt, same_params) = key_fields password salt p key derived in
        let valid =
          generated-IsKeyPair seed nonce key nonce_size (ap length same_salt ∙ salt_size) (
            (
              subst (λ (x : KdfParams). x.opslimit < 2 ^ 64) (sym same_params) ops,
              subst (λ (x : KdfParams). x.memlimit < 2 ^ 64) (sym same_params) mem,
              subst (λ (x : KdfParams). x.algorithm < 2 ^ 32) (sym same_params) alg,
            )) in
        subst
          (λ x.
            Reads (key_pair_codec s).deserialise ((key_pair_codec s).serialise x.key_pair)
              x.key_pair
            × (decrypt_with_password s x.key_pair password ≡ ok x))
          (ok_injective made)
          (
            key_pair_codec-IsCodec.reads (generate_from_key s seed nonce key).key_pair valid,
            opened seed password nonce key (same_key password salt p key derived),
          )

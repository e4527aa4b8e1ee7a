-- ===== src/Examples/Keys.antt =====
-- The key pairs and the encryption of src/KeyPair.cpp and src/EncryptionUtil.cpp with functions in
-- place of libsodium that satisfy its laws and hide nothing.
use mathlib.Core.List.{append-nil}
use diffmonger.Base.{
  ◌==◌, if◌then◌else◌, ap, sym, ◌∙◌, ℕ, ◌≡◌, refl, Option, none, some, List, [], ◌∷◌, length, arith,
}
use diffmonger.Error.{ok, err, no_key_slot}
use diffmonger.Serialisation.Laws.{Reads}
use diffmonger.Sodium.{Sodium, IsSodium}
use diffmonger.KeyPair.{
  version, KdfParams, DecryptedKeyPair, key_pair_codec, generate_from_key, generate_from_passphrase,
  encryption_key, decrypt_with_password,
}
use diffmonger.KeySlots.{
  Slots, with_key_files, next_slot, read_key_pairs, store_key_pair, opened, decrypt_key_pair,
}
use diffmonger.KeySlots.Laws.{store_key_pair-read_key_pairs, decrypt_key_pair_first}
use diffmonger.KeyPair.Laws.{IsKeyPair, key_pair_codec-IsCodec, generate_from_passphrase-decrypt}
use diffmonger.Encryption.{encrypt_to_fd, decrypt_from_fd}
use diffmonger.Encryption.Laws.{concat}
use diffmonger.Encryption.Entries.{IsDecrypted, IsRecipient}
use diffmonger.Encryption.RoundTrip.{decrypt_from_fd-encrypt_to_fd, decrypt_from_fd-no_key_slot}

abbrev plain_pull : List ℕ → Option (List ℕ × ℕ × Unit {0})
plain_pull [] = none
plain_pull (tag ∷ m) = some (m, tag, tt)

abbrev pub plain : Sodium
plain = record {
  salt_bytes = 2;
  nonce_bytes = 1;
  public_key_bytes = 1;
  secret_key_bytes = 1;
  aead_a_bytes = 0;
  key_bytes = 2;
  seal_bytes = 0;
  header_bytes = 0;
  stream_a_bytes = 1;
  tag_final = 3;
  pwhash = λ password salt ops mem alg. some password;
  box_keypair = λ seed. (7 ∷ [], 9 ∷ []);
  box_seal = λ random key m. some m;
  box_seal_open = λ public_key private_key c. some c;
  aead_encrypt = λ m ad nonce key. m;
  aead_decrypt = λ c ad nonce key. some c;
  StreamState = Unit {0};
  init_push = λ random key. ([], tt);
  push = λ st m tag. (tag ∷ m, tt);
  init_pull = λ header key. some tt;
  pull = λ st c. plain_pull c;
}

pub plain-IsSodium : IsSodium plain
plain-IsSodium = record {
  keypair_size = λ seed. (refl, refl);
  seal_open = λ seed random m. (m, refl, omega arith, refl);
  aead_size = λ m ad nonce key. omega arith;
  aead = λ m ad nonce key. refl;
  header_size = λ random key. refl;
  init = λ random key. refl;
  push_size = λ st m tag. omega arith;
  pull_push = λ st m tag. refl;
  tag_final-ne = λ h. ground arith;
  small = omega arith;
}

abbrev limits : KdfParams
limits = record { opslimit = 4; memlimit = 1000; algorithm = 2 }

abbrev pub a_pair : List ℕ → DecryptedKeyPair
a_pair salt = record {
  key_pair = record {
    salt = salt;
    nonce = 5 ∷ [];
    kdf_params = limits;
    public_key = 7 ∷ [];
    private_key_representation = 9 ∷ [];
    version = version;
  };
  private_key = 9 ∷ [];
}

abbrev pub first : DecryptedKeyPair
first = a_pair (1 ∷ 2 ∷ [])

abbrev pub second : DecryptedKeyPair
second = a_pair (3 ∷ 4 ∷ [])

pub a_pair-IsDecrypted : (salt : List ℕ) → IsDecrypted plain (a_pair salt)
a_pair-IsDecrypted salt = record { seed = 0; own_public = refl; own_private = refl }

pub a_pair-IsRecipient :
    (salt : List ℕ) (d : List ℕ)
    → length salt ≡ 2
    → IsRecipient plain (a_pair d) (a_pair salt).key_pair
a_pair-IsRecipient salt d size = record {
  seed = 0;
  public_key = refl;
  salt_size = size;
  same_id = λ h. refl;
}

first_generated : generate_from_passphrase plain 0 (1 ∷ 2 ∷ []) (5 ∷ []) limits (6 ∷ []) ≡ ok first
unfolding generate_from_passphrase encryption_key generate_from_key
first_generated = refl

generate_from_passphrase-decrypt_example :
    Reads
      (key_pair_codec plain).deserialise
      ((key_pair_codec plain).serialise first.key_pair)
      first.key_pair
    × (decrypt_with_password plain first.key_pair (6 ∷ []) ≡ ok first)
generate_from_passphrase-decrypt_example =
    generate_from_passphrase-decrypt plain plain-IsSodium 0 (1 ∷ 2 ∷ []) (5 ∷ []) limits (6 ∷ [])
      first refl refl (omega arith) (omega arith) (omega arith) first_generated

decrypt_from_fd-encrypt_to_fd_example :
    (bytes : List ℕ) × (encrypt_to_fd plain
        (11 ∷ 12 ∷ [])
        0
        (first.key_pair ∷ second.key_pair ∷ [])
        ((21 ∷ 22 ∷ []) ∷ (23 ∷ []) ∷ [])
      ≡ ok bytes)
    × Reads (decrypt_from_fd plain 4 first) bytes (concat ((21 ∷ 22 ∷ []) ∷ (23 ∷ []) ∷ []))
decrypt_from_fd-encrypt_to_fd_example =
    decrypt_from_fd-encrypt_to_fd plain plain-IsSodium first (a_pair-IsDecrypted (1 ∷ 2 ∷ [])) 4 0
      (11 ∷ 12 ∷ []) first.key_pair (second.key_pair ∷ []) ((21 ∷ 22 ∷ []) ∷ (23 ∷ []) ∷ [])
      (omega arith) (omega arith) refl
      (
        a_pair-IsRecipient (1 ∷ 2 ∷ []) (1 ∷ 2 ∷ []) refl,
        (a_pair-IsRecipient (3 ∷ 4 ∷ []) (1 ∷ 2 ∷ []) refl, tt),
      )
      refl (omega arith, (omega arith, tt))

decrypt_from_fd-no_key_slot_example :
    (bytes : List ℕ) × (encrypt_to_fd plain (11 ∷ 12 ∷ []) 0 (first.key_pair ∷ []) ((21 ∷ []) ∷ [])
      ≡ ok bytes)
    × (decrypt_from_fd plain 4 second bytes ≡ err no_key_slot)
decrypt_from_fd-no_key_slot_example =
    decrypt_from_fd-no_key_slot plain plain-IsSodium second (a_pair-IsDecrypted (3 ∷ 4 ∷ [])) 4 0
      (11 ∷ 12 ∷ []) first.key_pair [] ((21 ∷ []) ∷ []) (omega arith) refl
      (a_pair-IsRecipient (1 ∷ 2 ∷ []) (3 ∷ 4 ∷ []) refl, tt) refl

first-IsKeyPair : IsKeyPair plain first.key_pair
first-IsKeyPair = record {
  salt_size = refl;
  nonce_size = refl;
  opslimit_fits = omega arith;
  memlimit_fits = omega arith;
  algorithm_fits = omega arith;
  public_key_size = refl;
  private_key_size = refl;
  of_version = refl;
}

second-IsKeyPair : IsKeyPair plain second.key_pair
second-IsKeyPair = record {
  salt_size = refl;
  nonce_size = refl;
  opslimit_fits = omega arith;
  memlimit_fits = omega arith;
  algorithm_fits = omega arith;
  public_key_size = refl;
  private_key_size = refl;
  of_version = refl;
}

abbrev first_file : List ℕ
first_file = (key_pair_codec plain).serialise first.key_pair

pub first_read : (key_pair_codec plain).deserialise first_file ≡ ok (first.key_pair, [])
first_read =
    ap (key_pair_codec plain).deserialise (sym (append-nil first_file))
    ∙ ((key_pair_codec-IsCodec plain).reads first.key_pair first-IsKeyPair).round_trip []

abbrev second_file : List ℕ
second_file = (key_pair_codec plain).serialise second.key_pair

pub second_read : (key_pair_codec plain).deserialise second_file ≡ ok (second.key_pair, [])
second_read =
    ap (key_pair_codec plain).deserialise (sym (append-nil second_file))
    ∙ ((key_pair_codec-IsCodec plain).reads second.key_pair second-IsKeyPair).round_trip []

abbrev pub two_slots : Slots
two_slots i = if i == 0 then some first_file else (if i == 1 then some second_file else none)

pub first_decrypted : decrypt_with_password plain first.key_pair (6 ∷ []) ≡ ok first
first_decrypted =
    (generate_from_passphrase-decrypt plain plain-IsSodium 0 (1 ∷ 2 ∷ []) (5 ∷ []) limits (6 ∷ [])
      first refl refl (omega arith) (omega arith) (omega arith) first_generated).1

-- Slot 0 is taken.
abbrev one_slot : Slots
one_slot i = if i == 0 then some first_file else none

one_slot_next : next_slot one_slot ≡ ok 1
unfolding next_slot with_key_files
one_slot_next = refl

one_slot_read : read_key_pairs plain one_slot ≡ ok (first.key_pair ∷ [])
unfolding read_key_pairs with_key_files
one_slot_read = rw first_read refl

store_key_pair-read_key_pairs_example :
    (slots' : Slots) × (store_key_pair plain second.key_pair one_slot ≡ ok slots')
    × (read_key_pairs plain slots' ≡ ok (first.key_pair ∷ second.key_pair ∷ []))
store_key_pair-read_key_pairs_example =
    store_key_pair-read_key_pairs plain one_slot 1 (first.key_pair ∷ []) second.key_pair
      second-IsKeyPair one_slot_next (omega arith) refl one_slot_read

decrypt_key_pair_first_example :
    decrypt_key_pair plain (6 ∷ []) one_slot
    ≡ ok (opened plain (decrypt_with_password plain first.key_pair (6 ∷ [])) none)
decrypt_key_pair_first_example =
    decrypt_key_pair_first plain (6 ∷ []) first_file [] one_slot first.key_pair refl first_read

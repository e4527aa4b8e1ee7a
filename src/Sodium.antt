-- ===== src/Sodium.antt =====
-- The functions of libsodium that src/KeyPair.cpp and src/EncryptionUtil.cpp call, as an interface.
-- What is random is an argument; a function that can fail on its input returns an option, and
-- `sodium_init` and the generation of keys succeed. The laws are those that the library documents:
-- sizes, and that what was encrypted can be decrypted with the right key.
use diffmonger.Base.{ℕ, ◌+◌, ◌^◌, ◌<◌, ◌≡◌, ◌≢◌, Option, some, List, length}

pub record Sodium : Type 1 where
  -- `crypto_pwhash_SALTBYTES` and the other sizes
  pub salt_bytes : ℕ
  pub nonce_bytes : ℕ
  pub public_key_bytes : ℕ
  pub secret_key_bytes : ℕ
  pub aead_a_bytes : ℕ
  pub key_bytes : ℕ
  pub seal_bytes : ℕ
  pub header_bytes : ℕ
  pub stream_a_bytes : ℕ
  pub tag_final : ℕ
  -- `crypto_pwhash`, of password, salt, the limits and the algorithm
  pub pwhash : List ℕ → List ℕ → ℕ → ℕ → ℕ → Option (List ℕ)
  -- `crypto_box_keypair`: the public and the secret key
  pub box_keypair : ℕ → List ℕ × List ℕ
  -- `crypto_box_seal` for a public key, and `crypto_box_seal_open` with both keys
  pub box_seal : ℕ → List ℕ → List ℕ → Option (List ℕ)
  pub box_seal_open : List ℕ → List ℕ → List ℕ → Option (List ℕ)
  -- `crypto_aead_xchacha20poly1305_ietf_encrypt` and `_decrypt`, of message, data, nonce and key
  pub aead_encrypt : List ℕ → List ℕ → List ℕ → List ℕ → List ℕ
  pub aead_decrypt : List ℕ → List ℕ → List ℕ → List ℕ → Option (List ℕ)
  -- `crypto_secretstream_xchacha20poly1305_state`, and the functions on it
  pub StreamState : Type 0
  pub init_push : ℕ → List ℕ → List ℕ × StreamState
  pub push : StreamState → List ℕ → ℕ → List ℕ × StreamState
  pub init_pull : List ℕ → List ℕ → Option StreamState
  pub pull : StreamState → List ℕ → Option (List ℕ × ℕ × StreamState)

pub record IsSodium (s : Sodium) : Type 0 where
  pub keypair_size :
      (seed : ℕ)
      → (length (s.box_keypair seed).0 ≡ s.public_key_bytes)
        × (length (s.box_keypair seed).1 ≡ s.secret_key_bytes)
  pub seal_open :
      (seed random : ℕ) (m : List ℕ)
      → (c : List ℕ) × (s.box_seal random (s.box_keypair seed).0 m ≡ some c)
        × (length c ≡ s.seal_bytes + length m)
        × (s.box_seal_open (s.box_keypair seed).0 (s.box_keypair seed).1 c ≡ some m)
  pub aead_size :
      (m ad nonce key : List ℕ) → length (s.aead_encrypt m ad nonce key) ≡ length m + s.aead_a_bytes
  pub aead :
      (m ad nonce key : List ℕ)
      → s.aead_decrypt (s.aead_encrypt m ad nonce key) ad nonce key ≡ some m
  pub header_size : (random : ℕ) (key : List ℕ) → length (s.init_push random key).0 ≡ s.header_bytes
  pub init :
      (random : ℕ) (key : List ℕ)
      → s.init_pull (s.init_push random key).0 key ≡ some (s.init_push random key).1
  pub push_size :
      (st : s.StreamState) (m : List ℕ) (tag : ℕ)
      → length (s.push st m tag).0 ≡ length m + s.stream_a_bytes
  pub pull_push :
      (st : s.StreamState) (m : List ℕ) (tag : ℕ)
      → s.pull st (s.push st m tag).0 ≡ some (m, tag, (s.push st m tag).1)
  pub tag_final-ne : s.tag_final ≢ 0
  pub small : s.stream_a_bytes < 2 ^ 16

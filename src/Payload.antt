-- ===== src/Payload.antt =====
-- src/Controller.cpp: what becomes of a payload on its way in and out, by the key slots of the
-- repository: the encryption by the child process of `store_snapshot`, the opening of a key pair by
-- `restore`, and its `withDecryptedInput`.
use diffmonger.Base.{ℕ, suc, ◌+◌, Bool, true, false, Option, none, some, List, length}
use diffmonger.Error.{Result, ok, err, ◌>>=◌, password_needed}
use diffmonger.Sodium.{Sodium}
use diffmonger.KeyPair.{DecryptedKeyPair}
use diffmonger.KeySlots.{Slots, read_key_pairs, decrypt_key_pair}
use diffmonger.Encryption.{encrypt_to_fd, decrypt_from_fd}

-- The chunks in which a payload is read and the randomness, the symmetric key included, may depend
-- on the payload.
pub record Draws : Type 0 where
  pub chunks : List ℕ → List (List ℕ)
  pub sym_key : List ℕ → List ℕ
  pub random : List ℕ → ℕ

-- The child process of `store_snapshot`, for the key pairs that it reads from the repository, or
-- nothing where there is no encryption.
unfoldable pub encrypted_payload : Sodium → Draws → Bool → Slots → List ℕ → Result (List ℕ)
encrypted_payload s draws false slots bytes = ok bytes
encrypted_payload s draws true slots bytes = read_key_pairs s slots >>= λ ks.
    encrypt_to_fd s (draws.sym_key bytes) (draws.random bytes) ks (draws.chunks bytes)

-- The process of `withDecryptedInput`. What it has written when it fails is a parameter.
abbrev pub output_of : List ℕ → Result (List ℕ × List ℕ) → List ℕ × Result (Unit {0})
output_of written (ok (bytes, rest)) = (bytes, ok tt)
output_of written (err e) = (written, err e)

abbrev pub decrypted_payload :
    Sodium → (List ℕ → List ℕ) → ℕ → DecryptedKeyPair → List ℕ → List ℕ × Result (Unit {0})
decrypted_payload s partial entries d payload =
    output_of (partial payload) (decrypt_from_fd s (suc (entries + length payload)) d payload)

-- `decrypted` of `restore`: a payload is passed on as it is if no key pair was opened.
abbrev pub decrypted_by :
    Sodium → (List ℕ → List ℕ) → ℕ → Option DecryptedKeyPair → List ℕ → List ℕ × Result (Unit {0})
decrypted_by s partial entries none payload = (payload, ok tt)
decrypted_by s partial entries (some d) payload = decrypted_payload s partial entries d payload

-- `decryptedKeyPair` of `restore`: none without encryption, and else what the password opens.
unfoldable pub opened_key_pair :
    Sodium → Bool → Option (List ℕ) → Slots → Result (Option DecryptedKeyPair)
opened_key_pair s false password slots = ok none
opened_key_pair s true none slots = err password_needed
opened_key_pair s true (some password) slots = decrypt_key_pair s password slots

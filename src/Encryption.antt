-- ===== src/Encryption.antt =====
-- src/EncryptionUtil.cpp: the encrypted form of a payload. It is an entry for each key pair, with the
-- symmetric key sealed for it, then the header of the stream, then its messages, each after its
-- length in four bytes; an empty message with the final tag ends it. Data comes in the chunks that
-- `ioutil::consume2` reads, and what is written is the list of all bytes.
pub mod Laws
pub mod Entries
pub mod RoundTrip
pub mod Size
use diffmonger.Base.{
  ℕ, zero, suc, ◌+◌, ◌≡◌, Bool, true, false, not, Option, none, some, List, [], ◌∷◌, ◌++◌, length,
  take, drop, get_or, leb, ◌==◌, if◌then◌else◌,
}
use diffmonger.Base.Text.{bytes_eq}
use diffmonger.Error.{Error, Result, ok, err, ◌>>=◌, no_fuel, no_key_slot, invalid_tag}
use diffmonger.Serialisation.{Parser, consume, u32_codec}
use diffmonger.Sodium.{Sodium}
use diffmonger.KeyPair.{KeyPair, DecryptedKeyPair, or_failed}

-- `plaintextChunkSize`
abbrev pub plaintext_chunk_size : ℕ
plaintext_chunk_size = 8192

abbrev pub min_ℕ : ℕ → ℕ → ℕ
min_ℕ a b = if leb b a then b else a

-- A reader's next step, on what it left.
abbrev pub then_read : {A B : Type 0} → Parser A → (A → Parser B) → Parser B
then_read p q bytes = p bytes >>= λ x. q x.0 x.1

abbrev pub read_ok : {A : Type 0} → A → Parser A
read_ok a bytes = ok (a, bytes)

abbrev pub read_option : {A : Type 0} → Option A → Parser A
read_option o bytes = or_failed o >>= λ a. ok (a, bytes)

-- `ioutil::readBytesExact` of so many bytes
abbrev pub read_bytes_exact : ℕ → Parser (List ℕ)
read_bytes_exact = consume

module _ (s : Sodium) where
  abbrev pub is_last_byte : List KeyPair → ℕ
  is_last_byte [] = 1
  is_last_byte (k ∷ ks) = 0

  -- The loop over the key pairs, with what each sealing takes of randomness.
  unfoldable pub write_entries : ℕ → List ℕ → List KeyPair → Result (List ℕ)
  write_entries random sym_key [] = ok []
  write_entries random sym_key (k ∷ ks) = do
    sealed ← or_failed (s.box_seal random k.public_key sym_key)
    rest ← write_entries (suc random) sym_key ks
    ok ((k.salt ++ (sealed ++ is_last_byte ks ∷ [])) ++ rest)

  -- A message, after the number of its bytes.
  abbrev pub frame : List ℕ → List ℕ
  frame message = u32_codec.serialise (length message) ++ message

  unfoldable pub write_chunks : s.StreamState → List (List ℕ) → List ℕ
  write_chunks st [] = frame (s.push st [] s.tag_final).0
  write_chunks st (chunk ∷ chunks) =
      let pushed = s.push st chunk 0 in frame pushed.0 ++ write_chunks pushed.1 chunks

  -- `encryptToFd`, with the symmetric key and the randomness that it draws.
  unfoldable pub encrypt_to_fd : List ℕ → ℕ → List KeyPair → List (List ℕ) → Result (List ℕ)
  encrypt_to_fd sym_key random key_pairs chunks = do
    entries ← write_entries random sym_key key_pairs
    let stream = s.init_push random sym_key
    ok (entries ++ (stream.0 ++ write_chunks stream.1 chunks))

  abbrev pub entry_size : ℕ
  entry_size = s.salt_bytes + (s.seal_bytes + s.key_bytes) + 1

  abbrev pub entry_id : List ℕ → List ℕ
  entry_id entry = take s.salt_bytes entry

  abbrev pub entry_key : List ℕ → List ℕ
  entry_key entry = take (s.seal_bytes + s.key_bytes) (drop s.salt_bytes entry)

  abbrev pub entry_is_last : List ℕ → Bool
  entry_is_last entry = not (get_or entry (s.salt_bytes + (s.seal_bytes + s.key_bytes)) 0 == 0)

  -- The symmetric key after an entry: of the entries with the id of the key pair the last one counts.
  unfoldable pub open_entry : DecryptedKeyPair → Option (List ℕ) → List ℕ → Result (Option (List ℕ))
  open_entry d found entry =
      if bytes_eq (entry_id entry) d.key_pair.salt
      then (or_failed (s.box_seal_open d.key_pair.public_key d.private_key (entry_key entry))
          >>= λ key. ok (some key))
      else ok found

  -- The loop over the entries, with fuel for their number.
  unfoldable pub read_entries : ℕ → DecryptedKeyPair → Option (List ℕ) → Parser (Option (List ℕ))
  read_entries zero d found bytes = err no_fuel
  read_entries (suc fuel) d found bytes =
      then_read (read_bytes_exact entry_size)
        (λ entry rest. open_entry d found entry >>= λ found'. elim (entry_is_last entry) [
          | true ↦ ok (found', rest)
          | false ↦ read_entries fuel d found' rest
        ])
        bytes

  -- `ciphertextMaxChunkSize`
  abbrev pub ciphertext_max_chunk_size : ℕ
  ciphertext_max_chunk_size = plaintext_chunk_size + s.stream_a_bytes

  -- A message, with its length cut off at the buffer's size.
  unfoldable pub read_frame : Parser (List ℕ)
  read_frame =
      then_read u32_codec.deserialise
        (λ nbytes. read_bytes_exact (min_ℕ ciphertext_max_chunk_size nbytes))

  -- The loop over the messages, with fuel for their number, and the check of the tag that ends it.
  unfoldable pub read_chunks : ℕ → s.StreamState → Parser (List ℕ)
  unfolding read_frame
  read_chunks zero st bytes = err no_fuel
  read_chunks (suc fuel) st bytes =
      then_read read_frame
        (λ message rest. or_failed (s.pull st message) >>= λ pulled. elim (pulled.1 == 0) [
          | true ↦ read_chunks fuel pulled.2 rest >>= λ more. ok (pulled.0 ++ more.0, more.1)
          | false ↦ if pulled.1 == s.tag_final then ok (pulled.0, rest) else err invalid_tag
        ])
        bytes

  abbrev pub key_or_throw : Option (List ℕ) → Parser (List ℕ)
  key_or_throw none bytes = err no_key_slot
  key_or_throw (some key) bytes = ok (key, bytes)

  -- `decryptFromFd`; both loops have the fuel. The bytes returned are those written if it succeeds.
  unfoldable pub decrypt_from_fd : ℕ → DecryptedKeyPair → Parser (List ℕ)
  decrypt_from_fd fuel d = then_read (read_entries fuel d none) (λ found.
      then_read (key_or_throw found) (λ key.
        then_read (read_bytes_exact s.header_bytes)
          (λ header. then_read (read_option (s.init_pull header key)) (read_chunks fuel))))

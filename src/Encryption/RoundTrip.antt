-- ===== src/Encryption/RoundTrip.antt =====
-- Whom src/EncryptionUtil.cpp lets decrypt what it encrypted, and what comes out.
use diffmonger.Base.{
  ℕ, ◌<◌, ◌≡◌, refl, subst, true, false, none, some, List, [], ◌∷◌, ◌++◌, length, Bool-cases, inl,
  inr, arith,
}
use diffmonger.Base.Text.{bytes_eq}
use diffmonger.Error.{ok, err, no_key_slot}
use diffmonger.Serialisation.Laws.{Reads, Reads-then, consume-Reads, All}
use diffmonger.Sodium.{Sodium, IsSodium}
use diffmonger.KeyPair.{KeyPair, DecryptedKeyPair}
use diffmonger.Encryption.{
  then_read, read_option, read_bytes_exact, write_chunks, encrypt_to_fd, read_entries, read_chunks,
  decrypt_from_fd,
}
use diffmonger.Encryption.Laws.{concat, IsChunk, chunks-Reads}
use diffmonger.Encryption.Entries.{IsDecrypted, IsRecipient, found_after, accepts, entries-Reads}

module _ (d : DecryptedKeyPair) (sym_key : List ℕ) where
  found_after-some : (ks : List KeyPair) → found_after d sym_key ks (some sym_key) ≡ some sym_key
  found_after-some [] = refl
  found_after-some (k ∷ ks) = elim (Bool-cases (bytes_eq k.salt d.key_pair.salt)) [
    | inl same ↦ rw same (found_after-some ks)
    | inr other ↦ rw other (found_after-some ks)
  ]

  found_after-accepts :
      (ks : List KeyPair) → accepts d ks ≡ true → found_after d sym_key ks none ≡ some sym_key
  found_after-accepts [] h = cc
  found_after-accepts (k ∷ ks) h = elim (Bool-cases (bytes_eq k.salt d.key_pair.salt)) [
    | inl same ↦ rw same (found_after-some ks)
    | inr other ↦ rw other (found_after-accepts ks (ground arith))
  ]

  found_after-refused :
      (ks : List KeyPair) → accepts d ks ≡ false → found_after d sym_key ks none ≡ none
  found_after-refused [] h = refl
  found_after-refused (k ∷ ks) h = elim (Bool-cases (bytes_eq k.salt d.key_pair.salt)) [
    | inl same ↦ ground arith
    | inr other ↦ rw other (found_after-refused ks (ground arith))
  ]

module _ (s : Sodium) (laws : IsSodium s) (d : DecryptedKeyPair) (own : IsDecrypted s d) where
  -- What follows the entries, with the key that they gave.
  payload-Reads :
      (fuel random : ℕ) (sym_key : List ℕ) (chunks : List (List ℕ))
      → length chunks < fuel
      → All IsChunk chunks
      → Reads
          (then_read
            (read_bytes_exact s.header_bytes)
            (λ header. then_read (read_option (s.init_pull header sym_key)) (read_chunks s fuel)))
          ((s.init_push random sym_key).0 ++ write_chunks s (s.init_push random sym_key).1 chunks)
          (concat chunks)
  payload-Reads fuel random sym_key chunks enough all =
      let stream = s.init_push random sym_key in
      Reads-then (read_bytes_exact s.header_bytes) _ stream.0 (write_chunks s stream.1 chunks)
        stream.0 (concat chunks)
        (subst (λ (n : ℕ). Reads (read_bytes_exact n) stream.0 stream.0)
          (laws.header_size random sym_key) (consume-Reads stream.0))
        (rw (laws.init random sym_key) (chunks-Reads s laws fuel stream.1 chunks enough all))

  -- Chunks of at most 8192 bytes that were encrypted for one or more recipients, a key pair among
  -- them, are decrypted with that key pair to the same bytes. No recipient with the id of that key
  -- pair has another public key, the symmetric key has the size of one, and the fuel exceeds the
  -- numbers of the chunks and of the further recipients. What follows is left over, and a proper
  -- prefix of the encrypted form is refused.
  pub decrypt_from_fd-encrypt_to_fd :
      (fuel random : ℕ) (sym_key : List ℕ) (k : KeyPair) (ks : List KeyPair)
      (chunks : List (List ℕ))
      → length ks < fuel
      → length chunks < fuel
      → length sym_key ≡ s.key_bytes
      → All (IsRecipient s d) (k ∷ ks)
      → accepts d (k ∷ ks) ≡ true
      → All IsChunk chunks
      → (bytes : List ℕ) × (encrypt_to_fd s sym_key random (k ∷ ks) chunks ≡ ok bytes)
        × Reads (decrypt_from_fd s fuel d) bytes (concat chunks)
  unfolding encrypt_to_fd decrypt_from_fd
  decrypt_from_fd-encrypt_to_fd fuel random sym_key k ks chunks slots enough size rs accepted all =
      let stream = s.init_push random sym_key in
      let payload = stream.0 ++ write_chunks s stream.1 chunks in
      let (bytes, written, read) =
        entries-Reads s laws d own fuel random sym_key k ks none slots size rs.0 rs.1 in
      let found = found_after-accepts d sym_key (k ∷ ks) accepted in
      (
        bytes ++ payload,
        rw written refl,
        Reads-then (read_entries s fuel d none) _ bytes payload (some sym_key) (concat chunks)
            (subst (Reads (read_entries s fuel d none) bytes) found read)
            (payload-Reads fuel random sym_key chunks enough all),
      )

  -- What was encrypted for one or more recipients is refused with the error for a missing key slot
  -- by a key pair whose id is none of theirs. The symmetric key has the size of one, and the fuel
  -- exceeds the number of the further recipients.
  pub decrypt_from_fd-no_key_slot :
      (fuel random : ℕ) (sym_key : List ℕ) (k : KeyPair) (ks : List KeyPair)
      (chunks : List (List ℕ))
      → length ks < fuel
      → length sym_key ≡ s.key_bytes
      → All (IsRecipient s d) (k ∷ ks)
      → accepts d (k ∷ ks) ≡ false
      → (bytes : List ℕ) × (encrypt_to_fd s sym_key random (k ∷ ks) chunks ≡ ok bytes)
        × (decrypt_from_fd s fuel d bytes ≡ err no_key_slot)
  unfolding encrypt_to_fd decrypt_from_fd
  decrypt_from_fd-no_key_slot fuel random sym_key k ks chunks slots size rs refused =
      let stream = s.init_push random sym_key in
      let payload = stream.0 ++ write_chunks s stream.1 chunks in
      let (bytes, written, read) =
        entries-Reads s laws d own fuel random sym_key k ks none slots size rs.0 rs.1 in
      let found = found_after-refused d sym_key (k ∷ ks) refused in
      let nothing = subst (Reads (read_entries s fuel d none) bytes) found read in
      (bytes ++ payload, rw written refl, rw (nothing.round_trip payload) refl)

-- ===== src/Encryption/Size.antt =====
-- src/EncryptionUtil.cpp: an encrypted payload has a byte for each of its chunks, so that its length
-- is enough fuel to read it.
use diffmonger.Base.{
  true, ℕ, suc, ◌+◌, ◌≤◌, ◌<◌, ◌≡◌, sym, subst, ◌∙◌, List, [], ◌∷◌, ◌++◌, length, length-append,
  arith,
}
use diffmonger.Error.{ok_injective, ok, >>=-eq-ok}
use diffmonger.Serialisation.{u32_codec, to_bytes}
use diffmonger.Serialisation.Bytes.{length-to_bytes_32}
use diffmonger.Serialisation.Laws.{Reads, All}
use diffmonger.Sodium.{Sodium, IsSodium}
use diffmonger.KeyPair.{KeyPair, DecryptedKeyPair}
use diffmonger.Encryption.{frame, write_entries, write_chunks, encrypt_to_fd, decrypt_from_fd}
use diffmonger.Encryption.Laws.{concat, IsChunk}
use diffmonger.Encryption.Entries.{IsDecrypted, IsRecipient, accepts}
use diffmonger.Encryption.RoundTrip.{decrypt_from_fd-encrypt_to_fd}

module _ (s : Sodium) where
  length-frame : (message : List ℕ) → 1 ≤ length (frame s message)
  unfolding u32_codec
  length-frame message = omega (
    arith,
    length-append (to_bytes 4 (length message)) message,
    length-to_bytes_32 (length message),
  )

  length-write_chunks :
      (st : s.StreamState) (chunks : List (List ℕ))
      → length chunks ≤ length (write_chunks s st chunks)
  unfolding write_chunks
  length-write_chunks st [] = omega arith
  length-write_chunks st (chunk ∷ chunks) =
      let pushed = s.push st chunk 0 in
      omega (
        arith,
        length-append (frame s pushed.0) (write_chunks s pushed.1 chunks),
        length-frame pushed.0,
        length-write_chunks pushed.1 chunks,
      )

  length-encrypt_to_fd :
      (sym_key : List ℕ) (random : ℕ) (ks : List KeyPair) (chunks : List (List ℕ)) (bytes : List ℕ)
      → encrypt_to_fd s sym_key random ks chunks ≡ ok bytes
      → length chunks ≤ length bytes
  unfolding encrypt_to_fd
  length-encrypt_to_fd sym_key random ks chunks bytes h =
      let stream = s.init_push random sym_key in
      let (entries, written, rest) = >>=-eq-ok (write_entries s random sym_key ks) _ h in
      let payload = write_chunks s stream.1 chunks in
      let whole : length (entries ++ (stream.0 ++ payload)) ≤ length bytes =
        subst (λ (b : List ℕ). length b ≤ length bytes) (sym (ok_injective rest)) (omega arith) in
      omega (
        arith,
        whole,
        length-append entries (stream.0 ++ payload),
        length-append stream.0 payload,
        length-write_chunks stream.1 chunks,
      )

  -- The round trip of an encrypted payload, read with fuel for its length.
  pub decrypt_from_fd-length :
      (laws : IsSodium s) (d : DecryptedKeyPair) (own : IsDecrypted s d) (random : ℕ)
      (sym_key : List ℕ) (k : KeyPair) (ks : List KeyPair) (chunks : List (List ℕ))
      → length sym_key ≡ s.key_bytes
      → All (IsRecipient s d) (k ∷ ks)
      → accepts d (k ∷ ks) ≡ true
      → All IsChunk chunks
      → (bytes : List ℕ) × (encrypt_to_fd s sym_key random (k ∷ ks) chunks ≡ ok bytes)
        × Reads (decrypt_from_fd s (suc (length ks + length bytes)) d) bytes (concat chunks)
  decrypt_from_fd-length laws d own random sym_key k ks chunks size rs accepted all =
      let trip = λ (fuel : ℕ) (slots : length ks < fuel) (enough : length chunks < fuel).
        decrypt_from_fd-encrypt_to_fd s laws d own fuel random sym_key k ks chunks slots enough size
          rs accepted all in
      let (bytes, written, reads) =
        trip (suc (length ks + length chunks)) (omega arith) (omega arith) in
      let fits = length-encrypt_to_fd sym_key random (k ∷ ks) chunks bytes written in
      let (bytes', written', reads') =
        trip (suc (length ks + length bytes)) (omega arith) (omega (arith, fits)) in
      let same : bytes' ≡ bytes = ok_injective (sym written' ∙ written) in
      (
        bytes,
        written,
        subst
            (λ (b : List ℕ).
              Reads (decrypt_from_fd s (suc (length ks + length bytes)) d) b (concat chunks))
            same reads',
      )

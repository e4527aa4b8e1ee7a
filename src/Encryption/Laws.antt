-- ===== src/Encryption/Laws.antt =====
-- The messages of the stream that src/EncryptionUtil.cpp writes are those that it reads.
use mathlib.Core.List.{append-nil}
use diffmonger.Base.{
  ℕ, zero, suc, ◌<◌, ◌≤◌, ◌≡◌, refl, subst, true, false, List, [], ◌∷◌, ◌++◌, length, ◌==◌,
  if◌then◌else◌, arith,
}
use diffmonger.Error.{ok, err, ◌>>=◌, invalid_tag}
use diffmonger.Serialisation.{u32_codec}
use diffmonger.Serialisation.Laws.{
  Reads, Reads-then, Reads-map, consume-Reads, All, u32_codec-IsCodec,
}
use diffmonger.Sodium.{Sodium, IsSodium}
use diffmonger.Encryption.{
  min_ℕ, read_bytes_exact, frame, write_chunks, plaintext_chunk_size, ciphertext_max_chunk_size,
  read_frame, read_chunks,
}

-- A reader that reads nothing.
pub Reads-ok : {A : Type 0} (a : A) → Reads (λ bytes. ok (a, bytes)) [] a
Reads-ok a = record { round_trip = λ rest. refl; truncated = λ k h. absurd (omega arith) }

abbrev pub concat : List (List ℕ) → List ℕ
concat [] = []
concat (xs ∷ xss) = xs ++ concat xss

-- Chunks are no longer than the buffer that they were read into.
abbrev pub IsChunk : List ℕ → Type 0
IsChunk chunk = length chunk ≤ plaintext_chunk_size

module _ (s : Sodium) (laws : IsSodium s) where
  frame-Reads :
      (m : List ℕ) → length m ≤ ciphertext_max_chunk_size s → Reads (read_frame s) (frame s m) m
  unfolding read_frame
  frame-Reads m fits =
      let whole : min_ℕ (ciphertext_max_chunk_size s) (length m) ≡ length m = ground arith in
      Reads-then u32_codec.deserialise
        (λ n. read_bytes_exact (min_ℕ (ciphertext_max_chunk_size s) n))
        (u32_codec.serialise (length m)) m (length m) m
        (u32_codec-IsCodec.reads (length m) (omega (arith, laws.small)))
        (rw whole (consume-Reads m))

  pub chunks-Reads :
      (fuel : ℕ) (st : s.StreamState) (chunks : List (List ℕ))
      → length chunks < fuel
      → All IsChunk chunks
      → Reads (read_chunks s fuel st) (write_chunks s st chunks) (concat chunks)
  unfolding read_chunks write_chunks
  chunks-Reads zero st chunks h all = absurd (omega arith)
  chunks-Reads (suc fuel) st [] h all =
      let final : (s.tag_final == 0) ≡ false = ground (arith, laws.tag_final-ne) in
      let same : (s.tag_final == s.tag_final) ≡ true = ground arith in
      let m = (s.push st [] s.tag_final).0 in
      let whole = frame-Reads m (rw (laws.push_size st [] s.tag_final) (omega arith)) in
      let ends : Reads
          (λ rest. elim (s.tag_final == 0) [
            | true ↦ read_chunks s fuel (s.push st [] s.tag_final).1 rest >>= λ more.
                ok ([] ++ more.0, more.1)
            | false ↦ if s.tag_final == s.tag_final then ok ([], rest) else err invalid_tag
          ])
          [] [] =
        rw (final, same) (Reads-ok []) in
      subst (λ (bytes : List ℕ). Reads (read_chunks s (suc fuel) st) bytes [])
        (append-nil (frame s m))
        (Reads-then (read_frame s) _ (frame s m) [] m [] whole
          (rw (laws.pull_push st [] s.tag_final) ends))
  chunks-Reads (suc fuel) st (chunk ∷ chunks) h all =
      let pushed = s.push st chunk 0 in
      subst (λ (bytes : List ℕ). Reads (read_chunks s (suc fuel) st) bytes (chunk ++ concat chunks))
        refl
        (Reads-then (read_frame s) _ (frame s pushed.0) (write_chunks s pushed.1 chunks) pushed.0
          (chunk ++ concat chunks)
          (frame-Reads pushed.0 (rw (laws.push_size st chunk 0) (omega (arith, all.0))))
          (rw (laws.pull_push st chunk 0) (
            Reads-map (read_chunks s fuel pushed.1) (λ more. chunk ++ more)
              (write_chunks s pushed.1 chunks) (concat chunks)
              (chunks-Reads fuel pushed.1 chunks (omega arith) all.1))))

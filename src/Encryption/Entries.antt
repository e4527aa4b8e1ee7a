-- ===== src/Encryption/Entries.antt =====
-- The entries that src/EncryptionUtil.cpp writes for its recipients, read by one of them.
use diffmonger.Base.{
  ℕ, zero, suc, ◌+◌, ◌<◌, ◌≡◌, refl, sym, ap, subst, ◌∙◌, Bool, true, false, not, ◌||◌, Option,
  some, List, [], ◌∷◌, ◌++◌, append_assoc, length, length-append, get_or, take-eq, drop-eq,
  get_or-eq, Bool-cases, ◌==◌, if◌then◌else◌, inl, inr, arith,
}
use diffmonger.Base.Text.{bytes_eq, eq_of_bytes_eq}
use diffmonger.Error.{ok}
use diffmonger.Serialisation.Laws.{Reads, Reads-then, consume-Reads, All}
use diffmonger.Sodium.{Sodium, IsSodium}
use diffmonger.KeyPair.{KeyPair, DecryptedKeyPair}
use diffmonger.Encryption.{
  read_bytes_exact, write_entries, entry_size, entry_is_last, open_entry, read_entries,
}
use diffmonger.Encryption.Laws.{Reads-ok}

-- The key pair of `d` comes from `box_keypair`.
pub record IsDecrypted (s : Sodium) (d : DecryptedKeyPair) : Type 0 where
  pub seed : ℕ
  pub own_public : d.key_pair.public_key ≡ (s.box_keypair seed).0
  pub own_private : d.private_key ≡ (s.box_keypair seed).1

-- So does a recipient's, and a recipient with the id of `d` has its public key.
pub record IsRecipient (s : Sodium) (d : DecryptedKeyPair) (k : KeyPair) : Type 0 where
  pub seed : ℕ
  pub public_key : k.public_key ≡ (s.box_keypair seed).0
  pub salt_size : length k.salt ≡ s.salt_bytes
  pub same_id : k.salt ≡ d.key_pair.salt → k.public_key ≡ d.key_pair.public_key

-- The key that the entries of some recipients give `d`.
abbrev pub found_after :
    DecryptedKeyPair → List ℕ → List KeyPair → Option (List ℕ) → Option (List ℕ)
found_after d sym_key [] found = found
found_after d sym_key (k ∷ ks) found =
    found_after d sym_key ks (if bytes_eq k.salt d.key_pair.salt then some sym_key else found)

-- `d` is a recipient
abbrev pub accepts : DecryptedKeyPair → List KeyPair → Bool
accepts d [] = false
accepts d (k ∷ ks) = bytes_eq k.salt d.key_pair.salt || accepts d ks

module _ (s : Sodium) (laws : IsSodium s) (d : DecryptedKeyPair) (own : IsDecrypted s d) where
  -- What is sealed for a recipient is opened by `d` if the ids are the same.
  seal_for :
      (random : ℕ) (k : KeyPair) (m : List ℕ)
      → IsRecipient s d k
      → (c : List ℕ) × (s.box_seal random k.public_key m ≡ some c)
        × (length c ≡ s.seal_bytes + length m)
        × (bytes_eq k.salt d.key_pair.salt ≡ true
            → s.box_seal_open d.key_pair.public_key d.private_key c ≡ some m)
  seal_for random k m r = elim (Bool-cases (bytes_eq k.salt d.key_pair.salt)) [
    | inl same ↦
        let (c, sealed, size, opens) = laws.seal_open own.seed random m in
        let is_own = r.same_id (eq_of_bytes_eq k.salt d.key_pair.salt same) in
        (
          c,
          rw (is_own, own.own_public) sealed,
          size,
          λ h. rw (own.own_public, own.own_private) opens,
        )
    | inr other ↦
        let (c, sealed, size, opens) = laws.seal_open r.seed random m in
        (c, rw r.public_key sealed, size, λ h. cc)
  ]

  open_entry-entry :
      (k : KeyPair) (m c found : _) (b : ℕ)
      → length k.salt ≡ s.salt_bytes
      → length m ≡ s.key_bytes
      → length c ≡ s.seal_bytes + length m
      → (bytes_eq k.salt d.key_pair.salt ≡ true
          → s.box_seal_open d.key_pair.public_key d.private_key c ≡ some m)
      → open_entry s d found (k.salt ++ (c ++ b ∷ []))
        ≡ ok (if bytes_eq k.salt d.key_pair.salt then some m else found)
  unfolding open_entry
  open_entry-entry k m c found b salt key size opens =
      let id = take-eq s.salt_bytes k.salt (c ++ b ∷ []) salt in
      let left = drop-eq s.salt_bytes k.salt (c ++ b ∷ []) salt in
      let box = take-eq (s.seal_bytes + s.key_bytes) c (b ∷ []) (omega (arith, size, key)) in
      elim (Bool-cases (bytes_eq k.salt d.key_pair.salt)) [
        | inl same ↦ rw (id, left, box, opens same, same) refl
        | inr other ↦ rw (id, other) refl
      ]

  entry_is_last-entry :
      (salt c : List ℕ) (b : ℕ)
      → length salt ≡ s.salt_bytes
      → length c ≡ s.seal_bytes + s.key_bytes
      → entry_is_last s (salt ++ (c ++ b ∷ [])) ≡ not (b == 0)
  entry_is_last-entry salt c b salt_size size =
      ap (λ (x : ℕ). not (x == 0))
        (ap (λ (xs : List ℕ). get_or xs (s.salt_bytes + (s.seal_bytes + s.key_bytes)) 0)
            (sym (append_assoc salt c (b ∷ [])))
          ∙ get_or-eq (s.salt_bytes + (s.seal_bytes + s.key_bytes)) (salt ++ c) [] b 0
              (omega (arith, length-append salt c, salt_size, size)))

  entry-Reads :
      (salt c : List ℕ) (b : ℕ)
      → length salt ≡ s.salt_bytes
      → length c ≡ s.seal_bytes + s.key_bytes
      → Reads (read_bytes_exact (entry_size s)) (salt ++ (c ++ b ∷ [])) (salt ++ (c ++ b ∷ []))
  entry-Reads salt c b salt_size size =
      let entry = salt ++ (c ++ b ∷ []) in
      let whole : length entry ≡ entry_size s =
        omega
          (arith, length-append salt (c ++ b ∷ []), length-append c (b ∷ []), salt_size, size) in
      subst (λ (n : ℕ). Reads (read_bytes_exact n) entry entry) whole (consume-Reads entry)

  -- The entries of at least one recipient are read back.
  pub entries-Reads :
      (fuel random : ℕ) (sym_key : List ℕ) (k : KeyPair) (ks : List KeyPair)
      (found : Option (List ℕ))
      → length ks < fuel
      → length sym_key ≡ s.key_bytes
      → IsRecipient s d k
      → All (IsRecipient s d) ks
      → (bytes : List ℕ) × (write_entries s random sym_key (k ∷ ks) ≡ ok bytes)
        × Reads (read_entries s fuel d found) bytes (found_after d sym_key (k ∷ ks) found)
  unfolding write_entries read_entries
  entries-Reads zero random sym_key k ks found h size r rs = absurd (omega arith)
  entries-Reads (suc fuel) random sym_key k [] found h size r rs =
      let (c, sealed, c_size, opens) = seal_for random k sym_key r in
      let entry = k.salt ++ (c ++ 1 ∷ []) in
      (
        entry ++ [],
        rw sealed refl,
        Reads-then (read_bytes_exact (entry_size s)) _ entry [] entry
            (found_after d sym_key (k ∷ []) found)
            (entry-Reads k.salt c 1 r.salt_size (omega (arith, c_size, size)))
            (rw
              (
                open_entry-entry k sym_key c found 1 r.salt_size size c_size opens,
                entry_is_last-entry k.salt c 1 r.salt_size (omega (arith, c_size, size)),
              )
              (Reads-ok (found_after d sym_key (k ∷ []) found))),
      )
  entries-Reads (suc fuel) random sym_key k (k' ∷ ks) found h size r rs =
      let (c, sealed, c_size, opens) = seal_for random k sym_key r in
      let entry = k.salt ++ (c ++ 0 ∷ []) in
      let (bytes, written, read) =
        entries-Reads fuel (suc random) sym_key k' ks
          (if bytes_eq k.salt d.key_pair.salt then some sym_key else found) (omega arith) size rs.0
          rs.1 in
      (
        entry ++ bytes,
        rw (sealed, written) refl,
        Reads-then (read_bytes_exact (entry_size s)) _ entry bytes entry
            (found_after d sym_key (k ∷ k' ∷ ks) found)
            (entry-Reads k.salt c 0 r.salt_size (omega (arith, c_size, size)))
            (rw
              (
                open_entry-entry k sym_key c found 0 r.salt_size size c_size opens,
                entry_is_last-entry k.salt c 0 r.salt_size (omega (arith, c_size, size)),
              )
              read),
      )

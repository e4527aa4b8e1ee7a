-- ===== src/Snapshot/Encrypted.antt =====
-- src/Controller.cpp: a snapshot in a repository with encryption, and its restore by a password, with
-- the functions of src/EncryptionUtil.cpp and the key slots of the repository.
use mathlib.Core.List.{append-nil}
use diffmonger.Base.{
  false, ℕ, suc, ◌+◌, ◌^◌, ◌<◌, ◌≡◌, refl, sym, ap, ◌∙◌, Bool, false, true, List, [], ◌∷◌, length,
  Elem, some,
}
use diffmonger.Base.Int.{ℤ, InInt64}
use diffmonger.Error.{ok}
use diffmonger.Tree.{fenwick_path_inc_root}
use diffmonger.Serialisation.Laws.{Reads, All}
use diffmonger.Sodium.{Sodium, IsSodium}
use diffmonger.KeyPair.{KeyPair, DecryptedKeyPair}
use diffmonger.KeySlots.{Slots, read_key_pairs, decrypt_key_pair}
use diffmonger.Payload.{Draws, encrypted_payload, decrypted_payload, opened_key_pair}
use diffmonger.Encryption.{decrypt_from_fd}
use diffmonger.Encryption.Laws.{concat, IsChunk}
use diffmonger.Encryption.Entries.{IsDecrypted, IsRecipient, accepts}
use diffmonger.Encryption.Size.{decrypt_from_fd-length}
use diffmonger.Repository.{Repository}
use diffmonger.Zfs.Commands.{Run}
use diffmonger.Backend.{Backend}
use diffmonger.Restore.Backend.{IsBackend, Keeps}
use diffmonger.Restore.Run.{restore_opened}
use diffmonger.Snapshot.{snapshot_once}
use diffmonger.Snapshot.Source.{IsSource, IsSound}
use diffmonger.Snapshot.Restored.{Decrypts, snapshot_once-restore}

-- What is drawn for a stream is as it should be.
pub record IsDrawn (s : Sodium) (Stream : ℕ → List ℕ → Type 0) (draws : Draws) : Type 0 where
  pub whole : (node : ℕ) (bytes : List ℕ) → Stream node bytes → concat (draws.chunks bytes) ≡ bytes
  pub sizes : (node : ℕ) (bytes : List ℕ) → Stream node bytes → All IsChunk (draws.chunks bytes)
  pub key_size : (bytes : List ℕ) → length (draws.sym_key bytes) ≡ s.key_bytes

module _ (s : Sodium) (laws : IsSodium s) (d : DecryptedKeyPair) (own : IsDecrypted s d)
    (k : KeyPair) (ks : List KeyPair) (recipients : All (IsRecipient s d) (k ∷ ks))
    (accepted : accepts d (k ∷ ks) ≡ true) (slots : Slots) (password : List ℕ)
    (stored : read_key_pairs s slots ≡ ok (k ∷ ks))
    (opens : decrypt_key_pair s password slots ≡ ok (some d)) (partial : List ℕ → List ℕ)
    (Stream : ℕ → List ℕ → Type 0) (draws : Draws) (drawn : IsDrawn s Stream draws) where
  pub encrypted-Decrypts :
      (node : ℕ) (bytes : List ℕ)
      → Stream node bytes
      → (payload : List ℕ) × (encrypted_payload s draws true slots bytes ≡ ok payload)
        × Decrypts Stream (decrypted_payload s partial (length ks) d) node payload
  unfolding encrypted_payload
  encrypted-Decrypts node bytes stream =
      let (payload, written, reads) =
        decrypt_from_fd-length s laws d own (draws.random bytes) (draws.sym_key bytes) k ks
          (draws.chunks bytes) (drawn.key_size bytes) recipients accepted
          (drawn.sizes node bytes stream) in
      let read : decrypt_from_fd s (suc (length ks + length payload)) d payload ≡ ok (bytes, []) =
        ap (decrypt_from_fd s (suc (length ks + length payload)) d) (sym (append-nil payload))
        ∙ Reads.round_trip reads []
        ∙ ap (λ (b : List ℕ). ok (b, [])) (drawn.whole node bytes stream) in
      (payload, rw (encrypted_payload, stored) written, rw read (stream, refl))

  module _ {W : Type 0} (backend : Backend W) (Has : W → ℕ → Type 0)
      (Names : backend.SnapshotId → ℕ → Type 0) (upon : backend.SnapshotId → Run W (Unit {0}))
      (skip_existing : Bool) (source : IsSource backend Has Names Stream)
      (target : IsBackend backend Has Names Stream)
      (harmless : (id : backend.SnapshotId) (w : W)
        → (w' : W) × (upon id w ≡ (ok tt, w')) × Keeps Has w w') where
    -- With a libsodium that keeps its laws, one or more key pairs in the key slots, a password that
    -- opens a key pair of theirs with none other of its id and another public key, a backend that
    -- takes snapshots as `IsSource` and receives streams as `IsBackend` says, a function upon each
    -- snapshot that returns and removes none, chunks of at most 8192 bytes that make up the stream,
    -- symmetric keys of the right size, a repository and a backend in order, the node after the
    -- breadcrumb's below 2 ^ 63, no snapshot of the breadcrumb's node in the backend and a time of
    -- 64 bits, a round of `snapshot` with encryption for all key pairs in the slots returns that the
    -- snapshot is new; and from the repository as it then is, `restore` of the new node by that
    -- password returns in any state of a backend, and the snapshots of the node's path are there
    -- after it.
    pub snapshot_once-decrypted :
        (fuel : ℕ) (now : ℤ) (r : Repository) (w : W)
        → suc r.breadcrumb.untrusted_begin < 2 ^ 63
        → InInt64 now
        → ¬ (Has w r.breadcrumb.untrusted_begin)
        → IsSound backend Has Names
            (Decrypts Stream (decrypted_payload s partial (length ks) d))
            r
            w
        → (r' : Repository) × (w' : W) × (snapshot_once backend
              (encrypted_payload s draws true slots)
              (suc fuel)
              source.uuid
              now
              (r, w)
            ≡ (ok true, (r', w')))
          × ((fuel : ℕ) (v : W)
              → (v' : W) × (restore_opened backend s partial
                    (length ks)
                    true
                    (some password)
                    slots
                    upon
                    skip_existing
                    r'
                    fuel
                    false
                    r.breadcrumb.untrusted_begin
                    v
                  ≡ (ok tt, v'))
                × ((x : ℕ)
                    → Elem x (fenwick_path_inc_root r.breadcrumb.untrusted_begin).nodes
                    → Has v' x))
    unfolding restore_opened opened_key_pair
    snapshot_once-decrypted fuel now r w small timely gap sound =
        let (r', w', ran, restored) =
          snapshot_once-restore backend Has Names Stream (encrypted_payload s draws true slots)
            (decrypted_payload s partial (length ks) d) upon skip_existing source target
            encrypted-Decrypts harmless fuel now r w small timely gap sound in
        (
          r',
          w',
          ran,
          λ fuel v.
              let (v', done, all) = restored fuel v in (v', rw (restore_opened, opens) done, all),
        )

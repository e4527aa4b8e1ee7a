-- ===== src/Examples/Secrets.antt =====
-- A snapshot in a new repository with encryption, for two key pairs, and a new repository.
use diffmonger.Base.{
  ℕ, length, ◌≡◌, refl, true, false, none, List, [], ◌∷◌, Elem, subst, sym, ap, some, arith,
}
use diffmonger.Base.Int.{pos}
use diffmonger.Base.Text.{codes}
use diffmonger.Error.{ok, err, repository_exists}
use diffmonger.Serialisation.Laws.{All}
use diffmonger.Uuid.{Uuid}
use diffmonger.Encoded.{InitArgs}
use diffmonger.Tree.{fenwick_path_inc_root}
use diffmonger.Encryption.Laws.{IsChunk, concat}
use diffmonger.Encryption.Entries.{IsRecipient}
use diffmonger.Repository.{Repository}
use diffmonger.Repository.Create.{
  Directory, create_repository, open_repository, get_repository_uuid,
}
use diffmonger.Repository.Create.Laws.{IsVacant, IsNew, create_repository-IsNew}
use diffmonger.Restore.Run.{restore_opened}
use diffmonger.Snapshot.{snapshot_once}
use diffmonger.Snapshot.Restored.{Decrypts}
use diffmonger.Snapshot.History.{new-IsSound}
use diffmonger.KeySlots.{with_key_files, read_key_pairs, opened, decrypt_key_pair}
use diffmonger.Payload.{Draws, encrypted_payload, decrypted_payload}
use diffmonger.Snapshot.Encrypted.{IsDrawn, encrypted-Decrypts, snapshot_once-decrypted}
use diffmonger.Examples.Keys.{
  plain, plain-IsSodium, first, second, two_slots, first_read, second_read, first_decrypted,
  a_pair-IsDecrypted, a_pair-IsRecipient,
}
use diffmonger.Examples.Restores.{
  Nodes, in_memory, in_memory-IsBackend, Has, Names, Stream, nothing_more,
}
use diffmonger.Examples.Takes.{in_memory-IsSource, empty, empty-IsNew, repository_uuid}

abbrev draws : Draws
draws = record {
  chunks = λ bytes. bytes ∷ [];
  sym_key = λ bytes. 11 ∷ 12 ∷ [];
  random = λ bytes. length bytes;
}

one_chunk : (bytes : List ℕ) → bytes ≡ 5 ∷ [] → concat (bytes ∷ []) ≡ bytes
one_chunk bytes h = subst (λ (b : List ℕ). concat (b ∷ []) ≡ b) (sym h) refl

short-IsChunk : (bytes : List ℕ) → bytes ≡ 5 ∷ [] → All IsChunk (bytes ∷ [])
short-IsChunk bytes h = subst (λ (b : List ℕ). All IsChunk (b ∷ [])) (sym h) (omega arith, tt)

drawn : IsDrawn plain Stream draws
drawn = record {
  whole = λ node bytes stream. one_chunk bytes stream;
  sizes = λ node bytes stream. short-IsChunk bytes stream;
  key_size = λ bytes. refl;
}

recipients : All (IsRecipient plain first) (first.key_pair ∷ second.key_pair ∷ [])
recipients = (
  a_pair-IsRecipient (1 ∷ 2 ∷ []) (1 ∷ 2 ∷ []) refl,
  (a_pair-IsRecipient (3 ∷ 4 ∷ []) (1 ∷ 2 ∷ []) refl, tt),
)

abbrev nothing_written : List ℕ → List ℕ
nothing_written payload = []

slot_opens : decrypt_key_pair plain (6 ∷ []) two_slots ≡ ok (some first)
unfolding decrypt_key_pair with_key_files
slot_opens = rw first_read (ap (λ r. ok (opened plain r none)) first_decrypted)

both_read : read_key_pairs plain two_slots ≡ ok (first.key_pair ∷ second.key_pair ∷ [])
unfolding read_key_pairs with_key_files
both_read = rw (first_read, second_read) refl

snapshot_once-decrypted_example :
    (r' : Repository) × (w' : Nodes) × (snapshot_once in_memory
        (encrypted_payload plain draws true two_slots)
        1
        repository_uuid
        (pos 7)
        (empty, [])
      ≡ (ok true, (r', w')))
    × ((fuel : ℕ) (v : Nodes)
        → (v' : Nodes) × (restore_opened in_memory plain nothing_written 1 true
              (some (6 ∷ []))
              two_slots
              nothing_more
              true
              r'
              fuel
              false
              0
              v
            ≡ (ok tt, v'))
          × ((x : ℕ) → Elem x (fenwick_path_inc_root 0).nodes → Has v' x))
snapshot_once-decrypted_example =
    snapshot_once-decrypted plain plain-IsSodium first (a_pair-IsDecrypted (1 ∷ 2 ∷ []))
      first.key_pair (second.key_pair ∷ []) recipients refl two_slots (6 ∷ []) both_read slot_opens
      nothing_written Stream draws drawn in_memory Has Names nothing_more true in_memory-IsSource
      in_memory-IsBackend (λ id w. (w, refl, λ x h. h)) 0 (pos 7) empty [] (omega arith)
      (omega arith) (λ h. h)
      (new-IsSound in_memory Has Names Stream
        (Decrypts Stream (decrypted_payload plain nothing_written 1 first)) in_memory-IsSource
        (encrypted_payload plain draws true two_slots)
        (encrypted-Decrypts plain plain-IsSodium first (a_pair-IsDecrypted (1 ∷ 2 ∷ []))
          first.key_pair (second.key_pair ∷ []) recipients refl two_slots (6 ∷ []) both_read
          slot_opens nothing_written Stream draws drawn)
        empty [] empty-IsNew)

abbrev vacant : Directory
vacant = record {
  occupied = false;
  uuid_file = none;
  initargs_file = none;
  breadcrumb_file = none;
  snapshots = λ node. none;
  temporary = none;
}

vacant-IsVacant : IsVacant vacant
vacant-IsVacant = record { free = refl; no_breadcrumb = refl; no_snapshots = λ x. refl }

abbrev sixteen_bytes : Uuid
sixteen_bytes = 1 ∷ 2 ∷ 3 ∷ 4 ∷ 5 ∷ 6 ∷ 7 ∷ 8 ∷ 9 ∷ 10 ∷ 11 ∷ 12 ∷ 13 ∷ 14 ∷ 15 ∷ 16 ∷ []

abbrev init_args : InitArgs
init_args = record { format_uuid = sixteen_bytes; initargs = codes "init" ∷ codes "zfs" ∷ [] }

create_repository-IsNew_example :
    (r : Repository) × (d' : Directory) × (create_repository sixteen_bytes init_args vacant
      ≡ (ok (init_args, r), d'))
    × IsNew r
    × (open_repository d' ≡ ok (init_args, r))
    × (get_repository_uuid d' ≡ ok sixteen_bytes)
    × ((uuid' : Uuid) → create_repository uuid' init_args d' ≡ (err repository_exists, d'))
create_repository-IsNew_example =
    create_repository-IsNew sixteen_bytes init_args vacant refl
      (refl, omega arith, (omega arith, (omega arith, tt))) refl vacant-IsVacant

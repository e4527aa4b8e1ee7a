-- ===== src/KeySlots.antt =====
-- The key slots: the files `keys/0`, `keys/1`, ... of src/RepositoryStructure.cpp, and the search of
-- src/Controller.cpp for one that a password opens. The directory is there.
pub mod Laws
use diffmonger.Base.{
  ℕ, zero, suc, ◌+◌, Bool, true, false, Option, none, some, List, [], ◌∷◌, ◌++◌, ◌==◌,
  if◌then◌else◌,
}
use diffmonger.Error.{Result, ok, err, ◌>>=◌, slot_taken}
use diffmonger.Sodium.{Sodium}
use diffmonger.KeyPair.{KeyPair, DecryptedKeyPair, key_pair_codec, decrypt_with_password}

-- The bytes of the file of each slot.
abbrev pub Slots : Type 0
Slots = ℕ → Option (List ℕ)

-- `maxKeySlots`
abbrev pub max_key_slots : ℕ
max_key_slots = 255

-- `withKeyFiles` for so many slots from one on; the callback changes a state, and may end the loop.
unfoldable pub with_key_files :
    {S : Type 0} → (List ℕ → S → Result (Bool × S)) → ℕ → ℕ → Slots → S → Result S
with_key_files f zero i slots state = ok state
with_key_files f (suc n) i slots state = elim (slots i) [
  | none ↦ ok state
  | some bytes ↦ f bytes state >>= λ ended. elim ended.0 [
    | true ↦ ok ended.1
    | false ↦ with_key_files f n (suc i) slots ended.1
  ]
]

-- `getKeyFiles`, of which the number counts
abbrev pub count_file : List ℕ → ℕ → Result (Bool × ℕ)
count_file bytes n = ok (false, suc n)

unfoldable pub next_slot : Slots → Result ℕ
next_slot slots = with_key_files count_file max_key_slots 0 slots 0

module _ (s : Sodium) where
  -- `withKeyPairs`
  abbrev pub on_key_pair :
      {S : Type 0} → (KeyPair → S → Result (Bool × S)) → List ℕ → S → Result (Bool × S)
  on_key_pair f bytes state = (key_pair_codec s).deserialise bytes >>= λ k. f k.0 state

  -- `readKeyPairs`
  abbrev pub collect : KeyPair → List KeyPair → Result (Bool × List KeyPair)
  collect k out = ok (false, out ++ k ∷ [])

  unfoldable pub read_key_pairs : Slots → Result (List KeyPair)
  read_key_pairs slots = with_key_files (on_key_pair collect) max_key_slots 0 slots []

  -- `storeKeyPair`; the file must not be there yet.
  unfoldable pub store_key_pair : KeyPair → Slots → Result Slots
  store_key_pair k slots = next_slot slots >>= λ slot. elim (slots slot) [
    | some bytes ↦ err slot_taken
    | none ↦ ok (λ i. if i == slot then some ((key_pair_codec s).serialise k) else slots i)
  ]

  -- `decryptKeyPair`, whose callback ends the loop whether or not the password fits.
  abbrev pub opened : Result DecryptedKeyPair → Option DecryptedKeyPair → Option DecryptedKeyPair
  opened (ok d) out = some d
  opened (err e) out = out

  abbrev pub try_slot :
      List ℕ → KeyPair → Option DecryptedKeyPair → Result (Bool × Option DecryptedKeyPair)
  try_slot password k out = ok (true, opened (decrypt_with_password s k password) out)

  unfoldable pub decrypt_key_pair : List ℕ → Slots → Result (Option DecryptedKeyPair)
  decrypt_key_pair password slots =
      with_key_files (on_key_pair (try_slot password)) max_key_slots 0 slots none

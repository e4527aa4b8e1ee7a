-- ===== src/KeySlots/Laws.antt =====
-- What is read from the key slots after a key pair was stored, and which slot a password is tried on.
use mathlib.Core.List.{append-nil}
use diffmonger.Base.{
  ℕ, zero, suc, ◌+◌, ◌<◌, ◌≡◌, ◌⊎◌, inl, inr, refl, sym, ap, subst, ◌∙◌, Bool, true, false, Option,
  none, some, List, [], ◌∷◌, ◌++◌, ◌==◌, if◌then◌else◌, arith,
}
use diffmonger.Error.{ok_injective, Result, ok, ◌>>=◌, >>=-eq-ok}
use diffmonger.Sodium.{Sodium}
use diffmonger.KeyPair.{KeyPair, key_pair_codec, decrypt_with_password}
use diffmonger.KeyPair.Laws.{IsKeyPair, key_pair_codec-IsCodec}
use diffmonger.KeySlots.{
  Slots, max_key_slots, with_key_files, count_file, next_slot, on_key_pair, collect, read_key_pairs,
  store_key_pair, opened, decrypt_key_pair,
}

absurd_option : (bytes : List ℕ) → ¬ (some bytes ≡ none)
absurd_option bytes h = cc

-- The rounds of `withKeyFiles`.
module _ {S : Type 0} (f : List ℕ → S → Result (Bool × S)) (slots : Slots) where
  end_at : (n i : ℕ) (state : S) → slots i ≡ none → with_key_files f n i slots state ≡ ok state
  unfolding with_key_files
  end_at zero i state gone = refl
  end_at (suc n) i state gone = rw (with_key_files, gone) refl

  round : ℕ → ℕ → Bool × S → Result S
  round n i ended = elim ended.0 [
    | true ↦ ok ended.1
    | false ↦ with_key_files f n (suc i) slots ended.1
  ]

  round_at :
      (n i : ℕ) (bytes : List ℕ) (state : S)
      → slots i ≡ some bytes
      → with_key_files f (suc n) i slots state ≡ (f bytes state >>= round n i)
  unfolding with_key_files round
  round_at n i bytes state there = rw (with_key_files, there) refl

  step_at :
      (n i : ℕ) (bytes : List ℕ) (state next : S)
      → slots i ≡ some bytes
      → f bytes state ≡ ok (false, next)
      → with_key_files f (suc n) i slots state ≡ with_key_files f n (suc i) slots next
  unfolding round
  step_at n i bytes state next there went =
      round_at n i bytes state there ∙ ap (λ (x : Result (Bool × S)). x >>= round n i) went

module _ (s : Sodium) where
  -- Whatever the other slots hold, `decryptKeyPair` gives the key pair of slot 0, if the password
  -- opens that, and else none.
  pub decrypt_key_pair_first :
      (password bytes rest : List ℕ) (slots : Slots) (k : KeyPair)
      → slots 0 ≡ some bytes
      → (key_pair_codec s).deserialise bytes ≡ ok (k, rest)
      → decrypt_key_pair s password slots ≡ ok (opened s (decrypt_with_password s k password) none)
  unfolding decrypt_key_pair with_key_files
  decrypt_key_pair_first password bytes rest slots k there read = rw (there, read) refl

  found_or_not : (o : Option (List ℕ)) → (o ≡ none) ⊎ ((bytes : List ℕ) × (o ≡ some bytes))
  found_or_not none = inl refl
  found_or_not (some bytes) = inr (bytes, refl)

  taken_not_free :
      (i slot : ℕ) (slots : Slots) (bytes : List ℕ)
      → i ≡ slot
      → slots i ≡ some bytes
      → ¬ (slots slot ≡ none)
  taken_not_free i slot slots bytes same there free =
      absurd_option bytes (sym (subst (λ (j : ℕ). slots j ≡ some bytes) same there) ∙ free)

  -- The slots with one more taken.
  with_slot : KeyPair → ℕ → Slots → Slots
  with_slot k slot slots i = if i == slot then some ((key_pair_codec s).serialise k) else slots i

  own_slot :
      (k : KeyPair) (i slot : ℕ) (slots : Slots)
      → i ≡ slot
      → with_slot k slot slots i ≡ some ((key_pair_codec s).serialise k)
  unfolding with_slot
  own_slot k i slot slots same = let e : (i == slot) ≡ true = ground arith in rw e refl

  other_slot :
      (k : KeyPair) (i slot : ℕ) (slots : Slots) → ¬ (i ≡ slot) → with_slot k slot slots i ≡ slots i
  unfolding with_slot
  other_slot k i slot slots apart = let e : (i == slot) ≡ false = ground arith in rw e refl

  read_on :
      (n i slot : ℕ) (slots : Slots) (acc ks : List KeyPair) (k : KeyPair)
      → (key_pair_codec s).deserialise ((key_pair_codec s).serialise k) ≡ ok (k, [])
      → slots slot ≡ none
      → slots (suc slot) ≡ none
      → slot < i + n
      → with_key_files count_file n i slots i ≡ ok slot
      → with_key_files (on_key_pair s (collect s)) n i slots acc ≡ ok ks
      → with_key_files (on_key_pair s (collect s)) n i (with_slot k slot slots) acc
        ≡ ok (ks ++ k ∷ [])
  unfolding with_key_files
  read_on zero i slot slots acc ks k fits free after below counted read =
      let same : i ≡ slot = ok_injective counted in absurd (omega arith)
  read_on (suc n) i slot slots acc ks k fits free after below counted read =
      elim (found_or_not (slots i)) [
        | inl gone ↦
            let same = ok_injective (sym (end_at count_file slots (suc n) i i gone) ∙ counted) in
            let all =
              ok_injective
                (sym (end_at (on_key_pair s (collect s)) slots (suc n) i acc gone) ∙ read) in
            let last : with_slot k slot slots (suc i) ≡ none =
              other_slot k (suc i) slot slots (λ h. omega arith)
              ∙ subst (λ (j : ℕ). slots (suc j) ≡ none) (sym same) after in
            step_at (on_key_pair s (collect s)) (with_slot k slot slots) n i
              ((key_pair_codec s).serialise k) acc (acc ++ k ∷ []) (own_slot k i slot slots same)
              (rw fits refl)
            ∙ end_at (on_key_pair s (collect s)) (with_slot k slot slots) n (suc i) (acc ++ k ∷ [])
                last
            ∙ ap (λ (xs : List KeyPair). ok (xs ++ k ∷ [])) all
        | inr (bytes, there) ↦
            let apart : ¬ (i ≡ slot) = λ same. taken_not_free i slot slots bytes same there free in
            let (ended, went, rest) =
              >>=-eq-ok (on_key_pair s (collect s) bytes acc)
                (round (on_key_pair s (collect s)) slots n i)
                (sym (round_at (on_key_pair s (collect s)) slots n i bytes acc there) ∙ read) in
            let (parsed, decoded, made) =
              >>=-eq-ok ((key_pair_codec s).deserialise bytes) (λ x. collect s x.0 acc) went in
            let next = acc ++ parsed.0 ∷ [] in
            let step : on_key_pair s (collect s) bytes acc ≡ ok (false, next) = rw decoded refl in
            step_at (on_key_pair s (collect s)) (with_slot k slot slots) n i bytes acc next
              (other_slot k i slot slots apart ∙ there) step
            ∙ read_on n (suc i) slot slots next ks k fits free after (omega arith)
                (sym (step_at count_file slots n i bytes i (suc i) there refl) ∙ counted)
                (sym (step_at (on_key_pair s (collect s)) slots n i bytes acc next there step)
                  ∙ read)
      ]

  -- The loop that counts ends at a slot that is free, if it ends before the last.
  next_free :
      (n i slot : ℕ) (slots : Slots)
      → slot < i + n
      → with_key_files count_file n i slots i ≡ ok slot
      → slots slot ≡ none
  unfolding with_key_files
  next_free zero i slot slots below counted =
      let same : i ≡ slot = ok_injective counted in absurd (omega arith)
  next_free (suc n) i slot slots below counted = elim (found_or_not (slots i)) [
    | inl gone ↦
        let same = ok_injective (sym (end_at count_file slots (suc n) i i gone) ∙ counted) in
        subst (λ (j : ℕ). slots j ≡ none) same gone
    | inr (bytes, there) ↦
        next_free n (suc i) slot slots (omega arith)
          (sym (step_at count_file slots n i bytes i (suc i) there refl) ∙ counted)
  ]

  -- If the next slot is below 255 and nothing is after it, then a key pair whose fields have the sizes
  -- of their types can be stored, and the key pairs that are read then are those that were read
  -- before, and that one at the end.
  pub store_key_pair-read_key_pairs :
      (slots : Slots) (slot : ℕ) (ks : List KeyPair) (k : KeyPair)
      → IsKeyPair s k
      → next_slot slots ≡ ok slot
      → slot < max_key_slots
      → slots (suc slot) ≡ none
      → read_key_pairs s slots ≡ ok ks
      → (slots' : Slots) × (store_key_pair s k slots ≡ ok slots')
        × (read_key_pairs s slots' ≡ ok (ks ++ k ∷ []))
  unfolding next_slot read_key_pairs store_key_pair with_slot
  store_key_pair-read_key_pairs slots slot ks k valid counted below after read =
      let free = next_free max_key_slots 0 slot slots (omega arith) counted in
      let serialised = (key_pair_codec s).serialise k in
      let fits : (key_pair_codec s).deserialise serialised ≡ ok (k, []) =
        ap (key_pair_codec s).deserialise (sym (append-nil serialised))
        ∙ ((key_pair_codec-IsCodec s).reads k valid).round_trip [] in
      (
        with_slot k slot slots,
        rw (counted, free) refl,
        read_on max_key_slots 0 slot slots [] ks k fits free after (omega arith) counted read,
      )

-- ===== src/Parser/KeyValues.antt =====
-- libs/util/include/diffmonger/util/parser/Parser.hpp: the map of the keys of the command line.
use diffmonger.Base.{
  ◌≡◌, inl, inr, refl, sym, ap, ◌∙◌, Bool-cases, true, false, Option, none, some, List, [], ◌∷◌,
  ◌++◌,
}
use diffmonger.Base.Text.{bytes_eq, bytes_eq_refl, eq_of_bytes_eq}
use diffmonger.Parser.TextMap.{
  Text, Map, text_less, find, insert, emplace_if, try_emplace, modify, without,
}
use diffmonger.Parser.Arguments.{KeyValues, append_value, assign_values}

module _ {V : Type 0} where
  find-here :
      (key k : Text) (u : V) (m : Map V) → bytes_eq key k ≡ true → find key ((k, u) ∷ m) ≡ some u
  find-here key k u m h = rw h refl

  pub find-skip :
      (key k : Text) (u : V) (m : Map V)
      → bytes_eq key k ≡ false
      → find key ((k, u) ∷ m) ≡ find key m
  find-skip key k u m h = rw h refl

  find-insert :
      (key : Text) (v : V) (m : Map V) → find key m ≡ none → find key (insert key v m) ≡ some v
  find-insert key v [] h = rw (bytes_eq_refl key) refl
  find-insert key v ((k, u) ∷ m) h = elim (Bool-cases (bytes_eq key k)) [
    | inl same ↦ let found = find-here key k u m same in cc
    | inr other ↦ elim (Bool-cases (text_less key k)) [
      | inl before ↦ rw (before, bytes_eq_refl key) refl
      | inr after ↦ rw (after, other) (find-insert key v m (sym (find-skip key k u m other) ∙ h))
    ]
  ]

  find-insert-other :
      (key other : Text) (v : V) (m : Map V)
      → bytes_eq other key ≡ false
      → find other (insert key v m) ≡ find other m
  find-insert-other key other v [] h = rw h refl
  find-insert-other key other v ((k, u) ∷ m) h = elim (Bool-cases (text_less key k)) [
    | inl before ↦ rw (before, h) refl
    | inr after ↦ elim (Bool-cases (bytes_eq other k)) [
      | inl same ↦ rw (after, same) refl
      | inr apart ↦ rw (after, apart) (find-insert-other key other v m h)
    ]
  ]

  abbrev changed : (V → V) → Option V → Option V
  changed f none = none
  changed f (some v) = some (f v)

  find-modify :
      (key : Text) (f : V → V) (m : Map V) → find key (modify key f m) ≡ changed f (find key m)
  find-modify key f [] = refl
  find-modify key f ((k, u) ∷ m) = elim (Bool-cases (bytes_eq key k)) [
    | inl same ↦ rw (same, same) refl
    | inr apart ↦ rw (apart, apart) (find-modify key f m)
  ]

  find-modify-other :
      (key other : Text) (f : V → V) (m : Map V)
      → bytes_eq other key ≡ false
      → find other (modify key f m) ≡ find other m
  find-modify-other key other f [] h = refl
  find-modify-other key other f ((k, u) ∷ m) h = elim (Bool-cases (bytes_eq key k)) [
    | inl same ↦
        let apart : bytes_eq other k ≡ false =
          ap (bytes_eq other) (sym (eq_of_bytes_eq key k same)) ∙ h in
        rw (same, apart) refl
    | inr differs ↦ elim (Bool-cases (bytes_eq other k)) [
      | inl this ↦ rw (differs, this) refl
      | inr apart ↦ rw (differs, apart) (find-modify-other key other f m h)
    ]
  ]

  pub find-without-other :
      (key other : Text) (m : Map V)
      → bytes_eq other key ≡ false
      → find other (without key m) ≡ find other m
  find-without-other key other [] h = refl
  find-without-other key other ((k, u) ∷ m) h = elim (Bool-cases (bytes_eq key k)) [
    | inl same ↦
        let apart : bytes_eq other k ≡ false =
          ap (bytes_eq other) (sym (eq_of_bytes_eq key k same)) ∙ h in
        rw (same, apart) refl
    | inr differs ↦ elim (Bool-cases (bytes_eq other k)) [
      | inl this ↦ rw (differs, this) refl
      | inr apart ↦ rw (differs, apart) (find-without-other key other m h)
    ]
  ]

  abbrev or_else : Option V → V → V
  or_else none v = v
  or_else (some u) v = u

  find-emplace_if :
      (o : Option V) (key : Text) (v : V) (m : Map V)
      → find key m ≡ o
      → find key (emplace_if o key v m).0 ≡ some (or_else o v)
  find-emplace_if none key v m h = find-insert key v m h
  find-emplace_if (some u) key v m h = h

  find-emplace_if-other :
      (o : Option V) (key other : Text) (v : V) (m : Map V)
      → bytes_eq other key ≡ false
      → find other (emplace_if o key v m).0 ≡ find other m
  find-emplace_if-other none key other v m h = find-insert-other key other v m h
  find-emplace_if-other (some u) key other v m h = refl

-- The values of a key that stands there, or none.
abbrev pub values_of : Text → KeyValues → List Text
values_of key m = or_else (find key m) []

-- After "key=", "key:=" and "key:" the key has just the values that are given, and after "key+=" it
-- has one more, whether or not it was there; every other key is as before.
pub assign_append-find :
    (key value : Text) (values : List Text) (m : KeyValues)
    → (find key (assign_values key values m) ≡ some values)
      × (find key (append_value key value m) ≡ some (values_of key m ++ value ∷ []))
      × ((other : Text)
          → bytes_eq other key ≡ false
          → (find other (assign_values key values m) ≡ find other m)
            × (find other (append_value key value m) ≡ find other m))
unfolding assign_values append_value
assign_append-find key value values m =
    let m0 = (try_emplace key [] m).0 in
    let emplaced = find-emplace_if (find key m) key [] m refl in
    (
      find-modify key (λ before. values) m0 ∙ ap (changed (λ before. values)) emplaced,
      find-modify key (λ before. before ++ value ∷ []) m0
          ∙ ap (changed (λ before. before ++ value ∷ [])) emplaced,
      λ other apart.
          let same = find-emplace_if-other (find key m) key other [] m apart in
          (
            find-modify-other key other (λ before. values) m0 apart ∙ same,
            find-modify-other key other (λ before. before ++ value ∷ []) m0 apart ∙ same,
          ),
    )

-- ===== src/Parser/Render.antt =====
-- libs/util/include/diffmonger/util/parser/Parser.hpp: the grammar of the arguments, as it stands in
-- the comment above `Parser` but for values after a key that ends with ":" alone, which the parser
-- does not take, and how each part of it is read.
use diffmonger.Base.{
  ℕ, ◌≡◌, refl, ap, ◌==◌, Bool, true, false, not, none, List, [], ◌∷◌, ◌++◌, map, arith,
}
use diffmonger.Base.Text.{split, all_of, all_of-append, is_empty, split-append}
use diffmonger.Parser.TextMap.{Text}
use diffmonger.Parser.Arguments.{
  KeyValues, separator, append_token, assign_token, ends_with, drop_last, is_command,
  key_and_maybe_token, value_after, take_values, take_parameter, append_value, assign_values,
}

-- What the arguments say: a key with its values, after ":" or without it, one more value for a key,
-- or a subcommand.
pub data Item : Type 0 where
  sets : Text → List Text → Item
  assigns : Text → Text → List Text → Item
  appends : Text → Text → Item
  enters : Text → Item

-- "=value"
abbrev pub assign_value : Text → Text
assign_value value = separator ∷ value

abbrev pub render_sets : Text → List Text → List Text
render_sets key [] = (key ++ assign_token ∷ []) ∷ []
render_sets key (value ∷ values) =
    ((key ++ assign_token ∷ []) ++ separator ∷ value) ∷ map assign_value values

abbrev pub render : Item → List Text
render (sets key values) = render_sets key values
render (assigns key value values) = (key ++ separator ∷ value) ∷ map assign_value values
render (appends key value) = ((key ++ append_token ∷ []) ++ separator ∷ value) ∷ []
render (enters name) = name ∷ []

abbrev pub render_all : List Item → List Text
render_all [] = []
render_all (item ∷ items) = render item ++ render_all items

abbrev pub is_plain : ℕ → Bool
is_plain c = not (c == separator)

-- A name has no separator and does not end with ":"; a key does not end with "+" nor is it empty.
abbrev pub IsName : Text → Type 0
IsName name = (all_of is_plain name ≡ true) × (ends_with assign_token name ≡ false)

abbrev pub IsKey : Text → Type 0
IsKey key = IsName key × (ends_with append_token key ≡ false) × (is_empty key ≡ false)

abbrev pub IsItem : Item → Type 0
IsItem (sets key values) = IsKey key
IsItem (assigns key value values) = IsKey key
IsItem (appends key value) = IsKey key
IsItem (enters name) = IsName name

abbrev pub AllItems : List Item → Type 0
AllItems [] = Unit {0}
AllItems (item ∷ items) = IsItem item × AllItems items

split-none : (c : ℕ) (xs : Text) → all_of (λ x. not (x == c)) xs ≡ true → split c xs ≡ none
split-none c [] h = refl
split-none c (x ∷ xs) h = ground (arith, split-none c xs)

ends_with-append : (c x : ℕ) (xs : Text) → ends_with c (xs ++ x ∷ []) ≡ (x == c)
ends_with-append c x [] = refl
ends_with-append c x (y ∷ []) = refl
ends_with-append c x (y ∷ z ∷ zs) = ends_with-append c x (z ∷ zs)

drop_last-append : (x : ℕ) (xs : Text) → drop_last (xs ++ x ∷ []) ≡ xs
drop_last-append x [] = refl
drop_last-append x (y ∷ []) = refl
drop_last-append x (y ∷ z ∷ zs) = ap (λ (t : Text). y ∷ t) (drop_last-append x (z ∷ zs))

plain-token :
    (key : Text) (c : ℕ)
    → is_plain c ≡ true
    → all_of is_plain key ≡ true
    → all_of is_plain (key ++ c ∷ []) ≡ true
plain-token key c plain h = all_of-append is_plain key (c ∷ []) h (rw plain refl)

-- The arguments of the next item, which do not start with "=".
abbrev pub Stops : List Text → Type 0
Stops [] = Unit {0}
Stops ([] ∷ args) = Unit {0}
Stops ((c ∷ cs) ∷ args) = (c == separator) ≡ false

take_values-stop : (args : List Text) → Stops args → take_values args ≡ ([], args)
take_values-stop [] h = refl
take_values-stop ([] ∷ args) h = refl
take_values-stop ((c ∷ cs) ∷ args) h = rw h refl

take_values-map :
    (values args : List Text)
    → Stops args
    → take_values (map assign_value values ++ args) ≡ (values, args)
take_values-map [] args h = take_values-stop args h
take_values-map (value ∷ values) args h = rw (take_values-map values args h) refl

name-Stops : (name : Text) (args : List Text) → all_of is_plain name ≡ true → Stops (name ∷ args)
name-Stops [] args h = tt
name-Stops (c ∷ cs) args h = ground arith

key-Stops :
    (key more : Text) (args : List Text)
    → all_of is_plain key ≡ true
    → is_empty key ≡ false
    → Stops ((key ++ more) ∷ args)
key-Stops [] more args h nonempty = cc
key-Stops (c ∷ cs) more args h nonempty = ground arith

token-Stops :
    (key token more : Text) (args : List Text)
    → all_of is_plain key ≡ true
    → is_empty key ≡ false
    → Stops (((key ++ token) ++ more) ∷ args)
token-Stops [] token more args h nonempty = cc
token-Stops (c ∷ cs) token more args h nonempty = ground arith

pub render_all-Stops : (items : List Item) → AllItems items → Stops (render_all items)
render_all-Stops [] h = tt
render_all-Stops (sets key [] ∷ items) (k, h) = key-Stops key (assign_token ∷ []) _ k.0.0 k.2
render_all-Stops (sets key (value ∷ values) ∷ items) (k, h) =
    token-Stops key (assign_token ∷ []) (separator ∷ value) _ k.0.0 k.2
render_all-Stops (assigns key value values ∷ items) (k, h) =
    key-Stops key (separator ∷ value) _ k.0.0 k.2
render_all-Stops (appends key value ∷ items) (k, h) =
    token-Stops key (append_token ∷ []) (separator ∷ value) _ k.0.0 k.2
render_all-Stops (enters name ∷ items) (k, h) = name-Stops name _ k.0

pub name-read :
    (name : Text) → IsName name → (is_command name ≡ true) × (key_and_maybe_token name ≡ name)
unfolding is_command key_and_maybe_token value_after
name-read name n =
    let alone = split-none separator name n.0 in (rw (alone, n.1) refl, rw alone refl)

pub empty-read :
    (key : Text) (args : List Text) (m : KeyValues)
    → IsKey key
    → (is_command (key ++ assign_token ∷ []) ≡ false)
      × (take_parameter (key ++ assign_token ∷ []) args m ≡ (assign_values key [] m, args))
unfolding is_command take_parameter key_and_maybe_token value_after
empty-read key args m k =
    let cur = key ++ assign_token ∷ [] in
    let alone = split-none separator cur (plain-token key assign_token refl k.0.0) in
    let colon = ends_with-append assign_token assign_token key in
    let no_plus = ends_with-append append_token assign_token key in
    (rw (alone, colon) refl, rw (alone, no_plus, colon, drop_last-append assign_token key) refl)

pub sets-read :
    (key value : Text) (values args : List Text) (m : KeyValues)
    → IsKey key
    → Stops args
    → (is_command ((key ++ assign_token ∷ []) ++ separator ∷ value) ≡ false)
      × (take_parameter
            ((key ++ assign_token ∷ []) ++ separator ∷ value)
            (map assign_value values ++ args)
            m
          ≡ (assign_values key (value ∷ values) m, args))
unfolding is_command take_parameter key_and_maybe_token value_after
sets-read key value values args m k stops =
    let parts =
      split-append separator (key ++ assign_token ∷ []) value
        (plain-token key assign_token refl k.0.0) in
    let colon = ends_with-append assign_token assign_token key in
    let no_plus = ends_with-append append_token assign_token key in
    (
      rw parts refl,
      rw
          (
            parts,
            no_plus,
            colon,
            drop_last-append assign_token key,
            take_values-map values args stops,
          )
          refl,
    )

pub assigns-read :
    (key value : Text) (values args : List Text) (m : KeyValues)
    → IsKey key
    → Stops args
    → (is_command (key ++ separator ∷ value) ≡ false)
      × (take_parameter (key ++ separator ∷ value) (map assign_value values ++ args) m
          ≡ (assign_values key (value ∷ values) m, args))
unfolding is_command take_parameter key_and_maybe_token value_after
assigns-read key value values args m k stops =
    let parts = split-append separator key value k.0.0 in
    (rw parts refl, rw (parts, k.1, k.0.1, take_values-map values args stops) refl)

pub appends-read :
    (key value : Text) (args : List Text) (m : KeyValues)
    → IsKey key
    → (is_command ((key ++ append_token ∷ []) ++ separator ∷ value) ≡ false)
      × (take_parameter ((key ++ append_token ∷ []) ++ separator ∷ value) args m
          ≡ (append_value key value m, args))
unfolding is_command take_parameter key_and_maybe_token value_after
appends-read key value args m k =
    let parts =
      split-append separator (key ++ append_token ∷ []) value
        (plain-token key append_token refl k.0.0) in
    let plus = ends_with-append append_token append_token key in
    (rw parts refl, rw (parts, plus, drop_last-append append_token key) refl)

-- ===== src/Parser/Arguments.antt =====
-- libs/util/include/diffmonger/util/parser/Parser.hpp, `Parser::parse`: what
-- an argument is, and the values of the keys.
use diffmonger.Base.{
  ℕ, ◌==◌, Bool, true, false, not, ◌&&◌, Option, none, some, List, [], ◌∷◌, ◌++◌, if◌then◌else◌,
}
use diffmonger.Base.Text.{split}
use diffmonger.Parser.TextMap.{Text, Map, try_emplace, modify}

-- The values of the keys that stand on the command line.
abbrev pub KeyValues : Type 0
KeyValues = Map (List Text)

-- `ends_with` of one character, and the text without it.
abbrev pub ends_with : ℕ → Text → Bool
ends_with c [] = false
ends_with c (x ∷ []) = x == c
ends_with c (x ∷ y ∷ ys) = ends_with c (y ∷ ys)

abbrev pub drop_last : Text → Text
drop_last [] = []
drop_last (x ∷ []) = []
drop_last (x ∷ y ∷ ys) = x ∷ drop_last (y ∷ ys)

-- `keyValueSeparator`, `appendToken` and `assignToken`
abbrev pub separator : ℕ
separator = 61

abbrev pub append_token : ℕ
append_token = 43

abbrev pub assign_token : ℕ
assign_token = 58

-- `keyAndMaybeToken`, and what stands after the separator
abbrev pub before_in : Text → Option (Text × Text) → Text
before_in cur none = cur
before_in cur (some (before, after)) = before

abbrev pub after_in : Option (Text × Text) → Option Text
after_in none = none
after_in (some (before, after)) = some after

unfoldable pub key_and_maybe_token : Text → Text
key_and_maybe_token cur = before_in cur (split separator cur)

unfoldable pub value_after : Text → Option Text
value_after cur = after_in (split separator cur)

abbrev pub is_none : Option Text → Bool
is_none none = true
is_none (some t) = false

abbrev pub or_empty : Option Text → Text
or_empty none = []
or_empty (some t) = t

-- Whether an argument is a command.
unfoldable pub is_command : Text → Bool
unfolding key_and_maybe_token value_after
is_command cur = is_none (value_after cur) && not (ends_with assign_token (key_and_maybe_token cur))

-- "key+=value"
unfoldable pub append_value : Text → Text → KeyValues → KeyValues
append_value key value m = modify key (λ values. values ++ value ∷ []) (try_emplace key [] m).0

-- The values of "key=", "key:=" and "key:"
unfoldable pub assign_values : Text → List Text → KeyValues → KeyValues
assign_values key values m = modify key (λ before. values) (try_emplace key [] m).0

-- The arguments that follow, as long as they start with the separator.
abbrev pub take_values : List Text → List Text × List Text
take_values [] = ([], [])
take_values ([] ∷ args) = ([], [] ∷ args)
take_values ((c ∷ value) ∷ args) =
    let (values, rest) = take_values args in
    if c == separator then (value ∷ values, rest) else ([], (c ∷ value) ∷ args)

abbrev pub take_assigned : Text → Option Text → List Text → KeyValues → KeyValues × List Text
take_assigned key none args m = (assign_values key [] m, args)
take_assigned key (some value) args m =
    let (values, rest) = take_values args in (assign_values key (value ∷ values) m, rest)

abbrev pub assigned_key : Text → Text
assigned_key key = if ends_with assign_token key then drop_last key else key

-- An argument that is a parameter, with the arguments that follow.
unfoldable pub take_parameter : Text → List Text → KeyValues → KeyValues × List Text
unfolding key_and_maybe_token value_after append_value assign_values
take_parameter cur args m =
    let key = key_and_maybe_token cur in
    if ends_with append_token key
    then (append_value (drop_last key) (or_empty (value_after cur)) m, args)
    else take_assigned (assigned_key key) (value_after cur) args m

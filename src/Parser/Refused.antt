-- ===== src/Parser/Refused.antt =====
-- libs/util/include/diffmonger/util/parser/Parser.hpp, `Parser::finalise`: arguments that are refused.
use diffmonger.Base.{ℕ, ◌≡◌, ◌⊎◌, inl, inr, refl, ap, ◌∙◌, none, some, List, [], ◌∷◌}
use diffmonger.Error.{Result-cases, Error, ok, err, argument_error}
use diffmonger.Parser.TextMap.{Text, Map, find}
use diffmonger.Parser.Parameters.{required, Parameter, Graph, at, lookup_command}
use diffmonger.Parser.Arguments.{KeyValues}
use diffmonger.Parser.Parse.{
  Commands, or_unrecognised, finalise_parameters, finalise, finish, enter, unrecognised,
}
use diffmonger.Parser.Finalise.{AllFinal, Distinct, Named, finalise_parameters-AllFinal}

-- A parameter of the command is required, has no value yet, and none stands on the command line.
abbrev pub IsMissing : {V : Type 0} → KeyValues → Map (Parameter V) → Type 0
IsMissing m [] = ⊥
IsMissing m ((k, p) ∷ ps) =
    ((p.kind ≡ required) × (p.storage ≡ none) × (find p.name m ≡ none)) ⊎ IsMissing m ps

-- What a command line is refused for: a key that is no parameter's, or a value that is missing.
abbrev pub IsRefused : {V : Type 0} → KeyValues → Map (Parameter V) → Type 0
IsRefused m ps =
    ((key : Text) × (values : List Text) × (find key m ≡ some values) × ¬ (Named key ps))
    ⊎ IsMissing m ps

not-IsMissing :
    {V : Type 0}
    → (m : KeyValues) (ps ps' : Map (Parameter V)) → AllFinal m ps ps'
    → ¬ (IsMissing m ps)
not-IsMissing m [] ps' all missing = missing
not-IsMissing m (pair ∷ ps) [] all missing = all
not-IsMissing m ((k, p) ∷ ps) ((k', p') ∷ ps') (same, f, all) (inr later) =
    not-IsMissing m ps ps' all later
not-IsMissing m ((k, p) ∷ ps) ((k', p') ∷ ps') (same, f, all) (inl (needed, empty, absent)) =
    let (v, stored) = f.present (f.same_kind ∙ needed) in
    let nothing : p'.storage ≡ none = f.kept absent ∙ empty in cc

left-refused :
    (rest : KeyValues) (key : Text) (values : List Text)
    → find key rest ≡ some values
    → unrecognised rest ≡ err argument_error
left-refused [] key values h = cc
left-refused (pair ∷ rest) key values h = refl

module _ {V W : Type 0} (commands : Commands V W)
    (default : (command : ℕ) (m : KeyValues) (s : Graph V × W)
      → commands.unrecognised_parameters command m s ≡ (unrecognised m, s)) where
  finalise-left :
      (command : ℕ) (m rest : KeyValues) (g : Graph V) (w : W)
      → (finalise_parameters m (g.parameters command)).0 ≡ ok rest
      → unrecognised rest ≡ err argument_error
      → (g' : Graph V) × (finalise commands command m (g, w) ≡ (err argument_error, (g', w)))
  unfolding finalise
  finalise-left command m rest g w returned left =
      let g' : Graph V = record g {
        parameters = at command (finalise_parameters m (g.parameters command)).1 g.parameters;
      } in
      (g', rw (finalise, returned) (default command rest (g', w) ∙ ap (λ x. (x, (g', w))) left))

  finalise-refused :
      (command : ℕ) (m : KeyValues) (g : Graph V) (w : W)
      → Distinct (g.parameters command)
      → IsRefused m (g.parameters command)
      → (e : Error) × (g' : Graph V) × (finalise commands command m (g, w) ≡ (err e, (g', w)))
  unfolding finalise
  finalise-refused command m g w distinct refused =
      let ps = g.parameters command in
      elim (Result-cases (finalise_parameters m ps).0) [
        | inl (e, thrown) ↦ (
          e,
          record g { parameters = at command (finalise_parameters m ps).1 g.parameters },
          rw (finalise, thrown) refl,
        )
        | inr (rest, returned) ↦
            let (all, found_or_left) = finalise_parameters-AllFinal m rest ps distinct returned in
            elim refused [
              | inr missing ↦ absurd (not-IsMissing m ps (finalise_parameters m ps).1 all missing)
              | inl (key, values, found, unnamed) ↦ elim (found_or_left key values found) [
                | inl named ↦ absurd (unnamed named)
                | inr left ↦
                    let (g', thrown) =
                      finalise-left command m rest g w returned
                        (left-refused rest key values left) in
                    (argument_error, g', thrown)
              ]
            ]
      ]

  -- If the commands have the default `unrecognisedParameters`, a command's parameters have
  -- different names, and the command line has a key that is none of them or lacks the value of a
  -- required one that has none, then at the end of the arguments the parser throws, and so it does
  -- at a subcommand; in either case the program's state is as it was.
  pub finish-refused :
      (command : ℕ) (m : KeyValues) (name : Text) (g : Graph V) (w : W)
      → Distinct (g.parameters command)
      → IsRefused m (g.parameters command)
      → ((e : Error) × (g' : Graph V) × (finish commands command m (g, w) ≡ (err e, (g', w))))
        × ((e : Error) × (g' : Graph V) × (enter commands command m name (g, w) ≡ (err e, (g', w))))
  unfolding finish enter
  finish-refused command m name g w distinct refused =
      let (e, g', thrown) = finalise-refused command m g w distinct refused in
      (
        (e, g', rw (finish, thrown) refl),
        elim (Result-cases (or_unrecognised (lookup_command command name g))) [
          | inl (unknown, none_there) ↦ (unknown, g, rw (enter, none_there) refl)
          | inr (next, there) ↦ (e, g', rw (enter, there, thrown) refl)
        ],
      )

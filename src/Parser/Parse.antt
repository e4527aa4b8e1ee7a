-- ===== src/Parser/Parse.antt =====
-- libs/util/include/diffmonger/util/parser/Parser.hpp: `Parser::finalise` and
-- `Parser::parse`.
use diffmonger.Base.{length, ℕ, zero, suc, true, false, Option, none, some, List, [], ◌∷◌}
use diffmonger.Error.{Result, ok, err, ◌>>=◌, argument_error, no_fuel}
use diffmonger.Parser.TextMap.{Text, Map, find, without}
use diffmonger.Zfs.Commands.{Run}
use diffmonger.ZfsDriver.{resume}
use diffmonger.Parser.Parameters.{Parameter, set, get, Graph, at, lookup_command}
use diffmonger.Parser.Arguments.{KeyValues, is_command, key_and_maybe_token, take_parameter}

-- The default of `unrecognisedParameters`
abbrev pub unrecognised : KeyValues → Result (Unit {0})
unrecognised [] = ok tt
unrecognised (pair ∷ key_values) = err argument_error

-- `finalise`, at one parameter
abbrev pub given_or_kept : {V : Type 0} → Option (List Text) → Parameter V → Result (Parameter V)
given_or_kept none p = ok p
given_or_kept (some values) p = set values p

unfoldable pub finalise_parameter : {V : Type 0} → KeyValues → Parameter V → Result (Parameter V)
finalise_parameter m p = do p' ← given_or_kept (find p.name m) p; _ ← get p'; ok p'

-- The loop over the parameters: what is left of the keys, and the parameters with their values.
unfoldable pub finalise_parameters :
    {V : Type 0} → KeyValues → Map (Parameter V) → Result KeyValues × Map (Parameter V)
finalise_parameters m [] = (ok m, [])
finalise_parameters m ((k, p) ∷ ps) = elim (finalise_parameter m p) [
  | err e ↦ (err e, (k, p) ∷ ps)
  | ok p' ↦ let (rest, ps') = finalise_parameters (without p.name m) ps in (rest, (k, p') ∷ ps')
]

-- The virtual functions of the commands, which may change the graph and the program's state.
pub record Commands (V W : Type 0) : Type 0 where
  pub on_enter : ℕ → Run (Graph V × W) (Unit {0})
  pub before_subcommand : ℕ → ℕ → Run (Graph V × W) (Unit {0})
  pub execute : ℕ → Run (Graph V × W) (Unit {0})
  pub unrecognised_parameters : ℕ → KeyValues → Run (Graph V × W) (Unit {0})

abbrev pub or_unrecognised : Option ℕ → Result ℕ
or_unrecognised none = err argument_error
or_unrecognised (some command) = ok command

module _ {V W : Type 0} (commands : Commands V W) where
  unfoldable pub finalise : ℕ → KeyValues → Run (Graph V × W) (Unit {0})
  finalise command m (g, w) =
      let (rest, ps) = finalise_parameters m (g.parameters command) in
      resume (rest, (record g { parameters = at command ps g.parameters }, w))
        (commands.unrecognised_parameters command)

  -- The parser goes on to a subcommand.
  unfoldable pub enter : ℕ → KeyValues → Text → Run (Graph V × W) ℕ
  enter command m name s =
      resume (or_unrecognised (lookup_command command name s.0), s)
        (λ next s1. resume (finalise command m s1) (λ u s2.
          resume (commands.before_subcommand command next s2)
            (λ v s3. resume (commands.on_enter next s3) (λ x s4. (ok next, s4)))))

  -- The end of the arguments.
  unfoldable pub finish : ℕ → KeyValues → Run (Graph V × W) (Unit {0})
  finish command m s = resume (finalise command m s) (λ u. commands.execute command)

  -- The loop of `parse`, with fuel for its rounds.
  unfoldable pub parse_loop : ℕ → ℕ → KeyValues → List Text → Run (Graph V × W) (Unit {0})
  parse_loop zero command m args s = (err no_fuel, s)
  parse_loop (suc fuel) command m [] s = finish command m s
  parse_loop (suc fuel) command m (cur ∷ args) s = elim (is_command cur) [
    | true ↦
        resume (enter command m (key_and_maybe_token cur) s) (λ next. parse_loop fuel next [] args)
    | false ↦ let (m', rest) = take_parameter cur args m in parse_loop fuel command m' rest s
  ]

  -- `Parser::parse`
  unfoldable pub parse : ℕ → List Text → Run (Graph V × W) (Unit {0})
  parse command args s =
      resume (commands.on_enter command s) (λ u. parse_loop (suc (length args)) command [] args)

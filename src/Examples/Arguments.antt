-- ===== src/Examples/Arguments.antt =====
-- Command lines, as libs/util/include/diffmonger/util/parser/Parser.hpp reads them, of one command that
-- requires a parameter, and values of src/CommandLineInterface.cpp.
use diffmonger.Base.{
  ℕ, ◌<◌, ◌^◌, ◌+◌, ◌≤◌, ◌≡◌, ◌⊎◌, refl, inl, inr, false, none, some, List, [], ◌∷◌, ◌++◌,
}
use diffmonger.Base.Text.{codes, bytes_eq}
use diffmonger.Base.Text.Decimal.{to_string}
use diffmonger.Error.{Error, ok, err, argument_error, bad_value}
use diffmonger.Parser.TextMap.{Text, Map, find}
use diffmonger.Parser.Parameters.{required, Parameter, Graph, set, get}
use diffmonger.Parser.Arguments.{KeyValues}
use diffmonger.Parser.Values.{scalar, negated}
use diffmonger.Parser.Parse.{
  Commands, unrecognised, finalise_parameter, finalise_parameters, finish, enter,
}
use diffmonger.Parser.Finalise.{AllFinal, Named, finalise_parameters-AllFinal}
use diffmonger.Parser.Refused.{finish-refused}
use diffmonger.CommandLine.{
  node, relative_node, latest_node, process_node, min_seconds_between_snapshots,
}
use diffmonger.CommandLine.Laws.{process_node-to_string, min_seconds_between_snapshots-to_string}

abbrev node_parameter : Parameter Text
node_parameter = record { name = codes "node"; kind = required; chain = scalar; storage = none }

abbrev parameters : Map (Parameter Text)
parameters = (codes "node", node_parameter) ∷ []

abbrev graph : Graph Text
graph = record { subcommands = λ command. []; parameters = λ command. parameters }

-- `execute` counts its calls.
abbrev counting : Commands Text ℕ
counting = record {
  on_enter = λ command s. (ok tt, s);
  before_subcommand = λ command next s. (ok tt, s);
  execute = λ command s. (ok tt, (s.0, s.1 + 1));
  unrecognised_parameters = λ command m s. (unrecognised m, s);
}

abbrev given : KeyValues
given = (codes "node", codes "-1" ∷ []) ∷ (codes "x", []) ∷ []

given_left : (finalise_parameters given parameters).0 ≡ ok ((codes "x", []) ∷ [])
unfolding finalise_parameters finalise_parameter set get scalar
given_left = refl

finalise_parameters-AllFinal_example :
    AllFinal given parameters (finalise_parameters given parameters).1
    × ((key : Text) (values : List Text)
        → find key given ≡ some values
        → Named key parameters ⊎ (find key ((codes "x", []) ∷ []) ≡ some values))
finalise_parameters-AllFinal_example =
    finalise_parameters-AllFinal given ((codes "x", []) ∷ []) parameters (tt, tt) given_left

-- The node is missing.
finish-refused_example :
    ((e : Error) × (g' : Graph Text) × (finish counting 0 [] (graph, 0) ≡ (err e, (g', 0))))
    × ((e : Error) × (g' : Graph Text) × (enter counting 0 [] (codes "help") (graph, 0)
          ≡ (err e, (g', 0))))
finish-refused_example =
    finish-refused counting (λ command m s. refl) 0 [] (codes "help") graph 0 (tt, tt)
      (inr (inl (refl, refl, refl)))

process_node-to_string_example :
    (12 < 2 ^ 64 → process_node (to_string 12) ≡ ok (node 12))
    × (12 ≤ 2 ^ 63 → process_node (45 ∷ to_string 12) ≡ ok (relative_node (negated 12)))
    × (process_node (codes "+max") ≡ ok latest_node)
    × ((text : Text)
        → bytes_eq text (codes "max") ≡ false
        → process_node (43 ∷ text) ≡ err argument_error)
process_node-to_string_example = process_node-to_string 12

min_seconds_between_snapshots-to_string_example :
    (2 < 2 ^ 64 → min_seconds_between_snapshots (to_string 2 ++ codes "s") ≡ ok 2)
    × (120 < 2 ^ 64 → min_seconds_between_snapshots (to_string 2 ++ codes "m") ≡ ok 120)
    × (7200 < 2 ^ 64 → min_seconds_between_snapshots (to_string 2 ++ codes "h") ≡ ok 7200)
    × (172800 < 2 ^ 64 → min_seconds_between_snapshots (to_string 2 ++ codes "d") ≡ ok 172800)
    × (1209600 < 2 ^ 64 → min_seconds_between_snapshots (to_string 2 ++ codes "w") ≡ ok 1209600)
    × (2 < 2 ^ 64 → min_seconds_between_snapshots (to_string 2) ≡ err bad_value)
min_seconds_between_snapshots-to_string_example = min_seconds_between_snapshots-to_string 2

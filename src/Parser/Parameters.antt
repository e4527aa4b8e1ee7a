-- ===== src/Parser/Parameters.antt =====
-- libs/util/include/diffmonger/util/parser/Parser.hpp: the parameters and
-- the commands.
use diffmonger.Base.{ℕ, ◌==◌, Option, none, some, List, if◌then◌else◌}
use diffmonger.Error.{Result, ok, err, ◌>>=◌, argument_error, assertion_failed, duplicate}
use diffmonger.Parser.TextMap.{Text, Map, find, try_emplace}

-- `Parameter::VariantT`
pub data Kind : Type 0 where
  required : Kind
  defaulted : List Text → Kind
  optional : Kind

-- `Parameter` and `ParameterHelper`: the chain as one function, and what `Storage` holds.
pub record Parameter (V : Type 0) : Type 0 where
  pub name : Text
  pub kind : Kind
  pub chain : List Text → Result V
  pub storage : Option V

-- The constructor of `ParameterHelper`
abbrev pub initial_storage : {V : Type 0} → Kind → (List Text → Result V) → Result (Option V)
initial_storage required chain = ok none
initial_storage (defaulted values) chain = chain values >>= λ v. ok (some v)
initial_storage optional chain = ok none

unfoldable pub parameter :
    {V : Type 0} → Text → Kind → (List Text → Result V) → Result (Parameter V)
parameter name kind chain = do
  storage ← initial_storage kind chain
  ok (record { name = name; kind = kind; chain = chain; storage = storage })

-- `ParameterHelper::set`
unfoldable pub set : {V : Type 0} → List Text → Parameter V → Result (Parameter V)
set values p = p.chain values >>= λ v. ok (record p { storage = some v })

-- `Storage::get`, and `check`
abbrev pub stored_or : {V : Type 0} → Kind → Option V → Result (Option V)
stored_or required none = err argument_error
stored_or (defaulted values) none = err assertion_failed
stored_or optional none = ok none
stored_or kind (some v) = ok (some v)

unfoldable pub get : {V : Type 0} → Parameter V → Result (Option V)
get p = stored_or p.kind p.storage

-- The object graph.
pub record Graph (V : Type 0) : Type 0 where
  pub subcommands : ℕ → Map ℕ
  pub parameters : ℕ → Map (Parameter V)

abbrev pub at {ℓ} : {A : Type ℓ} → ℕ → A → (ℕ → A) → ℕ → A
at n a f k = if k == n then a else f k

-- `emplaceSubCommand` and `addParameter`
unfoldable pub emplace_sub_command : {V : Type 0} → ℕ → Text → ℕ → Graph V → Result (Graph V)
emplace_sub_command parent name command g =
    let (m, is_new) = try_emplace name command (g.subcommands parent) in
    if is_new then ok (record g { subcommands = at parent m g.subcommands }) else err duplicate

unfoldable pub add_parameter : {V : Type 0} → ℕ → Parameter V → Graph V → Result (Graph V)
add_parameter command p g =
    let (m, is_new) = try_emplace p.name p (g.parameters command) in
    if is_new then ok (record g { parameters = at command m g.parameters }) else err duplicate

-- `lookupCommand`
unfoldable pub lookup_command : {V : Type 0} → ℕ → Text → Graph V → Option ℕ
lookup_command command name g = find name (g.subcommands command)

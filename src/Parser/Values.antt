-- ===== src/Parser/Values.antt =====
-- libs/util/include/diffmonger/util/parser/Parser.hpp: the classes of namespace `parameter` that make
-- values of the texts, with `std::from_chars` as they use it.
pub mod Laws
use diffmonger.Base.{
  ℕ, zero, suc, ◌-◌, ◌^◌, ◌==◌, ltb, leb, Bool, true, false, Option, none, some, List, [], ◌∷◌,
  if◌then◌else◌,
}
use diffmonger.Base.Int.{ℤ, pos, negsuc}
use diffmonger.Base.Text.{codes, is_digit, is_empty}
use diffmonger.Base.Text.Decimal.{digits_value}
use diffmonger.Error.{Result, ok, err, ◌>>=◌, argument_error}
use diffmonger.Parser.TextMap.{Text, Map, find}

-- The digits at the front, and what follows them.
abbrev pub digits : Text → Text × Text
digits [] = ([], [])
digits (c ∷ cs) =
    let (front, rest) = digits cs in if is_digit c then (c ∷ front, rest) else ([], c ∷ cs)

-- `std::from_chars` of a number that is at most `bound`, and what follows it.
abbrev pub from_chars : ℕ → Text → Option (ℕ × Text)
from_chars bound text =
    let (front, rest) = digits text in
    if is_empty front
    then none
    else if leb (digits_value 0 front) bound
    then some (digits_value 0 front, rest)
    else none

-- `Integer<uint64_t>::process`; what follows the digits is not looked at.
abbrev pub number_or : Option (ℕ × Text) → Result ℕ
number_or none = err argument_error
number_or (some (n, rest)) = ok n

unfoldable pub unsigned_integer : Text → Result ℕ
unsigned_integer text = number_or (from_chars (2 ^ 64 - 1) text)

-- `Integer<int64_t>::process`
abbrev pub negated : ℕ → ℤ
negated zero = pos zero
negated (suc n) = negsuc n

unfoldable pub signed_integer : Text → Result ℤ
signed_integer [] = err argument_error
signed_integer (c ∷ cs) = elim (c == 45) [
  | true ↦ number_or (from_chars (2 ^ 63) cs) >>= λ n. ok (negated n)
  | false ↦ number_or (from_chars (2 ^ 63 - 1) (c ∷ cs)) >>= λ n. ok (pos n)
]

-- `NonNegative::process`
unfoldable pub non_negative : ℤ → Result ℕ
non_negative (pos n) = ok n
non_negative (negsuc n) = err argument_error

-- `Scalar::process`
unfoldable pub scalar : List Text → Result Text
scalar [] = err argument_error
scalar (value ∷ []) = ok value
scalar (value ∷ other ∷ values) = err argument_error

-- `Vector::process`
unfoldable pub vector : List Text → Result (List Text)
vector values = ok values

-- `Choice::process` and `Boolean::process`
abbrev pub chosen_or {ℓ} : {A : Type ℓ} → Option A → Result A
chosen_or none = err argument_error
chosen_or (some a) = ok a

unfoldable pub choice {ℓ} : {A : Type ℓ} → Map A → Text → Result A
choice options text = chosen_or (find text options)

unfoldable pub boolean : Text → Result Bool
unfolding choice
boolean = choice ((codes "false", false) ∷ (codes "true", true) ∷ [])

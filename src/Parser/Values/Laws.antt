-- ===== src/Parser/Values/Laws.antt =====
-- libs/util/include/diffmonger/util/parser/Parser.hpp, `Integer::process`: what it reads.
use diffmonger.Base.{
  ℕ, ◌-◌, ◌^◌, ◌<◌, ◌≤◌, ◌≡◌, refl, ap, ◌∙◌, ◌==◌, leb, true, false, some, [], ◌∷◌, ◌++◌, arith,
}
use diffmonger.Base.Int.{pos}
use diffmonger.Base.Text.{is_digit, is_empty, all_of}
use diffmonger.Base.Text.Decimal.{
  to_string, to_string-digits, to_string-nonempty, digits_value-to_string,
}
use diffmonger.Error.{ok, err, ◌>>=◌, argument_error}
use diffmonger.Parser.TextMap.{Text}
use diffmonger.Parser.Values.{
  digits, number_or, from_chars, unsigned_integer, signed_integer, negated,
}

-- The text does not start with a digit.
abbrev pub NoDigit : Text → Type 0
NoDigit [] = Unit {0}
NoDigit (c ∷ cs) = is_digit c ≡ false

digits-append :
    (front rest : Text)
    → all_of is_digit front ≡ true
    → NoDigit rest
    → digits (front ++ rest) ≡ (front, rest)
digits-append [] [] all no_digit = refl
digits-append [] (c ∷ cs) all no_digit = rw no_digit refl
digits-append (c ∷ cs) rest all no_digit =
    let first : is_digit c ≡ true = ground arith in
    let others : all_of is_digit cs ≡ true = ground arith in
    rw (digits-append cs rest others no_digit, first) refl

pub from_chars-to_string :
    (bound n : ℕ) (rest : Text)
    → n ≤ bound
    → NoDigit rest
    → from_chars bound (to_string n ++ rest) ≡ some (n, rest)
from_chars-to_string bound n rest small no_digit =
    let parts = digits-append (to_string n) rest (to_string-digits n) no_digit in
    let within : leb n bound ≡ true = ground arith in
    rw (parts, to_string-nonempty n, digits_value-to_string n, within) refl

unsigned-number :
    (text rest : Text)
    → all_of is_digit text ≡ true
    → is_empty text ≡ false
    → signed_integer (text ++ rest)
      ≡ (number_or (from_chars (2 ^ 63 - 1) (text ++ rest)) >>= λ n. ok (pos n))
unfolding signed_integer
unsigned-number [] rest all nonempty = cc
unsigned-number (c ∷ cs) rest all nonempty =
    let apart : (c == 45) ≡ false = ground arith in rw (signed_integer, apart) refl

-- The decimal form of a number, with anything after it that does not start with a digit, is read by
-- `Integer` as the number, if that is in the range of the type: what follows it is ignored. After a
-- "-" it is the negative number, and after a "+" nothing is a number.
pub signed_integer-to_string :
    (n : ℕ) (rest : Text)
    → NoDigit rest
    → (n < 2 ^ 64 → unsigned_integer (to_string n ++ rest) ≡ ok n)
      × (n < 2 ^ 63 → signed_integer (to_string n ++ rest) ≡ ok (pos n))
      × (n ≤ 2 ^ 63 → signed_integer (45 ∷ to_string n ++ rest) ≡ ok (negated n))
      × ((text : Text) → signed_integer (43 ∷ text) ≡ err argument_error)
unfolding unsigned_integer signed_integer
signed_integer-to_string n rest no_digit = (
  λ small. rw (from_chars-to_string (2 ^ 64 - 1) n rest (omega (arith, small)) no_digit) refl,
  λ small.
      unsigned-number (to_string n) rest (to_string-digits n) (to_string-nonempty n)
      ∙ ap (λ o. number_or o >>= λ m. ok (pos m))
          (from_chars-to_string (2 ^ 63 - 1) n rest (omega (arith, small)) no_digit),
  λ small. rw (from_chars-to_string (2 ^ 63) n rest small no_digit) refl,
  λ text. refl,
)

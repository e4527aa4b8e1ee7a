-- ===== src/Base/Text/Decimal.antt =====
-- `std::to_string` and `std::stoull` of 64-bit words, and that each undoes the other.
use Prim.Native.Nat.{ℕ, zero, suc, ◌+◌, ◌-◌, ◌*◌, ◌/◌, ◌%◌, ◌^◌, ◌≤◌, ◌<◌}
use mathlib.Core.Path.{◌≡◌, refl, ap, ◌∙◌}
use mathlib.Core.Bool.{true, false}
use mathlib.Core.List.{List, [], ◌∷◌}
use mathlib.Core.Logic.{inl, inr}
use native.Mathlib.Omega.{arith}
use native.Mathlib.Nat.{pow-suc}
use diffmonger.Base.Tests.{◌==◌, if◌then◌else◌, Bool-cases}
use diffmonger.Base.Lists.{length}
use diffmonger.Base.Text.{is_digit, all_of, is_empty}

-- The digits of `n` before `tail`; there are at most as many as the fuel.
print : ℕ → ℕ → List ℕ → List ℕ
print zero n tail = tail
print (suc fuel) n tail =
    let here = (48 + n % 10) ∷ tail in
    let more = print fuel (n / 10) here in if n / 10 == 0 then here else more

unfoldable pub to_string : ℕ → List ℕ
unfolding print
to_string n = print (suc n) n []

-- The value of a list of digits, after digits of the value `acc`.
abbrev pub digits_value : ℕ → List ℕ → ℕ
digits_value acc [] = acc
digits_value acc (c ∷ cs) = digits_value (acc * 10 + (c - 48)) cs

digits_value-print :
    (fuel n : ℕ) (tail : List ℕ)
    → n < fuel
    → digits_value 0 (print fuel n tail) ≡ digits_value n tail
unfolding print
digits_value-print zero n tail h = absurd (omega arith)
digits_value-print (suc fuel) n tail h = elim (Bool-cases (n / 10 == 0)) [
  | inl done ↦ rw done (ap (λ (m : ℕ). digits_value m tail) (ground arith))
  | inr more ↦ rw more (
      digits_value-print fuel (n / 10) ((48 + n % 10) ∷ tail) (ground arith)
      ∙ ap (λ (m : ℕ). digits_value m tail) (omega arith))
]

pub digits_value-to_string : (n : ℕ) → digits_value 0 (to_string n) ≡ n
unfolding to_string
digits_value-to_string n = digits_value-print (suc n) n [] (omega arith)

print-digits :
    (fuel n : ℕ) (tail : List ℕ)
    → all_of is_digit tail ≡ true
    → all_of is_digit (print fuel n tail) ≡ true
unfolding print
print-digits zero n tail h = h
print-digits (suc fuel) n tail h =
    let digit : is_digit (48 + n % 10) ≡ true = ground arith in
    elim (Bool-cases (n / 10 == 0)) [
      | inl done ↦ rw (done, digit) h
      | inr more ↦ rw more (print-digits fuel (n / 10) ((48 + n % 10) ∷ tail) (rw digit h))
    ]

pub to_string-digits : (n : ℕ) → all_of is_digit (to_string n) ≡ true
unfolding to_string
to_string-digits n = print-digits (suc n) n [] refl

print-nonempty : (fuel n c : ℕ) (tail : List ℕ) → is_empty (print fuel n (c ∷ tail)) ≡ false
unfolding print
print-nonempty zero n c tail = refl
print-nonempty (suc fuel) n c tail =
    ground (arith, print-nonempty fuel (n / 10) (48 + n % 10) (c ∷ tail))

ten-pow-suc : (k : ℕ) → 10 ^ suc k ≡ 10 * 10 ^ k
ten-pow-suc k = omega (arith, pow-suc 10 k)

pow-zero : (k : ℕ) → k ≡ 0 → 10 ^ k ≡ 1
pow-zero k h = rw h refl

print-length :
    (k fuel n : ℕ) (tail : List ℕ)
    → n < 10 ^ k
    → 0 < k
    → length (print fuel n tail) ≤ k + length tail
unfolding print
print-length zero fuel n tail h pos = absurd (omega arith)
print-length (suc k) zero n tail h pos = omega arith
print-length (suc k) (suc fuel) n tail h pos = elim (Bool-cases (n / 10 == 0)) [
  | inl done ↦ rw done (omega arith)
  | inr more ↦
      let power = ten-pow-suc k in
      let long : 0 < k = ground (arith, pow-zero k) in
      rw more (
        omega
          (arith, print-length k fuel (n / 10) ((48 + n % 10) ∷ tail) (omega (arith, power)) long))
]

pub length-to_string : (n : ℕ) → n < 2 ^ 64 → length (to_string n) ≤ 20
unfolding to_string
length-to_string n h = print-length 20 (suc n) n [] (omega arith) (omega arith)

-- There is a digit.
pub to_string-nonempty : (n : ℕ) → is_empty (to_string n) ≡ false
unfolding to_string
to_string-nonempty n = ground (arith, print-nonempty n (n / 10) (48 + n % 10) [])

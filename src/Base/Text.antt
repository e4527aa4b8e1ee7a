-- ===== src/Base/Text.antt =====
-- Strings as lists of bytes, with the functions of the C++ library that the program uses on them.
pub mod Decimal
use Prim.Native.Nat.{ℕ, zero, suc, ◌+◌, ◌-◌, ◌*◌, ◌/◌, ◌%◌, ◌≤◌, ◌<◌}
use Prim.Native.Char.{code}
use Prim.Native.String
use Prim.Native.String.{String}
use mathlib.Core.Path.{◌≡◌, refl, ap}
use mathlib.Core.Bool.{Bool, true, false, ◌&&◌, ◌||◌, not}
use mathlib.Core.Option.{Option, none, some}
use mathlib.Core.List.{List, [], ◌∷◌, ◌++◌}
use native.Mathlib.Omega.{arith}
use diffmonger.Base.Tests.{ltb, leb, ◌==◌, if◌then◌else◌}

-- The bytes of a literal, which is ASCII.
abbrev pub codes : String → List ℕ
codes String.[] = []
codes (String.◌∷◌ c s) = code c ∷ codes s

-- `std::isdigit`, and the classes of the regular expressions
abbrev pub is_digit : ℕ → Bool
is_digit c = leb 48 c && leb c 57

abbrev pub is_alpha : ℕ → Bool
is_alpha c = (leb 65 c && leb c 90) || (leb 97 c && leb c 122)

-- `std::all_of`
abbrev pub all_of : (ℕ → Bool) → List ℕ → Bool
all_of p [] = true
all_of p (c ∷ cs) = p c && all_of p cs

abbrev pub is_empty {ℓ} : {A : Type ℓ} → List A → Bool
is_empty [] = true
is_empty (x ∷ xs) = false

-- `operator==` of strings
abbrev pub bytes_eq : List ℕ → List ℕ → Bool
bytes_eq [] [] = true
bytes_eq [] (y ∷ ys) = false
bytes_eq (x ∷ xs) [] = false
bytes_eq (x ∷ xs) (y ∷ ys) = x == y && bytes_eq xs ys

-- `std::find`: what stands before the first `c` and what after it.
abbrev pub continue_split : ℕ → Option (List ℕ × List ℕ) → Option (List ℕ × List ℕ)
continue_split x none = none
continue_split x (some (before, after)) = some (x ∷ before, after)

abbrev pub split : ℕ → List ℕ → Option (List ℕ × List ℕ)
split c [] = none
split c (x ∷ xs) = if x == c then some ([], xs) else continue_split x (split c xs)

pub bytes_eq_refl : (xs : List ℕ) → bytes_eq xs xs ≡ true
bytes_eq_refl [] = refl
bytes_eq_refl (x ∷ xs) = ground (arith, bytes_eq_refl xs)

pub eq_of_bytes_eq : (xs ys : List ℕ) → bytes_eq xs ys ≡ true → xs ≡ ys
eq_of_bytes_eq [] [] h = refl
eq_of_bytes_eq [] (y ∷ ys) h = cc
eq_of_bytes_eq (x ∷ xs) [] h = cc
eq_of_bytes_eq (x ∷ xs) (y ∷ ys) h = ground (arith, eq_of_bytes_eq xs ys)

pub all_of-append :
    (p : ℕ → Bool) (xs ys : List ℕ)
    → all_of p xs ≡ true
    → all_of p ys ≡ true
    → all_of p (xs ++ ys) ≡ true
all_of-append p [] ys h g = g
all_of-append p (x ∷ xs) ys h g = ground (arith, all_of-append p xs ys)

-- A weaker test holds of all too.
pub all_of_mono :
    (p q : ℕ → Bool) (xs : List ℕ)
    → ((c : ℕ) → p c ≡ true → q c ≡ true)
    → all_of p xs ≡ true
    → all_of q xs ≡ true
all_of_mono p q [] weaker h = refl
all_of_mono p q (x ∷ xs) weaker h = ground (arith, weaker x, all_of_mono p q xs weaker)

-- Text without the separator is what stands before it.
pub split-append :
    (c : ℕ) (xs ys : List ℕ)
    → all_of (λ x. not (x == c)) xs ≡ true
    → split c (xs ++ c ∷ ys) ≡ some (xs, ys)
split-append c [] ys h = ground arith
split-append c (x ∷ xs) ys h = ground (arith, split-append c xs ys)

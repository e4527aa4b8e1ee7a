-- ===== src/Base/Lists.antt =====
-- Lists measured by native numbers, membership that computes, and descending lists.
use Prim.Native.Nat.{ℕ, zero, suc, ◌+◌, ◌-◌, ◌≤◌, ◌<◌}
use mathlib.Core.Path.{◌≡◌, refl, ap}
use mathlib.Core.Logic.{◌⊎◌, inl, inr}
use mathlib.Core.List.{List, [], ◌∷◌, ◌++◌}
use native.Mathlib.Omega.{arith}

module _ {ℓ} {A : Type ℓ} where
  abbrev pub length : List A → ℕ
  length [] = 0
  length (x ∷ xs) = suc (length xs)

  abbrev pub get_or : List A → ℕ → A → A
  get_or [] i d = d
  get_or (x ∷ xs) zero d = x
  get_or (x ∷ xs) (suc i) d = get_or xs i d

  abbrev pub take : ℕ → List A → List A
  take zero xs = []
  take (suc n) [] = []
  take (suc n) (x ∷ xs) = x ∷ take n xs

  abbrev pub drop : ℕ → List A → List A
  drop zero xs = xs
  drop (suc n) [] = []
  drop (suc n) (x ∷ xs) = drop n xs

  pub length-append : (xs ys : List A) → length (xs ++ ys) ≡ length xs + length ys
  length-append [] ys = omega arith
  length-append (x ∷ xs) ys = omega (arith, length-append xs ys)

module _ {ℓ} {A : Type ℓ} where
  pub take-length : (xs ys : List A) → take (length xs) (xs ++ ys) ≡ xs
  take-length [] ys = refl
  take-length (x ∷ xs) ys = rw (take-length xs ys)

  pub drop-length : (xs ys : List A) → drop (length xs) (xs ++ ys) ≡ ys
  drop-length [] ys = refl
  drop-length (x ∷ xs) ys = drop-length xs ys

  pub take-eq : (n : ℕ) (xs ys : List A) → length xs ≡ n → take n (xs ++ ys) ≡ xs
  take-eq n xs ys h = rw (← h) (take-length xs ys)

  pub drop-eq : (n : ℕ) (xs ys : List A) → length xs ≡ n → drop n (xs ++ ys) ≡ ys
  drop-eq n xs ys h = rw (← h) (drop-length xs ys)

  get_or-length : (xs ys : List A) (y d : A) → get_or (xs ++ y ∷ ys) (length xs) d ≡ y
  get_or-length [] ys y d = refl
  get_or-length (x ∷ xs) ys y d = get_or-length xs ys y d

  pub get_or-eq : (n : ℕ) (xs ys : List A) (y d : A) → length xs ≡ n → get_or (xs ++ y ∷ ys) n d ≡ y
  get_or-eq n xs ys y d h = rw (← h) (get_or-length xs ys y d)

  pub take-append_left : (k : ℕ) (xs ys : List A) → k < length xs → take k (xs ++ ys) ≡ take k xs
  take-append_left zero xs ys h = refl
  take-append_left (suc k) [] ys h = elim h [ ]
  take-append_left (suc k) (x ∷ xs) ys h = rw (take-append_left k xs ys (omega arith))

  pub take-append_right :
      (k : ℕ) (xs ys : List A) → length xs ≤ k → take k (xs ++ ys) ≡ xs ++ take (k - length xs) ys
  take-append_right k [] ys h = ap (λ (i : ℕ). take i ys) (omega arith)
  take-append_right zero (x ∷ xs) ys h = elim h [ ]
  take-append_right (suc k) (x ∷ xs) ys h =
      rw (take-append_right k xs ys (omega arith))
        (ap (λ (i : ℕ). x ∷ xs ++ take i ys) (omega arith))

  pub length-take-le : (k : ℕ) (xs : List A) → k ≤ length xs → length (take k xs) ≡ k
  length-take-le zero xs h = refl
  length-take-le (suc k) [] h = elim h [ ]
  length-take-le (suc k) (x ∷ xs) h = omega (arith, length-take-le k xs)

-- Membership, by recursion on the list, so that it computes on a list that is known.
abbrev pub Elem : ℕ → List ℕ → Type 0
Elem x [] = ⊥
Elem x (y ∷ ys) = (x ≡ y) ⊎ Elem x ys

pub Elem-append : (x : ℕ) (xs ys : List ℕ) → Elem x xs ⊎ Elem x ys → Elem x (xs ++ ys)
Elem-append x [] ys (inl h) = absurd h
Elem-append x [] ys (inr h) = h
Elem-append x (y ∷ xs) ys (inl (inl e)) = inl e
Elem-append x (y ∷ xs) ys (inl (inr h)) = inr (Elem-append x xs ys (inl h))
Elem-append x (y ∷ xs) ys (inr h) = inr (Elem-append x xs ys (inr h))

pub append_cases : (x : ℕ) (xs ys : List ℕ) → Elem x (xs ++ ys) → Elem x xs ⊎ Elem x ys
append_cases x [] ys h = inr h
append_cases x (y ∷ xs) ys (inl e) = inl (inl e)
append_cases x (y ∷ xs) ys (inr h) = elim (append_cases x xs ys h) [
  | inl left ↦ inl (inr left)
  | inr right ↦ inr right
]

-- Strictly descending, from below a bound.
abbrev pub Descends : ℕ → List ℕ → Type 0
Descends b [] = Unit
Descends b (x ∷ xs) = (x < b) × Descends x xs

pub Descends-mono : (b c : ℕ) (xs : List ℕ) → b ≤ c → Descends b xs → Descends c xs
Descends-mono b c [] h d = tt
Descends-mono b c (x ∷ xs) h d = (omega arith, d.1)

-- What a descending list holds lies below its bound.
pub Elem-lt : (x b : ℕ) (xs : List ℕ) → Descends b xs → Elem x xs → x < b
Elem-lt x b [] d h = absurd h
Elem-lt x b (y ∷ xs) d (inl e) = omega arith
Elem-lt x b (y ∷ xs) d (inr h) = omega (arith, Elem-lt x y xs d.1 h)

-- ===== src/Base/Sorted.antt =====
-- Lists in ascending order: `std::sort`, and `std::set` as the list of what it holds.
use diffmonger.Base.{
  ℕ, suc, ◌≤◌, ◌<◌, ◌≡◌, ◌⊎◌, ◌↔◌, inl, inr, refl, Bool, true, false, List, [], ◌∷◌, Elem,
  Bool-cases, leb, ltb, ◌==◌, if◌then◌else◌, arith,
}

-- `std::sort`, by insertion.
abbrev pub insert_sorted : ℕ → List ℕ → List ℕ
insert_sorted x [] = x ∷ []
insert_sorted x (y ∷ ys) = let rest = insert_sorted x ys in if leb x y then x ∷ y ∷ ys else y ∷ rest

abbrev pub sort : List ℕ → List ℕ
sort [] = []
sort (x ∷ xs) = insert_sorted x (sort xs)

-- `std::set::contains` and `std::set::emplace`
abbrev pub contains : ℕ → List ℕ → Bool
contains x [] = false
contains x (y ∷ ys) = if x == y then true else contains x ys

abbrev pub emplace : ℕ → List ℕ → List ℕ
emplace x [] = x ∷ []
emplace x (y ∷ ys) =
    let rest = emplace x ys in if x == y then y ∷ ys else if ltb x y then x ∷ y ∷ ys else y ∷ rest

abbrev pub emplace_all : List ℕ → List ℕ → List ℕ
emplace_all [] set = set
emplace_all (x ∷ xs) set = emplace_all xs (emplace x set)

-- In strictly ascending order, from `b` on.
abbrev pub Ascends : ℕ → List ℕ → Type 0
Ascends b [] = Unit
Ascends b (x ∷ xs) = (b ≤ x) × Ascends (suc x) xs

pub Ascends-le : (b z : ℕ) (xs : List ℕ) → Ascends b xs → Elem z xs → b ≤ z
Ascends-le b z [] s h = elim h [ ]
Ascends-le b z (x ∷ xs) s (inl e) = omega (arith, s.0)
Ascends-le b z (x ∷ xs) s (inr h) = omega (arith, s.0, Ascends-le (suc x) z xs s.1 h)

pub Elem-contains : (x : ℕ) (ys : List ℕ) → contains x ys ≡ true → Elem x ys
Elem-contains x [] h = cc
Elem-contains x (y ∷ ys) h = elim (Bool-cases (x == y)) [
  | inl same ↦ inl (ground arith)
  | inr other ↦ inr (Elem-contains x ys (ground arith))
]

order : (x y : ℕ) → (x ≡ y) ⊎ ((x < y) ⊎ (y < x))
order x y = ground arith

pub emplace-Ascends : (b x : ℕ) (ys : List ℕ) → b ≤ x → Ascends b ys → Ascends b (emplace x ys)
emplace-Ascends b x [] h asc = (h, tt)
emplace-Ascends b x (y ∷ ys) h asc = elim (order x y) [
  | inl same ↦ let e : (x == y) ≡ true = ground arith in rw e asc
  | inr (inl less) ↦
      let e : (x == y) ≡ false = ground arith in
      let l : ltb x y ≡ true = ground arith in rw (e, l) (h, (omega arith, asc.1))
  | inr (inr more) ↦
      let e : (x == y) ≡ false = ground arith in
      let l : ltb x y ≡ false = ground arith in
      rw (e, l) (asc.0, emplace-Ascends (suc y) x ys (omega arith) asc.1)
]

pub Elem-emplace : (z x : ℕ) (ys : List ℕ) → Elem z (emplace x ys) ↔ ((z ≡ x) ⊎ Elem z ys)
Elem-emplace z x [] = (λ h. h, λ h. h)
Elem-emplace z x (y ∷ ys) = elim (order x y) [
  | inl same ↦
      let e : (x == y) ≡ true = ground arith in
      rw e (λ h. inr h, elim [ inl first ↦ inl (omega arith) | inr h ↦ h ])
  | inr (inl less) ↦
      let e : (x == y) ≡ false = ground arith in
      let l : ltb x y ≡ true = ground arith in rw (e, l) (λ h. h, λ h. h)
  | inr (inr more) ↦
      let e : (x == y) ≡ false = ground arith in
      let l : ltb x y ≡ false = ground arith in
      let (to, from) = Elem-emplace z x ys in
      rw (e, l)
        (
          elim [
            | inl first ↦ inr (inl first)
            | inr h ↦ elim (to h) [ inl new ↦ inl new | inr old ↦ inr (inr old) ]
          ],
          elim [
            | inl new ↦ inr (from (inl new))
            | inr (inl first) ↦ inl first
            | inr (inr old) ↦ inr (from (inr old))
          ],
        )
]

pub emplace_all-Ascends : (xs set : List ℕ) → Ascends 0 set → Ascends 0 (emplace_all xs set)
emplace_all-Ascends [] set h = h
emplace_all-Ascends (x ∷ xs) set h =
    emplace_all-Ascends xs (emplace x set) (emplace-Ascends 0 x set (omega arith) h)

pub Elem-emplace_all :
    (z : ℕ) (xs set : List ℕ) → Elem z (emplace_all xs set) ↔ (Elem z xs ⊎ Elem z set)
Elem-emplace_all z [] set = (λ h. inr h, elim [ inl h ↦ absurd h | inr h ↦ h ])
Elem-emplace_all z (x ∷ xs) set =
    let (to, from) = Elem-emplace_all z xs (emplace x set) in
    let (to', from') = Elem-emplace z x set in
    (
      λ h. elim (to h) [
        | inl later ↦ inl (inr later)
        | inr placed ↦ elim (to' placed) [ inl first ↦ inl (inl first) | inr old ↦ inr old ]
      ],
      elim [
        | inl (inl first) ↦ from (inr (from' (inl first)))
        | inl (inr later) ↦ from (inl later)
        | inr old ↦ from (inr (from' (inr old)))
      ],
    )

-- In ascending order, from `b` on.
abbrev pub IsSorted : ℕ → List ℕ → Type 0
IsSorted b [] = Unit
IsSorted b (x ∷ xs) = (b ≤ x) × IsSorted x xs

insert_sorted-IsSorted :
    (b x : ℕ) (ys : List ℕ) → b ≤ x → IsSorted b ys → IsSorted b (insert_sorted x ys)
insert_sorted-IsSorted b x [] h s = (h, tt)
insert_sorted-IsSorted b x (y ∷ ys) h s = elim (Bool-cases (leb x y)) [
  | inl before ↦ rw before (h, (ground arith, s.1))
  | inr after ↦ rw after (s.0, insert_sorted-IsSorted y x ys (ground arith) s.1)
]

pub sort-IsSorted : (xs : List ℕ) → IsSorted 0 (sort xs)
sort-IsSorted [] = tt
sort-IsSorted (x ∷ xs) = insert_sorted-IsSorted 0 x (sort xs) (omega arith) (sort-IsSorted xs)

Elem-insert_sorted : (z x : ℕ) (ys : List ℕ) → (z ≡ x) ⊎ Elem z ys → Elem z (insert_sorted x ys)
Elem-insert_sorted z x [] h = h
Elem-insert_sorted z x (y ∷ ys) h = elim (Bool-cases (leb x y)) [
  | inl before ↦ rw before h
  | inr after ↦ rw after (elim h [
    | inl new ↦ inr (Elem-insert_sorted z x ys (inl new))
    | inr (inl first) ↦ inl first
    | inr (inr later) ↦ inr (Elem-insert_sorted z x ys (inr later))
  ])
]

first_or_later :
    (c : Bool) (z x y : ℕ) (ys inserted : List ℕ)
    → (Elem z inserted → (z ≡ x) ⊎ Elem z ys)
    → Elem z (if c then x ∷ y ∷ ys else y ∷ inserted)
    → (z ≡ x) ⊎ Elem z (y ∷ ys)
first_or_later true z x y ys inserted rest h = h
first_or_later false z x y ys inserted rest (inl first) = inr (inl first)
first_or_later false z x y ys inserted rest (inr later) = elim (rest later) [
  | inl new ↦ inl new
  | inr old ↦ inr (inr old)
]

insert_sorted-Elem : (z x : ℕ) (ys : List ℕ) → Elem z (insert_sorted x ys) → (z ≡ x) ⊎ Elem z ys
insert_sorted-Elem z x [] h = h
insert_sorted-Elem z x (y ∷ ys) h =
    let rest = insert_sorted-Elem z x ys in
    first_or_later (leb x y) z x y ys (insert_sorted x ys) rest h

pub sort-Elem : (z : ℕ) (xs : List ℕ) → Elem z (sort xs) → Elem z xs
sort-Elem z [] h = h
sort-Elem z (x ∷ xs) h = elim (insert_sorted-Elem z x (sort xs) h) [
  | inl new ↦ inl new
  | inr later ↦ inr (sort-Elem z xs later)
]

pub Elem-sort : (z : ℕ) (xs : List ℕ) → Elem z xs → Elem z (sort xs)
Elem-sort z [] h = elim h [ ]
Elem-sort z (x ∷ xs) (inl e) = Elem-insert_sorted z x (sort xs) (inl e)
Elem-sort z (x ∷ xs) (inr h) = Elem-insert_sorted z x (sort xs) (inr (Elem-sort z xs h))

pub IsSorted-le : (b z : ℕ) (xs : List ℕ) → IsSorted b xs → Elem z xs → b ≤ z
IsSorted-le b z [] s h = elim h [ ]
IsSorted-le b z (x ∷ xs) s (inl e) = omega (arith, s.0)
IsSorted-le b z (x ∷ xs) s (inr h) = omega (arith, s.0, IsSorted-le x z xs s.1 h)

pub contains-Elem : (x : ℕ) (ys : List ℕ) → Elem x ys → contains x ys ≡ true
contains-Elem x [] h = elim h [ ]
contains-Elem x (y ∷ ys) (inl e) = let same : (x == y) ≡ true = ground arith in rw same refl
contains-Elem x (y ∷ ys) (inr h) = elim (Bool-cases (x == y)) [
  | inl same ↦ rw same refl
  | inr other ↦ rw other (contains-Elem x ys h)
]

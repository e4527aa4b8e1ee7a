-- ===== src/Parser/TextMap.antt =====
-- `std::map<std::string_view, T>`, as libs/util/include/diffmonger/util/parser/Parser.hpp uses it: the
-- list of its pairs in the order of the keys.
use diffmonger.Base.{ℕ, Bool, true, false, Option, none, some, List, [], ◌∷◌, if◌then◌else◌, ltb}
use diffmonger.Base.Text.{bytes_eq}

abbrev pub Text : Type 0
Text = List ℕ

abbrev pub Map {ℓ} : Type ℓ → Type ℓ
Map V = List (Text × V)

-- `std::less`
abbrev pub text_less : Text → Text → Bool
text_less xs [] = false
text_less [] (y ∷ ys) = true
text_less (x ∷ xs) (y ∷ ys) =
    let rest = text_less xs ys in if ltb x y then true else if ltb y x then false else rest

-- `find`
abbrev pub find {ℓ} : {V : Type ℓ} → Text → Map V → Option V
find key [] = none
find key ((k, v) ∷ m) = if bytes_eq key k then some v else find key m

-- What `try_emplace` does where the key is not there.
abbrev pub insert {ℓ} : {V : Type ℓ} → Text → V → Map V → Map V
insert key v [] = (key, v) ∷ []
insert key v ((k, u) ∷ m) =
    let rest = insert key v m in if text_less key k then (key, v) ∷ (k, u) ∷ m else (k, u) ∷ rest

-- `try_emplace`, and whether the pair is new
abbrev pub emplace_if {ℓ} : {V : Type ℓ} → Option V → Text → V → Map V → Map V × Bool
emplace_if none key v m = (insert key v m, true)
emplace_if (some u) key v m = (m, false)

abbrev pub try_emplace {ℓ} : {V : Type ℓ} → Text → V → Map V → Map V × Bool
try_emplace key v m = emplace_if (find key m) key v m

-- A change of the value that stands at a key.
abbrev pub modify {ℓ} : {V : Type ℓ} → Text → (V → V) → Map V → Map V
modify key f [] = []
modify key f ((k, v) ∷ m) =
    let rest = modify key f m in if bytes_eq key k then (k, f v) ∷ m else (k, v) ∷ rest

-- `extract`, the map without the key; the value is that of `find`.
abbrev pub without {ℓ} : {V : Type ℓ} → Text → Map V → Map V
without key [] = []
without key ((k, v) ∷ m) = let rest = without key m in if bytes_eq key k then m else (k, v) ∷ rest

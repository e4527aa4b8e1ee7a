-- ===== src/Tree/Spec.antt =====
-- What the tree's functions are to compute, as README.md and the comments of src/diffmonger.hpp
-- state it with LSB, the lowest set bit.
use diffmonger.Base.{ℕ, ◌+◌, ◌*◌, ◌≤◌, ◌<◌, ◌≡◌, ◌⊎◌}
use diffmonger.Tree.{lsb}

-- The time of demise without the wrap of a word: T(x) = x + 3 LSB(x), for nodes but the root.
abbrev pub demise : ℕ → ℕ
demise x = x + 3 * lsb x

-- The alive set after the creation of node `n`; the root never dies.
abbrev pub Alive : ℕ → ℕ → Type 0
Alive n x = (x ≤ n) × ((x ≡ 0) ⊎ (n < demise x))

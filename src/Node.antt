-- ===== src/Node.antt =====
-- src/Node.hpp: the node's number, and the steps to its neighbours. A node is its value, below
-- 2 ^ 64; what only calls the functions of the tree is taken from there.
use diffmonger.Base.{
  ℕ, ◌+◌, ◌-◌, ◌≤◌, ◌≡◌, Bool, Option, none, some, ltb, ◌==◌, if◌then◌else◌, arith,
}
use diffmonger.Base.Word.{u64_max}
use diffmonger.Error.{Result, ok, err, node_too_big}
use diffmonger.Tree.{fenwick_parent}

unfoldable pub advance : ℕ → ℕ → Result ℕ
advance value n = if ltb (u64_max - value) n then err node_too_big else ok (value + n)

unfoldable pub next : ℕ → Result ℕ
next value = if value == u64_max then err node_too_big else ok (value + 1)

unfoldable pub is_root : ℕ → Bool
is_root value = value == 0

unfoldable pub fenwick_maybe_parent : ℕ → Option ℕ
unfolding is_root
fenwick_maybe_parent value = if is_root value then none else some (fenwick_parent value)

-- On nodes of 64 bits `next` is `advance` by one.
pub next-advance : (value : ℕ) → value ≤ u64_max → next value ≡ advance value 1
unfolding next advance
next-advance value h = ground arith

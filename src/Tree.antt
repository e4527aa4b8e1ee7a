-- ===== src/Tree.antt =====
-- src/diffmonger.hpp: the Fenwick paths, the alive set, the times of demise and the pruning.
--
-- A function that calls a functor on one node after the other is modelled by the list of the nodes
-- in the order of the calls, with the way in which the function ends. A loop takes fuel.
pub mod Lsb
pub mod Spec
pub mod Path
pub mod Alive
pub mod Prune
pub mod Evolution
pub mod Distribution
pub mod Size
use diffmonger.Base.{ℕ, zero, suc, ◌+◌, ◌-◌, ◌*◌, ◌^◌, bit_and, bit_or, if◌then◌else◌, ◌==◌, leb}
use diffmonger.Base.{Option, none, some, List, [], ◌∷◌}
use diffmonger.Base.Word.{u64, neg64, not64, sub64, ◌<<<◌, ◌>>>◌}

-- `too_big` is the `std::runtime_error("Node too big")`, `undefined_demise` the
-- `std::invalid_argument` of `time_of_demise(0)`, `assertion` a failed `assert`.
pub data End : Type 0 where
  returned too_big undefined_demise assertion no_fuel : End

pub record Visit : Type 0 where
  pub nodes : List ℕ
  pub end : End

abbrev pub stop : End → Visit
stop e = record { nodes = []; end = e }

abbrev pub emit : ℕ → Visit → Visit
emit x v = record { nodes = x ∷ v.nodes; end = v.end }

-- `node & -node`
unfoldable pub lsb : ℕ → ℕ
lsb node = bit_and node (neg64 node)

unfoldable pub fenwick_parent : ℕ → ℕ
fenwick_parent node = sub64 node (lsb node)

unfoldable pub fenwick_loop : ℕ → ℕ → Visit
fenwick_loop zero node = stop no_fuel
fenwick_loop (suc fuel) node =
    let rest = emit node (fenwick_loop fuel (sub64 node (lsb node))) in
    if node == 0 then stop returned else rest

unfoldable pub fenwick_path_exc_root : ℕ → Visit
fenwick_path_exc_root node = fenwick_loop 65 node

-- The further call `f(0)`, which is made only if the loop has ended.
unfoldable pub then_root : List ℕ → End → Visit
then_root [] returned = emit 0 (stop returned)
then_root [] e = stop e
then_root (x ∷ xs) e = emit x (then_root xs e)

unfoldable pub fenwick_path_inc_root : ℕ → Visit
fenwick_path_inc_root node = let path = fenwick_path_exc_root node in then_root path.nodes path.end

-- The loop of `alive_after` at the anchor `cur`, with `uint_2powm = p`.
unfoldable pub alive_loop : ℕ → ℕ → ℕ → ℕ → Visit
alive_loop zero node p cur = stop no_fuel
alive_loop (suc fuel) node p cur =
    let next = alive_loop fuel node (p <<< 1) (bit_and (sub64 cur 1) (not64 (sub64 p 1))) in
    let anchor =
      emit cur (if cur == 0 then stop returned else if p == 2 ^ 63 then stop too_big else next) in
    let candidate = u64 (cur + (p >>> 2)) in
    let with_candidate =
      if leb candidate node
      then (if candidate == cur then anchor else emit candidate anchor)
      else stop assertion in
    if leb cur node
    then (if leb (u64 ((p >>> 1) + (p >>> 2))) (sub64 node cur) then with_candidate else anchor)
    else stop assertion

unfoldable pub alive_after : ℕ → Visit
alive_after node = alive_loop 64 node 1 node

-- `none` is the `std::invalid_argument`.
unfoldable pub time_of_demise : ℕ → Option ℕ
time_of_demise node = if node == 0 then none else some (u64 (node + u64 (3 * lsb node)))

-- `assert(time_of_demise(j) == node)`
unfoldable pub demise_assertion : Option ℕ → ℕ → Visit → Visit
demise_assertion none node rest = stop undefined_demise
demise_assertion (some t) node rest = if t == node then rest else stop assertion

-- The loop of `prune`, with the loop's `mask`.
unfoldable pub prune_loop : ℕ → ℕ → ℕ → Visit
prune_loop zero node mask = stop no_fuel
prune_loop (suc fuel) node mask =
    let rest = prune_loop fuel node (bit_or mask (mask <<< 1)) in
    let k = u64 (mask + (mask >>> 1) + 2) in
    let j = sub64 node k in
    let deleted = emit j (demise_assertion (time_of_demise j) node rest) in
    if bit_and node (not64 mask) == 0
    then stop returned
    else if mask == 2 ^ 63 - 1
    then stop too_big
    else if bit_and node mask == 0
    then (if leb k node then deleted else rest)
    else stop returned

unfoldable pub prune : ℕ → Visit
prune node = prune_loop 64 node 1

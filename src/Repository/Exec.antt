-- ===== src/Repository/Exec.antt =====
-- Code that reads and changes the repository and may throw: the changes before an exception stay.
use diffmonger.Base.{ℕ, List, [], ◌∷◌}
use diffmonger.Error.{Result, ok, err, node_too_big, undefined_demise, assertion_failed, no_fuel}
use diffmonger.Tree.{End, Visit}
use diffmonger.Repository.{Repository}

abbrev pub Op : Type 0 → Type 0
Op A = Repository → Result A × Repository

abbrev pub continue : {A B : Type 0} → Result A × Repository → (A → Op B) → Result B × Repository
continue (ok a, r) f = f a r
continue (err e, r) f = (err e, r)

-- A callback that does not throw, called for each node in turn.
abbrev pub for_each : (ℕ → Repository → Repository) → List ℕ → Repository → Repository
for_each f [] r = r
for_each f (x ∷ xs) r = for_each f xs (f x r)

abbrev pub end_result : End → Result {0} Unit
end_result End.returned = ok tt
end_result End.too_big = err node_too_big
end_result End.undefined_demise = err undefined_demise
end_result End.assertion = err assertion_failed
end_result End.no_fuel = err no_fuel

-- A walk of the tree: its callback for each node visited, and then its return or its exception.
abbrev pub walk : (ℕ → Repository → Repository) → Visit → Op Unit
walk f v r = (end_result v.end, for_each f v.nodes r)

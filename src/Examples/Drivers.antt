-- ===== src/Examples/Drivers.antt =====
-- A world of ZFS that is the list of the names of its snapshots, for the driver of src/ZfsDriver.cpp.
use diffmonger.Base.{ℕ, ◌≡◌, Bool, true, false, none, List, [], ◌∷◌, if◌then◌else◌}
use diffmonger.Base.Text.{codes, bytes_eq}
use diffmonger.Error.{Result, ok, err, command_failed}
use diffmonger.Zfs.{full_name}
use diffmonger.Zfs.Commands.{Command, Run}
use diffmonger.ZfsDriver.{Driver, named, node_name}
use diffmonger.Examples.Takes.{repository_uuid}

abbrev World : Type 0
World = List (List ℕ)

abbrev has_name : List ℕ → World → Bool
has_name n [] = false
has_name n (x ∷ xs) = if bytes_eq x n then true else has_name n xs

abbrev verb_of : List (List ℕ) → List ℕ
verb_of [] = []
verb_of (cmd ∷ []) = []
verb_of (cmd ∷ verb ∷ rest) = verb

abbrev last_of : List (List ℕ) → List ℕ
last_of [] = []
last_of (x ∷ []) = x
last_of (x ∷ y ∷ ys) = last_of (y ∷ ys)

-- A snapshot that is there cannot be made, and the guid of each is 7.
abbrev made : Bool → List ℕ → World → Result (List ℕ) × World
made true n w = (err command_failed, w)
made false n w = (ok [], n ∷ w)

abbrev guid_line : Bool → World → Result (List ℕ) × World
guid_line true w = (ok (55 ∷ 10 ∷ []), w)
guid_line false w = (err command_failed, w)

abbrev answer : List ℕ → List ℕ → World → Result (List ℕ) × World
answer verb n w =
    if bytes_eq verb (codes "snapshot")
    then made (has_name n w) n w
    else (if bytes_eq verb (codes "get")
        then guid_line (has_name n w) w
        else (if bytes_eq verb (codes "receive") then (ok [], n ∷ w) else (ok (5 ∷ []), w)))

abbrev zfs_world : Command → List ℕ → Run World (List ℕ)
zfs_world c input w = answer (verb_of c.args) (last_of c.args) w

abbrev tank : Driver
tank = record {
  zfs_command = record { cmd = codes "zfs"; args = codes "zfs" ∷ [] };
  dataset = codes "tank";
  receive0_args = none;
  receiven_args = none;
}

unfoldable full_of : ℕ → List ℕ
unfolding full_name
full_of node = full_name (named tank (node_name node repository_uuid))

abbrev HasNode : World → ℕ → Type 0
HasNode w node = has_name (full_of node) w ≡ true

abbrev Five : ℕ → List ℕ → Type 0
Five node bytes = bytes ≡ 5 ∷ []

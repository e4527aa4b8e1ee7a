-- ===== src/Snapshot/Restored.antt =====
-- src/Controller.cpp: a snapshot that was taken by `_snapshot`, and its restore.
use diffmonger.Base.{ℕ, suc, ◌^◌, ◌<◌, ◌≡◌, Bool, true, false, List, Elem, arith}
use diffmonger.Base.Int.{ℤ, InInt64}
use diffmonger.Error.{Result, ok}
use diffmonger.Tree.{fenwick_path_inc_root}
use diffmonger.Tree.Evolution.{path-alive_after, path-survives}
use diffmonger.Repository.{Repository, exists}
use diffmonger.Zfs.Commands.{Run}
use diffmonger.Controller.Steps.{IsKept}
use diffmonger.Backend.{Backend}
use diffmonger.Restore.Backend.{IsBackend, Keeps}
use diffmonger.Restore.Run.{restore}
use diffmonger.Restore.Success.{IsRestorable, restore-Has}
use diffmonger.Snapshot.{snapshot_once}
use diffmonger.Snapshot.Source.{IsSource, IsSound, IsHeld}
use diffmonger.Snapshot.Rounds.{snapshot_once-IsTaken}

pub path-there :
    (r : Repository) (n x : ℕ)
    → suc n < 2 ^ 63
    → r.breadcrumb.untrusted_begin ≡ suc n
    → IsKept r
    → Elem x (fenwick_path_inc_root n).nodes
    → exists r x ≡ true
unfolding IsKept
path-there r n x small at kept on =
    kept n x at (path-alive_after n x (omega arith) on) (path-survives n x small on)

-- A payload that is decrypted to the stream of a node.
abbrev pub Decrypts :
    (ℕ → List ℕ → Type 0) → (List ℕ → List ℕ × Result (Unit {0})) → ℕ → List ℕ → Type 0
Decrypts Stream decrypted node payload =
    Stream node (decrypted payload).0 × ((decrypted payload).1 ≡ ok tt)

module _ {W : Type 0} (backend : Backend W) (Has : W → ℕ → Type 0)
    (Names : backend.SnapshotId → ℕ → Type 0) (Stream : ℕ → List ℕ → Type 0)
    (encrypted : List ℕ → Result (List ℕ)) (decrypted : List ℕ → List ℕ × Result (Unit {0}))
    (upon : backend.SnapshotId → Run W (Unit {0})) (skip_existing : Bool)
    (source : IsSource backend Has Names Stream) (target : IsBackend backend Has Names Stream)
    (seals : (node : ℕ) (bytes : List ℕ)
      → Stream node bytes
      → (payload : List ℕ) × (encrypted bytes ≡ ok payload)
        × Decrypts Stream decrypted node payload)
    (harmless : (id : backend.SnapshotId) (w : W)
      → (w' : W) × (upon id w ≡ (ok tt, w')) × Keeps Has w w') where
  held-IsRestorable :
      (r : Repository) (w : W) (x : ℕ)
      → IsHeld backend Has Names (Decrypts Stream decrypted) r w x
      → IsRestorable backend decrypted upon skip_existing r Has Names Stream x
  held-IsRestorable r w x h = record {
    id = h.id;
    read_id = h.read_id;
    names = h.names;
    payload = h.payload;
    read_bytes = h.read_bytes;
    stream = h.good.0;
    ends = h.good.1;
  }

  -- If the backend takes snapshots as `IsSource` says and receives streams as `IsBackend` says,
  -- what is done upon each snapshot returns and removes none, a stream is encrypted to what is
  -- decrypted to a stream of the node, the repository and the backend are in order, the node
  -- after the breadcrumb's is below 2 ^ 63, the backend does not have the snapshot of the
  -- breadcrumb's node, and the clock's time is of 64 bits, then a round of `snapshot` returns that
  -- it is new, and from the repository as it then is, `restore` of the new node returns in any
  -- state of a backend, an empty one included, and the snapshots of the node's path are there
  -- after it.
  pub snapshot_once-restore :
      (fuel : ℕ) (now : ℤ) (r : Repository) (w : W)
      → suc r.breadcrumb.untrusted_begin < 2 ^ 63
      → InInt64 now
      → ¬ (Has w r.breadcrumb.untrusted_begin)
      → IsSound backend Has Names (Decrypts Stream decrypted) r w
      → (s : Repository) × (w' : W) × (snapshot_once backend encrypted
            (suc fuel)
            source.uuid
            now
            (r, w)
          ≡ (ok true, (s, w')))
        × ((fuel : ℕ) (v : W)
            → (v' : W) × (restore backend decrypted upon skip_existing s fuel false
                  r.breadcrumb.untrusted_begin v
                ≡ (ok tt, v'))
              × ((x : ℕ)
                  → Elem x (fenwick_path_inc_root r.breadcrumb.untrusted_begin).nodes
                  → Has v' x))
  snapshot_once-restore fuel now r w small timely gap sound =
      let n = r.breadcrumb.untrusted_begin in
      let (s, w', ran, taken) =
        snapshot_once-IsTaken backend Has Names Stream (Decrypts Stream decrypted) source encrypted
          seals fuel now r w (omega (arith, small)) timely gap sound in
      (
        s,
        w',
        ran,
        λ fuel v.
            let (v', done, all) =
              restore-Has backend decrypted upon skip_existing s Has Names Stream target
                (record { succeeds = harmless }) fuel n v (omega (arith, small))
                (λ x on. held-IsRestorable s w' x (
                  taken.sound.held x
                    (path-there s n x small taken.advanced taken.sound.kept on))) in
            (v', done, all),
      )

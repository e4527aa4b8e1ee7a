-- ===== src/ZfsDriver/Outcomes.antt =====
-- src/ZfsDriver.cpp: how the methods end, by what the commands do.
use diffmonger.Base.{
  ℕ, ◌≢◌, ◌↔◌, ◌⊎◌, inl, inr, ap, ◌^◌, ◌<◌, ◌≡◌, refl, sym, ◌∙◌, Bool, some, if◌then◌else◌, true,
  false, ◌==◌, List, length, arith,
}
use diffmonger.Base.Int.{ℤ}
use diffmonger.Error.{
  Error, Result, ok, err, ◌>>=◌, ok_injective, snapshot_does_not_exist, snapshot_invalid,
  command_failed, not_run,
}
use diffmonger.Uuid.{Uuid}
use diffmonger.Zfs.Commands.{Command, Run, zfs_snapshot, zfs_get_guid}
use diffmonger.ZfsDriver.{
  SnapshotId, Driver, resume, snapshot_handler, guid_or_rethrow, new_id, is_runtime_error, named,
  verified, caught, node_name, snapshot, exists, cast_and_verify, remove_snapshot,
}
use diffmonger.ZfsDriver.Ids.{snapshot_name-node_name}

verified_error : (g : ℕ) (e : Error) → ¬ (caught (verified g (err e)) ≡ ok true)
verified_error g command_failed h = cc
verified_error g _ h = cc

caught-verified-true : (g : ℕ) (r : Result ℕ) → (caught (verified g r) ≡ ok true) ↔ (r ≡ ok g)
caught-verified-true g (ok x) = ground arith
caught-verified-true g (err e) = (λ h. absurd (verified_error g e h), λ h. cc)

error_verified :
    (g : ℕ) (e : Error)
    → caught (verified g (err e)) ≡ ok false
    → (e ≡ command_failed) ⊎ (e ≡ snapshot_does_not_exist)
error_verified g command_failed h = inl refl
error_verified g snapshot_does_not_exist h = inr refl
error_verified g _ h = cc

false_of :
    (g : ℕ) (r : Result ℕ)
    → (r ≡ err command_failed) ⊎ (r ≡ err snapshot_does_not_exist)
    → caught (verified g r) ≡ ok false
false_of g r (inl failed) = rw failed refl
false_of g r (inr gone) = rw gone refl

caught-verified-false :
    (g : ℕ) (r : Result ℕ)
    → (caught (verified g r) ≡ ok false)
      ↔ ((r ≡ err command_failed) ⊎ (r ≡ err snapshot_does_not_exist))
caught-verified-false g (ok x) = ground arith
caught-verified-false g (err e) = (
  λ h. elim (error_verified g e h) [
    | inl failed ↦ inl (ap err failed)
    | inr gone ↦ inr (ap err gone)
  ],
  false_of g (err e),
)

-- What `snapshot` returns, by what `zfs snapshot` and then `zfs get` return.
outcome : ℕ → List ℕ → ℤ → Result (Unit {0}) → Result ℕ → Result (SnapshotId × Bool)
outcome node name now taken got =
    snapshot_handler taken >>= λ caught. guid_or_rethrow caught got >>= new_id node name now caught

resume-result :
    {W A B : Type 0} (r : Result A) (w : W) (f : A → Run W B)
    → (resume (r, w) f).0 ≡ (r >>= λ a. (f a w).0)
resume-result (ok a) w f = refl
resume-result (err e) w f = refl

rethrown_bind :
    (node : ℕ) (name : List ℕ) (now : ℤ) (c : Bool) (e e' : Error) {a : SnapshotId × Bool}
    → ¬ (((if c then err e else err e') >>= new_id node name now (some e)) ≡ ok a)
rethrown_bind node name now true e e' h = cc
rethrown_bind node name now false e e' h = cc

same_id :
    (node : ℕ) (name : List ℕ) (now : ℤ) (g g' : ℕ) (old old' : Bool)
    → ◌≡◌ {A = Result (SnapshotId × Bool)}
        (ok (record { node = node; guid = g'; name = name; timestamp = now }, old'))
        (ok (record { node = node; guid = g; name = name; timestamp = now }, old))
    → (g' ≡ g) × (old ≡ old')
same_id node name now g g' old old' h =
    let pair = ok_injective h in
    (ap (λ (p : SnapshotId × Bool). p.0.guid) pair, sym (ap (λ (p : SnapshotId × Bool). p.1) pair))

outcome_iff :
    (node : ℕ) (name : List ℕ) (now : ℤ) (taken : Result (Unit {0})) (got : Result ℕ) (g : ℕ)
    (old : Bool)
    → (outcome node name now taken got
        ≡ ok (record { node = node; guid = g; name = name; timestamp = now }, old))
      ↔ ((got ≡ ok g)
          × (((old ≡ false) × (taken ≡ ok tt)) ⊎ ((old ≡ true) × (taken ≡ err not_run))))
unfolding outcome
outcome_iff node name now (ok tt) (ok g') g old = (
  λ h. let (same, new) = same_id node name now g g' old false h in (ap ok same, inl (new, refl)),
  λ (same, how). elim how [
    | inl (new, done) ↦ rw (ok_injective same, new) refl
    | inr (was, failed) ↦ cc
  ],
)
outcome_iff node name now (ok tt) (err e) g old = (λ h. cc, λ (same, how). cc)
outcome_iff node name now (err not_run) (ok g') g old = (
  λ h. let (same, new) = same_id node name now g g' old true h in (ap ok same, inr (new, refl)),
  λ (same, how). elim how [
    | inl (new, done) ↦ cc
    | inr (was, failed) ↦ rw (ok_injective same, was) refl
  ],
)
outcome_iff node name now (err not_run) (err e) g old =
    (λ h. absurd (rethrown_bind node name now (is_runtime_error e) not_run e h), λ (same, how). cc)
outcome_iff node name now (err _) got g old =
    (λ h. cc, λ (same, how). elim how [ inl (new, done) ↦ cc | inr (was, failed) ↦ cc ])

module _ {W : Type 0} (run : Command → List ℕ → Run W (List ℕ)) (d : Driver) where
  -- `exists` is true just if `zfs get` reports the guid of the id, and false just if it ends in
  -- `command_failed` or `snapshot_does_not_exist`. It leaves the world as that command does.
  pub exists_iff :
      (id : SnapshotId) (w : W)
      → (((exists run d id w).0 ≡ ok true)
          ↔ ((zfs_get_guid run d.zfs_command (named d id.name) w).0 ≡ ok id.guid))
        × (((exists run d id w).0 ≡ ok false) ↔ (
            ((zfs_get_guid run d.zfs_command (named d id.name) w).0 ≡ err command_failed)
            ⊎ ((zfs_get_guid run d.zfs_command (named d id.name) w).0
                ≡ err snapshot_does_not_exist)))
        × ((exists run d id w).1 ≡ (zfs_get_guid run d.zfs_command (named d id.name) w).1)
  unfolding exists cast_and_verify
  exists_iff id w =
      let r = (zfs_get_guid run d.zfs_command (named d id.name) w).0 in
      (caught-verified-true id.guid r, caught-verified-false id.guid r, refl)

  -- If `zfs get` reports another guid than the one that was recorded, then `remove_snapshot` throws,
  -- and destroys nothing: the world is left as that command left it.
  pub remove_snapshot-changed :
      (id : SnapshotId) (w w' : W) (g : ℕ)
      → g ≢ id.guid
      → zfs_get_guid run d.zfs_command (named d id.name) w ≡ (ok g, w')
      → remove_snapshot run d id w ≡ (err snapshot_invalid, w')
  unfolding remove_snapshot cast_and_verify
  remove_snapshot-changed id w w' g changed reported =
      let other : (g == id.guid) ≡ false = ground arith in rw (reported, other) refl

  module _ (node : ℕ) (uuid : Uuid) (now : ℤ) (w : W) (small : node < 2 ^ 64)
      (size : length uuid ≡ 16) where
    -- For a node and a UUID of the sizes of their types, if `zfs snapshot` succeeds and `zfs get`
    -- then reports a guid, `snapshot` returns the id with the node, that guid, the node's name and
    -- the time, as one that is not old.
    pub snapshot-taken :
        (w1 w2 : W) (g : ℕ)
        → zfs_snapshot run d.zfs_command (named d (node_name node uuid)) w ≡ (ok tt, w1)
        → zfs_get_guid run d.zfs_command (named d (node_name node uuid)) w1 ≡ (ok g, w2)
        → snapshot run d node uuid now w ≡ (
          ok (record { node = node; guid = g; name = node_name node uuid; timestamp = now }, false),
          w2,
        )
    unfolding snapshot
    snapshot-taken w1 w2 g taken got =
        rw (snapshot_name-node_name node uuid small size, taken, got) refl

    snapshot_lem :
        (snapshot run d node uuid now w).0
        ≡ outcome node
            (node_name node uuid)
            now
            (zfs_snapshot run d.zfs_command (named d (node_name node uuid)) w).0
            (zfs_get_guid run d.zfs_command
              (named d (node_name node uuid))
              (zfs_snapshot run d.zfs_command (named d (node_name node uuid)) w).1).0
    unfolding snapshot outcome
    snapshot_lem = rw (snapshot_name-node_name node uuid small size) (
        resume-result
          (snapshot_handler (zfs_snapshot run d.zfs_command (named d (node_name node uuid)) w).0)
          (zfs_snapshot run d.zfs_command (named d (node_name node uuid)) w).1 _)

    -- For a node and a UUID of the sizes of their types, `snapshot` returns the id with a guid, and
    -- whether it is old, just if `zfs get`, run after `zfs snapshot`, reports that guid, and `zfs
    -- snapshot` succeeded, which makes it not old, or could not be run, which makes it old. After a
    -- `zfs snapshot` that was run and failed it never returns an id.
    pub snapshot_iff :
        (g : ℕ) (old : Bool)
        → ((snapshot run d node uuid now w).0
            ≡ ok (
              record { node = node; guid = g; name = node_name node uuid; timestamp = now },
              old,
            ))
          ↔ (((zfs_get_guid run d.zfs_command
                  (named d (node_name node uuid))
                  (zfs_snapshot run d.zfs_command (named d (node_name node uuid)) w).1).0
                ≡ ok g)
              × (((old ≡ false)
                    × ((zfs_snapshot run d.zfs_command (named d (node_name node uuid)) w).0
                        ≡ ok tt))
                  ⊎ ((old ≡ true)
                      × ((zfs_snapshot run d.zfs_command (named d (node_name node uuid)) w).0
                          ≡ err not_run))))
    snapshot_iff g old =
        let taken = (zfs_snapshot run d.zfs_command (named d (node_name node uuid)) w).0 in
        let w' = (zfs_snapshot run d.zfs_command (named d (node_name node uuid)) w).1 in
        let got = (zfs_get_guid run d.zfs_command (named d (node_name node uuid)) w').0 in
        let (to, from) = outcome_iff node (node_name node uuid) now taken got g old in
        (λ h. to (sym snapshot_lem ∙ h), λ h. snapshot_lem ∙ from h)

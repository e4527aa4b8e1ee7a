-- ===== src/Controller/Rate.antt =====
-- The rate at which `prune_repository` trusts nodes.
use diffmonger.Base.{ℕ, zero, suc, ◌+◌, ◌*◌, ◌^◌, ◌≤◌, ◌<◌, ◌≡◌, subst, ap, ◌∙◌, arith}
use diffmonger.Base.Int.{
  ℤ, pos, negsuc, pos_part, neg_part, ◌≤ℤ◌, ◌+ℤ◌, max_ℤ, max_ℤ_bounds, +ℤ_parts, InInt64, wrap_64,
  wrap_64-fits,
}
use diffmonger.Encoded.{Breadcrumb}
use diffmonger.Repository.{Repository, write_breadcrumb}
use diffmonger.Trust.Laws.{maybe_update_breadcrumb-IsTrusted}
use diffmonger.Controller.{duration_of, prune_repository}
use diffmonger.Controller.Outcome.{throws, stops, goes_on, round, pruned, decide-eq-ok}

-- `j` nodes were trusted from `b` to `b'`, at most one in each time `m`, up to the time `now`.
pub record IsPaced (m : ℕ) (now : ℤ) (j : ℕ) (b b' : Breadcrumb) : Type 0 where
  pub count : b'.untrusted_begin ≡ b.untrusted_begin + j
  pub apart :
      (b.last_trusted_node_authorised_at +ℤ pos (j * m)) ≤ℤ b'.last_trusted_node_authorised_at
  pub due : b'.last_trusted_node_authorised_at ≤ℤ max_ℤ b.last_trusted_node_authorised_at now

sum_le :
    (a b c : ℤ) (m k n : ℕ) → n ≡ m + k → (a +ℤ pos m) ≤ℤ b → (b +ℤ pos k) ≤ℤ c → (a +ℤ pos n) ≤ℤ c
sum_le a b c m k n total h g =
    omega (arith, h, g, +ℤ_parts a (pos m), +ℤ_parts b (pos k), +ℤ_parts a (pos n))

add_nothing : (a : ℤ) (n : ℕ) → n ≡ 0 → (a +ℤ pos n) ≤ℤ a
add_nothing a n none_left = omega (arith, +ℤ_parts a (pos n))

max_step : (a b c now : ℤ) → b ≤ℤ max_ℤ a now → c ≤ℤ max_ℤ b now → c ≤ℤ max_ℤ a now
unfolding max_ℤ
max_step a b c now h g = ground arith

stay-IsPaced : (m : ℕ) (now : ℤ) (b : Breadcrumb) → IsPaced m now 0 b b
stay-IsPaced m now b = record {
  count = omega arith;
  apart = add_nothing b.last_trusted_node_authorised_at (0 * m) (omega arith);
  due = (max_ℤ_bounds b.last_trusted_node_authorised_at now).0;
}

step-IsPaced :
    (m : ℕ) (now : ℤ) (j : ℕ) (a b c : Breadcrumb)
    → b.untrusted_begin ≡ a.untrusted_begin + 1
    → (a.last_trusted_node_authorised_at +ℤ pos m) ≤ℤ b.last_trusted_node_authorised_at
    → b.last_trusted_node_authorised_at ≤ℤ max_ℤ a.last_trusted_node_authorised_at now
    → IsPaced m now j b c
    → IsPaced m now (suc j) a c
step-IsPaced m now j a b c next apart due rest = record {
  count = omega (arith, next, rest.count);
  apart =
      sum_le a.last_trusted_node_authorised_at b.last_trusted_node_authorised_at
        c.last_trusted_node_authorised_at m (j * m) (suc j * m) (omega arith) apart rest.apart;
  due =
      max_step a.last_trusted_node_authorised_at b.last_trusted_node_authorised_at
        c.last_trusted_node_authorised_at now due rest.due;
}

InInt64-parts : (a : ℤ) → InInt64 a → (pos_part a < 2 ^ 63) × (neg_part a ≤ 2 ^ 63)
InInt64-parts (pos n) h = (h, omega arith)
InInt64-parts (negsuc n) h = (omega arith, omega (arith, h))

between : (low a high : ℤ) → low ≤ℤ a → a ≤ℤ high → InInt64 low → InInt64 high → InInt64 a
between low (pos n) high above below h g = omega (arith, below, InInt64-parts high g)
between low (negsuc n) high above below h g = omega (arith, above, InInt64-parts low h)

-- The time is of 64 bits, and so is the later of it and the clock, and `m` more.
record HasRoom (m : ℕ) (now : ℤ) (b : Breadcrumb) : Type 0 where
  time : InInt64 b.last_trusted_node_authorised_at
  sum : InInt64 (max_ℤ b.last_trusted_node_authorised_at now +ℤ pos m)

sum_mono : (a b : ℤ) (m : ℕ) → a ≤ℤ b → (a +ℤ pos m) ≤ℤ (b +ℤ pos m)
sum_mono a b m le = omega (arith, le, +ℤ_parts a (pos m), +ℤ_parts b (pos m))

sum_above : (a : ℤ) (m : ℕ) → a ≤ℤ (a +ℤ pos m)
sum_above a m = omega (arith, +ℤ_parts a (pos m))

le_trans : (a b c : ℤ) → a ≤ℤ b → b ≤ℤ c → a ≤ℤ c
le_trans a b c h g = omega (arith, h, g)

max_least : (a b c : ℤ) → a ≤ℤ c → b ≤ℤ c → max_ℤ a b ≤ℤ c
unfolding max_ℤ
max_least a b c h g = ground arith

quarantine_held :
    (m : ℕ) (now : ℤ) (b : Breadcrumb)
    → HasRoom m now b
    → wrap_64 (b.last_trusted_node_authorised_at +ℤ pos m)
      ≡ (b.last_trusted_node_authorised_at +ℤ pos m)
quarantine_held m now b room =
    let last : ℤ = b.last_trusted_node_authorised_at in
    wrap_64-fits (last +ℤ pos m) (
      between last (last +ℤ pos m) (max_ℤ last now +ℤ pos m) (sum_above last m)
        (sum_mono last (max_ℤ last now) m (max_ℤ_bounds last now).0) room.time room.sum)

next-HasRoom :
    (m : ℕ) (now : ℤ) (b b' : Breadcrumb)
    → (b.last_trusted_node_authorised_at +ℤ pos m) ≤ℤ b'.last_trusted_node_authorised_at
    → b'.last_trusted_node_authorised_at ≤ℤ max_ℤ b.last_trusted_node_authorised_at now
    → HasRoom m now b
    → HasRoom m now b'
next-HasRoom m now b b' apart due room =
    let last : ℤ = b.last_trusted_node_authorised_at in
    let last' : ℤ = b'.last_trusted_node_authorised_at in
    let top : ℤ = max_ℤ last now +ℤ pos m in
    let later = le_trans last (last +ℤ pos m) last' (sum_above last m) apart in
    let next_max = max_least last' now (max_ℤ last now) due (max_ℤ_bounds last now).1 in
    let up = sum_above (max_ℤ last now) m in
    let rises =
      le_trans last' (max_ℤ last' now) (max_ℤ last' now +ℤ pos m) (max_ℤ_bounds last' now).0
        (sum_above (max_ℤ last' now) m) in
    record {
      time =
          between last last' top later (le_trans last' (max_ℤ last now) top due up) room.time
            room.sum;
      sum =
          between last (max_ℤ last' now +ℤ pos m) top
            (le_trans last last' (max_ℤ last' now +ℤ pos m) later rises)
            (sum_mono (max_ℤ last' now) (max_ℤ last now) m next_max) room.time room.sum;
    }

rounds-IsPaced :
    (fuel seconds : ℕ) (now : ℤ) (r : Repository)
    → seconds * 1000000000 < 2 ^ 63
    → 0 < r.breadcrumb.untrusted_begin
    → r.breadcrumb.untrusted_begin + fuel ≤ 2 ^ 63
    → HasRoom (seconds * 1000000000) now r.breadcrumb
    → (j : ℕ) × IsPaced
        (seconds * 1000000000)
        now
        j
        r.breadcrumb
        (prune_repository fuel seconds now r).1.breadcrumb
unfolding prune_repository write_breadcrumb duration_of
rounds-IsPaced zero seconds now r short later small room =
    (0, stay-IsPaced (seconds * 1000000000) now r.breadcrumb)
rounds-IsPaced (suc fuel) seconds now r short later small room =
    let m = seconds * 1000000000 in
    let exact : duration_of seconds ≡ pos m = wrap_64-fits (pos m) short in
    elim (round fuel seconds now r (omega (arith, small))) [
      | throws e decided end ↦ rw end (0, stay-IsPaced m now r.breadcrumb)
      | stops decided end ↦ rw end (0, stay-IsPaced m now r.breadcrumb)
      | goes_on b decided next ↦
          let (e, read, updated) = decide-eq-ok (duration_of seconds) now r b decided in
          let (current, got, t) =
            maybe_update_breadcrumb-IsTrusted r r.breadcrumb b e (duration_of seconds) now later
              updated in
          let last : ℤ = r.breadcrumb.last_trusted_node_authorised_at in
          let apart : (last +ℤ pos m) ≤ℤ b.last_trusted_node_authorised_at =
            subst (λ (z : ℤ). z ≤ℤ b.last_trusted_node_authorised_at)
              (ap (λ (d : ℤ). wrap_64 (last +ℤ d)) exact ∙ quarantine_held m now r.breadcrumb room)
              t.quarantined in
          let r' = write_breadcrumb b (pruned r) in
          let (j, rest) =
            rounds-IsPaced fuel seconds now r' short (omega (arith, t.advanced))
              (omega (arith, t.advanced, small))
              (next-HasRoom m now r.breadcrumb b apart t.due room) in
          rw next (suc j, step-IsPaced m now j r.breadcrumb b _ t.advanced apart t.due rest)
    ]

-- If some node is trusted already, the breadcrumb's node and the rounds add up to at most 2 ^ 63, the
-- least time between snapshots and the time of the breadcrumb are of 64 bits in nanoseconds, and so
-- is the sum of the former and the later of the latter and the clock, then a run of
-- `prune_repository` that trusts `j` nodes moves the time of the breadcrumb by at least `j` times the
-- least time between snapshots, and not past the clock or its old time, whichever is later.
pub prune_repository-IsPaced :
    (fuel seconds : ℕ) (now : ℤ) (r : Repository)
    → 0 < r.breadcrumb.untrusted_begin
    → r.breadcrumb.untrusted_begin + fuel ≤ 2 ^ 63
    → seconds * 1000000000 < 2 ^ 63
    → InInt64 r.breadcrumb.last_trusted_node_authorised_at
    → InInt64 (max_ℤ r.breadcrumb.last_trusted_node_authorised_at now +ℤ pos (seconds * 1000000000))
    → (j : ℕ) × IsPaced
        (seconds * 1000000000)
        now
        j
        r.breadcrumb
        (prune_repository fuel seconds now r).1.breadcrumb
prune_repository-IsPaced fuel seconds now r later small short time sum =
    rounds-IsPaced fuel seconds now r short later small (record { time = time; sum = sum })

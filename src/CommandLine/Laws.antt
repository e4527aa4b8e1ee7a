-- ===== src/CommandLine/Laws.antt =====
-- src/CommandLineInterface.cpp: what the nodes and durations of the command line mean.
use mathlib.Core.List.{append-nil}
use diffmonger.Base.{
  ℕ, suc, ◌-◌, ◌*◌, ◌^◌, ◌<◌, ◌≤◌, ◌≡◌, refl, sym, ap, ◌∙◌, ◌==◌, true, false, none, some, [], ◌∷◌,
  ◌++◌, arith,
}
use diffmonger.Base.Text.{codes, bytes_eq, is_digit, is_empty, all_of}
use diffmonger.Base.Text.Decimal.{to_string, to_string-digits, to_string-nonempty}
use diffmonger.Error.{ok, err, ◌>>=◌, argument_error, bad_value}
use diffmonger.Encoded.{Encoded}
use diffmonger.Repository.{Repository, try_get_encoded}
use diffmonger.Repository.Next.{get_next_snapshot_node-stuck, try_get_encoded-node}
use diffmonger.Repository.Relative.{get_node_relative_to_last_trusted_lem}
use diffmonger.Parser.TextMap.{Text}
use diffmonger.Parser.Values.{unsigned_integer, signed_integer, negated}
use diffmonger.Parser.Values.Laws.{from_chars-to_string, signed_integer-to_string}
use diffmonger.CommandLine.{
  node, relative_node, latest_node, process_node, to_node, node_or_none,
  min_seconds_between_snapshots, in_seconds,
}

digits-node :
    (text : Text)
    → all_of is_digit text ≡ true
    → is_empty text ≡ false
    → process_node text ≡ (unsigned_integer text >>= λ n. ok (node n))
unfolding process_node
digits-node [] all nonempty = cc
digits-node (c ∷ cs) all nonempty =
    let no_plus : (c == 43) ≡ false = ground arith in
    let no_minus : (c == 45) ≡ false = ground arith in rw (no_plus, no_minus) refl

-- The decimal form of a node below 2 ^ 64 is read as that node, and with a "-" before it as that
-- many nodes back, up to 2 ^ 63; "+max" is the latest node, and anything else after a "+" is
-- refused.
pub process_node-to_string :
    (n : ℕ)
    → (n < 2 ^ 64 → process_node (to_string n) ≡ ok (node n))
      × (n ≤ 2 ^ 63 → process_node (45 ∷ to_string n) ≡ ok (relative_node (negated n)))
      × (process_node (codes "+max") ≡ ok latest_node)
      × ((text : Text)
          → bytes_eq text (codes "max") ≡ false
          → process_node (43 ∷ text) ≡ err argument_error)
unfolding process_node
process_node-to_string n =
    let (word, positive, negative, plus) = signed_integer-to_string n [] tt in
    (
      λ small.
          digits-node (to_string n) (to_string-digits n) (to_string-nonempty n)
          ∙ ap (λ r. r >>= λ m. ok (node m))
              (ap unsigned_integer (sym (append-nil (to_string n))) ∙ word small),
      λ small.
          ap (λ r. r >>= λ m. ok (relative_node m))
            (ap (λ (t : Text). signed_integer (45 ∷ t)) (sym (append-nil (to_string n)))
              ∙ negative small),
      refl,
      λ text other. rw (other, plus text) refl,
    )

-- If the breadcrumb's node is from 2 on and below 2 ^ 63 and has no id, and the node before it has an
-- id that can be read, then both "-1" and "+max" mean the node before it.
pub to_node-latest :
    (fuel : ℕ) (r : Repository) (e : Encoded)
    → 2 ≤ r.breadcrumb.untrusted_begin
    → r.breadcrumb.untrusted_begin < 2 ^ 63
    → try_get_encoded r r.breadcrumb.untrusted_begin ≡ ok none
    → try_get_encoded r (r.breadcrumb.untrusted_begin - 1) ≡ ok (some e)
    → ((process_node (codes "-1") >>= to_node (suc fuel) r) ≡ ok (r.breadcrumb.untrusted_begin - 1))
      × ((process_node (codes "+max") >>= to_node (suc fuel) r)
          ≡ ok (r.breadcrumb.untrusted_begin - 1))
unfolding process_node signed_integer to_node
to_node-latest fuel r e low high fresh there =
    let (offset_0, offset_1) = get_node_relative_to_last_trusted_lem r low high in
    let next = (get_next_snapshot_node-stuck r).0 fuel fresh in
    let apart : (r.breadcrumb.untrusted_begin == 0) ≡ false = ground arith in
    (
      ap (λ o. o >>= node_or_none) (offset_1 ∙ there)
          ∙ ap ok (try_get_encoded-node r (r.breadcrumb.untrusted_begin - 1) e there),
      rw (next, apart) refl,
    )

suffix-read :
    (n suffix : ℕ)
    → n < 2 ^ 64
    → is_digit suffix ≡ false
    → min_seconds_between_snapshots (to_string n ++ suffix ∷ []) ≡ in_seconds suffix n
unfolding min_seconds_between_snapshots
suffix-read n suffix small no_digit =
    rw (from_chars-to_string (2 ^ 64 - 1) n (suffix ∷ []) (omega (arith, small)) no_digit) refl

-- A number below 2 ^ 64, of seconds, minutes, hours, days or weeks, that is below 2 ^ 64 in seconds is
-- read as that many seconds; a number without a suffix is refused.
pub min_seconds_between_snapshots-to_string :
    (n : ℕ)
    → (n < 2 ^ 64 → min_seconds_between_snapshots (to_string n ++ codes "s") ≡ ok n)
      × (n * 60 < 2 ^ 64 → min_seconds_between_snapshots (to_string n ++ codes "m") ≡ ok (n * 60))
      × (n * 3600 < 2 ^ 64
          → min_seconds_between_snapshots (to_string n ++ codes "h") ≡ ok (n * 3600))
      × (n * 86400 < 2 ^ 64
          → min_seconds_between_snapshots (to_string n ++ codes "d") ≡ ok (n * 86400))
      × (n * 604800 < 2 ^ 64
          → min_seconds_between_snapshots (to_string n ++ codes "w") ≡ ok (n * 604800))
      × (n < 2 ^ 64 → min_seconds_between_snapshots (to_string n) ≡ err bad_value)
unfolding in_seconds min_seconds_between_snapshots
min_seconds_between_snapshots-to_string n = (
  λ small. suffix-read n 115 small refl,
  λ small. suffix-read n 109 (omega (arith, small)) refl ∙ ap ok (omega (arith, small)),
  λ small. suffix-read n 104 (omega (arith, small)) refl ∙ ap ok (omega (arith, small)),
  λ small. suffix-read n 100 (omega (arith, small)) refl ∙ ap ok (omega (arith, small)),
  λ small. suffix-read n 119 (omega (arith, small)) refl ∙ ap ok (omega (arith, small)),
  λ small.
      rw
        (
          sym (append-nil (to_string n)),
          from_chars-to_string (2 ^ 64 - 1) n [] (omega (arith, small)) tt,
        )
        refl,
)

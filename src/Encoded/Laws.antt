-- ===== src/Encoded/Laws.antt =====
-- The files of the repository are read back as what was written, and a file that was cut short is
-- refused.
use diffmonger.Base.{
  ℕ, ◌^◌, ◌<◌, ◌≡◌, inl, inr, ◌-◌, arith, refl, List, [], ◌∷◌, ◌++◌, length, take,
}
use diffmonger.Base.{append_assoc, length-append, take-append_left, take-append_right}
use diffmonger.Base.Int.{ℤ, InInt64}
use diffmonger.Error.{Result, ok, err, corrupt_stream, ◌>>=◌}
use diffmonger.Serialisation.{
  Parser, u64_codec, time_codec, byte_codec, string_codec, vector_codec, array_codec,
}
use diffmonger.Serialisation.Laws.{
  Reads, le_or_lt, All, AnyByte, FitsString, u64_codec-IsCodec, time_codec-IsCodec,
  byte_codec-IsCodec, string_codec-IsCodec, vector_codec-IsCodec, array_codec-IsCodec,
}
use diffmonger.Encoded.{
  Encoded, serialise, deserialise, Breadcrumb, serialise_breadcrumb, deserialise_breadcrumb,
  InitArgs, serialise_initargs, deserialise_initargs,
}

-- A reader that stops after its value reads it back, whatever follows, and not from less.
pub record ReadsFile {A : Type 0} (read : List ℕ → Result A) (file : List ℕ) (a : A) : Type 0 where
  pub round_trip : (rest : List ℕ) → read (file ++ rest) ≡ ok a
  pub truncated : (k : ℕ) → k < length file → read (take k file) ≡ err corrupt_stream

-- `last` is the last step of the reader.
of_parser :
    {A B : Type 0} (p : Parser A) (f : A → B) (file : List ℕ) (a : A)
    → Reads p file a
    → ReadsFile (λ bytes. p bytes >>= λ x. ok (f x.0)) file (f a)
of_parser p f file a r = record {
  round_trip = λ rest. rw (r.round_trip rest);
  truncated = λ k h. rw (r.truncated k h);
}

then_read :
    {A B : Type 0} (p : Parser A) (q : A → List ℕ → Result B) (s t : List ℕ) (a : A) (b : B)
    → Reads p s a
    → ReadsFile (q a) t b
    → ReadsFile (λ bytes. p bytes >>= λ x. q x.0 x.1) (s ++ t) b
then_read p q s t a b ps qt = record {
  round_trip = λ rest. rw (append_assoc, ps.round_trip (t ++ rest)) (qt.round_trip rest);
  truncated = λ k h. elim (le_or_lt (length s) k) [
    | inl past ↦
        rw (take-append_right k s t past, ps.round_trip (take (k - length s) t))
          (qt.truncated (k - length s) (omega (arith, length-append s t)))
    | inr within ↦ rw (take-append_left k s t within, ps.truncated k within) refl
  ];
}

abbrev pub FitsEncoded : Encoded → Type 0
FitsEncoded e = (length e.bytes < 2 ^ 64) × (e.node < 2 ^ 64) × InInt64 e.timestamp

pub any_bytes : (xs : List ℕ) → All AnyByte xs
any_bytes [] = tt
any_bytes (x ∷ xs) = (tt, any_bytes xs)

bytes_law :
    (xs : List ℕ)
    → length xs < 2 ^ 64
    → Reads (vector_codec byte_codec).deserialise ((vector_codec byte_codec).serialise xs) xs
bytes_law xs fits =
    (vector_codec-IsCodec byte_codec AnyByte byte_codec-IsCodec).reads xs (fits, any_bytes xs)

-- An encoded snapshot id whose node, time point and number of bytes fit 64 bits is read back from
-- its serialised form, whatever follows, and a proper prefix of that form is refused.
pub deserialise-serialise : (e : Encoded) → FitsEncoded e → ReadsFile deserialise (serialise e) e
unfolding serialise deserialise
deserialise-serialise e fits =
    then_read (vector_codec byte_codec).deserialise
      (λ bytes rest. u64_codec.deserialise rest >>= λ n. time_codec.deserialise n.1 >>= λ t.
        ok (record { bytes = bytes; node = n.0; timestamp = t.0 }))
      ((vector_codec byte_codec).serialise e.bytes)
      (u64_codec.serialise e.node ++ time_codec.serialise e.timestamp) e.bytes e
      (bytes_law e.bytes fits.0)
      (then_read u64_codec.deserialise
        (λ n rest. time_codec.deserialise rest >>= λ t.
          ok (record { bytes = e.bytes; node = n; timestamp = t.0 }))
        (u64_codec.serialise e.node) (time_codec.serialise e.timestamp) e.node e
        (u64_codec-IsCodec.reads e.node fits.1)
        (of_parser time_codec.deserialise
          (λ (t : ℤ). record { bytes = e.bytes; node = e.node; timestamp = t })
          (time_codec.serialise e.timestamp) e.timestamp
          (time_codec-IsCodec.reads e.timestamp fits.2)))

abbrev pub FitsBreadcrumb : Breadcrumb → Type 0
FitsBreadcrumb b = (b.untrusted_begin < 2 ^ 64) × InInt64 b.last_trusted_node_authorised_at

-- A breadcrumb whose node and time point fit 64 bits is read back from its serialised form,
-- whatever follows, and a proper prefix of that form is refused.
pub deserialise_breadcrumb-serialise_breadcrumb :
    (b : Breadcrumb)
    → FitsBreadcrumb b
    → ReadsFile deserialise_breadcrumb (serialise_breadcrumb b) b
unfolding serialise_breadcrumb deserialise_breadcrumb
deserialise_breadcrumb-serialise_breadcrumb b fits =
    then_read u64_codec.deserialise
      (λ n rest. time_codec.deserialise rest >>= λ t.
        ok (record { untrusted_begin = n; last_trusted_node_authorised_at = t.0 }))
      (u64_codec.serialise b.untrusted_begin)
      (time_codec.serialise b.last_trusted_node_authorised_at) b.untrusted_begin b
      (u64_codec-IsCodec.reads b.untrusted_begin fits.0)
      (of_parser time_codec.deserialise
        (λ (t : ℤ). record {
          untrusted_begin = b.untrusted_begin;
          last_trusted_node_authorised_at = t;
        })
        (time_codec.serialise b.last_trusted_node_authorised_at) b.last_trusted_node_authorised_at
        (time_codec-IsCodec.reads b.last_trusted_node_authorised_at fits.1))

abbrev pub FitsInitArgs : InitArgs → Type 0
FitsInitArgs a =
    (length a.format_uuid ≡ 16) × (length a.initargs < 2 ^ 64) × All FitsString a.initargs

-- Initargs with a UUID of 16 bytes and fewer than 2 ^ 64 strings, each shorter than 2 ^ 64, are read
-- back from their serialised form, whatever follows, and a proper prefix of that form is refused.
pub deserialise_initargs-serialise_initargs :
    (a : InitArgs) → FitsInitArgs a → ReadsFile deserialise_initargs (serialise_initargs a) a
unfolding serialise_initargs deserialise_initargs
deserialise_initargs-serialise_initargs a fits =
    then_read (array_codec byte_codec 16).deserialise
      (λ u rest. (vector_codec string_codec).deserialise rest >>= λ v.
        ok (record { format_uuid = u; initargs = v.0 }))
      ((array_codec byte_codec 16).serialise a.format_uuid)
      ((vector_codec string_codec).serialise a.initargs) a.format_uuid a
      ((array_codec-IsCodec byte_codec AnyByte byte_codec-IsCodec 16).reads a.format_uuid
        (fits.0, any_bytes a.format_uuid))
      (of_parser (vector_codec string_codec).deserialise
        (λ (v : List (List ℕ)). record { format_uuid = a.format_uuid; initargs = v })
        ((vector_codec string_codec).serialise a.initargs) a.initargs
        ((vector_codec-IsCodec string_codec FitsString string_codec-IsCodec).reads a.initargs
          (fits.1, fits.2)))

-- ===== src/Serialisation/Laws.antt =====
-- What makes a codec correct: a serialised value is read back, whatever follows it, and none of
-- its proper prefixes is read as a value. The laws pass from the parts of a codec to the whole.
use diffmonger.Base.{ℕ, ◌-◌, ◌^◌, ◌≤◌, ◌<◌, ◌≡◌, ◌⊎◌, inl, inr, refl, subst, arith}
use diffmonger.Base.{append_assoc, List, [], ◌∷◌, ◌++◌, length, take, get_or}
use diffmonger.Base.{length-append, take-append_left, take-append_right, length-take-le}
use diffmonger.Base.Int.{ℤ, pos, negsuc, InInt64}
use diffmonger.Error.{ok, err, corrupt_stream, ◌>>=◌}
use diffmonger.Serialisation.{
  Parser, Codec, to_bytes, from_bytes, consume, u32_codec, u64_codec, time_codec, byte_codec,
  string_codec, vector_codec, array_codec, then_codec, to_unsigned, from_unsigned, serialise_all,
  deserialise_all,
}
use diffmonger.Serialisation.Bytes.{
  from_bytes-to_bytes, from_bytes-to_bytes_32, length-to_bytes, length-to_bytes_32, consume-append,
  consume_short,
}

-- What `parse` makes of `bytes` that hold `a`.
pub record Reads {A : Type 0} (parse : Parser A) (bytes : List ℕ) (a : A) : Type 0 where
  pub round_trip : (rest : List ℕ) → parse (bytes ++ rest) ≡ ok (a, rest)
  pub truncated : (k : ℕ) → k < length bytes → parse (take k bytes) ≡ err corrupt_stream

pub record IsCodec {A : Type 0} (c : Codec A) (Fits : A → Type 0) : Type 0 where
  pub reads : (a : A) → Fits a → Reads c.deserialise (c.serialise a) a

pub le_or_lt : (a b : ℕ) → (a ≤ b) ⊎ (b < a)
le_or_lt a b = ground arith

-- One parser after another.
module _ {A B : Type 0} where
  pub Reads-then :
      (p : Parser A) (q : A → Parser B) (s t : List ℕ) (a : A) (b : B)
      → Reads p s a
      → Reads (q a) t b
      → Reads (λ bytes. p bytes >>= λ x. q x.0 x.1) (s ++ t) b
  Reads-then p q s t a b ps qt = record {
    round_trip = λ rest. rw (append_assoc, ps.round_trip (t ++ rest)) (qt.round_trip rest);
    truncated = λ k h. elim (le_or_lt (length s) k) [
      | inl past ↦
          rw (take-append_right k s t past, ps.round_trip (take (k - length s) t))
            (qt.truncated (k - length s) (omega (arith, length-append s t)))
      | inr within ↦ rw (take-append_left k s t within, ps.truncated k within) refl
    ];
  }

  pub Reads-map :
      (p : Parser A) (f : A → B) (s : List ℕ) (a : A)
      → Reads p s a
      → Reads (λ bytes. p bytes >>= λ x. ok (f x.0, x.1)) s (f a)
  Reads-map p f s a ps = record {
    round_trip = λ rest. rw (ps.round_trip rest);
    truncated = λ k h. rw (ps.truncated k h);
  }

pub consume-Reads : (xs : List ℕ) → Reads (consume (length xs)) xs xs
consume-Reads xs = record {
  round_trip = consume-append xs;
  truncated = λ k h. consume_short (length xs) (take k xs) (omega (arith, length-take-le k xs));
}

abbrev pub FitsU64 : ℕ → Type 0
FitsU64 n = n < 2 ^ 64

-- A `uint64_t` is read back from its eight bytes.
pub u64_codec-IsCodec : IsCodec u64_codec FitsU64
unfolding u64_codec
u64_codec-IsCodec = record {
  reads = λ v fits.
      subst (Reads u64_codec.deserialise (to_bytes 8 v)) (from_bytes-to_bytes v fits) (
        Reads-map (consume 8) from_bytes (to_bytes 8 v) (to_bytes 8 v) (
          subst (λ (n : ℕ). Reads (consume n) (to_bytes 8 v) (to_bytes 8 v)) (length-to_bytes v)
            (consume-Reads (to_bytes 8 v))));
}

abbrev pub FitsU32 : ℕ → Type 0
FitsU32 n = n < 2 ^ 32

pub u32_codec-IsCodec : IsCodec u32_codec FitsU32
unfolding u32_codec
u32_codec-IsCodec = record {
  reads = λ v fits.
      subst (Reads u32_codec.deserialise (to_bytes 4 v)) (from_bytes-to_bytes_32 v fits) (
        Reads-map (consume 4) from_bytes (to_bytes 4 v) (to_bytes 4 v) (
          subst (λ (n : ℕ). Reads (consume n) (to_bytes 4 v) (to_bytes 4 v)) (length-to_bytes_32 v)
            (consume-Reads (to_bytes 4 v))));
}

-- The casts between signed and unsigned words undo one another.
pub from_unsigned-to_unsigned : (t : ℤ) → InInt64 t → from_unsigned (to_unsigned t) ≡ t
unfolding from_unsigned to_unsigned
from_unsigned-to_unsigned (pos n) h = ground arith
from_unsigned-to_unsigned (negsuc n) h = ground arith

to_unsigned-lt : (t : ℤ) → InInt64 t → to_unsigned t < 2 ^ 64
unfolding to_unsigned
to_unsigned-lt (pos n) h = omega arith
to_unsigned-lt (negsuc n) h = omega arith

-- A time point of 64 bits, before or after the epoch, is read back from its serialised form, what
-- follows is left over, and a proper prefix of that form is refused.
pub time_codec-IsCodec : IsCodec time_codec InInt64
unfolding time_codec
time_codec-IsCodec = record {
  reads = λ t fits.
      subst (Reads time_codec.deserialise (u64_codec.serialise (to_unsigned t)))
        (from_unsigned-to_unsigned t fits)
        (Reads-map u64_codec.deserialise from_unsigned (u64_codec.serialise (to_unsigned t))
          (to_unsigned t) (u64_codec-IsCodec.reads (to_unsigned t) (to_unsigned-lt t fits)));
}

abbrev pub AnyByte : ℕ → Type 0
AnyByte b = Unit {0}

pub byte_codec-IsCodec : IsCodec byte_codec AnyByte
unfolding byte_codec
byte_codec-IsCodec = record {
  reads = λ b fits.
      Reads-map (consume 1) (λ xs. get_or xs 0 0) (b ∷ []) (b ∷ []) (consume-Reads (b ∷ []));
}

abbrev pub FitsString : List ℕ → Type 0
FitsString s = length s < 2 ^ 64

-- A string whose length is below 2 ^ 64 is read back from its serialised form, what follows is left
-- over, and a proper prefix of that form is refused.
pub string_codec-IsCodec : IsCodec string_codec FitsString
unfolding string_codec
string_codec-IsCodec = record {
  reads = λ s fits.
      Reads-then u64_codec.deserialise (λ n. consume n) (u64_codec.serialise (length s)) s
        (length s) s (u64_codec-IsCodec.reads (length s) fits) (consume-Reads s);
}

-- Each element fits.
abbrev pub All : {A : Type 0} → (A → Type 0) → List A → Type 0
All P [] = Unit
All P (x ∷ xs) = P x × All P xs

module _ {A : Type 0} (c : Codec A) (Fits : A → Type 0) (law : IsCodec c Fits) where
  All-Reads :
      (xs : List A) → All Fits xs → Reads (deserialise_all c (length xs)) (serialise_all c xs) xs
  unfolding serialise_all deserialise_all
  All-Reads [] fits = record { round_trip = λ rest. refl; truncated = λ k h. absurd (omega arith) }
  All-Reads (x ∷ xs) fits =
      Reads-then c.deserialise
        (λ (y : A) (rest : List ℕ).
          deserialise_all c (length xs) rest >>= λ ys. ok (y ∷ ys.0, ys.1))
        (c.serialise x) (serialise_all c xs) x (x ∷ xs) (law.reads x fits.0)
        (Reads-map (deserialise_all c (length xs)) (λ (ys : List A). x ∷ ys) (serialise_all c xs) xs
          (All-Reads xs fits.1))

  -- If the values that fit are read back by their codec, then a vector of fewer than 2 ^ 64 of them
  -- is read back from its serialised form, what follows is left over, and a proper prefix of that
  -- form is refused.
  pub vector_codec-IsCodec : IsCodec (vector_codec c) (λ xs. (length xs < 2 ^ 64) × All Fits xs)
  unfolding vector_codec
  vector_codec-IsCodec = record {
    reads = λ xs fits.
        Reads-then u64_codec.deserialise (deserialise_all c) (u64_codec.serialise (length xs))
          (serialise_all c xs) (length xs) xs (u64_codec-IsCodec.reads (length xs) fits.0)
          (All-Reads xs fits.1);
  }

  -- An array of values that are read back is read back; its length is not stored.
  pub array_codec-IsCodec :
      (n : ℕ) → IsCodec (array_codec c n) (λ xs. (length xs ≡ n) × All Fits xs)
  unfolding array_codec
  array_codec-IsCodec n = record {
    reads = λ xs fits.
        subst (λ (m : ℕ). Reads (deserialise_all c m) (serialise_all c xs) xs) fits.0
          (All-Reads xs fits.1);
  }

module _ {A B : Type 0} (c : Codec A) (d : Codec B) (FitsA : A → Type 0) (FitsB : B → Type 0)
    (lawA : IsCodec c FitsA) (lawB : IsCodec d FitsB) where
  -- Two values that are read back are read back one after the other.
  pub then_codec-IsCodec : IsCodec (then_codec c d) (λ p. FitsA p.0 × FitsB p.1)
  unfolding then_codec
  then_codec-IsCodec = record {
    reads = λ p fits.
        Reads-then c.deserialise
          (λ (a : A) (rest : List ℕ). d.deserialise rest >>= λ b. ok ((a, b.0), b.1))
          (c.serialise p.0) (d.serialise p.1) p.0 (p.0, p.1) (lawA.reads p.0 fits.0)
          (Reads-map d.deserialise (λ (b : B). (p.0, b)) (d.serialise p.1) p.1
            (lawB.reads p.1 fits.1));
  }

-- ===== src/Serialisation.antt =====
-- libs/util/include/diffmonger/util/Serialisation.hpp: integers as little-endian bytes, and the
-- codecs of strings, vectors, arrays, spans and time points.
--
-- A byte is a number below 256. A deserialiser is a function of the bytes that are left. A failed
-- `reserve` of a length that is out of all proportion is not modelled: such a length ends in
-- `corrupt_stream` when the bytes run out.
pub mod Bytes
pub mod Laws
use diffmonger.Base.{
  ℕ, zero, suc, ◌+◌, ◌-◌, ◌*◌, ◌/◌, ◌%◌, ◌^◌, bit_or, List, [], ◌∷◌, ◌++◌, length,
}
use diffmonger.Base.{leb, ltb, get_or, if◌then◌else◌, take, drop}
use diffmonger.Base.Word.{u64}
use diffmonger.Base.Int.{ℤ, pos, negsuc}
use diffmonger.Error.{Result, ok, err, corrupt_stream, ◌>>=◌}

abbrev pub Parser : Type 0 → Type 0
Parser A = List ℕ → Result (A × List ℕ)

-- `to_bytes`, from index `i` on.
to_bytes_from : ℕ → ℕ → ℕ → List ℕ
to_bytes_from zero i value = []
to_bytes_from (suc left) i value = (value / 2 ^ (i * 8)) % 256 ∷ to_bytes_from left (suc i) value

unfoldable pub to_bytes : ℕ → ℕ → List ℕ
unfolding to_bytes_from
to_bytes size value = to_bytes_from size 0 value

-- `from_bytes`, from index `i` on, with the value so far.
from_bytes_from : ℕ → ℕ → List ℕ → ℕ
from_bytes_from i value [] = value
from_bytes_from i value (b ∷ bytes) =
    from_bytes_from (suc i) (bit_or value (u64 (b * 2 ^ (i * 8)))) bytes

unfoldable pub from_bytes : List ℕ → ℕ
unfolding from_bytes_from
from_bytes bytes = from_bytes_from 0 0 bytes

unfoldable pub consume : ℕ → Parser (List ℕ)
consume n bytes =
    if leb n (length bytes) then ok (take n bytes, drop n bytes) else err corrupt_stream

-- `Codec<T>`
pub record Codec (A : Type 0) : Type 0 where
  pub serialise : A → List ℕ
  pub deserialise : Parser A

-- `Codec<uint64_t>` and `Codec<size_t>`
unfoldable pub u64_codec : Codec ℕ
u64_codec = record {
  serialise = λ value. to_bytes 8 value;
  deserialise = λ bytes. do
    (taken, rest) ← consume 8 bytes
    ok (from_bytes taken, rest);
}

-- `Codec<uint32_t>`; an `int` is the word of its 32 bits.
unfoldable pub u32_codec : Codec ℕ
u32_codec = record {
  serialise = λ value. to_bytes 4 value;
  deserialise = λ bytes. do
    (taken, rest) ← consume 4 bytes
    ok (from_bytes taken, rest);
}

-- `static_cast` between `int64_t` and `uint64_t`
unfoldable pub to_unsigned : ℤ → ℕ
to_unsigned (pos n) = n
to_unsigned (negsuc n) = 2 ^ 64 - 1 - n

unfoldable pub from_unsigned : ℕ → ℤ
from_unsigned w = if ltb w (2 ^ 63) then pos w else negsuc (2 ^ 64 - 1 - w)

-- `Codec<std::chrono::time_point<...>>`, of 64-bit counts
unfoldable pub time_codec : Codec ℤ
time_codec = record {
  serialise = λ t. u64_codec.serialise (to_unsigned t);
  deserialise = λ bytes. do
    (w, rest) ← u64_codec.deserialise bytes
    ok (from_unsigned w, rest);
}

-- `Codec<std::byte>`
unfoldable pub byte_codec : Codec ℕ
byte_codec = record {
  serialise = λ b. b ∷ [];
  deserialise = λ bytes. do
    (taken, rest) ← consume 1 bytes
    ok (get_or taken 0 0, rest);
}

-- `Codec<std::string>`; a string is the list of its bytes
unfoldable pub string_codec : Codec (List ℕ)
string_codec = record {
  serialise = λ s. u64_codec.serialise (length s) ++ s;
  deserialise = λ bytes. do
    (n, rest) ← u64_codec.deserialise bytes
    consume n rest;
}

module _ {A : Type 0} (c : Codec A) where
  serialise_all : List A → List ℕ
  serialise_all [] = []
  serialise_all (x ∷ xs) = c.serialise x ++ serialise_all xs

  deserialise_all : ℕ → Parser (List A)
  deserialise_all zero bytes = ok ([], bytes)
  deserialise_all (suc n) bytes = do
    (x, rest) ← c.deserialise bytes
    (xs, rest') ← deserialise_all n rest
    ok (x ∷ xs, rest')

  -- `Codec<std::vector<T>>`; `Codec<std::span<T>>` serialises to the same bytes
  unfoldable pub vector_codec : Codec (List A)
  unfolding serialise_all deserialise_all
  vector_codec = record {
    serialise = λ v. u64_codec.serialise (length v) ++ serialise_all v;
    deserialise = λ bytes. do
      (n, rest) ← u64_codec.deserialise bytes
      deserialise_all n rest;
  }

  -- `Codec<std::array<T, N>>`
  unfoldable pub array_codec : ℕ → Codec (List A)
  unfolding serialise_all deserialise_all
  array_codec n = record { serialise = serialise_all; deserialise = deserialise_all n }

-- One value serialised after another, `s.serialise(a).serialise(b)`.
unfoldable pub then_codec : {A B : Type 0} → Codec A → Codec B → Codec (A × B)
then_codec c d = record {
  serialise = λ p. c.serialise p.0 ++ d.serialise p.1;
  deserialise = λ bytes. do
    (a, rest) ← c.deserialise bytes
    (b, rest') ← d.deserialise rest
    ok ((a, b), rest');
}

-- ===== src/Serialisation/Bytes.antt =====
-- The bytes of a word give the word back, and `consume` takes what is there.
use native.Mathlib.Nat.{mod-eq_of_lt}
use diffmonger.Base.{ℕ, ◌+◌, ◌*◌, ◌/◌, ◌%◌, ◌^◌, ◌<◌, ◌≡◌, refl, arith}
use diffmonger.Base.{bit_or, List, ◌++◌, length, leb, true}
use diffmonger.Base.{take-length, drop-length, length-append}
use diffmonger.Base.Word.{u64}
use diffmonger.Base.Word.Bits.{bit_or_fields}
use diffmonger.Error.{ok, err, corrupt_stream}
use diffmonger.Serialisation.{to_bytes, from_bytes, consume}

byte_or : (k q r : ℕ) → r < 2 ^ k → q * 2 ^ k < 2 ^ 64 → bit_or r (u64 (q * 2 ^ k)) ≡ q * 2 ^ k + r
byte_or k q r fits word = rw (mod-eq_of_lt word) (bit_or_fields k q r fits)

-- With one byte more, the low bits of the value are read back that much further.
byte_0 : (v : ℕ) → bit_or 0 (u64 (v / 1 % 256 * 1)) ≡ v % 256
byte_0 v = omega (arith, byte_or 0 (v / 1 % 256) 0 (omega arith) (omega arith))

byte_1 : (v : ℕ) → bit_or (v % 256) (u64 (v / 256 % 256 * 256)) ≡ v % 65536
byte_1 v = omega (arith, byte_or 8 (v / 256 % 256) (v % 256) (omega arith) (omega arith))

byte_2 : (v : ℕ) → bit_or (v % 65536) (u64 (v / 65536 % 256 * 65536)) ≡ v % 16777216
byte_2 v = omega (arith, byte_or 16 (v / 65536 % 256) (v % 65536) (omega arith) (omega arith))

byte_3 : (v : ℕ) → bit_or (v % 16777216) (u64 (v / 16777216 % 256 * 16777216)) ≡ v % 4294967296
byte_3 v = omega (arith, byte_or 24 (v / 16777216 % 256) (v % 16777216) (omega arith) (omega arith))

byte_4 :
    (v : ℕ) → bit_or (v % 4294967296) (u64 (v / 4294967296 % 256 * 4294967296)) ≡ v % 1099511627776
byte_4 v =
    omega (arith, byte_or 32 (v / 4294967296 % 256) (v % 4294967296) (omega arith) (omega arith))

byte_5 :
    (v : ℕ)
    → bit_or (v % 1099511627776) (u64 (v / 1099511627776 % 256 * 1099511627776))
      ≡ v % 281474976710656
byte_5 v =
    omega
      (arith, byte_or 40 (v / 1099511627776 % 256) (v % 1099511627776) (omega arith) (omega arith))

byte_6 :
    (v : ℕ)
    → bit_or (v % 281474976710656) (u64 (v / 281474976710656 % 256 * 281474976710656))
      ≡ v % 72057594037927936
byte_6 v = omega (
  arith,
  byte_or 48 (v / 281474976710656 % 256) (v % 281474976710656) (omega arith) (omega arith),
)

byte_7 :
    (v : ℕ)
    → bit_or (v % 72057594037927936) (u64 (v / 72057594037927936 % 256 * 72057594037927936))
      ≡ v % 18446744073709551616
byte_7 v = omega (
  arith,
  byte_or 56 (v / 72057594037927936 % 256) (v % 72057594037927936) (omega arith) (omega arith),
)

-- A word of 64 bits survives its eight bytes.
pub from_bytes-to_bytes : (v : ℕ) → v < 2 ^ 64 → from_bytes (to_bytes 8 v) ≡ v
unfolding from_bytes to_bytes
from_bytes-to_bytes v h =
    rw (byte_0 v, byte_1 v, byte_2 v, byte_3 v, byte_4 v, byte_5 v, byte_6 v, byte_7 v)
      (omega arith)

pub from_bytes-to_bytes_32 : (v : ℕ) → v < 2 ^ 32 → from_bytes (to_bytes 4 v) ≡ v
unfolding from_bytes to_bytes
from_bytes-to_bytes_32 v h = rw (byte_0 v, byte_1 v, byte_2 v, byte_3 v) (omega arith)

pub length-to_bytes_32 : (v : ℕ) → length (to_bytes 4 v) ≡ 4
unfolding to_bytes
length-to_bytes_32 v = refl

pub length-to_bytes : (v : ℕ) → length (to_bytes 8 v) ≡ 8
unfolding to_bytes
length-to_bytes v = refl

pub consume-append : (xs rest : List ℕ) → consume (length xs) (xs ++ rest) ≡ ok (xs, rest)
unfolding consume
consume-append xs rest = rw (fits, take-length xs rest, drop-length xs rest)
  where
    fits : leb (length xs) (length (xs ++ rest)) ≡ true
    fits = ground (arith, length-append xs rest)

pub consume_short :
    (n : ℕ) (bytes : List ℕ) → length bytes < n → consume n bytes ≡ err corrupt_stream
unfolding consume
consume_short n bytes h = ground arith

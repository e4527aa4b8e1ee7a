-- ===== src/Uuid.antt =====
-- libs/util/src/Uuid.cpp and libs/util/include/diffmonger/util/Uuid.hpp: sixteen bytes, and their
-- hexadecimal form. `Uuid::random` reads /dev/urandom, and is not modelled.
use diffmonger.Base.{
  ℕ, ◌+◌, ◌-◌, ◌*◌, ◌/◌, ◌%◌, ◌<◌, ◌≡◌, refl, ap, sym, ◌∙◌, Bool, true, ◌&&◌, ◌||◌, List, [], ◌∷◌,
  length, ltb, leb, if◌then◌else◌, arith,
}
use diffmonger.Base.Text.{all_of, is_digit}
use diffmonger.Serialisation.{Codec, byte_codec, array_codec}
use diffmonger.Serialisation.Laws.{All}

abbrev pub Uuid : Type 0
Uuid = List ℕ

-- `Uuid::size`
abbrev pub size : ℕ
size = 16

-- `Codec<Uuid>`, that of the array of its bytes
unfoldable pub uuid_codec : Codec Uuid
uuid_codec = array_codec byte_codec size

-- `hex[v]`, of "0123456789abcdef"
abbrev pub hex : ℕ → ℕ
hex v = if ltb v 10 then 48 + v else 87 + v

unfoldable pub ascii : Uuid → List ℕ
ascii [] = []
ascii (b ∷ bytes) = hex (b / 16 % 16) ∷ hex (b % 16) ∷ ascii bytes

abbrev pub IsByte : ℕ → Type 0
IsByte b = b < 256

abbrev pub is_hex : ℕ → Bool
is_hex c = is_digit c || (leb 97 c && leb c 102)

-- Two characters for each byte, from the digits and `a` to `f`.
pub length-ascii : (u : Uuid) → length (ascii u) ≡ 2 * length u
unfolding ascii
length-ascii [] = refl
length-ascii (b ∷ u) = omega (arith, length-ascii u)

pub ascii-is_hex : (u : Uuid) → all_of is_hex (ascii u) ≡ true
unfolding ascii
ascii-is_hex [] = refl
ascii-is_hex (b ∷ u) =
    let high : is_hex (hex (b / 16 % 16)) ≡ true = ground arith in
    let low : is_hex (hex (b % 16)) ≡ true = ground arith in rw (high, low) (ascii-is_hex u)

hex_value : ℕ → ℕ
hex_value c = if ltb c 58 then c - 48 else c - 87

hex_value-hex : (v : ℕ) → v < 16 → hex_value (hex v) ≡ v
unfolding hex_value
hex_value-hex v h = ground arith

unhex : List ℕ → List ℕ
unhex [] = []
unhex (c ∷ []) = []
unhex (c ∷ d ∷ cs) = (16 * hex_value c + hex_value d) ∷ unhex cs

unhex-ascii : (u : Uuid) → All IsByte u → unhex (ascii u) ≡ u
unfolding unhex ascii
unhex-ascii [] bytes = refl
unhex-ascii (b ∷ u) bytes =
    rw
      (
        hex_value-hex (b / 16 % 16) (omega arith),
        hex_value-hex (b % 16) (omega arith),
        unhex-ascii u bytes.1,
      )
      (ap (λ (x : ℕ). x ∷ u) (omega (arith, bytes.0)))

-- Different UUIDs have different hexadecimal forms.
pub ascii-injective : (u v : Uuid) → All IsByte u → All IsByte v → ascii u ≡ ascii v → u ≡ v
ascii-injective u v ub vb h = sym (unhex-ascii u ub) ∙ ap unhex h ∙ unhex-ascii v vb

-- ===== src/Base/Hex.antt =====
-- Hexadecimal digits: `Buffer.from(text, "hex")` and `toString("hex")`.
use junctiongenerator.Base.{
  ℕ, ◌+◌, ◌-◌, ◌*◌, ◌/◌, ◌%◌, ◌<◌, ◌≡◌, refl, ap₂, ◌∙◌, Bool, true, false, ◌&&◌, Option, none, some,
  [], ◌∷◌, arith, ltb, leb, if◌then◌else◌, length,
}
use junctiongenerator.Base.Texts.{Bytes, Text}

abbrev pub between : ℕ → ℕ → ℕ → Bool
between low high c = leb low c && leb c high

-- The value of a hexadecimal digit of either case.
unfoldable pub hex_value : ℕ → Option ℕ
hex_value c =
    if between b'0' b'9' c
    then some (c - b'0')
    else if between b'a' b'f' c
    then some (c - b'a' + 10)
    else if between b'A' b'F' c
    then some (c - b'A' + 10)
    else none

abbrev pub is_some : Option ℕ → Bool
is_some none = false
is_some (some n) = true

abbrev pub all_hex : Text → Bool
all_hex [] = true
all_hex (c ∷ cs) = is_some (hex_value c) && all_hex cs

-- Two digits, and the bytes after them.
abbrev pub hex_pair : Option ℕ → Option ℕ → Bytes → Bytes
hex_pair (some h) (some l) rest = (h * 16 + l) ∷ rest
hex_pair _ _ rest = []

-- Decoding stops at the first pair that is none.
unfoldable pub from_hex : Text → Bytes
from_hex [] = []
from_hex (c ∷ []) = []
from_hex (c ∷ d ∷ cs) = hex_pair (hex_value c) (hex_value d) (from_hex cs)

-- A byte as two lower-case digits.
unfoldable pub hex_digit : ℕ → ℕ
hex_digit d = if ltb d 10 then b'0' + d else b'a' + (d - 10)

unfoldable pub to_hex : Bytes → Text
to_hex [] = []
to_hex (b ∷ bs) = hex_digit (b / 16) ∷ hex_digit (b % 16) ∷ to_hex bs

-- Every member is a byte.
abbrev pub AllBytes : Bytes → Type 0
AllBytes [] = Unit
AllBytes (b ∷ bs) = (b < 256) × AllBytes bs

pub hex_value-hex_digit : (d : ℕ) → d < 16 → hex_value (hex_digit d) ≡ some d
unfolding hex_value hex_digit
hex_value-hex_digit d h = ground arith

pub from_hex-cons :
    (c d h l : ℕ) (cs : Text)
    → hex_value c ≡ some h
    → hex_value d ≡ some l
    → from_hex (c ∷ d ∷ cs) ≡ (h * 16 + l) ∷ from_hex cs
unfolding from_hex
from_hex-cons c d h l cs e f = ap₂ (λ x y. hex_pair x y (from_hex cs)) e f

pub from_hex-to_hex : (bs : Bytes) → AllBytes bs → from_hex (to_hex bs) ≡ bs
unfolding from_hex to_hex
from_hex-to_hex [] h = refl
from_hex-to_hex (b ∷ bs) (h, hs) =
    let pair =
      from_hex-cons (hex_digit (b / 16)) (hex_digit (b % 16)) (b / 16) (b % 16) (to_hex bs)
        (hex_value-hex_digit (b / 16) (omega arith)) (hex_value-hex_digit (b % 16) (omega arith)) in
    let whole : b / 16 * 16 + b % 16 ≡ b = omega arith in
    pair ∙ ap₂ ◌∷◌ whole (from_hex-to_hex bs hs)

pub length-to_hex : (bs : Bytes) → length (to_hex bs) ≡ 2 * length bs
unfolding to_hex
length-to_hex [] = refl
length-to_hex (b ∷ bs) = omega (arith, length-to_hex bs)

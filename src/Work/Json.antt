-- ===== src/Work/Json.antt =====
-- `JSON.stringify` on arrays of strings and integers, and the digests of it in assigned-work.ts.
use junctiongenerator.Base.{ℕ, suc, ◌/◌, ◌%◌, List, [], ◌∷◌, ◌++◌, ltb, ◌==◌, if◌then◌else◌}
use junctiongenerator.Base.Int.{ℤ, pos, negsuc}
use junctiongenerator.Base.Texts.{Bytes, Text}
use junctiongenerator.Base.Hex.{to_hex, hex_digit}
use junctiongenerator.Canonical.{Number, int, not_an_integer}
use junctiongenerator.Spending.{decimal}

-- "workkey:"
abbrev pub workkey_prefix : Text
workkey_prefix = b'w' ∷ b'o' ∷ b'r' ∷ b'k' ∷ b'k' ∷ b'e' ∷ b'y' ∷ b':' ∷ []

-- "jgc/vector-dot/v1: signed int32 vectors; exact bigint sum; decimal output"
abbrev pub vector_program_text : Text
vector_program_text =
    b'j' ∷ b'g' ∷ b'c' ∷ b'/' ∷ b'v' ∷ b'e' ∷ b'c' ∷ b't' ∷ b'o' ∷ b'r' ∷ b'-' ∷ b'd' ∷ b'o' ∷ b't'
    ∷ b'/' ∷ b'v' ∷ b'1' ∷ b':' ∷ b' ' ∷ b's' ∷ b'i' ∷ b'g' ∷ b'n' ∷ b'e' ∷ b'd' ∷ b' ' ∷ b'i'
    ∷ b'n' ∷ b't' ∷ b'3' ∷ b'2' ∷ b' ' ∷ b'v' ∷ b'e' ∷ b'c' ∷ b't' ∷ b'o' ∷ b'r' ∷ b's' ∷ b';'
    ∷ b' ' ∷ b'e' ∷ b'x' ∷ b'a' ∷ b'c' ∷ b't' ∷ b' ' ∷ b'b' ∷ b'i' ∷ b'g' ∷ b'i' ∷ b'n' ∷ b't'
    ∷ b' ' ∷ b's' ∷ b'u' ∷ b'm' ∷ b';' ∷ b' ' ∷ b'd' ∷ b'e' ∷ b'c' ∷ b'i' ∷ b'm' ∷ b'a' ∷ b'l'
    ∷ b' ' ∷ b'o' ∷ b'u' ∷ b't' ∷ b'p' ∷ b'u' ∷ b't' ∷ []

-- "jgc/vector-input/v1"
abbrev pub vector_input_tag : Text
vector_input_tag =
    b'j' ∷ b'g' ∷ b'c' ∷ b'/' ∷ b'v' ∷ b'e' ∷ b'c' ∷ b't' ∷ b'o' ∷ b'r' ∷ b'-' ∷ b'i' ∷ b'n' ∷ b'p'
    ∷ b'u' ∷ b't' ∷ b'/' ∷ b'v' ∷ b'1' ∷ []

-- "jgc/assigned-result/v1"
abbrev pub assigned_result_tag : Text
assigned_result_tag =
    b'j' ∷ b'g' ∷ b'c' ∷ b'/' ∷ b'a' ∷ b's' ∷ b's' ∷ b'i' ∷ b'g' ∷ b'n' ∷ b'e' ∷ b'd' ∷ b'-' ∷ b'r'
    ∷ b'e' ∷ b's' ∷ b'u' ∷ b'l' ∷ b't' ∷ b'/' ∷ b'v' ∷ b'1' ∷ []

-- "jgc/assigned-funding/v1"
abbrev pub assigned_funding_tag : Text
assigned_funding_tag =
    b'j' ∷ b'g' ∷ b'c' ∷ b'/' ∷ b'a' ∷ b's' ∷ b's' ∷ b'i' ∷ b'g' ∷ b'n' ∷ b'e' ∷ b'd' ∷ b'-' ∷ b'f'
    ∷ b'u' ∷ b'n' ∷ b'd' ∷ b'i' ∷ b'n' ∷ b'g' ∷ b'/' ∷ b'v' ∷ b'1' ∷ []

-- "jgc/assigned-result-signature/v1"
abbrev pub result_signature_tag : Text
result_signature_tag =
    b'j' ∷ b'g' ∷ b'c' ∷ b'/' ∷ b'a' ∷ b's' ∷ b's' ∷ b'i' ∷ b'g' ∷ b'n' ∷ b'e' ∷ b'd' ∷ b'-' ∷ b'r'
    ∷ b'e' ∷ b's' ∷ b'u' ∷ b'l' ∷ b't' ∷ b'-' ∷ b's' ∷ b'i' ∷ b'g' ∷ b'n' ∷ b'a' ∷ b't' ∷ b'u'
    ∷ b'r' ∷ b'e' ∷ b'/' ∷ b'v' ∷ b'1' ∷ []

-- A bigint or an integer in decimal.
abbrev pub signed_decimal : ℤ → Text
signed_decimal (pos n) = decimal n
signed_decimal (negsuc n) = b'-' ∷ decimal (suc n)

-- A number that is no integer does not pass the checks before it; it is printed as null here.
abbrev pub json_number : Number → Text
json_number (int n) = signed_decimal n
json_number not_an_integer = b'n' ∷ b'u' ∷ b'l' ∷ b'l' ∷ []

-- The character of a string literal that a byte below 32 is, or its code.
abbrev pub json_control : ℕ → Text
json_control c =
    if c == 8
    then 92 ∷ b'b' ∷ []
    else if c == 9
    then 92 ∷ b't' ∷ []
    else if c == 10
    then 92 ∷ b'n' ∷ []
    else if c == 12
    then 92 ∷ b'f' ∷ []
    else if c == 13
    then 92 ∷ b'r' ∷ []
    else 92 ∷ b'u' ∷ b'0' ∷ b'0' ∷ hex_digit (c / 16) ∷ hex_digit (c % 16) ∷ []

abbrev pub json_char : ℕ → Text
json_char c =
    if c == 34
    then 92 ∷ 34 ∷ []
    else if c == 92
    then 92 ∷ 92 ∷ []
    else if ltb c 32
    then json_control c
    else c ∷ []

unfoldable pub json_chars : Text → Text
json_chars [] = []
json_chars (c ∷ cs) = json_char c ++ json_chars cs

abbrev pub json_string : Text → Text
json_string text = 34 ∷ (json_chars text ++ (34 ∷ []))

-- The members of an array after the first.
unfoldable pub json_members : List Text → Text
json_members [] = b']' ∷ []
json_members (t ∷ ts) = b',' ∷ (t ++ json_members ts)

unfoldable pub json_array : List Text → Text
unfolding json_members
json_array [] = b'[' ∷ b']' ∷ []
json_array (t ∷ ts) = b'[' ∷ (t ++ json_members ts)

-- `hash(value)`, of the text of the value.
abbrev pub hash : (Bytes → Bytes) → Text → Text
hash sha256 text = to_hex (sha256 text)

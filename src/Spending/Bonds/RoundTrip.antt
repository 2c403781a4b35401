-- ===== src/Spending/Bonds/RoundTrip.antt =====
-- The parsing of a bond's script.
use junctiongenerator.Base.{
  ◌+◌, ◌*◌, ◌/◌, ◌%◌, ◌≤◌, ◌≡◌, refl, ap, true, false, ◌||◌, some, [], ◌∷◌, ◌++◌, arith, ltb, leb,
  ◌==◌, length, length-append, ok,
}
use junctiongenerator.Base.Texts.{Bytes, Text, text_eq}
use junctiongenerator.Base.Hex.{
  all_hex, to_hex, hex_value-hex_digit, AllBytes, from_hex-to_hex, length-to_hex,
}
use junctiongenerator.Spending.Bonds.{
  bond_prefix, validator_bond_script, take, drop, utf8, parse_bond_tail, parse_bond_bytes,
  parse_validator_bond_script,
}

take-append : (xs ys : Bytes) → take (length xs) (xs ++ ys) ≡ xs
unfolding take
take-append [] ys = refl
take-append (x ∷ xs) ys = ap (λ t. x ∷ t) (take-append xs ys)

drop-append : (xs ys : Bytes) → drop (length xs) (xs ++ ys) ≡ ys
unfolding drop
drop-append [] ys = refl
drop-append (x ∷ xs) ys = drop-append xs ys

AllBytes-append : (xs ys : Bytes) → AllBytes xs → AllBytes ys → AllBytes (xs ++ ys)
AllBytes-append [] ys h k = k
AllBytes-append (x ∷ xs) ys (h, hs) k = (h, AllBytes-append xs ys hs k)

pub all_hex-to_hex : (bs : Bytes) → AllBytes bs → all_hex (to_hex bs) ≡ true
unfolding to_hex
all_hex-to_hex [] h = refl
all_hex-to_hex (b ∷ bs) (h, hs) =
    let high = hex_value-hex_digit (b / 16) (omega arith) in
    let low = hex_value-hex_digit (b % 16) (omega arith) in rw (high, low) (all_hex-to_hex bs hs)

abbrev bond_bytes : Text → Bytes → Bytes
bond_bytes id owner = bond_prefix ++ ((length id / 256) ∷ (length id % 256) ∷ (id ++ owner))

bond_bytes-AllBytes :
    (id : Text) (owner : Bytes)
    → length id ≤ 4096
    → AllBytes id
    → AllBytes owner
    → AllBytes (bond_bytes id owner)
bond_bytes-AllBytes id owner fits h k =
    AllBytes-append bond_prefix ((length id / 256) ∷ (length id % 256) ∷ (id ++ owner)) prefix
      (omega arith, (omega arith, AllBytes-append id owner h k))
  where
    prefix : AllBytes bond_prefix
    prefix = ground arith

-- The ids that a bond can name: 1 to 4096 bytes of UTF-8.
pub record IsId (id : Text) : Type 0 where
  pub present : 1 ≤ length id
  pub fits : length id ≤ 4096
  pub bytes : AllBytes id
  pub decoded : utf8 id ≡ id

parse_bond_tail_ok :
    (id : Text) (owner : Bytes)
    → IsId id
    → 1 ≤ length owner
    → parse_bond_tail ((length id / 256) ∷ (length id % 256) ∷ (id ++ owner))
      ≡ some (record { validator_id = id; owner_script_pub_key = to_hex owner })
unfolding parse_bond_tail
parse_bond_tail_ok id owner h k =
    let whole : length id / 256 * 256 + length id % 256 ≡ length id = omega arith in
    let named : (length id == 0) ≡ false = ground (arith, h.present) in
    let owned : leb (length (id ++ owner)) (length id) ≡ false =
      ground (arith, length-append id owner) in
    let same : (length id == length id) ≡ true = ground arith in
    rw (whole, named, owned, take-append id owner, drop-append id owner, h.decoded, same)

parse_bond_bytes_ok :
    (id : Text) (owner : Bytes)
    → IsId id
    → 1 ≤ length owner
    → parse_bond_bytes (bond_bytes id owner)
      ≡ some (record { validator_id = id; owner_script_pub_key = to_hex owner })
unfolding parse_bond_bytes take drop text_eq
parse_bond_bytes_ok id owner h k =
    let long : ltb (length (bond_bytes id owner)) 11 ≡ false =
      ground (arith, length-append id owner, h.present) in
    rw long (parse_bond_tail_ok id owner h k)

-- The script of a bond with a proper id and an owner's script that is not empty is built, and parsing it gives
-- back the id and the owner's script.
pub parse-validator_bond_script :
    (id : Text) (owner : Bytes)
    → IsId id
    → AllBytes owner
    → 1 ≤ length owner
    → (script : Text) × (validator_bond_script id (to_hex owner) ≡ ok script)
      × (parse_validator_bond_script script
          ≡ some (record { validator_id = id; owner_script_pub_key = to_hex owner }))
unfolding validator_bond_script parse_validator_bond_script
parse-validator_bond_script id owner h a k =
    let size : (length id == 0 || ltb 4096 (length id)) ≡ false =
      ground (arith, h.present, h.fits) in
    let hex = all_hex-to_hex owner a in
    let even : (length (to_hex owner) % 2 == 0) ≡ true = ground (arith, length-to_hex owner) in
    let decoded = from_hex-to_hex owner a in
    let bytes = bond_bytes-AllBytes id owner h.fits h.bytes a in
    let hex' = all_hex-to_hex (bond_bytes id owner) bytes in
    let nonempty : (length (to_hex (bond_bytes id owner)) == 0) ≡ false =
      ground (arith, length-to_hex (bond_bytes id owner)) in
    let even' : (length (to_hex (bond_bytes id owner)) % 2 == 0) ≡ true =
      ground (arith, length-to_hex (bond_bytes id owner)) in
    let back = from_hex-to_hex (bond_bytes id owner) bytes in
    (
      to_hex (bond_bytes id owner),
      rw (size, hex, even, decoded),
      rw (nonempty, hex', even', back) (parse_bond_bytes_ok id owner h k),
    )

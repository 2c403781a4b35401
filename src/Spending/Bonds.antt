-- ===== src/Spending/Bonds.antt =====
-- packages/jgc-node/src/consensus/validator-bonds.ts: the script of a validator's bond.
pub mod RoundTrip
use junctiongenerator.Base.{
  ℕ, zero, suc, ◌+◌, ◌-◌, ◌*◌, ◌/◌, ◌%◌, Bool, true, false, ◌&&◌, ◌||◌, not, Option, none, some,
  List, [], ◌∷◌, ◌++◌, ltb, leb, ◌==◌, if◌then◌else◌, length, Result, ok, err, ◌>>=◌, ◌>>◌,
  throw_if,
}
use junctiongenerator.Base.Texts.{Bytes, Text, text_eq}
use junctiongenerator.Base.Hex.{between, all_hex, from_hex, to_hex}

-- "JGCBOND" and the version.
abbrev pub bond_prefix : Bytes
bond_prefix = b'J' ∷ b'G' ∷ b'C' ∷ b'B' ∷ b'O' ∷ b'N' ∷ b'D' ∷ 1 ∷ []

pub data BondError : Type 0 where
  bad_id_length owner_not_hex : BondError

unfoldable pub validator_bond_script : Text → Text → Result BondError Text
validator_bond_script id owner = do
  throw_if (length id == 0 || ltb 4096 (length id)) bad_id_length
  throw_if (not (all_hex owner) || not (length owner % 2 == 0)) owner_not_hex
  ok (to_hex (bond_prefix ++ ((length id / 256) ∷ (length id % 256) ∷ (id ++ from_hex owner))))

pub record BondScript : Type 0 where
  pub validator_id : Text
  pub owner_script_pub_key : Text

-- `buf.subarray(0, n)` and `buf.subarray(n)`
unfoldable pub take : {A : Type 0} → ℕ → List A → List A
take zero l = []
take (suc n) [] = []
take (suc n) (a ∷ l) = a ∷ take n l

unfoldable pub drop : {A : Type 0} → ℕ → List A → List A
drop zero l = l
drop (suc n) [] = []
drop (suc n) (a ∷ l) = drop n l

-- The UTF-8 decoder of the platform on a character that is under way: the bytes still missing, the bounds
-- of the next one, and the bytes so far. What is no UTF-8 becomes U+FFFD.
pub record Pending : Type 0 where
  pub missing : ℕ
  pub low : ℕ
  pub high : ℕ
  pub so_far : Bytes

abbrev replacement : Bytes
replacement = 0xef ∷ 0xbf ∷ 0xbd ∷ []

abbrev pending : ℕ → ℕ → ℕ → ℕ → Option Pending
pending missing low high b =
    some (record { missing = missing; low = low; high = high; so_far = b ∷ [] })

-- The first byte of a character: what is decoded at once, and what is under way.
abbrev utf8_first : ℕ → Bytes × Option Pending
utf8_first b =
    if ltb b 0x80
    then (b ∷ [], none)
    else if between 0xc2 0xdf b
    then ([], pending 1 0x80 0xbf b)
    else if b == 0xe0
    then ([], pending 2 0xa0 0xbf b)
    else if b == 0xed
    then ([], pending 2 0x80 0x9f b)
    else if between 0xe1 0xef b
    then ([], pending 2 0x80 0xbf b)
    else if b == 0xf0
    then ([], pending 3 0x90 0xbf b)
    else if b == 0xf4
    then ([], pending 3 0x80 0x8f b)
    else if between 0xf1 0xf3 b
    then ([], pending 3 0x80 0xbf b)
    else (replacement, none)

abbrev utf8_next : Option Pending → ℕ → Bytes × Option Pending
utf8_next none b = utf8_first b
utf8_next (some p) b =
    if not (between p.low p.high b)
    then (replacement ++ (utf8_first b).0, (utf8_first b).1)
    else if p.missing == 1
    then (p.so_far ++ (b ∷ []), none)
    else (
      [],
      some (record {
        missing = p.missing - 1;
        low = 0x80;
        high = 0xbf;
        so_far = p.so_far ++ (b ∷ []);
      }),
    )

unfoldable pub utf8_loop : Option Pending → Bytes → Bytes
utf8_loop none [] = []
utf8_loop (some p) [] = replacement
utf8_loop state (b ∷ bs) = (utf8_next state b).0 ++ utf8_loop (utf8_next state b).1 bs

-- `toString("utf8")`
abbrev pub utf8 : Bytes → Text
utf8 = utf8_loop none

-- From the length of the id on: the two bytes, the id, and the owner's script.
unfoldable pub parse_bond_tail : Bytes → Option BondScript
parse_bond_tail (high ∷ low ∷ rest) =
    let id_length = high * 256 + low in
    let validator_id = utf8 (take id_length rest) in
    if id_length == 0 || leb (length rest) id_length
    then none
    else if not (length validator_id == id_length)
    then none
    else some (record {
      validator_id = validator_id;
      owner_script_pub_key = to_hex (drop id_length rest);
    })
parse_bond_tail _ = none

-- Once the text is known to be hexadecimal.
unfoldable pub parse_bond_bytes : Bytes → Option BondScript
parse_bond_bytes bytes =
    if ltb (length bytes) (8 + 3) || not (text_eq (take 8 bytes) bond_prefix)
    then none
    else parse_bond_tail (drop 8 bytes)

unfoldable pub parse_validator_bond_script : Text → Option BondScript
parse_validator_bond_script script =
    if length script == 0 || (not (all_hex script) || not (length script % 2 == 0))
    then none
    else parse_bond_bytes (from_hex script)

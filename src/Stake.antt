-- ===== src/Stake.antt =====
-- packages/jgc-node/src/consensus/validator-bonds.ts: the bonded roster that the unspent outputs give.
-- SHA3-256 is a parameter.
pub mod Accepted
mod Examples
use junctiongenerator.Base.{
  ℕ, ◌+◌, ◌-◌, ◌*◌, Bool, true, false, Option, none, some, List, [], ◌∷◌, ◌++◌, map, ltb, leb, ◌==◌,
  if◌then◌else◌,
}
use junctiongenerator.Base.Int.{ℤ, pos, pos_part}
use junctiongenerator.Base.Hex.{to_hex}
use junctiongenerator.Base.Texts.{Bytes, Text, text_eq}
use junctiongenerator.Base.Maps.{TextMap, lookup, insert}
use junctiongenerator.Base.Sorting.{sort_by}
use junctiongenerator.Canonical.Order.{bytes_le}
use junctiongenerator.Types.{OutPoint}
use junctiongenerator.Proposer.{ValidatorBond, ValidatorStakeSnapshot, by_id}
use junctiongenerator.Spending.{UtxoEntry, UtxoSet, decimal}
use junctiongenerator.Spending.Bonds.{BondScript, parse_validator_bond_script}

-- A key at its last colon: the text before it and the text after it.
unfoldable pub split_key : Text → Option (Text × Text)
split_key [] = none
split_key (c ∷ cs) = elim (split_key cs) [
  | none ↦ if c == b':' then some ([], cs) else none
  | some (before, after) ↦ some (c ∷ before, after)
]

-- `Number(text)`, on decimal digits.
unfoldable pub from_decimal : ℕ → Text → ℕ
from_decimal n [] = n
from_decimal n (c ∷ cs) = from_decimal (n * 10 + (c - b'0')) cs

-- What `entries` gives for a key; every key of the set has a colon.
unfoldable pub outpoint_of : Text → OutPoint
outpoint_of k = elim (split_key k) [
  | none ↦ record { txid = k; vout = 0 }
  | some (before, after) ↦ record { txid = before; vout = from_decimal 0 after }
]

-- `byId.get(id) ?? { … }`
abbrev pub bond_or_new : Text → Option ValidatorBond → ValidatorBond
bond_or_new id none = record { validator_id = id; bonded_stake = pos 0; outpoints = [] }
bond_or_new id (some bond) = bond

abbrev pub grow : OutPoint → ℕ → ValidatorBond → ValidatorBond
grow outpoint value bond = record bond {
  bonded_stake = pos (pos_part bond.bonded_stake + value);
  outpoints = bond.outpoints ++ (outpoint ∷ []);
}

abbrev pub add_bond :
    OutPoint → ℕ → Option BondScript → TextMap ValidatorBond → TextMap ValidatorBond
add_bond outpoint value none by_validator = by_validator
add_bond outpoint value (some parsed) by_validator =
    let id = parsed.validator_id in
    insert id (grow outpoint value (bond_or_new id (lookup id by_validator))) by_validator

-- The `for` over the unspent outputs.
unfoldable pub collect_bonds : UtxoSet → TextMap ValidatorBond → TextMap ValidatorBond
collect_bonds [] by_validator = by_validator
collect_bonds ((k, entry) ∷ m) by_validator = collect_bonds m (
    add_bond (outpoint_of k) entry.value (parse_validator_bond_script entry.script_pub_key)
      by_validator)

-- `compareCanonicalBytes(a.txid, b.txid) || a.vout - b.vout` is zero or less.
abbrev pub outpoint_le : OutPoint → OutPoint → Bool
outpoint_le a b = if text_eq a.txid b.txid then leb a.vout b.vout else bytes_le a.txid b.txid

abbrev pub sort_outpoints : ValidatorBond → ValidatorBond
sort_outpoints bond = record bond { outpoints = sort_by outpoint_le bond.outpoints }

abbrev pub values : TextMap ValidatorBond → List ValidatorBond
values [] = []
values ((k, bond) ∷ m) = bond ∷ values m

unfoldable pub bonded_roster : UtxoSet → List ValidatorBond
bonded_roster utxos = map sort_outpoints (sort_by by_id (values (collect_bonds utxos [])))

unfoldable pub outpoint_bytes : List OutPoint → Bytes
outpoint_bytes [] = []
outpoint_bytes (o ∷ os) = o.txid ++ (decimal o.vout ++ outpoint_bytes os)

unfoldable pub roster_bytes : List ValidatorBond → Bytes
roster_bytes [] = []
roster_bytes (b ∷ bs) =
    b.validator_id
    ++ (decimal (pos_part b.bonded_stake) ++ (outpoint_bytes b.outpoints ++ roster_bytes bs))

-- "jgc-validator-stake-snapshot-v1"
abbrev pub snapshot_tag : Text
snapshot_tag =
    b'j' ∷ b'g' ∷ b'c' ∷ b'-' ∷ b'v' ∷ b'a' ∷ b'l' ∷ b'i' ∷ b'd' ∷ b'a' ∷ b't' ∷ b'o' ∷ b'r' ∷ b'-'
    ∷ b's' ∷ b't' ∷ b'a' ∷ b'k' ∷ b'e' ∷ b'-' ∷ b's' ∷ b'n' ∷ b'a' ∷ b'p' ∷ b's' ∷ b'h' ∷ b'o'
    ∷ b't' ∷ b'-' ∷ b'v' ∷ b'1' ∷ []

module _ (sha3_256 : Bytes → Bytes) where
  unfoldable pub validator_stake_snapshot : UtxoSet → ℕ → ValidatorStakeSnapshot
  validator_stake_snapshot utxos height =
      let validators = bonded_roster utxos in
      record {
        height = height;
        root = to_hex (sha3_256 (snapshot_tag ++ (decimal height ++ roster_bytes validators)));
        validators = validators;
      }

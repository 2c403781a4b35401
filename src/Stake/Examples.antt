-- ===== src/Stake/Examples.antt =====
-- Tests for the bonded roster of validator-bonds.ts, and the theorem at a small set. SHA3-256 is replaced
-- by a constant.
use junctiongenerator.Base.{ℕ, zero, suc, ◌≡◌, refl, some, false, [], ◌∷◌, ◌++◌, arith}
use junctiongenerator.Base.Texts.{Bytes, text_eq}
use junctiongenerator.Base.Int.{pos}
use junctiongenerator.Base.Maps.{insert, lookup}
use junctiongenerator.Types.{OutPoint}
use junctiongenerator.Spending.{UtxoSet}
use junctiongenerator.Spending.Bonds.{
  BondScript, bond_prefix, parse_validator_bond_script, parse_bond_bytes, parse_bond_tail, take,
  drop, utf8_loop,
}
use junctiongenerator.Base.Hex.{to_hex, from_hex, AllBytes, hex_value, hex_digit}
use junctiongenerator.Base.Sorting.{sort_by, insert_by}
use junctiongenerator.Proposer.Roster.{IsSnapshot}
use junctiongenerator.Stake.Accepted.{validator_stake_snapshot-IsSnapshot}
use junctiongenerator.Stake.{
  split_key, from_decimal, outpoint_of, add_bond, values, bonded_roster, collect_bonds,
  validator_stake_snapshot,
}

abbrev parsed_bond : BondScript
parsed_bond = record { validator_id = b'v' ∷ []; owner_script_pub_key = [] }

abbrev first_output : OutPoint
first_output = record { txid = b'a' ∷ []; vout = 12 }

abbrev second_output : OutPoint
second_output = record { txid = b'b' ∷ []; vout = 0 }

-- The output number of a key is read after the last colon.
outpoint_of_key : outpoint_of (b'a' ∷ b':' ∷ b'1' ∷ b'2' ∷ []) ≡ first_output
unfolding outpoint_of split_key from_decimal
outpoint_of_key = refl

-- Two bonds of one validator are one entry, with both outputs and the sum of their values.
two_bonds :
    values
      (add_bond second_output 7 (some parsed_bond) (add_bond first_output 5 (some parsed_bond) []))
    ≡ record {
      validator_id = b'v' ∷ [];
      bonded_stake = pos 12;
      outpoints = first_output ∷ second_output ∷ [];
    }
      ∷ []
unfolding insert lookup text_eq
two_bonds = refl

-- An output that bonds 5 to the validator v, and one that bonds nothing.
abbrev small_set : UtxoSet
small_set =
    (
      b'a' ∷ b':' ∷ b'0' ∷ [],
      record {
        value = 5;
        script_pub_key = to_hex (bond_prefix ++ (0 ∷ 1 ∷ b'v' ∷ 0x51 ∷ []));
        height = 3;
        is_coinbase = false;
      },
    )
    ∷ (
      b'a' ∷ b':' ∷ b'1' ∷ [],
      record { value = 9; script_pub_key = b'5' ∷ b'1' ∷ []; height = 3; is_coinbase = false },
    )
    ∷ []

abbrev zero_bytes : ℕ → Bytes
zero_bytes zero = []
zero_bytes (suc n) = 0 ∷ zero_bytes n

zero_bytes-AllBytes : (n : ℕ) → AllBytes (zero_bytes n)
zero_bytes-AllBytes zero = tt
zero_bytes-AllBytes (suc n) = (omega arith, zero_bytes-AllBytes n)

abbrev constant_digest : Bytes → Bytes
constant_digest bytes = zero_bytes 32

small_set_roster :
    bonded_roster small_set
    ≡ record {
      validator_id = b'v' ∷ [];
      bonded_stake = pos 5;
      outpoints = record { txid = b'a' ∷ []; vout = 0 } ∷ [];
    }
      ∷ []
unfolding bonded_roster collect_bonds outpoint_of split_key from_decimal sort_by insert_by
    parse_validator_bond_script parse_bond_bytes parse_bond_tail take drop utf8_loop from_hex to_hex
    hex_value hex_digit text_eq lookup insert
small_set_roster = refl

validator_stake_snapshot-IsSnapshot_example :
    IsSnapshot (validator_stake_snapshot constant_digest small_set 9)
validator_stake_snapshot-IsSnapshot_example =
    validator_stake_snapshot-IsSnapshot constant_digest (λ bs. (refl, zero_bytes-AllBytes 32))
      small_set 9 (omega arith)

-- ===== src/Proposer.antt =====
-- packages/jgc-node/src/consensus/proposer.ts: the stake-weighted draw of a block's proposer. SHA3-256,
-- from Node's crypto, is a parameter; bonds and snapshots are those of consensus/validator-bonds.ts.
pub mod Roster
pub mod Intervals
pub mod Draw
pub mod Order
mod Examples
use mathlib.Core.Bool.{false≢true}
use mathlib.Core.List.{filter}
use junctiongenerator.Base.{
  ℕ, ◌+◌, ◌*◌, ◌%◌, ◌≡◌, refl, Bool, true, false, not, ◌&&◌, ◌||◌, Option, none, some, List, [],
  ◌∷◌, ◌++◌, leb, ltb, ◌==◌, if◌then◌else◌, length, Result, ok, err, ◌>>=◌, ◌>>◌, throw_if,
}
use junctiongenerator.Base.Int.{ℤ, pos, negsuc, pos_part}
use junctiongenerator.Base.Texts.{Bytes, Text, text_eq}
use junctiongenerator.Base.Hex.{between, all_hex}
use junctiongenerator.Base.Sorting.{sort_by}
use junctiongenerator.Canonical.{
  Number, int, EncodingError, consensus_uint, ◌then_write◌, u64, write_string, domain, build,
}
use junctiongenerator.Canonical.Order.{bytes_le}
use junctiongenerator.Types.{OutPoint}

-- `bondedStake` is a bigint: it may be negative.
pub record ValidatorBond : Type 0 where
  pub validator_id : Text
  pub bonded_stake : ℤ
  pub outpoints : List OutPoint

pub record ValidatorStakeSnapshot : Type 0 where
  pub height : ℕ
  pub root : Text
  pub validators : List ValidatorBond

pub data ProposerError : Type 0 where
  not_a_hash empty_id duplicate_id negative_stake unresolved : ProposerError
  encoding : EncodingError → ProposerError

-- HASH_HEX: 64 hexadecimal digits, of either case.
unfoldable pub is_hash : Text → Bool
is_hash value = length value == 64 && all_hex value

unfoldable pub assert_hash : Text → Result ProposerError (Unit {0})
unfolding is_hash
assert_hash value = throw_if (not (is_hash value)) not_a_hash

-- A throw of the encoding is a throw of its caller.
abbrev pub encoded : {A : Type 0} → Result EncodingError A → Result ProposerError A
encoded (ok a) = ok a
encoded (err e) = err (encoding e)

-- `seen.has(id)`
abbrev pub has : Text → List Text → Bool
has id [] = false
has id (t ∷ ts) = text_eq t id || has id ts

abbrev pub is_empty : Text → Bool
is_empty [] = true
is_empty (c ∷ cs) = false

abbrev pub is_negative : ℤ → Bool
is_negative (pos n) = false
is_negative (negsuc n) = true

-- The `map` over the bonds, with `seen`.
unfoldable pub check_bonds :
    List Text → List ValidatorBond → Result ProposerError (List ValidatorBond)
check_bonds seen [] = ok []
check_bonds seen (bond ∷ bonds) = do
  throw_if (is_empty bond.validator_id) empty_id
  throw_if (has bond.validator_id seen) duplicate_id
  throw_if (is_negative bond.bonded_stake) negative_stake
  rest ← check_bonds (bond.validator_id ∷ seen) bonds
  ok (bond ∷ rest)

-- The stake of a bond that is not negative.
abbrev pub stake : ValidatorBond → ℕ
stake bond = pos_part bond.bonded_stake

abbrev pub decide_true : (b : Bool) → Dec (b ≡ true)
decide_true true = yes refl
decide_true false = no false≢true

-- `bond.bondedStake > 0n`
abbrev pub has_stake : (bond : ValidatorBond) → Dec (ltb 0 (stake bond) ≡ true)
has_stake bond = decide_true (ltb 0 (stake bond))

abbrev pub by_id : ValidatorBond → ValidatorBond → Bool
by_id a b = bytes_le a.validator_id b.validator_id

-- The bonds with stake, in the byte order of their ids.
unfoldable pub schedule : List ValidatorBond → List ValidatorBond
schedule bonds = sort_by by_id (filter has_stake bonds)

unfoldable pub sorted_positive_validators :
    ValidatorStakeSnapshot → Result ProposerError (List ValidatorBond)
sorted_positive_validators snapshot = do
  assert_hash snapshot.root
  height ← encoded (consensus_uint (int (pos snapshot.height)))
  validators ← check_bonds [] snapshot.validators
  ok (schedule validators)

-- "JGC-BLOCK-PROPOSER/V1"
abbrev pub proposer_draw_domain : Text
proposer_draw_domain =
    b'J' ∷ b'G' ∷ b'C' ∷ b'-' ∷ b'B' ∷ b'L' ∷ b'O' ∷ b'C' ∷ b'K' ∷ b'-' ∷ b'P' ∷ b'R' ∷ b'O' ∷ b'P'
    ∷ b'O' ∷ b'S' ∷ b'E' ∷ b'R' ∷ b'/' ∷ b'V' ∷ b'1' ∷ []

-- `toLowerCase`, on texts in ASCII: a hash.
unfoldable pub to_lower_case : Text → Text
to_lower_case [] = []
to_lower_case (c ∷ cs) = (if between b'A' b'Z' c then c + 32 else c) ∷ to_lower_case cs

-- BigInt(`0x${hex}`), on the bytes that the digits stand for.
unfoldable pub big_endian : ℕ → Bytes → ℕ
big_endian n [] = n
big_endian n (b ∷ bs) = big_endian (n * 256 + b) bs

unfoldable pub draw_context : ValidatorStakeSnapshot → Text → ℕ → Result EncodingError Bytes
draw_context snapshot previous_block_hash height = build (
    write_string (to_lower_case previous_block_hash)
    then_write u64 height
    then_write write_string (to_lower_case snapshot.root)
    then_write u64 snapshot.height)

abbrev pub total_stake : List ValidatorBond → ℕ
total_stake [] = 0
total_stake (bond ∷ bonds) = stake bond + total_stake bonds

-- The `for` over the validators, with `cumulative`.
unfoldable pub draw_loop : ℕ → ℕ → List ValidatorBond → Result ProposerError Text
draw_loop draw cumulative [] = err unresolved
draw_loop draw cumulative (validator ∷ validators) =
    let cumulative' = cumulative + stake validator in
    if ltb draw cumulative'
    then ok validator.validator_id
    else draw_loop draw cumulative' validators

module _ (sha3_256 : Bytes → Bytes) where
  unfoldable pub proposer_draw : ValidatorStakeSnapshot → Text → ℕ → Result ProposerError ℕ
  proposer_draw snapshot previous_block_hash height = do
    assert_hash previous_block_hash
    writer ← encoded (build (domain proposer_draw_domain))
    context ← encoded (draw_context snapshot previous_block_hash height)
    ok (big_endian 0 (sha3_256 (writer ++ context)))

  -- Once the validators are sorted.
  unfoldable pub draw_from :
      ValidatorStakeSnapshot → Text → ℕ → List ValidatorBond → Result ProposerError (Option Text)
  draw_from snapshot previous_block_hash height [] = ok none
  draw_from snapshot previous_block_hash height (validator ∷ validators) = do
    draw ← proposer_draw snapshot previous_block_hash height
    id ← draw_loop (draw % total_stake (validator ∷ validators)) 0 (validator ∷ validators)
    ok (some id)

  unfoldable pub select_block_proposer :
      ValidatorStakeSnapshot → Text → ℕ → Result ProposerError (Option Text)
  select_block_proposer snapshot previous_block_hash height =
      sorted_positive_validators snapshot >>= draw_from snapshot previous_block_hash height

  abbrev pub names : Text → Option Text → Bool
  names validator_id none = false
  names validator_id (some id) = text_eq id validator_id

  unfoldable pub is_expected_block_proposer :
      ValidatorStakeSnapshot → Text → ℕ → Text → Result ProposerError Bool
  is_expected_block_proposer snapshot previous_block_hash height validator_id = do
    id ← select_block_proposer snapshot previous_block_hash height
    ok (names validator_id id)

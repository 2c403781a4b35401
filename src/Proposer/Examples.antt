-- ===== src/Proposer/Examples.antt =====
-- Draws on a small roster, and the theorems at it. SHA3-256 is replaced by a constant.
use mathlib.Core.List.Perm
use junctiongenerator.Base.{
  ℕ, zero, suc, ◌≡◌, ◌%◌, refl, true, false, some, List, [], ◌∷◌, arith, ok, err,
}
use junctiongenerator.Base.Int.{pos, negsuc}
use junctiongenerator.Base.Texts.{Bytes, Text, text_eq}
use junctiongenerator.Base.Hex.{hex_value}
use junctiongenerator.Base.Sorting.{sort_by, insert_by}
use junctiongenerator.Canonical.{
  consensus_uint, compare_canonical_bytes, be_bytes, u32, u64, write_string, domain,
}
use junctiongenerator.Canonical.Order.{bytes_le}
use junctiongenerator.Proposer.{
  ValidatorBond, ValidatorStakeSnapshot, is_hash, assert_hash, check_bonds, schedule, total_stake,
  sorted_positive_validators, to_lower_case, big_endian, draw_context, draw_loop, proposer_draw,
  draw_from, select_block_proposer, is_expected_block_proposer, duplicate_id, negative_stake,
}
use junctiongenerator.Proposer.Roster.{IsSnapshot, sorted_positive_validators_iff}
use junctiongenerator.Proposer.Intervals.{Owner}
use junctiongenerator.Proposer.Draw.{
  Selected, select_block_proposer_interval, select_block_proposer_lem,
}
use junctiongenerator.Proposer.Order.{select_block_proposer_order}

abbrev zeros : ℕ → Text
zeros zero = []
zeros (suc n) = b'0' ∷ zeros n

abbrev bond : ℕ → ℕ → ValidatorBond
bond id n = record { validator_id = id ∷ []; bonded_stake = pos n; outpoints = [] }

abbrev roster : List ValidatorBond
roster = bond b'c' 5 ∷ bond b'b' 0 ∷ bond b'a' 3 ∷ []

abbrev snapshot : ValidatorStakeSnapshot
snapshot = record { height = 9; root = zeros 64; validators = roster }

-- The digest is the number 7.
abbrev digest : Bytes → Bytes
digest bytes = 7 ∷ []

snapshot_schedule : schedule roster ≡ bond b'a' 3 ∷ bond b'c' 5 ∷ []
unfolding schedule sort_by insert_by bytes_le compare_canonical_bytes
snapshot_schedule = refl

snapshot_accepted : sorted_positive_validators snapshot ≡ ok (schedule roster)
unfolding sorted_positive_validators assert_hash is_hash hex_value consensus_uint check_bonds
    text_eq
snapshot_accepted = refl

duplicate_refused : check_bonds [] (bond b'a' 3 ∷ bond b'a' 1 ∷ []) ≡ err duplicate_id
unfolding check_bonds text_eq
duplicate_refused = refl

negative_refused :
    check_bonds [] (record (bond b'a' 3) { bonded_stake = negsuc 0 } ∷ []) ≡ err negative_stake
unfolding check_bonds
negative_refused = refl

snapshot-IsSnapshot : IsSnapshot snapshot
snapshot-IsSnapshot =
    ((sorted_positive_validators_iff snapshot (schedule roster)).0 snapshot_accepted).0

snapshot_draw : proposer_draw digest snapshot (zeros 64) 10 ≡ ok 7
unfolding proposer_draw assert_hash is_hash hex_value draw_context domain write_string u32 u64
    be_bytes consensus_uint to_lower_case big_endian
snapshot_draw = refl

snapshot_proposer : select_block_proposer digest snapshot (zeros 64) 10 ≡ ok (some (b'c' ∷ []))
unfolding select_block_proposer draw_from draw_loop sorted_positive_validators assert_hash is_hash
    hex_value consensus_uint check_bonds text_eq proposer_draw draw_context domain write_string u32
    u64 be_bytes to_lower_case big_endian schedule sort_by insert_by bytes_le
    compare_canonical_bytes
snapshot_proposer = refl

snapshot_expected : is_expected_block_proposer digest snapshot (zeros 64) 10 (b'a' ∷ []) ≡ ok false
unfolding is_expected_block_proposer text_eq
snapshot_expected = rw snapshot_proposer

-- Seven lies in the interval of `c`, from three to eight.
seventh : Owner (schedule roster) (7 % total_stake (schedule roster))
seventh = record {
  before = bond b'a' 3 ∷ [];
  bond = bond b'c' 5;
  after = [];
  split = snapshot_schedule;
  above = rw snapshot_schedule (omega arith);
  below = rw snapshot_schedule (omega arith);
}

select_block_proposer_interval_example :
    select_block_proposer digest snapshot (zeros 64) 10 ≡ ok (some seventh.bond.validator_id)
select_block_proposer_interval_example =
    select_block_proposer_interval digest snapshot (zeros 64) 10 7 seventh snapshot-IsSnapshot
      snapshot_draw

zeros-is_hash : is_hash (zeros 64) ≡ true
unfolding is_hash hex_value
zeros-is_hash = refl

select_block_proposer_lem_example :
    (draw : ℕ) × (proposer_draw digest snapshot (zeros 64) 10 ≡ ok draw)
    × Selected digest snapshot (zeros 64) 10 draw
select_block_proposer_lem_example =
    select_block_proposer_lem digest snapshot (zeros 64) 10 snapshot-IsSnapshot zeros-is_hash
      (omega arith)

select_block_proposer_order_example :
    select_block_proposer digest
      (record snapshot { validators = bond b'b' 0 ∷ bond b'c' 5 ∷ bond b'a' 3 ∷ [] })
      (zeros 64)
      10
    ≡ select_block_proposer digest snapshot (zeros 64) 10
select_block_proposer_order_example =
    select_block_proposer_order digest snapshot (bond b'b' 0 ∷ bond b'c' 5 ∷ bond b'a' 3 ∷ [])
      (zeros 64) 10 snapshot-IsSnapshot (Perm.swap (bond b'c' 5) (bond b'b' 0) (bond b'a' 3 ∷ []))

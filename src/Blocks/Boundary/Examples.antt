-- ===== src/Blocks/Boundary/Examples.antt =====
-- The last block of an epoch of two miners, and the theorem at it. SHA-256 is replaced by a constant.
use junctiongenerator.Base.{ℕ, zero, suc, ◌≡◌, refl, [], ◌∷◌, ◌++◌, none, arith, ok}
use junctiongenerator.Base.Int.{pos}
use junctiongenerator.Base.Hex.{to_hex}
use junctiongenerator.Base.Texts.{Bytes, Text, text_eq}
use junctiongenerator.Base.Maps.{lookup}
use junctiongenerator.Base.Sorting.{sort_by, insert_by}
use junctiongenerator.Canonical.{
  consensus_uint, compare_canonical_bytes, be_bytes, u32, u64, u128, write_string, domain,
}
use junctiongenerator.Canonical.Order.{bytes_le}
use junctiongenerator.Types.{EpochState, Transaction}
use junctiongenerator.Epoch.Accumulator.{IsValid}
use junctiongenerator.Epoch.Settlement.{
  pays_before, sort_miners, pay, write_payouts, settlement_preimage, hash_epoch_settlement, settle,
  compute_epoch_settlement,
}
use junctiongenerator.Epoch.Settlement.Totality.{IsEncodable}
use junctiongenerator.Spending.Bonds.{take, drop}
use junctiongenerator.Coinbase.{
  pq_script_pub_key_from_address, settlement_outputs, create_epoch_settlement_transaction,
  compare_outputs, check_coinbase, validate_coinbase_tx,
}
use junctiongenerator.Coinbase.Rules.{total_out}
use junctiongenerator.Types.{MinerComputeContribution, ai_inference}
use junctiongenerator.Canonical.{int}
use junctiongenerator.Emission.{get_block_reward}
use junctiongenerator.Epoch.{EpochError, apply_block_to_epoch, accumulate, add_contribution}
use junctiongenerator.Base.Maps.{insert}
use junctiongenerator.Base.{◌+◌, Result, sym, subst}
use junctiongenerator.Blocks.Boundary.{check_settlement, check_settlement_pays}

abbrev digits : ℕ → ℕ → Text
digits zero c = []
digits (suc n) c = c ∷ digits n c

abbrev address : ℕ → Text
address d = b'1' ∷ b'Q' ∷ b'G' ∷ b'C' ∷ digits 40 d

abbrev script : ℕ → Text
script d = b'5' ∷ b'1' ∷ b'1' ∷ b'4' ∷ (digits 40 d ++ (b'6' ∷ b'3' ∷ b'a' ∷ b'c' ∷ []))

abbrev before : EpochState
before = record {
  epoch_start_height = 0;
  epoch_block_index = 143;
  total_epoch_tflops = 2;
  miner_contributions = (address b'a', 1) ∷ (address b'b', 1) ∷ [];
  pending_reward_pool = 10;
  epoch_start_time = 0;
}

abbrev contribution : MinerComputeContribution
contribution = record {
  miner_address = address b'b';
  proof = record {
    task_commitment = [];
    proof_bytes = [];
    circuit_id = [];
    public_inputs = [];
    tflops_weight = int (pos 2);
    task_type = ai_inference;
    compute_started_at = [];
  };
  signature = [];
  public_key = [];
}

abbrev after : EpochState
after = record {
  epoch_start_height = 0;
  epoch_block_index = 144;
  total_epoch_tflops = 4;
  miner_contributions = (address b'a', 1) ∷ (address b'b', 3) ∷ [];
  pending_reward_pool = 500_000_000_000_000_015;
  epoch_start_time = 0;
}

abbrev coinbase : Transaction
coinbase = record {
  version = 1;
  inputs = [];
  outputs =
      record { value = pos 375_000_000_000_000_011; script_pub_key = script b'b' }
      ∷ record { value = pos 125_000_000_000_000_004; script_pub_key = script b'a' }
      ∷ [];
  locktime = 143;
  broker_task_ref = none;
}

abbrev sha256 : Bytes → Bytes
sha256 bytes = []

applied : apply_block_to_epoch before (contribution ∷ []) 143 5 ≡ (after, ok tt)
unfolding apply_block_to_epoch accumulate consensus_uint add_contribution insert get_block_reward
    text_eq lookup
applied = refl

accepted : check_settlement sha256 coinbase before (contribution ∷ []) 143 5 ≡ ok (ok tt)
unfolding check_settlement apply_block_to_epoch validate_coinbase_tx
    create_epoch_settlement_transaction settlement_outputs pq_script_pub_key_from_address take drop
    text_eq check_coinbase compare_outputs compute_epoch_settlement settle hash_epoch_settlement
    settlement_preimage write_payouts write_string u32 u64 u128 be_bytes consensus_uint domain pay
    sort_miners sort_by insert_by pays_before bytes_le compare_canonical_bytes to_hex accumulate
    add_contribution insert get_block_reward lookup
accepted = refl

before-IsValid : IsValid before
unfolding lookup text_eq
before-IsValid = record {
  distinct = (refl, (refl, tt));
  accounted = refl;
  bounded = omega arith;
  within = omega arith;
}

after-IsEncodable : IsEncodable after 0
after-IsEncodable = record {
  index = omega arith;
  start = omega arith;
  pool = omega arith;
  count = omega arith;
  addresses = omega arith;
}

applied-IsEncodable : IsEncodable (apply_block_to_epoch before (contribution ∷ []) 143 5).0 0
applied-IsEncodable =
    subst (λ (p : EpochState × Result EpochError (Unit {0})). IsEncodable p.0 0) (sym applied)
      after-IsEncodable

check_settlement_pays_example : total_out coinbase.outputs ≡ 10 + (get_block_reward 143 + 5)
check_settlement_pays_example =
    check_settlement_pays sha256 coinbase before (contribution ∷ []) 143 5 before-IsValid refl
      (omega arith) applied-IsEncodable accepted

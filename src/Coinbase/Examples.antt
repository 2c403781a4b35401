-- ===== src/Coinbase/Examples.antt =====
-- A settlement transaction, and the theorems at it. SHA-256 is replaced by the identity.
use junctiongenerator.Base.{ℕ, zero, suc, ◌≡◌, ◌↔◌, refl, List, [], ◌∷◌, ◌++◌, none, ok, err}
use junctiongenerator.Base.Int.{pos}
use junctiongenerator.Base.Hex.{to_hex}
use junctiongenerator.Base.Texts.{Bytes, Text, text_eq}
use junctiongenerator.Base.Sorting.{sort_by, insert_by}
use junctiongenerator.Canonical.{
  consensus_uint, compare_canonical_bytes, be_bytes, u32, u64, u128, write_string, domain,
}
use junctiongenerator.Canonical.Order.{bytes_le}
use junctiongenerator.Types.{EpochState, TxOutput, Transaction}
use junctiongenerator.Epoch.Settlement.{
  EpochSettlement, pays_before, sort_miners, pay, payout, settlement, write_payouts,
  settlement_preimage, hash_epoch_settlement, settle, compute_epoch_settlement,
}
use junctiongenerator.Spending.Bonds.{take, drop}
use junctiongenerator.Coinbase.{
  pq_script_pub_key_from_address, settlement_outputs, create_epoch_settlement_transaction,
  compare_outputs, check_coinbase, validate_coinbase_tx, wrong_amount,
}
use junctiongenerator.Coinbase.Rules.{validate_coinbase_tx_iff}

abbrev digits : ℕ → ℕ → Text
digits zero c = []
digits (suc n) c = c ∷ digits n c

abbrev address : ℕ → Text
address d = b'1' ∷ b'Q' ∷ b'G' ∷ b'C' ∷ digits 40 d

abbrev script : ℕ → Text
script d = b'5' ∷ b'1' ∷ b'1' ∷ b'4' ∷ (digits 40 d ++ (b'6' ∷ b'3' ∷ b'a' ∷ b'c' ∷ []))

abbrev completed : EpochState
completed = record {
  epoch_start_height = 0;
  epoch_block_index = 144;
  total_epoch_tflops = 4;
  miner_contributions = (address b'a', 1) ∷ (address b'b', 3) ∷ [];
  pending_reward_pool = 101;
  epoch_start_time = 0;
}

abbrev outputs : List TxOutput
outputs =
    record { value = pos 75; script_pub_key = script b'b' }
    ∷ record { value = pos 26; script_pub_key = script b'a' }
    ∷ []

abbrev coinbase : Transaction
coinbase = record {
  version = 1;
  inputs = [];
  outputs = outputs;
  locktime = 144;
  broker_task_ref = none;
}

abbrev sha256 : Bytes → Bytes
sha256 bytes = []

abbrev expected_settlement : EpochSettlement
expected_settlement =
    settlement completed 0 4
      (payout (address b'b') (pos 75) 3 ∷ payout (address b'a') (pos 26) 1 ∷ []) []

settled_epoch : compute_epoch_settlement sha256 completed 0 ≡ ok expected_settlement
unfolding compute_epoch_settlement settle hash_epoch_settlement settlement_preimage write_payouts
    write_string u32 u64 u128 be_bytes consensus_uint domain pay sort_miners sort_by insert_by
    pays_before bytes_le compare_canonical_bytes to_hex
settled_epoch = refl

expected : create_epoch_settlement_transaction expected_settlement 144 ≡ ok coinbase
unfolding create_epoch_settlement_transaction settlement_outputs pq_script_pub_key_from_address take
    drop text_eq
expected = refl

short_paid_refused :
    check_coinbase
      (record coinbase {
        outputs =
            record { value = pos 75; script_pub_key = script b'b' }
            ∷ record { value = pos 25; script_pub_key = script b'a' }
            ∷ [];
      })
      expected_settlement
      coinbase
    ≡ err wrong_amount
unfolding check_coinbase compare_outputs text_eq
short_paid_refused = refl

validate_coinbase_tx_iff_example :
    (validate_coinbase_tx sha256 coinbase completed 0 144 ≡ ok (ok tt))
    ↔ ((coinbase.inputs ≡ []) × (coinbase.locktime ≡ 144) × (coinbase.outputs ≡ outputs))
validate_coinbase_tx_iff_example =
    validate_coinbase_tx_iff sha256 coinbase completed 0 144 expected_settlement coinbase
      settled_epoch expected

coinbase_accepted : validate_coinbase_tx sha256 coinbase completed 0 144 ≡ ok (ok tt)
coinbase_accepted =
    (validate_coinbase_tx_iff sha256 coinbase completed 0 144 expected_settlement coinbase
        settled_epoch expected).1
      (refl, refl, refl)

-- ===== src/Coinbase.antt =====
-- packages/jgc-node/src/consensus/settlement-transaction.ts, the settlement transaction of an epoch, and
-- `validateCoinbaseTx` of consensus/validation.ts, which checks a block's first transaction against it.
pub mod Rules
mod Examples
use junctiongenerator.Base.{
  ℕ, Bool, true, false, not, ◌&&◌, ◌||◌, List, [], ◌∷◌, ◌++◌, none, ltb, ◌==◌, length, Result, ok,
  err, ◌>>=◌, ◌>>◌, throw_if,
}
use junctiongenerator.Base.Int.{int_eq}
use junctiongenerator.Base.Texts.{Bytes, Text, text_eq}
use junctiongenerator.Types.{EpochState, TxOutput, Transaction}
use junctiongenerator.Epoch.{EpochError}
use junctiongenerator.Epoch.Settlement.{EpochPayoutEntry, EpochSettlement, compute_epoch_settlement}
use junctiongenerator.Headers.{all_lower_hex}
use junctiongenerator.Spending.Bonds.{take, drop}

pub data SettlementError : Type 0 where
  height_not_uint32 invalid_address : SettlementError
  epoch : EpochError → SettlementError

-- /^1QGC([0-9a-f]{40})$/
unfoldable pub pq_script_pub_key_from_address : Text → Result SettlementError Text
pq_script_pub_key_from_address address = do
  let hash = drop 4 address
  throw_if
      (not (
        text_eq (take 4 address) (b'1' ∷ b'Q' ∷ b'G' ∷ b'C' ∷ [])
        && (length hash == 40 && all_lower_hex hash)))
      invalid_address
  ok ((b'5' ∷ b'1' ∷ b'1' ∷ b'4' ∷ []) ++ (hash ++ (b'6' ∷ b'3' ∷ b'a' ∷ b'c' ∷ [])))

-- The `map` over the payouts.
unfoldable pub settlement_outputs : List EpochPayoutEntry → Result SettlementError (List TxOutput)
settlement_outputs [] = ok []
settlement_outputs (p ∷ ps) = do
  script ← pq_script_pub_key_from_address p.miner_address
  rest ← settlement_outputs ps
  ok (record { value = p.satoshis; script_pub_key = script } ∷ rest)

unfoldable pub create_epoch_settlement_transaction :
    EpochSettlement → ℕ → Result SettlementError Transaction
create_epoch_settlement_transaction settlement block_height = do
  throw_if (ltb 0xffff_ffff block_height) height_not_uint32
  outputs ← settlement_outputs settlement.payouts
  ok (record {
    version = 1;
    inputs = [];
    outputs = outputs;
    locktime = block_height;
    broker_task_ref = none;
  })

-- The messages of `INVALID_EPOCH_SETTLEMENT`.
pub data CoinbaseFault : Type 0 where
  has_inputs wrong_height wrong_count wrong_script wrong_amount : CoinbaseFault

-- The `for` over the payouts: the expected outputs and those of the transaction, equally many.
unfoldable pub compare_outputs : List TxOutput → List TxOutput → Result CoinbaseFault (Unit {0})
compare_outputs [] outputs = ok tt
compare_outputs (e ∷ es) [] = err wrong_count
compare_outputs (e ∷ es) (o ∷ os) = do
  throw_if (not (text_eq o.script_pub_key e.script_pub_key)) wrong_script
  throw_if (not (int_eq o.value e.value)) wrong_amount
  compare_outputs es os

abbrev pub is_empty : {A : Type 0} → List A → Bool
is_empty [] = true
is_empty (x ∷ xs) = false

-- The checks of the transaction against the expected one.
unfoldable pub check_coinbase :
    Transaction → EpochSettlement → Transaction → Result CoinbaseFault (Unit {0})
check_coinbase tx settlement expected = do
  throw_if (not (is_empty tx.inputs)) has_inputs
  throw_if (not (tx.locktime == expected.locktime)) wrong_height
  throw_if (not (length tx.outputs == length settlement.payouts)) wrong_count
  compare_outputs expected.outputs tx.outputs

abbrev pub settled : {A : Type 0} → Result EpochError A → Result SettlementError A
settled (ok a) = ok a
settled (err e) = err (epoch e)

module _ (sha256 : Bytes → Bytes) where
  unfoldable pub validate_coinbase_tx :
      Transaction → EpochState → ℕ → ℕ → Result SettlementError (Result CoinbaseFault (Unit {0}))
  validate_coinbase_tx tx s epoch_index block_height = do
    settlement ← settled (compute_epoch_settlement sha256 s epoch_index)
    expected ← create_epoch_settlement_transaction settlement block_height
    ok (check_coinbase tx settlement expected)

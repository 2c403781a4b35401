-- ===== src/Blocks/Connect.antt =====
-- packages/jgc-node/src/network/node.ts: the fees of a block (`calculateBlockFees`) and the unspent outputs
-- after it (`applyBlockState`).
use junctiongenerator.Base.{
  ℕ, ◌+◌, Bool, false, Option, none, some, List, [], ◌∷◌, Result, ok, err, ◌>>=◌,
}
use junctiongenerator.Base.Int.{ℤ, pos, ◌+ℤ◌, ◌-ℤ◌}
use junctiongenerator.Base.Texts.{Bytes}
use junctiongenerator.Types.{TxInput, TxOutput, Transaction}
use junctiongenerator.Transactions.{TransactionError}
use junctiongenerator.Spending.{UtxoSet, get, apply_transaction}
use junctiongenerator.Blocks.{reduce_values}

-- The `for` over the inputs of `calculateTransactionFees`: none where an entry is missing.
unfoldable pub input_values : UtxoSet → ℕ → List TxInput → Option ℕ
input_values view in_sum [] = some in_sum
input_values view in_sum (input ∷ inputs) =
    elim (get input.prev_out.txid input.prev_out.vout view) [
      | none ↦ none
      | some entry ↦ input_values view (in_sum + entry.value) inputs
    ]

-- `fees` after a transaction.
abbrev pub add_fee : ℤ → Option ℕ → List TxOutput → ℤ
add_fee fees none outputs = fees
add_fee fees (some in_sum) outputs = fees +ℤ (pos in_sum -ℤ reduce_values (pos 0) outputs)

module _ (sha256 : Bytes → Bytes) where
  -- The `for` over the transactions, with `fees` and `view`.
  unfoldable pub calculate_transaction_fees :
      List Transaction → ℕ → ℤ → UtxoSet → Result TransactionError ℤ
  calculate_transaction_fees [] height fees view = ok fees
  calculate_transaction_fees (tx ∷ txs) height fees view = do
    let applied = apply_transaction sha256 tx height false view
    done ← applied.1
    calculate_transaction_fees txs height (add_fee fees (input_values view 0 tx.inputs) tx.outputs)
        applied.0

  -- `block.transactions.slice(1)`
  unfoldable pub calculate_block_fees : List Transaction → ℕ → UtxoSet → Result TransactionError ℤ
  calculate_block_fees [] height utxos = calculate_transaction_fees [] height (pos 0) utxos
  calculate_block_fees (coinbase ∷ txs) height utxos =
      calculate_transaction_fees txs height (pos 0) utxos

  -- The `forEach` of `applyBlockState`; a throw leaves the set as it is then.
  unfoldable pub apply_transactions :
      Bool → List Transaction → ℕ → UtxoSet → UtxoSet × Result TransactionError (Unit {0})
  apply_transactions is_coinbase [] height utxos = (utxos, ok tt)
  apply_transactions is_coinbase (tx ∷ txs) height utxos =
      let applied = apply_transaction sha256 tx height is_coinbase utxos in
      elim applied.1 [
        | ok _ ↦ apply_transactions false txs height applied.0
        | err e ↦ (applied.0, err e)
      ]

-- ===== src/Blocks.antt =====
-- packages/jgc-node/src/consensus/validation.ts: the checks of a block's header and transactions, each step
-- of `validateBlockSync` on its own. Blocks/Connect has what node.ts does with an accepted block.
pub mod Connect
pub mod Spent
pub mod Conserves
pub mod Accepted
pub mod Total
pub mod Proofs
pub mod Boundary
mod Examples
use junctiongenerator.Base.{
  ℕ, zero, suc, ◌+◌, Bool, true, false, not, ◌&&◌, ◌||◌, Option, none, some, List, [], ◌∷◌, ltb,
  leb, ◌==◌, if◌then◌else◌, length, Result, ok, err, ◌>>=◌, ◌>>◌, throw_if,
}
use junctiongenerator.Base.Int.{ℤ, pos, negsuc, ◌+ℤ◌, int_leb}
use junctiongenerator.Base.Texts.{Bytes, Text, text_eq}
use junctiongenerator.Types.{TxInput, TxOutput, Transaction, EpochState}
use junctiongenerator.Emission.{hard_cap_satoshis}
use junctiongenerator.Difficulty.{
  RangeError, decode_difficulty_bits_exact, is_canonical_difficulty_bits,
}
use junctiongenerator.Transactions.{TransactionError}
use junctiongenerator.Headers.{BlockHeader, HeaderError, serialize_block_header}
use junctiongenerator.Merkle.{MerkleTree, build_merkle_tree}
use junctiongenerator.Proposer.{has}
use junctiongenerator.Spending.{
  UtxoEntry, UtxoSet, Rejection, input_key, get, txid, validate_spend, apply_transaction,
}
use junctiongenerator.Spending.Signatures.{PqLibrary}

-- `ValidationError`, as far as the steps here return it.
pub data ValidationError : Type 0 where
  invalid_header_encoding invalid_version timestamp_too_old timestamp_too_new : ValidationError
  invalid_prev_hash invalid_height invalid_difficulty_bits wrong_difficulty_target : ValidationError
  empty_transactions invalid_coinbase merkle_root_mismatch : ValidationError
  invalid_transaction double_spend output_sum_exceeds_input : ValidationError

-- How a step ends that does not accept: by a throw, or by a result that is not valid.
pub data BlockFailure : Type 0 where
  thrown : TransactionError → BlockFailure
  invalid : ValidationError → BlockFailure

abbrev pub genesis_block_version : ℕ
genesis_block_version = 0x0300_0000

abbrev pub max_future_secs : ℕ
max_future_secs = 7200

abbrev pub is_serialized : Result HeaderError Bytes → Bool
is_serialized (ok bytes) = true
is_serialized (err e) = false

-- `expectedPrevHash !== null && header.prevHash !== expectedPrevHash`
abbrev pub is_unlinked : Option Text → Text → Bool
is_unlinked none prev_hash = false
is_unlinked (some expected) prev_hash = not (text_eq prev_hash expected)

-- `targetMicros > 0n`, `false` where the decoding throws.
abbrev pub is_positive_target : Result RangeError ℕ → Bool
is_positive_target (ok target) = ltb 0 target
is_positive_target (err e) = false

unfoldable pub validate_block_header :
    BlockHeader → Option Text → ℕ → ℕ → ℕ → Result ValidationError (Unit {0})
validate_block_header header expected_prev_hash expected_height now_unix median_past_time = do
  throw_if (not (is_serialized (serialize_block_header header))) invalid_header_encoding
  throw_if (not (header.version == genesis_block_version)) invalid_version
  throw_if (not (header.height == expected_height)) invalid_height
  throw_if (is_unlinked expected_prev_hash header.prev_hash) invalid_prev_hash
  throw_if (leb header.timestamp median_past_time) timestamp_too_old
  throw_if (ltb (now_unix + max_future_secs) header.timestamp) timestamp_too_new
  throw_if
      (not (is_positive_target (decode_difficulty_bits_exact header.difficulty_bits))
        || not (is_canonical_difficulty_bits header.difficulty_bits))
      invalid_difficulty_bits

abbrev pub max_money : ℕ
max_money = hard_cap_satoshis

-- `totalOut` with this value.
unfoldable pub add_amount : ℕ → ℤ → Result ValidationError ℕ
add_amount total_out (negsuc n) = err invalid_transaction
add_amount total_out (pos n) = do
  throw_if (ltb max_money n) invalid_transaction
  throw_if (ltb max_money (total_out + n)) output_sum_exceeds_input
  ok (total_out + n)

-- The `for` over the outputs of `validateTransaction`.
unfoldable pub check_amounts : ℕ → List TxOutput → Result ValidationError (Unit {0})
check_amounts total_out [] = ok tt
check_amounts total_out (o ∷ os) = do total ← add_amount total_out o.value; check_amounts total os

-- The `for` over the inputs, with `seenOutpoints`.
unfoldable pub check_outpoints : List Text → List TxInput → Result ValidationError (Unit {0})
check_outpoints seen [] = ok tt
check_outpoints seen (input ∷ inputs) = do
  throw_if (has (input_key input) seen) double_spend
  check_outpoints (input_key input ∷ seen) inputs

unfoldable pub validate_transaction : Transaction → Bool → Result ValidationError (Unit {0})
validate_transaction tx is_coinbase = do
  throw_if (not is_coinbase && length tx.inputs == 0) invalid_transaction
  throw_if (length tx.outputs == 0) invalid_transaction
  check_amounts 0 tx.outputs
  if is_coinbase then ok tt else check_outpoints [] tx.inputs

-- `errors: [ValidationError.INVALID_TRANSACTION]`, whatever the transaction's error is.
abbrev pub refused : Result ValidationError (Unit {0}) → Result ValidationError (Unit {0})
refused (ok _) = ok tt
refused (err e) = err invalid_transaction

unfoldable pub check_each : Bool → List Transaction → Result ValidationError (Unit {0})
check_each is_coinbase [] = ok tt
check_each is_coinbase (tx ∷ txs) = do
  refused (validate_transaction tx is_coinbase)
  check_each false txs

-- Step 2 of `validateBlockSync`.
unfoldable pub check_structure : List Transaction → Result ValidationError (Unit {0})
check_structure txs = do throw_if (length txs == 0) empty_transactions; check_each true txs

-- `reduce((s, o) => s + o.value, 0n)` starts at `pos 0`.
unfoldable pub reduce_values : ℤ → List TxOutput → ℤ
reduce_values sum [] = sum
reduce_values sum (o ∷ os) = reduce_values (sum +ℤ o.value) os

-- The last step of `validateBlockSync`, off the epoch boundary.
unfoldable pub check_mints_nothing : Transaction → Result ValidationError (Unit {0})
check_mints_nothing coinbase =
    throw_if (not (int_leb (reduce_values (pos 0) coinbase.outputs) (pos 0))) invalid_coinbase

abbrev pub is_positive : ℤ → Bool
is_positive (pos n) = ltb 0 n
is_positive (negsuc n) = false

abbrev pub is_present : Option UtxoEntry → Bool
is_present none = false
is_present (some entry) = true

-- The `for` over the outputs of the coinbase.
unfoldable pub check_overwrites :
    Text → ℕ → List TxOutput → UtxoSet → Result BlockFailure (Unit {0})
check_overwrites id vout [] view = ok tt
check_overwrites id vout (o ∷ os) view = do
  throw_if (is_positive o.value && is_present (get id vout view)) (invalid invalid_coinbase)
  check_overwrites id (vout + 1) os view

abbrev pub or_thrown : {A : Type 0} → Result TransactionError A → Result BlockFailure A
or_thrown (ok a) = ok a
or_thrown (err e) = err (thrown e)

abbrev pub or_refused : Result Rejection ℕ → Result BlockFailure ℕ
or_refused (ok fee) = ok fee
or_refused (err e) = err (invalid invalid_transaction)

module _ (lib : PqLibrary) (sha256 : Bytes → Bytes) where
  -- The `for` over the spends, with `view`.
  unfoldable pub check_spends : List Transaction → ℕ → UtxoSet → Result BlockFailure UtxoSet
  check_spends [] height view = ok view
  check_spends (tx ∷ txs) height view = do
    checked ← or_thrown (validate_spend lib tx view height true)
    paid ← or_refused checked
    let applied = apply_transaction sha256 tx height false view
    done ← or_thrown applied.1
    check_spends txs height applied.0

  -- Step 2b of `validateBlockSync`, and the `view` that it ends with.
  unfoldable pub check_block_spends :
      Transaction → List Transaction → ℕ → UtxoSet → Result BlockFailure UtxoSet
  check_block_spends coinbase txs height utxos = do
    coinbase_id ← or_thrown (txid sha256 coinbase)
    check_overwrites coinbase_id 0 coinbase.outputs utxos
    check_spends txs height utxos

  unfoldable pub txids : List Transaction → Result TransactionError (List Text)
  txids [] = ok []
  txids (tx ∷ txs) = do id ← txid sha256 tx; rest ← txids txs; ok (id ∷ rest)

  unfoldable pub compute_transaction_merkle_root : List Transaction → Result TransactionError Text
  compute_transaction_merkle_root txs = do
    ids ← txids txs
    let tree : MerkleTree = build_merkle_tree sha256 ids
    ok tree.root

  -- Step 3.
  unfoldable pub check_merkle_root : BlockHeader → List Transaction → Result BlockFailure (Unit {0})
  check_merkle_root header txs = do
    root ← or_thrown (compute_transaction_merkle_root txs)
    throw_if (not (text_eq header.merkle_root root)) (invalid merkle_root_mismatch)

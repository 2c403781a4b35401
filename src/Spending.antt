-- ===== src/Spending.antt =====
-- packages/jgc-node/src/consensus/utxo.ts: the set of unspent outputs, and the check of a spend against
-- it. SHA-256, SHA3-256 and ML-DSA-65 are parameters.
pub mod Bonds
pub mod Signatures
pub mod Conservation
pub mod Rules
pub mod Spent
mod Examples
use junctiongenerator.Base.{
  ℕ, zero, suc, ◌+◌, ◌-◌, ◌/◌, ◌%◌, Bool, true, false, ◌&&◌, Option, none, some, List, [], ◌∷◌,
  ◌++◌, map, ltb, if◌then◌else◌, Result, ok, err, ◌>>=◌, ◌>>◌, throw_if,
}
use junctiongenerator.Base.Int.{ℤ, pos, negsuc}
use junctiongenerator.Base.Texts.{Bytes, Text}
use junctiongenerator.Base.Hex.{to_hex}
use junctiongenerator.Base.Maps.{TextMap, lookup, insert, erase}
use junctiongenerator.Types.{OutPoint, TxInput, TxOutput, Transaction}
use junctiongenerator.Transactions.{TransactionError, serialize_transaction}
use junctiongenerator.Proposer.{has}
use junctiongenerator.Spending.Bonds.{BondScript, parse_validator_bond_script}
use junctiongenerator.Spending.Signatures.{PqLibrary, SpendError, pq_verify_spend}

abbrev pub coinbase_maturity : ℕ
coinbase_maturity = 100

-- The value of an unspent output is positive.
pub record UtxoEntry : Type 0 where
  pub value : ℕ
  pub script_pub_key : Text
  pub height : ℕ
  pub is_coinbase : Bool

abbrev pub UtxoSet : Type 0
UtxoSet = TextMap UtxoEntry

unfoldable pub decimal_loop : ℕ → ℕ → Text → Text
decimal_loop zero n digits = digits
decimal_loop (suc fuel) n digits = elim (ltb n 10) [
  | true ↦ (b'0' + n) ∷ digits
  | false ↦ decimal_loop fuel (n / 10) ((b'0' + n % 10) ∷ digits)
]

-- `${n}`: a number has at most as many digits as its value, or one.
unfoldable pub decimal : ℕ → Text
unfolding decimal_loop
decimal n = decimal_loop (suc n) n []

unfoldable pub key : Text → ℕ → Text
key id vout = id ++ (b':' ∷ decimal vout)

abbrev pub input_key : TxInput → Text
input_key input = key input.prev_out.txid input.prev_out.vout

unfoldable pub get : Text → ℕ → UtxoSet → Option UtxoEntry
get id vout m = lookup (key id vout) m

unfoldable pub add : Text → ℕ → UtxoEntry → UtxoSet → UtxoSet
add id vout entry m = insert (key id vout) entry m

-- `delete` of a key that is missing changes nothing.
unfoldable pub spend : Text → ℕ → UtxoSet → UtxoSet × Option UtxoEntry
spend id vout m = (erase (key id vout) m, get id vout m)

abbrev pub created : ℕ → Text → ℕ → Bool → UtxoEntry
created value script height is_coinbase = record {
  value = value;
  script_pub_key = script;
  height = height;
  is_coinbase = is_coinbase;
}

-- An output of this value and script.
unfoldable pub add_output : Text → ℕ → ℕ → Bool → Text → ℤ → UtxoSet → UtxoSet
add_output id vout height is_coinbase script (negsuc n) m = m
add_output id vout height is_coinbase script (pos n) m =
    if ltb 0 n then add id vout (created n script height is_coinbase) m else m

-- The `forEach` over the outputs.
unfoldable pub add_outputs : Text → ℕ → ℕ → Bool → List TxOutput → UtxoSet → UtxoSet
add_outputs id vout height is_coinbase [] m = m
add_outputs id vout height is_coinbase (o ∷ os) m =
    add_outputs id (vout + 1) height is_coinbase os
      (add_output id vout height is_coinbase o.script_pub_key o.value m)

-- The `for` over the inputs of `applyTransaction`.
unfoldable pub spend_inputs : List TxInput → UtxoSet → UtxoSet
spend_inputs [] m = m
spend_inputs (input ∷ inputs) m =
    spend_inputs inputs (spend input.prev_out.txid input.prev_out.vout m).0

abbrev pub blank : TxInput → TxInput
blank input = record input { script_sig = [] }

-- "JGC-quantum-v1"
abbrev pub jgc_pq_network_id : Text
jgc_pq_network_id =
    b'J' ∷ b'G' ∷ b'C' ∷ b'-' ∷ b'q' ∷ b'u' ∷ b'a' ∷ b'n' ∷ b't' ∷ b'u' ∷ b'm' ∷ b'-' ∷ b'v' ∷ b'1'
    ∷ []

pub data Rejection : Type 0 where
  duplicate_input unknown_input immature_coinbase negative_output overspend : Rejection
  unauthorized : SpendError → Rejection

abbrev pub authorized : Result SpendError (Unit {0}) → Result Rejection (Unit {0})
authorized (ok _) = ok tt
authorized (err e) = err (unauthorized e)

-- `parseValidatorBondScript(script)?.ownerScriptPubKey ?? script`
abbrev pub owner_script : Text → Option BondScript → Text
owner_script script none = script
owner_script script (some bond) = bond.owner_script_pub_key

unfoldable pub spend_script : Text → Text
spend_script script = owner_script script (parse_validator_bond_script script)

abbrev pub is_immature : ℕ → UtxoEntry → Bool
is_immature current_height entry =
    entry.is_coinbase && ltb current_height (entry.height + coinbase_maturity)

abbrev pub amount : ℤ → Result Rejection ℕ
amount (negsuc n) = err negative_output
amount (pos n) = ok n

-- The `for` over the outputs of `validateSpend`, with `outSum`.
unfoldable pub sum_outputs : ℕ → List TxOutput → Result Rejection ℕ
sum_outputs out_sum [] = ok out_sum
sum_outputs out_sum (o ∷ os) = do value ← amount o.value; sum_outputs (out_sum + value) os

-- The last test of `validateSpend`.
abbrev pub fee : ℕ → ℕ → Result Rejection ℕ
fee in_sum out_sum = do throw_if (ltb in_sum out_sum) overspend; ok (in_sum - out_sum)

module _ (lib : PqLibrary) where
  -- SHA3-256 of the network's id and the transaction without its signatures.
  unfoldable pub tx_sig_hash : Transaction → Result TransactionError Bytes
  tx_sig_hash tx = do
    bytes ← serialize_transaction (record tx { inputs = map blank tx.inputs })
    ok (lib.sha3_256 (jgc_pq_network_id ++ bytes))

  -- Once the entry of an input is found.
  unfoldable pub check_entry : ℕ → Bool → Bytes → Text → UtxoEntry → Result Rejection (Unit {0})
  check_entry current_height require_signatures sig_hash script_sig entry = do
    throw_if (is_immature current_height entry) immature_coinbase
    if require_signatures
        then authorized
            (pq_verify_spend lib script_sig (spend_script entry.script_pub_key) sig_hash)
        else ok tt

  module _ (utxo : UtxoSet) (current_height : ℕ) (require_signatures : Bool)
      (sig_hash : Bytes) where
    abbrev pub found_entry : TxInput → Option UtxoEntry → Result Rejection ℕ
    found_entry input none = err unknown_input
    found_entry input (some entry) = do
      check_entry current_height require_signatures sig_hash input.script_sig entry
      ok entry.value

    -- The `for` over the inputs of `validateSpend`, with `seen` and `inSum`.
    unfoldable pub sum_inputs : List Text → ℕ → List TxInput → Result Rejection ℕ
    sum_inputs seen in_sum [] = ok in_sum
    sum_inputs seen in_sum (input ∷ inputs) = do
      throw_if (has (input_key input) seen) duplicate_input
      value ← found_entry input (get input.prev_out.txid input.prev_out.vout utxo)
      sum_inputs (input_key input ∷ seen) (in_sum + value) inputs

  -- `SpendResult` is the fee, or why the spend is refused.
  unfoldable pub validate_spend :
      Transaction → UtxoSet → ℕ → Bool → Result TransactionError (Result Rejection ℕ)
  validate_spend tx utxo current_height require_signatures = do
    sig_hash ← tx_sig_hash tx
    ok (do
      in_sum ← sum_inputs utxo current_height require_signatures sig_hash [] 0 tx.inputs
      out_sum ← sum_outputs 0 tx.outputs
      fee in_sum out_sum)

-- Once the transaction's id is computed, or its serialization has thrown.
abbrev pub add_under :
    Transaction
    → ℕ
    → Bool
    → UtxoSet
    → Result TransactionError Text
    → UtxoSet × Result TransactionError (Unit {0})
add_under tx height is_coinbase m (err e) = (m, err e)
add_under tx height is_coinbase m (ok id) =
    (add_outputs id 0 height is_coinbase tx.outputs m, ok tt)

module _ (sha256 : Bytes → Bytes) where
  unfoldable pub txid : Transaction → Result TransactionError Text
  txid tx = do bytes ← serialize_transaction tx; ok (to_hex (sha256 (sha256 bytes)))

  -- The set that is left, and whether `txid` threw.
  unfoldable pub add_transaction_outputs :
      Transaction → ℕ → Bool → UtxoSet → UtxoSet × Result TransactionError (Unit {0})
  add_transaction_outputs tx height is_coinbase m = add_under tx height is_coinbase m (txid tx)

  unfoldable pub apply_transaction :
      Transaction → ℕ → Bool → UtxoSet → UtxoSet × Result TransactionError (Unit {0})
  apply_transaction tx height is_coinbase m =
      add_transaction_outputs tx height is_coinbase
        (if is_coinbase then m else spend_inputs tx.inputs m)

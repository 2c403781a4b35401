-- ===== src/Blocks/Total.antt =====
-- The check of a block's spends, after the checks of the structure of its transactions.
use junctiongenerator.Base.{
  ℕ, ◌+◌, ◌≡◌, ◌≢◌, refl, ap, ◌∙◌, arith, Bool, true, false, not, ◌&&◌, List, [], ◌∷◌, ◌==◌, map,
  length, Result, ok, err, ◌>>=◌, ◌>>◌, throw_if, bind-ok, throw_if-ok, ok-bind,
}
use junctiongenerator.Base.Texts.{Bytes, Text}
use junctiongenerator.Types.{TxInput, TxOutput, Transaction}
use junctiongenerator.Transactions.{TransactionError, u128le, write_outputs, serialize_transaction}
use junctiongenerator.Spending.{
  UtxoSet, get, Rejection, txid, tx_sig_hash, validate_spend, apply_transaction, blank,
}
use junctiongenerator.Spending.Signatures.{PqLibrary}
use junctiongenerator.Spending.Conservation.{apply_transaction_ok}
use junctiongenerator.Blocks.{
  ValidationError, BlockFailure, thrown, invalid, invalid_coinbase, is_positive, is_present,
  validate_transaction, add_amount, check_amounts, check_each, check_structure, refused, or_refused,
  check_spends, check_block_spends, check_overwrites,
}
use junctiongenerator.Transactions.RoundTrip.{u128le_ok}
use junctiongenerator.Blocks.Conserves.{add_amount-ok}

-- Amounts that are checked are written.
written :
    (total : ℕ) (os : List TxOutput)
    → check_amounts total os ≡ ok tt
    → (bytes : Bytes) × (write_outputs os ≡ ok bytes)
unfolding check_amounts write_outputs
written total [] h = ([], refl)
written total (o ∷ os) h =
    let (total', added, rest) = bind-ok (add_amount total o.value) _ tt h in
    let (n, value, more, fits) = add_amount-ok total o.value total' added in
    let (bytes, wrote) = written total' os rest in
    let first = ap u128le value ∙ u128le_ok n (omega (arith, fits)) in
    (_, ok-bind _ first ∙ ok-bind _ wrote)

-- The fields that a signature or a script are no part of make no difference.
serialized :
    (tx : Transaction) (inputs : List TxInput)
    → check_amounts 0 tx.outputs ≡ ok tt
    → (bytes : Bytes) × (serialize_transaction (record tx { inputs = inputs }) ≡ ok bytes)
unfolding serialize_transaction
serialized tx inputs h = let (bytes, wrote) = written 0 tx.outputs h in (_, ok-bind _ wrote)

txid_ok :
    (sha256 : Bytes → Bytes) (tx : Transaction)
    → check_amounts 0 tx.outputs ≡ ok tt
    → (id : Text) × (txid sha256 tx ≡ ok id)
unfolding txid
txid_ok sha256 tx h = let (bytes, coded) = serialized tx tx.inputs h in (_, ok-bind _ coded)

validate_spend_ok :
    (lib : PqLibrary) (tx : Transaction) (view : UtxoSet) (height : ℕ)
    → check_amounts 0 tx.outputs ≡ ok tt
    → (r : Result Rejection ℕ) × (validate_spend lib tx view height true ≡ ok r)
unfolding validate_spend tx_sig_hash
validate_spend_ok lib tx view height h =
    let (bytes, coded) = serialized tx (map blank tx.inputs) h in (_, ok-bind _ (ok-bind _ coded))

validate_transaction-amounts :
    (tx : Transaction) (is_coinbase : Bool)
    → refused (validate_transaction tx is_coinbase) ≡ ok tt
    → check_amounts 0 tx.outputs ≡ ok tt
unfolding validate_transaction
validate_transaction-amounts tx is_coinbase h =
    let accepted = kept (validate_transaction tx is_coinbase) h in
    let (has_inputs, h₁) = throw_if-ok (not is_coinbase && length tx.inputs == 0) _ _ tt accepted in
    let (has_outputs, h₂) = throw_if-ok (length tx.outputs == 0) _ _ tt h₁ in
    let (u, amounts, rest) = bind-ok (check_amounts 0 tx.outputs) _ tt h₂ in amounts
  where
    kept : (r : Result ValidationError (Unit {0})) → refused r ≡ ok tt → r ≡ ok tt
    kept (ok a) h = refl
    kept (err e) h = cc

-- The fee of a spend is not thrown.
after_fee :
    (checked : Result Rejection ℕ) (next : Result BlockFailure UtxoSet) (e : TransactionError)
    → next ≢ err (thrown e)
    → (or_refused checked >>= λ fee. next) ≢ err (thrown e)
after_fee (ok fee) next e quiet h = quiet h
after_fee (err reason) next e quiet h = cc

check_spends-quiet :
    (lib : PqLibrary) (sha256 : Bytes → Bytes) (txs : List Transaction) (height : ℕ)
    (view : UtxoSet) (e : TransactionError)
    → check_each false txs ≡ ok tt
    → check_spends lib sha256 txs height view ≢ err (thrown e)
unfolding check_each check_spends
check_spends-quiet lib sha256 [] height view e h thrown_e = cc
check_spends-quiet lib sha256 (tx ∷ txs) height view e h thrown_e =
    let (u, first, rest) = bind-ok (refused (validate_transaction tx false)) _ tt h in
    let amounts = validate_transaction-amounts tx false first in
    let (r, checked) = validate_spend_ok lib tx view height amounts in
    let (id, hashed) = txid_ok sha256 tx amounts in
    let applied : (apply_transaction sha256 tx height false view).1 ≡ ok tt =
      ap (λ (a : UtxoSet × Result TransactionError (Unit {0})). a.1)
        (apply_transaction_ok sha256 tx height false view id hashed) in
    let next = (apply_transaction sha256 tx height false view).0 in
    after_fee r (check_spends lib sha256 txs height next) e
      (check_spends-quiet lib sha256 txs height next e rest) (rw (checked, applied) at thrown_e)

after_overwrites :
    (id : Text) (vout : ℕ) (os : List TxOutput) (utxos : UtxoSet)
    (next : Result BlockFailure UtxoSet) (e : TransactionError)
    → next ≢ err (thrown e)
    → (check_overwrites id vout os utxos >> next) ≢ err (thrown e)
unfolding check_overwrites
after_overwrites id vout [] utxos next e quiet h = quiet h
after_overwrites id vout (o ∷ os) utxos next e quiet h =
    tested (is_positive o.value && is_present (get id vout utxos)) _
      (after_overwrites id (vout + 1) os utxos next e quiet) h
  where
    tested :
        (overwrites : Bool) (rest : Result BlockFailure (Unit {0}))
        → (rest >> next) ≢ err (thrown e)
        → ((throw_if overwrites (invalid invalid_coinbase) >> rest) >> next) ≢ err (thrown e)
    tested true rest quiet h = cc
    tested false rest quiet h = quiet h

-- Where step 2 accepts the transactions of a block, step 2b does not throw, whatever the unspent outputs
-- are: it accepts the spends or refuses them with a validation error.
pub check_block_spends-quiet :
    (lib : PqLibrary) (sha256 : Bytes → Bytes) (coinbase : Transaction) (txs : List Transaction)
    (height : ℕ) (utxos : UtxoSet) (e : TransactionError)
    → check_structure (coinbase ∷ txs) ≡ ok tt
    → check_block_spends lib sha256 coinbase txs height utxos ≢ err (thrown e)
unfolding check_structure check_each check_block_spends
check_block_spends-quiet lib sha256 coinbase txs height utxos e h thrown_e =
    let (present, h₁) = throw_if-ok (length (coinbase ∷ txs) == 0) _ _ tt h in
    let (u, first, rest) = bind-ok (refused (validate_transaction coinbase true)) _ tt h₁ in
    let (id, hashed) = txid_ok sha256 coinbase (validate_transaction-amounts coinbase true first) in
    after_overwrites id 0 coinbase.outputs utxos (check_spends lib sha256 txs height utxos) e
      (check_spends-quiet lib sha256 txs height utxos e rest) (rw hashed at thrown_e)

-- ===== src/Blocks/Spent.antt =====
-- The spends of a block: what `validateBlockSync` checks, `applyBlockState` does and `calculateBlockFees` counts.
use junctiongenerator.Base.{
  ℕ, ◌+◌, ◌-◌, ◌≤◌, ◌≡◌, sym, ap, ◌∙◌, arith, true, false, none, some, List, [], ◌∷◌, ltb, Result,
  ok, err, bind-ok, throw_if-ok, ok-injective, ok-bind,
}
use junctiongenerator.Base.Int.{ℤ, pos, negsuc, ◌+ℤ◌, ◌-ℤ◌}
use junctiongenerator.Base.Texts.{Bytes, Text}
use junctiongenerator.Types.{TxInput, TxOutput, Transaction}
use junctiongenerator.Transactions.{TransactionError}
use junctiongenerator.Proposer.{has}
use junctiongenerator.Spending.{
  UtxoSet, Rejection, input_key, get, validate_spend, apply_transaction, sum_inputs, sum_outputs,
  tx_sig_hash, found_entry, amount,
}
use junctiongenerator.Spending.Signatures.{PqLibrary}
use junctiongenerator.Spending.Conservation.{
  total_value, found_entry-ok, apply_transaction_conserves,
}
use junctiongenerator.Blocks.{reduce_values, or_thrown, or_refused, check_spends}
use junctiongenerator.Blocks.Connect.{
  input_values, add_fee, calculate_transaction_fees, apply_transactions,
}

-- A value that the check of a spend counts is added as it is.
pub add_value-ok : (sum n : ℕ) (value : ℤ) → amount value ≡ ok n → pos sum +ℤ value ≡ pos (sum + n)
unfolding ◌+ℤ◌
add_value-ok sum n (pos v) h = ground (arith, ok-injective h)
add_value-ok sum n (negsuc v) h = cc

-- `sum_outputs` and the sum of bigints agree where there is no negative one.
sum_outputs-reduce_values :
    (sum total : ℕ) (os : List TxOutput)
    → sum_outputs sum os ≡ ok total
    → reduce_values (pos sum) os ≡ pos total
unfolding sum_outputs reduce_values
sum_outputs-reduce_values sum total [] h = ap pos (sym (ok-injective h))
sum_outputs-reduce_values sum total (o ∷ os) h =
    let (n, value, rest) = bind-ok (amount o.value) _ total h in
    ap (λ z. reduce_values z os) (add_value-ok sum n o.value value)
    ∙ sum_outputs-reduce_values (sum + n) total os rest

sum_inputs-input_values :
    (lib : PqLibrary) (utxo : UtxoSet) (height : ℕ) (sig_hash : Bytes) (seen : List Text)
    (sum total : ℕ) (inputs : List TxInput)
    → sum_inputs lib utxo height true sig_hash seen sum inputs ≡ ok total
    → input_values utxo sum inputs ≡ some total
unfolding sum_inputs input_values
sum_inputs-input_values lib utxo height sig_hash seen sum total [] h =
    ap some (sym (ok-injective h))
sum_inputs-input_values lib utxo height sig_hash seen sum total (input ∷ inputs) h =
    let (unseen, h₁) = throw_if-ok (has (input_key input) seen) _ _ total h in
    let entry = get input.prev_out.txid input.prev_out.vout utxo in
    let (v, found, h₂) =
      bind-ok (found_entry lib utxo height true sig_hash input entry) _ total h₁ in
    let (e, there, value, checked) =
      found_entry-ok lib utxo height true sig_hash input entry v found in
    let rest =
      sum_inputs-input_values lib utxo height sig_hash (input_key input ∷ seen) (sum + v) total
        inputs h₂ in
    ap (λ o. elim o [ none ↦ none | some e ↦ input_values utxo (sum + e.value) inputs ]) there
    ∙ ap (λ n. input_values utxo (sum + n) inputs) (sym value)
    ∙ rest

-- The fee that the check of a spend returns is the one that is counted.
validate_spend-add_fee :
    (lib : PqLibrary) (tx : Transaction) (utxo : UtxoSet) (height paid fees : ℕ)
    → validate_spend lib tx utxo height true ≡ ok (ok paid)
    → add_fee (pos fees) (input_values utxo 0 tx.inputs) tx.outputs ≡ pos (fees + paid)
unfolding validate_spend ◌+ℤ◌ ◌-ℤ◌
validate_spend-add_fee lib tx utxo height paid fees h =
    let (sig_hash, hashed, h₁) = bind-ok (tx_sig_hash lib tx) _ (ok paid) h in
    let (in_sum, ins, h₂) =
      bind-ok (sum_inputs lib utxo height true sig_hash [] 0 tx.inputs) _ paid
        (sym (ok-injective h₁)) in
    let (out_sum, outs, h₃) = bind-ok (sum_outputs 0 tx.outputs) _ paid h₂ in
    let (covered, h₄) = throw_if-ok (ltb in_sum out_sum) _ _ paid h₃ in
    let rest : paid ≡ in_sum - out_sum = ok-injective h₄ in
    let counted = sum_inputs-input_values lib utxo height sig_hash [] 0 in_sum tx.inputs ins in
    let paid_out = sum_outputs-reduce_values 0 out_sum tx.outputs outs in
    rw (counted, paid_out) (ground (arith, covered, rest))

pub or_thrown-ok :
    {A : Type 0} (r : Result TransactionError A) (a : A) → or_thrown r ≡ ok a → r ≡ ok a
or_thrown-ok (ok b) a h = ap ok (sym (ok-injective h))
or_thrown-ok (err e) a h = cc

or_refused-ok : (r : Result Rejection ℕ) (n : ℕ) → or_refused r ≡ ok n → r ≡ ok n
or_refused-ok (ok m) n h = ap ok (sym (ok-injective h))
or_refused-ok (err e) n h = cc

-- What the spends of an accepted block come to.
pub record IsSpent (sha256 : Bytes → Bytes) (txs : List Transaction) (height : ℕ)
    (utxos view : UtxoSet) (fees : ℕ) : Type 0 where
  pub applied : apply_transactions sha256 false txs height utxos ≡ (view, ok tt)
  pub conserved : total_value view + fees ≤ total_value utxos
  pub counted :
      (before : ℕ)
      → calculate_transaction_fees sha256 txs height (pos before) utxos ≡ ok (pos (before + fees))

pub check_spends-IsSpent :
    (lib : PqLibrary) (sha256 : Bytes → Bytes) (txs : List Transaction) (height : ℕ)
    (utxos view : UtxoSet)
    → check_spends lib sha256 txs height utxos ≡ ok view
    → (fees : ℕ) × IsSpent sha256 txs height utxos view fees
unfolding check_spends apply_transactions calculate_transaction_fees
check_spends-IsSpent lib sha256 [] height utxos view h =
    let same : view ≡ utxos = ok-injective h in
    (
      0,
      record {
        applied = ap (λ m. (m, ok tt)) (sym same);
        conserved = omega (arith, ap total_value same);
        counted = λ before. ap (λ n. ok (pos n)) (omega arith);
      },
    )
check_spends-IsSpent lib sha256 (tx ∷ txs) height utxos view h =
    let (checked, valid, h₁) =
      bind-ok (or_thrown (validate_spend lib tx utxos height true)) _ view h in
    let (paid, accepted, h₂) = bind-ok (or_refused checked) _ view h₁ in
    let spend : validate_spend lib tx utxos height true ≡ ok (ok paid) =
      or_thrown-ok (validate_spend lib tx utxos height true) checked valid
      ∙ ap ok (or_refused-ok checked paid accepted) in
    let (quiet, kept) =
      apply_transaction_conserves lib sha256 tx utxos height true paid height spend in
    let next = (apply_transaction sha256 tx height false utxos).0 in
    let (u, done, h₃) =
      bind-ok (or_thrown (apply_transaction sha256 tx height false utxos).1) _ view h₂ in
    let (fees, r) = check_spends-IsSpent lib sha256 txs height next view h₃ in
    (
      paid + fees,
      record {
        applied =
            ap
              (λ r. elim r [
                | ok _ ↦ apply_transactions sha256 false txs height next
                | err e ↦ (next, err e)
              ])
              quiet
            ∙ r.applied;
        conserved = omega (arith, kept, r.conserved);
        counted = λ before.
            ok-bind
              (λ _.
                calculate_transaction_fees sha256 txs height
                  (add_fee (pos before) (input_values utxos 0 tx.inputs) tx.outputs) next)
              quiet
            ∙ ap (λ z. calculate_transaction_fees sha256 txs height z next)
                (validate_spend-add_fee lib tx utxos height paid before spend)
            ∙ r.counted (before + paid)
            ∙ ap (λ n. ok (pos n)) (omega arith);
      },
    )

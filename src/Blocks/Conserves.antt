-- ===== src/Blocks/Conserves.antt =====
-- The value of the unspent outputs over a block off the epoch boundary.
use junctiongenerator.Base.{
  ℕ, ◌+◌, ◌≤◌, ◌≡◌, refl, sym, ap, ◌∙◌, arith, Bool, true, false, not, List, [], ◌∷◌, ltb, ◌==◌,
  length, Result, ok, err, throw_if, bind-ok, throw_if-ok, ok-injective,
}
use junctiongenerator.Base.Int.{ℤ, pos, negsuc, ◌+ℤ◌, int_leb}
use junctiongenerator.Base.Texts.{Bytes, Text}
use junctiongenerator.Types.{TxOutput, Transaction}
use junctiongenerator.Transactions.{TransactionError}
use junctiongenerator.Spending.{UtxoSet, txid, add_outputs, add_output, amount}
use junctiongenerator.Spending.Signatures.{PqLibrary}
use junctiongenerator.Spending.Conservation.{total_value, apply_transaction_ok}
use junctiongenerator.Blocks.{
  ValidationError, invalid_coinbase, validate_transaction, add_amount, check_amounts, check_each,
  check_structure, reduce_values, check_mints_nothing, or_thrown, refused, max_money,
  check_block_spends, check_overwrites,
}
use junctiongenerator.Blocks.Connect.{calculate_block_fees, apply_transactions}
use junctiongenerator.Blocks.Spent.{add_value-ok, or_thrown-ok, check_spends-IsSpent}

pub add_amount-ok :
    (total : ℕ) (value : ℤ) (total' : ℕ)
    → add_amount total value ≡ ok total'
    → (n : ℕ) × (value ≡ pos n) × (total' ≡ total + n) × (total + n ≤ max_money)
unfolding add_amount
add_amount-ok total (negsuc n) total' h = cc
add_amount-ok total (pos n) total' h =
    let (small, h₁) = throw_if-ok (ltb max_money n) _ _ total' h in
    let (fits, h₂) = throw_if-ok (ltb max_money (total + n)) _ _ total' h₁ in
    (n, refl, ok-injective h₂, ground (arith, fits))

-- A coinbase of checked amounts that mints nothing adds no output.
adds_nothing :
    (os : List TxOutput) (total sum : ℕ) (id : Text) (vout height : ℕ) (m : UtxoSet)
    → check_amounts total os ≡ ok tt
    → int_leb (reduce_values (pos sum) os) (pos 0) ≡ true
    → (sum ≡ 0) × (add_outputs id vout height true os m ≡ m)
unfolding check_amounts reduce_values add_outputs add_output
adds_nothing [] total sum id vout height m h small = (ground (arith, small), refl)
adds_nothing (o ∷ os) total sum id vout height m h small =
    let (total', added, rest) = bind-ok (add_amount total o.value) _ tt h in
    let (n, value, more, fits) = add_amount-ok total o.value total' added in
    let summed : pos sum +ℤ o.value ≡ pos (sum + n) = add_pos sum n o.value value in
    let (none_left, same) =
      adds_nothing os total' (sum + n) id (vout + 1) height m rest
        (ap (λ z. int_leb (reduce_values z os) (pos 0)) (sym summed) ∙ small) in
    let zero_value : o.value ≡ pos 0 = value ∙ ap pos (omega (arith, none_left)) in
    (
      omega (arith, none_left),
      ap (add_outputs id (vout + 1) height true os)
            (add_zero id vout height o.script_pub_key o.value m zero_value)
          ∙ same,
    )
  where
    add_pos : (sum n : ℕ) (value : ℤ) → value ≡ pos n → pos sum +ℤ value ≡ pos (sum + n)
    add_pos sum n value e = add_value-ok sum n value (ap amount e)

    add_zero :
        (id : Text) (vout height : ℕ) (script : Text) (value : ℤ) (m : UtxoSet)
        → value ≡ pos 0
        → add_output id vout height true script value m ≡ m
    add_zero id vout height script value m e = ap (λ v. add_output id vout height true script v m) e

-- A block off the epoch boundary whose steps accept it: its fees are counted without a throw, its
-- transactions are applied without a throw and leave exactly the set that the check ended with, and that
-- set is worth at most what the set before was, less the fees.
pub block_conserves :
    (lib : PqLibrary) (sha256 : Bytes → Bytes) (coinbase : Transaction) (txs : List Transaction)
    (height : ℕ) (utxos view : UtxoSet)
    → check_structure (coinbase ∷ txs) ≡ ok tt
    → check_block_spends lib sha256 coinbase txs height utxos ≡ ok view
    → check_mints_nothing coinbase ≡ ok tt
    → (fees : ℕ) × (calculate_block_fees sha256 (coinbase ∷ txs) height utxos ≡ ok (pos fees))
      × (apply_transactions sha256 true (coinbase ∷ txs) height utxos ≡ (view, ok tt))
      × (total_value view + fees ≤ total_value utxos)
unfolding check_structure check_each validate_transaction check_block_spends check_mints_nothing
    calculate_block_fees apply_transactions
block_conserves lib sha256 coinbase txs height utxos view structure spends mints =
    let (present, h₁) = throw_if-ok (length (coinbase ∷ txs) == 0) _ _ tt structure in
    let (u, first, others) = bind-ok (refused (validate_transaction coinbase true)) _ tt h₁ in
    let accepted = refused-ok (validate_transaction coinbase true) first in
    let (has_outputs, h₃) = throw_if-ok (length coinbase.outputs == 0) _ _ tt accepted in
    let (v, amounts, rest) = bind-ok (check_amounts 0 coinbase.outputs) _ tt h₃ in
    let (id, hashed, h₄) = bind-ok (or_thrown (txid sha256 coinbase)) _ view spends in
    let (w, apart, spent) = bind-ok (check_overwrites id 0 coinbase.outputs utxos) _ view h₄ in
    let (fees, r) = check_spends-IsSpent lib sha256 txs height utxos view spent in
    let small : int_leb (reduce_values (pos 0) coinbase.outputs) (pos 0) ≡ true =
      mints_nothing (int_leb (reduce_values (pos 0) coinbase.outputs) (pos 0)) mints in
    let unchanged = (adds_nothing coinbase.outputs 0 0 id 0 height utxos amounts small).1 in
    let applied =
      apply_transaction_ok sha256 coinbase height true utxos id
        (or_thrown-ok (txid sha256 coinbase) id hashed) in
    (
      fees,
      r.counted 0 ∙ ap (λ n. ok (pos n)) (omega arith),
      ap
            (λ (a : UtxoSet × Result TransactionError (Unit {0})). elim a.1 [
              | ok _ ↦ apply_transactions sha256 false txs height a.0
              | err e ↦ (a.0, err e)
            ])
            (applied ∙ ap (λ m. (m, ok tt)) unchanged)
          ∙ r.applied,
      r.conserved,
    )
  where
    refused-ok : (r : Result ValidationError (Unit {0})) → refused r ≡ ok tt → r ≡ ok tt
    refused-ok (ok a) h = refl
    refused-ok (err e) h = cc

    mints_nothing : (small : Bool) → throw_if (not small) invalid_coinbase ≡ ok tt → small ≡ true
    mints_nothing true h = refl
    mints_nothing false h = cc

-- ===== src/Spending/Spent.antt =====
-- What a transaction leaves of the outputs that it spends.
use mathlib.Core.List.{Mem, forall_mem-cons, not-mem-nil}
use junctiongenerator.Base.{
  ℕ, ◌+◌, ◌≡◌, ◌≢◌, refl, ap, ◌∙◌, inl, inr, Bool, true, false, none, some, List, [], ◌∷◌, arith,
  ltb, Bool-cases, if◌then◌else◌, Result, ok, err,
}
use junctiongenerator.Base.Int.{ℤ, pos, negsuc}
use junctiongenerator.Base.Texts.{Bytes, Text, text_eq, text_eq_iff}
use junctiongenerator.Base.Maps.{
  lookup, erase, HasDistinctKeys, lookup-insert, lookup-erase_ne, lookup-erase_self,
  insert-HasDistinctKeys, erase-HasDistinctKeys,
}
use junctiongenerator.Types.{TxInput, TxOutput, Transaction}
use junctiongenerator.Transactions.{TransactionError}
use junctiongenerator.Spending.{
  UtxoSet, key, input_key, add, spend, created, add_output, add_outputs, spend_inputs, txid,
  apply_transaction, add_transaction_outputs, add_under,
}
use junctiongenerator.Spending.Conservation.{apply_transaction_ok}

spend_inputs-HasDistinctKeys :
    (inputs : List TxInput) (m : UtxoSet)
    → HasDistinctKeys m
    → HasDistinctKeys (spend_inputs inputs m)
unfolding spend_inputs spend
spend_inputs-HasDistinctKeys [] m h = h
spend_inputs-HasDistinctKeys (input ∷ inputs) m h =
    spend_inputs-HasDistinctKeys inputs (erase (input_key input) m)
      (erase-HasDistinctKeys (input_key input) m h)

add_output-HasDistinctKeys :
    (id : Text) (vout height : ℕ) (is_coinbase : Bool) (script : Text) (v : ℤ) (m : UtxoSet)
    → HasDistinctKeys m
    → HasDistinctKeys (add_output id vout height is_coinbase script v m)
unfolding add_output add
add_output-HasDistinctKeys id vout height is_coinbase script (negsuc n) m h = h
add_output-HasDistinctKeys id vout height is_coinbase script (pos n) m h =
    elim (Bool-cases (ltb 0 n)) [
      | inl p ↦
          rw p (insert-HasDistinctKeys (key id vout) (created n script height is_coinbase) m h)
      | inr p ↦ rw p h
    ]

add_outputs-HasDistinctKeys :
    (id : Text) (vout height : ℕ) (is_coinbase : Bool) (os : List TxOutput) (m : UtxoSet)
    → HasDistinctKeys m
    → HasDistinctKeys (add_outputs id vout height is_coinbase os m)
unfolding add_outputs
add_outputs-HasDistinctKeys id vout height is_coinbase [] m h = h
add_outputs-HasDistinctKeys id vout height is_coinbase (o ∷ os) m h =
    add_outputs-HasDistinctKeys id (vout + 1) height is_coinbase os
      (add_output id vout height is_coinbase o.script_pub_key o.value m)
      (add_output-HasDistinctKeys id vout height is_coinbase o.script_pub_key o.value m h)

add_under-HasDistinctKeys :
    (tx : Transaction) (height : ℕ) (is_coinbase : Bool) (m : UtxoSet)
    (r : Result TransactionError Text)
    → HasDistinctKeys m
    → HasDistinctKeys (add_under tx height is_coinbase m r).0
add_under-HasDistinctKeys tx height is_coinbase m (err e) h = h
add_under-HasDistinctKeys tx height is_coinbase m (ok id) h =
    add_outputs-HasDistinctKeys id 0 height is_coinbase tx.outputs m h

-- Applying a transaction, of either kind and whether or not its id can be computed, keeps the keys distinct.
pub apply_transaction-HasDistinctKeys :
    (sha256 : Bytes → Bytes) (tx : Transaction) (height : ℕ) (is_coinbase : Bool) (m : UtxoSet)
    → HasDistinctKeys m
    → HasDistinctKeys (apply_transaction sha256 tx height is_coinbase m).0
unfolding apply_transaction add_transaction_outputs
apply_transaction-HasDistinctKeys sha256 tx height is_coinbase m h =
    add_under-HasDistinctKeys tx height is_coinbase
      (if is_coinbase then m else spend_inputs tx.inputs m) (txid sha256 tx) (left is_coinbase)
  where
    left : (b : Bool) → HasDistinctKeys (if b then m else spend_inputs tx.inputs m)
    left true = h
    left false = spend_inputs-HasDistinctKeys tx.inputs m h

-- The key is that of an output of the transaction with this id.
abbrev pub IsOutputOf : Text → Text → Type 0
IsOutputOf id k = (vout : ℕ) × (k ≡ key id vout)

lookup-add_output :
    (id : Text) (vout height : ℕ) (is_coinbase : Bool) (script : Text) (v : ℤ) (m : UtxoSet)
    (k : Text)
    → k ≢ key id vout
    → lookup k (add_output id vout height is_coinbase script v m) ≡ lookup k m
unfolding add_output add
lookup-add_output id vout height is_coinbase script (negsuc n) m k h = refl
lookup-add_output id vout height is_coinbase script (pos n) m k h = elim (Bool-cases (ltb 0 n)) [
  | inl p ↦
      let other : text_eq (key id vout) k ≡ false = ground (arith, text_eq_iff (key id vout) k) in
      rw p (
        lookup-insert (key id vout) k (created n script height is_coinbase) m
        ∙ ap (λ b. if b then some (created n script height is_coinbase) else lookup k m) other)
  | inr p ↦ rw p refl
]

lookup-add_outputs :
    (id : Text) (vout height : ℕ) (is_coinbase : Bool) (os : List TxOutput) (m : UtxoSet) (k : Text)
    → ¬ IsOutputOf id k
    → lookup k (add_outputs id vout height is_coinbase os m) ≡ lookup k m
unfolding add_outputs
lookup-add_outputs id vout height is_coinbase [] m k h = refl
lookup-add_outputs id vout height is_coinbase (o ∷ os) m k h =
    lookup-add_outputs id (vout + 1) height is_coinbase os
      (add_output id vout height is_coinbase o.script_pub_key o.value m) k h
    ∙ lookup-add_output id vout height is_coinbase o.script_pub_key o.value m k (λ e. h (vout, e))

erase-none :
    (k j : Text) (m : UtxoSet) → HasDistinctKeys m → lookup k m ≡ none → lookup k (erase j m) ≡ none
erase-none k j m d h = elim (Bool-cases (text_eq k j)) [
  | inl same ↦
      let e : k ≡ j = (text_eq_iff k j).0 same in
      ap (λ t. lookup t (erase j m)) e ∙ lookup-erase_self j m d
  | inr other ↦
      let apart : k ≢ j = λ e. ground (arith, text_eq_iff k j) in lookup-erase_ne j k m apart ∙ h
]

spend_inputs-lookup :
    (k : Text) (inputs : List TxInput) (m : UtxoSet)
    → HasDistinctKeys m
    → lookup k m ≡ none
    → lookup k (spend_inputs inputs m) ≡ none
unfolding spend_inputs spend
spend_inputs-lookup k [] m d h = h
spend_inputs-lookup k (input ∷ inputs) m d h =
    spend_inputs-lookup k inputs (erase (input_key input) m)
      (erase-HasDistinctKeys (input_key input) m d) (erase-none k (input_key input) m d h)

abbrev IsGone : UtxoSet → TxInput → Type 0
IsGone m input = lookup (input_key input) m ≡ none

entries_set : (m : UtxoSet) (input : TxInput) → IsProp (IsGone m input)
entries_set m input = hlevel

spend_inputs-IsGone :
    (inputs : List TxInput) (m : UtxoSet)
    → HasDistinctKeys m
    → (input : TxInput) → Mem input inputs
    → IsGone (spend_inputs inputs m) input
unfolding spend_inputs spend
spend_inputs-IsGone [] m d = λ input h. absurd (not-mem-nil h)
spend_inputs-IsGone (i ∷ inputs) m d =
    let m' = erase (input_key i) m in
    let d' = erase-HasDistinctKeys (input_key i) m d in
    (forall_mem-cons (entries_set (spend_inputs inputs m'))).1 (
      spend_inputs-lookup (input_key i) inputs m' d' (lookup-erase_self (input_key i) m d),
      spend_inputs-IsGone inputs m' d',
    )

-- Once a transaction is applied, an output that it spent is in the set no more, unless a new output took its
-- key: so no later transaction can spend it again.
pub apply_transaction_spends :
    (sha256 : Bytes → Bytes) (tx : Transaction) (height : ℕ) (m : UtxoSet) (id : Text)
    (input : TxInput)
    → HasDistinctKeys m
    → txid sha256 tx ≡ ok id
    → Mem input tx.inputs
    → ¬ IsOutputOf id (input_key input)
    → lookup (input_key input) (apply_transaction sha256 tx height false m).0 ≡ none
apply_transaction_spends sha256 tx height m id input d h member fresh =
    let applied = apply_transaction_ok sha256 tx height false m id h in
    ap (λ p. lookup (input_key input) p.0) applied
    ∙ lookup-add_outputs id 0 height false tx.outputs (spend_inputs tx.inputs m) (input_key input)
        fresh
    ∙ spend_inputs-IsGone tx.inputs m d input member

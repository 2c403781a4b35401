-- ===== src/Spending/Conservation.antt =====
-- The value of the unspent outputs under an accepted spend.
use junctiongenerator.Base.{
  ℕ, ◌+◌, ◌-◌, ◌≤◌, ◌≡◌, refl, sym, ap, ◌∙◌, ◌≢◌, inl, inr, Bool, false, Option, none, some, List,
  [], ◌∷◌, map, arith, ltb, Bool-cases, if◌then◌else◌, ok, throw_if-ok, bind-ok, ok-bind,
  ok-injective,
}
use junctiongenerator.Base.Int.{ℤ, pos, negsuc}
use junctiongenerator.Base.Texts.{Bytes, Text, text_eq, text_eq_iff}
use junctiongenerator.Base.Hex.{to_hex}
use junctiongenerator.Base.Maps.{lookup, insert, erase, lookup-erase_ne}
use junctiongenerator.Types.{TxInput, TxOutput, Transaction}
use junctiongenerator.Transactions.{serialize_transaction, write_outputs}
use junctiongenerator.Proposer.{has}
use junctiongenerator.Spending.Signatures.{PqLibrary}
use junctiongenerator.Spending.{
  UtxoEntry, UtxoSet, key, input_key, get, add, spend, created, amount, add_output, add_outputs,
  spend_inputs, blank, tx_sig_hash, check_entry, found_entry, sum_inputs, sum_outputs,
  validate_spend, txid, add_under, add_transaction_outputs, apply_transaction,
}

-- What the set holds.
abbrev pub total_value : UtxoSet → ℕ
total_value [] = 0
total_value ((k, e) ∷ m) = e.value + total_value m

total_value-insert :
    (k : Text) (e : UtxoEntry) (m : UtxoSet) → total_value (insert k e m) ≤ total_value m + e.value
unfolding insert
total_value-insert k e [] = omega arith
total_value-insert k e ((j, f) ∷ m) = elim (Bool-cases (text_eq j k)) [
  | inl same ↦ rw same (omega arith)
  | inr other ↦ let rest = total_value-insert k e m in rw other (omega (arith, rest))
]

total_value-erase :
    (k : Text) (e : UtxoEntry) (m : UtxoSet)
    → lookup k m ≡ some e
    → total_value (erase k m) + e.value ≡ total_value m
unfolding lookup erase
total_value-erase k e [] h = cc
total_value-erase k e ((j, f) ∷ m) h = elim (Bool-cases (text_eq j k)) [
  | inl same ↦
      let found : Path (Option UtxoEntry) (some f) (some e) =
        ap (λ b. if b then some f else lookup k m) (sym same) ∙ h in
      let value : f.value ≡ e.value = ap entry_value found in rw same (omega (arith, value))
  | inr other ↦
      let found : lookup k m ≡ some e =
        ap (λ b. if b then some f else lookup k m) (sym other) ∙ h in
      let rest = total_value-erase k e m found in rw other (omega (arith, rest))
]
  where
    entry_value : Option UtxoEntry → ℕ
    entry_value none = 0
    entry_value (some e) = e.value

total_value-add_output :
    (id : Text) (vout height : ℕ) (is_coinbase : Bool) (script : Text) (v : ℤ) (n : ℕ) (m : UtxoSet)
    → amount v ≡ ok n
    → total_value (add_output id vout height is_coinbase script v m) ≤ total_value m + n
unfolding add_output add
total_value-add_output id vout height is_coinbase script (negsuc k) n m h = cc
total_value-add_output id vout height is_coinbase script (pos k) n m h =
    let value : n ≡ k = ok-injective h in
    elim (Bool-cases (ltb 0 k)) [
      | inl p ↦ rw p (
          omega (
            arith,
            total_value-insert (key id vout) (created k script height is_coinbase) m,
            value,
          ))
      | inr p ↦ rw p (omega arith)
    ]

total_value-add_outputs :
    (id : Text) (vout height : ℕ) (is_coinbase : Bool) (os : List TxOutput) (m : UtxoSet)
    (acc s : ℕ)
    → sum_outputs acc os ≡ ok s
    → total_value (add_outputs id vout height is_coinbase os m) + acc ≤ total_value m + s
unfolding sum_outputs add_outputs
total_value-add_outputs id vout height is_coinbase [] m acc s h = omega (arith, ok-injective h)
total_value-add_outputs id vout height is_coinbase (o ∷ os) m acc s h =
    let (n, value, h') = bind-ok (amount o.value) _ s h in
    let m' = add_output id vout height is_coinbase o.script_pub_key o.value m in
    let here =
      total_value-add_output id vout height is_coinbase o.script_pub_key o.value n m value in
    let rest = total_value-add_outputs id (vout + 1) height is_coinbase os m' (acc + n) s h' in
    omega (arith, here, rest)

module _ (lib : PqLibrary) (utxo : UtxoSet) (current_height : ℕ) (require_signatures : Bool)
    (sig_hash : Bytes) where
  -- Outside these keys the set is the one that the check reads.
  abbrev Agrees : List Text → UtxoSet → Type 0
  Agrees seen m = (k : Text) → has k seen ≡ false → lookup k m ≡ lookup k utxo

  Agrees-erase :
      (seen : List Text) (k : Text) (m : UtxoSet) → Agrees seen m → Agrees (k ∷ seen) (erase k m)
  Agrees-erase seen k m a j h =
      let apart : j ≢ k = λ e. ground (arith, text_eq_iff k j) in
      lookup-erase_ne k j m apart ∙ a j (ground arith)

  -- What an input that the loop accepts is.
  pub found_entry-ok :
      (input : TxInput) (o : Option UtxoEntry) (v : ℕ)
      → found_entry lib utxo current_height require_signatures sig_hash input o ≡ ok v
      → (e : UtxoEntry) × (o ≡ some e)
        × (v ≡ e.value)
        × (check_entry lib current_height require_signatures sig_hash input.script_sig e ≡ ok tt)
  found_entry-ok input none v h = cc
  found_entry-ok input (some e) v h =
      let (u, checked, result) = bind-ok _ _ v h in (e, refl, ok-injective result, checked)

  total_value-spend_inputs :
      (seen : List Text) (acc s : ℕ) (inputs : List TxInput) (m : UtxoSet)
      → sum_inputs lib utxo current_height require_signatures sig_hash seen acc inputs ≡ ok s
      → Agrees seen m
      → total_value (spend_inputs inputs m) + s ≡ total_value m + acc
  unfolding sum_inputs spend_inputs spend get
  total_value-spend_inputs seen acc s [] m h a = omega (arith, ok-injective h)
  total_value-spend_inputs seen acc s (input ∷ inputs) m h a =
      let k = input_key input in
      let (unseen, h₁) = throw_if-ok (has k seen) _ _ s h in
      let (v, found, h₂) =
        bind-ok
          (found_entry lib utxo current_height require_signatures sig_hash input (lookup k utxo)) _
          s h₁ in
      let (e, there, value, _) = found_entry-ok input (lookup k utxo) v found in
      let here = total_value-erase k e m (a k unseen ∙ there) in
      let rest =
        total_value-spend_inputs (k ∷ seen) (acc + v) s inputs (erase k m) h₂
          (Agrees-erase seen k m a) in
      omega (arith, here, rest, value)

serialize_outputs :
    (tx : Transaction) (l : List TxInput) (bytes : Bytes)
    → serialize_transaction (record tx { inputs = l }) ≡ ok bytes
    → (bytes' : Bytes) × (serialize_transaction tx ≡ ok bytes')
unfolding serialize_transaction
serialize_outputs tx l bytes h =
    let (outputs, written, _) = bind-ok (write_outputs tx.outputs) _ bytes h in
    (_, ok-bind _ written)

pub apply_transaction_ok :
    (sha256 : Bytes → Bytes) (tx : Transaction) (height : ℕ) (is_coinbase : Bool) (m : UtxoSet)
    (id : Text)
    → txid sha256 tx ≡ ok id
    → apply_transaction sha256 tx height is_coinbase m ≡ (
      add_outputs id 0 height is_coinbase tx.outputs
          (if is_coinbase then m else spend_inputs tx.inputs m),
      ok tt,
    )
unfolding apply_transaction add_transaction_outputs
apply_transaction_ok sha256 tx height is_coinbase m id h =
    ap (add_under tx height is_coinbase (if is_coinbase then m else spend_inputs tx.inputs m)) h

-- A transaction that `validateSpend` accepts with a fee is applied without a throw, and leaves at most what
-- the set held less the fee: no value is created.
pub apply_transaction_conserves :
    (lib : PqLibrary) (sha256 : Bytes → Bytes) (tx : Transaction) (utxo : UtxoSet)
    (current_height : ℕ) (require_signatures : Bool) (paid height : ℕ)
    → validate_spend lib tx utxo current_height require_signatures ≡ ok (ok paid)
    → ((apply_transaction sha256 tx height false utxo).1 ≡ ok tt)
      × (total_value (apply_transaction sha256 tx height false utxo).0 + paid ≤ total_value utxo)
unfolding validate_spend tx_sig_hash txid
apply_transaction_conserves lib sha256 tx utxo current_height require_signatures paid height h =
    let (sig_hash, hashed, h₁) = bind-ok (tx_sig_hash lib tx) _ (ok paid) h in
    let (in_sum, ins, h₂) =
      bind-ok (sum_inputs lib utxo current_height require_signatures sig_hash [] 0 tx.inputs) _ paid
        (sym (ok-injective h₁)) in
    let (out_sum, outs, h₃) = bind-ok (sum_outputs 0 tx.outputs) _ paid h₂ in
    let (covered, h₄) = throw_if-ok (ltb in_sum out_sum) _ _ paid h₃ in
    let rest : paid ≡ in_sum - out_sum = ok-injective h₄ in
    let (bytes, blanked, _) =
      bind-ok (serialize_transaction (record tx { inputs = map blank tx.inputs })) _ sig_hash
        hashed in
    let (bytes', whole) = serialize_outputs tx (map blank tx.inputs) bytes blanked in
    let spent =
      total_value-spend_inputs lib utxo current_height require_signatures sig_hash [] 0 in_sum
        tx.inputs utxo ins (λ k _. refl) in
    let id = to_hex (sha256 (sha256 bytes')) in
    let made =
      total_value-add_outputs id 0 height false tx.outputs (spend_inputs tx.inputs utxo) 0 out_sum
        outs in
    let applied = apply_transaction_ok sha256 tx height false utxo id (ok-bind _ whole) in
    rw applied (refl, ground (arith, spent, made))

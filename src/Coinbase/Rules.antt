-- ===== src/Coinbase/Rules.antt =====
-- Which settlement transactions are accepted.
use junctiongenerator.Base.{
  ℕ, ◌+◌, ◌<◌, ◌≡◌, refl, sym, ap, ap₂, ◌∙◌, ◌↔◌, Bool, true, false, not, List, [], ◌∷◌, arith, ltb,
  ◌==◌, ==_iff, length, ok, throw_if-ok, bind-ok, ok-bind, ok-injective,
}
use junctiongenerator.Base.Int.{pos_part, int_eq, int_eq_iff}
use junctiongenerator.Base.Texts.{Bytes, text_eq, text_eq_iff, text_eq_refl}
use junctiongenerator.Types.{EpochState, TxOutput, Transaction}
use junctiongenerator.Epoch.Accumulator.{IsValid}
use junctiongenerator.Epoch.Settlement.{EpochPayoutEntry, EpochSettlement, compute_epoch_settlement}
use junctiongenerator.Epoch.Settlement.Payouts.{paid}
use junctiongenerator.Epoch.Settlement.Totality.{IsEncodable, compute_epoch_settlement_pays}
use junctiongenerator.Coinbase.{
  pq_script_pub_key_from_address, settlement_outputs, create_epoch_settlement_transaction,
  compare_outputs, is_empty, check_coinbase, settled, validate_coinbase_tx,
}

-- The value of the outputs.
abbrev pub total_out : List TxOutput → ℕ
total_out [] = 0
total_out (o ∷ os) = pos_part o.value + total_out os

not-true : (b : Bool) → not b ≡ false → b ≡ true
not-true true h = refl
not-true false h = cc

compare_outputs-eq :
    (es os : List TxOutput) → length os ≡ length es → compare_outputs es os ≡ ok tt → os ≡ es
unfolding compare_outputs
compare_outputs-eq [] [] n h = refl
compare_outputs-eq [] (o ∷ os) n h = absurd (omega arith)
compare_outputs-eq (e ∷ es) [] n h = absurd (omega arith)
compare_outputs-eq (e ∷ es) (o ∷ os) n h =
    let (script, h₁) = throw_if-ok (not (text_eq o.script_pub_key e.script_pub_key)) _ _ tt h in
    let (amount, h₂) = throw_if-ok (not (int_eq o.value e.value)) _ _ tt h₁ in
    let same_script = (text_eq_iff o.script_pub_key e.script_pub_key).0 (not-true _ script) in
    let same_value = (int_eq_iff o.value e.value).0 (not-true _ amount) in
    let same : o ≡ e = λ i. record { value = same_value i; script_pub_key = same_script i } in
    ap₂ ◌∷◌ same (compare_outputs-eq es os (omega arith) h₂)

compare_outputs_refl : (es : List TxOutput) → compare_outputs es es ≡ ok tt
unfolding compare_outputs
compare_outputs_refl [] = refl
compare_outputs_refl (e ∷ es) =
    rw (text_eq_refl e.script_pub_key, (int_eq_iff e.value e.value).1 refl)
      (compare_outputs_refl es)

settlement_outputs_lem :
    (ps : List EpochPayoutEntry) (os : List TxOutput)
    → settlement_outputs ps ≡ ok os
    → (length os ≡ length ps) × (total_out os ≡ paid ps)
unfolding settlement_outputs
settlement_outputs_lem [] os h = let e = ok-injective h in rw e (refl, refl)
settlement_outputs_lem (p ∷ ps) os h =
    let (script, made, h₁) = bind-ok (pq_script_pub_key_from_address p.miner_address) _ os h in
    let (rest, more, h₂) = bind-ok (settlement_outputs ps) _ os h₁ in
    let (size, total) = settlement_outputs_lem ps rest more in
    let e = ok-injective h₂ in rw e (omega arith, omega arith)

empty-eq : {A : Type 0} (l : List A) → is_empty l ≡ true → l ≡ []
empty-eq [] h = refl
empty-eq (x ∷ l) h = cc

created_lem :
    (st : EpochSettlement) (height : ℕ) (expected : Transaction)
    → create_epoch_settlement_transaction st height ≡ ok expected
    → (expected.locktime ≡ height)
      × (length expected.outputs ≡ length st.payouts)
      × (total_out expected.outputs ≡ paid st.payouts)
unfolding create_epoch_settlement_transaction
created_lem st height expected h =
    let (fits, h₁) = throw_if-ok (ltb 0xffff_ffff height) _ _ expected h in
    let (os, made, h₂) = bind-ok (settlement_outputs st.payouts) _ expected h₁ in
    let (size, total) = settlement_outputs_lem st.payouts os made in
    let e = ok-injective h₂ in rw e (refl, size, total)

check_coinbase-ok :
    (tx expected : Transaction) (st : EpochSettlement)
    → length expected.outputs ≡ length st.payouts
    → check_coinbase tx st expected ≡ ok tt
    → (tx.inputs ≡ []) × (tx.locktime ≡ expected.locktime) × (tx.outputs ≡ expected.outputs)
unfolding check_coinbase
check_coinbase-ok tx expected st size h =
    let (inputs, h₁) = throw_if-ok (not (is_empty tx.inputs)) _ _ tt h in
    let (height, h₂) = throw_if-ok (not (tx.locktime == expected.locktime)) _ _ tt h₁ in
    let (count, h₃) = throw_if-ok (not (length tx.outputs == length st.payouts)) _ _ tt h₂ in
    let same_height = (==_iff tx.locktime expected.locktime).0 (not-true _ height) in
    let same_count = (==_iff (length tx.outputs) (length st.payouts)).0 (not-true _ count) in
    (
      empty-eq tx.inputs (not-true _ inputs),
      same_height,
      compare_outputs-eq expected.outputs tx.outputs (same_count ∙ sym size) h₃,
    )

check_coinbase_ok :
    (tx expected : Transaction) (st : EpochSettlement)
    → length expected.outputs ≡ length st.payouts
    → tx.inputs ≡ []
    → tx.locktime ≡ expected.locktime
    → tx.outputs ≡ expected.outputs
    → check_coinbase tx st expected ≡ ok tt
unfolding check_coinbase
check_coinbase_ok tx expected st size inputs height outputs =
    let same_height : (tx.locktime == expected.locktime) ≡ true = (==_iff _ _).1 height in
    let same_count : (length expected.outputs == length st.payouts) ≡ true = (==_iff _ _).1 size in
    rw (inputs, same_height, outputs, same_count) (compare_outputs_refl expected.outputs)

module _ (sha256 : Bytes → Bytes) (tx : Transaction) (s : EpochState)
    (epoch_index block_height : ℕ) where
  validated :
      (st : EpochSettlement) (expected : Transaction)
      → compute_epoch_settlement sha256 s epoch_index ≡ ok st
      → create_epoch_settlement_transaction st block_height ≡ ok expected
      → validate_coinbase_tx sha256 tx s epoch_index block_height
        ≡ ok (check_coinbase tx st expected)
  unfolding validate_coinbase_tx
  validated st expected h k = ok-bind _ (ap settled h) ∙ ok-bind _ k

  -- Once the settlement and its transaction are computed, a block's first transaction is accepted exactly if it
  -- has no inputs, commits to the height, and has exactly the outputs of the settlement, in their order.
  pub validate_coinbase_tx_iff :
      (st : EpochSettlement) (expected : Transaction)
      → compute_epoch_settlement sha256 s epoch_index ≡ ok st
      → create_epoch_settlement_transaction st block_height ≡ ok expected
      → (validate_coinbase_tx sha256 tx s epoch_index block_height ≡ ok (ok tt))
        ↔ ((tx.inputs ≡ []) × (tx.locktime ≡ block_height) × (tx.outputs ≡ expected.outputs))
  validate_coinbase_tx_iff st expected h k =
      let v = validated st expected h k in
      let (height, size, _) = created_lem st block_height expected k in
      (
        λ e.
            let c = ok-injective (sym v ∙ e) in
            let (inputs, same_height, outputs) = check_coinbase-ok tx expected st size (sym c) in
            (inputs, same_height ∙ height, outputs),
        λ c.
            let (inputs, same_height, outputs) = c in
            v
            ∙ ap ok
                (check_coinbase_ok tx expected st size inputs (same_height ∙ sym height) outputs),
      )

  -- A transaction that is accepted for a completed epoch with contributions, in a valid state whose values fit
  -- the encoding, pays out the reward pool exactly.
  pub validate_coinbase_tx_pays :
      IsValid s
      → s.epoch_block_index ≡ 144
      → 0 < s.total_epoch_tflops
      → IsEncodable s epoch_index
      → validate_coinbase_tx sha256 tx s epoch_index block_height ≡ ok (ok tt)
      → total_out tx.outputs ≡ s.pending_reward_pool
  unfolding validate_coinbase_tx
  validate_coinbase_tx_pays v complete some_work enc e =
      let (st, settlement, all, _, _) =
        compute_epoch_settlement_pays sha256 s epoch_index v complete some_work enc in
      let e₁ = sym (ok-bind _ (ap settled settlement)) ∙ e in
      let (expected, k, e₂) =
        bind-ok (create_epoch_settlement_transaction st block_height) _ (ok tt) e₁ in
      let (_, size, total) = created_lem st block_height expected k in
      let (_, _, outputs) = check_coinbase-ok tx expected st size (sym (ok-injective e₂)) in
      ap total_out outputs ∙ total ∙ all

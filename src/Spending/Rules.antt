-- ===== src/Spending/Rules.antt =====
-- Which spends are accepted, stated without the loops of the check.
use mathlib.Core.List.{Mem, mem-cons_self, mem-cons_of_mem, forall_mem-cons, not-mem-nil}
use junctiongenerator.Base.{
  ℕ, ◌+◌, ◌-◌, ◌≡◌, refl, sym, ap, ◌∙◌, ◌↔◌, Bool, true, false, some, List, [], ◌∷◌, arith, ltb,
  ◌⊎◌, inl, inr, if◌then◌else◌, Result, ok, err, ◌>>=◌, throw_if-ok, bind-ok, ok-injective,
}
use junctiongenerator.Base.Int.{ℤ, pos, negsuc}
use junctiongenerator.Base.Texts.{Bytes, Text, text_eq}
use junctiongenerator.Base.Maps.{lookup}
use junctiongenerator.Types.{TxInput, TxOutput, Transaction}
use junctiongenerator.Proposer.{has}
use junctiongenerator.Spending.Signatures.{PqLibrary, SpendError, pq_verify_spend}
use junctiongenerator.Spending.{
  UtxoEntry, UtxoSet, input_key, get, amount, is_immature, spend_script, authorized, tx_sig_hash,
  check_entry, found_entry, sum_inputs, sum_outputs, fee, validate_spend,
}
use junctiongenerator.Spending.Conservation.{found_entry-ok}

abbrev pub Differ : TxInput → TxInput → Type 0
Differ a b = text_eq (input_key a) (input_key b) ≡ false

-- No two inputs spend the same output.
abbrev pub AllDiffer : List TxInput → Type 0
AllDiffer [] = Unit
AllDiffer (input ∷ inputs) = ((b : TxInput) → Mem b inputs → Differ input b) × AllDiffer inputs

-- The sum of the outputs, each of which is not negative.
abbrev pub Amounts : List TxOutput → ℕ → Type 0
Amounts [] s = s ≡ 0
Amounts (o ∷ os) s = (n : ℕ) × (m : ℕ) × (o.value ≡ pos n) × (s ≡ n + m) × Amounts os m

unlock_ok :
    (b : Bool) (r : Result SpendError (Unit {0}))
    → r ≡ ok tt
    → (if b then authorized r else ok tt) ≡ ok tt
unlock_ok true r h = ap authorized h
unlock_ok false r h = refl

unlock-ok :
    (b : Bool) (r : Result SpendError (Unit {0}))
    → (if b then authorized r else ok tt) ≡ ok tt
    → (b ≡ false) ⊎ (r ≡ ok tt)
unlock-ok true (ok tt) h = inr refl
unlock-ok true (err e) h = cc
unlock-ok false r h = inl refl

not_seen-prop : (seen : List Text) (b : TxInput) → IsProp (has (input_key b) seen ≡ false)
not_seen-prop seen b = hlevel

unseen-Differ :
    (seen : List Text) (a b : TxInput) → has (input_key b) (input_key a ∷ seen) ≡ false → Differ a b
unseen-Differ seen a b h = ground arith

unseen-rest :
    (seen : List Text) (a b : TxInput)
    → has (input_key b) (input_key a ∷ seen) ≡ false
    → has (input_key b) seen ≡ false
unseen-rest seen a b h = ground arith

module _ (lib : PqLibrary) (utxo : UtxoSet) (current_height : ℕ) (require_signatures : Bool)
    (sig_hash : Bytes) where
  -- The output that the input names is unspent, mature, and unlocked by the input's signature.
  pub record Spendable (input : TxInput) : Type 0 where
    pub entry : UtxoEntry
    pub unspent : lookup (input_key input) utxo ≡ some entry
    pub mature : is_immature current_height entry ≡ false
    pub unlocked :
        (require_signatures ≡ false)
        ⊎ (pq_verify_spend lib input.script_sig (spend_script entry.script_pub_key) sig_hash
            ≡ ok tt)

  -- The inputs can be spent, and hold this much.
  abbrev pub Funds : List TxInput → ℕ → Type 0
  Funds [] s = s ≡ 0
  Funds (input ∷ inputs) s =
      (h : Spendable input) × (m : ℕ) × (s ≡ h.entry.value + m) × Funds inputs m

  abbrev IsFresh : List Text → List TxInput → Type 0
  IsFresh seen l = (b : TxInput) → Mem b l → has (input_key b) seen ≡ false

  check_entry_ok :
      (script_sig : Text) (e : UtxoEntry)
      → is_immature current_height e ≡ false
      → (require_signatures ≡ false)
        ⊎ (pq_verify_spend lib script_sig (spend_script e.script_pub_key) sig_hash ≡ ok tt)
      → check_entry lib current_height require_signatures sig_hash script_sig e ≡ ok tt
  unfolding check_entry
  check_entry_ok script_sig e mature (inl off) = rw (mature, off)
  check_entry_ok script_sig e mature (inr valid) =
      let unlocked = unlock_ok require_signatures _ valid in rw mature unlocked

  check_entry-ok :
      (script_sig : Text) (e : UtxoEntry)
      → check_entry lib current_height require_signatures sig_hash script_sig e ≡ ok tt
      → (is_immature current_height e ≡ false)
        × ((require_signatures ≡ false)
            ⊎ (pq_verify_spend lib script_sig (spend_script e.script_pub_key) sig_hash ≡ ok tt))
  unfolding check_entry
  check_entry-ok script_sig e h =
      let (mature, h₁) = throw_if-ok (is_immature current_height e) _ _ tt h in
      (mature, unlock-ok require_signatures _ h₁)

  IsFresh-cons :
      (seen : List Text) (input : TxInput) (l : List TxInput)
      → ((b : TxInput) → Mem b l → Differ input b)
      → IsFresh seen (input ∷ l)
      → IsFresh (input_key input ∷ seen) l
  IsFresh-cons seen input l d f b m =
      let differ = d b m in let fresh = f b (mem-cons_of_mem input m) in rw (differ, fresh)

  sum_inputs_ok :
      (seen : List Text) (acc s : ℕ) (inputs : List TxInput)
      → Funds inputs s
      → AllDiffer inputs
      → IsFresh seen inputs
      → sum_inputs lib utxo current_height require_signatures sig_hash seen acc inputs
        ≡ ok (acc + s)
  unfolding sum_inputs get
  sum_inputs_ok seen acc s [] h d f = ap ok (omega arith)
  sum_inputs_ok seen acc s (input ∷ inputs) (h, m, total, hs) (d, ds) f =
      let fresh = f input mem-cons_self in
      let checked = check_entry_ok input.script_sig h.entry h.mature h.unlocked in
      let rest =
        sum_inputs_ok (input_key input ∷ seen) (acc + h.entry.value) m inputs hs ds
          (IsFresh-cons seen input inputs d f) in
      let sum : acc + h.entry.value + m ≡ acc + s = omega (arith, total) in
      rw (fresh, h.unspent, checked) (rest ∙ ap ok sum)

  sum_inputs-ok :
      (seen : List Text) (acc s : ℕ) (inputs : List TxInput)
      → sum_inputs lib utxo current_height require_signatures sig_hash seen acc inputs ≡ ok s
      → (t : ℕ) × (s ≡ acc + t) × Funds inputs t × AllDiffer inputs × IsFresh seen inputs
  unfolding sum_inputs get
  sum_inputs-ok seen acc s [] h =
      (0, omega (arith, ok-injective h), refl, tt, λ b m. absurd (not-mem-nil m))
  sum_inputs-ok seen acc s (input ∷ inputs) h =
      let k = input_key input in
      let (unseen, h₁) = throw_if-ok (has k seen) _ _ s h in
      let (v, found, h₂) =
        bind-ok
          (found_entry lib utxo current_height require_signatures sig_hash input (lookup k utxo)) _
          s h₁ in
      let (e, there, value, checked) =
        found_entry-ok lib utxo current_height require_signatures sig_hash input (lookup k utxo) v
          found in
      let (mature, unlocked) = check_entry-ok input.script_sig e checked in
      let (t, sum, funds, differ, fresh) = sum_inputs-ok (k ∷ seen) (acc + v) s inputs h₂ in
      (
        e.value + t,
        omega (arith, sum, value),
        (
          record { entry = e; unspent = there; mature = mature; unlocked = unlocked },
          t,
          refl,
          funds,
        ),
        ((λ b m. unseen-Differ seen input b (fresh b m)), differ),
        (forall_mem-cons (not_seen-prop seen)).1
            (unseen, λ b m. unseen-rest seen input b (fresh b m)),
      )

sum_outputs_ok : (acc s : ℕ) (os : List TxOutput) → Amounts os s → sum_outputs acc os ≡ ok (acc + s)
unfolding sum_outputs
sum_outputs_ok acc s [] h = ap ok (omega arith)
sum_outputs_ok acc s (o ∷ os) (n, m, value, sum, hs) =
    let total : acc + n + m ≡ acc + s = omega (arith, sum) in
    rw value (sum_outputs_ok (acc + n) m os hs ∙ ap ok total)

amount-ok : (v : ℤ) (n : ℕ) → amount v ≡ ok n → v ≡ pos n
amount-ok (pos k) n h = ap pos (sym (ok-injective h))
amount-ok (negsuc k) n h = cc

sum_outputs-ok :
    (acc s : ℕ) (os : List TxOutput)
    → sum_outputs acc os ≡ ok s
    → (t : ℕ) × (s ≡ acc + t) × Amounts os t
unfolding sum_outputs
sum_outputs-ok acc s [] h = (0, omega (arith, ok-injective h), refl)
sum_outputs-ok acc s (o ∷ os) h =
    let (n, value, h') = bind-ok (amount o.value) _ s h in
    let (t, sum, rest) = sum_outputs-ok (acc + n) s os h' in
    (n + t, omega (arith, sum), (n, t, amount-ok o.value n value, refl, rest))

validated :
    (lib : PqLibrary) (tx : Transaction) (utxo : UtxoSet) (current_height : ℕ)
    (require_signatures : Bool) (sig_hash : Bytes)
    → tx_sig_hash lib tx ≡ ok sig_hash
    → validate_spend lib tx utxo current_height require_signatures
      ≡ ok (do
        in_sum ← sum_inputs lib utxo current_height require_signatures sig_hash [] 0 tx.inputs
        out_sum ← sum_outputs 0 tx.outputs
        fee in_sum out_sum)
unfolding validate_spend
validated lib tx utxo current_height require_signatures sig_hash digest = rw digest

-- Once the digest that the signatures sign is computed, a spend is accepted with this fee exactly if no two
-- inputs spend the same output, every input can be spent, no output is negative, and the inputs hold the
-- outputs and the fee.
pub validate_spend_iff :
    (lib : PqLibrary) (tx : Transaction) (utxo : UtxoSet) (current_height : ℕ)
    (require_signatures : Bool) (sig_hash : Bytes) (paid : ℕ)
    → tx_sig_hash lib tx ≡ ok sig_hash
    → (validate_spend lib tx utxo current_height require_signatures ≡ ok (ok paid)) ↔ (
        (in_sum : ℕ) × (out_sum : ℕ) × AllDiffer tx.inputs
        × Funds lib utxo current_height require_signatures sig_hash tx.inputs in_sum
        × Amounts tx.outputs out_sum
        × (in_sum ≡ out_sum + paid))
validate_spend_iff lib tx utxo current_height require_signatures sig_hash paid digest = (
  λ h.
      let h₁ =
        ok-injective
          (sym (validated lib tx utxo current_height require_signatures sig_hash digest) ∙ h) in
      let (in_sum, ins, h₂) =
        bind-ok (sum_inputs lib utxo current_height require_signatures sig_hash [] 0 tx.inputs) _
          paid (sym h₁) in
      let (out_sum, outs, h₃) = bind-ok (sum_outputs 0 tx.outputs) _ paid h₂ in
      let (covered, h₄) = throw_if-ok (ltb in_sum out_sum) _ _ paid h₃ in
      let rest : paid ≡ in_sum - out_sum = ok-injective h₄ in
      let (t, sum, funds, differ, _) =
        sum_inputs-ok lib utxo current_height require_signatures sig_hash [] 0 in_sum tx.inputs
          ins in
      let (u, sum', amounts) = sum_outputs-ok 0 out_sum tx.outputs outs in
      (t, u, differ, funds, amounts, ground (arith, sum, sum')),
  λ c.
      let (t, u, differ, funds, amounts, balance) = c in
      let ins =
        sum_inputs_ok lib utxo current_height require_signatures sig_hash [] 0 t tx.inputs funds
          differ (λ b m. refl) in
      let outs = sum_outputs_ok 0 u tx.outputs amounts in
      let covered : ltb (0 + t) (0 + u) ≡ false = ground arith in
      let left : (0 + t) - (0 + u) ≡ paid = omega arith in
      validated lib tx utxo current_height require_signatures sig_hash digest
      ∙ rw (ins, outs, covered, left) refl,
)

-- ===== src/Spending/Examples.antt =====
-- A spend, and the theorems at it. The hashes are replaced by constants, and every signature is valid.
use mathlib.Core.List.{mem-cons_self}
use junctiongenerator.Base.{
  ℕ, zero, suc, ◌+◌, ◌≤◌, ◌≡◌, ◌↔◌, refl, ap, true, false, none, [], ◌∷◌, ◌++◌, arith, ok, err,
}
use junctiongenerator.Base.Int.{pos}
use junctiongenerator.Base.Texts.{Bytes, Text, text_eq}
use junctiongenerator.Base.Hex.{hex_value, hex_digit, from_hex, to_hex}
use junctiongenerator.Base.Maps.{lookup, HasDistinctKeys}
use junctiongenerator.Types.{TxInput, TxOutput, Transaction}
use junctiongenerator.Transactions.{
  le_bytes, encode_var_int, u32le, u128le, len_hex, write_input, write_inputs, write_outputs,
  write_broker_task, serialize_transaction,
}
use junctiongenerator.Proposer.{to_lower_case}
use junctiongenerator.Spending.Bonds.{
  take, drop, utf8_loop, validator_bond_script, parse_bond_tail, parse_bond_bytes,
  parse_validator_bond_script,
}
use junctiongenerator.Spending.Bonds.RoundTrip.{IsId}
use junctiongenerator.Spending.Signatures.{
  PqLibrary, pq_hash_from_script_pub_key, space_width, split_words, pq_is_valid_public_key,
  pq_is_valid_signature, pq_hash_public_key, pq_verify_hash_signature, verify_parts,
  pq_verify_spend,
}
use junctiongenerator.Spending.{
  UtxoEntry, UtxoSet, decimal, key, input_key, get, spend_script, sum_outputs, immature_coinbase,
  tx_sig_hash, check_entry, sum_inputs, validate_spend, txid, apply_transaction,
}
use junctiongenerator.Spending.Conservation.{total_value, apply_transaction_conserves}
use junctiongenerator.Spending.Rules.{AllDiffer, Funds, Amounts, validate_spend_iff}
use junctiongenerator.Spending.Spent.{IsOutputOf, apply_transaction_spends}

abbrev digits : ℕ → ℕ → Text
digits zero c = []
digits (suc n) c = c ∷ digits n c

abbrev lib : PqLibrary
lib = record {
  sha3_256 = λ bytes. 7 ∷ digits 19 7;
  public_key_size = 1;
  signature_size = 1;
  verify = λ signature message public_key. true;
}

abbrev sha256 : Bytes → Bytes
sha256 bytes = 1 ∷ []

abbrev tail_07 : ℕ → Text
tail_07 zero = b'6' ∷ b'3' ∷ b'a' ∷ b'c' ∷ []
tail_07 (suc n) = b'0' ∷ b'7' ∷ tail_07 n

-- The script of a key whose hash is all sevens.
abbrev owner : Text
owner = b'5' ∷ b'1' ∷ b'1' ∷ b'4' ∷ tail_07 20

abbrev input : TxInput
input = record {
  prev_out = record { txid = digits 64 b'a'; vout = 12 };
  script_sig = b'0' ∷ b'1' ∷ b' ' ∷ b'0' ∷ b'2' ∷ [];
  sequence = 0;
}

abbrev output : ℕ → TxOutput
output n = record { value = pos n; script_pub_key = owner }

abbrev tx : Transaction
tx = record {
  version = 1;
  inputs = input ∷ [];
  outputs = output 60 ∷ output 0 ∷ output 30 ∷ [];
  locktime = 0;
  broker_task_ref = none;
}

abbrev entry : UtxoEntry
entry = record { value = 100; script_pub_key = owner; height = 5; is_coinbase = true }

abbrev utxo : UtxoSet
utxo = ((digits 64 b'a' ++ (b':' ∷ b'1' ∷ b'2' ∷ [])), entry) ∷ []

decimal_digits : decimal 1207 ≡ b'1' ∷ b'2' ∷ b'0' ∷ b'7' ∷ []
unfolding decimal
decimal_digits = refl

spend_authorized : pq_verify_spend lib input.script_sig owner [] ≡ ok tt
unfolding pq_verify_spend pq_hash_from_script_pub_key take drop text_eq hex_value to_lower_case
    space_width split_words verify_parts pq_is_valid_public_key pq_is_valid_signature
    pq_hash_public_key pq_verify_hash_signature from_hex to_hex hex_digit
spend_authorized = refl

spend_accepted : validate_spend lib tx utxo 105 true ≡ ok (ok 10)
unfolding validate_spend tx_sig_hash serialize_transaction write_inputs write_input write_outputs
    u128le len_hex u32le le_bytes encode_var_int write_broker_task sum_inputs get key decimal lookup
    check_entry spend_script parse_validator_bond_script parse_bond_bytes sum_outputs
    pq_verify_spend pq_hash_from_script_pub_key take drop text_eq hex_value to_lower_case
    space_width split_words verify_parts pq_is_valid_public_key pq_is_valid_signature
    pq_hash_public_key pq_verify_hash_signature from_hex to_hex hex_digit
spend_accepted = refl

-- The coinbase output of height 5 can be spent from height 105 on.
immature_refused : validate_spend lib tx utxo 104 false ≡ ok (err immature_coinbase)
unfolding validate_spend tx_sig_hash serialize_transaction write_inputs write_input write_outputs
    u128le len_hex u32le le_bytes encode_var_int write_broker_task sum_inputs get key decimal lookup
    check_entry text_eq from_hex hex_value
immature_refused = refl

digest : tx_sig_hash lib tx ≡ ok (7 ∷ digits 19 7)
unfolding tx_sig_hash serialize_transaction write_inputs write_input write_outputs u128le len_hex
    u32le le_bytes encode_var_int write_broker_task from_hex hex_value
digest = refl

id : txid sha256 tx ≡ ok (b'0' ∷ b'1' ∷ [])
unfolding txid serialize_transaction write_outputs u128le le_bytes len_hex from_hex hex_value
    encode_var_int to_hex hex_digit
id = refl

apply_transaction_conserves_example :
    ((apply_transaction sha256 tx 105 false utxo).1 ≡ ok tt)
    × (total_value (apply_transaction sha256 tx 105 false utxo).0 + 10 ≤ total_value utxo)
apply_transaction_conserves_example =
    apply_transaction_conserves lib sha256 tx utxo 105 true 10 105 spend_accepted

validate_spend_iff_example : (validate_spend lib tx utxo 105 true ≡ ok (ok 10)) ↔ (
    (in_sum : ℕ) × (out_sum : ℕ) × AllDiffer tx.inputs
    × Funds lib utxo 105 true (7 ∷ digits 19 7) tx.inputs in_sum
    × Amounts tx.outputs out_sum
    × (in_sum ≡ out_sum + 10))
validate_spend_iff_example = validate_spend_iff lib tx utxo 105 true (7 ∷ digits 19 7) 10 digest

utxo-HasDistinctKeys : HasDistinctKeys utxo
unfolding lookup
utxo-HasDistinctKeys = (refl, tt)

abbrev first_byte : Text → ℕ
first_byte [] = 0
first_byte (b ∷ bs) = b

-- The keys of the new outputs begin with the digit 0.
input_key-fresh : ¬ IsOutputOf (b'0' ∷ b'1' ∷ []) (input_key input)
unfolding key
input_key-fresh (vout, e) = let h : 97 ≡ 48 = ap first_byte e in omega (arith, h)

apply_transaction_spends_example :
    lookup (input_key input) (apply_transaction sha256 tx 105 false utxo).0 ≡ none
apply_transaction_spends_example =
    apply_transaction_spends sha256 tx 105 utxo (b'0' ∷ b'1' ∷ []) input utxo-HasDistinctKeys id
      mem-cons_self input_key-fresh

abbrev validator : Text
validator = b'v' ∷ 0xc3 ∷ 0xa9 ∷ []

validator-IsId : IsId validator
unfolding utf8_loop
validator-IsId = record {
  present = omega arith;
  fits = omega arith;
  bytes = (omega arith, (omega arith, (omega arith, tt)));
  decoded = refl;
}

-- A bond without an owner's script is built, but not parsed.
ownerless_bond :
    (script : Text) × (validator_bond_script validator [] ≡ ok script)
    × (parse_validator_bond_script script ≡ none)
unfolding validator_bond_script parse_validator_bond_script parse_bond_bytes parse_bond_tail take
    drop text_eq from_hex to_hex hex_value hex_digit
ownerless_bond = (_, refl, refl)

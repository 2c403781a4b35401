-- ===== src/Blocks/Examples.antt =====
-- A block with one spend, its header, and the theorems at them. The hash functions are replaced by
-- constants, and every signature is valid.
use junctiongenerator.Base.{
  ℕ, zero, suc, ◌+◌, ◌≤◌, ◌≡◌, ◌≢◌, ◌↔◌, refl, true, false, none, some, [], ◌∷◌, ◌++◌, ok, err,
}
use junctiongenerator.Base.Int.{pos, ◌+ℤ◌}
use junctiongenerator.Base.Texts.{Bytes, Text, text_eq}
use junctiongenerator.Types.{TxInput, TxOutput, Transaction}
use junctiongenerator.Transactions.{
  negative_amount, le_bytes, encode_var_int, u32le, u128le, len_hex, write_input, write_inputs,
  write_outputs, write_broker_task, serialize_transaction,
}
use junctiongenerator.Headers.{
  BlockHeader, serialize_block_header, check_numbers, check_hashes, is_canonical_hash,
}
use junctiongenerator.Spending.{
  UtxoEntry, UtxoSet, decimal, key, get, spend_script, sum_outputs, tx_sig_hash, check_entry,
  sum_inputs, validate_spend, txid, apply_transaction, add_transaction_outputs, add_outputs,
  add_output, add, spend, spend_inputs,
}
use junctiongenerator.Spending.Signatures.{
  PqLibrary, pq_hash_from_script_pub_key, space_width, split_words, pq_is_valid_public_key,
  pq_is_valid_signature, pq_hash_public_key, pq_verify_hash_signature, verify_parts,
  pq_verify_spend,
}
use junctiongenerator.Spending.Conservation.{total_value}
use junctiongenerator.Blocks.{
  validate_block_header, check_structure, check_block_spends, check_mints_nothing, thrown,
  double_spend, validate_transaction, check_each, check_amounts, add_amount, check_outpoints,
  reduce_values, check_overwrites, check_spends,
}
use junctiongenerator.Blocks.Connect.{calculate_block_fees, apply_transactions}
use junctiongenerator.Blocks.Conserves.{block_conserves}
use junctiongenerator.Blocks.Accepted.{Extends, validate_block_header_iff}
use junctiongenerator.Blocks.Total.{check_block_spends-quiet}
use junctiongenerator.Base.Hex.{hex_value, hex_digit, from_hex, to_hex}
use junctiongenerator.Base.Maps.{lookup, insert, erase}
use junctiongenerator.Proposer.{to_lower_case}
use junctiongenerator.Spending.Bonds.{take, drop, parse_bond_bytes, parse_validator_bond_script}
use junctiongenerator.Canonical.{consensus_uint}
use junctiongenerator.Difficulty.{
  decode_difficulty_bits_exact, is_canonical_difficulty_bits, encode_difficulty_bits_exact,
}

abbrev digits : ℕ → ℕ → Text
digits zero c = []
digits (suc n) c = c ∷ digits n c

abbrev lib : PqLibrary
lib = record {
  sha3_256 = λ bytes. 7 ∷ digits 19 7;
  public_key_size = 1;
  signature_size = 1;
  verify = λ signature message public_key. true;
}

abbrev sha256 : Bytes → Bytes
sha256 bytes = 1 ∷ []

abbrev tail_07 : ℕ → Text
tail_07 zero = b'6' ∷ b'3' ∷ b'a' ∷ b'c' ∷ []
tail_07 (suc n) = b'0' ∷ b'7' ∷ tail_07 n

-- The script of a key whose hash is all sevens.
abbrev owner : Text
owner = b'5' ∷ b'1' ∷ b'1' ∷ b'4' ∷ tail_07 20

abbrev input : TxInput
input = record {
  prev_out = record { txid = digits 64 b'a'; vout = 12 };
  script_sig = b'0' ∷ b'1' ∷ b' ' ∷ b'0' ∷ b'2' ∷ [];
  sequence = 0;
}

abbrev output : ℕ → TxOutput
output n = record { value = pos n; script_pub_key = owner }

abbrev tx : Transaction
tx = record {
  version = 1;
  inputs = input ∷ [];
  outputs = output 60 ∷ output 0 ∷ output 30 ∷ [];
  locktime = 0;
  broker_task_ref = none;
}

abbrev entry : UtxoEntry
entry = record { value = 100; script_pub_key = owner; height = 5; is_coinbase = false }

abbrev utxo : UtxoSet
utxo = ((digits 64 b'a' ++ (b':' ∷ b'1' ∷ b'2' ∷ [])), entry) ∷ []

abbrev header : BlockHeader
header = record {
  version = 0x0300_0000;
  prev_hash = digits 64 b'0';
  merkle_root = digits 64 b'1';
  compute_root = digits 64 b'2';
  epoch_root = digits 64 b'a';
  audit_root = digits 64 b'f';
  timestamp = 1_781_136_000;
  difficulty_bits = 0x043b_9aca;
  nonce = 0;
  height = 7;
}

abbrev coinbase : Transaction
coinbase = record {
  version = 1;
  inputs = [];
  outputs = output 0 ∷ [];
  locktime = 105;
  broker_task_ref = none;
}

abbrev made : ℕ → UtxoEntry
made n = record { value = n; script_pub_key = owner; height = 105; is_coinbase = false }

abbrev view : UtxoSet
view =
    ((b'0' ∷ b'1' ∷ b':' ∷ b'0' ∷ []), made 60) ∷ ((b'0' ∷ b'1' ∷ b':' ∷ b'2' ∷ []), made 30) ∷ []

structure : check_structure (coinbase ∷ tx ∷ []) ≡ ok tt
unfolding check_structure check_each validate_transaction check_amounts add_amount check_outpoints
structure = refl

-- The same input twice.
double_spend_refused :
    validate_transaction (record tx { inputs = input ∷ input ∷ [] }) false ≡ err double_spend
unfolding validate_transaction check_amounts add_amount check_outpoints text_eq key decimal
double_spend_refused = refl

spends : check_block_spends lib sha256 coinbase (tx ∷ []) 105 utxo ≡ ok view
unfolding check_block_spends check_overwrites check_spends txid apply_transaction
    add_transaction_outputs add_outputs add_output add spend spend_inputs insert erase
    validate_spend tx_sig_hash serialize_transaction write_inputs write_input write_outputs u128le
    len_hex u32le le_bytes encode_var_int write_broker_task sum_inputs get key decimal lookup
    check_entry spend_script parse_validator_bond_script parse_bond_bytes sum_outputs
    pq_verify_spend pq_hash_from_script_pub_key take drop text_eq hex_value to_lower_case
    space_width split_words verify_parts pq_is_valid_public_key pq_is_valid_signature
    pq_hash_public_key pq_verify_hash_signature from_hex to_hex hex_digit
spends = refl

mints_nothing : check_mints_nothing coinbase ≡ ok tt
unfolding check_mints_nothing reduce_values ◌+ℤ◌
mints_nothing = refl

block_conserves_example :
    (fees : ℕ) × (calculate_block_fees sha256 (coinbase ∷ tx ∷ []) 105 utxo ≡ ok (pos fees))
    × (apply_transactions sha256 true (coinbase ∷ tx ∷ []) 105 utxo ≡ (view, ok tt))
    × (total_value view + fees ≤ total_value utxo)
block_conserves_example =
    block_conserves lib sha256 coinbase (tx ∷ []) 105 utxo view structure spends mints_nothing

check_block_spends-quiet_example :
    check_block_spends lib sha256 coinbase (tx ∷ []) 105 utxo ≢ err (thrown negative_amount)
check_block_spends-quiet_example =
    check_block_spends-quiet lib sha256 coinbase (tx ∷ []) 105 utxo negative_amount structure

validate_block_header_iff_example :
    (validate_block_header header (some (digits 64 b'0')) 7 1_781_136_000 1_781_130_000 ≡ ok tt)
    ↔ Extends (some (digits 64 b'0')) 7 1_781_136_000 1_781_130_000 header
validate_block_header_iff_example =
    validate_block_header_iff (some (digits 64 b'0')) 7 1_781_136_000 1_781_130_000 header

header_accepted :
    validate_block_header header (some (digits 64 b'0')) 7 1_781_136_000 1_781_130_000 ≡ ok tt
unfolding validate_block_header serialize_block_header check_numbers consensus_uint check_hashes
    is_canonical_hash text_eq decode_difficulty_bits_exact is_canonical_difficulty_bits
    encode_difficulty_bits_exact
header_accepted = refl

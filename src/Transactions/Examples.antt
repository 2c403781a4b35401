-- ===== src/Transactions/Examples.antt =====
-- Runs of the transaction format, and the round trip at a concrete transaction.
use junctiongenerator.Base.{ℕ, zero, suc, ◌^◌, ◌≡◌, refl, ◌++◌, some, [], ◌∷◌, arith, ok, err}
use junctiongenerator.Base.Int.{pos, negsuc}
use junctiongenerator.Base.Texts.{Bytes, Text}
use junctiongenerator.Base.Hex.{hex_value, hex_digit, from_hex, to_hex}
use junctiongenerator.Types.{TxInput, TxOutput, Transaction}
use junctiongenerator.Transactions.{
  le_bytes, encode_var_int, u128le, write_outputs, serialize_transaction, negative_amount,
  truncated,
}
use junctiongenerator.Transactions.Reading.{
  take_bytes, read_u32, read_le, read_transaction, deserialize_transaction,
}
use junctiongenerator.Transactions.Fields.{recoded_input, IsInput}
use junctiongenerator.Transactions.RoundTrip.{
  recoded, recoded_lem, IsOutput, IsTransaction, deserialize-serialize_transaction,
}

abbrev digits : ℕ → ℕ → Text
digits zero c = []
digits (suc n) c = c ∷ digits n c

abbrev funded : TxInput
funded = record {
  prev_out = record { txid = digits 64 b'a'; vout = 1 };
  script_sig = b'0' ∷ b'f' ∷ [];
  sequence = 0xffff_ffff;
}

abbrev paid : TxOutput
paid = record { value = pos (2 ^ 70); script_pub_key = b'5' ∷ b'1' ∷ [] }

abbrev payment : Transaction
payment = record {
  version = 1;
  inputs = funded ∷ [];
  outputs = paid ∷ [];
  locktime = 0;
  broker_task_ref = some (b't' ∷ []);
}

long_count : encode_var_int 253 ≡ 0xfd ∷ 253 ∷ 0 ∷ []
unfolding encode_var_int le_bytes
long_count = refl

-- 2 ^ 70 does not fit 64 bits.
wide_amount :
    u128le (pos (2 ^ 70)) ≡ ok (0 ∷ 0 ∷ 0 ∷ 0 ∷ 0 ∷ 0 ∷ 0 ∷ 0 ∷ 64 ∷ 0 ∷ 0 ∷ 0 ∷ 0 ∷ 0 ∷ 0 ∷ 0 ∷ [])
unfolding u128le le_bytes
wide_amount = refl

negative_refused :
    serialize_transaction (record payment { outputs = record paid { value = negsuc 0 } ∷ [] })
    ≡ err negative_amount
unfolding serialize_transaction write_outputs u128le
negative_refused = refl

short_refused : deserialize_transaction (1 ∷ 0 ∷ 0 ∷ []) ≡ err truncated
unfolding deserialize_transaction read_transaction read_u32 read_le take_bytes
short_refused = refl

funded-IsInput : IsInput funded
unfolding to_hex from_hex hex_value hex_digit
funded-IsInput = record {
  txid_size = refl;
  vout = omega arith;
  script_size = omega arith;
  sequence = omega arith;
}

paid-IsOutput : IsOutput paid
unfolding to_hex from_hex hex_value hex_digit
paid-IsOutput = record {
  amount = 2 ^ 70;
  value = refl;
  value_size = omega arith;
  script_size = omega arith;
}

payment-IsTransaction : IsTransaction payment
payment-IsTransaction = record {
  version = omega arith;
  input_count = omega arith;
  inputs = (funded-IsInput, tt);
  output_count = omega arith;
  outputs = (paid-IsOutput, tt);
  locktime = omega arith;
  broker_task = omega arith;
}

-- Texts in lower case come back as they are.
payment-recoded : recoded payment ≡ payment
unfolding from_hex to_hex hex_value hex_digit
payment-recoded = recoded_lem payment (refl, refl, tt) (refl, tt)

-- Of a signature, a space and a public key the signature comes back.
spend_recoded :
    recoded_input (record funded { script_sig = b'0' ∷ b'f' ∷ b' ' ∷ b'0' ∷ b'2' ∷ [] }) ≡ funded
unfolding from_hex to_hex hex_value hex_digit
spend_recoded = refl

deserialize-serialize_transaction_example :
    (bytes : Bytes) × (serialize_transaction payment ≡ ok bytes)
    × ((rest : Bytes) → deserialize_transaction (bytes ++ rest) ≡ ok (recoded payment))
deserialize-serialize_transaction_example =
    deserialize-serialize_transaction payment payment-IsTransaction

-- ===== src/Transactions/RoundTrip.antt =====
-- What parsing a serialized transaction gives: the transaction with its hexadecimal texts decoded and
-- encoded again.
use mathlib.Core.List.{append_assoc}
use junctiongenerator.Base.{
  ℕ, ◌/◌, ◌%◌, ◌^◌, ◌<◌, ◌≡◌, refl, sym, subst, false, Option, none, some, List, [], ◌∷◌, ◌++◌, map,
  arith, ltb, length, ok, ok-bind,
}
use junctiongenerator.Base.Int.{pos}
use junctiongenerator.Base.Texts.{Bytes, Text}
use junctiongenerator.Base.Hex.{from_hex}
use junctiongenerator.Types.{TxInput, TxOutput, Transaction}
use junctiongenerator.Transactions.{
  le_bytes, u32le, u128le, encode_var_int, len_hex, write_inputs, write_outputs, write_broker_task,
  serialize_transaction,
}
use junctiongenerator.Transactions.Reading.{
  take_bytes, read_u32, read_var_int, read_u128, read_script, read_input, read_output, read_many,
  read_broker_task, read_transaction, deserialize_transaction,
}
use junctiongenerator.Transactions.Fields.{
  Reads, read_then-Reads, read_map-Reads, take_bytes-Reads, read_u32-Reads, read_var_int-Reads,
  read_script-Reads, read_u128-Reads, read_input-Reads, recoded_hex, recoded_input, IsHex, IsInput,
}

-- The outputs that the format can hold.
pub record IsOutput (out : TxOutput) : Type 0 where
  pub amount : ℕ
  pub value : out.value ≡ pos amount
  pub value_size : amount < 2 ^ 128
  pub script_size : length (from_hex out.script_pub_key) < 2 ^ 64

abbrev pub recoded_output : TxOutput → TxOutput
recoded_output out = record { value = out.value; script_pub_key = recoded_hex out.script_pub_key }

-- The ids and scripts of the transaction as they are encoded again; all else is the same.
abbrev pub recoded : Transaction → Transaction
recoded tx = record tx {
  inputs = map recoded_input tx.inputs;
  outputs = map recoded_output tx.outputs;
}

-- Every id and script is the lower-case text of bytes.
abbrev AreHexInputs : List TxInput → Type 0
AreHexInputs [] = Unit
AreHexInputs (inp ∷ inps) = IsHex inp.prev_out.txid × IsHex inp.script_sig × AreHexInputs inps

abbrev AreHexOutputs : List TxOutput → Type 0
AreHexOutputs [] = Unit
AreHexOutputs (out ∷ outs) = IsHex out.script_pub_key × AreHexOutputs outs

recoded_inputs_lem : (l : List TxInput) → AreHexInputs l → map recoded_input l ≡ l
recoded_inputs_lem [] h = refl
recoded_inputs_lem (inp ∷ l) (id, script, h) = rw (id, script, recoded_inputs_lem l h) refl

recoded_outputs_lem : (l : List TxOutput) → AreHexOutputs l → map recoded_output l ≡ l
recoded_outputs_lem [] h = refl
recoded_outputs_lem (out ∷ l) (script, h) = rw (script, recoded_outputs_lem l h) refl

-- A transaction of such texts is its own recoding.
pub recoded_lem :
    (tx : Transaction) → AreHexInputs tx.inputs → AreHexOutputs tx.outputs → recoded tx ≡ tx
recoded_lem tx i o = rw (recoded_inputs_lem tx.inputs i, recoded_outputs_lem tx.outputs o) refl

abbrev pub AllInputs : List TxInput → Type 0
AllInputs [] = Unit
AllInputs (inp ∷ inps) = IsInput inp × AllInputs inps

abbrev pub AllOutputs : List TxOutput → Type 0
AllOutputs [] = Unit
AllOutputs (out ∷ outs) = IsOutput out × AllOutputs outs

abbrev pub broker_task_size : Option Text → ℕ
broker_task_size none = 0
broker_task_size (some ref) = length ref

-- The transactions that the format can hold.
pub record IsTransaction (tx : Transaction) : Type 0 where
  pub version : tx.version < 2 ^ 32
  pub input_count : length tx.inputs < 2 ^ 64
  pub inputs : AllInputs tx.inputs
  pub output_count : length tx.outputs < 2 ^ 64
  pub outputs : AllOutputs tx.outputs
  pub locktime : tx.locktime < 2 ^ 32
  pub broker_task : broker_task_size tx.broker_task_ref < 2 ^ 64

read_inputs-Reads :
    (l : List TxInput)
    → AllInputs l
    → Reads (read_many read_input (length l)) (write_inputs l) (map recoded_input l)
unfolding read_many write_inputs
read_inputs-Reads [] h = λ rest. refl
read_inputs-Reads (inp ∷ l) (h, hs) =
    read_then-Reads read_input _ (recoded_input inp) (map recoded_input (inp ∷ l)) _ _
      (read_input-Reads inp h)
      (read_map-Reads (read_many read_input (length l)) (λ items. recoded_input inp ∷ items)
        (map recoded_input l) _ (read_inputs-Reads l hs))

abbrev pub amount_bytes : ℕ → Bytes
amount_bytes v = le_bytes 8 (v % 2 ^ 64) ++ le_bytes 8 (v / 2 ^ 64)

pub u128le_ok : (v : ℕ) → v < 2 ^ 128 → u128le (pos v) ≡ ok (amount_bytes v)
unfolding u128le
u128le_ok v h = let fits : ltb 0 (v / 2 ^ 128) ≡ false = ground arith in rw fits

abbrev output_bytes : (l : List TxOutput) → AllOutputs l → Bytes
output_bytes [] h = []
output_bytes (out ∷ l) (h, hs) =
    amount_bytes h.amount ++ (len_hex out.script_pub_key ++ output_bytes l hs)

write_outputs_ok : (l : List TxOutput) (h : AllOutputs l) → write_outputs l ≡ ok (output_bytes l h)
unfolding write_outputs
write_outputs_ok [] h = refl
write_outputs_ok (out ∷ l) (h, hs) =
    rw (h.value, u128le_ok h.amount h.value_size, write_outputs_ok l hs)

read_output-Reads :
    (out : TxOutput) (h : IsOutput out)
    → Reads read_output (amount_bytes h.amount ++ len_hex out.script_pub_key) (recoded_output out)
unfolding read_output
read_output-Reads out h =
    subst
      (λ v.
        Reads read_output (amount_bytes h.amount ++ len_hex out.script_pub_key)
          (record { value = v; script_pub_key = recoded_hex out.script_pub_key }))
      (sym h.value)
      (read_then-Reads read_u128 _ (pos h.amount) _ _ _ (read_u128-Reads h.amount h.value_size) (
        read_map-Reads read_script
          (λ script. record { value = pos h.amount; script_pub_key = script })
          (recoded_hex out.script_pub_key) _ (read_script-Reads out.script_pub_key h.script_size)))

read_outputs-Reads :
    (l : List TxOutput) (h : AllOutputs l)
    → Reads (read_many read_output (length l)) (output_bytes l h) (map recoded_output l)
unfolding read_many
read_outputs-Reads [] h = λ rest. refl
read_outputs-Reads (out ∷ l) (h, hs) =
    subst
      (λ bytes.
        Reads (read_many read_output (length (out ∷ l))) bytes (map recoded_output (out ∷ l)))
      (append_assoc (amount_bytes h.amount) (len_hex out.script_pub_key) (output_bytes l hs))
      (read_then-Reads read_output _ (recoded_output out) (map recoded_output (out ∷ l)) _ _
        (read_output-Reads out h)
        (read_map-Reads (read_many read_output (length l)) (λ items. recoded_output out ∷ items)
          (map recoded_output l) _ (read_outputs-Reads l hs)))

read_broker_task-Reads :
    (o : Option Text) → broker_task_size o < 2 ^ 64 → Reads read_broker_task (write_broker_task o) o
unfolding read_broker_task write_broker_task
read_broker_task-Reads none h = λ rest. refl
read_broker_task-Reads (some ref) h =
    read_then-Reads read_var_int _ (length ref) (some ref) _ _ (read_var_int-Reads (length ref) h)
      (read_map-Reads (take_bytes (length ref)) some ref _ (take_bytes-Reads ref))

abbrev transaction_bytes : (tx : Transaction) → IsTransaction tx → Bytes
transaction_bytes tx h =
    u32le tx.version
    ++ (encode_var_int (length tx.inputs)
        ++ (write_inputs tx.inputs
            ++ (encode_var_int (length tx.outputs)
                ++ (output_bytes tx.outputs h.outputs
                    ++ (u32le tx.locktime ++ write_broker_task tx.broker_task_ref)))))

read_transaction-Reads :
    (tx : Transaction) (h : IsTransaction tx)
    → Reads read_transaction (transaction_bytes tx h) (recoded tx)
unfolding read_transaction
read_transaction-Reads tx h =
    read_then-Reads read_u32 _ tx.version (recoded tx) _ _ (read_u32-Reads tx.version h.version) (
      read_then-Reads read_var_int _ (length tx.inputs) (recoded tx) _ _
        (read_var_int-Reads (length tx.inputs) h.input_count)
        (read_then-Reads (read_many read_input (length tx.inputs)) _ (map recoded_input tx.inputs)
          (recoded tx) _ _ (read_inputs-Reads tx.inputs h.inputs)
          (read_then-Reads read_var_int _ (length tx.outputs) (recoded tx) _ _
            (read_var_int-Reads (length tx.outputs) h.output_count)
            (read_then-Reads (read_many read_output (length tx.outputs)) _
              (map recoded_output tx.outputs) (recoded tx) _ _
              (read_outputs-Reads tx.outputs h.outputs)
              (read_then-Reads read_u32 _ tx.locktime (recoded tx) _ _
                (read_u32-Reads tx.locktime h.locktime)
                (read_map-Reads read_broker_task
                  (λ ref. record {
                    version = tx.version;
                    inputs = map recoded_input tx.inputs;
                    outputs = map recoded_output tx.outputs;
                    locktime = tx.locktime;
                    broker_task_ref = ref;
                  })
                  tx.broker_task_ref _
                  (read_broker_task-Reads tx.broker_task_ref h.broker_task)))))))

-- A transaction whose numbers and sizes fit the format and whose input ids decode to 32 bytes is serialized,
-- and parsing its bytes, whatever follows them, gives it back with every id and script as the lower-case
-- hexadecimal text of the bytes that it decodes to.
pub deserialize-serialize_transaction :
    (tx : Transaction)
    → IsTransaction tx
    → (bytes : Bytes) × (serialize_transaction tx ≡ ok bytes)
      × ((rest : Bytes) → deserialize_transaction (bytes ++ rest) ≡ ok (recoded tx))
unfolding serialize_transaction deserialize_transaction
deserialize-serialize_transaction tx h = (
  transaction_bytes tx h,
  rw (write_outputs_ok tx.outputs h.outputs) refl,
  λ rest. ok-bind _ (read_transaction-Reads tx h rest),
)

-- ===== src/Transactions.antt =====
-- packages/jgc-node/src/consensus/block.ts: the canonical binary form of a transaction.
pub mod Reading
pub mod Fields
pub mod RoundTrip
mod Examples
use junctiongenerator.Base.{
  ℕ, zero, suc, ◌+◌, ◌*◌, ◌/◌, ◌%◌, ◌^◌, Bool, Option, none, some, List, [], ◌∷◌, ◌++◌, ltb, leb,
  if◌then◌else◌, length, Result, ok, err, ◌>>=◌, ◌>>◌, throw_if,
}
use junctiongenerator.Base.Int.{ℤ, pos, negsuc}
use junctiongenerator.Base.Texts.{Bytes, Text}
use junctiongenerator.Base.Hex.{from_hex}
use junctiongenerator.Types.{OutPoint, TxInput, TxOutput, Transaction}

pub data TransactionError : Type 0 where
  negative_amount amount_exceeds_u128 truncated : TransactionError

-- A number in `width` bytes, the least significant first.
unfoldable pub le_bytes : ℕ → ℕ → Bytes
le_bytes zero n = []
le_bytes (suc width) n = (n % 256) ∷ le_bytes width (n / 256)

-- The argument is the length of an array: it is not negative.
unfoldable pub encode_var_int : ℕ → Bytes
encode_var_int n =
    if ltb n 0xfd
    then n ∷ []
    else if leb n 0xffff
    then 0xfd ∷ le_bytes 2 n
    else if leb n 0xffff_ffff
    then 0xfe ∷ le_bytes 4 n
    else 0xff ∷ le_bytes 8 n

-- `n >>> 0` keeps 32 bits.
unfoldable pub u32le : ℕ → Bytes
u32le n = le_bytes 4 (n % 2 ^ 32)

-- Two words of 64 bits, the lower first.
unfoldable pub u128le : ℤ → Result TransactionError Bytes
u128le (negsuc n) = err negative_amount
u128le (pos v) = do
  throw_if (ltb 0 (v / 2 ^ 128)) amount_exceeds_u128
  ok (le_bytes 8 (v % 2 ^ 64) ++ le_bytes 8 (v / 2 ^ 64))

unfoldable pub len_hex : Text → Bytes
len_hex hex = let bytes = from_hex hex in encode_var_int (length bytes) ++ bytes

unfoldable pub write_input : TxInput → Bytes
write_input inp =
    from_hex inp.prev_out.txid
    ++ (u32le inp.prev_out.vout ++ (len_hex inp.script_sig ++ u32le inp.sequence))

-- The `for` over the inputs.
unfoldable pub write_inputs : List TxInput → Bytes
write_inputs [] = []
write_inputs (inp ∷ inps) = write_input inp ++ write_inputs inps

-- The `for` over the outputs.
unfoldable pub write_outputs : List TxOutput → Result TransactionError Bytes
write_outputs [] = ok []
write_outputs (out ∷ outs) = do
  value ← u128le out.value
  rest ← write_outputs outs
  ok (value ++ (len_hex out.script_pub_key ++ rest))

unfoldable pub write_broker_task : Option Text → Bytes
write_broker_task none = 0 ∷ []
write_broker_task (some ref) = 1 ∷ (encode_var_int (length ref) ++ ref)

unfoldable pub serialize_transaction : Transaction → Result TransactionError Bytes
serialize_transaction tx = do
  outputs ← write_outputs tx.outputs
  ok (
      u32le tx.version
      ++ (encode_var_int (length tx.inputs)
          ++ (write_inputs tx.inputs
              ++ (encode_var_int (length tx.outputs)
                  ++ (outputs ++ (u32le tx.locktime ++ write_broker_task tx.broker_task_ref))))))

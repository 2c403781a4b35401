-- ===== src/Transactions/Reading.antt =====
-- packages/jgc-node/src/consensus/block.ts: the parser of transactions. A reader takes the bytes that are
-- left, which stand for the offset, and returns what it read and the bytes after it, or throws.
use junctiongenerator.Base.{
  ℕ, zero, suc, ◌+◌, ◌*◌, ◌^◌, Option, none, some, List, [], ◌∷◌, ltb, ◌==◌, if◌then◌else◌, Result,
  ok, err, ◌>>=◌,
}
use junctiongenerator.Base.Int.{ℤ, pos}
use junctiongenerator.Base.Texts.{Bytes, Text}
use junctiongenerator.Base.Hex.{to_hex}
use junctiongenerator.Types.{TxInput, TxOutput, Transaction}
use junctiongenerator.Transactions.{TransactionError, truncated}

abbrev pub Reader : Type 0 → Type 0
Reader A = Bytes → Result TransactionError (A × Bytes)

-- `need(n)`, `buf.subarray(off, off + n)`
unfoldable pub take_bytes : ℕ → Reader Bytes
take_bytes zero buf = ok ([], buf)
take_bytes (suc n) [] = err truncated
take_bytes (suc n) (b ∷ buf) = do (bytes, rest) ← take_bytes n buf; ok (b ∷ bytes, rest)

unfoldable pub from_le : Bytes → ℕ
from_le [] = 0
from_le (b ∷ bs) = b + 256 * from_le bs

unfoldable pub read_le : ℕ → Reader ℕ
read_le width buf = do (bytes, rest) ← take_bytes width buf; ok (from_le bytes, rest)

unfoldable pub read_u32 : Reader ℕ
read_u32 = read_le 4

-- `Number` rounds a count above 2^53, which exceeds the buffer's length in any case.
unfoldable pub read_var_int : Reader ℕ
read_var_int [] = err truncated
read_var_int (first ∷ buf) =
    if ltb first 0xfd
    then ok (first, buf)
    else if first == 0xfd
    then read_le 2 buf
    else if first == 0xfe
    then read_le 4 buf
    else read_le 8 buf

unfoldable pub read_u128 : Reader ℤ
read_u128 buf = do
  (lo, buf') ← read_le 8 buf
  (hi, rest) ← read_le 8 buf'
  ok (pos (hi * 2 ^ 64 + lo), rest)

unfoldable pub read_hex : ℕ → Reader Text
read_hex n buf = do (bytes, rest) ← take_bytes n buf; ok (to_hex bytes, rest)

unfoldable pub read_script : Reader Text
read_script buf = do (n, buf') ← read_var_int buf; read_hex n buf'

unfoldable pub read_input : Reader TxInput
read_input buf = do
  (txid, buf₁) ← read_hex 32 buf
  (vout, buf₂) ← read_u32 buf₁
  (script_sig, buf₃) ← read_script buf₂
  (sequence, rest) ← read_u32 buf₃
  ok (
    record {
      prev_out = record { txid = txid; vout = vout };
      script_sig = script_sig;
      sequence = sequence;
    },
    rest,
  )

unfoldable pub read_output : Reader TxOutput
read_output buf = do
  (value, buf') ← read_u128 buf
  (script_pub_key, rest) ← read_script buf'
  ok (record { value = value; script_pub_key = script_pub_key }, rest)

-- A `for` that reads `count` items.
unfoldable pub read_many : {A : Type 0} → Reader A → ℕ → Reader (List A)
read_many read zero buf = ok ([], buf)
read_many read (suc count) buf = do
  (item, buf') ← read buf
  (items, rest) ← read_many read count buf'
  ok (item ∷ items, rest)

-- The text is kept as its bytes. `toString("utf8")` replaces bytes that are not UTF-8, which is not
-- modelled: the bytes here are those of a string.
unfoldable pub read_broker_task : Reader (Option Text)
read_broker_task [] = err truncated
read_broker_task (has_broker ∷ buf) =
    if has_broker == 1
    then (do (len, buf') ← read_var_int buf; (ref, rest) ← take_bytes len buf'; ok (some ref, rest))
    else ok (none, buf)

unfoldable pub read_transaction : Reader Transaction
read_transaction buf = do
  (version, buf₁) ← read_u32 buf
  (in_count, buf₂) ← read_var_int buf₁
  (inputs, buf₃) ← read_many read_input in_count buf₂
  (out_count, buf₄) ← read_var_int buf₃
  (outputs, buf₅) ← read_many read_output out_count buf₄
  (locktime, buf₆) ← read_u32 buf₅
  (broker_task_ref, rest) ← read_broker_task buf₆
  ok (
    record {
      version = version;
      inputs = inputs;
      outputs = outputs;
      locktime = locktime;
      broker_task_ref = broker_task_ref;
    },
    rest,
  )

-- Bytes after the transaction are ignored.
unfoldable pub deserialize_transaction : Bytes → Result TransactionError Transaction
deserialize_transaction buf = do (tx, rest) ← read_transaction buf; ok tx

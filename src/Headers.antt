-- ===== src/Headers.antt =====
-- packages/jgc-node/src/consensus/block.ts: the binary form of a block header. The parser's readers are
-- those of transactions.
pub mod Hashes
pub mod RoundTrip
mod Examples
use junctiongenerator.Base.{
  ℕ, ◌≡◌, Bool, true, false, not, ◌&&◌, ◌||◌, List, [], ◌∷◌, ◌++◌, ltb, ◌==◌, length, Result, ok,
  err, ◌>>=◌, ◌>>◌, throw_if,
}
use junctiongenerator.Base.Int.{pos}
use junctiongenerator.Base.Texts.{Bytes, Text}
use junctiongenerator.Base.Hex.{between, from_hex, to_hex}
use junctiongenerator.Canonical.{EncodingError, int, consensus_uint}
use junctiongenerator.Transactions.{TransactionError, le_bytes}
use junctiongenerator.Transactions.Reading.{Reader, read_u32, read_le, read_hex}

-- The numbers are naturals, as a parsed header has them: that a number is an integer and not negative is in the
-- type, and the tests of the serializer that are left are those of the upper bounds.
pub record BlockHeader : Type 0 where
  pub version : ℕ
  pub prev_hash : Text
  pub merkle_root : Text
  pub compute_root : Text
  pub epoch_root : Text
  pub audit_root : Text
  pub timestamp : ℕ
  pub difficulty_bits : ℕ
  pub nonce : ℕ
  pub height : ℕ

pub data HeaderError : Type 0 where
  field_not_uint32 not_a_canonical_hash invalid_length reserved_not_zero : HeaderError
  encoding : EncodingError → HeaderError
  reading : TransactionError → HeaderError

abbrev pub block_header_size : ℕ
block_header_size = 192

abbrev pub all_lower_hex : Text → Bool
all_lower_hex [] = true
all_lower_hex (c ∷ cs) = (between b'0' b'9' c || between b'a' b'f' c) && all_lower_hex cs

-- /^[0-9a-f]{64}$/
unfoldable pub is_canonical_hash : Text → Bool
is_canonical_hash t = length t == 64 && all_lower_hex t

abbrev pub encoded : {A : Type 0} → Result EncodingError A → Result HeaderError A
encoded (ok a) = ok a
encoded (err e) = err (encoding e)

-- The checks of the numbers.
unfoldable pub check_numbers : BlockHeader → Result HeaderError (Unit {0})
check_numbers h = do
  throw_if (ltb 0xffff_ffff h.version) field_not_uint32
  throw_if (ltb 0xffff_ffff h.difficulty_bits) field_not_uint32
  throw_if (ltb 0xffff_ffff h.nonce) field_not_uint32
  timestamp ← encoded (consensus_uint (int (pos h.timestamp)))
  height ← encoded (consensus_uint (int (pos h.height)))
  ok tt

-- The checks of the hashes.
unfoldable pub check_hashes : BlockHeader → Result HeaderError (Unit {0})
check_hashes h = do
  throw_if (not (is_canonical_hash h.prev_hash)) not_a_canonical_hash
  throw_if (not (is_canonical_hash h.merkle_root)) not_a_canonical_hash
  throw_if (not (is_canonical_hash h.compute_root)) not_a_canonical_hash
  throw_if (not (is_canonical_hash h.epoch_root)) not_a_canonical_hash
  throw_if (not (is_canonical_hash h.audit_root)) not_a_canonical_hash
  ok tt

-- The fields one after the other, and four reserved bytes.
unfoldable pub header_bytes : BlockHeader → Bytes
header_bytes h =
    le_bytes 4 h.version
    ++ (from_hex h.prev_hash
        ++ (from_hex h.merkle_root
            ++ (from_hex h.compute_root
                ++ (from_hex h.epoch_root
                    ++ (from_hex h.audit_root
                        ++ (le_bytes 8 h.timestamp
                            ++ (le_bytes 4 h.difficulty_bits
                                ++ (le_bytes 4 h.nonce
                                    ++ (le_bytes 8 h.height ++ le_bytes 4 0)))))))))

unfoldable pub serialize_block_header : BlockHeader → Result HeaderError Bytes
serialize_block_header h = do check_numbers h; check_hashes h; ok (header_bytes h)

-- The fields, and the reserved number.
unfoldable pub read_header : Reader (BlockHeader × ℕ)
read_header buf = do
  (version, buf₁) ← read_u32 buf
  (prev_hash, buf₂) ← read_hex 32 buf₁
  (merkle_root, buf₃) ← read_hex 32 buf₂
  (compute_root, buf₄) ← read_hex 32 buf₃
  (epoch_root, buf₅) ← read_hex 32 buf₄
  (audit_root, buf₆) ← read_hex 32 buf₅
  (timestamp, buf₇) ← read_le 8 buf₆
  (difficulty_bits, buf₈) ← read_u32 buf₇
  (nonce, buf₉) ← read_u32 buf₈
  (height, buf₁₀) ← read_le 8 buf₉
  (reserved, rest) ← read_u32 buf₁₀
  ok (
    (
      record {
        version = version;
        prev_hash = prev_hash;
        merkle_root = merkle_root;
        compute_root = compute_root;
        epoch_root = epoch_root;
        audit_root = audit_root;
        timestamp = timestamp;
        difficulty_bits = difficulty_bits;
        nonce = nonce;
        height = height;
      },
      reserved,
    ),
    rest,
  )

-- The checks after the fields are read. `Number` rounds above 2^53, where the check refuses in any case.
unfoldable pub check_read : BlockHeader → ℕ → Result HeaderError BlockHeader
check_read h reserved = do
  throw_if (not (reserved == 0)) reserved_not_zero
  timestamp ← encoded (consensus_uint (int (pos h.timestamp)))
  height ← encoded (consensus_uint (int (pos h.height)))
  ok h

abbrev pub checked :
    Result TransactionError ((BlockHeader × ℕ) × Bytes) → Result HeaderError BlockHeader
checked (err e) = err (reading e)
checked (ok r) = check_read r.0.0 r.0.1

unfoldable pub deserialize_block_header : Bytes → Result HeaderError BlockHeader
deserialize_block_header buf = do
  throw_if (not (length buf == block_header_size)) invalid_length
  checked (read_header buf)

-- `hashRawHeader`, and `hashBlockHeader`.
module _ (sha256 : Bytes → Bytes) where
  unfoldable pub hash_raw_header : Bytes → Text
  hash_raw_header raw = to_hex (sha256 (sha256 raw))

  unfoldable pub hash_block_header : BlockHeader → Result HeaderError Text
  hash_block_header h = do serialized ← serialize_block_header h; ok (hash_raw_header serialized)

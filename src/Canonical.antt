-- ===== src/Canonical.antt =====
-- packages/jgc-node/src/protocol/canonical.ts: the byte order of strings, safe integers, and the
-- writer of the consensus encodings. The writer's chunks are kept as the bytes that `build` joins.
pub mod Order
pub mod Encoding
use Prim.Native.Nat.{compare, Ordering}
use junctiongenerator.Base.{
  ℕ, zero, suc, ◌+◌, ◌-◌, ◌*◌, ◌/◌, ◌%◌, ◌^◌, Bool, true, false, List, [], ◌∷◌, ◌++◌, ltb, leb, not,
  length, Result, ok, err, ◌>>=◌, ◌>>◌, throw_if,
}
use junctiongenerator.Base.Int.{ℤ, pos, negsuc}
use junctiongenerator.Base.Texts.{Bytes, Text}

-- `Buffer.compare`: less than, equal to or greater than zero.
unfoldable pub compare_canonical_bytes : Bytes → Bytes → Ordering
compare_canonical_bytes [] [] = Ordering.eq
compare_canonical_bytes [] (y ∷ ys) = Ordering.lt
compare_canonical_bytes (x ∷ xs) [] = Ordering.gt
compare_canonical_bytes (x ∷ xs) (y ∷ ys) = elim (compare x y) [
  | Ordering.lt ↦ Ordering.lt
  | Ordering.eq ↦ compare_canonical_bytes xs ys
  | Ordering.gt ↦ Ordering.gt
]

pub data EncodingError : Type 0 where
  not_a_safe_integer not_uint32 not_uint64 not_uint128 : EncodingError

-- A JavaScript number: an integer, or one that is none (a fraction, an infinity, NaN).
pub data Number : Type 0 where
  int : ℤ → Number
  not_an_integer : Number

abbrev pub max_safe_integer : ℕ
max_safe_integer = 2 ^ 53 - 1

unfoldable pub consensus_uint : Number → Result EncodingError ℕ
consensus_uint (int (pos n)) = do throw_if (ltb max_safe_integer n) not_a_safe_integer; ok n
consensus_uint (int (negsuc n)) = err not_a_safe_integer
consensus_uint not_an_integer = err not_a_safe_integer

-- A number in `width` bytes, the most significant first.
unfoldable pub be_bytes : ℕ → ℕ → Bytes
be_bytes zero n = []
be_bytes (suc width) n = (n / 256 ^ width % 256) ∷ be_bytes width n

-- A method of `CanonicalWriter`: it appends to what is written, or throws.
abbrev pub Write : Type 0
Write = Bytes → Result EncodingError Bytes

infixl 5 ◌then_write◌
abbrev pub ◌then_write◌ : Write → Write → Write
◌then_write◌ m k out = m out >>= k

unfoldable pub u32 : ℕ → Write
unfolding be_bytes
u32 value out = do throw_if (ltb 0xffff_ffff value) not_uint32; ok (out ++ be_bytes 4 value)

-- The argument is a `number`: it must be a safe integer as well.
unfoldable pub u64 : ℕ → Write
unfolding be_bytes consensus_uint
u64 value out = do
  n ← consensus_uint (int (pos value))
  throw_if (ltb 0xffff_ffff_ffff_ffff n) not_uint64
  ok (out ++ be_bytes 8 n)

-- Two words of 64 bits, the upper first.
unfoldable pub u128 : ℤ → Write
unfolding be_bytes
u128 (negsuc n) out = err not_uint128
u128 (pos value) out = do
  throw_if (ltb (2 ^ 128 - 1) value) not_uint128
  ok (out ++ (be_bytes 8 (value / 2 ^ 64) ++ be_bytes 8 (value % 2 ^ 64)))

unfoldable pub write_string : Text → Write
unfolding u32
write_string value out = do out' ← u32 (length value) out; ok (out' ++ value)

unfoldable pub domain : Text → Write
unfolding write_string
domain = write_string

-- `new CanonicalWriter()` … `.build()`
abbrev pub build : Write → Result EncodingError Bytes
build w = w []

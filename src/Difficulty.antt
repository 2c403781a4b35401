-- ===== src/Difficulty.antt =====
-- packages/jgc-node/src/consensus/emission.ts: the difficulty target in micro-TFLOPS (bigint), its
-- compact encoding, and the retargeting. A target is a natural: the code rejects zero and the
-- negative alike. The floating-point entry points are left out.
pub mod Compact
pub mod Retarget
mod Examples
use junctiongenerator.Base.{
  ℕ, zero, suc, ◌+◌, ◌-◌, ◌*◌, ◌/◌, ◌%◌, ◌^◌, Bool, true, false, ltb, leb, ◌==◌, ◌&&◌, ◌||◌, not,
  if◌then◌else◌, Result, ok, err, ◌>>=◌, ◌>>◌, throw_if,
}
use junctiongenerator.Base.Int.{ℤ, pos_part, neg_part}
use junctiongenerator.Emission.{target_block_interval_seconds}

pub data RangeError : Type 0 where
  target_not_positive target_too_large bits_not_uint32 timespan_not_safe : RangeError

-- `while (temp > 0n) { temp >>= 8n; size += 1; }`
size_loop : ℕ → ℕ → ℕ → ℕ
size_loop zero temp size = size
size_loop (suc fuel) temp size = elim (temp == 0) [
  | true ↦ size
  | false ↦ size_loop fuel (temp / 256) (size + 1)
]

unfoldable pub byte_size : ℕ → ℕ
unfolding size_loop
byte_size target = size_loop target target 0

-- The three leading bytes: the shift, then `& 0x00ff_ffff`.
unfoldable pub compact_mantissa : ℕ → ℕ → ℕ
compact_mantissa target size =
    (if ltb 3 size then target / 2 ^ ((size - 3) * 8) else target * 2 ^ ((3 - size) * 8)) % 2 ^ 24

-- `(size << 24) | mantissa`: the mantissa has 24 bits, so `|` is the sum, and size is at most 255,
-- so `>>> 0` leaves the unsigned value.
unfoldable pub encode_difficulty_bits_exact : ℕ → Result RangeError ℕ
unfolding byte_size compact_mantissa
encode_difficulty_bits_exact target = do
  throw_if (target == 0) target_not_positive
  throw_if (ltb 0xff (byte_size target)) target_too_large
  ok (byte_size target * 2 ^ 24 + compact_mantissa target (byte_size target))

unfoldable pub decode_difficulty_bits_exact : ℕ → Result RangeError ℕ
decode_difficulty_bits_exact bits = do
  throw_if (ltb 0xffff_ffff bits) bits_not_uint32
  let exponent = bits / 2 ^ 24 % 256
  let mantissa = bits % 2 ^ 24
  ok (if ltb exponent 3 then mantissa / 256 ^ (3 - exponent) else mantissa * 256 ^ (exponent - 3))

-- `encodeDifficultyBitsExact(targetMicros) === compactBits`, `false` where it throws.
abbrev pub encodes_to : Result RangeError ℕ → ℕ → Bool
encodes_to (ok b) bits = b == bits
encodes_to (err _) bits = false

abbrev pub canonical_target : Result RangeError ℕ → ℕ → Bool
canonical_target (ok target) bits =
    ltb 0 target && encodes_to (encode_difficulty_bits_exact target) bits
canonical_target (err _) bits = false

unfoldable pub is_canonical_difficulty_bits : ℕ → Bool
is_canonical_difficulty_bits bits = canonical_target (decode_difficulty_bits_exact bits) bits

abbrev pub retarget_window_blocks : ℕ
retarget_window_blocks = 2016

abbrev pub retarget_target_seconds : ℕ
retarget_target_seconds = retarget_window_blocks * target_block_interval_seconds

-- `Number.isSafeInteger` of an integer.
abbrev pub is_safe_integer : ℤ → Bool
is_safe_integer n = leb (pos_part n + neg_part n) (2 ^ 53 - 1)

unfoldable pub clamp_timespan : ℕ → ℕ
clamp_timespan actual =
    let min_timespan = retarget_target_seconds / 4 in
    let max_timespan = retarget_target_seconds * 4 in
    if ltb actual min_timespan
    then min_timespan
    else if ltb max_timespan actual
    then max_timespan
    else actual

unfoldable pub calculate_next_difficulty_target_exact : ℕ → ℤ → Result RangeError ℕ
unfolding clamp_timespan
calculate_next_difficulty_target_exact old_target actual_timespan = do
  throw_if (old_target == 0) target_not_positive
  throw_if (not (is_safe_integer actual_timespan)) timespan_not_safe
  let next = old_target * retarget_target_seconds / clamp_timespan (pos_part actual_timespan)
  ok (if ltb 0 next then next else 1)

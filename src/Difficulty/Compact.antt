-- ===== src/Difficulty/Compact.antt =====
-- What the compact encoding keeps of a target.
mod Bytes
use junctiongenerator.Base.{
  ℕ, zero, suc, ◌+◌, ◌-◌, ◌*◌, ◌/◌, ◌%◌, ◌^◌, ◌≤◌, ◌<◌, ◌≡◌, refl, ◌↔◌, inl, inr, ◌⊎◌, lt→ltb, true,
  false, arith, ltb, ◌==◌, if◌then◌else◌, Bool-cases, Result, ok, err,
}
use mathlib.Core.Bool.{false≢true}
use native.Mathlib.Nat.{
  pow-suc, mul-le-mul_right, pow-le-pow_right, one-le-pow, mod-eq_of_lt, div-mul-le_self,
  lt-div-mul-add, le-div_iff_mul-le, div-lt_iff_lt-mul, mul-div_cancel,
}
use native.Mathlib.Numerals.{towards_suc}
use native.Mathlib.Decide.{dec_le, dec_lt}
use junctiongenerator.Difficulty.{
  RangeError, target_not_positive, target_too_large, size_loop, byte_size, compact_mantissa,
  encode_difficulty_bits_exact, decode_difficulty_bits_exact, canonical_target,
  is_canonical_difficulty_bits,
}
use Bytes.{
  HasBytes, has_bytes, decode_encoded, leading, leading_bounds, leading_exact, bytes_le,
  byte_size-eq, leading_twice,
}

encode_ok :
    (target k : ℕ)
    → k < 255
    → 256 ^ k ≤ target
    → target < 256 ^ suc k
    → encode_difficulty_bits_exact target ≡ ok (suc k * 2 ^ 24 + compact_mantissa target (suc k))
unfolding encode_difficulty_bits_exact
encode_ok target k small lo hi =
    let size = byte_size-eq target k lo hi in
    let positive : (target == 0) ≡ false = ground (arith, one-le-pow k 256 (omega arith)) in
    let fits : ltb 0xff (suc k) ≡ false = ground arith in rw (positive, size, fits)

below_limit : (target k : ℕ) → 256 ^ k ≤ target → target < 256 ^ 255 → k < 255
below_limit target k lo limit = elim (dec_le 255 k) [
  | yes p ↦ absurd (omega (arith, pow-le-pow_right {n = 256} (omega arith) {i = 255} {j = k} p))
  | no p ↦ omega arith
]

encode_throws :
    (target : ℕ)
    → (target ≡ 0) ⊎ (256 ^ 255 ≤ target)
    → (e : RangeError) × (encode_difficulty_bits_exact target ≡ err e)
unfolding encode_difficulty_bits_exact
encode_throws target (inl zero_target) = (target_not_positive, rw zero_target)
encode_throws target (inr large) =
    let p : 0 < target = omega arith in
    let (k, h) = has_bytes target p in
    let positive : (target == 0) ≡ false = ground arith in
    let over : ltb 0xff (suc k) ≡ true =
      lt→ltb 255 (suc k) (omega (arith, bytes_le target 255 k large h.upper)) in
    (target_too_large, rw (positive, h.size, over))

-- What the encoder did, for a target that it accepts.
encode_inv :
    (target bits : ℕ)
    → encode_difficulty_bits_exact target ≡ ok bits
    → (0 < target) × (target < 256 ^ 255)
encode_inv target bits e = elim (dec_lt 0 target) [
  | no p ↦ absurd (refused (inl (omega arith)))
  | yes p ↦ elim (dec_lt target (256 ^ 255)) [
    | yes q ↦ (p, q)
    | no q ↦ absurd (refused (inr (omega arith)))
  ]
]
  where
    refused : (target ≡ 0) ⊎ (256 ^ 255 ≤ target) → ⊥
    refused out = let (x, e') = encode_throws target out in cc

-- Every target from 1 to 256 ^ 255 - 1 is encoded, and its bits decode to a value that is at most the
-- target and less than 1 part in 65,536 below it; it is the target itself if that is below 2 ^ 24.
pub decode-encode_difficulty_bits_exact :
    (target : ℕ)
    → 0 < target
    → target < 256 ^ 255
    → (bits value : ℕ) × (encode_difficulty_bits_exact target ≡ ok bits)
      × (decode_difficulty_bits_exact bits ≡ ok value)
      × (value ≤ target)
      × ((target - value) * 2 ^ 16 < target)
      × ((value ≡ target) ⊎ (2 ^ 24 ≤ target))
decode-encode_difficulty_bits_exact target p limit =
    let (k, h) = has_bytes target p in
    let small = below_limit target k h.lower limit in
    let (_, le, near) = leading_bounds target k h.lower in
    (
      suc k * 2 ^ 24 + compact_mantissa target (suc k),
      leading target (suc k),
      encode_ok target k small h.lower h.upper,
      decode_encoded target k small h.upper,
      le,
      near,
      leading_exact target k h.lower,
    )

canonical_inv :
    (r : Result RangeError ℕ) (bits : ℕ)
    → canonical_target r bits ≡ true
    → (target : ℕ) × (encode_difficulty_bits_exact target ≡ ok bits)
canonical_inv (err e) bits h = absurd (false≢true h)
canonical_inv (ok target) bits h = (target, ground arith)

canonical_of :
    (r : Result RangeError ℕ) (bits value : ℕ)
    → r ≡ ok value
    → 0 < value
    → encode_difficulty_bits_exact value ≡ ok bits
    → canonical_target r bits ≡ true
canonical_of r bits value e p e' = rw (e, e') (ground arith)

-- Encoding once more gives the same bits.
encoded_canonical :
    (target bits : ℕ)
    → encode_difficulty_bits_exact target ≡ ok bits
    → is_canonical_difficulty_bits bits ≡ true
unfolding is_canonical_difficulty_bits
encoded_canonical target bits e =
    let (p, limit) = encode_inv target bits e in
    let (k, h) = has_bytes target p in
    let small = below_limit target k h.lower limit in
    let (lo, le, _) = leading_bounds target k h.lower in
    let first = encode_ok target k small h.lower h.upper in
    let again = encode_ok (leading target (suc k)) k small lo (omega (arith, h.upper)) in
    let same = leading_twice target k h.upper in
    let back = decode_encoded target k small h.upper in
    let value = leading target (suc k) in
    let same_bits : suc k * 2 ^ 24 + compact_mantissa target (suc k) ≡ bits = ground arith in
    canonical_of (decode_difficulty_bits_exact bits) bits value (rw same_bits at back)
      (omega (arith, one-le-pow k 256 (omega arith))) (rw (again, same, same_bits))

-- The bits that are accepted as canonical are exactly those that the encoder returns.
pub is_canonical_difficulty_bits_iff :
    (bits : ℕ)
    → (is_canonical_difficulty_bits bits ≡ true)
      ↔ ((target : ℕ) × (encode_difficulty_bits_exact target ≡ ok bits))
unfolding is_canonical_difficulty_bits
is_canonical_difficulty_bits_iff bits = (
  canonical_inv (decode_difficulty_bits_exact bits) bits,
  λ (target, e). encoded_canonical target bits e,
)

-- The encoder throws exactly on zero and on targets of more than 255 bytes.
pub encode_difficulty_bits_exact_throws :
    (target : ℕ)
    → ((e : RangeError) × (encode_difficulty_bits_exact target ≡ err e))
      ↔ ((target ≡ 0) ⊎ (256 ^ 255 ≤ target))
encode_difficulty_bits_exact_throws target = (λ (x, e). out x e, encode_throws target)
  where
    out :
        (x : RangeError)
        → encode_difficulty_bits_exact target ≡ err x
        → (target ≡ 0) ⊎ (256 ^ 255 ≤ target)
    out x e = elim (dec_lt 0 target) [
      | no p ↦ inl (omega arith)
      | yes p ↦ elim (dec_lt target (256 ^ 255)) [
        | no q ↦ inr (omega arith)
        | yes q ↦ let r = decode-encode_difficulty_bits_exact target p q in cc (r.2)
      ]
    ]

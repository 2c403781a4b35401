-- ===== src/Difficulty/Compact/Bytes.antt =====
-- The bytes of a target, and what the mantissa keeps of them (emission.ts, compact nBits).
use junctiongenerator.Base.{
  ℕ, zero, suc, ◌+◌, ◌-◌, ◌*◌, ◌/◌, ◌%◌, ◌^◌, ◌≤◌, ◌<◌, ◌≡◌, refl, inl, inr, ◌⊎◌, true, false,
  arith, ltb, ◌==◌, if◌then◌else◌, Bool-cases, ok,
}
use native.Mathlib.Nat.{
  pow-suc, mul-le-mul_right, pow-le-pow_right, one-le-pow, mod-eq_of_lt, div-mul-le_self,
  lt-div-mul-add, le-div_iff_mul-le, div-lt_iff_lt-mul, mul-div_cancel,
}
use native.Mathlib.Numerals.{towards_suc}
use native.Mathlib.Decide.{dec_le}
use junctiongenerator.Difficulty.{
  size_loop, byte_size, compact_mantissa, decode_difficulty_bits_exact,
}

size_loop_zero : (fuel size : ℕ) → size_loop fuel 0 size ≡ size
unfolding size_loop
size_loop_zero zero size = refl
size_loop_zero (suc fuel) size = refl

-- `size_loop` counts the base-256 digits.
size_loop_lem :
    (fuel temp size : ℕ)
    → 0 < temp
    → temp ≤ fuel
    → (k : ℕ) × (size_loop fuel temp size ≡ size + suc k) × (256 ^ k ≤ temp) × (temp < 256 ^ suc k)
unfolding size_loop
size_loop_lem zero temp size p h = absurd (omega arith)
size_loop_lem (suc fuel) temp size p h = elim (Bool-cases (temp / 256 == 0)) [
  | inl small ↦ (0, ground (arith, size_loop_zero fuel (size + 1)), omega arith, ground arith)
  | inr more ↦
      let (k, e, lo, hi) =
        size_loop_lem fuel (temp / 256) (size + 1) (ground arith) (omega arith) in
      (
        suc k,
        ground arith,
        rw (pow-suc 256 k) (omega arith),
        rw (pow-suc 256 (suc k)) (omega arith),
      )
]

-- 2 ^ (8 * k) is 256 ^ k.
pow_bytes : (k : ℕ) → 2 ^ (k * 8) ≡ 256 ^ k
pow_bytes zero = refl
pow_bytes (suc k) =
    let e : suc k * 8 ≡ k * 8 + 8 = omega arith in
    rw (e, pow-suc 256 k, ← pow_bytes k) (simp towards_suc (omega arith))

-- The weight of the lowest byte kept.
abbrev pub unit : ℕ → ℕ
unit size = 256 ^ (size - 3)

-- A target of k + 1 bytes.
pub record HasBytes (target k : ℕ) : Type 0 where
  pub size : byte_size target ≡ suc k
  pub lower : 256 ^ k ≤ target
  pub upper : target < 256 ^ suc k

pub has_bytes : (target : ℕ) → 0 < target → (k : ℕ) × HasBytes target k
unfolding byte_size
has_bytes target p =
    let (k, e, lo, hi) = size_loop_lem target target 0 p (omega arith) in
    (k, record { size = omega (arith, e); lower = lo; upper = hi })

three_more : (j : ℕ) → 256 ^ suc (suc (suc j)) ≡ 2 ^ 24 * 256 ^ j
three_more j = rw (pow-suc 256 (suc (suc j)), pow-suc 256 (suc j), pow-suc 256 j) (omega arith)

two_more : (j : ℕ) → 256 ^ suc (suc j) ≡ 2 ^ 16 * 256 ^ j
two_more j = rw (pow-suc 256 (suc j), pow-suc 256 j) (omega arith)

-- Three bytes or more: the mantissa is the quotient by the unit, and fits 24 bits.
mantissa_large :
    (target j : ℕ)
    → target < 256 ^ suc (suc (suc j))
    → (compact_mantissa target (suc (suc (suc j))) ≡ target / 256 ^ j) × (target / 256 ^ j < 2 ^ 24)
unfolding compact_mantissa
mantissa_large target zero hi = (omega arith, omega arith)
mantissa_large target (suc j) hi =
    let fits : target / 256 ^ suc j < 2 ^ 24 =
      (div-lt_iff_lt-mul (one-le-pow (suc j) 256 (omega arith))).1
        (omega (arith, three_more (suc j))) in
    let shift : (suc (suc (suc (suc j))) - 3) * 8 ≡ suc j * 8 = omega arith in
    let test : ltb 3 (suc (suc (suc (suc j)))) ≡ true = ground arith in
    (rw (test, shift, pow_bytes (suc j)) (mod-eq_of_lt fits), fits)

-- Fewer: the mantissa is the target shifted up to three bytes.
mantissa_small :
    (target k : ℕ)
    → k < 2
    → target < 256 ^ suc k
    → (compact_mantissa target (suc k) ≡ target * 256 ^ (2 - k)) × (target * 256 ^ (2 - k) < 2 ^ 24)
unfolding compact_mantissa
mantissa_small target zero small hi = (omega arith, omega arith)
mantissa_small target (suc zero) small hi = (omega arith, omega arith)
mantissa_small target (suc (suc k)) small hi = absurd (omega arith)

-- Decoding the two parts.
decode_parts :
    (size mantissa : ℕ)
    → size < 256
    → mantissa < 2 ^ 24
    → decode_difficulty_bits_exact (size * 2 ^ 24 + mantissa)
      ≡ ok (if ltb size 3 then mantissa / 256 ^ (3 - size) else mantissa * 256 ^ (size - 3))
unfolding decode_difficulty_bits_exact
decode_parts size mantissa hs hm =
    let test : ltb 0xffff_ffff (size * 2 ^ 24 + mantissa) ≡ false = ground arith in
    let exponent : (size * 2 ^ 24 + mantissa) / 2 ^ 24 % 256 ≡ size = omega arith in
    let low : (size * 2 ^ 24 + mantissa) % 2 ^ 24 ≡ mantissa = omega arith in
    rw (test, exponent, low)

-- The decoded value: the target with the bytes below its unit cleared.
abbrev pub leading : ℕ → ℕ → ℕ
leading target size = target / unit size * unit size

pub decode_encoded :
    (target k : ℕ)
    → k < 255
    → target < 256 ^ suc k
    → decode_difficulty_bits_exact (suc k * 2 ^ 24 + compact_mantissa target (suc k))
      ≡ ok (leading target (suc k))
decode_encoded target zero small hi =
    let (m, fits) = mantissa_small target 0 (omega arith) hi in
    rw (m, decode_parts 1 (target * 256 ^ 2) (omega arith) fits) (ground arith)
decode_encoded target (suc zero) small hi =
    let (m, fits) = mantissa_small target 1 (omega arith) hi in
    rw (m, decode_parts 2 (target * 256 ^ 1) (omega arith) fits) (ground arith)
decode_encoded target (suc (suc j)) small hi =
    let (m, fits) = mantissa_large target j hi in
    let up : suc (suc (suc j)) - 3 ≡ j = omega arith in
    let test : ltb (suc (suc (suc j))) 3 ≡ false = ground arith in
    rw (m, decode_parts (suc (suc (suc j))) (target / 256 ^ j) (omega arith) fits, test, up)

-- Clearing the low bytes keeps the order of magnitude and loses less than 1 part in 65,536.
pub leading_bounds :
    (target k : ℕ)
    → 256 ^ k ≤ target
    → (256 ^ k ≤ leading target (suc k))
      × (leading target (suc k) ≤ target)
      × ((target - leading target (suc k)) * 2 ^ 16 < target)
leading_bounds target zero lo = (omega arith, omega arith, omega arith)
leading_bounds target (suc zero) lo = (omega arith, omega arith, omega arith)
leading_bounds target (suc (suc j)) lo =
    let up : suc (suc (suc j)) - 3 ≡ j = omega arith in
    let u = 256 ^ j in
    let p : 0 < u = one-le-pow j 256 (omega arith) in
    let most : 2 ^ 16 * u ≤ target = omega (arith, two_more j) in
    let q : 2 ^ 16 ≤ target / u = (le-div_iff_mul-le p).1 most in
    let down = div-mul-le_self target u in
    let near = lt-div-mul-add {a = target} p in
    rw up (omega (arith, two_more j, mul-le-mul_right u q), down, omega arith)

pub leading_exact :
    (target k : ℕ) → 256 ^ k ≤ target → (leading target (suc k) ≡ target) ⊎ (2 ^ 24 ≤ target)
leading_exact target zero lo = inl (omega arith)
leading_exact target (suc zero) lo = inl (omega arith)
leading_exact target (suc (suc zero)) lo = inl (omega arith)
leading_exact target (suc (suc (suc j))) lo =
    inr (omega (arith, three_more j, one-le-pow j 256 (omega arith)))

pub bytes_le : (x k m : ℕ) → 256 ^ k ≤ x → x < 256 ^ suc m → k ≤ m
bytes_le x k m lo hi = elim (dec_le k m) [
  | yes p ↦ p
  | no p ↦
      absurd
        (omega (arith, pow-le-pow_right {n = 256} (omega arith) {i = suc m} {j = k} (omega arith)))
]

pub byte_size-eq : (x k : ℕ) → 256 ^ k ≤ x → x < 256 ^ suc k → byte_size x ≡ suc k
byte_size-eq x k lo hi =
    let (m, h) = has_bytes x (omega (arith, one-le-pow k 256 (omega arith), lo)) in
    omega (arith, h.size, bytes_le x k m lo h.upper, bytes_le x m k h.lower hi)

pub leading_twice :
    (target k : ℕ)
    → target < 256 ^ suc k
    → compact_mantissa (leading target (suc k)) (suc k) ≡ compact_mantissa target (suc k)
leading_twice target zero hi = let same : target / 1 * 1 ≡ target = omega arith in rw same
leading_twice target (suc zero) hi = let same : target / 1 * 1 ≡ target = omega arith in rw same
leading_twice target (suc (suc j)) hi =
    let up : suc (suc (suc j)) - 3 ≡ j = omega arith in
    let u = 256 ^ j in
    let p : 0 < u = one-le-pow j 256 (omega arith) in
    let (m, _) = mantissa_large target j hi in
    let (m', _) = mantissa_large (target / u * u) j (omega (arith, div-mul-le_self target u)) in
    rw (up, m, m') (mul-div_cancel (target / u) p)

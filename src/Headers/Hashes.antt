-- ===== src/Headers/Hashes.antt =====
-- A canonical hash is the text of its 32 bytes.
use junctiongenerator.Base.{
  ℕ, zero, suc, ◌+◌, ◌*◌, ◌/◌, ◌%◌, ◌<◌, ◌≡◌, refl, ap, ap₂, subst, ◌∙◌, Bool-cases, inl, inr, ◌-◌,
  Bool, true, ◌||◌, some, [], ◌∷◌, arith, length,
}
use junctiongenerator.Base.Texts.{Bytes, Text}
use junctiongenerator.Base.Hex.{between, hex_value, hex_digit, from_hex, to_hex, from_hex-cons}
use junctiongenerator.Transactions.Reading.{read_hex}
use junctiongenerator.Transactions.Fields.{Reads, read_hex-Reads, IsHex}
use junctiongenerator.Headers.{all_lower_hex, is_canonical_hash}

abbrev is_lower : ℕ → Bool
is_lower c = between b'0' b'9' c || between b'a' b'f' c

-- A lower-case digit is the digit of its value.
lower_digit :
    (c : ℕ) → is_lower c ≡ true → (h : ℕ) × (hex_value c ≡ some h) × (h < 16) × (hex_digit h ≡ c)
unfolding hex_value hex_digit
lower_digit c h = elim (Bool-cases (between b'0' b'9' c)) [
  | inl p ↦ (c - 48, ground arith, ground arith, ground arith)
  | inr q ↦ (c - 97 + 10, ground arith, ground arith, ground arith)
]

to_hex_pair :
    (h l : ℕ) (bs : Bytes)
    → l < 16
    → to_hex ((h * 16 + l) ∷ bs) ≡ hex_digit h ∷ hex_digit l ∷ to_hex bs
unfolding to_hex
to_hex_pair h l bs k =
    let high : (h * 16 + l) / 16 ≡ h = omega arith in
    let low : (h * 16 + l) % 16 ≡ l = omega arith in rw (high, low)

lower-IsHex :
    (n : ℕ) (t : Text)
    → length t ≡ n + n
    → all_lower_hex t ≡ true
    → IsHex t × (length (from_hex t) ≡ n)
unfolding from_hex to_hex
lower-IsHex n [] h k = (refl, omega arith)
lower-IsHex n (c ∷ []) h k = absurd (omega arith)
lower-IsHex zero (c ∷ d ∷ t) h k = absurd (omega arith)
lower-IsHex (suc n) (c ∷ d ∷ t) h k =
    let (x, ex, bx, dx) = lower_digit c (ground arith) in
    let (y, ey, by, dy) = lower_digit d (ground arith) in
    let (rest, size) = lower-IsHex n t (omega arith) (ground arith) in
    let pair = from_hex-cons c d x y t ex ey in
    (
      ap to_hex pair ∙ to_hex_pair x y (from_hex t) by ∙ ap₂ ◌∷◌ dx (ap₂ ◌∷◌ dy rest),
      ap length pair ∙ ap suc size,
    )

pub canonical_hash : (t : Text) → is_canonical_hash t ≡ true → IsHex t × (length (from_hex t) ≡ 32)
unfolding is_canonical_hash
canonical_hash t h = lower-IsHex 32 t (ground arith) (ground arith)

pub read_hash-Reads : (t : Text) → is_canonical_hash t ≡ true → Reads (read_hex 32) (from_hex t) t
read_hash-Reads t h =
    let (hex, size) = canonical_hash t h in
    subst (λ n. Reads (read_hex n) (from_hex t) t) size (read_hex-Reads t hex)

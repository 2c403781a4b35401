-- ===== src/Blocks/Accepted.antt =====
-- Which headers `validateBlockHeader` accepts.
use junctiongenerator.Base.{
  ℕ, ◌+◌, ◌≤◌, ◌<◌, ◌≡◌, ◌↔◌, refl, ap, ◌∙◌, arith, Bool, true, false, not, ◌||◌, Option, none,
  some, ltb, leb, ◌==◌, Result, ok, err, throw_if, throw_if-ok,
}
use junctiongenerator.Base.Texts.{Bytes, Text, text_eq_iff}
use junctiongenerator.Difficulty.{
  RangeError, decode_difficulty_bits_exact, encode_difficulty_bits_exact,
  is_canonical_difficulty_bits,
}
use junctiongenerator.Difficulty.Compact.{is_canonical_difficulty_bits_iff}
use junctiongenerator.Headers.{BlockHeader, HeaderError, serialize_block_header}
use junctiongenerator.Blocks.{
  genesis_block_version, max_future_secs, is_serialized, is_unlinked, is_positive_target,
  validate_block_header, invalid_difficulty_bits,
}

-- A header that extends the tip: it has a binary form, the version, the height and the link that are
-- expected, is newer than the median and at most two hours ahead, and its difficulty bits are what the
-- encoder returns for some target and stand for more than zero.
pub record Extends (expected_prev_hash : Option Text)
    (expected_height now_unix median_past_time : ℕ) (h : BlockHeader) : Type 0 where
  pub encoded : (bytes : Bytes) × (serialize_block_header h ≡ ok bytes)
  pub version : h.version ≡ 0x0300_0000
  pub height : h.height ≡ expected_height
  pub linked : (expected : Text) → expected_prev_hash ≡ some expected → h.prev_hash ≡ expected
  pub newer : median_past_time < h.timestamp
  pub in_time : h.timestamp ≤ now_unix + 7200
  pub target : (t : ℕ) × (decode_difficulty_bits_exact h.difficulty_bits ≡ ok t) × (0 < t)
  pub canonical : (t : ℕ) × (encode_difficulty_bits_exact t ≡ ok h.difficulty_bits)

serialized_inv :
    (r : Result HeaderError Bytes) → is_serialized r ≡ true → (bytes : Bytes) × (r ≡ ok bytes)
serialized_inv (ok bytes) h = (bytes, refl)
serialized_inv (err e) h = cc

positive_inv :
    (r : Result RangeError ℕ) → is_positive_target r ≡ true → (t : ℕ) × (r ≡ ok t) × (0 < t)
positive_inv (ok t) h = (t, refl, ground (arith, h))
positive_inv (err e) h = cc

linked_inv :
    (expected : Option Text) (prev_hash : Text)
    → is_unlinked expected prev_hash ≡ false
    → (tip : Text) → expected ≡ some tip
    → prev_hash ≡ tip
linked_inv none prev_hash h tip e = cc
linked_inv (some t) prev_hash h tip e =
    let same : t ≡ tip = cc in (text_eq_iff prev_hash t).0 (ground (arith, h)) ∙ same

linked :
    (expected : Option Text) (prev_hash : Text)
    → ((tip : Text) → expected ≡ some tip → prev_hash ≡ tip)
    → is_unlinked expected prev_hash ≡ false
linked none prev_hash h = refl
linked (some t) prev_hash h = ap not ((text_eq_iff prev_hash t).1 (h t refl))

-- The last check, which is not followed by another.
throw_if-none : {E : Type 0} (test : Bool) (e : E) → throw_if test e ≡ ok tt → test ≡ false
throw_if-none true e h = cc
throw_if-none false e h = refl

-- Exactly which headers are accepted.
pub validate_block_header_iff :
    (expected_prev_hash : Option Text) (expected_height now_unix median_past_time : ℕ)
    (h : BlockHeader)
    → (validate_block_header h expected_prev_hash expected_height now_unix median_past_time ≡ ok tt)
      ↔ Extends expected_prev_hash expected_height now_unix median_past_time h
unfolding validate_block_header
validate_block_header_iff expected_prev_hash expected_height now_unix median_past_time h =
    (accepted, accepts)
  where
    bits : ℕ
    bits = h.difficulty_bits

    accepted :
        validate_block_header h expected_prev_hash expected_height now_unix median_past_time ≡ ok tt
        → Extends expected_prev_hash expected_height now_unix median_past_time h
    accepted e =
        let (coded, e₁) = throw_if-ok (not (is_serialized (serialize_block_header h))) _ _ tt e in
        let (versioned, e₂) = throw_if-ok (not (h.version == genesis_block_version)) _ _ tt e₁ in
        let (placed, e₃) = throw_if-ok (not (h.height == expected_height)) _ _ tt e₂ in
        let (linked, e₄) = throw_if-ok (is_unlinked expected_prev_hash h.prev_hash) _ _ tt e₃ in
        let (newer, e₅) = throw_if-ok (leb h.timestamp median_past_time) _ _ tt e₄ in
        let (soon, e₆) = throw_if-ok (ltb (now_unix + max_future_secs) h.timestamp) _ _ tt e₅ in
        let last =
          throw_if-none
            (not (is_positive_target (decode_difficulty_bits_exact bits))
              || not (is_canonical_difficulty_bits bits))
            invalid_difficulty_bits e₆ in
        record {
          encoded = serialized_inv (serialize_block_header h) (ground (arith, coded));
          version = ground (arith, versioned);
          height = ground (arith, placed);
          linked = linked_inv expected_prev_hash h.prev_hash linked;
          newer = ground (arith, newer);
          in_time = ground (arith, soon);
          target = positive_inv (decode_difficulty_bits_exact bits) (ground (arith, last));
          canonical = (is_canonical_difficulty_bits_iff bits).0 (ground (arith, last));
        }

    accepts :
        Extends expected_prev_hash expected_height now_unix median_past_time h
        → validate_block_header h expected_prev_hash expected_height now_unix median_past_time
          ≡ ok tt
    accepts x =
        let (bytes, coded) = x.encoded in
        let (t, decoded, positive) = x.target in
        let canonical = (is_canonical_difficulty_bits_iff bits).1 x.canonical in
        let link = linked expected_prev_hash h.prev_hash x.linked in
        let versioned : (h.version == genesis_block_version) ≡ true = ground (arith, x.version) in
        let placed : (h.height == expected_height) ≡ true = ground (arith, x.height) in
        let newer : leb h.timestamp median_past_time ≡ false = ground (arith, x.newer) in
        let soon : ltb (now_unix + max_future_secs) h.timestamp ≡ false =
          ground (arith, x.in_time) in
        let above : ltb 0 t ≡ true = ground (arith, positive) in
        rw (coded, versioned, placed, link, newer, soon, decoded, above, canonical) refl

-- ===== src/Headers/RoundTrip.antt =====
-- The serialized form of a header: its length and its parsing.
use mathlib.Core.List.{append-nil}
use junctiongenerator.Base.{
  ℕ, ◌^◌, ◌<◌, ◌≤◌, ◌≡◌, refl, sym, ap, subst, ◌∙◌, Bool, true, false, not, [], arith, ltb, ◌==◌,
  length, length-append, ok, throw_if-ok, bind-ok, ok-injective,
}
use junctiongenerator.Base.Int.{pos}
use junctiongenerator.Base.Texts.{Bytes}
use junctiongenerator.Base.Hex.{from_hex}
use junctiongenerator.Canonical.{int, consensus_uint, max_safe_integer}
use junctiongenerator.Transactions.{le_bytes}
use junctiongenerator.Transactions.Reading.{read_u32, read_le, read_hex}
use junctiongenerator.Transactions.Fields.{
  Reads, read_then-Reads, read_map-Reads, read_le-Reads, length-le_bytes,
}
use junctiongenerator.Headers.Hashes.{canonical_hash, read_hash-Reads}
use junctiongenerator.Headers.{
  BlockHeader, is_canonical_hash, encoded, check_numbers, check_hashes, header_bytes,
  serialize_block_header, read_header, check_read, checked, deserialize_block_header,
}

-- The headers that are serialized.
pub record IsHeader (h : BlockHeader) : Type 0 where
  pub version : h.version < 2 ^ 32
  pub prev_hash : is_canonical_hash h.prev_hash ≡ true
  pub merkle_root : is_canonical_hash h.merkle_root ≡ true
  pub compute_root : is_canonical_hash h.compute_root ≡ true
  pub epoch_root : is_canonical_hash h.epoch_root ≡ true
  pub audit_root : is_canonical_hash h.audit_root ≡ true
  pub timestamp : h.timestamp ≤ max_safe_integer
  pub difficulty_bits : h.difficulty_bits < 2 ^ 32
  pub nonce : h.nonce < 2 ^ 32
  pub height : h.height ≤ max_safe_integer

safe-ok : (n m : ℕ) → encoded (consensus_uint (int (pos n))) ≡ ok m → n ≤ max_safe_integer
unfolding consensus_uint
safe-ok n m h = ground arith

safe_ok : (n : ℕ) → n ≤ max_safe_integer → encoded (consensus_uint (int (pos n))) ≡ ok n
unfolding consensus_uint
safe_ok n h = let fits : ltb max_safe_integer n ≡ false = ground arith in rw fits

not-true : (b : Bool) → not b ≡ false → b ≡ true
not-true true h = refl
not-true false h = cc

serialized_lem :
    (h : BlockHeader) (bytes : Bytes)
    → serialize_block_header h ≡ ok bytes
    → IsHeader h × (bytes ≡ header_bytes h)
unfolding serialize_block_header check_numbers check_hashes
serialized_lem h bytes e =
    let (_, numbers, e₁) = bind-ok (check_numbers h) _ bytes e in
    let (_, hashes, e₂) = bind-ok (check_hashes h) _ bytes e₁ in
    let (version, n₁) = throw_if-ok (ltb 0xffff_ffff h.version) _ _ tt numbers in
    let (bits, n₂) = throw_if-ok (ltb 0xffff_ffff h.difficulty_bits) _ _ tt n₁ in
    let (nonce, n₃) = throw_if-ok (ltb 0xffff_ffff h.nonce) _ _ tt n₂ in
    let (t, timestamp, n₄) = bind-ok (encoded (consensus_uint (int (pos h.timestamp)))) _ tt n₃ in
    let (u, height, _) = bind-ok (encoded (consensus_uint (int (pos h.height)))) _ tt n₄ in
    let (prev, h₁) = throw_if-ok (not (is_canonical_hash h.prev_hash)) _ _ tt hashes in
    let (merkle, h₂) = throw_if-ok (not (is_canonical_hash h.merkle_root)) _ _ tt h₁ in
    let (compute, h₃) = throw_if-ok (not (is_canonical_hash h.compute_root)) _ _ tt h₂ in
    let (epoch, h₄) = throw_if-ok (not (is_canonical_hash h.epoch_root)) _ _ tt h₃ in
    let (audit, _) = throw_if-ok (not (is_canonical_hash h.audit_root)) _ _ tt h₄ in
    (
      record {
        version = ground (arith, version);
        prev_hash = not-true _ prev;
        merkle_root = not-true _ merkle;
        compute_root = not-true _ compute;
        epoch_root = not-true _ epoch;
        audit_root = not-true _ audit;
        timestamp = safe-ok h.timestamp t timestamp;
        difficulty_bits = ground (arith, bits);
        nonce = ground (arith, nonce);
        height = safe-ok h.height u height;
      },
      ok-injective e₂,
    )

header_size : (h : BlockHeader) → IsHeader h → length (header_bytes h) ≡ 192
unfolding header_bytes
header_size h v =
    let prev = (canonical_hash h.prev_hash v.prev_hash).1 in
    let merkle = (canonical_hash h.merkle_root v.merkle_root).1 in
    let compute = (canonical_hash h.compute_root v.compute_root).1 in
    let epoch = (canonical_hash h.epoch_root v.epoch_root).1 in
    let audit = (canonical_hash h.audit_root v.audit_root).1 in
    rw
      (
        length-append (le_bytes 4 h.version),
        length-append (from_hex h.prev_hash),
        length-append (from_hex h.merkle_root),
        length-append (from_hex h.compute_root),
        length-append (from_hex h.epoch_root),
        length-append (from_hex h.audit_root),
        length-append (le_bytes 8 h.timestamp),
        length-append (le_bytes 4 h.difficulty_bits),
        length-append (le_bytes 4 h.nonce),
        length-append (le_bytes 8 h.height),
      )
      (omega (
        arith,
        length-le_bytes 4 h.version,
        length-le_bytes 8 h.timestamp,
        length-le_bytes 4 h.difficulty_bits,
        length-le_bytes 4 h.nonce,
        length-le_bytes 8 h.height,
        length-le_bytes 4 0,
      ))

read_header-Reads : (h : BlockHeader) → IsHeader h → Reads read_header (header_bytes h) (h, 0)
unfolding read_header header_bytes read_u32
read_header-Reads h v =
    read_then-Reads (read_le 4) _ h.version (h, 0) _ _
      (read_le-Reads 4 h.version (omega (arith, v.version)))
      (read_then-Reads (read_hex 32) _ h.prev_hash (h, 0) _ _
        (read_hash-Reads h.prev_hash v.prev_hash)
        (read_then-Reads (read_hex 32) _ h.merkle_root (h, 0) _ _
          (read_hash-Reads h.merkle_root v.merkle_root)
          (read_then-Reads (read_hex 32) _ h.compute_root (h, 0) _ _
            (read_hash-Reads h.compute_root v.compute_root)
            (read_then-Reads (read_hex 32) _ h.epoch_root (h, 0) _ _
              (read_hash-Reads h.epoch_root v.epoch_root)
              (read_then-Reads (read_hex 32) _ h.audit_root (h, 0) _ _
                (read_hash-Reads h.audit_root v.audit_root)
                (read_then-Reads (read_le 8) _ h.timestamp (h, 0) _ _
                  (read_le-Reads 8 h.timestamp (omega (arith, v.timestamp)))
                  (read_then-Reads (read_le 4) _ h.difficulty_bits (h, 0) _ _
                    (read_le-Reads 4 h.difficulty_bits (omega (arith, v.difficulty_bits)))
                    (read_then-Reads (read_le 4) _ h.nonce (h, 0) _ _
                      (read_le-Reads 4 h.nonce (omega (arith, v.nonce)))
                      (read_then-Reads (read_le 8) _ h.height (h, 0) _ _
                        (read_le-Reads 8 h.height (omega (arith, v.height)))
                        (read_map-Reads (read_le 4) (λ reserved. (h, reserved)) 0 _
                          (read_le-Reads 4 0 (omega arith))))))))))))

check_read_ok : (h : BlockHeader) → IsHeader h → check_read h 0 ≡ ok h
unfolding check_read
check_read_ok h v = rw (safe_ok h.timestamp v.timestamp, safe_ok h.height v.height) refl

-- The bytes of every header that is serialized are 192, and parsing them gives the header back.
pub deserialize-serialize_block_header :
    (h : BlockHeader) (bytes : Bytes)
    → serialize_block_header h ≡ ok bytes
    → (length bytes ≡ 192) × (deserialize_block_header bytes ≡ ok h)
unfolding deserialize_block_header
deserialize-serialize_block_header h bytes e =
    let (v, same) = serialized_lem h bytes e in
    let size = ap length same ∙ header_size h v in
    let fits : (length bytes == 192) ≡ true = ground arith in
    let read =
      subst (λ b. read_header b ≡ ok ((h, 0), [])) (append-nil (header_bytes h) ∙ sym same)
        (read_header-Reads h v []) in
    (size, rw fits (ap checked read ∙ check_read_ok h v))

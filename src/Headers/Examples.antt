-- ===== src/Headers/Examples.antt =====
-- Runs of the header format, and the round trip at a concrete header.
use junctiongenerator.Base.{ℕ, zero, suc, ◌≡◌, refl, [], ◌∷◌, ok, err, length}
use junctiongenerator.Base.Texts.{Text}
use junctiongenerator.Canonical.{consensus_uint}
use junctiongenerator.Headers.{
  BlockHeader, is_canonical_hash, check_numbers, check_hashes, header_bytes, serialize_block_header,
  deserialize_block_header, not_a_canonical_hash, invalid_length,
}
use junctiongenerator.Headers.RoundTrip.{deserialize-serialize_block_header}

abbrev digits : ℕ → ℕ → Text
digits zero c = []
digits (suc n) c = c ∷ digits n c

abbrev genesis_like : BlockHeader
genesis_like = record {
  version = 0x0300_0000;
  prev_hash = digits 64 b'0';
  merkle_root = digits 64 b'1';
  compute_root = digits 64 b'2';
  epoch_root = digits 64 b'a';
  audit_root = digits 64 b'f';
  timestamp = 1_781_136_000;
  difficulty_bits = 0x043b_9aca;
  nonce = 0;
  height = 0;
}

genesis_like_serialized : serialize_block_header genesis_like ≡ ok (header_bytes genesis_like)
unfolding serialize_block_header check_numbers check_hashes is_canonical_hash consensus_uint
genesis_like_serialized = refl

-- Upper-case digits are refused.
upper_case_refused :
    serialize_block_header (record genesis_like { audit_root = digits 64 b'F' })
    ≡ err not_a_canonical_hash
unfolding serialize_block_header check_numbers check_hashes is_canonical_hash consensus_uint
upper_case_refused = refl

short_refused : deserialize_block_header [] ≡ err invalid_length
unfolding deserialize_block_header
short_refused = refl

deserialize-serialize_block_header_example :
    (length (header_bytes genesis_like) ≡ 192)
    × (deserialize_block_header (header_bytes genesis_like) ≡ ok genesis_like)
deserialize-serialize_block_header_example =
    deserialize-serialize_block_header genesis_like (header_bytes genesis_like)
      genesis_like_serialized

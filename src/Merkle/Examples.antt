-- ===== src/Merkle/Examples.antt =====
-- A tree of three leaves, and the theorems at it. SHA-256 is replaced by a sum.
use junctiongenerator.Base.{
  ℕ, zero, suc, length, ◌+◌, ◌*◌, ◌%◌, ◌≡◌, ◌⊎◌, refl, true, false, List, [], ◌∷◌, arith, ok, err,
}
use junctiongenerator.Base.Texts.{Bytes, Text, text_eq}
use junctiongenerator.Base.Hex.{AllBytes, hex_value, hex_digit, from_hex, to_hex}
use junctiongenerator.Headers.{is_canonical_hash}
use junctiongenerator.Merkle.{
  MerkleProof, zero_root, leaf_out_of_range, pad, nth, get_merkle_proof, sha256d, combine_pair,
  combine_row, build_rows, build_merkle_tree, get_merkle_root, verify_loop, verify_merkle_proof,
}
use junctiongenerator.Merkle.Completeness.{verify-get_merkle_proof}
use junctiongenerator.Merkle.Soundness.{Collide, verify_merkle_proof_sound}

abbrev sum : ℕ → Bytes → ℕ
sum acc [] = acc
sum acc (b ∷ bs) = sum ((acc * 3 + b) % 256) bs

abbrev zero_bytes : ℕ → Bytes
zero_bytes zero = []
zero_bytes (suc n) = 0 ∷ zero_bytes n

abbrev sha256 : Bytes → Bytes
sha256 bytes = sum 1 bytes % 256 ∷ zero_bytes 31

zero_bytes-AllBytes : (n : ℕ) → AllBytes (zero_bytes n)
zero_bytes-AllBytes zero = tt
zero_bytes-AllBytes (suc n) = (omega arith, zero_bytes-AllBytes n)

digest : (bs : Bytes) → (length (sha256 bs) ≡ 32) × AllBytes (sha256 bs)
digest bs = (refl, (omega arith, zero_bytes-AllBytes 31))

abbrev leaf : ℕ → Text
leaf d = b'0' ∷ d ∷ zero_root 62

abbrev leaves : List Text
leaves = leaf b'1' ∷ leaf b'2' ∷ leaf b'3' ∷ []

-- The last leaf of an odd row counts twice, so that these two lists have one root.
duplicate_root :
    get_merkle_root sha256 leaves
    ≡ get_merkle_root sha256 (leaf b'1' ∷ leaf b'2' ∷ leaf b'3' ∷ leaf b'3' ∷ [])
unfolding get_merkle_root build_merkle_tree build_rows combine_row pad combine_pair sha256d from_hex
    to_hex hex_value hex_digit nth
duplicate_root = refl

-- The leaves have the indices 0 to 2, but a proof is given at 3 as well: the leaf row holds the copy.
proof_out_of_range :
    (proof : MerkleProof) × (get_merkle_proof (build_merkle_tree sha256 leaves) 3 ≡ ok proof)
unfolding get_merkle_proof build_merkle_tree build_rows pad
proof_out_of_range = (_, refl)

past_the_copy : get_merkle_proof (build_merkle_tree sha256 leaves) 4 ≡ err leaf_out_of_range
unfolding get_merkle_proof build_merkle_tree build_rows pad
past_the_copy = refl

verify-get_merkle_proof_example :
    (proof : MerkleProof) × (get_merkle_proof (build_merkle_tree sha256 leaves) 2 ≡ ok proof)
    × (proof.leaf_index ≡ 2)
    × (proof.leaf_hash ≡ nth 2 leaves)
    × (proof.root ≡ get_merkle_root sha256 leaves)
    × (verify_merkle_proof sha256 proof ≡ true)
verify-get_merkle_proof_example = verify-get_merkle_proof sha256 leaves 2 (omega arith)

abbrev pair_proof : MerkleProof
pair_proof = record {
  leaf_index = 0;
  leaf_hash = leaf b'1';
  siblings = leaf b'2' ∷ [];
  sibling_on_left = false ∷ [];
  root = combine_pair sha256 (leaf b'1') (leaf b'2');
}

pair_proof_accepted : verify_merkle_proof sha256 pair_proof ≡ true
unfolding verify_merkle_proof verify_loop combine_pair sha256d from_hex to_hex hex_value hex_digit
    text_eq
pair_proof_accepted = refl

-- Another leaf with the same root: the checks hash two byte strings to one sum.
abbrev forged_proof : MerkleProof
forged_proof = record pair_proof { leaf_hash = leaf b'3'; siblings = leaf b'0' ∷ [] }

forged_proof_accepted : verify_merkle_proof sha256 forged_proof ≡ true
unfolding verify_merkle_proof verify_loop combine_pair sha256d from_hex to_hex hex_value hex_digit
    text_eq
forged_proof_accepted = refl

leaves-canonical :
    (is_canonical_hash pair_proof.leaf_hash ≡ true)
    × (is_canonical_hash forged_proof.leaf_hash ≡ true)
unfolding is_canonical_hash
leaves-canonical = (refl, refl)

verify_merkle_proof_sound_example :
    (pair_proof.leaf_hash ≡ forged_proof.leaf_hash)
    ⊎ Collide sha256 pair_proof.leaf_hash forged_proof.leaf_hash pair_proof.siblings
        forged_proof.siblings pair_proof.sibling_on_left
verify_merkle_proof_sound_example =
    verify_merkle_proof_sound sha256 digest pair_proof forged_proof leaves-canonical.0
      leaves-canonical.1 pair_proof_accepted forged_proof_accepted refl refl refl

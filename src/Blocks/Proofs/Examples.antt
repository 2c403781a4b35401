-- ===== src/Blocks/Proofs/Examples.antt =====
-- A block with one contribution of a thousand TFLOPS. The hash functions are replaced by constants, and every
-- signature and proof is valid.
use junctiongenerator.Base.{ℕ, zero, suc, ◌≡◌, refl, arith, true, [], ◌∷◌, ◌++◌, ok, err}
use junctiongenerator.Base.Int.{pos}
use junctiongenerator.Base.Texts.{Bytes, Text, text_eq}
use junctiongenerator.Base.Hex.{from_hex, to_hex, hex_value, hex_digit}
use junctiongenerator.Types.{MinerComputeContribution, ai_inference}
use junctiongenerator.Canonical.{int}
use junctiongenerator.Difficulty.{decode_difficulty_bits_exact}
use junctiongenerator.Headers.{BlockHeader}
use junctiongenerator.Merkle.{build_merkle_tree, build_rows, nth}
use junctiongenerator.Spending.Bonds.{take}
use junctiongenerator.Spending.Signatures.{PqLibrary, pq_is_valid_public_key, pq_is_valid_signature}
use junctiongenerator.Blocks.Proofs.{
  ProofVerifier, duplicate_contribution, insufficient_tflops, work_of,
  verify_portable_compute_proof_exact, check_unique, pq_address_from_public_key,
  pq_verify_contribution_signature, check_signatures, sum_work, hash_compute_proof, proof_leaves,
  compute_contributions_merkle_root, check_proofs, validate_compute_proofs_sync,
}
use junctiongenerator.Blocks.Proofs.Work.{IsWork, validate_compute_proofs_sync-IsWork}

abbrev repeated : ℕ → Text → Text
repeated zero t = []
repeated (suc n) t = t ++ repeated n t

abbrev lib : PqLibrary
lib = record {
  sha3_256 = λ bytes. repeated 20 (7 ∷ []);
  public_key_size = 1;
  signature_size = 1;
  verify = λ signature message public_key. true;
}

abbrev sha256 : Bytes → Bytes
sha256 bytes = 1 ∷ []

abbrev from_base64 : Text → Bytes
from_base64 text = []

abbrev verify : ProofVerifier
verify proof epoch_block_index height = record {
  valid = true;
  verified_tflops = proof.tflops_weight;
}

-- "1QGC" and the digest in hexadecimal.
abbrev miner : Text
miner = b'1' ∷ b'Q' ∷ b'G' ∷ b'C' ∷ repeated 20 (b'0' ∷ b'7' ∷ [])

abbrev contribution : ℕ → MinerComputeContribution
contribution weight = record {
  miner_address = miner;
  proof = record {
    task_commitment = b'a' ∷ b'b' ∷ [];
    proof_bytes = [];
    circuit_id = b'c' ∷ [];
    public_inputs = [];
    tflops_weight = int (pos weight);
    task_type = ai_inference;
    compute_started_at = [];
  };
  signature = b'0' ∷ b'1' ∷ [];
  public_key = b'0' ∷ b'2' ∷ [];
}

-- The target is 10^9 micro-units.
abbrev header : BlockHeader
header = record {
  version = 0x0300_0000;
  prev_hash = [];
  merkle_root = [];
  compute_root = b'0' ∷ b'1' ∷ [];
  epoch_root = [];
  audit_root = [];
  timestamp = 0;
  difficulty_bits = 0x043b_9aca;
  nonce = 0;
  height = 1;
}

twice_refused :
    check_unique [] [] (contribution 1 ∷ contribution 1 ∷ []) ≡ err duplicate_contribution
unfolding check_unique text_eq
twice_refused = refl

accepted :
    validate_compute_proofs_sync sha256 from_base64 lib verify (contribution 1000 ∷ []) header 1 1
    ≡ ok tt
unfolding validate_compute_proofs_sync check_proofs check_unique check_signatures
    pq_verify_contribution_signature pq_address_from_public_key sum_work
    verify_portable_compute_proof_exact work_of compute_contributions_merkle_root proof_leaves
    hash_compute_proof decode_difficulty_bits_exact pq_is_valid_public_key hex_value
    pq_is_valid_signature from_hex text_eq to_hex take hex_digit build_merkle_tree build_rows nth
accepted = refl

too_little :
    validate_compute_proofs_sync sha256 from_base64 lib verify (contribution 999 ∷ []) header 1 1
    ≡ err insufficient_tflops
unfolding validate_compute_proofs_sync check_proofs check_unique check_signatures
    pq_verify_contribution_signature pq_address_from_public_key sum_work
    verify_portable_compute_proof_exact work_of decode_difficulty_bits_exact pq_is_valid_public_key
    hex_value pq_is_valid_signature from_hex text_eq to_hex take hex_digit
too_little = refl

validate_compute_proofs_sync-IsWork_example :
    (target : ℕ) × (decode_difficulty_bits_exact 0x043b_9aca ≡ ok target)
    × IsWork sha256 from_base64 lib verify header 1 1 target (contribution 1000 ∷ [])
validate_compute_proofs_sync-IsWork_example =
    validate_compute_proofs_sync-IsWork sha256 from_base64 lib verify (contribution 1000 ∷ [])
      header 1 1 (omega arith) accepted

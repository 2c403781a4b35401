-- ===== src/Blocks/Proofs.antt =====
-- packages/jgc-node/src/consensus/validation.ts, the compute proofs of a block (`validateComputeProofsSync`),
-- with the exact work check of crypto/compute-proof.ts, the contribution signatures of
-- crypto/pq-signatures.ts and the root of consensus/epoch.ts. The verifier of a proof's scheme, the decoder
-- of base64 and the hash functions are parameters.
pub mod Contributions
pub mod Exact
pub mod Work
mod Examples
use junctiongenerator.Base.{
  ℕ, ◌+◌, ◌*◌, ◌/◌, ◌%◌, Bool, true, false, not, ◌&&◌, ◌||◌, Option, none, some, List, [], ◌∷◌,
  ◌++◌, ltb, leb, ◌==◌, if◌then◌else◌, length, Result, ok, err, ◌>>=◌, ◌>>◌, throw_if,
}
use junctiongenerator.Base.Int.{ℤ, pos, negsuc}
use junctiongenerator.Base.Texts.{Bytes, Text, text_eq}
use junctiongenerator.Base.Hex.{from_hex, to_hex}
use junctiongenerator.Types.{ComputeProof, MinerComputeContribution}
use junctiongenerator.Canonical.{Number, int, not_an_integer, max_safe_integer, be_bytes}
use junctiongenerator.Difficulty.{RangeError, decode_difficulty_bits_exact}
use junctiongenerator.Headers.{BlockHeader}
use junctiongenerator.Merkle.{MerkleTree, build_merkle_tree}
use junctiongenerator.Proposer.{has}
use junctiongenerator.Spending.{decimal, jgc_pq_network_id}
use junctiongenerator.Spending.Bonds.{take}
use junctiongenerator.Spending.Signatures.{PqLibrary, pq_is_valid_public_key, pq_is_valid_signature}
use junctiongenerator.Work.Json.{json_number}

-- How the check of the proofs ends that does not accept; the first two are thrown.
pub data ProofFailure : Type 0 where
  unreadable_bits unreadable_weight : ProofFailure
  no_compute_proofs duplicate_contribution invalid_signature proof_verification_failed :
      ProofFailure
  insufficient_tflops compute_root_mismatch : ProofFailure

abbrev pub difficulty_scale : ℕ
difficulty_scale = 1_000_000

-- `PortableProofResult` without its texts.
pub record ProofResult : Type 0 where
  pub valid : Bool
  pub verified_tflops : Number

-- What `verifyPortableComputeProof` gives for a proof at an epoch block index and a height.
abbrev pub ProofVerifier : Type 0
ProofVerifier = ComputeProof → ℕ → ℕ → ProofResult

-- A number that is a safe integer and not negative.
unfoldable pub work_of : Number → Option ℕ
work_of (int (pos n)) = if ltb max_safe_integer n then none else some n
work_of (int (negsuc n)) = none
work_of not_an_integer = none

abbrev pub is_enough : ℕ → Option ℕ → Bool
is_enough minimum_micros none = false
is_enough minimum_micros (some n) = not (ltb (n * difficulty_scale) minimum_micros)

abbrev pub same_work : Option ℕ → Option ℕ → Bool
same_work (some m) (some n) = m == n
same_work _ _ = false

abbrev pub no_work : ProofResult
no_work = record { valid = false; verified_tflops = int (pos 0) }

unfoldable pub verify_portable_compute_proof_exact :
    ProofVerifier → ComputeProof → ℕ → ℕ → ℕ → ProofResult
verify_portable_compute_proof_exact verify proof epoch_block_index height minimum_micros =
    if not (is_enough minimum_micros (work_of proof.tflops_weight))
    then no_work
    else (let result = verify proof epoch_block_index height in
        if result.valid
          && (not (same_work (work_of result.verified_tflops) (work_of proof.tflops_weight))
              || not (is_enough minimum_micros (work_of result.verified_tflops)))
        then no_work
        else result)

-- `String(…)` of a number. A number that is no integer, which the check of the work refuses, reads "NaN".
abbrev pub number_text : Number → Text
number_text (int n) = json_number (int n)
number_text not_an_integer = b'N' ∷ b'a' ∷ b'N' ∷ []

-- The texts with "|" between them.
unfoldable pub join : List Text → Text
join [] = []
join (t ∷ []) = t
join (t ∷ u ∷ ts) = t ++ (b'|' ∷ join (u ∷ ts))

-- The duplicate checks, with `seenMiners` and `seenTasks`.
unfoldable pub check_unique :
    List Text → List Text → List MinerComputeContribution → Result ProofFailure (Unit {0})
check_unique miners tasks [] = ok tt
check_unique miners tasks (c ∷ cs) = do
  throw_if (has c.miner_address miners) duplicate_contribution
  throw_if (has c.proof.task_commitment tasks) duplicate_contribution
  check_unique (c.miner_address ∷ miners) (c.proof.task_commitment ∷ tasks) cs

module _ (lib : PqLibrary) where
  -- "1QGC" and the digest's first 20 bytes.
  unfoldable pub pq_address_from_public_key : Text → Text
  pq_address_from_public_key key =
      b'1' ∷ b'Q' ∷ b'G' ∷ b'C' ∷ to_hex (take 20 (lib.sha3_256 (from_hex key)))

  unfoldable pub pq_contribution_sig_hash : MinerComputeContribution → ℕ → Bytes
  pq_contribution_sig_hash c height = lib.sha3_256 (
      join (
        jgc_pq_network_id
        ∷ c.miner_address
        ∷ c.proof.task_commitment
        ∷ c.proof.circuit_id
        ∷ number_text c.proof.tflops_weight
        ∷ decimal height
        ∷ []))

  unfoldable pub pq_verify_contribution_signature : MinerComputeContribution → ℕ → Bool
  pq_verify_contribution_signature c height =
      pq_is_valid_public_key lib c.public_key
      && (pq_is_valid_signature lib c.signature
          && (text_eq (pq_address_from_public_key c.public_key) c.miner_address
              && lib.verify (from_hex c.signature) (pq_contribution_sig_hash c height)
                  (from_hex c.public_key)))

  -- The `for` over the signatures.
  unfoldable pub check_signatures :
      ℕ → List MinerComputeContribution → Result ProofFailure (Unit {0})
  check_signatures height [] = ok tt
  check_signatures height (c ∷ cs) = do
    throw_if (not (pq_verify_contribution_signature c height)) invalid_signature
    check_signatures height cs

-- The work of a result, which is a safe integer where the result is valid.
abbrev pub or_no_work : Option ℕ → ℕ
or_no_work none = 0
or_no_work (some n) = n

module _ (verify : ProofVerifier) (epoch_block_index height minimum_micros : ℕ) where
  -- The `for` over the results, and their sum. A sum of floating-point numbers is exact as long as it is
  -- a safe integer, and stays above them from then on.
  unfoldable pub sum_work : ℕ → List MinerComputeContribution → Result ProofFailure ℕ
  sum_work sum [] = ok sum
  sum_work sum (c ∷ cs) = do
    let result =
        verify_portable_compute_proof_exact verify c.proof epoch_block_index height minimum_micros
    throw_if (not result.valid) proof_verification_failed
    sum_work (sum + or_no_work (work_of result.verified_tflops)) cs

abbrev pub read_weight : Option ℕ → Result ProofFailure ℕ
read_weight none = err unreadable_weight
read_weight (some n) = ok n

abbrev pub readable : Result RangeError ℕ → Result ProofFailure ℕ
readable (ok target) = ok target
readable (err e) = err unreadable_bits

module _ (sha256 : Bytes → Bytes) (from_base64 : Text → Bytes) where
  unfoldable pub hash_compute_proof : ComputeProof → Result ProofFailure Text
  hash_compute_proof p = do
    work ← read_weight (work_of p.tflops_weight)
    ok (
        to_hex (
          sha256 (
            sha256 (
              from_hex p.task_commitment
              ++ (from_base64 p.proof_bytes ++ (p.circuit_id ++ be_bytes 8 work))))))

  unfoldable pub proof_leaves : List MinerComputeContribution → Result ProofFailure (List Text)
  proof_leaves [] = ok []
  proof_leaves (c ∷ cs) = do
    leaf ← hash_compute_proof c.proof
    leaves ← proof_leaves cs
    ok (leaf ∷ leaves)

  unfoldable pub compute_contributions_merkle_root :
      List MinerComputeContribution → Result ProofFailure Text
  compute_contributions_merkle_root cs = do
    leaves ← proof_leaves cs
    let tree : MerkleTree = build_merkle_tree sha256 leaves
    ok tree.root

  module _ (lib : PqLibrary) (verify : ProofVerifier) where
    -- From a height above 0 on, with the target of the header.
    unfoldable pub check_proofs :
        List MinerComputeContribution → BlockHeader → ℕ → ℕ → ℕ → Result ProofFailure (Unit {0})
    check_proofs cs header epoch_block_index height target = do
      throw_if (length cs == 0) no_compute_proofs
      check_unique [] [] cs
      check_signatures lib height cs
      total ← sum_work verify epoch_block_index height ((target + 9) / 10) 0 cs
      throw_if (ltb max_safe_integer total) proof_verification_failed
      throw_if (ltb (total * difficulty_scale) target) insufficient_tflops
      root ← compute_contributions_merkle_root cs
      throw_if (not (text_eq header.compute_root root)) compute_root_mismatch

    unfoldable pub validate_compute_proofs_sync :
        List MinerComputeContribution → BlockHeader → ℕ → ℕ → Result ProofFailure (Unit {0})
    validate_compute_proofs_sync cs header epoch_block_index height = do
      target ← readable (decode_difficulty_bits_exact header.difficulty_bits)
      if height == 0 then ok tt else check_proofs cs header epoch_block_index height target

-- ===== src/Blocks/Proofs/Work.antt =====
-- What the proofs of an accepted block show.
use junctiongenerator.Base.{
  ℕ, ◌+◌, ◌*◌, ◌/◌, ◌^◌, ◌-◌, ◌≤◌, ◌<◌, ◌≡◌, refl, sym, ap, ◌∙◌, arith, Bool, true, false, not,
  List, [], ltb, ◌==◌, if◌then◌else◌, length, Result, ok, err, throw_if, bind-ok, throw_if-ok,
  ok-injective,
}
use junctiongenerator.Base.Texts.{Bytes, Text, text_eq, text_eq_iff}
use junctiongenerator.Base.Search.{All}
use junctiongenerator.Types.{MinerComputeContribution}
use junctiongenerator.Canonical.{max_safe_integer}
use junctiongenerator.Difficulty.{RangeError, decode_difficulty_bits_exact}
use junctiongenerator.Headers.{BlockHeader}
use junctiongenerator.Spending.Signatures.{PqLibrary}
use junctiongenerator.Blocks.Proofs.{
  compute_root_mismatch, ProofVerifier, difficulty_scale, check_unique, check_signatures, sum_work,
  readable, compute_contributions_merkle_root, check_proofs, validate_compute_proofs_sync,
}
use junctiongenerator.Blocks.Proofs.Contributions.{
  NoRepeat, IsSigned, check_unique-ok, check_signatures-ok,
}
use junctiongenerator.Blocks.Proofs.Exact.{Weights, IsProven, sum_work-ok}

-- What an accepted list of contributions is, against a target in micro-units.
pub record IsWork (sha256 : Bytes → Bytes) (from_base64 : Text → Bytes) (lib : PqLibrary)
    (verify : ProofVerifier) (header : BlockHeader) (epoch_block_index height target : ℕ)
    (cs : List MinerComputeContribution) : Type 0 where
  pub one_per_miner : NoRepeat (λ c. c.miner_address) cs
  pub one_per_task : NoRepeat (λ c. c.proof.task_commitment) cs
  pub signed : All (IsSigned lib height) cs
  pub proven : All (IsProven verify epoch_block_index height ((target + 9) / 10)) cs
  pub worth : (total : ℕ) × Weights cs total × (total ≤ 2 ^ 53 - 1) × (target ≤ total * 1_000_000)
  pub committed : compute_contributions_merkle_root sha256 from_base64 cs ≡ ok header.compute_root

-- The contributions that a block above height 0 is accepted with: the difficulty bits have a target, no
-- miner and no task occurs twice, each contribution is signed for this height by the key of its address,
-- each proof is accepted by its verifier with the weight that it commits to, a tenth of the target or more, the
-- weights add up to the target or more and to a safe integer, and the header commits to the contributions.
pub validate_compute_proofs_sync-IsWork :
    (sha256 : Bytes → Bytes) (from_base64 : Text → Bytes) (lib : PqLibrary) (verify : ProofVerifier)
    (cs : List MinerComputeContribution) (header : BlockHeader) (epoch_block_index height : ℕ)
    → 0 < height
    → validate_compute_proofs_sync sha256 from_base64 lib verify cs header epoch_block_index height
      ≡ ok tt
    → (target : ℕ) × (decode_difficulty_bits_exact header.difficulty_bits ≡ ok target)
      × IsWork sha256 from_base64 lib verify header epoch_block_index height target cs
unfolding validate_compute_proofs_sync check_proofs
validate_compute_proofs_sync-IsWork sha256 from_base64 lib verify cs header epoch_block_index height
      above h =
    let (target, decoded, h₀) =
      bind-ok (readable (decode_difficulty_bits_exact header.difficulty_bits)) _ tt h in
    let not_genesis : (height == 0) ≡ false = ground (arith, above) in
    let checked : check_proofs sha256 from_base64 lib verify cs header epoch_block_index height
          target
        ≡ ok tt =
      ap
        (λ t.
          if t
          then ok tt
          else check_proofs sha256 from_base64 lib verify cs header epoch_block_index height target)
        (sym not_genesis)
      ∙ h₀ in
    let (some_proofs, h₁) = throw_if-ok (length cs == 0) _ _ tt checked in
    let (u, unique, h₂) = bind-ok (check_unique [] [] cs) _ tt h₁ in
    let (v, signatures, h₃) = bind-ok (check_signatures lib height cs) _ tt h₂ in
    let (total, summed, h₄) =
      bind-ok (sum_work verify epoch_block_index height ((target + 9) / 10) 0 cs) _ tt h₃ in
    let (safe, h₅) = throw_if-ok (ltb max_safe_integer total) _ _ tt h₄ in
    let (enough, h₆) = throw_if-ok (ltb (total * difficulty_scale) target) _ _ tt h₅ in
    let (root, rooted, h₇) =
      bind-ok (compute_contributions_merkle_root sha256 from_base64 cs) _ tt h₆ in
    let (by_miner, by_task, _, _) = check_unique-ok [] [] cs unique in
    let (rest, sum, weights, proven) =
      sum_work-ok verify epoch_block_index height ((target + 9) / 10) 0 total cs summed in
    let same_root : text_eq header.compute_root root ≡ true =
      no_mismatch (text_eq header.compute_root root) h₇ in
    (
      target,
      readable-ok (decode_difficulty_bits_exact header.difficulty_bits) target decoded,
      record {
        one_per_miner = by_miner;
        one_per_task = by_task;
        signed = check_signatures-ok lib height cs signatures;
        proven = proven;
        worth = (rest, weights, ground (arith, safe, sum), ground (arith, enough, sum));
        committed = rooted ∙ ap ok (sym ((text_eq_iff header.compute_root root).0 same_root));
      },
    )
  where
    readable-ok : (r : Result RangeError ℕ) (target : ℕ) → readable r ≡ ok target → r ≡ ok target
    readable-ok (ok t) target h = ap ok (sym (ok-injective h))
    readable-ok (err e) target h = cc

    no_mismatch : (same : Bool) → throw_if (not same) compute_root_mismatch ≡ ok tt → same ≡ true
    no_mismatch true h = refl
    no_mismatch false h = cc

-- ===== src/Blocks/Proofs/Contributions.antt =====
-- The contributions of a block: the duplicate checks and the signatures.
use junctiongenerator.Base.{
  ℕ, ◌≡◌, ◌≢◌, sym, arith, true, false, not, List, [], ◌∷◌, ok, throw_if-ok,
}
use junctiongenerator.Base.Texts.{Text, text_eq, text_eq_iff}
use junctiongenerator.Base.Hex.{from_hex}
use junctiongenerator.Base.Search.{All}
use junctiongenerator.Types.{MinerComputeContribution}
use junctiongenerator.Proposer.{has}
use junctiongenerator.Spending.Signatures.{PqLibrary}
use junctiongenerator.Blocks.Proofs.{
  check_unique, pq_address_from_public_key, pq_contribution_sig_hash,
  pq_verify_contribution_signature, check_signatures,
}

-- No two contributions have the same text.
abbrev pub NoRepeat : (MinerComputeContribution → Text) → List MinerComputeContribution → Type 0
NoRepeat f [] = Unit
NoRepeat f (c ∷ cs) = All (λ (d : MinerComputeContribution). f d ≢ f c) cs × NoRepeat f cs

-- The key of the contribution is the one of its address, and its signature of the work and the height is valid.
pub record IsSigned (lib : PqLibrary) (height : ℕ) (c : MinerComputeContribution) : Type 0 where
  pub owner : pq_address_from_public_key lib c.public_key ≡ c.miner_address
  pub signed :
      lib.verify
        (from_hex c.signature)
        (pq_contribution_sig_hash lib c height)
        (from_hex c.public_key)
      ≡ true

abbrev pub IsFresh :
    (MinerComputeContribution → Text) → List Text → List MinerComputeContribution → Type 0
IsFresh f seen cs = All (λ (d : MinerComputeContribution). has (f d) seen ≡ false) cs

apart :
    (f : MinerComputeContribution → Text) (t : Text) (seen : List Text)
    (cs : List MinerComputeContribution)
    → IsFresh f (t ∷ seen) cs
    → All (λ (d : MinerComputeContribution). f d ≢ t) cs × IsFresh f seen cs
apart f t seen [] h = (tt, tt)
apart f t seen (d ∷ cs) (own, rest) =
    let (differ, fresh) = apart f t seen cs rest in
    (
      (λ e. let same = (text_eq_iff t (f d)).1 (sym e) in ground (arith, own, same), differ),
      (ground (arith, own), fresh),
    )

pub check_unique-ok :
    (miners tasks : List Text) (cs : List MinerComputeContribution)
    → check_unique miners tasks cs ≡ ok tt
    → NoRepeat (λ c. c.miner_address) cs
      × NoRepeat (λ c. c.proof.task_commitment) cs
      × IsFresh (λ c. c.miner_address) miners cs
      × IsFresh (λ c. c.proof.task_commitment) tasks cs
unfolding check_unique
check_unique-ok miners tasks [] h = (tt, tt, tt, tt)
check_unique-ok miners tasks (c ∷ cs) h =
    let (new_miner, h₁) = throw_if-ok (has c.miner_address miners) _ _ tt h in
    let (new_task, h₂) = throw_if-ok (has c.proof.task_commitment tasks) _ _ tt h₁ in
    let (by_miner, by_task, miner_fresh, task_fresh) =
      check_unique-ok (c.miner_address ∷ miners) (c.proof.task_commitment ∷ tasks) cs h₂ in
    let (miner_apart, miner_rest) =
      apart (λ c. c.miner_address) c.miner_address miners cs miner_fresh in
    let (task_apart, task_rest) =
      apart (λ c. c.proof.task_commitment) c.proof.task_commitment tasks cs task_fresh in
    ((miner_apart, by_miner), (task_apart, by_task), (new_miner, miner_rest), (new_task, task_rest))

pub check_signatures-ok :
    (lib : PqLibrary) (height : ℕ) (cs : List MinerComputeContribution)
    → check_signatures lib height cs ≡ ok tt
    → All (IsSigned lib height) cs
unfolding check_signatures pq_verify_contribution_signature
check_signatures-ok lib height [] h = tt
check_signatures-ok lib height (c ∷ cs) h =
    let (valid, rest) =
      throw_if-ok (not (pq_verify_contribution_signature lib c height)) _ _ tt h in
    let owns : text_eq (pq_address_from_public_key lib c.public_key) c.miner_address ≡ true =
      ground (arith, valid) in
    (
      record {
        owner = (text_eq_iff (pq_address_from_public_key lib c.public_key) c.miner_address).0 owns;
        signed = ground (arith, valid);
      },
      check_signatures-ok lib height cs rest,
    )

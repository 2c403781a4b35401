-- ===== src/Blocks/Proofs/Exact.antt =====
-- The work of a block: what the exact check of a proof confirms, and the sum.
use junctiongenerator.Base.{
  ℕ, ◌+◌, ◌*◌, ◌≤◌, ◌≡◌, refl, sym, ap, ◌∙◌, arith, Bool, true, false, not, ◌&&◌, ◌||◌, Option,
  none, some, List, [], ◌∷◌, ltb, if◌then◌else◌, ok, throw_if-ok, ok-injective, inl, inr,
  Bool-cases,
}
use junctiongenerator.Base.Int.{pos, negsuc}
use junctiongenerator.Base.Search.{All}
use junctiongenerator.Types.{ComputeProof, MinerComputeContribution}
use junctiongenerator.Canonical.{Number, int, not_an_integer, max_safe_integer}
use junctiongenerator.Blocks.Proofs.{
  ProofResult, ProofVerifier, work_of, is_enough, same_work, no_work, difficulty_scale,
  verify_portable_compute_proof_exact, or_no_work, sum_work,
}

-- The sum of the weights that the contributions commit to, each of which is a natural number.
abbrev pub Weights : List MinerComputeContribution → ℕ → Type 0
Weights [] total = total ≡ 0
Weights (c ∷ cs) total =
    (n : ℕ) × (rest : ℕ) × (c.proof.tflops_weight ≡ int (pos n))
    × (total ≡ n + rest)
    × Weights cs rest

-- The verifier accepts the proof and confirms the weight, which is no less than the minimum.
pub record IsProven (verify : ProofVerifier) (epoch_block_index height minimum_micros : ℕ)
    (c : MinerComputeContribution) : Type 0 where
  pub verified : (verify c.proof epoch_block_index height).valid ≡ true
  pub confirmed : (verify c.proof epoch_block_index height).verified_tflops ≡ c.proof.tflops_weight
  pub weight : (n : ℕ) × (c.proof.tflops_weight ≡ int (pos n)) × (minimum_micros ≤ n * 1_000_000)

work_of_inv : (x : Number) (n : ℕ) → work_of x ≡ some n → x ≡ int (pos n)
unfolding work_of
work_of_inv (int (pos m)) n h = elim (Bool-cases (ltb max_safe_integer m)) [
  | inl large ↦
      let impossible : none ≡ some n = ap (λ t. if t then none else some m) (sym large) ∙ h in
      absurd (cc)
  | inr small ↦
      let same : some m ≡ some n = ap (λ t. if t then none else some m) (sym small) ∙ h in
      let equal : m ≡ n = cc in ap (λ k. int (pos k)) equal
]
work_of_inv (int (negsuc m)) n h = cc
work_of_inv not_an_integer n h = cc

is_enough_inv :
    (minimum_micros : ℕ) (work : Option ℕ)
    → is_enough minimum_micros work ≡ true
    → (n : ℕ) × (work ≡ some n) × (minimum_micros ≤ n * difficulty_scale)
is_enough_inv minimum_micros none h = cc
is_enough_inv minimum_micros (some n) h = (n, refl, ground (arith, h))

same_work_inv : (a b : Option ℕ) → same_work a b ≡ true → a ≡ b
same_work_inv (some m) (some n) h = ap some (ground (arith, h))
same_work_inv (some m) none h = cc
same_work_inv none b h = cc

-- A result of the exact check that is valid.
verified_exactly :
    (verify : ProofVerifier) (p : ComputeProof) (epoch_block_index height minimum_micros : ℕ)
    → (verify_portable_compute_proof_exact verify p epoch_block_index height minimum_micros).valid
      ≡ true
    → (verify_portable_compute_proof_exact verify p epoch_block_index height minimum_micros
        ≡ verify p epoch_block_index height)
      × ((verify p epoch_block_index height).valid ≡ true)
      × (n : ℕ) × (work_of p.tflops_weight ≡ some n)
      × (work_of (verify p epoch_block_index height).verified_tflops ≡ some n)
      × (minimum_micros ≤ n * difficulty_scale)
unfolding verify_portable_compute_proof_exact
verified_exactly verify p epoch_block_index height minimum_micros h =
    exactly (is_enough minimum_micros (work_of p.tflops_weight)) refl
      (verify p epoch_block_index height).valid refl
      (same_work (work_of (verify p epoch_block_index height).verified_tflops)
        (work_of p.tflops_weight))
      refl (is_enough minimum_micros (work_of (verify p epoch_block_index height).verified_tflops))
      h
  where
    result : ProofResult
    result = verify p epoch_block_index height

    exactly :
        (committed : Bool)
        → is_enough minimum_micros (work_of p.tflops_weight) ≡ committed
        → (valid : Bool) → result.valid ≡ valid
        → (same : Bool)
        → same_work (work_of result.verified_tflops) (work_of p.tflops_weight) ≡ same
        → (confirmed : Bool)
        → (if not committed
            then no_work
            else if valid && (not same || not confirmed)
            then no_work
            else result).valid
          ≡ true
        → ((if not committed
              then no_work
              else if valid && (not same || not confirmed)
              then no_work
              else result)
            ≡ result)
          × (result.valid ≡ true)
          × (n : ℕ) × (work_of p.tflops_weight ≡ some n)
          × (work_of result.verified_tflops ≡ some n)
          × (minimum_micros ≤ n * difficulty_scale)
    exactly true enough true valid true same true h =
        let (n, work, least) = is_enough_inv minimum_micros (work_of p.tflops_weight) enough in
        (
          refl,
          valid,
          n,
          work,
          same_work_inv (work_of result.verified_tflops) (work_of p.tflops_weight) same ∙ work,
          least,
        )
    exactly true enough true valid true same false h = cc
    exactly true enough true valid false same confirmed h = cc
    exactly true enough false valid same e confirmed h = absurd (cc)
    exactly false enough valid e same f confirmed h = cc

pub sum_work-ok :
    (verify : ProofVerifier) (epoch_block_index height minimum_micros sum total : ℕ)
    (cs : List MinerComputeContribution)
    → sum_work verify epoch_block_index height minimum_micros sum cs ≡ ok total
    → (rest : ℕ) × (total ≡ sum + rest)
      × Weights cs rest
      × All (IsProven verify epoch_block_index height minimum_micros) cs
unfolding sum_work
sum_work-ok verify epoch_block_index height minimum_micros sum total [] h =
    (0, omega (arith, ok-injective h), refl, tt)
sum_work-ok verify epoch_block_index height minimum_micros sum total (c ∷ cs) h =
    let checked =
      verify_portable_compute_proof_exact verify c.proof epoch_block_index height minimum_micros in
    let (valid, h₁) = throw_if-ok (not checked.valid) _ _ total h in
    let (same, accepted, n, work, confirmed, least) =
      verified_exactly verify c.proof epoch_block_index height minimum_micros
        (ground (arith, valid)) in
    let counted : or_no_work (work_of checked.verified_tflops) ≡ n =
      ap (λ (r : ProofResult). or_no_work (work_of r.verified_tflops)) same
      ∙ ap or_no_work confirmed in
    let (rest, summed, weights, proven) =
      sum_work-ok verify epoch_block_index height minimum_micros
        (sum + or_no_work (work_of checked.verified_tflops)) total cs h₁ in
    let committed = work_of_inv c.proof.tflops_weight n work in
    (
      n + rest,
      omega (arith, summed, counted),
      (n, rest, committed, refl, weights),
      (
        record {
          verified = accepted;
          confirmed =
              work_of_inv (verify c.proof epoch_block_index height).verified_tflops n confirmed
              ∙ sym committed;
          weight = (n, committed, least);
        },
        proven,
      ),
    )

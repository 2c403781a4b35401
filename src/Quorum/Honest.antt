-- ===== src/Quorum/Honest.antt =====
-- A claim that is made and replayed by the same profile: `makeClaim`, then `resolve`.
use junctiongenerator.Base.{
  ◌≡◌, ◌⊎◌, refl, ap, ◌∙◌, true, false, ◌&&◌, Option, none, some, List, [], ◌∷◌, arith, inl, inr,
  Bool-cases, if◌then◌else◌, Result, ok, err, ◌>>=◌, bind-ok, ok-injective, ok-bind,
}
use junctiongenerator.Base.Int.{pos}
use junctiongenerator.Base.Texts.{Bytes, Text, text_eq, text_eq_refl}
use junctiongenerator.Quorum.{StakeLedger}
use junctiongenerator.Quorum.Replay.{
  JunctioningClaim, InferenceBackend, ExecutionProfile, VerifiableTask, ReplayError,
  VerificationResult, verify_replay, make_claim, commit_junctioning, validate_profile, same_fields,
  same_profile, canonical_profile, is_compatible, replay, make_claim_for, rerun, incompatible,
}
use junctiongenerator.Quorum.Resolution.{
  ChallengeParams, ChallengeResolution, not_challenged, passed, resolve_challenge, settle_challenge,
  should_challenge, passing, unchallenged,
}

-- The backend reports the profile of the task and computes this output for it.
pub record Reproduces (backend : InferenceBackend) (task : VerifiableTask) (output : Text)
    : Type 0 where
  pub same_profile : backend.execution_profile task.model ≡ task.execution_profile
  pub same_output :
      backend.run task.prompt task.model task.max_tokens task.temperature task.seed ≡ output

same_fields_refl : (ts : List Text) → same_fields ts ts ≡ true
same_fields_refl [] = refl
same_fields_refl (t ∷ ts) = ground (arith, text_eq_refl t, same_fields_refl ts)

is_compatible_refl :
    (p : ExecutionProfile) → validate_profile p ≡ ok tt → is_compatible p (some p) ≡ true
is_compatible_refl p valid =
    ap (λ v. elim v [ ok _ ↦ true | err _ ↦ false ] && same_profile p p) valid
    ∙ same_fields_refl (canonical_profile p)

module _ (sha256 : Bytes → Bytes) where
  make_claim_for-ok :
      (found : Option ExecutionProfile) (task : VerifiableTask) (output : Text)
      (claim : JunctioningClaim)
      → make_claim_for sha256 found task output ≡ ok claim
      → (p : ExecutionProfile) × (found ≡ some p)
        × (validate_profile p ≡ ok tt)
        × (c : Text) × (commit_junctioning sha256 task output ≡ ok c)
        × (claim ≡ record { task = task; output_text = output; commitment = c })
  unfolding make_claim_for
  make_claim_for-ok none task output claim h = cc
  make_claim_for-ok (some p) task output claim h =
      let (u, valid, rest) = bind-ok (validate_profile p) _ claim h in
      let (c, committed, made) = bind-ok (commit_junctioning sha256 task output) _ claim rest in
      (p, refl, valid, c, committed, ok-injective made)

  -- A replay by a backend that reproduces the output.
  replay-reproduced :
      (backend : InferenceBackend) (task : VerifiableTask) (output : Text) (p : ExecutionProfile)
      (c : Text)
      → task.execution_profile ≡ some p
      → validate_profile p ≡ ok tt
      → commit_junctioning sha256 task output ≡ ok c
      → Reproduces backend task output
      → verify_replay sha256 (record { task = task; output_text = output; commitment = c }) backend
        ≡ ok (record {
          verified = true;
          compatible = true;
          expected_commitment = c;
          actual_commitment = c;
        })
  unfolding verify_replay replay
  replay-reproduced backend task output p c profiled valid committed r =
      let claim : JunctioningClaim = record { task = task; output_text = output; commitment = c } in
      let result : Text → VerificationResult = λ actual. record {
        verified = text_eq actual c;
        compatible = true;
        expected_commitment = c;
        actual_commitment = actual;
      } in
      let commit : Text → Result ReplayError VerificationResult =
        λ out. commit_junctioning sha256 task out >>= λ actual. ok (result actual) in
      let compatible : is_compatible p (backend.execution_profile task.model) ≡ true =
        ap (is_compatible p) (r.same_profile ∙ profiled) ∙ is_compatible_refl p valid in
      ap (λ found. replay sha256 found claim backend) profiled
      ∙ ap (λ t. if t then commit (rerun sha256 claim backend) else ok (incompatible claim))
          compatible
      ∙ ap commit r.same_output
      ∙ ok-bind (λ actual. ok (result actual)) committed
      ∙ ap
          (λ t. ok (record {
            verified = t;
            compatible = true;
            expected_commitment = c;
            actual_commitment = c;
          }))
          (text_eq_refl c)

-- A claim that is made and then replayed by a backend that reproduces its output is never slashed,
-- whatever the beacon, the sampling and the node: the resolution returns the ledger as it is, and where
-- the claim is challenged it passes.
pub resolve_challenge_honest :
    (sha256 : Bytes → Bytes) (params : ChallengeParams) (backend : InferenceBackend)
    (task : VerifiableTask) (output : Text) (claim : JunctioningClaim) (node beacon : Text)
    (ledger : StakeLedger)
    → make_claim sha256 task output ≡ ok claim
    → Reproduces backend task output
    → (r : ChallengeResolution) × (resolve_challenge sha256 params backend claim node beacon ledger
        ≡ ok (ledger, r))
      × (r.removed ≡ pos 0)
      × (r.challenger_reward ≡ pos 0)
      × ((r.outcome ≡ not_challenged) ⊎ ((r.outcome ≡ passed) × (r.verified ≡ some true)))
unfolding make_claim resolve_challenge settle_challenge
resolve_challenge_honest sha256 params backend task output claim node beacon ledger h r =
    let (p, profiled, valid, c, committed, made) =
      make_claim_for-ok sha256 task.execution_profile task output claim h in
    let verified : verify_replay sha256 claim backend
        ≡ ok (record {
          verified = true;
          compatible = true;
          expected_commitment = c;
          actual_commitment = c;
        }) =
      ap (λ claim. verify_replay sha256 claim backend) made
      ∙ replay-reproduced sha256 backend task output p c profiled valid committed r in
    elim (Bool-cases (should_challenge sha256 claim beacon params.challenge_probability)) [
      | inl challenged ↦ (passing, rw (challenged, verified), refl, refl, inr (refl, refl))
      | inr skipped ↦ (unchallenged, rw skipped, refl, refl, inl refl)
    ]

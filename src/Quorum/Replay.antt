-- ===== src/Quorum/Replay.antt =====
-- packages/jgc-node/src/broker/verification.ts: the commitment of a claim and its check by a replay. What
-- the backend of a challenger computes, and SHA-256, are parameters. The texts of reasons are left out.
use junctiongenerator.Base.{
  Bool, true, false, not, ◌&&◌, ◌||◌, Option, none, some, List, [], ◌∷◌, ◌++◌, ltb, length, Result,
  ok, err, ◌>>=◌, ◌>>◌, throw_if, if◌then◌else◌,
}
use junctiongenerator.Base.Int.{pos, negsuc}
use junctiongenerator.Base.Texts.{Bytes, Text, text_eq}
use junctiongenerator.Base.Hex.{to_hex}
use junctiongenerator.Canonical.{Number, int, not_an_integer, be_bytes, max_safe_integer}
use junctiongenerator.Headers.{is_canonical_hash}
use junctiongenerator.Proposer.{is_empty}
use junctiongenerator.Audits.{prefixed}
use junctiongenerator.Work.Json.{json_number}

-- "jgc-exact-replay-v1"
abbrev pub replay_protocol : Text
replay_protocol =
    b'j' ∷ b'g' ∷ b'c' ∷ b'-' ∷ b'e' ∷ b'x' ∷ b'a' ∷ b'c' ∷ b't' ∷ b'-' ∷ b'r' ∷ b'e' ∷ b'p' ∷ b'l'
    ∷ b'a' ∷ b'y' ∷ b'-' ∷ b'v' ∷ b'1' ∷ []

-- "JGC/JUNCTIONING/CLAIM/V1"
abbrev pub claim_domain : Text
claim_domain =
    b'J' ∷ b'G' ∷ b'C' ∷ b'/' ∷ b'J' ∷ b'U' ∷ b'N' ∷ b'C' ∷ b'T' ∷ b'I' ∷ b'O' ∷ b'N' ∷ b'I' ∷ b'N'
    ∷ b'G' ∷ b'/' ∷ b'C' ∷ b'L' ∷ b'A' ∷ b'I' ∷ b'M' ∷ b'/' ∷ b'V' ∷ b'1' ∷ []

-- "UNSCOPED-LEGACY"
abbrev pub legacy_profile : Text
legacy_profile =
    b'U' ∷ b'N' ∷ b'S' ∷ b'C' ∷ b'O' ∷ b'P' ∷ b'E' ∷ b'D' ∷ b'-' ∷ b'L' ∷ b'E' ∷ b'G' ∷ b'A' ∷ b'C'
    ∷ b'Y' ∷ []

pub record ExecutionProfile : Type 0 where
  pub protocol : Text
  pub runtime : Text
  pub runtime_version : Text
  pub model_digest : Text
  pub tokenizer_digest : Text
  pub quantization : Text
  pub numeric_backend : Text

-- A floating-point number: its text, and whether it is finite and not negative.
pub record Temperature : Type 0 where
  pub text : Text
  pub is_valid : Bool

pub record VerifiableTask : Type 0 where
  pub prompt : Text
  pub model : Text
  pub max_tokens : Number
  pub temperature : Temperature
  pub seed : Number
  pub execution_profile : Option ExecutionProfile

pub record JunctioningClaim : Type 0 where
  pub task : VerifiableTask
  pub output_text : Text
  pub commitment : Text

-- A challenger's backend: the profile that it reports for a model, if any, and the text of a run.
pub record InferenceBackend : Type 0 where
  pub execution_profile : Text → Option ExecutionProfile
  pub run : Text → Text → Number → Temperature → Number → Text

pub data ReplayError : Type 0 where
  unsupported_protocol not_a_digest empty_field bad_max_tokens bad_seed : ReplayError
  bad_temperature no_profile : ReplayError

pub record VerificationResult : Type 0 where
  pub verified : Bool
  pub compatible : Bool
  pub expected_commitment : Text
  pub actual_commitment : Text

abbrev pub canonical_profile : ExecutionProfile → List Text
canonical_profile p =
    p.protocol ∷ p.runtime ∷ p.runtime_version ∷ p.model_digest ∷ p.tokenizer_digest
    ∷ p.quantization ∷ p.numeric_backend ∷ []

abbrev pub has_empty : List Text → Bool
has_empty [] = false
has_empty (t ∷ ts) = is_empty t || has_empty ts

unfoldable pub validate_profile : ExecutionProfile → Result ReplayError (Unit {0})
validate_profile p = do
  throw_if (not (text_eq p.protocol replay_protocol)) unsupported_protocol
  throw_if (not (is_canonical_hash p.model_digest)) not_a_digest
  throw_if (not (is_canonical_hash p.tokenizer_digest)) not_a_digest
  throw_if (has_empty (canonical_profile p)) empty_field

abbrev pub is_positive_safe : Number → Bool
is_positive_safe (int (pos n)) = ltb 0 n && not (ltb max_safe_integer n)
is_positive_safe _ = false

abbrev pub is_safe : Number → Bool
is_safe (int (pos n)) = not (ltb max_safe_integer n)
is_safe (int (negsuc n)) = ltb n max_safe_integer
is_safe not_an_integer = false

abbrev pub validate_scope : Option ExecutionProfile → Result ReplayError (Unit {0})
validate_scope none = ok tt
validate_scope (some p) = validate_profile p

unfoldable pub validate_task : VerifiableTask → Result ReplayError (Unit {0})
validate_task task = do
  throw_if (not (is_positive_safe task.max_tokens)) bad_max_tokens
  throw_if (not (is_safe task.seed)) bad_seed
  throw_if (not task.temperature.is_valid) bad_temperature
  validate_scope task.execution_profile

abbrev pub profile_fields : Option ExecutionProfile → List Text
profile_fields none = legacy_profile ∷ []
profile_fields (some p) = canonical_profile p

-- Each field with its length in four bytes before it.
unfoldable pub canonical_task : VerifiableTask → Bytes
canonical_task t = prefixed (
    (claim_domain
      ∷ t.model
      ∷ json_number t.max_tokens
      ∷ t.temperature.text
      ∷ json_number t.seed
      ∷ t.prompt
      ∷ [])
    ++ profile_fields t.execution_profile)

abbrev pub same_fields : List Text → List Text → Bool
same_fields [] _ = true
same_fields (t ∷ ts) [] = false
same_fields (t ∷ ts) (u ∷ us) = text_eq t u && same_fields ts us

abbrev pub same_profile : ExecutionProfile → ExecutionProfile → Bool
same_profile a b = same_fields (canonical_profile a) (canonical_profile b)

abbrev pub is_valid : ExecutionProfile → Bool
is_valid p = elim (validate_profile p) [ ok _ ↦ true | err _ ↦ false ]

-- Whether the verifier's profile is there, valid and the claim's.
abbrev pub is_compatible : ExecutionProfile → Option ExecutionProfile → Bool
is_compatible profile none = false
is_compatible profile (some verifier) = is_valid verifier && same_profile profile verifier

abbrev pub incompatible : JunctioningClaim → VerificationResult
incompatible claim = record {
  verified = false;
  compatible = false;
  expected_commitment = claim.commitment;
  actual_commitment = [];
}

module _ (sha256 : Bytes → Bytes) where
  unfoldable pub commit_junctioning : VerifiableTask → Text → Result ReplayError Text
  commit_junctioning task output = do
    validate_task task
    ok (to_hex (sha256 (canonical_task task ++ (be_bytes 4 (length output) ++ output))))

  -- Of the task's profile.
  unfoldable pub make_claim_for :
      Option ExecutionProfile → VerifiableTask → Text → Result ReplayError JunctioningClaim
  make_claim_for none task output = err no_profile
  make_claim_for (some p) task output = do
    validate_profile p
    commitment ← commit_junctioning task output
    ok (record { task = task; output_text = output; commitment = commitment })

  unfoldable pub make_claim : VerifiableTask → Text → Result ReplayError JunctioningClaim
  make_claim task output = make_claim_for task.execution_profile task output

  abbrev pub rerun : JunctioningClaim → InferenceBackend → Text
  rerun claim backend =
      let t = claim.task in backend.run t.prompt t.model t.max_tokens t.temperature t.seed

  -- Of the claim's profile.
  unfoldable pub replay :
      Option ExecutionProfile
      → JunctioningClaim
      → InferenceBackend
      → Result ReplayError VerificationResult
  replay none claim backend = ok (incompatible claim)
  replay (some profile) claim backend =
      if is_compatible profile (backend.execution_profile claim.task.model)
      then (do
        actual ← commit_junctioning claim.task (rerun claim backend)
        ok (record {
          verified = text_eq actual claim.commitment;
          compatible = true;
          expected_commitment = claim.commitment;
          actual_commitment = actual;
        }))
      else ok (incompatible claim)

  unfoldable pub verify_replay :
      JunctioningClaim → InferenceBackend → Result ReplayError VerificationResult
  verify_replay claim backend = replay claim.task.execution_profile claim backend

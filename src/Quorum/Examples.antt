-- ===== src/Quorum/Examples.antt =====
-- Votes, a slash and an honest claim, and the theorems at them. SHA-256 is replaced by the last byte.
use junctiongenerator.Base.{
  ℕ, zero, suc, ◌≡◌, ◌⊎◌, refl, true, false, some, List, [], ◌∷◌, arith, ok,
}
use junctiongenerator.Base.Int.{pos, ◌≤ℤ◌, ◌-ℤ◌, ◌+ℤ◌, ◌*ℤ◌}
use junctiongenerator.Base.Texts.{Bytes, Text, text_eq}
use junctiongenerator.Base.Hex.{to_hex, hex_digit}
use junctiongenerator.Base.Maps.{lookup, insert}
use junctiongenerator.Canonical.{int, be_bytes}
use junctiongenerator.Headers.{is_canonical_hash}
use junctiongenerator.Spending.{decimal}
use junctiongenerator.Audits.{prefixed}
use junctiongenerator.Quorum.{
  StakeLedger, stake_of, bond, slash, is_selected, SelectionProbability, ChallengerVote, pass,
  slashing, inconclusive, Ratio, tally_quorum, count_votes, top_vote, QuorumChallengeParams,
  QuorumResolution,
}
use junctiongenerator.Quorum.Replay.{
  ExecutionProfile, VerifiableTask, JunctioningClaim, InferenceBackend, replay_protocol, make_claim,
  make_claim_for, commit_junctioning, validate_profile, validate_task, canonical_task,
  verify_replay, replay,
}
use junctiongenerator.Quorum.Resolution.{
  Challenger, ChallengeParams, ChallengeResolution, not_challenged, passed, rewarded, collect_votes,
  select_challengers, settle_quorum, resolve_quorum, verifiable_draw, resolve_challenge,
}
use junctiongenerator.Quorum.Verdicts.{tally_quorum_iff}
use junctiongenerator.Quorum.Stakes.{IsResolution, resolve_quorum-IsResolution}
use junctiongenerator.Quorum.Honest.{resolve_challenge_honest}

abbrev last : Bytes → ℕ
last [] = 0
last (b ∷ []) = b
last (b ∷ c ∷ bytes) = last (c ∷ bytes)

abbrev sha256 : Bytes → Bytes
sha256 bytes = last bytes ∷ []

abbrev zeros : ℕ → Text
zeros zero = []
zeros (suc n) = b'0' ∷ zeros n

abbrev letter : ℕ → Text
letter n = n ∷ []

abbrev profile : ExecutionProfile
profile = record {
  protocol = replay_protocol;
  runtime = letter b'r';
  runtime_version = letter b'1';
  model_digest = zeros 64;
  tokenizer_digest = zeros 64;
  quantization = letter b'q';
  numeric_backend = letter b'c';
}

abbrev task : VerifiableTask
task = record {
  prompt = letter b'p';
  model = letter b'm';
  max_tokens = int (pos 8);
  temperature = record { text = letter b'0'; is_valid = true };
  seed = int (pos 0);
  execution_profile = some profile;
}

abbrev backend_of : Text → InferenceBackend
backend_of output = record {
  execution_profile = λ model. some profile;
  run = λ prompt model max_tokens temperature seed. output;
}

abbrev claim_of : Text → Text → JunctioningClaim
claim_of output commitment = record { task = task; output_text = output; commitment = commitment }

-- The commitment to the output "A".
abbrev commitment_a : Text
commitment_a = to_hex (b'A' ∷ [])

abbrev commitment_b : Text
commitment_b = to_hex (b'B' ∷ [])

made_a : make_claim sha256 task (letter b'A') ≡ ok (claim_of (letter b'A') commitment_a)
unfolding make_claim make_claim_for validate_profile commit_junctioning validate_task text_eq
    is_canonical_hash canonical_task prefixed be_bytes decimal
made_a = refl

abbrev always : SelectionProbability
always = record { is_certain = true; is_impossible = false; is_drawn = λ draw. true }

abbrev two_thirds : Ratio
two_thirds = record { numerator = 2; denominator = 3 }

abbrev params : QuorumChallengeParams
params = record {
  selection_probability = always;
  agreement_threshold = two_thirds;
  min_quorum = 2;
  slash_amount = pos 30;
  challenger_reward_bps = 5000;
}

abbrev challenger : ℕ → ℕ → Challenger
challenger id output = record { id = letter id; backend = backend_of (letter output) }

abbrev three : List Challenger
three = challenger b'x' b'B' ∷ challenger b'y' b'A' ∷ challenger b'z' b'B' ∷ []

abbrev bonded : StakeLedger
bonded = record { stakes = (letter b'n', pos 20) ∷ []; slashed = [] }

bond_twice :
    stake_of (bond (bond bonded (letter b'k') (pos 1)) (letter b'k') (pos 2)) (letter b'k') ≡ pos 3
unfolding stake_of bond insert lookup ◌+ℤ◌ text_eq
bond_twice = refl

abbrev after_slash : StakeLedger
after_slash = record { stakes = (letter b'n', pos 0) ∷ []; slashed = letter b'n' ∷ [] }

-- Two of three reject the claim of "A": the whole stake is gone.
abbrev slashed_a : QuorumResolution
slashed_a = record {
  challenged = true;
  verdict = slashing;
  selected = letter b'x' ∷ letter b'y' ∷ letter b'z' ∷ [];
  tally = record {
    verdict = slashing;
    total = 3;
    top_commitment = some commitment_b;
    top_count = 2;
    matches_claim = false;
  };
  slashed = pos 20;
  challenger_reward = pos 100000;
  rewarded_challengers = letter b'x' ∷ letter b'z' ∷ [];
}

resolved_a :
    resolve_quorum sha256 params three (claim_of (letter b'A') commitment_a) (letter b'n') [] bonded
    ≡ ok (after_slash, slashed_a)
unfolding resolve_quorum select_challengers is_selected verifiable_draw collect_votes verify_replay
    replay commit_junctioning validate_task validate_profile tally_quorum count_votes top_vote
    settle_quorum slash rewarded stake_of lookup insert ◌-ℤ◌ ◌*ℤ◌ text_eq is_canonical_hash to_hex
    hex_digit canonical_task prefixed be_bytes decimal
resolved_a = refl

-- Two of three votes are the two thirds that the verdict takes.
tally_quorum_iff_example :
    (tally_quorum (letter b'c') (letter b'd' ∷ letter b'c' ∷ letter b'c' ∷ []) two_thirds 2).verdict
    ≡ pass
unfolding text_eq
tally_quorum_iff_example =
    (tally_quorum_iff (letter b'c') (letter b'd' ∷ letter b'c' ∷ letter b'c' ∷ []) two_thirds 2
        (omega arith) (omega arith)).0.1
      (omega arith, omega arith)

nonneg_bond : pos 0 ≤ℤ stake_of bonded (letter b'n')
unfolding stake_of lookup text_eq
nonneg_bond = omega arith

resolve_quorum-IsResolution_example :
    (votes : List ChallengerVote) × IsResolution params
      (claim_of (letter b'A') commitment_a)
      (letter b'n')
      votes
      bonded
      after_slash
      slashed_a
    × ((slashed_a.verdict ≡ inconclusive)
        ⊎ (collect_votes sha256
              (claim_of (letter b'A') commitment_a)
              (select_challengers sha256 commitment_a [] three always)
            ≡ ok votes))
resolve_quorum-IsResolution_example =
    resolve_quorum-IsResolution sha256 params three (claim_of (letter b'A') commitment_a)
      (letter b'n') [] bonded after_slash slashed_a nonneg_bond resolved_a

abbrev challenge_params : ChallengeParams
challenge_params = record {
  challenge_probability = always;
  slash_amount = pos 30;
  challenger_reward_bps = 5000;
}

resolve_challenge_honest_example :
    (r : ChallengeResolution) × (resolve_challenge sha256 challenge_params
        (backend_of (letter b'A'))
        (claim_of (letter b'A') commitment_a)
        (letter b'n')
        []
        bonded
      ≡ ok (bonded, r))
    × (r.removed ≡ pos 0)
    × (r.challenger_reward ≡ pos 0)
    × ((r.outcome ≡ not_challenged) ⊎ ((r.outcome ≡ passed) × (r.verified ≡ some true)))
resolve_challenge_honest_example =
    resolve_challenge_honest sha256 challenge_params (backend_of (letter b'A')) task (letter b'A')
      (claim_of (letter b'A') commitment_a) (letter b'n') [] bonded made_a
      (record { same_profile = refl; same_output = refl })

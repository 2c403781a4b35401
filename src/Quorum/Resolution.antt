-- ===== src/Quorum/Resolution.antt =====
-- `ChallengeCoordinator` of challenge.ts and `QuorumChallengeCoordinator` of quorum.ts. A coordinator's
-- ledger is passed on: each call returns the one that it leaves behind. The texts of reasons are left out.
use junctiongenerator.Base.{
  ℕ, Bool, true, false, not, Option, none, some, List, [], ◌∷◌, ◌++◌, map, ltb, length,
  if◌then◌else◌, Result, ok, ◌>>=◌,
}
use junctiongenerator.Base.Int.{ℤ, pos, ◌*ℤ◌}
use junctiongenerator.Base.Texts.{Bytes, Text}
use junctiongenerator.Proposer.{big_endian}
use junctiongenerator.Spending.Bonds.{take}
use junctiongenerator.Quorum.{
  StakeLedger, slash, SelectionProbability, is_selected, ChallengerVote, QuorumVerdict, pass,
  slashing, inconclusive, QuorumTally, tally_quorum, matches, QuorumChallengeParams,
  QuorumResolution,
}
use junctiongenerator.Quorum.Replay.{
  JunctioningClaim, InferenceBackend, ReplayError, VerificationResult, verify_replay,
}

pub record Challenger : Type 0 where
  pub id : Text
  pub backend : InferenceBackend

pub data ChallengeOutcome : Type 0 where
  not_challenged passed slashed undecided : ChallengeOutcome

pub record ChallengeParams : Type 0 where
  pub challenge_probability : SelectionProbability
  pub slash_amount : ℤ
  pub challenger_reward_bps : ℕ

-- The reward is given in 1/10000 of the unit.
pub record ChallengeResolution : Type 0 where
  pub challenged : Bool
  pub verified : Option Bool
  pub outcome : ChallengeOutcome
  pub removed : ℤ
  pub challenger_reward : ℤ

-- The ids, or commitments, of the votes.
abbrev pub ids : List Challenger → List Text
ids cs = map (λ (c : Challenger). c.id) cs

abbrev pub commitments : List ChallengerVote → List Text
commitments votes = map (λ (v : ChallengerVote). v.commitment) votes

abbrev pub add_vote : Text → VerificationResult → List ChallengerVote → List ChallengerVote
add_vote id result votes =
    if result.compatible
    then (record { id = id; commitment = result.actual_commitment }) ∷ votes
    else votes

-- The voters for the commitment that most agree on.
unfoldable pub rewarded : Option Text → List ChallengerVote → List Text
rewarded top [] = []
rewarded top (v ∷ votes) =
    if matches v.commitment top then v.id ∷ rewarded top votes else rewarded top votes

abbrev pub unchallenged : ChallengeResolution
unchallenged = record {
  challenged = false;
  verified = none;
  outcome = not_challenged;
  removed = pos 0;
  challenger_reward = pos 0;
}

abbrev pub passing : ChallengeResolution
passing = record {
  challenged = true;
  verified = some true;
  outcome = passed;
  removed = pos 0;
  challenger_reward = pos 0;
}

-- A challenged claim, once it is replayed.
unfoldable pub settle_challenge :
    ChallengeParams → StakeLedger → Text → VerificationResult → StakeLedger × ChallengeResolution
settle_challenge params ledger node result =
    if not result.compatible
    then (
      ledger,
      record {
        challenged = true;
        verified = some false;
        outcome = undecided;
        removed = pos 0;
        challenger_reward = pos 0;
      },
    )
    else if result.verified
    then (ledger, passing)
    else (let (ledger', removed) = slash ledger node params.slash_amount in
        (
          ledger',
          record {
            challenged = true;
            verified = some false;
            outcome = slashed;
            removed = removed;
            challenger_reward = removed *ℤ pos params.challenger_reward_bps;
          },
        ))

abbrev pub undecided_by :
    QuorumChallengeParams → List Challenger → QuorumTally → Bool → QuorumVerdict → QuorumResolution
undecided_by params selected tally challenged verdict = record {
  challenged = challenged;
  verdict = verdict;
  selected = ids selected;
  tally = tally;
  slashed = pos 0;
  challenger_reward = pos 0;
  rewarded_challengers = [];
}

-- Once the votes are counted, with this verdict.
unfoldable pub settle_quorum :
    QuorumVerdict
    → QuorumChallengeParams
    → List Challenger
    → List ChallengerVote
    → QuorumTally
    → Text
    → StakeLedger
    → StakeLedger × QuorumResolution
settle_quorum slashing params selected votes tally node ledger =
    let (ledger', removed) = slash ledger node params.slash_amount in
    (
      ledger',
      record {
        challenged = true;
        verdict = slashing;
        selected = ids selected;
        tally = tally;
        slashed = removed;
        challenger_reward = removed *ℤ pos params.challenger_reward_bps;
        rewarded_challengers = rewarded tally.top_commitment votes;
      },
    )
settle_quorum pass params selected votes tally node ledger =
    (ledger, undecided_by params selected tally true pass)
settle_quorum inconclusive params selected votes tally node ledger =
    (ledger, undecided_by params selected tally true inconclusive)

module _ (sha256 : Bytes → Bytes) where
  -- The digest of the parts one after the other; its first eight bytes, of the 2^64 that they can be.
  unfoldable pub verifiable_draw : Text → ℕ
  verifiable_draw parts = big_endian 0 (take 8 (sha256 parts))

  unfoldable pub should_challenge : JunctioningClaim → Text → SelectionProbability → Bool
  should_challenge claim beacon p = is_selected p (verifiable_draw (claim.commitment ++ beacon))

  unfoldable pub select_challengers :
      Text → Text → List Challenger → SelectionProbability → List Challenger
  select_challengers commitment beacon [] p = []
  select_challengers commitment beacon (c ∷ cs) p =
      let rest = select_challengers commitment beacon cs p in
      if is_selected p (verifiable_draw (commitment ++ (beacon ++ c.id))) then c ∷ rest else rest

  -- A replay that throws rejects the whole.
  unfoldable pub collect_votes :
      JunctioningClaim → List Challenger → Result ReplayError (List ChallengerVote)
  collect_votes claim [] = ok []
  collect_votes claim (c ∷ cs) = do
    result ← verify_replay sha256 claim c.backend
    votes ← collect_votes claim cs
    ok (add_vote c.id result votes)

  unfoldable pub resolve_challenge :
      ChallengeParams
      → InferenceBackend
      → JunctioningClaim
      → Text
      → Text
      → StakeLedger
      → Result ReplayError (StakeLedger × ChallengeResolution)
  resolve_challenge params backend claim node beacon ledger =
      if not (should_challenge claim beacon params.challenge_probability)
      then ok (ledger, unchallenged)
      else (do
        result ← verify_replay sha256 claim backend
        ok (settle_challenge params ledger node result))

  unfoldable pub resolve_quorum :
      QuorumChallengeParams
      → List Challenger
      → JunctioningClaim
      → Text
      → Text
      → StakeLedger
      → Result ReplayError (StakeLedger × QuorumResolution)
  resolve_quorum params challengers claim node beacon ledger =
      let selected =
        select_challengers claim.commitment beacon challengers params.selection_probability in
      if ltb (length selected) params.min_quorum
      then ok (
        ledger,
        undecided_by params selected
            (tally_quorum claim.commitment [] params.agreement_threshold params.min_quorum)
            (ltb 0 (length selected)) inconclusive,
      )
      else (do
        votes ← collect_votes claim selected
        let tally : QuorumTally =
            tally_quorum claim.commitment (commitments votes) params.agreement_threshold
              params.min_quorum
        ok (settle_quorum tally.verdict params selected votes tally node ledger))

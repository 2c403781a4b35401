-- ===== src/Quorum/Stakes.antt =====
-- What a resolution does to the stakes: `StakeLedger.slash` under the two coordinators.
use junctiongenerator.Base.{
  ◌≤◌, ◌≡◌, ◌≢◌, ◌⊎◌, inl, inr, refl, sym, ap, ◌∙◌, Bool, true, false, some, List, [], ◌∷◌, arith,
  ltb, if◌then◌else◌, length, ok, ◌>>=◌, bind-ok, ok-injective, subst, Bool-cases,
}
use junctiongenerator.Base.Int.{pos, ◌≤ℤ◌}
use junctiongenerator.Base.Texts.{Bytes, Text, text_eq, text_eq_iff}
use junctiongenerator.Quorum.{
  StakeLedger, stake_of, ChallengerVote, QuorumVerdict, pass, slashing, inconclusive, QuorumTally,
  tally_quorum, QuorumChallengeParams, QuorumResolution,
}
use junctiongenerator.Quorum.Replay.{JunctioningClaim}
use junctiongenerator.Quorum.Tally.{count}
use junctiongenerator.Quorum.Verdicts.{Agrees, tally_quorum_decides}
use junctiongenerator.Quorum.Resolution.{
  Challenger, commitments, rewarded, collect_votes, select_challengers, settle_quorum,
  resolve_quorum, undecided_by,
}
use junctiongenerator.Quorum.Slashes.{IsSlashOf, slash-IsSlashOf}

-- As many are rewarded as voted for the commitment.
length-rewarded :
    (c : Text) (votes : List ChallengerVote)
    → length (rewarded (some c) votes) ≡ count c (commitments votes)
unfolding rewarded
length-rewarded c [] = refl
length-rewarded c (v ∷ votes) =
    ground (arith, text_eq_iff c v.commitment, text_eq_iff v.commitment c, length-rewarded c votes)

-- The ids of the challengers who voted for a commitment, in the order of the votes.
pub data AreVotersFor (c : Text) : List ChallengerVote → List Text → Type 0 where
  no_votes : AreVotersFor c [] []
  voted :
      {v : ChallengerVote} {votes : List ChallengerVote} {ids : List Text}
      → v.commitment ≡ c
      → AreVotersFor c votes ids
      → AreVotersFor c (v ∷ votes) (v.id ∷ ids)
  voted_otherwise :
      {v : ChallengerVote} {votes : List ChallengerVote} {ids : List Text}
      → v.commitment ≢ c
      → AreVotersFor c votes ids
      → AreVotersFor c (v ∷ votes) ids

rewarded-AreVotersFor :
    (c : Text) (votes : List ChallengerVote) → AreVotersFor c votes (rewarded (some c) votes)
unfolding rewarded
rewarded-AreVotersFor c [] = no_votes
rewarded-AreVotersFor c (v ∷ votes) = elim (Bool-cases (text_eq c v.commitment)) [
  | inl same ↦
      rw same (voted (sym ((text_eq_iff c v.commitment).0 same)) (rewarded-AreVotersFor c votes))
  | inr differ ↦ rw differ (
      voted_otherwise
        (λ e.
          let same : text_eq c v.commitment ≡ true = (text_eq_iff c v.commitment).1 (sym e) in cc)
        (rewarded-AreVotersFor c votes))
]

-- Nothing is taken and nobody is rewarded.
pub record IsSpared (before after : StakeLedger) (r : QuorumResolution) : Type 0 where
  not_slashed : r.verdict ≢ slashing
  same_ledger : after ≡ before
  nothing_taken : r.slashed ≡ pos 0
  nobody_rewarded : r.rewarded_challengers ≡ []

-- Stake of the node is taken: at least the minimum voted, the share of the votes is for a commitment that is
-- not the claim's, and those who voted for that one are rewarded.
pub record IsTaken (params : QuorumChallengeParams) (claim : JunctioningClaim) (node : Text)
    (votes : List ChallengerVote) (before after : StakeLedger) (r : QuorumResolution) : Type 0 where
  decided : r.verdict ≡ slashing
  taken : IsSlashOf node before after r.slashed
  quorum : params.min_quorum ≤ length votes
  other_commitment :
      (c : Text) × (c ≢ claim.commitment)
      × Agrees params.agreement_threshold c (commitments votes)
      × AreVotersFor c votes r.rewarded_challengers
      × (length r.rewarded_challengers ≡ count c (commitments votes))

abbrev pub IsResolution :
    QuorumChallengeParams
    → JunctioningClaim
    → Text
    → List ChallengerVote
    → StakeLedger
    → StakeLedger
    → QuorumResolution
    → Type 0
IsResolution params claim node votes before after r =
    IsSpared before after r ⊎ IsTaken params claim node votes before after r

length-commitments : (votes : List ChallengerVote) → length (commitments votes) ≡ length votes
length-commitments [] = refl
length-commitments (v ∷ votes) = ground (arith, length-commitments votes)

settle_quorum-IsResolution :
    (verdict : QuorumVerdict) (params : QuorumChallengeParams) (selected : List Challenger)
    (claim : JunctioningClaim) (votes : List ChallengerVote) (node : Text) (ledger : StakeLedger)
    (tally : QuorumTally)
    → pos 0 ≤ℤ stake_of ledger node
    → (verdict ≡ slashing
        → (params.min_quorum ≤ length (commitments votes))
          × (c : Text) × (c ≢ claim.commitment)
          × Agrees params.agreement_threshold c (commitments votes)
          × (tally.top_commitment ≡ some c))
    → let settled = settle_quorum verdict params selected votes tally node ledger in
      IsResolution params claim node votes ledger settled.0 settled.1
unfolding settle_quorum
settle_quorum-IsResolution slashing params selected claim votes node ledger tally nonneg why =
    let (enough, c, other, agrees, leads) = why refl in
    inr (record {
      decided = refl;
      taken = slash-IsSlashOf ledger node params.slash_amount nonneg;
      quorum = omega (arith, enough, length-commitments votes);
      other_commitment = (
        c,
        other,
        agrees,
        subst (λ t. AreVotersFor c votes (rewarded t votes)) (sym leads)
            (rewarded-AreVotersFor c votes),
        ap (λ t. length (rewarded t votes)) leads ∙ length-rewarded c votes,
      );
    })
settle_quorum-IsResolution pass params selected claim votes node ledger tally nonneg why =
    inl (record {
      not_slashed = λ h. cc;
      same_ledger = refl;
      nothing_taken = refl;
      nobody_rewarded = refl;
    })
settle_quorum-IsResolution inconclusive params selected claim votes node ledger tally nonneg why =
    inl (record {
      not_slashed = λ h. cc;
      same_ledger = refl;
      nothing_taken = refl;
      nobody_rewarded = refl;
    })

untouched :
    (params : QuorumChallengeParams) (selected : List Challenger) (tally : QuorumTally)
    (challenged : Bool) (claim : JunctioningClaim) (node : Text) (ledger : StakeLedger)
    → IsResolution params claim node [] ledger ledger
        (undecided_by params selected tally challenged inconclusive)
untouched params selected tally challenged claim node ledger = inl (record {
  not_slashed = λ h. cc;
  same_ledger = refl;
  nothing_taken = refl;
  nobody_rewarded = refl;
})

-- A resolution from a ledger where the stake of the node is not negative: unless the verdict is to slash,
-- the ledger stays as it is, nothing is taken and nobody is rewarded. If it is to slash, the removed part of
-- the node's stake is between zero and all of it, no other stake changes, at least the minimum voted,
-- the share of the votes is for a commitment other than the claim's, and the challengers who voted for that
-- one, and nobody else, are rewarded, in the order of the votes. Where the verdict is not inconclusive, these are the votes of the selected challengers.
pub resolve_quorum-IsResolution :
    (sha256 : Bytes → Bytes) (params : QuorumChallengeParams) (challengers : List Challenger)
    (claim : JunctioningClaim) (node beacon : Text) (before after : StakeLedger)
    (r : QuorumResolution)
    → pos 0 ≤ℤ stake_of before node
    → resolve_quorum sha256 params challengers claim node beacon before ≡ ok (after, r)
    → (votes : List ChallengerVote) × IsResolution params claim node votes before after r
      × ((r.verdict ≡ inconclusive)
          ⊎ (collect_votes sha256 claim (
                select_challengers sha256 claim.commitment beacon challengers
                  params.selection_probability)
              ≡ ok votes))
unfolding resolve_quorum
resolve_quorum-IsResolution sha256 params challengers claim node beacon before after r nonneg h =
    resolved (ltb (length selected) params.min_quorum) h
  where
    selected : List Challenger
    selected =
        select_challengers sha256 claim.commitment beacon challengers params.selection_probability

    tally : List ChallengerVote → QuorumTally
    tally votes =
        tally_quorum claim.commitment (commitments votes) params.agreement_threshold
          params.min_quorum

    resolved :
        (few : Bool)
        → (if few
            then ok (
              before,
              undecided_by params selected (tally []) (ltb 0 (length selected)) inconclusive,
            )
            else (collect_votes sha256 claim selected >>= λ votes. ok (
                settle_quorum
                  (tally votes).verdict
                  params
                  selected
                  votes
                  (tally votes)
                  node
                  before)))
          ≡ ok (after, r)
        → (votes : List ChallengerVote) × IsResolution params claim node votes before after r
          × ((r.verdict ≡ inconclusive) ⊎ (collect_votes sha256 claim selected ≡ ok votes))
    resolved true h =
        let made = ok-injective h in
        subst
          (λ made.
            (votes : List ChallengerVote) × IsResolution params claim node votes before made.0
              made.1
            × ((made.1.verdict ≡ inconclusive) ⊎ (collect_votes sha256 claim selected ≡ ok votes)))
          (sym made)
          (
            [],
            untouched params selected (tally []) (ltb 0 (length selected)) claim node before,
            inl refl,
          )
    resolved false h =
        let (votes, collected, rest) = bind-ok (collect_votes sha256 claim selected) _ _ h in
        let made = ok-injective rest in
        subst
          (λ made.
            (votes : List ChallengerVote) × IsResolution params claim node votes before made.0
              made.1
            × ((made.1.verdict ≡ inconclusive) ⊎ (collect_votes sha256 claim selected ≡ ok votes)))
          (sym made)
          (
            votes,
            settle_quorum-IsResolution (tally votes).verdict params selected claim votes node before
                (tally votes) nonneg
                (tally_quorum_decides claim.commitment (commitments votes)
                  params.agreement_threshold params.min_quorum).1,
            inr collected,
          )

-- ===== src/Quorum.antt =====
-- packages/jgc-node/src/broker/challenge.ts and quorum.ts: bonded stakes, the votes of challengers on a
-- claim, and the slashing of a claim that they reject. Quorum/Replay has the replays, Quorum/Resolution the coordinators.
pub mod Replay
pub mod Resolution
pub mod Tally
pub mod Verdicts
pub mod Slashes
pub mod Stakes
pub mod Honest
mod Examples
use junctiongenerator.Base.{
  ℕ, ◌+◌, ◌*◌, ◌/◌, Bool, true, false, not, ◌&&◌, ◌||◌, Option, none, some, List, [], ◌∷◌, map, ltb,
  leb, ◌==◌, if◌then◌else◌, length,
}
use junctiongenerator.Base.Int.{ℤ, pos, negsuc, int_leb, ◌-ℤ◌, ◌+ℤ◌}
use junctiongenerator.Base.Texts.{Text, text_eq}
use junctiongenerator.Base.Maps.{TextMap, lookup, insert}
use junctiongenerator.Proposer.{has}

-- The stakes and slash amounts are integers here.
pub record StakeLedger : Type 0 where
  pub stakes : TextMap ℤ
  pub slashed : List Text

abbrev pub or_none : Option ℤ → ℤ
or_none none = pos 0
or_none (some n) = n

unfoldable pub stake_of : StakeLedger → Text → ℤ
stake_of ledger node = or_none (lookup node ledger.stakes)

unfoldable pub bond : StakeLedger → Text → ℤ → StakeLedger
bond ledger node amount = record ledger {
  stakes = insert node (stake_of ledger node +ℤ amount) ledger.stakes;
}

unfoldable pub is_slashed : StakeLedger → Text → Bool
is_slashed ledger node = has node ledger.slashed

abbrev pub int_min : ℤ → ℤ → ℤ
int_min a b = if int_leb a b then a else b

abbrev pub int_max : ℤ → ℤ → ℤ
int_max a b = if int_leb a b then b else a

-- `slashed.add(nodeId)`
abbrev pub add_slashed : Text → List Text → List Text
add_slashed node nodes = if has node nodes then nodes else node ∷ nodes

-- The ledger behind the call, and what is removed.
unfoldable pub slash : StakeLedger → Text → ℤ → StakeLedger × ℤ
slash ledger node amount =
    let have = stake_of ledger node in
    let removed = int_min have (int_max (pos 0) amount) in
    (
      record {
        stakes = insert node (have -ℤ removed) ledger.stakes;
        slashed = add_slashed node ledger.slashed;
      },
      removed,
    )

-- What the code reads of a floating-point probability: the tests against 1 and 0, and whether a draw is
-- below it.
pub record SelectionProbability : Type 0 where
  pub is_certain : Bool
  pub is_impossible : Bool
  pub is_drawn : ℕ → Bool

-- `shouldChallenge` and `isChallengerSelected`, on the draw that they make.
unfoldable pub is_selected : SelectionProbability → ℕ → Bool
is_selected p draw =
    if p.is_certain then true else if p.is_impossible then false else p.is_drawn draw

pub record ChallengerVote : Type 0 where
  pub id : Text
  pub commitment : Text

pub data QuorumVerdict : Type 0 where
  pass slashing inconclusive : QuorumVerdict

-- A fraction: `agreementThreshold` as two numbers.
pub record Ratio : Type 0 where
  pub numerator : ℕ
  pub denominator : ℕ

pub record QuorumTally : Type 0 where
  pub verdict : QuorumVerdict
  pub total : ℕ
  pub top_commitment : Option Text
  pub top_count : ℕ
  pub matches_claim : Bool

abbrev pub or_zero : Option ℕ → ℕ
or_zero none = 0
or_zero (some n) = n

-- The first `for` of `tallyQuorum`.
unfoldable pub count_votes : List Text → TextMap ℕ → TextMap ℕ
count_votes [] counts = counts
count_votes (v ∷ votes) counts = count_votes votes (insert v (or_zero (lookup v counts) + 1) counts)

-- The second `for`.
unfoldable pub top_vote : TextMap ℕ → Option Text → ℕ → Option Text × ℕ
top_vote [] top count = (top, count)
top_vote ((c, n) ∷ counts) top count =
    top_vote counts (if ltb count n then some c else top) (if ltb count n then n else count)

abbrev pub matches : Text → Option Text → Bool
matches claim none = false
matches claim (some top) = text_eq top claim

abbrev pub is_missing : Option Text → Bool
is_missing none = true
is_missing (some top) = false

-- `agreement < threshold`, on the fractions themselves.
abbrev pub is_below : ℕ → ℕ → Ratio → Bool
is_below count total t = ltb (count * t.denominator) (t.numerator * total)

unfoldable pub tally_quorum : Text → List Text → Ratio → ℕ → QuorumTally
tally_quorum claim votes threshold min_quorum =
    let total = length votes in
    let top = top_vote (count_votes votes []) none 0 in
    record {
      verdict =
          if ltb total min_quorum || (is_missing top.0 || is_below top.1 total threshold)
          then inconclusive
          else if matches claim top.0
          then pass
          else slashing;
      total = total;
      top_commitment = top.0;
      top_count = top.1;
      matches_claim = matches claim top.0;
    }

pub record QuorumChallengeParams : Type 0 where
  pub selection_probability : SelectionProbability
  pub agreement_threshold : Ratio
  pub min_quorum : ℕ
  pub slash_amount : ℤ
  pub challenger_reward_bps : ℕ

-- The reward is given in 1/10000 of the unit, as `Math.floor(…)` before the division.
pub record QuorumResolution : Type 0 where
  pub challenged : Bool
  pub verdict : QuorumVerdict
  pub selected : List Text
  pub tally : QuorumTally
  pub slashed : ℤ
  pub challenger_reward : ℤ
  pub rewarded_challengers : List Text

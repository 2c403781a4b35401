-- ===== src/Audits.antt =====
-- packages/jgc-node/src/broker/audit-schedule.ts: which claims of a window are audited, and by which
-- validators. SHA3-256 is a parameter.
pub mod Ids
mod Examples
pub mod Schedule
use mathlib.Core.List.{filter}
use junctiongenerator.Base.{
  ℕ, ◌+◌, ◌-◌, ◌*◌, ◌≡◌, Bool, true, false, not, ◌&&◌, ◌||◌, Option, none, some, List, [], ◌∷◌,
  ◌++◌, map, ltb, leb, ◌==◌, if◌then◌else◌, length, Result, ok, err, ◌>>=◌, ◌>>◌, throw_if,
}
use junctiongenerator.Base.Int.{ℤ, pos, negsuc, int_leb}
use junctiongenerator.Base.Texts.{Bytes, Text, text_eq}
use junctiongenerator.Base.Hex.{between, to_hex}
use junctiongenerator.Base.Maps.{TextMap, lookup, insert}
use junctiongenerator.Base.Sorting.{sort_by}
use junctiongenerator.Canonical.{Number, int, be_bytes, max_safe_integer}
use junctiongenerator.Canonical.Order.{bytes_le}
use junctiongenerator.Proposer.{
  has, is_empty, is_hash, to_lower_case, big_endian, decide_true, ValidatorBond,
  ValidatorStakeSnapshot,
}
use junctiongenerator.Spending.{decimal}
use junctiongenerator.Spending.Bonds.{take}

pub record AuditableComputeClaim : Type 0 where
  pub claim_id : Text
  pub claimant_id : Text
  pub commitment : Text
  pub block_height : ℕ

pub record AuditValidator : Type 0 where
  pub validator_id : Text
  pub bonded_stake : ℤ
  pub active : Bool

pub record AuditWindow : Type 0 where
  pub index : ℕ
  pub start_height : ℕ
  pub end_height : ℕ
  pub beacon_height : ℕ

-- What the code reads of the floating-point probability: whether it is between 0 and 1, and whether a
-- draw, the number of 64 bits over 2^64, is below it.
pub record Probability : Type 0 where
  pub is_in_range : Bool
  pub is_above : ℕ → Bool

pub record AuditPolicy : Type 0 where
  pub window_size : Number
  pub beacon_delay_blocks : Number
  pub committee_size : Number
  pub minimum_bond : ℤ
  pub extra_claim_probability : Probability

pub data AuditReason : Type 0 where
  coverage random_sample : AuditReason

pub record AuditAssignment : Type 0 where
  pub window_index : ℕ
  pub claim_id : Text
  pub claimant_id : Text
  pub commitment : Text
  pub claim_height : ℕ
  pub beacon_height : ℕ
  pub beacon_hash : Text
  pub committee : List Text
  pub reason : AuditReason

pub record AuditSchedule : Type 0 where
  pub window : AuditWindow
  pub assignments : List AuditAssignment
  pub uncovered_claimants : List Text

pub record Beacon : Type 0 where
  pub height : ℕ
  pub hash : Text

pub data AuditError : Type 0 where
  not_positive negative_bond probability_out_of_range bad_index bad_beacon bad_hash : AuditError
  bad_claim_id bad_validator_id : AuditError

unfoldable pub require_positive_integer : Number → Result AuditError ℕ
require_positive_integer (int (pos n)) = do throw_if (n == 0) not_positive; ok n
require_positive_integer _ = err not_positive

-- The integers of a policy.
pub record PolicySizes : Type 0 where
  pub window_size : ℕ
  pub beacon_delay_blocks : ℕ
  pub committee_size : ℕ

unfoldable pub validate_policy : AuditPolicy → Result AuditError PolicySizes
validate_policy policy = do
  window_size ← require_positive_integer policy.window_size
  delay ← require_positive_integer policy.beacon_delay_blocks
  committee_size ← require_positive_integer policy.committee_size
  throw_if (not (int_leb (pos 0) policy.minimum_bond)) negative_bond
  throw_if (not policy.extra_claim_probability.is_in_range) probability_out_of_range
  ok (record {
    window_size = window_size;
    beacon_delay_blocks = delay;
    committee_size = committee_size;
  })

abbrev pub window_index : Number → Result AuditError ℕ
window_index (int (pos n)) = ok n
window_index _ = err bad_index

-- On numbers whose sums and products are safe integers.
unfoldable pub audit_window : Number → AuditPolicy → Result AuditError AuditWindow
audit_window index policy = do
  sizes ← validate_policy policy
  i ← window_index index
  ok (record {
    index = i;
    start_height = i * sizes.window_size + 1;
    end_height = i * sizes.window_size + 1 + sizes.window_size - 1;
    beacon_height = i * sizes.window_size + 1 + sizes.window_size - 1 + sizes.beacon_delay_blocks;
  })

-- Each part with its length in four bytes before it; parts are shorter than 2^32 bytes.
unfoldable pub prefixed : List Text → Bytes
prefixed [] = []
prefixed (part ∷ parts) = be_bytes 4 (length part) ++ (part ++ prefixed parts)

-- "jgc-audit-committee-v1"
abbrev pub committee_tag : Text
committee_tag =
    b'j' ∷ b'g' ∷ b'c' ∷ b'-' ∷ b'a' ∷ b'u' ∷ b'd' ∷ b'i' ∷ b't' ∷ b'-' ∷ b'c' ∷ b'o' ∷ b'm' ∷ b'm'
    ∷ b'i' ∷ b't' ∷ b't' ∷ b'e' ∷ b'e' ∷ b'-' ∷ b'v' ∷ b'1' ∷ []

-- "jgc-audit-coverage-v1"
abbrev pub coverage_tag : Text
coverage_tag =
    b'j' ∷ b'g' ∷ b'c' ∷ b'-' ∷ b'a' ∷ b'u' ∷ b'd' ∷ b'i' ∷ b't' ∷ b'-' ∷ b'c' ∷ b'o' ∷ b'v' ∷ b'e'
    ∷ b'r' ∷ b'a' ∷ b'g' ∷ b'e' ∷ b'-' ∷ b'v' ∷ b'1' ∷ []

-- "jgc-audit-extra-v1"
abbrev pub extra_tag : Text
extra_tag =
    b'j' ∷ b'g' ∷ b'c' ∷ b'-' ∷ b'a' ∷ b'u' ∷ b'd' ∷ b'i' ∷ b't' ∷ b'-' ∷ b'e' ∷ b'x' ∷ b't' ∷ b'r'
    ∷ b'a' ∷ b'-' ∷ b'v' ∷ b'1' ∷ []

-- "jgc-audit-claim-v1"
abbrev pub claim_tag : Text
claim_tag =
    b'j' ∷ b'g' ∷ b'c' ∷ b'-' ∷ b'a' ∷ b'u' ∷ b'd' ∷ b'i' ∷ b't' ∷ b'-' ∷ b'c' ∷ b'l' ∷ b'a' ∷ b'i'
    ∷ b'm' ∷ b'-' ∷ b'v' ∷ b'1' ∷ []

-- The order of `rank`, on the keys of two items.
unfoldable pub rank_le : (Bytes → Bytes) → List Text → Text → Text → Bool
rank_le sha3_256 seed a b =
    let ah = sha3_256 (prefixed (seed ++ (a ∷ []))) in
    let bh = sha3_256 (prefixed (seed ++ (b ∷ []))) in
    if text_eq ah bh then bytes_le a b else bytes_le ah bh

unfoldable pub rank : {T : Type 0} → (Bytes → Bytes) → List T → (T → Text) → List Text → List T
rank sha3_256 items key seed = sort_by (λ a b. rank_le sha3_256 seed (key a) (key b)) items

unfoldable pub compute_audit_claim_id : (Bytes → Bytes) → Text → Number → Result AuditError Text
compute_audit_claim_id sha3_256 block_hash (int (pos i)) = do
  throw_if (not (is_hash block_hash)) bad_hash
  throw_if (ltb max_safe_integer i) bad_index
  ok (to_hex (sha3_256 (prefixed (claim_tag ∷ to_lower_case block_hash ∷ decimal i ∷ []))))
compute_audit_claim_id sha3_256 block_hash _ = do
  throw_if (not (is_hash block_hash)) bad_hash
  err bad_index

abbrev pub is_eligible : Text → ℤ → AuditValidator → Bool
is_eligible claimant_id minimum_bond v =
    v.active && (int_leb minimum_bond v.bonded_stake && not (text_eq v.validator_id claimant_id))

abbrev pub eligible :
    (claimant_id : Text) (minimum_bond : ℤ) (v : AuditValidator)
    → Dec (is_eligible claimant_id minimum_bond v ≡ true)
eligible claimant_id minimum_bond v = decide_true (is_eligible claimant_id minimum_bond v)

abbrev pub committee_seed : Text → AuditableComputeClaim → List Text
committee_seed beacon_hash claim = committee_tag ∷ beacon_hash ∷ claim.commitment ∷ []

unfoldable pub select_committee :
    (Bytes → Bytes) → AuditableComputeClaim → List AuditValidator → Text → ℕ → ℤ → List Text
select_committee sha3_256 claim validators beacon_hash size minimum_bond =
    map (λ (v : AuditValidator). v.validator_id)
      (take size (
        rank sha3_256 (filter (eligible claim.claimant_id minimum_bond) validators)
          (λ v. v.validator_id) (committee_seed beacon_hash claim)))

-- The `for` over the ids of the claims, or of the validators, with those seen.
unfoldable pub check_ids : AuditError → List Text → List Text → Result AuditError (Unit {0})
check_ids e seen [] = ok tt
check_ids e seen (id ∷ ids) = do
  throw_if (is_empty id || has id seen) e
  check_ids e (id ∷ seen) ids

abbrev pub is_in_window : AuditWindow → AuditableComputeClaim → Bool
is_in_window w claim = leb w.start_height claim.block_height && leb claim.block_height w.end_height

abbrev pub in_window :
    (w : AuditWindow) (claim : AuditableComputeClaim) → Dec (is_in_window w claim ≡ true)
in_window w claim = decide_true (is_in_window w claim)

abbrev pub or_empty : Option (List AuditableComputeClaim) → List AuditableComputeClaim
or_empty none = []
or_empty (some group) = group

-- `byClaimant`, after the claims.
unfoldable pub group_claims :
    List AuditableComputeClaim
    → TextMap (List AuditableComputeClaim)
    → TextMap (List AuditableComputeClaim)
group_claims [] groups = groups
group_claims (claim ∷ claims) groups =
    group_claims claims
      (insert claim.claimant_id (or_empty (lookup claim.claimant_id groups) ++ (claim ∷ [])) groups)

-- `auditValidatorsFromSnapshot` of consensus/validator-bonds.ts.
unfoldable pub audit_validators_from_snapshot : ValidatorStakeSnapshot → List AuditValidator
audit_validators_from_snapshot snapshot =
    map
      (λ (bond : ValidatorBond). record {
        validator_id = bond.validator_id;
        bonded_stake = bond.bonded_stake;
        active = true;
      })
      snapshot.validators

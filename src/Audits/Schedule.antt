-- ===== src/Audits/Schedule.antt =====
-- `buildAuditSchedule` of audit-schedule.ts.
pub mod Built
pub mod Coverage
pub mod Seats
pub mod Committees
pub mod Selection
pub mod Fair
pub mod Order
use mathlib.Core.List.{filter}
use junctiongenerator.Base.{
  ℕ, ◌+◌, Bool, true, false, not, ◌&&◌, ◌||◌, Option, none, some, List, [], ◌∷◌, ◌++◌, map, ltb,
  ◌==◌, if◌then◌else◌, length, Result, ok, err, ◌>>=◌, ◌>>◌, throw_if,
}
use junctiongenerator.Base.Int.{ℤ}
use junctiongenerator.Base.Texts.{Bytes, Text, text_eq}
use junctiongenerator.Base.Hex.{between}
use junctiongenerator.Base.Maps.{TextMap, lookup, insert}
use junctiongenerator.Base.Sorting.{sort_by}
use junctiongenerator.Canonical.Order.{bytes_le}
use junctiongenerator.Proposer.{has, is_hash, to_lower_case, big_endian}
use junctiongenerator.Spending.Bonds.{take}
use junctiongenerator.Audits.{
  AuditableComputeClaim, AuditValidator, AuditWindow, Probability, AuditPolicy, AuditReason,
  coverage, random_sample, AuditAssignment, AuditSchedule, Beacon, AuditError, bad_beacon, bad_hash,
  bad_claim_id, bad_validator_id, PolicySizes, validate_policy, prefixed, coverage_tag, extra_tag,
  rank, select_committee, check_ids, in_window, group_claims,
}

-- An entry of `selected`.
pub record Selected : Type 0 where
  pub claim : AuditableComputeClaim
  pub reason : AuditReason

abbrev pub is_selected : Option Selected → Bool
is_selected none = false
is_selected (some s) = true

abbrev pub by_claimant :
    Text × List AuditableComputeClaim → Text × List AuditableComputeClaim → Bool
by_claimant a b = bytes_le a.0 b.0

-- The first of the ranking; a group is never empty.
abbrev pub select_first : List AuditableComputeClaim → TextMap Selected → TextMap Selected
select_first [] selected = selected
select_first (claim ∷ claims) selected =
    insert claim.claim_id (record { claim = claim; reason = coverage }) selected

-- A character of a text in the order of UTF-16, which puts those above U+FFFF before U+E000 to U+FFFF.
abbrev pub utf16_rank : ℕ → ℕ
utf16_rank c = if between 0xee 0xef c then c + 16 else c

-- The order of `sort()` without a comparator, by the units of UTF-16.
abbrev pub utf16_le : Text → Text → Bool
utf16_le a b = bytes_le (map utf16_rank a) (map utf16_rank b)

-- The assignments and the claimants without a committee, before they are sorted.
pub record Assigned : Type 0 where
  pub assignments : List AuditAssignment
  pub uncovered : List Text

-- `uncovered.add(claimantId)`
abbrev pub add_uncovered : Text → List Text → List Text
add_uncovered claimant uncovered =
    if has claimant uncovered then uncovered else uncovered ++ (claimant ∷ [])

abbrev pub miss : Selected → Assigned → Assigned
miss s out = elim s.reason [
  | coverage ↦ record out { uncovered = add_uncovered s.claim.claimant_id out.uncovered }
  | random_sample ↦ out
]

module _ (sha3_256 : Bytes → Bytes) (beacon : Beacon) where
  abbrev pub coverage_seed : Text → List Text
  coverage_seed claimant = coverage_tag ∷ beacon.hash ∷ claimant ∷ []

  -- The first `for`, over the groups in the order of their claimants.
  unfoldable pub select_coverage :
      TextMap (List AuditableComputeClaim) → TextMap Selected → TextMap Selected
  select_coverage [] selected = selected
  select_coverage ((claimant, group) ∷ groups) selected =
      select_coverage groups
        (select_first (rank sha3_256 group (λ c. c.claim_id) (coverage_seed claimant)) selected)

  -- `draw`: the first eight bytes of the digest.
  abbrev pub extra_draw : AuditableComputeClaim → ℕ
  extra_draw claim =
      big_endian 0 (take 8 (sha3_256 (prefixed (extra_tag ∷ beacon.hash ∷ claim.commitment ∷ []))))

  abbrev pub sample : Probability → AuditableComputeClaim → TextMap Selected → TextMap Selected
  sample p claim selected =
      if is_selected (lookup claim.claim_id selected) || not (p.is_above (extra_draw claim))
      then selected
      else insert claim.claim_id (record { claim = claim; reason = random_sample }) selected

  -- The second `for`.
  unfoldable pub select_extra :
      Probability → List AuditableComputeClaim → TextMap Selected → TextMap Selected
  select_extra p [] selected = selected
  select_extra p (claim ∷ claims) selected = select_extra p claims (sample p claim selected)

  module _ (window : AuditWindow) (validators : List AuditValidator) (size : ℕ)
      (minimum_bond : ℤ) where
    abbrev pub committee_of : Selected → List Text
    committee_of s = select_committee sha3_256 s.claim validators beacon.hash size minimum_bond

    abbrev pub assignment : Selected → AuditAssignment
    assignment s = record {
      window_index = window.index;
      claim_id = s.claim.claim_id;
      claimant_id = s.claim.claimant_id;
      commitment = s.claim.commitment;
      claim_height = s.claim.block_height;
      beacon_height = beacon.height;
      beacon_hash = to_lower_case beacon.hash;
      committee = committee_of s;
      reason = s.reason;
    }

    abbrev pub assign : Selected → Assigned → Assigned
    assign s out =
        if ltb (length (committee_of s)) size
        then miss s out
        else record out { assignments = out.assignments ++ (assignment s ∷ []) }

    -- The third `for`, over the values of `selected`.
    unfoldable pub assign_all : TextMap Selected → Assigned → Assigned
    assign_all [] out = out
    assign_all ((id, s) ∷ selected) out = assign_all selected (assign s out)

abbrev pub by_claim_id : AuditAssignment → AuditAssignment → Bool
by_claim_id a b = bytes_le a.claim_id b.claim_id

unfoldable pub selected_claims :
    (Bytes → Bytes)
    → Beacon
    → AuditWindow
    → Probability
    → List AuditableComputeClaim
    → TextMap Selected
selected_claims sha3_256 beacon window p claims =
    let inside = filter (in_window window) claims in
    select_extra sha3_256 beacon p inside
      (select_coverage sha3_256 beacon (sort_by by_claimant (group_claims inside [])) [])

unfoldable pub build_audit_schedule :
    (Bytes → Bytes)
    → AuditWindow
    → Beacon
    → List AuditableComputeClaim
    → List AuditValidator
    → AuditPolicy
    → Result AuditError AuditSchedule
build_audit_schedule sha3_256 window beacon claims validators policy = do
  sizes ← validate_policy policy
  throw_if (not (beacon.height == window.beacon_height)) bad_beacon
  throw_if (not (is_hash beacon.hash)) bad_hash
  check_ids bad_claim_id [] (map (λ (c : AuditableComputeClaim). c.claim_id) claims)
  check_ids bad_validator_id [] (map (λ (v : AuditValidator). v.validator_id) validators)
  let selected : TextMap Selected =
      selected_claims sha3_256 beacon window policy.extra_claim_probability claims
  let out : Assigned =
      assign_all sha3_256 beacon window validators sizes.committee_size policy.minimum_bond selected
        (record { assignments = []; uncovered = [] })
  ok (record {
    window = window;
    assignments = sort_by by_claim_id out.assignments;
    uncovered_claimants = sort_by utf16_le out.uncovered;
  })

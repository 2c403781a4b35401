-- ===== src/Audits/Schedule/Built.antt =====
-- The checks that a schedule that is built has passed, and what it holds.
use mathlib.Core.List.{Pairwise}
use junctiongenerator.Base.{◌≡◌, not, ◌==◌, List, [], map, ok, bind-ok, throw_if-ok, ok-injective}
use junctiongenerator.Base.Texts.{Bytes, Text}
use junctiongenerator.Base.Sorting.{sort_by}
use junctiongenerator.Proposer.{is_hash}
use junctiongenerator.Audits.{
  AuditableComputeClaim, AuditValidator, AuditWindow, AuditPolicy, AuditSchedule, Beacon,
  PolicySizes, bad_claim_id, bad_validator_id, check_ids, validate_policy,
}
use junctiongenerator.Audits.Ids.{Distinct, check_ids-Distinct}
use junctiongenerator.Audits.Schedule.{
  selected_claims, Assigned, assign_all, by_claim_id, utf16_le, build_audit_schedule,
}

abbrev pub claim_key : AuditableComputeClaim → Text
claim_key c = c.claim_id

abbrev pub validator_key : AuditValidator → Text
validator_key v = v.validator_id

abbrev pub DistinctValidators : AuditValidator → AuditValidator → Type 0
DistinctValidators = Distinct validator_key bad_validator_id

abbrev pub DistinctClaims : AuditableComputeClaim → AuditableComputeClaim → Type 0
DistinctClaims = Distinct claim_key bad_claim_id

module _ (sha3_256 : Bytes → Bytes) (window : AuditWindow) (beacon : Beacon)
    (claims : List AuditableComputeClaim) (validators : List AuditValidator)
    (policy : AuditPolicy) where
  -- Before the sorting.
  abbrev pub assigned : PolicySizes → Assigned
  assigned sizes =
      assign_all sha3_256 beacon window validators sizes.committee_size policy.minimum_bond
        (selected_claims sha3_256 beacon window policy.extra_claim_probability claims)
        (record { assignments = []; uncovered = [] })

  abbrev pub sorted : Assigned → AuditSchedule
  sorted out = record {
    window = window;
    assignments = sort_by by_claim_id out.assignments;
    uncovered_claimants = sort_by utf16_le out.uncovered;
  }

  pub build_audit_schedule-ok :
      (schedule : AuditSchedule)
      → build_audit_schedule sha3_256 window beacon claims validators policy ≡ ok schedule
      → (sizes : PolicySizes) × (validate_policy policy ≡ ok sizes)
        × Pairwise DistinctClaims claims
        × Pairwise DistinctValidators validators
        × (schedule ≡ sorted (assigned sizes))
  unfolding build_audit_schedule
  build_audit_schedule-ok schedule h =
      let (sizes, valid, h₁) = bind-ok (validate_policy policy) _ schedule h in
      let (_, h₂) = throw_if-ok (not (beacon.height == window.beacon_height)) _ _ schedule h₁ in
      let (_, h₃) = throw_if-ok (not (is_hash beacon.hash)) _ _ schedule h₂ in
      let (_, ids, h₄) = bind-ok (check_ids bad_claim_id [] (map claim_key claims)) _ schedule h₃ in
      let (_, names, h₅) =
        bind-ok (check_ids bad_validator_id [] (map validator_key validators)) _ schedule h₄ in
      (
        sizes,
        valid,
        check_ids-Distinct claim_key bad_claim_id [] claims ids,
        check_ids-Distinct validator_key bad_validator_id [] validators names,
        ok-injective h₅,
      )

-- ===== src/Audits/Examples.antt =====
-- The schedule of a small window, and the theorems at it. SHA3-256 is replaced by a constant.
use mathlib.Core.List.{mem-cons_self}
use mathlib.Core.List.Perm
use junctiongenerator.Base.{
  ℕ, zero, suc, ◌≡◌, refl, arith, true, false, ◌||◌, List, [], ◌∷◌, ok, err,
}
use junctiongenerator.Base.Int.{pos, negsuc}
use junctiongenerator.Base.Texts.{Bytes, Text, text_eq}
use junctiongenerator.Base.Hex.{hex_value}
use junctiongenerator.Base.Maps.{lookup, insert}
use junctiongenerator.Base.Sorting.{sort_by, insert_by}
use junctiongenerator.Base.Search.{any, All}
use junctiongenerator.Canonical.{int, be_bytes, compare_canonical_bytes}
use junctiongenerator.Canonical.Order.{bytes_le}
use junctiongenerator.Proposer.{has, is_hash, to_lower_case}
use junctiongenerator.Spending.Bonds.{take}
use junctiongenerator.Audits.{
  AuditableComputeClaim, AuditValidator, AuditWindow, AuditPolicy, AuditAssignment, AuditSchedule,
  Beacon, coverage, require_positive_integer, validate_policy, audit_window, prefixed, rank_le,
  rank, select_committee, check_ids, group_claims, PolicySizes, bad_index,
}
use junctiongenerator.Audits.Schedule.{
  select_coverage, select_extra, selected_claims, assign_all, build_audit_schedule,
}
use junctiongenerator.Audits.Schedule.Fair.{build_audit_schedule_covers}
use junctiongenerator.Audits.Schedule.Selection.{is_audit_of}
use junctiongenerator.Audits.Schedule.Committees.{IsAudit, build_audit_schedule-IsAudit}
use junctiongenerator.Audits.Schedule.Order.{build_audit_schedule_order}

abbrev zeros : ℕ → Text
zeros zero = []
zeros (suc n) = b'0' ∷ zeros n

abbrev sha3 : Bytes → Bytes
sha3 bytes = 0 ∷ []

abbrev policy_of : ℕ → AuditPolicy
policy_of size = record {
  window_size = int (pos 10);
  beacon_delay_blocks = int (pos 2);
  committee_size = int (pos size);
  minimum_bond = pos 1;
  extra_claim_probability = record { is_in_range = true; is_above = λ draw. false };
}

abbrev first_window : AuditWindow
first_window = record { index = 0; start_height = 1; end_height = 10; beacon_height = 12 }

window_zero : audit_window (int (pos 0)) (policy_of 1) ≡ ok first_window
unfolding audit_window validate_policy require_positive_integer
window_zero = refl

negative_index : audit_window (int (negsuc 0)) (policy_of 1) ≡ err bad_index
unfolding audit_window validate_policy require_positive_integer
negative_index = refl

abbrev beacon_block : Beacon
beacon_block = record { height = 12; hash = zeros 64 }

abbrev claim_of : ℕ → ℕ → AuditableComputeClaim
claim_of id height = record {
  claim_id = id ∷ [];
  claimant_id = b'c' ∷ [];
  commitment = id ∷ [];
  block_height = height;
}

-- One claim of the window and one after it.
abbrev claims_ab : List AuditableComputeClaim
claims_ab = claim_of b'a' 3 ∷ claim_of b'b' 11 ∷ []

abbrev validator : ℕ → AuditValidator
validator id = record { validator_id = id ∷ []; bonded_stake = pos 5; active = true }

abbrev roster : List AuditValidator
roster = validator b'c' ∷ validator b'w' ∷ validator b'v' ∷ []

abbrev roster' : List AuditValidator
roster' = validator b'w' ∷ validator b'c' ∷ validator b'v' ∷ []

abbrev audit_a : AuditAssignment
audit_a = record {
  window_index = 0;
  claim_id = b'a' ∷ [];
  claimant_id = b'c' ∷ [];
  commitment = b'a' ∷ [];
  claim_height = 3;
  beacon_height = 12;
  beacon_hash = zeros 64;
  committee = (b'v' ∷ []) ∷ (b'w' ∷ []) ∷ [];
  reason = coverage;
}

abbrev schedule_a : AuditSchedule
schedule_a = record { window = first_window; assignments = audit_a ∷ []; uncovered_claimants = [] }

built :
    build_audit_schedule sha3 first_window beacon_block claims_ab roster (policy_of 2)
    ≡ ok schedule_a
unfolding build_audit_schedule validate_policy require_positive_integer is_hash hex_value check_ids
    selected_claims group_claims lookup insert text_eq sort_by insert_by bytes_le
    compare_canonical_bytes select_coverage select_extra rank rank_le prefixed be_bytes assign_all
    select_committee take to_lower_case
built = refl

built' :
    build_audit_schedule sha3 first_window beacon_block claims_ab roster' (policy_of 2)
    ≡ ok schedule_a
unfolding build_audit_schedule validate_policy require_positive_integer is_hash hex_value check_ids
    selected_claims group_claims lookup insert text_eq sort_by insert_by bytes_le
    compare_canonical_bytes select_coverage select_extra rank rank_le prefixed be_bytes assign_all
    select_committee take to_lower_case
built' = refl

-- Three independent seats cannot be filled.
too_few_validators :
    build_audit_schedule sha3 first_window beacon_block claims_ab roster (policy_of 3)
    ≡ ok
        (record { window = first_window; assignments = []; uncovered_claimants = (b'c' ∷ []) ∷ [] })
unfolding build_audit_schedule validate_policy require_positive_integer is_hash hex_value check_ids
    selected_claims group_claims lookup insert text_eq sort_by insert_by bytes_le
    compare_canonical_bytes select_coverage select_extra rank rank_le prefixed be_bytes assign_all
    select_committee take to_lower_case
too_few_validators = refl

build_audit_schedule_covers_example :
    (any (is_audit_of (b'c' ∷ [])) (audit_a ∷ []) || has (b'c' ∷ []) []) ≡ true
build_audit_schedule_covers_example =
    build_audit_schedule_covers sha3 first_window beacon_block claims_ab roster (policy_of 2)
      schedule_a built (claim_of b'a' 3) mem-cons_self (omega arith) (omega arith)

build_audit_schedule-IsAudit_example :
    (sizes : PolicySizes) × (validate_policy (policy_of 2) ≡ ok sizes)
    × All (IsAudit first_window claims_ab roster sizes.committee_size (pos 1)) (audit_a ∷ [])
build_audit_schedule-IsAudit_example =
    build_audit_schedule-IsAudit sha3 first_window beacon_block claims_ab roster (policy_of 2)
      schedule_a built

build_audit_schedule_order_example : Path AuditSchedule schedule_a schedule_a
build_audit_schedule_order_example =
    build_audit_schedule_order sha3 first_window beacon_block claims_ab roster roster' (policy_of 2)
      schedule_a schedule_a built built'
      (Perm.swap (validator b'w') (validator b'c') (validator b'v' ∷ []))

-- ===== src/Audits/Schedule/Fair.antt =====
-- The coverage of the schedule that `buildAuditSchedule` returns.
use mathlib.Core.List.{Mem, filter, mem-filter}
use junctiongenerator.Base.{◌≡◌, ◌≤◌, ap, ◌∙◌, true, false, ◌||◌, List, [], arith, ok}
use junctiongenerator.Base.Texts.{Bytes}
use junctiongenerator.Base.Sorting.{sort_by}
use junctiongenerator.Base.Search.{any, any-sort_by, EveryEntry-sort_by}
use junctiongenerator.Proposer.{has}
use junctiongenerator.Audits.{
  AuditableComputeClaim, AuditValidator, AuditWindow, Probability, AuditPolicy, AuditSchedule,
  Beacon, bad_claim_id, group_claims, in_window, is_in_window,
}
use junctiongenerator.Audits.Ids.{Injective, Distinct-Injective}
use junctiongenerator.Audits.Schedule.{
  by_claimant, select_coverage, selected_claims, by_claim_id, utf16_le, build_audit_schedule,
}
use junctiongenerator.Audits.Schedule.Built.{claim_key, assigned, build_audit_schedule-ok}
use junctiongenerator.Audits.Schedule.Coverage.{
  is_group_of, covers, OfClaimant, group_claims-OfClaimant, group_claims-finds,
}
use junctiongenerator.Audits.Schedule.Selection.{
  is_audit_of, has-sort_by, select_coverage_lem, select_extra-keeps, assign_all-accounts_for,
}

claim_set : (a b : AuditableComputeClaim) → IsProp (a ≡ b)
claim_set a b = hlevel

covered_from :
    (sha3_256 : Bytes → Bytes) (beacon : Beacon) (window : AuditWindow) (p : Probability)
    (claims : List AuditableComputeClaim) (c : AuditableComputeClaim)
    → Injective claim_key bad_claim_id claims
    → Mem c claims
    → is_in_window window c ≡ true
    → any (covers c.claimant_id) (selected_claims sha3_256 beacon window p claims) ≡ true
unfolding selected_claims
covered_from sha3_256 beacon window p claims c unique m inside =
    let within = filter (in_window window) claims in
    let groups = group_claims within [] in
    let member : Mem c within = (mem-filter (in_window window)).1 (m, inside) in
    let sound =
      group_claims-OfClaimant claims within [] (λ x mx. ((mem-filter (in_window window)).0 mx).0)
        tt in
    let sound' = EveryEntry-sort_by (OfClaimant claims) by_claimant groups sound in
    let found =
      any-sort_by (is_group_of c.claimant_id) by_claimant groups
      ∙ group_claims-finds within [] c member in
    select_extra-keeps sha3_256 beacon p c.claimant_id within
      (select_coverage sha3_256 beacon (sort_by by_claimant groups) [])
      (select_coverage_lem sha3_256 beacon claims unique c.claimant_id (sort_by by_claimant groups)
        [] sound' tt (ap (λ t. t || false) found))

-- In the schedule that is built, every claimant of a claim in the window has an assignment of the reason
-- `coverage`, or stands among the uncovered claimants.
pub build_audit_schedule_covers :
    (sha3_256 : Bytes → Bytes) (window : AuditWindow) (beacon : Beacon)
    (claims : List AuditableComputeClaim) (validators : List AuditValidator) (policy : AuditPolicy)
    (schedule : AuditSchedule)
    → build_audit_schedule sha3_256 window beacon claims validators policy ≡ ok schedule
    → (c : AuditableComputeClaim) → Mem c claims
    → window.start_height ≤ c.block_height
    → c.block_height ≤ window.end_height
    → (any (is_audit_of c.claimant_id) schedule.assignments
        || has c.claimant_id schedule.uncovered_claimants)
      ≡ true
build_audit_schedule_covers sha3_256 window beacon claims validators policy schedule h c m after
      before =
    let inside : is_in_window window c ≡ true = ground (arith, after, before) in
    let (sizes, _, apart, _, made) =
      build_audit_schedule-ok sha3_256 window beacon claims validators policy schedule h in
    let unique = Distinct-Injective claim_key bad_claim_id claim_set claims apart in
    let p = policy.extra_claim_probability in
    let out = assigned sha3_256 window beacon claims validators policy sizes in
    let covered = covered_from sha3_256 beacon window p claims c unique m inside in
    let accounted =
      assign_all-accounts_for sha3_256 beacon window validators sizes.committee_size
        policy.minimum_bond c.claimant_id (selected_claims sha3_256 beacon window p claims)
        (record { assignments = []; uncovered = [] }) (ap (λ t. t || false) covered) in
    let audits = any-sort_by (is_audit_of c.claimant_id) by_claim_id out.assignments in
    let listed = has-sort_by c.claimant_id utf16_le out.uncovered in
    rw made (rw (audits, listed) accounted)

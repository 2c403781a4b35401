-- ===== src/Audits/Schedule/Committees.antt =====
-- The committees of the schedule that `buildAuditSchedule` returns.
use mathlib.Core.List.{Mem, filter, mem-filter, Pairwise, mem-cons_self, mem-cons_of_mem}
use junctiongenerator.Base.{
  ℕ, ◌≡◌, ◌≤◌, refl, sym, subst, not, ◌||◌, List, [], ◌∷◌, map, arith, ltb, length, ok, Bool-cases,
  inl, inr,
}
use junctiongenerator.Base.Int.{ℤ}
use junctiongenerator.Base.Texts.{Bytes, Text}
use junctiongenerator.Base.Maps.{TextMap, lookup}
use junctiongenerator.Base.Sorting.{sort_by}
use junctiongenerator.Base.Search.{EveryEntry, EveryEntry-insert, EveryEntry-sort_by}
use junctiongenerator.Audits.{
  AuditableComputeClaim, AuditValidator, AuditWindow, Probability, AuditPolicy, PolicySizes,
  AuditAssignment, AuditSchedule, Beacon, validate_policy, rank, group_claims, in_window, eligible,
  committee_seed, select_committee,
}
use junctiongenerator.Audits.Schedule.{
  Selected, is_selected, by_claimant, select_coverage, sample, select_extra, selected_claims,
  extra_draw, Assigned, miss, committee_of, assignment, assign, assign_all, by_claim_id,
  build_audit_schedule, select_first,
}
use junctiongenerator.Audits.Schedule.Built.{
  validator_key, DistinctValidators, assigned, build_audit_schedule-ok,
}
use junctiongenerator.Audits.Schedule.Coverage.{OfClaimant, UnderId, group_claims-OfClaimant}
use junctiongenerator.Audits.Schedule.Selection.{first_ranked, rank-OfClaimant}
use junctiongenerator.Audits.Schedule.Seats.{
  IsCommittee, seats_of, seats_of-IsCommittee, length-take-le, length-map,
}
use junctiongenerator.Base.Search.{All, All-append, All-sort_by}

module _ (sha3_256 : Bytes → Bytes) (beacon : Beacon) (all : List AuditableComputeClaim) where
  select_first-under :
      (k : Text) (r : List AuditableComputeClaim) (selected : TextMap Selected)
      → OfClaimant all k r
      → EveryEntry (UnderId all) selected
      → EveryEntry (UnderId all) (select_first r selected)
  select_first-under k [] selected own sound = sound
  select_first-under k (c ∷ r) selected own sound =
      EveryEntry-insert (UnderId all) c.claim_id _ selected (refl, (own c mem-cons_self).0) sound

  select_coverage-under :
      (groups : TextMap (List AuditableComputeClaim)) (selected : TextMap Selected)
      → EveryEntry (OfClaimant all) groups
      → EveryEntry (UnderId all) selected
      → EveryEntry (UnderId all) (select_coverage sha3_256 beacon groups selected)
  unfolding select_coverage
  select_coverage-under [] selected own sound = sound
  select_coverage-under ((k, g) ∷ groups) selected (own, rest) sound =
      let r = first_ranked sha3_256 beacon k g in
      select_coverage-under groups (select_first r selected) rest
        (select_first-under k r selected (rank-OfClaimant sha3_256 beacon all k g own) sound)

  select_extra-under :
      (p : Probability) (cs : List AuditableComputeClaim) (selected : TextMap Selected)
      → ((c : AuditableComputeClaim) → Mem c cs → Mem c all)
      → EveryEntry (UnderId all) selected
      → EveryEntry (UnderId all) (select_extra sha3_256 beacon p cs selected)
  unfolding select_extra
  select_extra-under p [] selected inside sound = sound
  select_extra-under p (c ∷ cs) selected inside sound =
      select_extra-under p cs (sample sha3_256 beacon p c selected)
        (λ x m. inside x (mem-cons_of_mem c m))
        (elim (Bool-cases (
          is_selected (lookup c.claim_id selected)
          || not (p.is_above (extra_draw sha3_256 beacon c)))) [
            | inl skipped ↦ rw skipped sound
            | inr sampled ↦ rw sampled (
                EveryEntry-insert (UnderId all) c.claim_id _ selected (refl, inside c mem-cons_self)
                  sound)
          ])

selected_claims-under :
    (sha3_256 : Bytes → Bytes) (beacon : Beacon) (window : AuditWindow) (p : Probability)
    (claims : List AuditableComputeClaim)
    → EveryEntry
        (UnderId (filter (in_window window) claims))
        (selected_claims sha3_256 beacon window p claims)
unfolding selected_claims
selected_claims-under sha3_256 beacon window p claims =
    let within = filter (in_window window) claims in
    let groups = group_claims within [] in
    let own = group_claims-OfClaimant within within [] (λ x m. m) tt in
    select_extra-under sha3_256 beacon within p within
      (select_coverage sha3_256 beacon (sort_by by_claimant groups) []) (λ c m. m)
      (select_coverage-under sha3_256 beacon within (sort_by by_claimant groups) []
        (EveryEntry-sort_by (OfClaimant within) by_claimant groups own) tt)

-- An assignment is of a claim in the window, and its committee has as many seats as the policy says, for
-- validators that may sit on it, none twice.
abbrev pub IsAudit :
    AuditWindow
    → List AuditableComputeClaim
    → List AuditValidator
    → ℕ
    → ℤ
    → AuditAssignment
    → Type 0
IsAudit window claims validators size bond a =
    (c : AuditableComputeClaim) × (seats : List AuditValidator) × (Mem c claims)
    × (window.start_height ≤ c.block_height)
    × (c.block_height ≤ window.end_height)
    × (a.claim_id ≡ c.claim_id)
    × (a.claimant_id ≡ c.claimant_id)
    × (a.commitment ≡ c.commitment)
    × (a.committee ≡ map validator_key seats)
    × (length a.committee ≡ size)
    × IsCommittee validators c.claimant_id bond seats

miss-assignments : (s : Selected) (out : Assigned) → (miss s out).assignments ≡ out.assignments
miss-assignments s out = ground arith

module _ (sha3_256 : Bytes → Bytes) (beacon : Beacon) (window : AuditWindow)
    (claims : List AuditableComputeClaim) (validators : List AuditValidator) (size : ℕ) (bond : ℤ)
    (apart : Pairwise DistinctValidators validators) where
  assign-IsAudit :
      (k : Text) (s : Selected) (out : Assigned)
      → UnderId (filter (in_window window) claims) k s
      → All (IsAudit window claims validators size bond) out.assignments
      → All
          (IsAudit window claims validators size bond)
          (assign sha3_256 beacon window validators size bond s out).assignments
  unfolding select_committee
  assign-IsAudit k s out under h =
      elim (Bool-cases
        (ltb (length (committee_of sha3_256 beacon window validators size bond s)) size)) [
          | inl short ↦ rw short (rw (miss-assignments s out) h)
          | inr full ↦
              let seats = seats_of sha3_256 s.claim validators beacon.hash size bond in
              let (m, inside) = (mem-filter (in_window window)).0 under.1 in
              let most = length-take-le size (
                rank sha3_256 (filter (eligible s.claim.claimant_id bond) validators) validator_key
                  (committee_seed beacon.hash s.claim)) in
              let mapped = length-map validator_key seats in
              rw full (
                All-append (IsAudit window claims validators size bond) out.assignments
                  (assignment sha3_256 beacon window validators size bond s) h
                  (
                    s.claim,
                    seats,
                    m,
                    ground (arith, inside),
                    ground (arith, inside),
                    refl,
                    refl,
                    refl,
                    refl,
                    ground (arith, most, mapped, full),
                    seats_of-IsCommittee sha3_256 s.claim validators beacon.hash size bond apart,
                  ))
        ]

  assign_all-IsAudit :
      (selected : TextMap Selected) (out : Assigned)
      → EveryEntry (UnderId (filter (in_window window) claims)) selected
      → All (IsAudit window claims validators size bond) out.assignments
      → All
          (IsAudit window claims validators size bond)
          (assign_all sha3_256 beacon window validators size bond selected out).assignments
  unfolding assign_all
  assign_all-IsAudit [] out under h = h
  assign_all-IsAudit ((k, s) ∷ selected) out (own, rest) h =
      assign_all-IsAudit selected (assign sha3_256 beacon window validators size bond s out) rest
        (assign-IsAudit k s out own h)

-- Every assignment of the schedule that is built is of a claim in the window, and has a committee of the
-- size of the policy: validators of the roster that are active and have the minimum bond, none of them
-- the claimant and none twice.
pub build_audit_schedule-IsAudit :
    (sha3_256 : Bytes → Bytes) (window : AuditWindow) (beacon : Beacon)
    (claims : List AuditableComputeClaim) (validators : List AuditValidator) (policy : AuditPolicy)
    (schedule : AuditSchedule)
    → build_audit_schedule sha3_256 window beacon claims validators policy ≡ ok schedule
    → (sizes : PolicySizes) × (validate_policy policy ≡ ok sizes)
      × All
          (IsAudit window claims validators sizes.committee_size policy.minimum_bond)
          schedule.assignments
build_audit_schedule-IsAudit sha3_256 window beacon claims validators policy schedule h =
    let (sizes, valid, _, apart, made) =
      build_audit_schedule-ok sha3_256 window beacon claims validators policy schedule h in
    let n = sizes.committee_size in
    let bond = policy.minimum_bond in
    let p = policy.extra_claim_probability in
    let out = assigned sha3_256 window beacon claims validators policy sizes in
    let audits =
      assign_all-IsAudit sha3_256 beacon window claims validators n bond apart
        (selected_claims sha3_256 beacon window p claims)
        (record { assignments = []; uncovered = [] })
        (selected_claims-under sha3_256 beacon window p claims) tt in
    let audits' =
      All-sort_by (IsAudit window claims validators n bond) by_claim_id out.assignments audits in
    (
      sizes,
      valid,
      subst (λ (t : AuditSchedule). All (IsAudit window claims validators n bond) t.assignments)
          (sym made) audits',
    )

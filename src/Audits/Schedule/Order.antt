-- ===== src/Audits/Schedule/Order.antt =====
-- The schedule under a reordering of the validators.
use mathlib.Core.List.{Perm, filter, mem-filter}
use mathlib.Core.List.Perm
use junctiongenerator.Base.{
  ℕ, ◌≡◌, refl, sym, ap, ◌∙◌, Bool, true, false, List, [], ◌∷◌, ◌++◌, map, arith, ok, if◌then◌else◌,
  ok-injective,
}
use junctiongenerator.Base.Int.{ℤ}
use junctiongenerator.Base.Texts.{Bytes, Text, text_eq, text_eq_iff}
use junctiongenerator.Base.Maps.{TextMap}
use junctiongenerator.Base.Sorting.{IsTotalPreorder, TellsApart, sort_by-eq_of_perm}
use junctiongenerator.Canonical.Order.{bytes_le, bytes_le-IsTotalPreorder, bytes_le_antisymm}
use junctiongenerator.Spending.Bonds.{take}
use junctiongenerator.Audits.{
  AuditableComputeClaim, AuditValidator, AuditWindow, AuditPolicy, AuditSchedule, Beacon,
  bad_validator_id, prefixed, rank, rank_le, eligible, committee_seed, select_committee,
}
use junctiongenerator.Audits.Ids.{Injective, Distinct-Injective}
use junctiongenerator.Audits.Schedule.{
  Selected, selected_claims, Assigned, assign, assign_all, build_audit_schedule,
}
use junctiongenerator.Audits.Schedule.Built.{
  validator_key, assigned, sorted, build_audit_schedule-ok,
}

-- The order of `rank`, on the digests and the keys.
abbrev lex_le : Bytes → Bytes → Text → Text → Bool
lex_le ah bh a b = if text_eq ah bh then bytes_le a b else bytes_le ah bh

lex_le_total : (ah bh : Bytes) (a b : Text) → lex_le ah bh a b ≡ false → lex_le bh ah b a ≡ true
lex_le_total ah bh a b h = ground (
  arith,
  text_eq_iff ah bh,
  text_eq_iff bh ah,
  bytes_le-IsTotalPreorder.total a b,
  bytes_le-IsTotalPreorder.total ah bh,
)

lex_le_trans :
    (ah bh ch : Bytes) (a b c : Text)
    → lex_le ah bh a b ≡ true
    → lex_le bh ch b c ≡ true
    → lex_le ah ch a c ≡ true
lex_le_trans ah bh ch a b c h k = ground (
  arith,
  text_eq_iff ah bh,
  text_eq_iff bh ch,
  text_eq_iff ah ch,
  bytes_le-IsTotalPreorder.trans a b c,
  bytes_le-IsTotalPreorder.trans ah bh ch,
  bytes_le_antisymm ah bh,
)

module _ (sha3_256 : Bytes → Bytes) (seed : List Text) where
  abbrev ranked_before : AuditValidator → AuditValidator → Bool
  ranked_before a b = rank_le sha3_256 seed a.validator_id b.validator_id

  abbrev digest_of : AuditValidator → Bytes
  digest_of a = sha3_256 (prefixed (seed ++ (a.validator_id ∷ [])))

  ranked_before-IsTotalPreorder : IsTotalPreorder ranked_before
  unfolding rank_le
  ranked_before-IsTotalPreorder = record {
    trans = λ a b c.
        lex_le_trans (digest_of a) (digest_of b) (digest_of c) a.validator_id b.validator_id
          c.validator_id;
    total = λ a b. lex_le_total (digest_of a) (digest_of b) a.validator_id b.validator_id;
  }

  ranked_before_antisymm :
      (a b : AuditValidator)
      → ranked_before a b ≡ true
      → ranked_before b a ≡ true
      → a.validator_id ≡ b.validator_id
  unfolding rank_le
  ranked_before_antisymm a b h k = ground (
    arith,
    text_eq_iff (digest_of a) (digest_of b),
    text_eq_iff (digest_of b) (digest_of a),
    bytes_le_antisymm a.validator_id b.validator_id,
    bytes_le_antisymm (digest_of a) (digest_of b),
  )

validator_set : (a b : AuditValidator) → IsProp (a ≡ b)
validator_set a b = hlevel

select_committee_order :
    (sha3_256 : Bytes → Bytes) (claim : AuditableComputeClaim) (l r : List AuditValidator)
    (hash : Text) (size : ℕ) (bond : ℤ)
    → Injective validator_key bad_validator_id l
    → Perm l r
    → select_committee sha3_256 claim l hash size bond
      ≡ select_committee sha3_256 claim r hash size bond
unfolding select_committee rank
select_committee_order sha3_256 claim l r hash size bond unique p =
    let d = eligible claim.claimant_id bond in
    let seed = committee_seed hash claim in
    let apart : TellsApart (ranked_before sha3_256 seed) (filter d l) = λ a b ma mb h k.
      unique a b ((mem-filter d).0 ma).0 ((mem-filter d).0 mb).0
        (ranked_before_antisymm sha3_256 seed a b h k) in
    ap (λ (s : List AuditValidator). map validator_key (take size s))
      (sort_by-eq_of_perm (ranked_before sha3_256 seed)
        (ranked_before-IsTotalPreorder sha3_256 seed) (filter d l) (filter d r) apart
        (Perm.filter d p))

module _ (sha3_256 : Bytes → Bytes) (beacon : Beacon) (window : AuditWindow)
    (l r : List AuditValidator) (size : ℕ) (bond : ℤ)
    (unique : Injective validator_key bad_validator_id l) (p : Perm l r) where
  assign_all_order :
      (selected : TextMap Selected) (out : Assigned)
      → assign_all sha3_256 beacon window l size bond selected out
        ≡ assign_all sha3_256 beacon window r size bond selected out
  unfolding assign_all
  assign_all_order [] out = refl
  assign_all_order ((k, s) ∷ selected) out =
      let same = select_committee_order sha3_256 s.claim l r beacon.hash size bond unique p in
      rw same (assign_all_order selected (assign sha3_256 beacon window r size bond s out))

-- Two lists with the same validators in any order give the same schedule, where both give one.
pub build_audit_schedule_order :
    (sha3_256 : Bytes → Bytes) (window : AuditWindow) (beacon : Beacon)
    (claims : List AuditableComputeClaim) (l r : List AuditValidator) (policy : AuditPolicy)
    (s t : AuditSchedule)
    → build_audit_schedule sha3_256 window beacon claims l policy ≡ ok s
    → build_audit_schedule sha3_256 window beacon claims r policy ≡ ok t
    → Perm l r
    → s ≡ t
build_audit_schedule_order sha3_256 window beacon claims l r policy s t h k p =
    let (sizes, valid, _, apart, made) =
      build_audit_schedule-ok sha3_256 window beacon claims l policy s h in
    let (sizes', valid', _, _, made') =
      build_audit_schedule-ok sha3_256 window beacon claims r policy t k in
    let same : sizes' ≡ sizes = ok-injective (sym valid ∙ valid') in
    let unique = Distinct-Injective validator_key bad_validator_id validator_set l apart in
    let equal =
      assign_all_order sha3_256 beacon window l r sizes.committee_size policy.minimum_bond unique p
        (selected_claims sha3_256 beacon window policy.extra_claim_probability claims)
        (record { assignments = []; uncovered = [] }) in
    made
    ∙ ap (sorted sha3_256 window beacon claims l policy) equal
    ∙ ap
        (λ n.
          sorted sha3_256 window beacon claims r policy
            (assigned sha3_256 window beacon claims r policy n))
        (sym same)
    ∙ sym made'

-- ===== src/Audits/Schedule/Selection.antt =====
-- Which claims the selection has for a claimant, and that the assignments keep them.
use mathlib.Core.List.Perm
use junctiongenerator.Base.{
  ℕ, ◌≡◌, refl, sym, ap, subst, ◌∙◌, Bool, true, not, ◌&&◌, ◌||◌, List, [], ◌∷◌, ◌++◌, arith,
  Bool-cases, inl, inr,
}
use junctiongenerator.Base.Int.{ℤ}
use junctiongenerator.Base.Texts.{Bytes, Text, text_eq, text_eq_iff, text_eq_refl}
use junctiongenerator.Base.Maps.{TextMap, lookup}
use junctiongenerator.Base.Sorting.{insert_by, sort_by, sort_by-perm}
use junctiongenerator.Base.Search.{any, any-append, any-sort_by, any-insert_of, EveryEntry}
use junctiongenerator.Proposer.{has}
use junctiongenerator.Audits.{
  AuditableComputeClaim, AuditValidator, AuditWindow, Probability, AuditAssignment, Beacon,
  bad_claim_id, rank, rank_le,
}
use junctiongenerator.Audits.Ids.{Injective}
use junctiongenerator.Audits.Schedule.{
  Selected, is_selected, select_first, select_coverage, coverage_seed, sample, select_extra,
  extra_draw, Assigned, add_uncovered, assignment, assign, assign_all,
}
use junctiongenerator.Audits.Schedule.Built.{claim_key}
use junctiongenerator.Audits.Schedule.Coverage.{
  is_coverage, has_members, is_group_of, covers, OfClaimant, UnderId, select_first-UnderId,
  select_first-keeps, select_first-covers,
}

-- An audit of this claimant for coverage.
abbrev pub is_audit_of : Text → AuditAssignment → Bool
is_audit_of claimant a = text_eq a.claimant_id claimant && is_coverage a.reason

has-append : (id : Text) (xs ys : List Text) → has id (xs ++ ys) ≡ (has id xs || has id ys)
has-append id [] ys = refl
has-append id (x ∷ xs) ys = ground (arith, has-append id xs ys)

has-add_uncovered :
    (id new : Text) (l : List Text) → has id l ≡ true → has id (add_uncovered new l) ≡ true
has-add_uncovered id new l h = let grown = has-append id l (new ∷ []) in ground (arith, grown)

has-add_uncovered_self : (new : Text) (l : List Text) → has new (add_uncovered new l) ≡ true
has-add_uncovered_self new l =
    let grown = has-append new l (new ∷ []) in ground (arith, grown, text_eq_refl new)

has-any : (id : Text) (l : List Text) → has id l ≡ any (λ t. text_eq t id) l
has-any id [] = refl
has-any id (x ∷ l) = ap (λ t. text_eq x id || t) (has-any id l)

pub has-sort_by :
    (id : Text) (le : Text → Text → Bool) (l : List Text) → has id (sort_by le l) ≡ has id l
has-sort_by id le l =
    has-any id (sort_by le l) ∙ any-sort_by (λ t. text_eq t id) le l ∙ sym (has-any id l)

module _ (sha3_256 : Bytes → Bytes) (beacon : Beacon) where
  abbrev pub first_ranked : Text → List AuditableComputeClaim → List AuditableComputeClaim
  first_ranked k g = rank sha3_256 g (λ c. c.claim_id) (coverage_seed sha3_256 beacon k)

  has_members-insert_by :
      (le : AuditableComputeClaim → AuditableComputeClaim → Bool) (c : AuditableComputeClaim)
      (g : List AuditableComputeClaim)
      → has_members (insert_by le c g) ≡ true
  unfolding insert_by
  has_members-insert_by le c [] = refl
  has_members-insert_by le c (d ∷ g) = ground arith

  has_members-rank :
      (k : Text) (g : List AuditableComputeClaim) → has_members (first_ranked k g) ≡ has_members g
  unfolding rank sort_by
  has_members-rank k [] = refl
  has_members-rank k (c ∷ g) =
      let le = λ (a b : AuditableComputeClaim).
        rank_le sha3_256 (coverage_seed sha3_256 beacon k) a.claim_id b.claim_id in
      has_members-insert_by le c (sort_by le g)

  pub rank-OfClaimant :
      (all : List AuditableComputeClaim) (k : Text) (g : List AuditableComputeClaim)
      → OfClaimant all k g
      → OfClaimant all k (first_ranked k g)
  unfolding rank
  rank-OfClaimant all k g own x m = own x ((Perm.mem_iff (sort_by-perm _ g)).0 m)

  module _ (all : List AuditableComputeClaim) (unique : Injective claim_key bad_claim_id all) where
    pub select_coverage_lem :
        (claimant : Text) (groups : TextMap (List AuditableComputeClaim))
        (selected : TextMap Selected)
        → EveryEntry (OfClaimant all) groups
        → EveryEntry (UnderId all) selected
        → (any (is_group_of claimant) groups || any (covers claimant) selected) ≡ true
        → any (covers claimant) (select_coverage sha3_256 beacon groups selected) ≡ true
    unfolding select_coverage
    select_coverage_lem claimant [] selected own sound h = h
    select_coverage_lem claimant ((k, g) ∷ groups) selected (own, rest) sound h =
        let r = first_ranked k g in
        let own' = rank-OfClaimant all k g own in
        let sound' = select_first-UnderId all unique k r selected own' sound in
        let keeps = select_first-keeps all unique claimant k r selected own' sound in
        let covers' = select_first-covers all unique k r selected own' in
        let full = has_members-rank k g in
        let named = (text_eq_iff k claimant).0 in
        select_coverage_lem claimant groups (select_first r selected) rest sound' (
          next r (any (covers claimant) selected) (text_eq k claimant) refl keeps
            (λ e f.
              subst (λ t. any (covers t) (select_first r selected) ≡ true) (named e)
                (covers' (full ∙ f)))
            h)
      where
        next :
            (r : List AuditableComputeClaim) (before same : Bool)
            → text_eq k claimant ≡ same
            → (before ≡ true → any (covers claimant) (select_first r selected) ≡ true)
            → (same ≡ true
                → has_members g ≡ true
                → any (covers claimant) (select_first r selected) ≡ true)
            → (((same && has_members g) || any (is_group_of claimant) groups) || before) ≡ true
            → (any (is_group_of claimant) groups || any (covers claimant) (select_first r selected))
              ≡ true
        next r before same e keep new h = ground arith

  sample-keeps :
      (p : Probability) (claimant : Text) (c : AuditableComputeClaim) (selected : TextMap Selected)
      → any (covers claimant) selected ≡ true
      → any (covers claimant) (sample sha3_256 beacon p c selected) ≡ true
  sample-keeps p claimant c selected h =
      elim (Bool-cases (
        is_selected (lookup c.claim_id selected)
        || not (p.is_above (extra_draw sha3_256 beacon c)))) [
          | inl skipped ↦ rw skipped h
          | inr sampled ↦ rw sampled (
              any-insert_of (covers claimant) c.claim_id _ selected
                (λ w found _. ground (arith, sampled, found)) h)
        ]

  pub select_extra-keeps :
      (p : Probability) (claimant : Text) (cs : List AuditableComputeClaim)
      (selected : TextMap Selected)
      → any (covers claimant) selected ≡ true
      → any (covers claimant) (select_extra sha3_256 beacon p cs selected) ≡ true
  unfolding select_extra
  select_extra-keeps p claimant [] selected h = h
  select_extra-keeps p claimant (c ∷ cs) selected h =
      select_extra-keeps p claimant cs (sample sha3_256 beacon p c selected)
        (sample-keeps p claimant c selected h)

  module _ (window : AuditWindow) (validators : List AuditValidator) (size : ℕ) (bond : ℤ) where
    -- The claimant has an audit for coverage, or is reported.
    abbrev accounts_for : Text → Assigned → Bool
    accounts_for claimant out =
        any (is_audit_of claimant) out.assignments || has claimant out.uncovered

    assign-keeps :
        (claimant : Text) (s : Selected) (out : Assigned)
        → accounts_for claimant out ≡ true
        → accounts_for claimant (assign sha3_256 beacon window validators size bond s out) ≡ true
    assign-keeps claimant s out h =
        let new = assignment sha3_256 beacon window validators size bond s in
        let grown = any-append (is_audit_of claimant) out.assignments (new ∷ []) in
        let more = has-add_uncovered claimant s.claim.claimant_id out.uncovered in
        ground (arith, grown, more)

    assign-accounts_for :
        (claimant : Text) (s : Selected) (out : Assigned)
        → text_eq s.claim.claimant_id claimant ≡ true
        → is_coverage s.reason ≡ true
        → accounts_for claimant (assign sha3_256 beacon window validators size bond s out) ≡ true
    assign-accounts_for claimant s out own reason =
        let new = assignment sha3_256 beacon window validators size bond s in
        let grown = any-append (is_audit_of claimant) out.assignments (new ∷ []) in
        let e = (text_eq_iff s.claim.claimant_id claimant).0 own in
        let added = has-add_uncovered_self s.claim.claimant_id out.uncovered in
        let added' : has claimant (add_uncovered s.claim.claimant_id out.uncovered) ≡ true =
          ap (λ t. has t (add_uncovered s.claim.claimant_id out.uncovered)) (sym e) ∙ added in
        ground (arith, grown, added')

    pub assign_all-accounts_for :
        (claimant : Text) (selected : TextMap Selected) (out : Assigned)
        → (any (covers claimant) selected || accounts_for claimant out) ≡ true
        → accounts_for claimant
            (assign_all sha3_256 beacon window validators size bond selected out)
          ≡ true
    unfolding assign_all
    assign_all-accounts_for claimant [] out h = h
    assign_all-accounts_for claimant ((id, s) ∷ selected) out h =
        let keeps = assign-keeps claimant s out in
        let new = assign-accounts_for claimant s out in
        assign_all-accounts_for claimant selected
          (assign sha3_256 beacon window validators size bond s out)
          (next (accounts_for claimant out)
            (accounts_for claimant (assign sha3_256 beacon window validators size bond s out))
            (text_eq s.claim.claimant_id claimant) (is_coverage s.reason) keeps new h)
      where
        next :
            (before after own reason : Bool)
            → (before ≡ true → after ≡ true)
            → (own ≡ true → reason ≡ true → after ≡ true)
            → (((own && reason) || any (covers claimant) selected) || before) ≡ true
            → (any (covers claimant) selected || after) ≡ true
        next before after own reason keep new h = ground arith

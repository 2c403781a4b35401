-- ===== src/Audits/Schedule/Coverage.antt =====
-- The claimants with a claim in the window: their audits, or the report that there is no
-- committee.
use mathlib.Core.List.{
  Mem, mem-cons_self, mem-cons_of_mem, mem-append, forall_mem-cons, not-mem-nil,
}
use mathlib.Core.Logic.Or
use junctiongenerator.Base.{
  ◌≡◌, refl, sym, ap, ◌∙◌, Bool, true, false, ◌&&◌, Option, none, some, List, [], ◌∷◌, ◌++◌, arith,
}
use junctiongenerator.Base.Texts.{Text, text_eq, text_eq_refl}
use junctiongenerator.Base.Maps.{TextMap, lookup, insert}
use junctiongenerator.Base.Search.{
  any, any-insert, any-insert_of, EveryEntry, EveryEntry-insert, EveryEntry-lookup,
}
use junctiongenerator.Audits.{
  AuditableComputeClaim, AuditReason, coverage, random_sample, bad_claim_id, group_claims, or_empty,
}
use junctiongenerator.Audits.Ids.{Injective}
use junctiongenerator.Audits.Schedule.Built.{claim_key}
use junctiongenerator.Audits.Schedule.{Selected, select_first}

abbrev pub is_coverage : AuditReason → Bool
is_coverage coverage = true
is_coverage random_sample = false

abbrev pub has_members : List AuditableComputeClaim → Bool
has_members [] = false
has_members (c ∷ cs) = true

-- A group of this claimant.
abbrev pub is_group_of : Text → Text × List AuditableComputeClaim → Bool
is_group_of claimant e = text_eq e.0 claimant && has_members e.1

-- An entry that covers this claimant.
abbrev pub covers : Text → Text × Selected → Bool
covers claimant e = text_eq e.1.claim.claimant_id claimant && is_coverage e.1.reason

module _ (all : List AuditableComputeClaim) where
  -- A group holds claims of its claimant.
  abbrev pub OfClaimant : Text → List AuditableComputeClaim → Type 0
  OfClaimant k g = (x : AuditableComputeClaim) → Mem x g → Mem x all × (x.claimant_id ≡ k)

  -- An entry stands under the id of its claim.
  abbrev pub UnderId : Text → Selected → Type 0
  UnderId k s = (s.claim.claim_id ≡ k) × Mem s.claim all

  of_claimant-prop :
      (k : Text) (x : AuditableComputeClaim) → IsProp (Mem x all × (x.claimant_id ≡ k))
  of_claimant-prop k x = hlevel

  grown-OfClaimant :
      (k : Text) (g : List AuditableComputeClaim) (c : AuditableComputeClaim)
      → OfClaimant k g
      → Mem c all
      → c.claimant_id ≡ k
      → OfClaimant k (g ++ (c ∷ []))
  grown-OfClaimant k g c old m e x mx =
      Or.elim (of_claimant-prop k x) (mem-append.0 mx) (old x) (λ last.
        (forall_mem-cons (of_claimant-prop k)).1 ((m, e), λ y my. absurd (not-mem-nil my)) x last)

  found-OfClaimant :
      (k : Text) (groups : TextMap (List AuditableComputeClaim))
      (found : Option (List AuditableComputeClaim))
      → EveryEntry OfClaimant groups
      → lookup k groups ≡ found
      → OfClaimant k (or_empty found)
  found-OfClaimant k groups none sound e = λ x m. absurd (not-mem-nil m)
  found-OfClaimant k groups (some g) sound e = EveryEntry-lookup OfClaimant k g groups sound e

  pub group_claims-OfClaimant :
      (cs : List AuditableComputeClaim) (groups : TextMap (List AuditableComputeClaim))
      → ((x : AuditableComputeClaim) → Mem x cs → Mem x all)
      → EveryEntry OfClaimant groups
      → EveryEntry OfClaimant (group_claims cs groups)
  unfolding group_claims
  group_claims-OfClaimant [] groups inside sound = sound
  group_claims-OfClaimant (c ∷ cs) groups inside sound =
      let k = c.claimant_id in
      let old = or_empty (lookup k groups) in
      let grown =
        grown-OfClaimant k old c (found-OfClaimant k groups (lookup k groups) sound refl)
          (inside c mem-cons_self) refl in
      group_claims-OfClaimant cs (insert k (old ++ (c ∷ [])) groups)
        (λ x m. inside x (mem-cons_of_mem c m))
        (EveryEntry-insert OfClaimant k (old ++ (c ∷ [])) groups grown sound)

has_members-append :
    (g : List AuditableComputeClaim) (c : AuditableComputeClaim)
    → has_members (g ++ (c ∷ [])) ≡ true
has_members-append [] c = refl
has_members-append (x ∷ g) c = refl

group_claims-keeps :
    (claimant : Text) (cs : List AuditableComputeClaim)
    (groups : TextMap (List AuditableComputeClaim))
    → any (is_group_of claimant) groups ≡ true
    → any (is_group_of claimant) (group_claims cs groups) ≡ true
unfolding group_claims
group_claims-keeps claimant [] groups h = h
group_claims-keeps claimant (c ∷ cs) groups h =
    let k = c.claimant_id in
    let new = or_empty (lookup k groups) ++ (c ∷ []) in
    let full = has_members-append (or_empty (lookup k groups)) c in
    group_claims-keeps claimant cs (insert k new groups)
      (any-insert_of (is_group_of claimant) k new groups (λ w found p. ground (arith, full)) h)

pub group_claims-finds :
    (cs : List AuditableComputeClaim) (groups : TextMap (List AuditableComputeClaim))
    → (c : AuditableComputeClaim) → Mem c cs
    → any (is_group_of c.claimant_id) (group_claims cs groups) ≡ true
unfolding group_claims
group_claims-finds [] groups = λ c m. absurd (not-mem-nil m)
group_claims-finds (c ∷ cs) groups =
    let k = c.claimant_id in
    let new = or_empty (lookup k groups) ++ (c ∷ []) in
    let full = has_members-append (or_empty (lookup k groups)) c in
    let here : is_group_of k (k, new) ≡ true = ground (arith, full, text_eq_refl k) in
    (forall_mem-cons (found-prop (group_claims cs (insert k new groups)))).1 (
      group_claims-keeps k cs (insert k new groups) (any-insert (is_group_of k) k new groups here),
      group_claims-finds cs (insert k new groups),
    )
  where
    found-prop :
        (out : TextMap (List AuditableComputeClaim)) (c : AuditableComputeClaim)
        → IsProp (any (is_group_of c.claimant_id) out ≡ true)
    found-prop out c = hlevel

module _ (all : List AuditableComputeClaim) (unique : Injective claim_key bad_claim_id all) where
  pub select_first-UnderId :
      (k : Text) (r : List AuditableComputeClaim) (selected : TextMap Selected)
      → OfClaimant all k r
      → EveryEntry (UnderId all) selected
      → EveryEntry (UnderId all) (select_first r selected)
  select_first-UnderId k [] selected own sound = sound
  select_first-UnderId k (c ∷ r) selected own sound =
      EveryEntry-insert (UnderId all) c.claim_id (record { claim = c; reason = coverage }) selected
        (refl, (own c mem-cons_self).0) sound

  pub select_first-keeps :
      (claimant k : Text) (r : List AuditableComputeClaim) (selected : TextMap Selected)
      → OfClaimant all k r
      → EveryEntry (UnderId all) selected
      → any (covers claimant) selected ≡ true
      → any (covers claimant) (select_first r selected) ≡ true
  select_first-keeps claimant k [] selected own sound h = h
  select_first-keeps claimant k (c ∷ r) selected own sound h =
      any-insert_of (covers claimant) c.claim_id (record { claim = c; reason = coverage }) selected
        (λ w found p.
          let under = EveryEntry-lookup (UnderId all) c.claim_id w selected sound found in
          let same : w.claim ≡ c = unique w.claim c under.1 (own c mem-cons_self).0 under.0 in
          let owner : w.claim.claimant_id ≡ c.claimant_id = ap (λ x. x.claimant_id) same in
          let covered : text_eq w.claim.claimant_id claimant ≡ true = ground arith in
          let covered' : text_eq c.claimant_id claimant ≡ true =
            ap (λ t. text_eq t claimant) (sym owner) ∙ covered in
          ground (arith, covered'))
        h

  pub select_first-covers :
      (k : Text) (r : List AuditableComputeClaim) (selected : TextMap Selected)
      → OfClaimant all k r
      → has_members r ≡ true
      → any (covers k) (select_first r selected) ≡ true
  select_first-covers k [] selected own h = cc
  select_first-covers k (c ∷ r) selected own h =
      let owner = (own c mem-cons_self).1 in
      any-insert (covers k) c.claim_id (record { claim = c; reason = coverage }) selected
        (rw owner (ground (arith, text_eq_refl k)))

-- ===== src/Audits/Ids.antt =====
-- What the check of the ids of audit-schedule.ts shows: no two members have the same id.
use mathlib.Core.List.{Mem, Pairwise, mem-cons, forall_mem-cons, not-mem-nil}
use mathlib.Core.Logic.Or
use junctiongenerator.Base.{
  ◌≡◌, sym, ap, ◌∙◌, false, ◌||◌, List, [], ◌∷◌, map, arith, ok, throw_if-ok,
}
use junctiongenerator.Base.Texts.{Text, text_eq, text_eq_iff}
use junctiongenerator.Proposer.{has, is_empty}
use junctiongenerator.Audits.{AuditError, check_ids}

module _ {T : Type 0} (key : T → Text) (e : AuditError) where
  abbrev pub Distinct : T → T → Type 0
  Distinct a b = text_eq (key a) (key b) ≡ false

  pub Distinct-prop : (a b : T) → IsProp (Distinct a b)
  Distinct-prop a b = hlevel

  pub Distinct-sym : (a b : T) → Distinct a b → Distinct b a
  Distinct-sym a b h = ground (arith, text_eq_iff (key a) (key b), text_eq_iff (key b) (key a))

  unseen-prop : (seen : List Text) (x : T) → IsProp (has (key x) seen ≡ false)
  unseen-prop seen x = hlevel

  check_ids-unseen :
      (seen : List Text) (l : List T)
      → check_ids e seen (map key l) ≡ ok tt
      → (x : T) → Mem x l
      → has (key x) seen ≡ false
  unfolding check_ids
  check_ids-unseen seen [] h = λ x m. absurd (not-mem-nil m)
  check_ids-unseen seen (y ∷ l) h =
      let (new, rest) = throw_if-ok (is_empty (key y) || has (key y) seen) _ _ tt h in
      (forall_mem-cons (unseen-prop seen)).1 (
        ground (arith, new),
        λ x m. let later = check_ids-unseen (key y ∷ seen) l rest x m in ground (arith, later),
      )

  pub check_ids-Distinct :
      (seen : List Text) (l : List T) → check_ids e seen (map key l) ≡ ok tt → Pairwise Distinct l
  unfolding check_ids
  check_ids-Distinct seen [] h = Pairwise.nil
  check_ids-Distinct seen (y ∷ l) h =
      let (_, rest) = throw_if-ok (is_empty (key y) || has (key y) seen) _ _ tt h in
      Pairwise.cons
        (λ x m. let later = check_ids-unseen (key y ∷ seen) l rest x m in ground (arith, later))
        (check_ids-Distinct (key y ∷ seen) l rest)

  -- So members with the same id are the same.
  abbrev pub Injective : List T → Type 0
  Injective l = (a b : T) → Mem a l → Mem b l → key a ≡ key b → a ≡ b

  pub Distinct-Injective :
      ((a b : T) → IsProp (a ≡ b)) → (l : List T) → Pairwise Distinct l → Injective l
  Distinct-Injective set [] p a b ma mb same = absurd (not-mem-nil ma)
  Distinct-Injective set (x ∷ l) (Pairwise.cons apart p) a b ma mb same =
      Or.elim (set a b) (mem-cons.0 ma)
        (λ ea.
          Or.elim (set a b) (mem-cons.0 mb) (λ eb. ea ∙ sym eb)
            (λ mb'.
              let differ = apart b mb' in
              let equal = (text_eq_iff (key x) (key b)).1 (ap key (sym ea) ∙ same) in absurd (cc)))
        (λ ma'.
          Or.elim (set a b) (mem-cons.0 mb)
            (λ eb.
              let differ = apart a ma' in
              let equal = (text_eq_iff (key x) (key a)).1 (ap key (sym eb) ∙ sym same) in
              absurd (cc))
            (λ mb'. Distinct-Injective set l p a b ma' mb' same))

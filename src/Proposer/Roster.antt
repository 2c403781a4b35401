-- ===== src/Proposer/Roster.antt =====
-- The rosters that the proposer draw accepts.
use mathlib.Core.List.{Mem, Pairwise, mem-cons_self, mem-cons_of_mem, forall_mem-cons, not-mem-nil}
use mathlib.Core.List.Pairwise
use junctiongenerator.Base.{
  ℕ, ◌≡◌, refl, sym, ap, ◌∙◌, true, false, not, List, [], ◌∷◌, arith, ok, ◌↔◌, ◌≤◌, ltb,
  throw_if-ok, bind-ok, ok-injective,
}
use junctiongenerator.Base.Texts.{Text, text_eq, text_eq_iff}
use junctiongenerator.Base.Int.{pos}
use junctiongenerator.Canonical.{int, max_safe_integer, consensus_uint}
use junctiongenerator.Proposer.{
  ValidatorBond, ValidatorStakeSnapshot, is_empty, is_negative, has, check_bonds, schedule,
  sorted_positive_validators, is_hash, assert_hash, encoded,
}

abbrev pub IsBond : ValidatorBond → Type 0
IsBond b = (is_empty b.validator_id ≡ false) × (is_negative b.bonded_stake ≡ false)

IsBond-prop : (b : ValidatorBond) → IsProp (IsBond b)
IsBond-prop b = hlevel

abbrev pub Differ : ValidatorBond → ValidatorBond → Type 0
Differ a b = text_eq a.validator_id b.validator_id ≡ false

pub Differ-prop : (a b : ValidatorBond) → IsProp (Differ a b)
Differ-prop a b = hlevel

pub Differ-sym : (a b : ValidatorBond) → Differ a b → Differ b a
Differ-sym a b h =
    ground
      (arith, text_eq_iff a.validator_id b.validator_id, text_eq_iff b.validator_id a.validator_id)

-- Every bond has an id and a stake that is not negative, and no two have the same id.
pub record IsRoster (l : List ValidatorBond) : Type 0 where
  pub bonds : (b : ValidatorBond) → Mem b l → IsBond b
  pub distinct : Pairwise Differ l

abbrev IsFresh : List Text → List ValidatorBond → Type 0
IsFresh seen l = (b : ValidatorBond) → Mem b l → has b.validator_id seen ≡ false

not_seen-prop : (seen : List Text) (b : ValidatorBond) → IsProp (has b.validator_id seen ≡ false)
not_seen-prop seen b = hlevel

pub IsRoster-tail : (b : ValidatorBond) (l : List ValidatorBond) → IsRoster (b ∷ l) → IsRoster l
IsRoster-tail b l r = record {
  bonds = λ x m. r.bonds x (mem-cons_of_mem b m);
  distinct = Pairwise.of_cons r.distinct;
}

IsFresh-cons :
    (seen : List Text) (b : ValidatorBond) (l : List ValidatorBond)
    → Pairwise Differ (b ∷ l)
    → IsFresh seen (b ∷ l)
    → IsFresh (b.validator_id ∷ seen) l
IsFresh-cons seen b l (Pairwise.cons d _) f x m =
    let differ = d x m in let fresh = f x (mem-cons_of_mem b m) in rw (differ, fresh)

check_bonds_ok :
    (seen : List Text) (l : List ValidatorBond)
    → IsRoster l
    → IsFresh seen l
    → check_bonds seen l ≡ ok l
unfolding check_bonds
check_bonds_ok seen [] r f = refl
check_bonds_ok seen (b ∷ l) r f =
    let (named, solvent) = r.bonds b mem-cons_self in
    let unseen = f b mem-cons_self in
    let rest =
      check_bonds_ok (b.validator_id ∷ seen) l (IsRoster-tail b l r)
        (IsFresh-cons seen b l r.distinct f) in
    rw (named, unseen, solvent, rest)

not_seen-Differ :
    (seen : List Text) (b x : ValidatorBond)
    → has x.validator_id (b.validator_id ∷ seen) ≡ false
    → Differ b x
not_seen-Differ seen b x h = ground arith

not_seen-rest :
    (seen : List Text) (b x : ValidatorBond)
    → has x.validator_id (b.validator_id ∷ seen) ≡ false
    → has x.validator_id seen ≡ false
not_seen-rest seen b x h = ground arith

safe_height : (n m : ℕ) → encoded (consensus_uint (int (pos n))) ≡ ok m → n ≤ max_safe_integer
unfolding consensus_uint
safe_height n m h = ground arith

-- What an accepted list is.
abbrev Accepted : List Text → List ValidatorBond → List ValidatorBond → Type 0
Accepted seen l r = (r ≡ l) × IsRoster l × IsFresh seen l

abbrev Accepts : List Text → List ValidatorBond → Type 0
Accepts seen l = (r : List ValidatorBond) → check_bonds seen l ≡ ok r → Accepted seen l r

Accepts-cons :
    (seen : List Text) (b : ValidatorBond) (l : List ValidatorBond)
    → Accepts (b.validator_id ∷ seen) l
    → Accepts seen (b ∷ l)
unfolding check_bonds
Accepts-cons seen b l ih r h =
    let (named, h₁) = throw_if-ok (is_empty b.validator_id) _ _ r h in
    let (unseen, h₂) = throw_if-ok (has b.validator_id seen) _ _ r h₁ in
    let (solvent, h₃) = throw_if-ok (is_negative b.bonded_stake) _ _ r h₂ in
    let (r', checked, result) = bind-ok (check_bonds (b.validator_id ∷ seen) l) _ r h₃ in
    let (same, roster, fresh) = ih r' checked in
    (
      (ok-injective result ∙ ap (λ t. b ∷ t) same),
      record {
        bonds = (forall_mem-cons IsBond-prop).1 ((named, solvent), roster.bonds);
        distinct = Pairwise.cons (λ x m. not_seen-Differ seen b x (fresh x m)) roster.distinct;
      },
      (forall_mem-cons (not_seen-prop seen)).1
          (unseen, (λ x m. not_seen-rest seen b x (fresh x m))),
    )

check_bonds-Accepts : (seen : List Text) (l : List ValidatorBond) → Accepts seen l
unfolding check_bonds
check_bonds-Accepts seen [] r h = (
  ok-injective h,
  record { bonds = λ b m. absurd (not-mem-nil m); distinct = Pairwise.nil },
  (λ b m. absurd (not-mem-nil m)),
)
check_bonds-Accepts seen (b ∷ l) r h =
    Accepts-cons seen b l (check_bonds-Accepts (b.validator_id ∷ seen) l) r h

-- What `sortedPositiveValidators` accepts.
abbrev pub IsSnapshot : ValidatorStakeSnapshot → Type 0
IsSnapshot s = (is_hash s.root ≡ true) × (s.height ≤ max_safe_integer) × IsRoster s.validators

pub sorted_positive_validators_ok :
    (s : ValidatorStakeSnapshot)
    → IsSnapshot s
    → sorted_positive_validators s ≡ ok (schedule s.validators)
unfolding sorted_positive_validators assert_hash consensus_uint
sorted_positive_validators_ok s (root, height, roster) =
    let safe : ltb max_safe_integer s.height ≡ false = ground arith in
    let checked = check_bonds_ok [] s.validators roster (λ b m. refl) in rw (root, safe, checked)

-- The snapshot is accepted exactly if its root is a hash, its height is safe and its bonds are a roster;
-- the result is then the bonds with stake, sorted by id.
pub sorted_positive_validators_iff :
    (s : ValidatorStakeSnapshot) (r : List ValidatorBond)
    → (sorted_positive_validators s ≡ ok r) ↔ (IsSnapshot s × (r ≡ schedule s.validators))
unfolding sorted_positive_validators assert_hash
sorted_positive_validators_iff s r = (
  λ h.
      let (root, h₁) = throw_if-ok (not (is_hash s.root)) _ _ r h in
      let (height, safe, h₂) = bind-ok (encoded (consensus_uint (int (pos s.height)))) _ r h₁ in
      let (l, checked, result) = bind-ok (check_bonds [] s.validators) _ r h₂ in
      let (same, roster, _) = check_bonds-Accepts [] s.validators l checked in
      (
        (ground arith, safe_height s.height height safe, roster),
        ok-injective result ∙ ap schedule same,
      ),
  λ h. sorted_positive_validators_ok s h.0 ∙ ap ok (sym h.1),
)

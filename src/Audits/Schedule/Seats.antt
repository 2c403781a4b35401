-- ===== src/Audits/Schedule/Seats.antt =====
-- The seats of a committee that `selectCommittee` fills.
use mathlib.Core.List.{
  Mem, Mem-prop, filter, mem-filter, filter-sublist, Pairwise, mem-cons, mem-cons_of_mem,
  not-mem-nil,
}
use mathlib.Core.List.Perm
use mathlib.Core.List.Pairwise
use mathlib.Core.Logic.Or
use junctiongenerator.Base.{
  ℕ, zero, suc, ◌≡◌, ◌≢◌, ◌≤◌, refl, true, List, [], ◌∷◌, map, arith, length,
}
use junctiongenerator.Base.Int.{ℤ, ◌≤ℤ◌}
use junctiongenerator.Base.Texts.{Bytes, Text, text_eq_iff}
use junctiongenerator.Base.Sorting.{sort_by, sort_by-perm}
use junctiongenerator.Spending.Bonds.{take}
use junctiongenerator.Audits.{
  AuditableComputeClaim, AuditValidator, bad_validator_id, rank, rank_le, is_eligible, eligible,
  committee_seed,
}
use junctiongenerator.Audits.Ids.{Distinct-prop, Distinct-sym}
use junctiongenerator.Audits.Schedule.Built.{validator_key, DistinctValidators}

pub length-take-le : {A : Type 0} (n : ℕ) (l : List A) → length (take n l) ≤ n
unfolding take
length-take-le zero l = omega arith
length-take-le (suc n) [] = omega arith
length-take-le (suc n) (x ∷ l) = omega (arith, length-take-le n l)

pub length-map : {A B : Type 0} (f : A → B) (l : List A) → length (map f l) ≡ length l
length-map f [] = refl
length-map f (x ∷ l) = omega (arith, length-map f l)

mem-take : {A : Type 0} (n : ℕ) (l : List A) (x : A) → Mem x (take n l) → Mem x l
unfolding take
mem-take zero l x m = absurd (not-mem-nil m)
mem-take (suc n) [] x m = m
mem-take {A} (suc n) (y ∷ l) x m =
    Or.elim Mem-prop (mem-cons.0 m) (λ e. mem-cons.1 (Or.inl e))
      (λ m'. mem-cons_of_mem y (mem-take n l x m'))

Pairwise-take :
    {A : Type 0} {R : A → A → Type 0} (n : ℕ) (l : List A) → Pairwise R l → Pairwise R (take n l)
unfolding take
Pairwise-take zero l p = Pairwise.nil
Pairwise-take (suc n) [] p = Pairwise.nil
Pairwise-take (suc n) (x ∷ l) (Pairwise.cons below p) =
    Pairwise.cons (λ y m. below y (mem-take n l y m)) (Pairwise-take n l p)

-- Validators of the roster that may sit on the committee of a claim of this claimant, none twice.
pub record IsCommittee (validators : List AuditValidator) (claimant : Text) (bond : ℤ)
    (seats : List AuditValidator) : Type 0 where
  pub distinct : Pairwise DistinctValidators seats
  pub members : (v : AuditValidator) → Mem v seats → Mem v validators
  pub active : (v : AuditValidator) → Mem v seats → v.active ≡ true
  pub bonded : (v : AuditValidator) → Mem v seats → bond ≤ℤ v.bonded_stake
  pub independent : (v : AuditValidator) → Mem v seats → v.validator_id ≢ claimant

is_eligible-ok :
    (claimant : Text) (bond : ℤ) (v : AuditValidator)
    → is_eligible claimant bond v ≡ true
    → (v.active ≡ true) × (bond ≤ℤ v.bonded_stake) × (v.validator_id ≢ claimant)
is_eligible-ok claimant bond v h = (
  ground arith,
  ground arith,
  λ e. let same = (text_eq_iff v.validator_id claimant).1 e in ground arith,
)

abbrev pub seats_of :
    (Bytes → Bytes)
    → AuditableComputeClaim
    → List AuditValidator
    → Text
    → ℕ
    → ℤ
    → List AuditValidator
seats_of sha3_256 claim validators hash size bond = take size (
    rank sha3_256 (filter (eligible claim.claimant_id bond) validators) validator_key
      (committee_seed hash claim))

pub seats_of-IsCommittee :
    (sha3_256 : Bytes → Bytes) (claim : AuditableComputeClaim) (validators : List AuditValidator)
    (hash : Text) (size : ℕ) (bond : ℤ)
    → Pairwise DistinctValidators validators
    → IsCommittee validators claim.claimant_id bond
        (seats_of sha3_256 claim validators hash size bond)
unfolding rank
seats_of-IsCommittee sha3_256 claim validators hash size bond apart =
    let d = eligible claim.claimant_id bond in
    let able = filter d validators in
    let le = λ (a b : AuditValidator).
      rank_le sha3_256 (committee_seed hash claim) a.validator_id b.validator_id in
    let ranked = sort_by le able in
    let back = λ (v : AuditValidator) (m : Mem v (take size ranked)).
      (mem-filter d).0 ((Perm.mem_iff (sort_by-perm le able)).0 (mem-take size ranked v m)) in
    record {
      distinct = Pairwise-take size ranked (
          Perm.pairwise (Distinct-prop validator_key bad_validator_id)
            (Distinct-sym validator_key bad_validator_id) (Perm.symm (sort_by-perm le able))
            (Pairwise.sublist (Distinct-prop validator_key bad_validator_id) (filter-sublist d)
              apart));
      members = λ v m. (back v m).0;
      active = λ v m. (is_eligible-ok claim.claimant_id bond v (back v m).1).0;
      bonded = λ v m. (is_eligible-ok claim.claimant_id bond v (back v m).1).1;
      independent = λ v m. (is_eligible-ok claim.claimant_id bond v (back v m).1).2;
    }

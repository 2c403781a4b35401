-- ===== src/Proposer/Order.antt =====
-- The selection under a reordering of the bonds.
use mathlib.Core.List.{Perm, mem-filter, filter}
use mathlib.Core.List.Perm
use mathlib.Core.List.Pairwise
use mathlib.Core.HLevel.{Π_prop}
use junctiongenerator.Base.{ℕ, ◌≡◌, refl, true, List, [], ◌∷◌, arith}
use junctiongenerator.Base.Texts.{Bytes, Text, text_eq_iff}
use junctiongenerator.Base.Sorting.{IsTotalPreorder, TellsApart, sort_by-eq_of_perm}
use junctiongenerator.Canonical.Order.{bytes_le-IsTotalPreorder, bytes_le_antisymm}
use junctiongenerator.Proposer.{
  ValidatorBond, ValidatorStakeSnapshot, has_stake, by_id, schedule, draw_from, draw_context,
  proposer_draw, select_block_proposer,
}
use junctiongenerator.Proposer.Roster.{
  IsSnapshot, IsRoster, Differ, Differ-prop, Differ-sym, sorted_positive_validators_ok,
}

by_id-IsTotalPreorder : IsTotalPreorder by_id
by_id-IsTotalPreorder = record {
  trans = λ a b c. bytes_le-IsTotalPreorder.trans a.validator_id b.validator_id c.validator_id;
  total = λ a b. bytes_le-IsTotalPreorder.total a.validator_id b.validator_id;
}

pub IsRoster-perm : {l r : List ValidatorBond} → Perm l r → IsRoster r → IsRoster l
IsRoster-perm p h = record {
  bonds = λ b m. h.bonds b ((Perm.mem_iff p).0 m);
  distinct = Perm.pairwise Differ-prop Differ-sym (Perm.symm p) h.distinct;
}

bond_set : (a b : ValidatorBond) → IsProp (a ≡ b)
bond_set a b = hlevel

SameIfTied : ValidatorBond → ValidatorBond → Type 0
SameIfTied a b = by_id a b ≡ true → by_id b a ≡ true → a ≡ b

SameIfTied-prop : (a b : ValidatorBond) → IsProp (SameIfTied a b)
unfolding SameIfTied
SameIfTied-prop a b = Π_prop (λ p. Π_prop (λ q. bond_set a b))

Differ-SameIfTied : (a b : ValidatorBond) → Differ a b → SameIfTied a b
unfolding SameIfTied
Differ-SameIfTied a b d p q =
    let same = bytes_le_antisymm a.validator_id b.validator_id p q in
    absurd (ground (arith, text_eq_iff a.validator_id b.validator_id))

IsRoster-TellsApart : (l : List ValidatorBond) → IsRoster l → TellsApart by_id l
unfolding SameIfTied
IsRoster-TellsApart l h a b ma mb =
    Pairwise.forall_of_forall_of_flip SameIfTied-prop (λ x m p q. refl)
      (Pairwise.imp Differ-SameIfTied h.distinct)
      (Pairwise.imp (λ x y d. Differ-SameIfTied y x (Differ-sym x y d)) h.distinct) a ma b mb

schedule-eq_of_perm : (l r : List ValidatorBond) → IsRoster l → Perm l r → schedule l ≡ schedule r
unfolding schedule
schedule-eq_of_perm l r h p =
    sort_by-eq_of_perm by_id by_id-IsTotalPreorder (filter has_stake l) (filter has_stake r)
      (λ a b ma mb.
        IsRoster-TellsApart l h a b ((mem-filter has_stake).0 ma).0 ((mem-filter has_stake).0 mb).0)
      (Perm.filter has_stake p)

draw_from_same :
    (sha3_256 : Bytes → Bytes) (s : ValidatorStakeSnapshot) (l vs : List ValidatorBond)
    (previous_block_hash : Text) (height : ℕ)
    → draw_from sha3_256 (record s { validators = l }) previous_block_hash height vs
      ≡ draw_from sha3_256 s previous_block_hash height vs
unfolding draw_from proposer_draw draw_context
draw_from_same sha3_256 s l [] previous_block_hash height = refl
draw_from_same sha3_256 s l (v ∷ vs) previous_block_hash height = refl

-- Two accepted snapshots that differ only in the order of their bonds select the same proposer.
pub select_block_proposer_order :
    (sha3_256 : Bytes → Bytes) (s : ValidatorStakeSnapshot) (l : List ValidatorBond)
    (previous_block_hash : Text) (height : ℕ)
    → IsSnapshot s
    → Perm l s.validators
    → select_block_proposer sha3_256 (record s { validators = l }) previous_block_hash height
      ≡ select_block_proposer sha3_256 s previous_block_hash height
unfolding select_block_proposer
select_block_proposer_order sha3_256 s l previous_block_hash height h p =
    let roster = IsRoster-perm p h.2 in
    let sorted = sorted_positive_validators_ok s h in
    let sorted' = sorted_positive_validators_ok (record s { validators = l }) (h.0, h.1, roster) in
    let same = schedule-eq_of_perm l s.validators roster p in
    rw (sorted, sorted', same)
      (draw_from_same sha3_256 s l (schedule s.validators) previous_block_hash height)

-- ===== src/Quorum/Slashes.antt =====
-- What `StakeLedger.slash` takes.
use junctiongenerator.Base.{
  ◌≡◌, ◌≢◌, sym, ap, ◌∙◌, false, some, arith, inl, inr, Bool-cases, if◌then◌else◌,
}
use junctiongenerator.Base.Int.{ℤ, pos, negsuc, ◌≤ℤ◌, ◌-ℤ◌, ◌+ℤ◌}
use junctiongenerator.Base.Texts.{Text, text_eq, text_eq_iff, text_eq_refl}
use junctiongenerator.Base.Maps.{lookup, insert, lookup-insert}
use junctiongenerator.Quorum.{StakeLedger, stake_of, slash, int_min, int_max, or_none}

-- Of the node's stake, this much is gone, not more than there was, and nobody else's.
pub record IsSlashOf (node : Text) (before after : StakeLedger) (removed : ℤ) : Type 0 where
  pub removed_nonneg : pos 0 ≤ℤ removed
  pub removed_bound : removed ≤ℤ stake_of before node
  pub node_stake : stake_of after node +ℤ removed ≡ stake_of before node
  pub other_stakes : (other : Text) → other ≢ node → stake_of after other ≡ stake_of before other

not_same : (node other : Text) → other ≢ node → text_eq node other ≡ false
not_same node other differ = elim (Bool-cases (text_eq node other)) [
  | inl same ↦ absurd (differ (sym ((text_eq_iff node other).0 same)))
  | inr apart ↦ apart
]

removed_lem :
    (have amount : ℤ)
    → pos 0 ≤ℤ have
    → let removed = int_min have (int_max (pos 0) amount) in
      (pos 0 ≤ℤ removed) × (removed ≤ℤ have) × ((have -ℤ removed) +ℤ removed ≡ have)
unfolding ◌-ℤ◌ ◌+ℤ◌
removed_lem (pos h) (pos a) nonneg = ground arith
removed_lem (pos h) (negsuc a) nonneg = ground arith
removed_lem (negsuc h) a nonneg = absurd (omega (arith, nonneg))

pub slash-IsSlashOf :
    (ledger : StakeLedger) (node : Text) (amount : ℤ)
    → pos 0 ≤ℤ stake_of ledger node
    → IsSlashOf node ledger (slash ledger node amount).0 (slash ledger node amount).1
unfolding slash stake_of
slash-IsSlashOf ledger node amount nonneg =
    let have = or_none (lookup node ledger.stakes) in
    let removed = int_min have (int_max (pos 0) amount) in
    let facts = removed_lem have amount nonneg in
    let own : or_none (lookup node (insert node (have -ℤ removed) ledger.stakes))
        ≡ have -ℤ removed =
      ap or_none (
        lookup-insert node node (have -ℤ removed) ledger.stakes
        ∙ ap (λ t. if t then some (have -ℤ removed) else lookup node ledger.stakes)
            (text_eq_refl node)) in
    record {
      removed_nonneg = facts.0;
      removed_bound = facts.1;
      node_stake = ap (λ s. s +ℤ removed) own ∙ facts.2;
      other_stakes = λ other differ. ap or_none (
          lookup-insert node other (have -ℤ removed) ledger.stakes
          ∙ ap (λ t. if t then some (have -ℤ removed) else lookup other ledger.stakes)
              (not_same node other differ));
    }

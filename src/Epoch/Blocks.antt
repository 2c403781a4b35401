-- ===== src/Epoch/Blocks.antt =====
-- What a block, and the blocks of a whole epoch, do to the accumulator.
use junctiongenerator.Base.{
  ℕ, ◌+◌, ◌%◌, ◌≤◌, ◌<◌, ◌≡◌, refl, ◌↔◌, ◌≢◌, ◌⊎◌, inl, inr, List, arith, ◌==◌, Bool-cases, Result,
  ok, err, sym, ◌∙◌, ap, subst,
}
use junctiongenerator.Base.Texts.{Text}
use junctiongenerator.Base.Maps.{lookup}
use junctiongenerator.Emission.{get_block_reward}
use junctiongenerator.Canonical.{max_safe_integer}
use junctiongenerator.Types.{EpochState, MinerComputeContribution}
use junctiongenerator.Epoch.{
  EpochError, index_mismatch, or_zero, accumulate, next_index, apply_block_to_epoch,
  init_epoch_state,
}
use junctiongenerator.Epoch.Accumulator.{
  IsValid, AllCounts, Accumulated, SameEpoch, sum_weights, contributed, accumulate-IsValid,
  accumulate-Accumulated,
}

-- A fresh accumulator is valid.
pub init_epoch_state-IsValid :
    (height time : ℕ) {s : EpochState} → init_epoch_state height time ≡ ok s → IsValid s
unfolding init_epoch_state
init_epoch_state-IsValid height time e = ground arith

pub init_lem :
    (height time : ℕ) {s : EpochState}
    → init_epoch_state height time ≡ ok s
    → (s.epoch_block_index ≡ 0) × (s.pending_reward_pool ≡ 0) × (s.epoch_start_height ≡ height)
unfolding init_epoch_state
init_lem height time e = ground arith

next_index-IsValid :
    (r : EpochState × Result EpochError (Unit {0}))
    → IsValid r.0
    → r.0.epoch_block_index < 144
    → IsValid (next_index r).0
next_index-IsValid (s, ok _) v lt = record {
  distinct = v.distinct;
  accounted = v.accounted;
  bounded = v.bounded;
  within = omega arith;
}
next_index-IsValid (s, err e) v lt = v

-- The state that the loop starts from.
abbrev with_pool : EpochState → ℕ → ℕ → EpochState
with_pool s height fees = record s {
  pending_reward_pool = s.pending_reward_pool + (get_block_reward height + fees);
}

with_pool-IsValid :
    (s : EpochState) (height fees : ℕ) → IsValid s → IsValid (with_pool s height fees)
with_pool-IsValid s height fees v = record {
  distinct = v.distinct;
  accounted = v.accounted;
  bounded = v.bounded;
  within = v.within;
}

-- The two ways through the guard on the index.
guard_cases :
    (s : EpochState) (cs : List MinerComputeContribution) (height fees : ℕ)
    → ((height % 144 ≢ s.epoch_block_index)
        × (apply_block_to_epoch s cs height fees ≡ (s, err index_mismatch)))
      ⊎ ((height % 144 ≡ s.epoch_block_index)
          × (apply_block_to_epoch s cs height fees
              ≡ next_index (accumulate cs (with_pool s height fees))))
unfolding apply_block_to_epoch
guard_cases s cs height fees = elim (Bool-cases (height % 144 == s.epoch_block_index)) [
  | inl same ↦ inr (ground arith, rw same)
  | inr other ↦ inl (ground arith, rw other)
]

-- A block, accepted or refused, leaves a valid accumulator valid: distinct miners, contributions that
-- add up to the total, the total a safe integer, and an index of at most 144.
pub apply_block_to_epoch-IsValid :
    (s : EpochState) (cs : List MinerComputeContribution) (height fees : ℕ)
    → IsValid s
    → IsValid (apply_block_to_epoch s cs height fees).0
apply_block_to_epoch-IsValid s cs height fees v = elim (guard_cases s cs height fees) [
  | inl (_, refused) ↦ rw refused v
  | inr (same, run) ↦
      let (valid, kept) =
        accumulate-IsValid cs (with_pool s height fees) (with_pool-IsValid s height fees v) in
      rw run (next_index-IsValid _ valid (omega arith))
]

next_index-ok :
    (cs : List MinerComputeContribution) (s : EpochState)
    (r : EpochState × Result EpochError (Unit {0}))
    → Accumulated cs s r
    → ((next_index r).1 ≡ ok tt)
      ↔ (AllCounts cs × (s.total_epoch_tflops + sum_weights cs ≤ max_safe_integer))
next_index-ok cs s (s', ok _) (counts, total, bound, _) =
    ((λ _. (counts, omega arith)), (λ _. refl))
next_index-ok cs s (s', err e) refused = ((λ h. cc), (λ h. absurd (refused h)))

-- A block is accepted exactly when its height has the index that is due, every weight is a natural
-- number, and the epoch's total with the block's weights is a safe integer.
pub apply_block_to_epoch_iff :
    (s : EpochState) (cs : List MinerComputeContribution) (height fees : ℕ)
    → IsValid s
    → ((apply_block_to_epoch s cs height fees).1 ≡ ok tt) ↔ (
        (height % 144 ≡ s.epoch_block_index)
        × AllCounts cs
        × (s.total_epoch_tflops + sum_weights cs ≤ max_safe_integer))
apply_block_to_epoch_iff s cs height fees v = elim (guard_cases s cs height fees) [
  | inl (other, refused) ↦ rw refused ((λ h. cc), (λ h. absurd (other h.0)))
  | inr (same, run) ↦
      let s0 = with_pool s height fees in
      let whole = next_index-ok cs s0 (accumulate cs s0) (accumulate-Accumulated cs s0 v.bounded) in
      rw run ((λ h. (same, (whole.0 h).0, (whole.0 h).1)), (λ h. whole.1 (h.1, h.2)))
]

-- What an accepted block adds.
pub record Adds (s : EpochState) (cs : List MinerComputeContribution) (height fees : ℕ)
    (s' : EpochState) : Type 0 where
  pub pool : s'.pending_reward_pool ≡ s.pending_reward_pool + (get_block_reward height + fees)
  pub total : s'.total_epoch_tflops ≡ s.total_epoch_tflops + sum_weights cs
  pub index : s'.epoch_block_index ≡ s.epoch_block_index + 1
  pub start : s'.epoch_start_height ≡ s.epoch_start_height
  pub each :
      (addr : Text)
      → or_zero (lookup addr s'.miner_contributions)
        ≡ or_zero (lookup addr s.miner_contributions) + contributed addr cs

next_index-Adds :
    (s : EpochState) (cs : List MinerComputeContribution) (height fees : ℕ) {s' : EpochState}
    (r : EpochState × Result EpochError (Unit {0}))
    → Accumulated cs (with_pool s height fees) r
    → SameEpoch (with_pool s height fees) r.0
    → next_index r ≡ (s', ok tt)
    → Adds s cs height fees s'
next_index-Adds s cs height fees (s1, ok _) (counts, total, bound, each) kept e =
    let accepted : Adds s cs height fees
        (record s1 { epoch_block_index = s1.epoch_block_index + 1 }) =
      record {
        pool = kept.3;
        total = total;
        index = omega (arith, kept.2);
        start = kept.0;
        each = each;
      } in
    subst (Adds s cs height fees) (ap {A = EpochState × Result EpochError (Unit {0})} (λ p. p.0) e)
      accepted
next_index-Adds s cs height fees (s1, err _) refused kept e = cc

-- An accepted block adds its subsidy and fees to the pool, its weights to the total and one to the
-- index; every miner's contribution grows by the sum of the miner's own weights in the block.
pub apply_block_to_epoch-Adds :
    (s : EpochState) (cs : List MinerComputeContribution) (height fees : ℕ) {s' : EpochState}
    → IsValid s
    → apply_block_to_epoch s cs height fees ≡ (s', ok tt)
    → Adds s cs height fees s'
apply_block_to_epoch-Adds s cs height fees v e = elim (guard_cases s cs height fees) [
  | inl (_, refused) ↦ cc
  | inr (_, run) ↦
      let s0 = with_pool s height fees in
      next_index-Adds s cs height fees (accumulate cs s0) (accumulate-Accumulated cs s0 v.bounded)
        (accumulate-IsValid cs s0 (with_pool-IsValid s height fees v)).1 (sym run ∙ e)
]

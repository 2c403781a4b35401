-- ===== src/Epoch/WholeEpoch.antt =====
-- The blocks of a whole epoch, and the pool that they leave.
use junctiongenerator.Base.{
  ℕ, suc, ◌+◌, ◌≡◌, refl, inl, inr, true, false, List, [], ◌∷◌, arith, Bool-cases, Result, ok, err,
  length, ◌∙◌, ap, subst,
}
use junctiongenerator.Emission.{get_cumulative_supply, is_valid_epoch_coinbase}
use junctiongenerator.Emission.Supply.{get_cumulative_supply-suc}
use junctiongenerator.Emission.Coinbase.{is_valid_epoch_coinbase_iff}
use junctiongenerator.Types.{EpochState, MinerComputeContribution}
use junctiongenerator.Epoch.{EpochError, apply_block_to_epoch, init_epoch_state}
use junctiongenerator.Epoch.Accumulator.{IsValid}
use junctiongenerator.Epoch.Blocks.{
  init_epoch_state-IsValid, init_lem, apply_block_to_epoch-IsValid, apply_block_to_epoch-Adds,
}

-- The contributions and the fees of a block.
abbrev pub EpochBlock : Type 0
EpochBlock = List MinerComputeContribution × ℕ

-- Successive blocks from a height on, up to one that is refused.
unfoldable pub apply_blocks :
    ℕ → List EpochBlock → EpochState → EpochState × Result EpochError (Unit {0})
apply_blocks height [] s = (s, ok tt)
apply_blocks height ((cs, fees) ∷ blocks) s =
    let r = apply_block_to_epoch s cs height fees in
    let rest = apply_blocks (height + 1) blocks r.0 in elim r.1 [ ok _ ↦ rest | err e ↦ r ]

abbrev pub sum_fees : List EpochBlock → ℕ
sum_fees [] = 0
sum_fees ((cs, fees) ∷ blocks) = fees + sum_fees blocks

-- The two ways that a first block goes.
first_block :
    (height : ℕ) (cs : List MinerComputeContribution) (fees : ℕ) (blocks : List EpochBlock)
    (s : EpochState) {s' : EpochState}
    → apply_blocks height ((cs, fees) ∷ blocks) s ≡ (s', ok tt)
    → (s1 : EpochState) × (apply_block_to_epoch s cs height fees ≡ (s1, ok tt))
      × (apply_blocks (height + 1) blocks s1 ≡ (s', ok tt))
unfolding apply_blocks
first_block height cs fees blocks s e =
    ((apply_block_to_epoch s cs height fees).0, ground arith, ground arith)

-- The pool holds the subsidies and fees of the blocks so far.
apply_blocks_lem :
    (height : ℕ) (blocks : List EpochBlock) (s : EpochState) {s' : EpochState}
    → IsValid s
    → apply_blocks height blocks s ≡ (s', ok tt)
    → IsValid s'
      × (s'.epoch_start_height ≡ s.epoch_start_height)
      × (s'.epoch_block_index ≡ s.epoch_block_index + length blocks)
      × (s'.pending_reward_pool + get_cumulative_supply height
          ≡ s.pending_reward_pool
            + get_cumulative_supply (height + length blocks)
            + sum_fees blocks)
unfolding apply_blocks
apply_blocks_lem height [] s {s'} v e =
    let same = ap {A = EpochState × Result EpochError (Unit {0})} (λ p. p.0) e in
    subst
      (λ t.
        IsValid t
        × (t.epoch_start_height ≡ s.epoch_start_height)
        × (t.epoch_block_index ≡ s.epoch_block_index + 0)
        × (t.pending_reward_pool + get_cumulative_supply height
            ≡ s.pending_reward_pool + get_cumulative_supply (height + 0) + 0))
      same
      (v, refl, omega arith, let here : height + 0 ≡ height = omega arith in rw here (omega arith))
apply_blocks_lem height ((cs, fees) ∷ blocks) s v e =
    let (s1, applied, rest) = first_block height cs fees blocks s e in
    let adds = apply_block_to_epoch-Adds s cs height fees v applied in
    let valid : IsValid s1 =
      subst (λ r. IsValid r.0) applied (apply_block_to_epoch-IsValid s cs height fees v) in
    let (v', start, index, pool) = apply_blocks_lem (height + 1) blocks s1 valid rest in
    let end : height + 1 + length blocks ≡ height + suc (length blocks) = omega arith in
    (
      v',
      start ∙ adds.start,
      omega (arith, index, adds.index),
      omega
          (arith, pool, adds.pool, get_cumulative_supply-suc height, ap get_cumulative_supply end),
    )

-- A whole epoch: from a fresh accumulator at the epoch's start, 144 accepted blocks leave a valid
-- accumulator with that start and index 144, and its pool is exactly the largest amount that the coinbase rule allows
-- for that epoch and the fees of its blocks: the pool is accepted and a unit more is not.
pub apply_blocks_epoch :
    (start time : ℕ) (blocks : List EpochBlock) {s s' : EpochState}
    → init_epoch_state start time ≡ ok s
    → length blocks ≡ 144
    → apply_blocks start blocks s ≡ (s', ok tt)
    → IsValid s'
      × (s'.epoch_start_height ≡ start)
      × (s'.epoch_block_index ≡ 144)
      × (is_valid_epoch_coinbase s'.pending_reward_pool start (sum_fees blocks) ≡ true)
      × (is_valid_epoch_coinbase (s'.pending_reward_pool + 1) start (sum_fees blocks) ≡ false)
apply_blocks_epoch start time blocks {s} {s'} fresh len run =
    let (v, same, index, pool) =
      apply_blocks_lem start blocks s (init_epoch_state-IsValid start time fresh) run in
    let (first, none_yet, at_start) = init_lem start time fresh in
    let end = ap (λ n. get_cumulative_supply (start + n)) len in
    (
      v,
      same ∙ at_start,
      omega arith,
      (is_valid_epoch_coinbase_iff s'.pending_reward_pool start (sum_fees blocks)).1 (omega arith),
      elim (Bool-cases
          (is_valid_epoch_coinbase (s'.pending_reward_pool + 1) start (sum_fees blocks))) [
            | inl over ↦
                let bound =
                  (is_valid_epoch_coinbase_iff (s'.pending_reward_pool + 1) start
                      (sum_fees blocks)).0
                    over in
                absurd (omega arith)
            | inr refused ↦ refused
          ],
    )

-- ===== src/Blocks/Boundary.antt =====
-- packages/jgc-node/src/consensus/validation.ts: the last step of `validateBlockSync` at the epoch boundary,
-- where the coinbase pays out the epoch with the block itself.
mod Examples
use junctiongenerator.Base.{
  ℕ, ◌+◌, ◌/◌, ◌<◌, ◌≡◌, refl, sym, ap, ◌∙◌, arith, List, Result, ok, err, ◌>>=◌, bind-ok,
}
use junctiongenerator.Base.Texts.{Bytes}
use junctiongenerator.Types.{EpochState, Transaction, MinerComputeContribution}
use junctiongenerator.Emission.{get_block_reward, blocks_per_epoch}
use junctiongenerator.Epoch.{EpochError, apply_block_to_epoch}
use junctiongenerator.Epoch.Accumulator.{IsValid, sum_weights}
use junctiongenerator.Epoch.Blocks.{apply_block_to_epoch-IsValid, apply_block_to_epoch-Adds}
use junctiongenerator.Epoch.Settlement.Totality.{IsEncodable}
use junctiongenerator.Coinbase.{SettlementError, CoinbaseFault, settled, validate_coinbase_tx}
use junctiongenerator.Coinbase.Rules.{total_out, validate_coinbase_tx_pays}

module _ (sha256 : Bytes → Bytes) where
  -- The block is applied to a copy of the accumulator, which is then settled.
  unfoldable pub check_settlement :
      Transaction
      → EpochState
      → List MinerComputeContribution
      → ℕ
      → ℕ
      → Result SettlementError (Result CoinbaseFault (Unit {0}))
  check_settlement coinbase epoch_state contributions expected_height block_fees = do
    let applied = apply_block_to_epoch epoch_state contributions expected_height block_fees
    done ← settled applied.1
    validate_coinbase_tx sha256 coinbase applied.0 (expected_height / blocks_per_epoch)
        expected_height

settled-ok : {A : Type 0} (r : Result EpochError A) (a : A) → settled r ≡ ok a → r ≡ ok a
settled-ok (ok b) a h = cc
settled-ok (err e) a h = cc

-- At the boundary, with a valid accumulator of 143 blocks that comes with the block to some work and whose
-- values then fit the encoding: a coinbase that is accepted pays out exactly the pool of the 143 blocks,
-- the reward of this block and its fees.
pub check_settlement_pays :
    (sha256 : Bytes → Bytes) (coinbase : Transaction) (s : EpochState)
    (cs : List MinerComputeContribution) (height fees : ℕ)
    → IsValid s
    → s.epoch_block_index ≡ 143
    → 0 < s.total_epoch_tflops + sum_weights cs
    → IsEncodable (apply_block_to_epoch s cs height fees).0 (height / 144)
    → check_settlement sha256 coinbase s cs height fees ≡ ok (ok tt)
    → total_out coinbase.outputs ≡ s.pending_reward_pool + (get_block_reward height + fees)
unfolding check_settlement
check_settlement_pays sha256 coinbase s cs height fees valid before some_work enc h =
    let after = (apply_block_to_epoch s cs height fees).0 in
    let (u, done, accepted) =
      bind-ok (settled (apply_block_to_epoch s cs height fees).1) _ (ok tt) h in
    let quiet = settled-ok (apply_block_to_epoch s cs height fees).1 tt done in
    let adds =
      apply_block_to_epoch-Adds s cs height fees valid
        (λ i. ((apply_block_to_epoch s cs height fees).0, quiet i)) in
    validate_coinbase_tx_pays sha256 coinbase after (height / 144) height
      (apply_block_to_epoch-IsValid s cs height fees valid) (omega (arith, adds.index, before))
      (omega (arith, adds.total, some_work)) enc accepted
    ∙ adds.pool

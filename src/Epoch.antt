-- ===== src/Epoch.antt =====
-- packages/jgc-node/src/consensus/epoch.ts: the accumulator of an epoch's compute contributions. A
-- method that changes the state in place returns the state it leaves behind and what it returns or
-- throws: what was written before a throw stays written.
pub mod Settlement
pub mod Accumulator
pub mod Blocks
pub mod WholeEpoch
mod Examples
use junctiongenerator.Base.{
  ℕ, ◌+◌, ◌%◌, Bool, Option, none, some, List, [], ◌∷◌, ltb, ◌==◌, not, if◌then◌else◌, Result, ok,
  err,
}
use junctiongenerator.Base.Texts.{Text}
use junctiongenerator.Base.Maps.{lookup, insert}
use junctiongenerator.Emission.{get_block_reward, blocks_per_epoch}
use junctiongenerator.Canonical.{EncodingError, max_safe_integer, consensus_uint}
use junctiongenerator.Types.{EpochState, MinerComputeContribution}

pub data EpochError : Type 0 where
  misaligned_start index_mismatch tflops_overflow epoch_not_complete : EpochError
  encoding : EncodingError → EpochError

unfoldable pub init_epoch_state : ℕ → ℕ → Result EpochError EpochState
init_epoch_state epoch_start_height epoch_start_time =
    if not (epoch_start_height % blocks_per_epoch == 0)
    then err misaligned_start
    else ok (record {
      epoch_start_height = epoch_start_height;
      epoch_block_index = 0;
      total_epoch_tflops = 0;
      miner_contributions = [];
      pending_reward_pool = 0;
      epoch_start_time = epoch_start_time;
    })

-- `epochState.minerContributions.get(addr) ?? 0`
abbrev pub or_zero : Option ℕ → ℕ
or_zero none = 0
or_zero (some n) = n

unfoldable pub add_contribution : Text → ℕ → EpochState → EpochState
add_contribution addr tflops s =
    let existing = or_zero (lookup addr s.miner_contributions) in
    record s {
      total_epoch_tflops = s.total_epoch_tflops + tflops;
      miner_contributions = insert addr (existing + tflops) s.miner_contributions;
    }

-- The `for` over the contributions.
unfoldable pub accumulate :
    List MinerComputeContribution → EpochState → EpochState × Result EpochError (Unit {0})
accumulate [] s = (s, ok tt)
accumulate (c ∷ cs) s = elim (consensus_uint c.proof.tflops_weight) [
  | err e ↦ (s, err (encoding e))
  | ok tflops ↦
      let rest = accumulate cs (add_contribution c.miner_address tflops s) in
      if ltb max_safe_integer (s.total_epoch_tflops + tflops)
      then (s, err tflops_overflow)
      else rest
]

-- `epochState.epochBlockIndex++`, unless the loop threw.
abbrev pub next_index :
    EpochState × Result EpochError (Unit {0}) → EpochState × Result EpochError (Unit {0})
next_index (s, ok _) = (record s { epoch_block_index = s.epoch_block_index + 1 }, ok tt)
next_index (s, err e) = (s, err e)

unfoldable pub apply_block_to_epoch :
    EpochState → List MinerComputeContribution → ℕ → ℕ → EpochState × Result EpochError (Unit {0})
apply_block_to_epoch s contributions block_height block_fees =
    let subsidy = get_block_reward block_height in
    if not (block_height % blocks_per_epoch == s.epoch_block_index)
    then (s, err index_mismatch)
    else next_index (
        accumulate contributions
          (record s { pending_reward_pool = s.pending_reward_pool + (subsidy + block_fees) }))

-- ===== src/Emission/Examples.antt =====
-- Runs of the emission schedule, and its theorems at concrete heights.
use junctiongenerator.Base.{◌+◌, ◌*◌, ◌^◌, ◌≤◌, ◌<◌, ◌≡◌, refl, ◌↔◌, true, false, sum_below}
use junctiongenerator.Emission.{
  get_era_index, get_block_reward, pool_loop, get_cumulative_supply, is_valid_epoch_coinbase,
  initial_block_reward_satoshis, hard_cap_satoshis, base_units_per_jgc,
}
use junctiongenerator.Emission.Reward.{get_block_reward_bounds}
use junctiongenerator.Emission.Supply.{get_cumulative_supply-eq-sum_below}
use junctiongenerator.Emission.Coinbase.{is_valid_epoch_coinbase_iff}

era1_reward : get_block_reward 105_000 ≡ 375_000_000_000_000_000
unfolding get_block_reward
era1_reward = refl

era0_supply : get_cumulative_supply 105_000 ≡ 5_250_000 * base_units_per_jgc
unfolding get_cumulative_supply
era0_supply = refl

first_epoch_claim : is_valid_epoch_coinbase (7200 * base_units_per_jgc) 0 0 ≡ true
unfolding is_valid_epoch_coinbase get_block_reward pool_loop
first_epoch_claim = refl

first_epoch_overclaim : is_valid_epoch_coinbase (7200 * base_units_per_jgc + 1) 0 0 ≡ false
unfolding is_valid_epoch_coinbase get_block_reward pool_loop
first_epoch_overclaim = refl

get_block_reward_bounds_example :
    (get_block_reward 1_050_000 * 4 ^ get_era_index 1_050_000
      ≤ initial_block_reward_satoshis * 3 ^ get_era_index 1_050_000)
    × (initial_block_reward_satoshis * 3 ^ get_era_index 1_050_000
        < (get_block_reward 1_050_000 + 3) * 4 ^ get_era_index 1_050_000)
get_block_reward_bounds_example = get_block_reward_bounds 1_050_000

get_cumulative_supply-eq-sum_below_example :
    (get_cumulative_supply 105_003 ≡ sum_below 105_003 get_block_reward)
    × (get_cumulative_supply 105_003 ≤ hard_cap_satoshis)
get_cumulative_supply-eq-sum_below_example = get_cumulative_supply-eq-sum_below 105_003

is_valid_epoch_coinbase_iff_example :
    (is_valid_epoch_coinbase 9 144 2 ≡ true)
    ↔ (get_cumulative_supply 144 + 9 ≤ get_cumulative_supply (144 + 144) + 2)
is_valid_epoch_coinbase_iff_example = is_valid_epoch_coinbase_iff 9 144 2

-- ===== src/Emission.antt =====
-- packages/jgc-node/src/consensus/emission.ts: the emission schedule. Heights and era indices are
-- naturals, amounts (bigint) are naturals: every amount here is non-negative.
use junctiongenerator.Base.{
  ℕ, zero, suc, ◌+◌, ◌-◌, ◌*◌, ◌/◌, ◌^◌, min, Bool, true, false, not, ◌&&◌, ltb, leb, ◌==◌,
  if◌then◌else◌,
}
pub mod Reward
pub mod Supply
pub mod Coinbase
pub mod Eras
pub mod Examples

abbrev pub base_units_per_jgc : ℕ
base_units_per_jgc = 10 ^ 16

abbrev pub initial_block_reward_satoshis : ℕ
initial_block_reward_satoshis = 50 * base_units_per_jgc

abbrev pub blocks_per_quartering : ℕ
blocks_per_quartering = 105_000

abbrev pub retention_numerator : ℕ
retention_numerator = 3

abbrev pub retention_denominator : ℕ
retention_denominator = 4

abbrev pub hard_cap_satoshis : ℕ
hard_cap_satoshis = 21_000_000 * base_units_per_jgc

abbrev pub blocks_per_epoch : ℕ
blocks_per_epoch = 144

abbrev pub target_block_interval_seconds : ℕ
target_block_interval_seconds = 600

unfoldable pub get_era_index : ℕ → ℕ
get_era_index height = height / blocks_per_quartering

-- The `for` of `getBlockReward`, on the rounds left and the reward so far.
reward_loop : ℕ → ℕ → ℕ
reward_loop zero reward = reward
reward_loop (suc n) reward =
    let reward' = reward * retention_numerator / retention_denominator in
    elim (reward' == 0) [ true ↦ 0 | false ↦ reward_loop n reward' ]

unfoldable pub get_block_reward : ℕ → ℕ
unfolding reward_loop get_era_index
get_block_reward height = reward_loop (get_era_index height) initial_block_reward_satoshis

-- The `while` of `getCumulativeSupply`, on fuel, over `h` and `totalSatoshis`.
supply_loop : ℕ → ℕ → ℕ → ℕ → ℕ
supply_loop zero height h total = total
supply_loop (suc fuel) height h total =
    let reward = get_block_reward h in
    let era_end = get_era_index h * blocks_per_quartering + blocks_per_quartering in
    let blocks_in_era = min era_end height - h in
    elim (ltb h height && not (reward == 0)) [
      | true ↦ supply_loop fuel height era_end (total + reward * blocks_in_era)
      | false ↦ total
    ]

unfoldable pub get_cumulative_supply : ℕ → ℕ
unfolding supply_loop get_block_reward get_era_index
get_cumulative_supply height =
    let total = supply_loop (get_era_index height + 2) height 0 0 in
    if ltb hard_cap_satoshis total then hard_cap_satoshis else total

-- The `for` of `isValidEpochCoinbase`, on the rounds left, `i` and the pool.
pub pool_loop : ℕ → ℕ → ℕ → ℕ → ℕ
pool_loop zero i start pool = pool
pool_loop (suc n) i start pool = pool_loop n (i + 1) start (pool + get_block_reward (start + i))

unfoldable pub is_valid_epoch_coinbase : ℕ → ℕ → ℕ → Bool
is_valid_epoch_coinbase claimed epoch_start fees =
    let epoch_reward_pool = pool_loop blocks_per_epoch 0 epoch_start 0 in
    leb claimed (epoch_reward_pool + fees)

-- `dailyEmissionJGC`, a display value in floating point, is left out.
pub record EmissionEra : Type 0 where
  pub era_index : ℕ
  pub start_height : ℕ
  pub end_height : ℕ
  pub block_reward_satoshis : ℕ
  pub total_era_supply : ℕ

unfoldable pub get_emission_era : ℕ → EmissionEra
unfolding get_block_reward
get_emission_era era_index =
    let start_height = era_index * blocks_per_quartering in
    let block_reward = get_block_reward start_height in
    record {
      era_index = era_index;
      start_height = start_height;
      end_height = start_height + blocks_per_quartering - 1;
      block_reward_satoshis = block_reward;
      total_era_supply = block_reward * blocks_per_quartering;
    }

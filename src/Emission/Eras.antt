-- ===== src/Emission/Eras.antt =====
-- The descriptors of the eras (`getEmissionEra`).
use junctiongenerator.Base.{ℕ, suc, ◌+◌, ◌*◌, ◌/◌, ◌≤◌, ◌≡◌, sym, arith}
use junctiongenerator.Emission.{
  get_block_reward, get_era_index, get_cumulative_supply, get_emission_era, blocks_per_quartering,
}
use junctiongenerator.Emission.Reward.{get_block_reward-eq-era_reward}
use junctiongenerator.Emission.Supply.{emitted_era, supply-eq-emitted}

-- The descriptors of the eras tile the heights: an era begins one block after the end of the one
-- before, and its total is what the supply grows by from its start to the start of the next.
pub get_emission_era_tiles :
    (n : ℕ)
    → let era = get_emission_era n in
      let next = get_emission_era (suc n) in
      (era.end_height + 1 ≡ next.start_height)
      × (get_cumulative_supply era.start_height + era.total_era_supply
          ≡ get_cumulative_supply next.start_height)
unfolding get_emission_era
get_emission_era_tiles n =
    let next : suc n * blocks_per_quartering ≡ n * blocks_per_quartering + blocks_per_quartering =
      omega arith in
    let first : n * blocks_per_quartering / blocks_per_quartering ≡ n = omega arith in
    (
      omega arith,
      rw
          (
            supply-eq-emitted (n * blocks_per_quartering),
            supply-eq-emitted (suc n * blocks_per_quartering),
            get_block_reward-eq-era_reward (n * blocks_per_quartering),
            first,
            next,
          )
          (sym (emitted_era n blocks_per_quartering (omega arith))),
    )

-- Every height between the start and the end of an era's descriptor has the era's index, and pays
-- the era's reward.
pub get_emission_era_reward :
    (n height : ℕ)
    → (get_emission_era n).start_height ≤ height
    → height ≤ (get_emission_era n).end_height
    → (get_era_index height ≡ n)
      × (get_block_reward height ≡ (get_emission_era n).block_reward_satoshis)
unfolding get_emission_era get_era_index
get_emission_era_reward n height lo hi =
    let same : height / blocks_per_quartering ≡ n = omega arith in
    let first : n * blocks_per_quartering / blocks_per_quartering ≡ n = omega arith in
    (
      same,
      rw (
        get_block_reward-eq-era_reward height,
        get_block_reward-eq-era_reward (n * blocks_per_quartering),
        same,
        first,
      ),
    )

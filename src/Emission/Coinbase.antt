-- ===== src/Emission/Coinbase.antt =====
-- The bound on the coinbase of an epoch (`isValidEpochCoinbase`) against the supply.
use junctiongenerator.Base.{ℕ, zero, suc, ◌+◌, ◌≤◌, ◌≡◌, refl, ◌↔◌, arith, true, leb→le}
use junctiongenerator.Emission.{
  pool_loop, get_block_reward, get_cumulative_supply, is_valid_epoch_coinbase,
}
use junctiongenerator.Emission.Supply.{emitted, supply-eq-emitted}

pool_loop_lem :
    (n i start pool base : ℕ)
    → pool + base ≡ emitted (start + i)
    → pool_loop n i start pool + base ≡ emitted (start + i + n)
unfolding pool_loop
pool_loop_lem zero i start pool base e =
    let same : start + i + 0 ≡ start + i = omega arith in rw same e
pool_loop_lem (suc n) i start pool base e =
    let same : start + i + suc n ≡ start + (i + 1) + n = omega arith in
    rw same (pool_loop_lem n (i + 1) start _ base next)
  where
    step : emitted (start + (i + 1)) ≡ emitted (start + i) + get_block_reward (start + i)
    step =
        let one : start + (i + 1) ≡ suc (start + i) = omega arith in rw one (unfold emitted in refl)

    next : pool + get_block_reward (start + i) + base ≡ emitted (start + (i + 1))
    next = omega (arith, step)

epoch_pool :
    (epoch_start : ℕ)
    → pool_loop 144 0 epoch_start 0 + emitted epoch_start ≡ emitted (epoch_start + 144)
epoch_pool epoch_start =
    let same : epoch_start + 0 ≡ epoch_start = omega arith in
    let start : 0 + emitted epoch_start ≡ emitted (epoch_start + 0) = rw same (omega arith) in
    rw same at (pool_loop_lem 144 0 epoch_start 0 (emitted epoch_start) start)

-- A settlement claim is accepted exactly when the supply before the epoch and the claim together do
-- not exceed the supply after the epoch's 144 blocks and the epoch's fees.
pub is_valid_epoch_coinbase_iff :
    (claimed epoch_start fees : ℕ)
    → (is_valid_epoch_coinbase claimed epoch_start fees ≡ true) ↔ (
        get_cumulative_supply epoch_start + claimed
        ≤ get_cumulative_supply (epoch_start + 144) + fees)
unfolding is_valid_epoch_coinbase
is_valid_epoch_coinbase_iff claimed epoch_start fees =
    let pool = epoch_pool epoch_start in
    rw (supply-eq-emitted epoch_start, supply-eq-emitted (epoch_start + 144))
      ((λ h. omega (arith, leb→le _ _ h)), (λ h. ground arith))

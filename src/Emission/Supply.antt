-- ===== src/Emission/Supply.antt =====
-- The loop of the supply over the eras, and the sum of the block rewards.
use junctiongenerator.Base.{
  ℕ, zero, suc, ◌+◌, ◌-◌, ◌*◌, ◌/◌, ◌%◌, ◌≤◌, ◌<◌, min, ◌≡◌, refl, sym, ap, subst, ◌∙◌, arith,
  sum_below,
}
use native.Mathlib.Decide.{dec_le}
use native.Mathlib.Nat.{add-zero, add-suc, mul-le-mul_left}
use junctiongenerator.Emission.{
  supply_loop, get_block_reward, get_era_index, get_cumulative_supply, hard_cap_satoshis,
  blocks_per_quartering,
}
use junctiongenerator.Emission.Reward.{
  era_reward, era_reward_first, era_reward-suc, get_block_reward-eq-era_reward,
  get_block_reward_antitone, get_block_reward-eq-zero,
}

-- What the blocks below a height have emitted, block by block.
unfoldable pub emitted : ℕ → ℕ
emitted height = sum_below height get_block_reward

sum_below_const :
    (f : ℕ → ℕ) (r h k : ℕ)
    → ((i : ℕ) → i < k → f (h + i) ≡ r)
    → sum_below (h + k) f ≡ sum_below h f + r * k
sum_below_const f r h zero c = rw add-zero (omega arith)
sum_below_const f r h (suc k) c =
    rw add-suc
      (omega (arith, c k (omega arith), sum_below_const f r h k (λ i lt. c i (omega arith))))

-- The first `k` blocks of an era all pay its reward.
pub emitted_era :
    (n k : ℕ)
    → k ≤ blocks_per_quartering
    → emitted (n * blocks_per_quartering + k)
      ≡ emitted (n * blocks_per_quartering) + era_reward n * k
unfolding emitted
emitted_era n k le =
    sum_below_const get_block_reward (era_reward n) (n * blocks_per_quartering) k λ i lt.
      let e : (n * blocks_per_quartering + i) / blocks_per_quartering ≡ n = omega arith in
      rw (get_block_reward-eq-era_reward (n * blocks_per_quartering + i), e)

emitted_after_end : (h k : ℕ) → get_block_reward h ≡ 0 → h ≤ k → emitted k ≡ emitted h
unfolding emitted
emitted_after_end h k ended le =
    let e : h + (k - h) ≡ k = omega arith in
    subst (λ m. sum_below m get_block_reward ≡ sum_below h get_block_reward) e
      (sum_below_const get_block_reward 0 h (k - h)
          (λ i lt. omega (arith, ended, get_block_reward_antitone h (h + i) (omega arith)))
        ∙ omega arith)

-- One era, or what of it lies below the height.
emitted_part :
    (h k height : ℕ)
    → h % blocks_per_quartering ≡ 0
    → h ≤ height
    → k ≡ min (h / blocks_per_quartering * blocks_per_quartering + blocks_per_quartering) height - h
    → emitted h + get_block_reward h * k ≡ emitted (h + k)
emitted_part h k height start le e =
    let n = h / blocks_per_quartering in
    let at_start : n * blocks_per_quartering ≡ h = omega arith in
    rw (get_block_reward-eq-era_reward h) (
      subst (λ m. emitted m + era_reward n * k ≡ emitted (m + k)) at_start
        (sym (emitted_era n k (omega arith))))

supply_loop-eq-emitted :
    (fuel height h total : ℕ)
    → h % blocks_per_quartering ≡ 0
    → height ≤ h + fuel * blocks_per_quartering
    → total ≡ emitted (min h height)
    → supply_loop fuel height h total ≡ emitted height
unfolding supply_loop get_era_index
supply_loop-eq-emitted zero height h total start enough e =
    let all : min h height ≡ height = omega arith in rw all at e
supply_loop-eq-emitted (suc fuel) height h total start enough e =
    let era_end = h / blocks_per_quartering * blocks_per_quartering + blocks_per_quartering in
    let k = min era_end height - h in
    elim (dec_le height h) [
      | yes past ↦ let all : min h height ≡ height = omega arith in ground (arith, ap emitted all)
      | no before ↦
          let part = emitted_part h k height start (omega arith) refl in
          let here : min h height ≡ h = omega arith in
          let reached : h + k ≡ min era_end height = omega arith in
          ground (
            arith,
            ap emitted here,
            ap emitted reached,
            part,
            emitted_after_end h height,
            supply_loop-eq-emitted fuel height era_end (total + get_block_reward h * k)
                (omega arith) (omega arith),
          )
    ]

supply_total : (height : ℕ) → supply_loop (get_era_index height + 2) height 0 0 ≡ emitted height
supply_total height =
    let none_yet : min 0 height ≡ 0 = omega arith in
    supply_loop-eq-emitted (get_era_index height + 2) height 0 0 (omega arith)
      (unfold get_era_index in omega arith) (unfold emitted in rw none_yet)

-- What is emitted so far and four times what the current era can still emit stay under the cap.
emitted_room :
    (n : ℕ)
    → emitted (n * blocks_per_quartering) + 4 * blocks_per_quartering * era_reward n
      ≤ hard_cap_satoshis
emitted_room zero = unfold emitted in omega (arith, era_reward_first)
emitted_room (suc n) =
    let next : suc n * blocks_per_quartering ≡ n * blocks_per_quartering + blocks_per_quartering =
      omega arith in
    rw next (
      omega (
        arith,
        emitted_room n,
        emitted_era n blocks_per_quartering (omega arith),
        era_reward-suc n,
      ))

pub emitted_cap : (height : ℕ) → emitted height ≤ hard_cap_satoshis
emitted_cap height =
    let n = height / blocks_per_quartering in
    let k = height % blocks_per_quartering in
    let here : n * blocks_per_quartering + k ≡ height = omega arith in
    subst (λ h. emitted h ≤ hard_cap_satoshis) here
      (omega (
        arith,
        emitted_room n,
        emitted_era n k (omega arith),
        mul-le-mul_left (era_reward n)
            (let small : k ≤ blocks_per_quartering = omega arith in small),
      ))

-- The loop over eras returns, for every height, the sum of the block rewards below it: its fuel is
-- enough, its early exit loses nothing, and the clamp to the hard cap never acts, since that sum
-- is within the cap.
pub get_cumulative_supply-eq-sum_below :
    (height : ℕ)
    → (get_cumulative_supply height ≡ sum_below height get_block_reward)
      × (get_cumulative_supply height ≤ hard_cap_satoshis)
unfolding get_cumulative_supply
get_cumulative_supply-eq-sum_below height =
    let total = supply_total height in
    let cap = emitted_cap height in
    (ground (arith, total, cap, emitted_def height), ground (arith, total, cap))
  where
    emitted_def : (h : ℕ) → emitted h ≡ sum_below h get_block_reward
    emitted_def h = unfold emitted in refl

pub supply-eq-emitted : (height : ℕ) → get_cumulative_supply height ≡ emitted height
unfolding emitted
supply-eq-emitted height = (get_cumulative_supply-eq-sum_below height).0

-- A block adds its reward.
pub get_cumulative_supply-suc :
    (height : ℕ)
    → get_cumulative_supply (height + 1) ≡ get_cumulative_supply height + get_block_reward height
get_cumulative_supply-suc height =
    let one : height + 1 ≡ suc height = omega arith in
    rw (one, supply-eq-emitted (suc height), supply-eq-emitted height) (unfold emitted in refl)

-- From height 14,700,000 on, the supply stands still at 20,370,000 base units below the cap.
pub get_cumulative_supply_final :
    (height : ℕ)
    → 14_700_000 ≤ height
    → get_cumulative_supply height + 20_370_000 ≡ hard_cap_satoshis
get_cumulative_supply_final height h = rw (supply-eq-emitted height) (
    omega (
      arith,
      emitted_after_end 14_700_000 height ((get_block_reward-eq-zero 14_700_000).1 (omega arith)) h,
      supply-eq-emitted 14_700_000,
      at_end,
    ))
  where
    at_end : get_cumulative_supply 14_700_000 ≡ 209_999_999_999_999_979_630_000
    at_end = unfold get_cumulative_supply in refl

-- ===== src/Emission/Reward.antt =====
-- The block reward era by era.
use junctiongenerator.Base.{
  ℕ, zero, suc, ◌+◌, ◌-◌, ◌*◌, ◌/◌, ◌^◌, ◌≤◌, ◌<◌, ◌≡◌, refl, subst, ◌↔◌, arith,
}
use native.Mathlib.Nat.{pow-suc, suc-add, zero-add, mul-le-mul_right}
use native.Mathlib.Decide.{dec_le}
use junctiongenerator.Emission.{
  reward_loop, get_block_reward, get_era_index, initial_block_reward_satoshis,
  blocks_per_quartering,
}

-- Three quarters of `r`, rounded down, `n` times over.
pub decayed : ℕ → ℕ → ℕ
decayed zero r = r
decayed (suc n) r = decayed n (r * 3 / 4)

decayed_zero : (n : ℕ) → decayed n 0 ≡ 0
unfolding decayed
decayed_zero zero = refl
decayed_zero (suc n) = decayed_zero n

reward_loop-eq-decayed : (n r : ℕ) → reward_loop n r ≡ decayed n r
unfolding reward_loop decayed
reward_loop-eq-decayed zero r = refl
reward_loop-eq-decayed (suc n) r =
    ground (arith, reward_loop-eq-decayed n (r * 3 / 4), decayed_zero n)

decayed-suc : (n r : ℕ) → decayed (suc n) r ≡ decayed n r * 3 / 4
unfolding decayed
decayed-suc zero r = refl
decayed-suc (suc n) r = decayed-suc n (r * 3 / 4)

pub era_reward : ℕ → ℕ
era_reward n = decayed n initial_block_reward_satoshis

pub era_reward_first : era_reward 0 ≡ initial_block_reward_satoshis
unfolding era_reward decayed
era_reward_first = refl

pub get_block_reward-eq-era_reward :
    (height : ℕ) → get_block_reward height ≡ era_reward (height / blocks_per_quartering)
unfolding get_block_reward era_reward
get_block_reward-eq-era_reward height = reward_loop-eq-decayed _ _

pub era_reward-suc : (n : ℕ) → era_reward (suc n) ≡ era_reward n * 3 / 4
unfolding era_reward
era_reward-suc n = decayed-suc n initial_block_reward_satoshis

pub decayed-le : (n r : ℕ) → decayed n r ≤ r
unfolding decayed
decayed-le zero r = omega arith
decayed-le (suc n) r = omega (arith, decayed-le n (r * 3 / 4))

era_reward_le : (n d : ℕ) → era_reward (d + n) ≤ era_reward n
era_reward_le n zero = rw zero-add (omega arith)
era_reward_le n (suc d) =
    rw (suc-add d n, era_reward-suc (d + n)) (omega (arith, era_reward_le n d))

pub era_reward_antitone : (n m : ℕ) → n ≤ m → era_reward m ≤ era_reward n
era_reward_antitone n m h =
    let e : m - n + n ≡ m = omega arith in
    subst (λ k. era_reward k ≤ era_reward n) e (era_reward_le n (m - n))

-- The reward never grows with the height.
pub get_block_reward_antitone : (h k : ℕ) → h ≤ k → get_block_reward k ≤ get_block_reward h
get_block_reward_antitone h k le =
    rw (get_block_reward-eq-era_reward k, get_block_reward-eq-era_reward h)
      (era_reward_antitone (h / blocks_per_quartering) (k / blocks_per_quartering) (omega arith))

quarter_bounds :
    (a p exact : ℕ)
    → a * p ≤ exact
    → exact < (a + 3) * p
    → (a * 3 / 4 * (p * 4) ≤ exact * 3) × (exact * 3 < (a * 3 / 4 + 3) * (p * 4))
quarter_bounds a p exact lo hi =
    let below : a * 3 / 4 * 4 ≤ a * 3 = omega arith in
    let above : a * 3 ≤ a * 3 / 4 * 4 + 3 = omega arith in
    (omega (arith, mul-le-mul_right p below), omega (arith, mul-le-mul_right p above))

-- The exact reward of era n is initial * 3 ^ n / 4 ^ n. Rounding at every era loses less than 3 units.
pub era_reward_bounds :
    (n : ℕ)
    → (era_reward n * 4 ^ n ≤ initial_block_reward_satoshis * 3 ^ n)
      × (initial_block_reward_satoshis * 3 ^ n < (era_reward n + 3) * 4 ^ n)
era_reward_bounds zero = unfold era_reward decayed in omega arith
era_reward_bounds (suc n) =
    let ih = era_reward_bounds n in
    let q =
      quarter_bounds (era_reward n) (4 ^ n) (initial_block_reward_satoshis * 3 ^ n) ih.0 ih.1 in
    rw (era_reward-suc n, pow-suc 4 n, pow-suc 3 n) (omega (arith, q.0), omega (arith, q.1))

era_reward_last : 0 < era_reward 139
unfolding era_reward decayed
era_reward_last = omega arith

era_reward_over : era_reward 140 ≡ 0
unfolding era_reward decayed
era_reward_over = refl

era_reward-eq-zero : (n : ℕ) → (era_reward n ≡ 0) ↔ (140 ≤ n)
era_reward-eq-zero n = (first, last)
  where
    first : era_reward n ≡ 0 → 140 ≤ n
    first e = elim (dec_le 140 n) [
      | yes p ↦ p
      | no p ↦ absurd (omega (arith, era_reward_last, era_reward_antitone n 139 (omega arith)))
    ]

    last : 140 ≤ n → era_reward n ≡ 0
    last h = omega (arith, era_reward_over, era_reward_antitone 140 n h)

-- No height below 14,700,000 is without a reward, and every height from there on is.
pub get_block_reward-eq-zero : (height : ℕ) → (get_block_reward height ≡ 0) ↔ (14_700_000 ≤ height)
get_block_reward-eq-zero height =
    let era = era_reward-eq-zero (height / blocks_per_quartering) in
    rw (get_block_reward-eq-era_reward height)
      ((λ e. omega (arith, era.0 e)), (λ h. era.1 (omega arith)))

-- The reward at a height is the exact value initial * (3/4)^era rounded down, or at most two units
-- less: with E the era of the height, reward * 4 ^ E lies between 0 and 3 * 4 ^ E below
-- initial * 3 ^ E.
pub get_block_reward_bounds :
    (height : ℕ)
    → let era = get_era_index height in
      (get_block_reward height * 4 ^ era ≤ initial_block_reward_satoshis * 3 ^ era)
      × (initial_block_reward_satoshis * 3 ^ era < (get_block_reward height + 3) * 4 ^ era)
unfolding get_era_index
get_block_reward_bounds height =
    rw (get_block_reward-eq-era_reward height) (era_reward_bounds (height / blocks_per_quartering))

-- Rounding at every era is not the one rounding of the exact value: at era 10 they differ by a unit.
pub get_block_reward_rounds_early :
    get_block_reward (10 * blocks_per_quartering) + 1
    ≡ initial_block_reward_satoshis * 3 ^ 10 / 4 ^ 10
unfolding get_block_reward
get_block_reward_rounds_early = refl

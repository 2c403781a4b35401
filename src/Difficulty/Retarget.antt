-- ===== src/Difficulty/Retarget.antt =====
-- The retargeting: its bounds, and its direction in the timespan.
use junctiongenerator.Base.{ℕ, ◌+◌, ◌*◌, ◌/◌, ◌^◌, ◌≤◌, ◌<◌, ◌≡◌, arith, ltb, if◌then◌else◌, ok}
use native.Mathlib.Nat.{mul-le-mul_left, le-div_iff_mul-le, div-mul-le_self}
use junctiongenerator.Base.Int.{ℤ, pos_part, neg_part, ◌≤ℤ◌}
use junctiongenerator.Difficulty.{
  calculate_next_difficulty_target_exact, clamp_timespan, retarget_target_seconds,
}

clamp_timespan_bounds : (a : ℕ) → (302_400 ≤ clamp_timespan a) × (clamp_timespan a ≤ 4_838_400)
unfolding clamp_timespan
clamp_timespan_bounds a = ground arith

clamp_timespan_mono : (a b : ℕ) → a ≤ b → clamp_timespan a ≤ clamp_timespan b
unfolding clamp_timespan
clamp_timespan_mono a b h = ground arith

-- A quotient by a larger divisor is no larger.
div_antitone : (n c d : ℕ) → 0 < c → c ≤ d → n / d ≤ n / c
div_antitone n c d pc le =
    (le-div_iff_mul-le pc).1 (omega (arith, div-mul-le_self n d, mul-le-mul_left (n / d) le))

abbrev quotient : ℕ → ℤ → ℕ
quotient old actual = old * retarget_target_seconds / clamp_timespan (pos_part actual)

abbrev next_target : ℕ → ℤ → ℕ
next_target old actual = if ltb 0 (quotient old actual) then quotient old actual else 1

calculate_ok :
    (old : ℕ) (actual : ℤ)
    → 0 < old
    → pos_part actual + neg_part actual < 2 ^ 53
    → calculate_next_difficulty_target_exact old actual ≡ ok (next_target old actual)
unfolding calculate_next_difficulty_target_exact
calculate_ok old actual p safe = ground arith

quotient_upper : (old : ℕ) (actual : ℤ) → quotient old actual ≤ 4 * old
quotient_upper old actual =
    let c = (clamp_timespan_bounds (pos_part actual)).0 in
    let d =
      div_antitone (old * retarget_target_seconds) 302_400 (clamp_timespan (pos_part actual))
        (omega arith) c in
    omega arith

quotient_lower : (old : ℕ) (actual : ℤ) → old ≤ 4 * quotient old actual + 3
quotient_lower old actual =
    let c = clamp_timespan_bounds (pos_part actual) in
    let d =
      div_antitone (old * retarget_target_seconds) (clamp_timespan (pos_part actual)) 4_838_400
        (omega arith) c.1 in
    omega arith

-- From a positive target and a safe timespan the next target is computed, and lies between a quarter
-- of the old one, rounded down, and four times it; it is never zero.
pub calculate_next_difficulty_target_exact_bounds :
    (old : ℕ) (actual : ℤ)
    → 0 < old
    → pos_part actual + neg_part actual < 2 ^ 53
    → (next : ℕ) × (calculate_next_difficulty_target_exact old actual ≡ ok next)
      × (0 < next)
      × (next ≤ 4 * old)
      × (old / 4 ≤ next)
calculate_next_difficulty_target_exact_bounds old actual p safe =
    let hi = quotient_upper old actual in
    let lo = quotient_lower old actual in
    (
      next_target old actual,
      calculate_ok old actual p safe,
      ground arith,
      ground arith,
      ground arith,
    )

quotient_antitone : (old : ℕ) (a b : ℤ) → pos_part a ≤ pos_part b → quotient old b ≤ quotient old a
quotient_antitone old a b le =
    div_antitone (old * retarget_target_seconds) (clamp_timespan (pos_part a))
      (clamp_timespan (pos_part b)) (let c = clamp_timespan_bounds (pos_part a) in omega arith)
      (clamp_timespan_mono (pos_part a) (pos_part b) le)

-- The slower the blocks came, the lower the next target: it falls as the timespan grows.
pub calculate_next_difficulty_target_exact_antitone :
    (old : ℕ) (a b : ℤ) {next_a next_b : ℕ}
    → a ≤ℤ b
    → calculate_next_difficulty_target_exact old a ≡ ok next_a
    → calculate_next_difficulty_target_exact old b ≡ ok next_b
    → next_b ≤ next_a
unfolding calculate_next_difficulty_target_exact
calculate_next_difficulty_target_exact_antitone old a b le ea eb =
    let parts : pos_part a ≤ pos_part b = ground arith in
    let q = quotient_antitone old a b parts in ground arith

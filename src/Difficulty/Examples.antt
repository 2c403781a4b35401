-- ===== src/Difficulty/Examples.antt =====
-- Runs of the compact encoding and the retargeting, and their theorems at concrete targets.
use junctiongenerator.Base.{ℕ, ◌*◌, ◌/◌, ◌≤◌, ◌<◌, ◌≡◌, refl, false, arith, ok}
use junctiongenerator.Base.Int.{pos, negsuc}
use junctiongenerator.Difficulty.{
  encode_difficulty_bits_exact, decode_difficulty_bits_exact, is_canonical_difficulty_bits,
  calculate_next_difficulty_target_exact,
}
use junctiongenerator.Difficulty.Retarget.{calculate_next_difficulty_target_exact_bounds}

encode_one : encode_difficulty_bits_exact 1_000_000 ≡ ok 0x030f_4240
unfolding encode_difficulty_bits_exact
encode_one = refl

encode_truncates : encode_difficulty_bits_exact 0x1234_5678 ≡ ok 0x0412_3456
unfolding encode_difficulty_bits_exact
encode_truncates = refl

-- 0x0200_1234 has a spare byte in its mantissa.
not_canonical : is_canonical_difficulty_bits 0x0400_1234 ≡ false
unfolding is_canonical_difficulty_bits decode_difficulty_bits_exact encode_difficulty_bits_exact
not_canonical = refl

next_fast : calculate_next_difficulty_target_exact 1000 (negsuc 4) ≡ ok 4000
unfolding calculate_next_difficulty_target_exact
next_fast = refl

calculate_next_difficulty_target_exact_bounds_example :
    (next : ℕ) × (calculate_next_difficulty_target_exact 1000 (pos 600_000) ≡ ok next)
    × (0 < next)
    × (next ≤ 4 * 1000)
    × (1000 / 4 ≤ next)
calculate_next_difficulty_target_exact_bounds_example =
    calculate_next_difficulty_target_exact_bounds 1000 (pos 600_000) (omega arith) (omega arith)

-- ===== src/Epoch/Examples.antt =====
-- Runs of an epoch, and its theorems at a concrete state. SHA-256 is replaced by the identity.
use mathlib.Core.List.Perm
use junctiongenerator.Base.{
  ℕ, zero, suc, ◌+◌, ◌%◌, ◌≤◌, ◌≡◌, refl, ◌↔◌, ◌≢◌, true, false, List, [], ◌∷◌, map, arith, ok,
}
use junctiongenerator.Base.Int.{pos, negsuc}
use junctiongenerator.Base.Texts.{Text, text_eq}
use junctiongenerator.Base.Maps.{lookup, insert}
use junctiongenerator.Base.Sorting.{insert_by, sort_by}
use junctiongenerator.Emission.{get_block_reward, is_valid_epoch_coinbase}
use junctiongenerator.Canonical.{int, max_safe_integer, consensus_uint, compare_canonical_bytes}
use junctiongenerator.Canonical.Order.{bytes_le}
use junctiongenerator.Types.{MinerComputeContribution, EpochState, ai_inference}
use junctiongenerator.Epoch.{init_epoch_state, add_contribution, accumulate, apply_block_to_epoch}
use junctiongenerator.Epoch.Accumulator.{IsValid, AllCounts, sum_weights}
use junctiongenerator.Epoch.Blocks.{
  Adds, apply_block_to_epoch-IsValid, apply_block_to_epoch_iff, apply_block_to_epoch-Adds,
}
use junctiongenerator.Epoch.WholeEpoch.{EpochBlock, apply_blocks, sum_fees, apply_blocks_epoch}
use junctiongenerator.Epoch.Settlement.{
  EpochSettlement, pays_before, sort_miners, pay, compute_epoch_settlement,
}
use junctiongenerator.Epoch.Settlement.Payouts.{paid, Shares, entry_of}
use junctiongenerator.Epoch.Settlement.Totality.{IsEncodable, compute_epoch_settlement_pays}
use junctiongenerator.Epoch.Settlement.Determinism.{compute_epoch_settlement_order}

abbrev contribution : Text → ℕ → MinerComputeContribution
contribution addr tflops = record {
  miner_address = addr;
  proof = record {
    task_commitment = [];
    proof_bytes = [];
    circuit_id = [];
    public_inputs = [];
    tflops_weight = int (pos tflops);
    task_type = ai_inference;
    compute_started_at = [];
  };
  signature = [];
  public_key = [];
}

abbrev alice : Text
alice = b'a' ∷ []

abbrev bob : Text
bob = b'b' ∷ []

abbrev carol : Text
carol = b'c' ∷ []

-- After 144 blocks: carol and bob did as much as each other, alice less.
abbrev completed : EpochState
completed = record {
  epoch_start_height = 0;
  epoch_block_index = 144;
  total_epoch_tflops = 7;
  miner_contributions = (carol, 3) ∷ (alice, 1) ∷ (bob, 3) ∷ [];
  pending_reward_pool = 100;
  epoch_start_time = 0;
}

abbrev second_block : EpochState
second_block = record {
  epoch_start_height = 0;
  epoch_block_index = 1;
  total_epoch_tflops = 4;
  miner_contributions = (alice, 4) ∷ [];
  pending_reward_pool = 10;
  epoch_start_time = 0;
}

completed-IsValid : IsValid completed
unfolding lookup text_eq
completed-IsValid = record {
  distinct = (refl, (refl, (refl, tt)));
  accounted = refl;
  bounded = omega arith;
  within = omega arith;
}

second_block-IsValid : IsValid second_block
unfolding lookup
second_block-IsValid = record {
  distinct = (refl, tt);
  accounted = refl;
  bounded = omega arith;
  within = omega arith;
}

completed-IsEncodable : IsEncodable completed 0
completed-IsEncodable = record {
  index = omega arith;
  start = omega arith;
  pool = omega arith;
  count = omega arith;
  addresses = omega arith;
}

payment_order : sort_miners completed.miner_contributions ≡ (bob, 3) ∷ (carol, 3) ∷ (alice, 1) ∷ []
unfolding sort_miners sort_by insert_by pays_before bytes_le compare_canonical_bytes
payment_order = refl

-- 100 * 3 / 7 is 42, twice; alice has the remaining 16, her share of 14 and the two units lost.
paid_in_order : paid (pay 100 7 0 ((bob, 3) ∷ (carol, 3) ∷ (alice, 1) ∷ [])) ≡ 100
unfolding pay
paid_in_order = refl

-- A block whose second weight is negative throws, and has by then counted its subsidy and first weight.
partial_block :
    let (s, r) =
      apply_block_to_epoch second_block
        (contribution bob 2
          ∷ record (contribution bob 2) {
            proof = record (contribution bob 2).proof { tflops_weight = int (negsuc 0) };
          }
          ∷ [])
        1
        5 in
    (r ≢ ok tt) × (s.total_epoch_tflops ≡ 6) × (s.epoch_block_index ≡ 1)
unfolding apply_block_to_epoch accumulate add_contribution consensus_uint
partial_block = ((λ e. cc), refl, refl)

apply_block_to_epoch-IsValid_example :
    IsValid (apply_block_to_epoch second_block (contribution bob 2 ∷ []) 1 5).0
apply_block_to_epoch-IsValid_example =
    apply_block_to_epoch-IsValid second_block (contribution bob 2 ∷ []) 1 5 second_block-IsValid

apply_block_to_epoch_iff_example :
    ((apply_block_to_epoch second_block (contribution bob 2 ∷ []) 1 5).1 ≡ ok tt) ↔ (
      (1 % 144 ≡ second_block.epoch_block_index)
      × AllCounts (contribution bob 2 ∷ [])
      × (second_block.total_epoch_tflops + sum_weights (contribution bob 2 ∷ [])
          ≤ max_safe_integer))
apply_block_to_epoch_iff_example =
    apply_block_to_epoch_iff second_block (contribution bob 2 ∷ []) 1 5 second_block-IsValid

after_bob : EpochState
after_bob = (apply_block_to_epoch second_block (contribution bob 2 ∷ []) 1 5).0

apply_block_to_epoch-Adds_example : Adds second_block (contribution bob 2 ∷ []) 1 5 after_bob
unfolding after_bob apply_block_to_epoch accumulate consensus_uint
apply_block_to_epoch-Adds_example =
    apply_block_to_epoch-Adds second_block (contribution bob 2 ∷ []) 1 5 second_block-IsValid refl

-- 144 blocks in which alice contributes.
blocks_of : ℕ → List EpochBlock
blocks_of zero = []
blocks_of (suc n) = (contribution alice 2 ∷ [], 3) ∷ blocks_of n

fresh : EpochState
fresh = record {
  epoch_start_height = 0;
  epoch_block_index = 0;
  total_epoch_tflops = 0;
  miner_contributions = [];
  pending_reward_pool = 0;
  epoch_start_time = 9;
}

after_epoch : EpochState
after_epoch = (apply_blocks 0 (blocks_of 144) fresh).0

apply_blocks_epoch_example :
    IsValid after_epoch
    × (after_epoch.epoch_start_height ≡ 0)
    × (after_epoch.epoch_block_index ≡ 144)
    × (is_valid_epoch_coinbase after_epoch.pending_reward_pool 0 (sum_fees (blocks_of 144)) ≡ true)
    × (is_valid_epoch_coinbase (after_epoch.pending_reward_pool + 1) 0 (sum_fees (blocks_of 144))
        ≡ false)
unfolding after_epoch fresh blocks_of init_epoch_state apply_blocks apply_block_to_epoch accumulate
    consensus_uint add_contribution lookup insert text_eq get_block_reward
apply_blocks_epoch_example = apply_blocks_epoch 0 9 (blocks_of 144) {s = fresh} refl refl refl

compute_epoch_settlement_pays_example :
    (st : EpochSettlement) × (compute_epoch_settlement (λ b. b) completed 0 ≡ ok st)
    × (paid st.payouts ≡ completed.pending_reward_pool)
    × Shares completed.pending_reward_pool completed.total_epoch_tflops 0 st.payouts
    × (map entry_of st.payouts ≡ sort_miners completed.miner_contributions)
compute_epoch_settlement_pays_example =
    compute_epoch_settlement_pays (λ b. b) completed 0 completed-IsValid refl (omega arith)
      completed-IsEncodable

abbrev idle : EpochState
idle = record completed { total_epoch_tflops = 0; miner_contributions = [] }

idle-IsValid : IsValid idle
idle-IsValid = record {
  distinct = tt;
  accounted = refl;
  bounded = omega arith;
  within = omega arith;
}

compute_epoch_settlement_order_example :
    compute_epoch_settlement
      (λ b. b)
      (record completed { miner_contributions = (alice, 1) ∷ (carol, 3) ∷ (bob, 3) ∷ [] })
      0
    ≡ compute_epoch_settlement (λ b. b) completed 0
compute_epoch_settlement_order_example =
    compute_epoch_settlement_order (λ b. b) completed ((alice, 1) ∷ (carol, 3) ∷ (bob, 3) ∷ []) 0
      (Perm.swap _ _ _)

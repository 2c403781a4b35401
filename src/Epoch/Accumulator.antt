-- ===== src/Epoch/Accumulator.antt =====
-- What each block adds to the accumulator, on every branch.
use junctiongenerator.Base.{
  ℕ, ◌+◌, ◌≤◌, ◌<◌, ◌≡◌, ltb→lt, refl, ◌≢◌, ◌⊎◌, inl, inr, List, [], ◌∷◌, arith, ltb, if◌then◌else◌,
  Bool-cases, Result, ok, err,
}
use junctiongenerator.Base.Int.{pos, negsuc}
use junctiongenerator.Base.Texts.{Text, text_eq, text_eq_iff}
use junctiongenerator.Base.Maps.{
  TextMap, lookup, insert, HasDistinctKeys, lookup-insert, insert-HasDistinctKeys,
}
use junctiongenerator.Canonical.{
  Number, int, not_an_integer, EncodingError, not_a_safe_integer, consensus_uint, max_safe_integer,
}
use junctiongenerator.Types.{EpochState, MinerComputeContribution}
use junctiongenerator.Epoch.{EpochError, or_zero, add_contribution, accumulate}

abbrev pub sum_values : TextMap ℕ → ℕ
sum_values [] = 0
sum_values ((k, v) ∷ m) = v + sum_values m

-- Distinct miners, whose contributions add up to the total, a safe integer.
pub record IsValid (s : EpochState) : Type 0 where
  pub distinct : HasDistinctKeys s.miner_contributions
  pub accounted : sum_values s.miner_contributions ≡ s.total_epoch_tflops
  pub bounded : s.total_epoch_tflops ≤ max_safe_integer
  pub within : s.epoch_block_index ≤ 144

pub sum_values-insert :
    (k : Text) (v : ℕ) (m : TextMap ℕ)
    → sum_values (insert k v m) + or_zero (lookup k m) ≡ sum_values m + v
unfolding lookup insert
sum_values-insert k v [] = omega arith
sum_values-insert k v ((j, w) ∷ m) = ground (arith, sum_values-insert k v m)

add_contribution-IsValid :
    (addr : Text) (t : ℕ) (s : EpochState)
    → IsValid s
    → s.total_epoch_tflops + t ≤ max_safe_integer
    → IsValid (add_contribution addr t s)
unfolding add_contribution
add_contribution-IsValid addr t s v fits = record {
  distinct = insert-HasDistinctKeys addr _ s.miner_contributions v.distinct;
  accounted = omega (
    arith,
    v.accounted,
    sum_values-insert addr (or_zero (lookup addr s.miner_contributions) + t) s.miner_contributions,
  );
  bounded = fits;
  within = v.within;
}

-- What a weight counts: a natural number, or nothing.
abbrev pub weight : Number → ℕ
weight (int (pos n)) = n
weight (int (negsuc n)) = 0
weight not_an_integer = 0

abbrev pub tflops_of : MinerComputeContribution → ℕ
tflops_of c = weight c.proof.tflops_weight

abbrev pub sum_weights : List MinerComputeContribution → ℕ
sum_weights [] = 0
sum_weights (c ∷ cs) = tflops_of c + sum_weights cs

-- What one miner contributes in a list of contributions.
abbrev pub contributed : Text → List MinerComputeContribution → ℕ
contributed addr [] = 0
contributed addr (c ∷ cs) =
    (if text_eq c.miner_address addr then tflops_of c else 0) + contributed addr cs

-- Every weight is a natural number.
abbrev pub AllCounts : List MinerComputeContribution → Type 0
AllCounts [] = Unit
AllCounts (c ∷ cs) = (c.proof.tflops_weight ≡ int (pos (tflops_of c))) × AllCounts cs

consensus_uint_cases :
    (w : Number)
    → ((e : EncodingError) × (consensus_uint w ≡ err e)
        × ((w ≢ int (pos (weight w))) ⊎ (max_safe_integer < weight w)))
      ⊎ ((consensus_uint w ≡ ok (weight w))
          × (w ≡ int (pos (weight w)))
          × (weight w ≤ max_safe_integer))
unfolding consensus_uint
consensus_uint_cases (int (pos n)) = elim (Bool-cases (ltb max_safe_integer n)) [
  | inl large ↦ inl (not_a_safe_integer, rw large, inr (ground arith))
  | inr small ↦ inr (rw small, refl, ground arith)
]
consensus_uint_cases (int (negsuc n)) = inl (not_a_safe_integer, refl, inl (λ e. cc))
consensus_uint_cases not_an_integer = inl (not_a_safe_integer, refl, inl (λ e. cc))

-- The state after some contributions, if the loop ended, and why it threw, if it did.
abbrev pub Accumulated :
    List MinerComputeContribution → EpochState → EpochState × Result EpochError (Unit {0}) → Type 0
Accumulated cs s (s', ok _) =
    AllCounts cs
    × (s'.total_epoch_tflops ≡ s.total_epoch_tflops + sum_weights cs)
    × (s'.total_epoch_tflops ≤ max_safe_integer)
    × ((addr : Text)
        → or_zero (lookup addr s'.miner_contributions)
          ≡ or_zero (lookup addr s.miner_contributions) + contributed addr cs)
Accumulated cs s (s', err _) =
    ¬ (AllCounts cs × (s.total_epoch_tflops + sum_weights cs ≤ max_safe_integer))

add_contribution-lookup :
    (a addr : Text) (t : ℕ) (s : EpochState)
    → or_zero (lookup addr (add_contribution a t s).miner_contributions)
      ≡ or_zero (lookup addr s.miner_contributions) + (if text_eq a addr then t else 0)
unfolding add_contribution
add_contribution-lookup a addr t s = ground (
  arith,
  lookup-insert a addr (or_zero (lookup a s.miner_contributions) + t) s.miner_contributions,
  text_eq_iff a addr,
)

-- One contribution and the rest.
Accumulated-cons :
    (c : MinerComputeContribution) (cs : List MinerComputeContribution) (s : EpochState)
    (r : EpochState × Result EpochError (Unit {0}))
    → c.proof.tflops_weight ≡ int (pos (tflops_of c))
    → Accumulated cs (add_contribution c.miner_address (tflops_of c) s) r
    → Accumulated (c ∷ cs) s r
unfolding add_contribution
Accumulated-cons c cs s (s', ok _) count (counts, total, bound, each) = (
  (count, counts),
  omega arith,
  bound,
  λ addr. omega (arith, each addr, add_contribution-lookup c.miner_address addr (tflops_of c) s),
)
Accumulated-cons c cs s (s', err e) count refused =
    λ ((h, counts), fits). refused (counts, omega arith)

pub accumulate-Accumulated :
    (cs : List MinerComputeContribution) (s : EpochState)
    → s.total_epoch_tflops ≤ max_safe_integer
    → Accumulated cs s (accumulate cs s)
unfolding accumulate
accumulate-Accumulated [] s b = (tt, omega arith, b, λ addr. omega arith)
accumulate-Accumulated (c ∷ cs) s b = elim (consensus_uint_cases c.proof.tflops_weight) [
  | inl (e, thrown, why) ↦
      rw (thrown, accumulate) (λ ((count, _), fits). refuse why count (omega arith))
  | inr (read, count, small) ↦
      elim (Bool-cases (ltb max_safe_integer (s.total_epoch_tflops + tflops_of c))) [
        | inl over ↦
            let big = ltb→lt _ _ over in
            rw (read, over, accumulate) (λ (_, within). absurd (omega arith))
        | inr fits ↦
            let s' = add_contribution c.miner_address (tflops_of c) s in
            let within : s'.total_epoch_tflops ≤ max_safe_integer =
              unfold add_contribution in ground arith in
            rw (read, fits, accumulate)
              (Accumulated-cons c cs s (accumulate cs s') count
                (accumulate-Accumulated cs s' within))
      ]
]
  where
    refuse :
        (c.proof.tflops_weight ≢ int (pos (tflops_of c))) ⊎ (max_safe_integer < tflops_of c)
        → c.proof.tflops_weight ≡ int (pos (tflops_of c))
        → tflops_of c ≤ max_safe_integer
        → ⊥
    refuse (inl ne) count fits = ne count
    refuse (inr large) count fits = absurd (omega arith)

-- The loop leaves the height, the time, the index and the pool alone.
abbrev pub SameEpoch : EpochState → EpochState → Type 0
SameEpoch s s' =
    (s'.epoch_start_height ≡ s.epoch_start_height)
    × (s'.epoch_start_time ≡ s.epoch_start_time)
    × (s'.epoch_block_index ≡ s.epoch_block_index)
    × (s'.pending_reward_pool ≡ s.pending_reward_pool)

pub accumulate-IsValid :
    (cs : List MinerComputeContribution) (s : EpochState)
    → IsValid s
    → IsValid (accumulate cs s).0 × SameEpoch s (accumulate cs s).0
unfolding accumulate
accumulate-IsValid [] s v = (v, (refl, refl, refl, refl))
accumulate-IsValid (c ∷ cs) s v = elim (consensus_uint_cases c.proof.tflops_weight) [
  | inl (e, thrown, _) ↦ rw (thrown, accumulate) (v, (refl, refl, refl, refl))
  | inr (read, count, small) ↦
      elim (Bool-cases (ltb max_safe_integer (s.total_epoch_tflops + tflops_of c))) [
        | inl over ↦ rw (read, over, accumulate) (v, (refl, refl, refl, refl))
        | inr fits ↦
            let s' = add_contribution c.miner_address (tflops_of c) s in
            let within : s.total_epoch_tflops + tflops_of c ≤ max_safe_integer = ground arith in
            rw (read, fits, accumulate)
              (same (
                accumulate-IsValid cs s'
                  (add_contribution-IsValid c.miner_address (tflops_of c) s v within)))
      ]
]
  where
    same :
        {r : EpochState}
        → IsValid r × SameEpoch (add_contribution c.miner_address (tflops_of c) s) r
        → IsValid r × SameEpoch s r
    same (valid, kept) = (valid, unfold add_contribution in kept)

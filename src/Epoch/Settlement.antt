-- ===== src/Epoch/Settlement.antt =====
-- packages/jgc-node/src/consensus/epoch.ts: the settlement of a completed epoch, and the commitment to
-- the accumulator. SHA-256, from Node's crypto, is a parameter.
pub mod Payouts
pub mod Totality
pub mod Determinism
use junctiongenerator.Base.{
  ℕ, zero, suc, ◌+◌, ◌-◌, ◌*◌, ◌/◌, ◌%◌, Bool, true, false, List, [], ◌∷◌, ◌++◌, ltb, ◌==◌, not,
  ◌||◌, if◌then◌else◌, Result, ok, err, ◌>>=◌, ◌>>◌, throw_if, length,
}
use junctiongenerator.Base.Int.{ℤ, pos, sub_ℕ}
use junctiongenerator.Base.Texts.{Bytes, Text}
use junctiongenerator.Base.Hex.{to_hex}
use junctiongenerator.Base.Sorting.{sort_by, insert_by}
use junctiongenerator.Canonical.{
  EncodingError, Write, ◌then_write◌, u32, u64, u128, write_string, domain, build,
}
use junctiongenerator.Canonical.Order.{bytes_le}
use junctiongenerator.Emission.{blocks_per_epoch}
use junctiongenerator.Types.{EpochState}
use junctiongenerator.Epoch.{EpochError, epoch_not_complete, encoding}

-- `sharePercent`, a display value in floating point, is left out.
pub record EpochPayoutEntry : Type 0 where
  pub miner_address : Text
  pub satoshis : ℤ
  pub tflops_contributed : ℕ

pub record EpochSettlement : Type 0 where
  pub epoch_index : ℕ
  pub epoch_start_height : ℕ
  pub epoch_end_height : ℕ
  pub total_reward_pool : ℕ
  pub total_tflops : ℕ
  pub payouts : List EpochPayoutEntry
  pub settlement_tx_hash : Text

abbrev pub Entry : Type 0
Entry = Text × ℕ

-- `b - a || compareCanonicalBytes(addressA, addressB)` is zero or less.
unfoldable pub pays_before : Entry → Entry → Bool
unfolding bytes_le
pays_before x y = if x.1 == y.1 then bytes_le x.0 y.0 else ltb y.1 x.1

unfoldable pub sort_miners : List Entry → List Entry
sort_miners = sort_by pays_before

abbrev pub payout : Text → ℤ → ℕ → EpochPayoutEntry
payout address satoshis tflops = record {
  miner_address = address;
  satoshis = satoshis;
  tflops_contributed = tflops;
}

-- The `for` over the sorted miners, with `distributed`; the last one is paid the rest.
unfoldable pub pay : ℕ → ℕ → ℕ → List Entry → List EpochPayoutEntry
pay pool total distributed [] = []
pay pool total distributed ((address, tflops) ∷ []) =
    payout address (sub_ℕ pool distributed) tflops ∷ []
pay pool total distributed ((address, tflops) ∷ e ∷ es) =
    let satoshis = pool * tflops / total in
    payout address (pos satoshis) tflops ∷ pay pool total (distributed + satoshis) (e ∷ es)

abbrev pub zeros : ℕ → Text
zeros zero = []
zeros (suc n) = b'0' ∷ zeros n

-- "JGC/EPOCH-SETTLEMENT/V1"
abbrev pub settlement_domain : Text
settlement_domain =
    b'J' ∷ b'G' ∷ b'C' ∷ b'/' ∷ b'E' ∷ b'P' ∷ b'O' ∷ b'C' ∷ b'H' ∷ b'-' ∷ b'S' ∷ b'E' ∷ b'T' ∷ b'T'
    ∷ b'L' ∷ b'E' ∷ b'M' ∷ b'E' ∷ b'N' ∷ b'T' ∷ b'/' ∷ b'V' ∷ b'1' ∷ []

-- "JGC/EPOCH-STATE/V1"
abbrev pub state_domain : Text
state_domain =
    b'J' ∷ b'G' ∷ b'C' ∷ b'/' ∷ b'E' ∷ b'P' ∷ b'O' ∷ b'C' ∷ b'H' ∷ b'-' ∷ b'S' ∷ b'T' ∷ b'A' ∷ b'T'
    ∷ b'E' ∷ b'/' ∷ b'V' ∷ b'1' ∷ []

unfoldable pub write_payouts : List EpochPayoutEntry → Write
write_payouts [] out = ok out
write_payouts (p ∷ ps) out = do
  out' ← (write_string p.miner_address then_write u128 p.satoshis) out
  write_payouts ps out'

-- What `hashEpochSettlement` hashes.
unfoldable pub settlement_preimage : ℕ → ℕ → ℕ → List EpochPayoutEntry → Result EncodingError Bytes
unfolding domain
settlement_preimage epoch_index epoch_start pool payouts = build (
    domain settlement_domain
    then_write u64 epoch_index
    then_write u64 epoch_start
    then_write u128 (pos pool)
    then_write u32 (length payouts)
    then_write write_payouts payouts)

unfoldable pub write_entries : List Entry → Write
write_entries [] out = ok out
write_entries ((address, tflops) ∷ es) out = do
  out' ← (write_string address then_write u64 tflops) out
  write_entries es out'

abbrev pub by_address : Entry → Entry → Bool
by_address x y = bytes_le x.0 y.0

-- What `computeEpochRoot` hashes.
unfoldable pub epoch_root_preimage : EpochState → Result EncodingError Bytes
unfolding domain
epoch_root_preimage s =
    let entries = sort_by by_address s.miner_contributions in
    build (
      domain state_domain
      then_write u64 s.epoch_start_height
      then_write u32 s.epoch_block_index
      then_write u64 s.total_epoch_tflops
      then_write u128 (pos s.pending_reward_pool)
      then_write u32 (length entries)
      then_write write_entries entries)

-- A throw of the writer is a throw of its caller.
abbrev pub hashed : (Bytes → Text) → Result EncodingError Bytes → Result EpochError Text
hashed h (ok bytes) = ok (h bytes)
hashed h (err e) = err (encoding e)

abbrev pub is_empty : List Entry → Bool
is_empty [] = true
is_empty (e ∷ es) = false

abbrev pub settlement : EpochState → ℕ → ℕ → List EpochPayoutEntry → Text → EpochSettlement
settlement s epoch_index total payouts hash = record {
  epoch_index = epoch_index;
  epoch_start_height = s.epoch_start_height;
  epoch_end_height = s.epoch_start_height + blocks_per_epoch - 1;
  total_reward_pool = s.pending_reward_pool;
  total_tflops = total;
  payouts = payouts;
  settlement_tx_hash = hash;
}

module _ (sha256 : Bytes → Bytes) where
  abbrev pub double_sha256_hex : Bytes → Text
  double_sha256_hex bytes = to_hex (sha256 (sha256 bytes))

  unfoldable pub hash_epoch_settlement : ℕ → ℕ → ℕ → List EpochPayoutEntry → Result EpochError Text
  hash_epoch_settlement epoch_index epoch_start pool payouts =
      hashed double_sha256_hex (settlement_preimage epoch_index epoch_start pool payouts)

  unfoldable pub compute_epoch_root : EpochState → Result EpochError Text
  compute_epoch_root s = hashed double_sha256_hex (epoch_root_preimage s)

  -- The miners are paid and the settlement is hashed.
  unfoldable pub settle : EpochState → ℕ → Result EpochError EpochSettlement
  settle s epoch_index = do
    let payouts =
        pay s.pending_reward_pool s.total_epoch_tflops 0 (sort_miners s.miner_contributions)
    hash ← hash_epoch_settlement epoch_index s.epoch_start_height s.pending_reward_pool payouts
    ok (settlement s epoch_index s.total_epoch_tflops payouts hash)

  unfoldable pub compute_epoch_settlement : EpochState → ℕ → Result EpochError EpochSettlement
  compute_epoch_settlement s epoch_index = do
    throw_if (not (s.epoch_block_index == blocks_per_epoch)) epoch_not_complete
    if s.total_epoch_tflops == 0 || is_empty s.miner_contributions
        then ok (settlement s epoch_index 0 [] (zeros 64))
        else settle s epoch_index

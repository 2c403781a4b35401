-- ===== src/Epoch/Settlement/Totality.antt =====
-- The settlement of a completed epoch whose values fit the encoding.
use junctiongenerator.Base.{
  ℕ, suc, ◌+◌, ◌*◌, ◌/◌, ◌^◌, ◌≤◌, ◌<◌, ◌≡◌, refl, sym, ap, subst, ◌∙◌, ◌↔◌, ◌≢◌, Bool, true, false,
  List, [], ◌∷◌, ◌++◌, map, arith, ◌==◌, ok, err, length,
}
use mathlib.Core.List.{append-nil}
use junctiongenerator.Base.Int.{pos, pos_part}
use junctiongenerator.Base.Texts.{Bytes, Text}
use junctiongenerator.Base.Sorting.{insert_by, sort_by}
use junctiongenerator.Canonical.{
  max_safe_integer, ◌then_write◌, domain, write_string, u32, u64, u128,
}
use junctiongenerator.Canonical.Encoding.{
  Writes, u32-Writes, u64-Writes, u128-Writes, write_string-Writes, then_write-Writes, string_bytes,
  u128_bytes,
}
use junctiongenerator.Types.{EpochState}
use junctiongenerator.Epoch.{epoch_not_complete}
use junctiongenerator.Epoch.Accumulator.{IsValid, sum_values}
use junctiongenerator.Epoch.Settlement.{
  EpochPayoutEntry, EpochSettlement, Entry, pay, pays_before, sort_miners, write_payouts,
  settlement_preimage, hash_epoch_settlement, settle, settlement, compute_epoch_settlement,
  is_empty, zeros, double_sha256_hex, settlement_domain,
}
use junctiongenerator.Epoch.Settlement.Payouts.{paid, Shares, entry_of, pay_lem, sum_values-sort_by}

-- Every address is shorter than 2 ^ 32 bytes.
abbrev pub AllShort : List Entry → Type 0
AllShort [] = Unit
AllShort (e ∷ es) = (length e.0 < 2 ^ 32) × AllShort es

module _ (le : Entry → Entry → Bool) where
  insert_by-AllShort : (x : Entry) (l : List Entry) → AllShort (x ∷ l) → AllShort (insert_by le x l)
  unfolding insert_by
  insert_by-AllShort x [] h = h
  insert_by-AllShort x (y ∷ ys) h = ground (arith, insert_by-AllShort x ys (h.0, h.1.1))

  pub sort_by-AllShort : (l : List Entry) → AllShort l → AllShort (sort_by le l)
  unfolding sort_by
  sort_by-AllShort [] h = tt
  sort_by-AllShort (x ∷ xs) h = insert_by-AllShort x (sort_by le xs) (h.0, sort_by-AllShort xs h.1)

  length-insert_by : (x : Entry) (l : List Entry) → length (insert_by le x l) ≡ suc (length l)
  unfolding insert_by
  length-insert_by x [] = refl
  length-insert_by x (y ∷ ys) = ground (arith, length-insert_by x ys)

  pub length-sort_by : (l : List Entry) → length (sort_by le l) ≡ length l
  unfolding sort_by
  length-sort_by [] = refl
  length-sort_by (x ∷ xs) = omega (arith, length-insert_by x (sort_by le xs), length-sort_by xs)

-- The values of a state that are written when it is settled fit their fields.
pub record IsEncodable (s : EpochState) (epoch_index : ℕ) : Type 0 where
  pub index : epoch_index ≤ max_safe_integer
  pub start : s.epoch_start_height ≤ max_safe_integer
  pub pool : s.pending_reward_pool < 2 ^ 128
  pub count : length s.miner_contributions < 2 ^ 32
  pub addresses : AllShort s.miner_contributions

abbrev payouts_bytes : List EpochPayoutEntry → Bytes
payouts_bytes [] = []
payouts_bytes (p ∷ ps) =
    (string_bytes p.miner_address ++ u128_bytes (pos_part p.satoshis)) ++ payouts_bytes ps

abbrev AllFit : List EpochPayoutEntry → Type 0
AllFit [] = Unit
AllFit (p ∷ ps) =
    (length p.miner_address < 2 ^ 32)
    × (p.satoshis ≡ pos (pos_part p.satoshis))
    × (pos_part p.satoshis < 2 ^ 128)
    × AllFit ps

write_payouts-Writes :
    (ps : List EpochPayoutEntry) → AllFit ps → Writes (write_payouts ps) (payouts_bytes ps)
unfolding write_payouts
write_payouts-Writes [] h out = ap ok (sym (append-nil out))
write_payouts-Writes (p ∷ ps) (short, positive, fits, rest) out =
    let amount : Writes (u128 p.satoshis) (u128_bytes (pos_part p.satoshis)) =
      subst (λ z. Writes (u128 z) (u128_bytes (pos_part p.satoshis))) (sym positive)
        (u128-Writes (pos_part p.satoshis) fits) in
    then_write-Writes (write_string p.miner_address then_write u128 p.satoshis) (write_payouts ps) _
      _
      (then_write-Writes (write_string p.miner_address) (u128 p.satoshis) _ _
        (write_string-Writes p.miner_address short) amount)
      (write_payouts-Writes ps rest) out

Shares-AllFit :
    (pool total before : ℕ) (ps : List EpochPayoutEntry)
    → Shares pool total before ps
    → AllShort (map entry_of ps)
    → paid ps < 2 ^ 128
    → AllFit ps
Shares-AllFit pool total before [] h short small = tt
Shares-AllFit pool total before (p ∷ []) (v, e, _, _) short small =
    (short.0, ground arith, omega arith, tt)
Shares-AllFit pool total before (p ∷ q ∷ ps) (e, rest) short small = (
  short.0,
  ground arith,
  omega arith,
  Shares-AllFit pool total (suc before) (q ∷ ps) rest short.1 (omega arith),
)

sort_miners-AllShort : (l : List Entry) → AllShort l → AllShort (sort_miners l)
unfolding sort_miners
sort_miners-AllShort l h = sort_by-AllShort pays_before l h

length-pay : (pool total d : ℕ) (es : List Entry) → length (pay pool total d es) ≡ length es
unfolding pay
length-pay pool total d [] = refl
length-pay pool total d ((address, t) ∷ []) = refl
length-pay pool total d ((address, t) ∷ e ∷ es) =
    ap suc (length-pay pool total (d + pool * t / total) (e ∷ es))

settlement_preimage_ok :
    (epoch_index start pool : ℕ) (ps : List EpochPayoutEntry)
    → epoch_index ≤ max_safe_integer
    → start ≤ max_safe_integer
    → pool < 2 ^ 128
    → length ps < 2 ^ 32
    → AllFit ps
    → (bytes : Bytes) × (settlement_preimage epoch_index start pool ps ≡ ok bytes)
unfolding settlement_preimage
settlement_preimage_ok epoch_index start pool ps hi hs hp hc fit =
    let w1 =
      then_write-Writes (domain settlement_domain) (u64 epoch_index) _ _
        (write_string-Writes settlement_domain (omega arith)) (u64-Writes epoch_index hi) in
    let w2 = then_write-Writes _ (u64 start) _ _ w1 (u64-Writes start hs) in
    let w3 = then_write-Writes _ (u128 (pos pool)) _ _ w2 (u128-Writes pool hp) in
    let w4 = then_write-Writes _ (u32 (length ps)) _ _ w3 (u32-Writes (length ps) hc) in
    let w5 = then_write-Writes _ (write_payouts ps) _ _ w4 (write_payouts-Writes ps fit) in
    (_, w5 [])

-- A list of contributions with a positive sum is not empty.
not_empty : (l : List Entry) → 0 < sum_values l → is_empty l ≡ false
not_empty [] p = absurd (omega arith)
not_empty (e ∷ es) p = refl

module _ (sha256 : Bytes → Bytes) where
  settle_ok :
      (s : EpochState) (epoch_index : ℕ)
      → IsEncodable s epoch_index
      → AllFit
          (pay s.pending_reward_pool s.total_epoch_tflops 0 (sort_miners s.miner_contributions))
      → (hash : Text) × (settle sha256 s epoch_index
          ≡ ok (
              settlement s epoch_index s.total_epoch_tflops
                (pay s.pending_reward_pool s.total_epoch_tflops 0
                  (sort_miners s.miner_contributions))
                hash))
  unfolding settle hash_epoch_settlement sort_miners
  settle_ok s epoch_index enc fit =
      let ps =
        pay s.pending_reward_pool s.total_epoch_tflops 0 (sort_miners s.miner_contributions) in
      let count : length ps < 2 ^ 32 = omega (
        arith,
        enc.count,
        length-pay s.pending_reward_pool s.total_epoch_tflops 0 (sort_miners s.miner_contributions),
        length-sort_by pays_before s.miner_contributions,
      ) in
      let (bytes, written) =
        settlement_preimage_ok epoch_index s.epoch_start_height s.pending_reward_pool ps enc.index
          enc.start enc.pool count fit in
      (double_sha256_hex sha256 bytes, rw written)

  -- A completed epoch with contributions, in a valid state whose values fit the encoding, is settled:
  -- the payouts add up to the pool exactly, no unit lost; every miner but the last is paid
  -- pool * tflops / total rounded down, and the last at least its exact share; and the entries are the
  -- contributions in the order of payment.
  pub compute_epoch_settlement_pays :
      (s : EpochState) (epoch_index : ℕ)
      → IsValid s
      → s.epoch_block_index ≡ 144
      → 0 < s.total_epoch_tflops
      → IsEncodable s epoch_index
      → (st : EpochSettlement) × (compute_epoch_settlement sha256 s epoch_index ≡ ok st)
        × (paid st.payouts ≡ s.pending_reward_pool)
        × Shares s.pending_reward_pool s.total_epoch_tflops 0 st.payouts
        × (map entry_of st.payouts ≡ sort_miners s.miner_contributions)
  unfolding compute_epoch_settlement
  compute_epoch_settlement_pays s epoch_index v complete some_work enc =
      let es = sort_miners s.miner_contributions in
      let pool = s.pending_reward_pool in
      let total = s.total_epoch_tflops in
      let whole : sum_values es ≡ total =
        unfold sort_miners in sum_values-sort_by pays_before s.miner_contributions ∙ v.accounted in
      let (all, shares, entries) = pay_lem pool total es some_work whole in
      let short =
        subst AllShort (sym entries) (sort_miners-AllShort s.miner_contributions enc.addresses) in
      let fit =
        Shares-AllFit pool total 0 (pay pool total 0 es) shares short (omega (arith, enc.pool)) in
      let (hash, done) = settle_ok s epoch_index enc fit in
      let is_complete : (s.epoch_block_index == 144) ≡ true = ground arith in
      let has_work : (total == 0) ≡ false = ground arith in
      let has_miners = not_empty s.miner_contributions (omega (arith, v.accounted)) in
      (
        settlement s epoch_index total (pay pool total 0 es) hash,
        rw (is_complete, has_work, has_miners) done,
        all,
        shares,
        entries,
      )

  -- The settlement throws "Epoch not complete" exactly if the index is not 144.
  pub compute_epoch_settlement_incomplete :
      (s : EpochState) (epoch_index : ℕ)
      → (compute_epoch_settlement sha256 s epoch_index ≡ err epoch_not_complete)
        ↔ (s.epoch_block_index ≢ 144)
  unfolding compute_epoch_settlement settle hash_epoch_settlement
  compute_epoch_settlement_incomplete s epoch_index = (ground arith, ground arith)

  -- If nobody contributed, a completed epoch pays nobody: its pool is in no payout.
  pub compute_epoch_settlement_idle :
      (s : EpochState) (epoch_index : ℕ)
      → IsValid s
      → s.epoch_block_index ≡ 144
      → s.total_epoch_tflops ≡ 0
      → (st : EpochSettlement) × (compute_epoch_settlement sha256 s epoch_index ≡ ok st)
        × (st.total_reward_pool ≡ s.pending_reward_pool)
        × (paid st.payouts ≡ 0)
  unfolding compute_epoch_settlement
  compute_epoch_settlement_idle s epoch_index v complete none_worked =
      (settlement s epoch_index 0 [] (zeros 64), ground arith, refl, refl)

-- ===== src/Epoch/Settlement/Payouts.antt =====
-- The payouts of a settlement: their sum, and the share of each miner.
use junctiongenerator.Base.{
  ℕ, suc, ◌+◌, ◌-◌, ◌*◌, ◌/◌, ◌≤◌, ◌<◌, ◌≡◌, refl, sym, ap, subst, ◌≢◌, Bool, List, [], ◌∷◌, map,
  arith,
}
use native.Mathlib.Nat.{div-mul-le_self, lt-div-mul-add, le_of_mul-le-mul_right}
use junctiongenerator.Base.Int.{pos, pos_part}
use junctiongenerator.Base.Sorting.{insert_by, sort_by}
use junctiongenerator.Epoch.Accumulator.{sum_values}
use junctiongenerator.Epoch.Settlement.{EpochPayoutEntry, Entry, payout, pay}

-- What is paid out in all.
abbrev pub paid : List EpochPayoutEntry → ℕ
paid [] = 0
paid (p ∷ ps) = pos_part p.satoshis + paid ps

abbrev pub entry_of : EpochPayoutEntry → Entry
entry_of p = (p.miner_address, p.tflops_contributed)

-- All but the last miner are paid the exact share pool * tflops / total, rounded down. The last is
-- paid at least the exact share, and at most one unit more for each miner before it.
abbrev pub Shares : ℕ → ℕ → ℕ → List EpochPayoutEntry → Type 0
Shares pool total before [] = Unit
Shares pool total before (p ∷ []) =
    (v : ℕ) × (p.satoshis ≡ pos v)
    × (pool * p.tflops_contributed ≤ v * total)
    × (v * total ≤ pool * p.tflops_contributed + before * total)
Shares pool total before (p ∷ q ∷ ps) =
    (p.satoshis ≡ pos (pool * p.tflops_contributed / total))
    × Shares pool total (suc before) (q ∷ ps)

sum_values-insert_by :
    (le : Entry → Entry → Bool) (x : Entry) (l : List Entry)
    → sum_values (insert_by le x l) ≡ x.1 + sum_values l
unfolding insert_by
sum_values-insert_by le x [] = refl
sum_values-insert_by le x (y ∷ ys) = ground (arith, sum_values-insert_by le x ys)

pub sum_values-sort_by :
    (le : Entry → Entry → Bool) (l : List Entry) → sum_values (sort_by le l) ≡ sum_values l
unfolding sort_by
sum_values-sort_by le [] = refl
sum_values-sort_by le (x ∷ xs) =
    omega (arith, sum_values-insert_by le x (sort_by le xs), sum_values-sort_by le xs)

module _ (pool total : ℕ) (positive : 0 < total) where
  -- The miners still to be paid can take their shares: `distributed` is what the ones before them
  -- took, at most their exact shares, and less than them by less than a unit for each.
  record Room (distributed before : ℕ) (es : List Entry) : Type 0 where
    over : distributed * total + pool * sum_values es ≤ pool * total
    under : pool * total ≤ distributed * total + pool * sum_values es + before * total

  Room-next :
      (distributed before : ℕ) (address : List ℕ) (t : ℕ) (e : Entry) (es : List Entry)
      → Room distributed before ((address, t) ∷ e ∷ es)
      → Room (distributed + pool * t / total) (suc before) (e ∷ es)
  Room-next distributed before address t e es r =
      let lo = div-mul-le_self (pool * t) total in
      let hi = lt-div-mul-add {a = pool * t} positive in
      record { over = omega (arith, r.over); under = omega (arith, r.under) }

  Room-fits :
      (distributed before : ℕ) (es : List Entry) → Room distributed before es → distributed ≤ pool
  Room-fits distributed before es r = le_of_mul-le-mul_right (omega (arith, r.over)) positive

  pay-cons :
      (distributed : ℕ) (e : Entry) (es : List Entry)
      → (q : EpochPayoutEntry) × (qs : List EpochPayoutEntry) × (pay pool total distributed (e ∷ es)
          ≡ q ∷ qs)
  unfolding pay
  pay-cons distributed (address, t) [] = (_, _, refl)
  pay-cons distributed (address, t) (e' ∷ es) = (_, _, refl)

  pay-Shares :
      (distributed before : ℕ) (es : List Entry)
      → Room distributed before es
      → Shares pool total before (pay pool total distributed es)
  unfolding pay
  pay-Shares distributed before [] r = tt
  pay-Shares distributed before ((address, t) ∷ []) r =
      let fits = Room-fits distributed before ((address, t) ∷ []) r in
      let split : pool - distributed + distributed ≡ pool = omega arith in
      let scaled = ap (λ n. n * total) split in
      (pool - distributed, ground arith, omega (arith, r.over), omega (arith, r.under))
  pay-Shares distributed before ((address, t) ∷ e ∷ es) r =
      let d = distributed + pool * t / total in
      let (q, qs, paying) = pay-cons d e es in
      let rest =
        pay-Shares d (suc before) (e ∷ es) (Room-next distributed before address t e es r) in
      subst (λ l. Shares pool total before (payout address (pos (pool * t / total)) t ∷ l))
        (sym paying) (refl, subst (Shares pool total (suc before)) paying rest)

  pay-entries :
      (distributed : ℕ) (es : List Entry) → map entry_of (pay pool total distributed es) ≡ es
  unfolding pay
  pay-entries distributed [] = refl
  pay-entries distributed ((address, t) ∷ []) = refl
  pay-entries distributed ((address, t) ∷ e ∷ es) =
      ap (◌∷◌ (address, t)) (pay-entries (distributed + pool * t / total) (e ∷ es))

  paid-pay :
      (distributed before : ℕ) (es : List Entry)
      → es ≢ []
      → Room distributed before es
      → distributed + paid (pay pool total distributed es) ≡ pool
  unfolding pay
  paid-pay distributed before [] ne r = absurd (ne refl)
  paid-pay distributed before ((address, t) ∷ []) ne r =
      let fits = Room-fits distributed before ((address, t) ∷ []) r in ground arith
  paid-pay distributed before ((address, t) ∷ e ∷ es) ne r = omega (
    arith,
    paid-pay (distributed + pool * t / total) (suc before) (e ∷ es) (λ h. cc)
        (Room-next distributed before address t e es r),
  )

-- A settlement's payouts, whatever the pool: the amounts add up to the pool, each miner has its share,
-- and the entries are the miners in the order of payment.
pub pay_lem :
    (pool total : ℕ) (es : List Entry)
    → 0 < total
    → sum_values es ≡ total
    → (paid (pay pool total 0 es) ≡ pool)
      × Shares pool total 0 (pay pool total 0 es)
      × (map entry_of (pay pool total 0 es) ≡ es)
pay_lem pool total es positive whole =
    let room : Room pool total positive 0 0 es = record {
      over = rw whole (omega arith);
      under = rw whole (omega arith);
    } in
    (
      omega (
        arith,
        paid-pay pool total positive 0 0 es (λ h. absurd (omega (arith, ap sum_values h))) room,
      ),
      pay-Shares pool total positive 0 0 es room,
      pay-entries pool total positive 0 es,
    )

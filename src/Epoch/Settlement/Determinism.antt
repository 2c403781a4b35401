-- ===== src/Epoch/Settlement/Determinism.antt =====
-- The settlement and the epoch root under a reordering of the accumulator's map.
use mathlib.Core.List.{Perm, Mem, mem-cons, not-mem-nil}
use mathlib.Core.List.Perm
use mathlib.Core.Logic.Or
use junctiongenerator.Base.{ℕ, ◌≡◌, refl, ap, true, false, some, List, [], ◌∷◌, arith}
use junctiongenerator.Base.Texts.{Bytes, Text, text_eq_iff}
use junctiongenerator.Base.Maps.{lookup, HasDistinctKeys}
use junctiongenerator.Base.Sorting.{
  IsTotalPreorder, TellsApart, sort_by-eq_of_perm, sort_by-IsSorted, sort_by-perm, IsSorted,
}
use junctiongenerator.Canonical.Order.{bytes_le-IsTotalPreorder, bytes_le_antisymm}
use junctiongenerator.Types.{EpochState}
use junctiongenerator.Epoch.Accumulator.{IsValid}
use junctiongenerator.Epoch.Settlement.{
  Entry, pays_before, sort_miners, by_address, is_empty, epoch_root_preimage, compute_epoch_root,
  settle, compute_epoch_settlement,
}

pays_before_trans :
    (a b c : Entry) → pays_before a b ≡ true → pays_before b c ≡ true → pays_before a c ≡ true
unfolding pays_before
pays_before_trans a b c h k = ground (arith, bytes_le-IsTotalPreorder.trans a.0 b.0 c.0)

pays_before_total : (a b : Entry) → pays_before a b ≡ false → pays_before b a ≡ true
unfolding pays_before
pays_before_total a b h = ground (arith, bytes_le-IsTotalPreorder.total a.0 b.0)

pays_before-IsTotalPreorder : IsTotalPreorder pays_before
pays_before-IsTotalPreorder = record { trans = pays_before_trans; total = pays_before_total }

pays_before_antisymm : (a b : Entry) → pays_before a b ≡ true → pays_before b a ≡ true → a ≡ b
unfolding pays_before
pays_before_antisymm (x, t) (y, u) h k = ground (arith, bytes_le_antisymm x y)

-- The miners are paid in the order of falling contributions, those with equal ones in the byte order of
-- their addresses, and each of them once.
pub sort_miners_lem :
    (l : List Entry) → IsSorted pays_before (sort_miners l) × Perm (sort_miners l) l
unfolding sort_miners
sort_miners_lem l =
    (sort_by-IsSorted pays_before pays_before-IsTotalPreorder l, sort_by-perm pays_before l)

sort_miners-eq_of_perm : (l r : List Entry) → Perm l r → sort_miners l ≡ sort_miners r
unfolding sort_miners
sort_miners-eq_of_perm l r p =
    sort_by-eq_of_perm pays_before pays_before-IsTotalPreorder l r
      (λ a b _ _. pays_before_antisymm a b) p

is_empty-eq_of_perm : (l r : List Entry) → Perm l r → is_empty l ≡ is_empty r
is_empty-eq_of_perm [] r p = ap is_empty (Perm.nil-eq p)
is_empty-eq_of_perm (a ∷ l) [] p = ap is_empty (Perm.eq-nil p)
is_empty-eq_of_perm (a ∷ l) (b ∷ r) p = refl

-- Two accumulators that differ only in the order of their miners have the same settlement, its hash
-- included.
pub compute_epoch_settlement_order :
    (sha256 : Bytes → Bytes) (s : EpochState) (m : List Entry) (epoch_index : ℕ)
    → Perm m s.miner_contributions
    → compute_epoch_settlement sha256 (record s { miner_contributions = m }) epoch_index
      ≡ compute_epoch_settlement sha256 s epoch_index
unfolding compute_epoch_settlement settle
compute_epoch_settlement_order sha256 s m epoch_index p =
    let same = sort_miners-eq_of_perm m s.miner_contributions p in
    let size = is_empty-eq_of_perm m s.miner_contributions p in rw (same, size)

-- With distinct keys a member is what its key is mapped to.
lookup_of_mem :
    (k : Text) (v : ℕ) (m : List Entry) → HasDistinctKeys m → Mem (k, v) m → lookup k m ≡ some v
unfolding lookup
lookup_of_mem k v [] d h = absurd (not-mem-nil h)
lookup_of_mem k v ((j, w) ∷ m) d h =
    Or.elim (hlevel) (mem-cons.0 h)
      (λ e. first (ap {A = Entry} (λ p. p.0) e) (ap {A = Entry} (λ p. p.1) e))
      (λ r. later (lookup_of_mem k v m d.1 r))
  where
    first : k ≡ j → v ≡ w → lookup k ((j, w) ∷ m) ≡ some v
    first e f = ground (arith, text_eq_iff j k)

    later : lookup k m ≡ some v → lookup k ((j, w) ∷ m) ≡ some v
    later e = ground (arith, text_eq_iff j k, d.0)

by_address-TellsApart : (m : List Entry) → HasDistinctKeys m → TellsApart by_address m
by_address-TellsApart m d (j, v) (k, w) mj mk h h' =
    let same = bytes_le_antisymm j k h h' in
    let found = lookup_of_mem j v m d mj in
    let found' = lookup_of_mem k w m d mk in
    let values : v ≡ w = ground (arith, ap (λ t. lookup t m) same) in λ i. (same i, values i)

by_address-IsTotalPreorder : IsTotalPreorder by_address
by_address-IsTotalPreorder = record {
  trans = λ a b c. bytes_le-IsTotalPreorder.trans a.0 b.0 c.0;
  total = λ a b. bytes_le-IsTotalPreorder.total a.0 b.0;
}

-- Two accumulators that differ only in the order of their miners, who are distinct, have the same root.
pub compute_epoch_root_order :
    (sha256 : Bytes → Bytes) (s : EpochState) (m : List Entry)
    → IsValid s
    → Perm m s.miner_contributions
    → compute_epoch_root sha256 (record s { miner_contributions = m }) ≡ compute_epoch_root sha256 s
unfolding compute_epoch_root epoch_root_preimage
compute_epoch_root_order sha256 s m v p =
    let same =
      sort_by-eq_of_perm by_address by_address-IsTotalPreorder s.miner_contributions m
        (by_address-TellsApart s.miner_contributions v.distinct) (Perm.symm p) in
    rw same

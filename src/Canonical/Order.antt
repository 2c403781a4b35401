-- ===== src/Canonical/Order.antt =====
-- The byte order of strings as an order.
use Prim.Native.Nat.{Ordering}
use junctiongenerator.Base.{◌≡◌, refl, Bool, true, false, [], ◌∷◌, arith}
use junctiongenerator.Base.Texts.{Bytes}
use junctiongenerator.Base.Sorting.{IsTotalPreorder}
use junctiongenerator.Canonical.{compare_canonical_bytes}

-- `compareCanonicalBytes(a, b) <= 0`
pub at_most : Ordering → Bool
at_most Ordering.gt = false
at_most _ = true

unfoldable pub bytes_le : Bytes → Bytes → Bool
unfolding at_most
bytes_le a b = at_most (compare_canonical_bytes a b)

pub bytes_le_eq : (a b : Bytes) → compare_canonical_bytes a b ≡ Ordering.eq → a ≡ b
unfolding compare_canonical_bytes
bytes_le_eq [] [] h = refl
bytes_le_eq [] (y ∷ ys) h = cc
bytes_le_eq (x ∷ xs) [] h = cc
bytes_le_eq (x ∷ xs) (y ∷ ys) h = ground (arith, bytes_le_eq xs ys)

bytes_le_trans : (a b c : Bytes) → bytes_le a b ≡ true → bytes_le b c ≡ true → bytes_le a c ≡ true
unfolding bytes_le compare_canonical_bytes
bytes_le_trans [] b [] h k = refl
bytes_le_trans [] b (z ∷ zs) h k = refl
bytes_le_trans (x ∷ xs) [] c h k = cc
bytes_le_trans (x ∷ xs) (y ∷ ys) [] h k = cc
bytes_le_trans (x ∷ xs) (y ∷ ys) (z ∷ zs) h k = ground (arith, bytes_le_trans xs ys zs)

pub bytes_le_antisymm : (a b : Bytes) → bytes_le a b ≡ true → bytes_le b a ≡ true → a ≡ b
unfolding bytes_le compare_canonical_bytes
bytes_le_antisymm [] [] h k = refl
bytes_le_antisymm [] (y ∷ ys) h k = cc
bytes_le_antisymm (x ∷ xs) [] h k = cc
bytes_le_antisymm (x ∷ xs) (y ∷ ys) h k = ground (arith, bytes_le_antisymm xs ys)

bytes_le_total : (a b : Bytes) → bytes_le a b ≡ false → bytes_le b a ≡ true
unfolding bytes_le compare_canonical_bytes
bytes_le_total [] [] h = refl
bytes_le_total [] (y ∷ ys) h = cc
bytes_le_total (x ∷ xs) [] h = refl
bytes_le_total (x ∷ xs) (y ∷ ys) h = ground (arith, bytes_le_total xs ys)

pub bytes_le-IsTotalPreorder : IsTotalPreorder bytes_le
bytes_le-IsTotalPreorder = record { trans = bytes_le_trans; total = bytes_le_total }

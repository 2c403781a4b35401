-- ===== src/Merkle/Rows.antt =====
-- The rows of a tree, and the pair that a member of a row belongs to.
use junctiongenerator.Base.{
  ℕ, zero, suc, ◌+◌, ◌-◌, ◌*◌, ◌/◌, ◌%◌, ◌≤◌, ◌<◌, ◌≡◌, refl, ap, List, [], ◌∷◌, arith, length,
}
use junctiongenerator.Base.Texts.{Bytes, Text}
use junctiongenerator.Merkle.{pad, nth, combine_pair, combine_row}

pub pad-pad : (l : List Text) → pad (pad l) ≡ pad l
unfolding pad
pad-pad [] = refl
pad-pad (a ∷ []) = refl
pad-pad (a ∷ b ∷ l) = ap (λ t. a ∷ b ∷ t) (pad-pad l)

pub nth-pad : (i : ℕ) (l : List Text) → i < length l → nth i (pad l) ≡ nth i l
unfolding nth pad
nth-pad i [] h = refl
nth-pad zero (a ∷ []) h = refl
nth-pad (suc i) (a ∷ []) h = absurd (omega arith)
nth-pad zero (a ∷ b ∷ l) h = refl
nth-pad (suc zero) (a ∷ b ∷ l) h = refl
nth-pad (suc (suc i)) (a ∷ b ∷ l) h = nth-pad i l (omega arith)

pub length-pad : (l : List Text) → length l ≤ length (pad l)
unfolding pad
length-pad [] = omega arith
length-pad (a ∷ []) = omega arith
length-pad (a ∷ b ∷ l) = omega (arith, length-pad l)

module _ (sha256 : Bytes → Bytes) where
  -- A row has at least half as many members as the row below it.
  pub length-combine_row :
      (l : List Text)
      → (length l ≤ 2 * length (combine_row sha256 (pad l)))
        × (2 * length (combine_row sha256 (pad l)) ≤ length l + 1)
  unfolding pad combine_row
  length-combine_row [] = (omega arith, omega arith)
  length-combine_row (a ∷ []) = (omega arith, omega arith)
  length-combine_row (a ∷ b ∷ l) =
      let (low, high) = length-combine_row l in (omega (arith, low), omega (arith, high))

  pub combine_row_even :
      (i : ℕ) (l : List Text)
      → i < length l
      → i % 2 ≡ 0
      → nth (i / 2) (combine_row sha256 (pad l))
        ≡ combine_pair sha256 (nth i (pad l)) (nth (i + 1) (pad l))
  unfolding nth pad combine_row
  combine_row_even i [] h e = absurd (omega arith)
  combine_row_even zero (a ∷ []) h e = refl
  combine_row_even (suc i) (a ∷ []) h e = absurd (omega arith)
  combine_row_even zero (a ∷ b ∷ l) h e = refl
  combine_row_even (suc zero) (a ∷ b ∷ l) h e = absurd (omega arith)
  combine_row_even (suc (suc i)) (a ∷ b ∷ l) h e =
      let half : suc (suc i) / 2 ≡ suc (i / 2) = omega arith in
      let next : suc (suc i) + 1 ≡ suc (suc (i + 1)) = omega arith in
      rw (half, next) (combine_row_even i l (omega arith) (omega arith))

  pub combine_row_odd :
      (i : ℕ) (l : List Text)
      → i < length l
      → i % 2 ≡ 1
      → nth (i / 2) (combine_row sha256 (pad l))
        ≡ combine_pair sha256 (nth (i - 1) (pad l)) (nth i (pad l))
  unfolding nth pad combine_row
  combine_row_odd i [] h e = absurd (omega arith)
  combine_row_odd zero l h e = absurd (omega arith)
  combine_row_odd (suc i) (a ∷ []) h e = absurd (omega arith)
  combine_row_odd (suc zero) (a ∷ b ∷ l) h e = refl
  combine_row_odd (suc (suc i)) (a ∷ b ∷ l) h e =
      let half : suc (suc i) / 2 ≡ suc (i / 2) = omega arith in
      let previous : suc (suc i) - 1 ≡ suc (suc (i - 1)) = omega arith in
      rw (half, previous) (combine_row_odd i l (omega arith) (omega arith))

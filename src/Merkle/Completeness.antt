-- ===== src/Merkle/Completeness.antt =====
-- The proofs of the leaves of a tree, under the check of proofs.
use junctiongenerator.Base.{
  ℕ, zero, suc, ◌+◌, ◌-◌, ◌/◌, ◌%◌, ◌≤◌, ◌<◌, ◌≡◌, refl, sym, ap, ◌∙◌, inl, inr, true, false, List,
  [], ◌∷◌, arith, ltb, leb, ◌==◌, ltb→lt, Bool-cases, if◌then◌else◌, length, ok,
}
use junctiongenerator.Base.Texts.{Bytes, Text, text_eq_iff}
use junctiongenerator.Merkle.{
  MerkleTree, MerkleProof, pad, nth, first_layer, path_siblings, path_sides, depth,
  get_merkle_proof, combine_pair, combine_row, build_rows, build_merkle_tree, get_merkle_root,
  verify_loop, verify_merkle_proof,
}
use junctiongenerator.Merkle.Rows.{
  pad-pad, nth-pad, length-pad, length-combine_row, combine_row_even, combine_row_odd,
}

module _ (sha256 : Bytes → Bytes) where
  -- A tree has a row.
  length-layers :
      (fuel : ℕ) (l : List Text)
      → length (build_rows sha256 fuel l).layers ≡ suc (depth (build_rows sha256 fuel l).layers)
  unfolding build_rows
  length-layers zero l = refl
  length-layers (suc fuel) l = elim (Bool-cases (ltb 1 (length l))) [
    | inl more ↦ rw more (omega arith)
    | inr done ↦ rw done refl
  ]

  -- The member of the row above that a member and its sibling make.
  parent :
      (i : ℕ) (l : List Text)
      → i < length l
      → (if i % 2 == 1
          then combine_pair sha256 (nth (if i % 2 == 1 then i - 1 else i + 1) (pad l)) (nth i l)
          else combine_pair sha256 (nth i l) (nth (if i % 2 == 1 then i - 1 else i + 1) (pad l)))
        ≡ nth (i / 2) (combine_row sha256 (pad l))
  parent i l h =
      let here = nth-pad i l h in
      elim (Bool-cases (i % 2 == 1)) [
        | inl odd ↦ rw odd (
            ap (combine_pair sha256 (nth (i - 1) (pad l))) (sym here)
            ∙ sym (combine_row_odd sha256 i l h (ground arith)))
        | inr even ↦ rw even (
            ap (λ t. combine_pair sha256 t (nth (i + 1) (pad l))) (sym here)
            ∙ sym (combine_row_even sha256 i l h (ground arith)))
      ]

  -- From a member of the first row, the path leads to the root.
  abbrev Climbs : MerkleTree → Text → ℕ → Type 0
  Climbs tree member i =
      verify_loop sha256 member (path_siblings (depth tree.layers) i tree.layers)
        (path_sides (depth tree.layers) i)
      ≡ tree.root

  abbrev under : List Text → MerkleTree → MerkleTree
  under l above = record { layers = pad l ∷ above.layers; root = above.root }

  Climbs-under :
      (l : List Text) (above : MerkleTree) (i : ℕ)
      → length above.layers ≡ suc (depth above.layers)
      → i < length l
      → Climbs above (nth (i / 2) (combine_row sha256 (pad l))) (i / 2)
      → Climbs (under l above) (nth i l) i
  unfolding verify_loop path_siblings path_sides
  Climbs-under l above i size h ih =
      let levels : depth (pad l ∷ above.layers) ≡ suc (depth above.layers) = omega (arith, size) in
      rw (levels, pad-pad l)
        (ap
            (λ t.
              verify_loop sha256 t (path_siblings (depth above.layers) (i / 2) above.layers)
                (path_sides (depth above.layers) (i / 2)))
            (parent i l h)
          ∙ ih)

  build_rows-Climbs :
      (fuel : ℕ) (l : List Text) (i : ℕ)
      → length l ≤ suc fuel
      → i < length l
      → Climbs (build_rows sha256 fuel l) (nth i l) i
  unfolding build_rows verify_loop path_siblings path_sides
  build_rows-Climbs zero l i fits h = let first : i ≡ 0 = omega arith in ap (λ j. nth j l) first
  build_rows-Climbs (suc fuel) l i fits h = elim (Bool-cases (ltb 1 (length l))) [
    | inl more ↦
        let row = combine_row sha256 (pad l) in
        let (low, high) = length-combine_row sha256 l in
        let several : 1 < length l = ltb→lt 1 (length l) more in
        let ih = build_rows-Climbs fuel row (i / 2) (omega arith) (omega arith) in
        rw more (Climbs-under l (build_rows sha256 fuel row) i (length-layers fuel row) h ih)
    | inr done ↦ let first : i ≡ 0 = ground arith in rw done (ap (λ j. nth j l) first)
  ]

  build_rows-first :
      (fuel : ℕ) (l : List Text) (i : ℕ)
      → i < length l
      → (nth i (first_layer (build_rows sha256 fuel l).layers) ≡ nth i l)
        × (i < length (first_layer (build_rows sha256 fuel l).layers))
  unfolding build_rows
  build_rows-first zero l i h = (refl, h)
  build_rows-first (suc fuel) l i h = elim (Bool-cases (ltb 1 (length l))) [
    | inl more ↦ rw more (nth-pad i l h, omega (arith, length-pad l))
    | inr done ↦ rw done (refl, h)
  ]

  -- Every leaf of a tree has a proof, and the proof is one of that leaf and of the tree's root, and is
  -- accepted.
  pub verify-get_merkle_proof :
      (leaves : List Text) (i : ℕ)
      → i < length leaves
      → (proof : MerkleProof) × (get_merkle_proof (build_merkle_tree sha256 leaves) i ≡ ok proof)
        × (proof.leaf_index ≡ i)
        × (proof.leaf_hash ≡ nth i leaves)
        × (proof.root ≡ get_merkle_root sha256 leaves)
        × (verify_merkle_proof sha256 proof ≡ true)
  unfolding get_merkle_proof build_merkle_tree get_merkle_root verify_merkle_proof
  verify-get_merkle_proof [] i h = absurd (omega arith)
  verify-get_merkle_proof (leaf ∷ leaves) i h =
      let l = leaf ∷ leaves in
      let tree = build_rows sha256 (length leaves) l in
      let (member, within) = build_rows-first (length leaves) l i h in
      let known : leb (length (first_layer tree.layers)) i ≡ false = ground arith in
      let up = build_rows-Climbs (length leaves) l i (omega arith) h in
      (
        _,
        rw known refl,
        refl,
        member,
        refl,
        (text_eq_iff _ tree.root).1 (
            ap
              (λ t.
                verify_loop sha256 t (path_siblings (depth tree.layers) i tree.layers)
                  (path_sides (depth tree.layers) i))
              member
            ∙ up),
      )

-- ===== src/Merkle.antt =====
-- packages/jgc-node/src/crypto/merkle.ts: Merkle trees and inclusion proofs. SHA-256 is a parameter.
pub mod Rows
pub mod Completeness
pub mod Soundness
mod Examples
use junctiongenerator.Base.{
  ℕ, zero, suc, ◌+◌, ◌-◌, ◌/◌, ◌%◌, Bool, true, false, List, [], ◌∷◌, ◌++◌, ltb, leb, ◌==◌,
  if◌then◌else◌, length, Result, ok, err, ◌>>=◌, ◌>>◌, throw_if,
}
use junctiongenerator.Base.Texts.{Bytes, Text, text_eq}
use junctiongenerator.Base.Hex.{from_hex, to_hex}

-- Jagged rows: the leaves first, the root last.
pub record MerkleTree : Type 0 where
  pub layers : List (List Text)
  pub root : Text

pub record MerkleProof : Type 0 where
  pub leaf_index : ℕ
  pub leaf_hash : Text
  pub siblings : List Text
  pub sibling_on_left : List Bool
  pub root : Text

pub data MerkleError : Type 0 where
  leaf_out_of_range : MerkleError

-- A row of odd length with its last member duplicated.
unfoldable pub pad : List Text → List Text
pad [] = []
pad (a ∷ []) = a ∷ a ∷ []
pad (a ∷ b ∷ l) = a ∷ b ∷ pad l

-- `row[i]!`: out of range it is undefined, which stands as the empty text and does not occur.
unfoldable pub nth : ℕ → List Text → Text
nth i [] = []
nth zero (a ∷ l) = a
nth (suc i) (a ∷ l) = nth i l

abbrev pub first_layer : List (List Text) → List Text
first_layer [] = []
first_layer (l ∷ ls) = l

abbrev pub zero_root : ℕ → Text
zero_root zero = []
zero_root (suc n) = b'0' ∷ zero_root n

-- The `for` over the levels below the root: the siblings, from the leaf up.
unfoldable pub path_siblings : ℕ → ℕ → List (List Text) → List Text
path_siblings zero i layers = []
path_siblings (suc n) i [] = []
path_siblings (suc n) i (layer ∷ layers) =
    nth (if i % 2 == 1 then i - 1 else i + 1) (pad layer) ∷ path_siblings n (i / 2) layers

-- The same loop: whether the sibling is on the left.
unfoldable pub path_sides : ℕ → ℕ → List Bool
path_sides zero i = []
path_sides (suc n) i = (i % 2 == 1) ∷ path_sides n (i / 2)

-- The levels below the root.
abbrev pub depth : List (List Text) → ℕ
depth layers = length layers - 1

unfoldable pub get_merkle_proof : MerkleTree → ℕ → Result MerkleError MerkleProof
get_merkle_proof tree i = do
  throw_if (leb (length (first_layer tree.layers)) i) leaf_out_of_range
  ok (record {
    leaf_index = i;
    leaf_hash = nth i (first_layer tree.layers);
    siblings = path_siblings (depth tree.layers) i tree.layers;
    sibling_on_left = path_sides (depth tree.layers) i;
    root = tree.root;
  })

module _ (sha256 : Bytes → Bytes) where
  unfoldable pub sha256d : Bytes → Bytes
  sha256d bytes = sha256 (sha256 bytes)

  unfoldable pub combine_pair : Text → Text → Text
  combine_pair left right = to_hex (sha256d (from_hex left ++ from_hex right))

  -- The `for` over the pairs of a row of even length.
  unfoldable pub combine_row : List Text → List Text
  combine_row (a ∷ b ∷ l) = combine_pair a b ∷ combine_row l
  combine_row _ = []

  -- The `while`, on fuel. A row stands in the tree as it is after the padding.
  unfoldable pub build_rows : ℕ → List Text → MerkleTree
  build_rows zero current = record { layers = current ∷ []; root = nth 0 current }
  build_rows (suc fuel) current =
      let above = build_rows fuel (combine_row (pad current)) in
      if ltb 1 (length current)
      then record { layers = pad current ∷ above.layers; root = above.root }
      else record { layers = current ∷ []; root = nth 0 current }

  unfoldable pub build_merkle_tree : List Text → MerkleTree
  build_merkle_tree [] = record { layers = [] ∷ []; root = zero_root 64 }
  build_merkle_tree (leaf ∷ leaves) = build_rows (length leaves) (leaf ∷ leaves)

  unfoldable pub get_merkle_root : List Text → Text
  get_merkle_root leaves = (build_merkle_tree leaves).root

  -- The `for` of `verifyMerkleProof`; a side that is missing counts as the right one.
  unfoldable pub verify_loop : Text → List Text → List Bool → Text
  verify_loop computed [] sides = computed
  verify_loop computed (s ∷ ss) [] = verify_loop (combine_pair computed s) ss []
  verify_loop computed (s ∷ ss) (left ∷ sides) =
      verify_loop (if left then combine_pair s computed else combine_pair computed s) ss sides

  unfoldable pub verify_merkle_proof : MerkleProof → Bool
  verify_merkle_proof proof =
      text_eq (verify_loop proof.leaf_hash proof.siblings proof.sibling_on_left) proof.root

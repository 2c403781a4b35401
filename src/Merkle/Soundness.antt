-- ===== src/Merkle/Soundness.antt =====
-- Two accepted proofs at one place under one root, and what their checks hash.
use mathlib.Core.List.{head-eq_of_cons-eq, tail-eq_of_cons-eq}
use junctiongenerator.Base.{
  ◌≡◌, ◌≢◌, ◌⊎◌, length-append, inl, inr, refl, sym, ap, ap₂, ◌∙◌, Bool, true, false, List, [], ◌∷◌,
  ◌++◌, arith, Bool-cases, if◌then◌else◌, length, subst,
}
use junctiongenerator.Base.Texts.{Bytes, Text, text_eq, text_eq_iff}
use junctiongenerator.Base.Hex.{from_hex, to_hex, AllBytes, from_hex-to_hex}
use junctiongenerator.Transactions.Fields.{IsHex}
use junctiongenerator.Headers.{is_canonical_hash}
use junctiongenerator.Headers.Hashes.{canonical_hash}
use junctiongenerator.Merkle.{MerkleProof, sha256d, combine_pair, verify_loop, verify_merkle_proof}

-- The bytes that a level of the check hashes: of the sibling and of the hash so far, by the side of the sibling.
abbrev pub preimage : Bool → Text → Text → Bytes
preimage true sibling computed = from_hex sibling ++ from_hex computed
preimage false sibling computed = from_hex computed ++ from_hex sibling

bytes_cases : (a b : Bytes) → (a ≡ b) ⊎ (a ≢ b)
bytes_cases a b = elim (Bool-cases (text_eq a b)) [
  | inl same ↦ inl ((text_eq_iff a b).0 same)
  | inr differ ↦ inr (λ e. let same : text_eq a b ≡ true = (text_eq_iff a b).1 e in cc)
]

append-injective : (a b c d : Bytes) → length a ≡ length b → a ++ c ≡ b ++ d → (a ≡ b) × (c ≡ d)
append-injective [] [] c d n h = (refl, h)
append-injective [] (y ∷ b) c d n h = absurd (omega arith)
append-injective (x ∷ a) [] c d n h = absurd (omega arith)
append-injective (x ∷ a) (y ∷ b) c d n h =
    let (same, rest) = append-injective a b c d (omega arith) (tail-eq_of_cons-eq h) in
    (ap₂ ◌∷◌ (head-eq_of_cons-eq h) same, rest)

-- The text of 32 bytes.
abbrev IsDigest : Text → Type 0
IsDigest t = IsHex t × (length (from_hex t) ≡ 32)

IsDigest-injective : (c d : Text) → IsDigest c → IsDigest d → from_hex c ≡ from_hex d → c ≡ d
IsDigest-injective c d (hex_c, size_c) (hex_d, size_d) h = sym hex_c ∙ ap to_hex h ∙ hex_d

preimage-injective :
    (left : Bool) (s t c d : Text)
    → IsDigest c
    → IsDigest d
    → preimage left s c ≡ preimage left t d
    → c ≡ d
preimage-injective true s t c d dc dd h =
    let size : length (from_hex s) ≡ length (from_hex t) = omega (
      arith,
      dc.1,
      dd.1,
      ap length h,
      length-append (from_hex s) (from_hex c),
      length-append (from_hex t) (from_hex d),
    ) in
    IsDigest-injective c d dc dd (append-injective (from_hex s) (from_hex t) _ _ size h).1
preimage-injective false s t c d dc dd h =
    IsDigest-injective c d dc dd
      (append-injective (from_hex c) (from_hex d) _ _ (omega (arith, dc.1, dd.1)) h).0

module _ (sha256 : Bytes → Bytes) where
  -- At one level the two checks hash bytes that differ, and the double hashes are equal.
  abbrev pub Collide : Text → Text → List Text → List Text → List Bool → Type 0
  Collide c d (s ∷ ss) (t ∷ ts) [] =
      ((preimage false s c ≢ preimage false t d)
        × (sha256d sha256 (preimage false s c) ≡ sha256d sha256 (preimage false t d)))
      ⊎ Collide (combine_pair sha256 c s) (combine_pair sha256 d t) ss ts []
  Collide c d (s ∷ ss) (t ∷ ts) (left ∷ sides) =
      ((preimage left s c ≢ preimage left t d)
        × (sha256d sha256 (preimage left s c) ≡ sha256d sha256 (preimage left t d)))
      ⊎ Collide (if left then combine_pair sha256 s c else combine_pair sha256 c s)
          (if left then combine_pair sha256 t d else combine_pair sha256 d t) ss ts sides
  Collide c d _ _ sides = ⊥

  combined :
      (left : Bool) (s c : Text)
      → (if left then combine_pair sha256 s c else combine_pair sha256 c s)
        ≡ to_hex (sha256d sha256 (preimage left s c))
  unfolding combine_pair
  combined true s c = refl
  combined false s c = refl

  module _ (digest : (bs : Bytes) → (length (sha256 bs) ≡ 32) × AllBytes (sha256 bs)) where
    to_hex-IsDigest : (bs : Bytes) → IsDigest (to_hex (sha256d sha256 bs))
    unfolding sha256d
    to_hex-IsDigest bs =
        let (size, bytes) = digest (sha256 bs) in
        let back = from_hex-to_hex (sha256 (sha256 bs)) bytes in
        (ap to_hex back, ap length back ∙ size)

    sha256d-back : (bs : Bytes) → from_hex (to_hex (sha256d sha256 bs)) ≡ sha256d sha256 bs
    unfolding sha256d
    sha256d-back bs = from_hex-to_hex (sha256 (sha256 bs)) (digest (sha256 bs)).1

    -- One level: equal hashes are of equal texts below it, or of bytes that differ.
    level :
        (left : Bool) (s t c d : Text)
        → IsDigest c
        → IsDigest d
        → to_hex (sha256d sha256 (preimage left s c)) ≡ to_hex (sha256d sha256 (preimage left t d))
        → (c ≡ d)
          ⊎ ((preimage left s c ≢ preimage left t d)
              × (sha256d sha256 (preimage left s c) ≡ sha256d sha256 (preimage left t d)))
    level left s t c d dc dd h =
        let a = preimage left s c in
        let b = preimage left t d in
        elim (bytes_cases a b) [
          | inl same ↦ inl (preimage-injective left s t c d dc dd same)
          | inr differ ↦ inr (differ, sym (sha256d-back a) ∙ ap from_hex h ∙ sha256d-back b)
        ]

    combined-IsDigest :
        (left : Bool) (s c : Text)
        → IsDigest (if left then combine_pair sha256 s c else combine_pair sha256 c s)
    combined-IsDigest left s c =
        subst IsDigest (sym (combined left s c)) (to_hex-IsDigest (preimage left s c))

    verify_loop-injective :
        (c d : Text) (ss ts : List Text) (sides : List Bool)
        → IsDigest c
        → IsDigest d
        → length ss ≡ length ts
        → verify_loop sha256 c ss sides ≡ verify_loop sha256 d ts sides
        → (c ≡ d) ⊎ Collide c d ss ts sides
    unfolding verify_loop
    verify_loop-injective c d [] [] sides dc dd n h = inl h
    verify_loop-injective c d [] (t ∷ ts) sides dc dd n h = absurd (omega arith)
    verify_loop-injective c d (s ∷ ss) [] sides dc dd n h = absurd (omega arith)
    verify_loop-injective c d (s ∷ ss) (t ∷ ts) [] dc dd n h =
        elim (verify_loop-injective (combine_pair sha256 c s) (combine_pair sha256 d t) ss ts []
          (combined-IsDigest false s c) (combined-IsDigest false t d) (omega arith) h) [
            | inr above ↦ inr (inr above)
            | inl same ↦
                elim (level false s t c d dc dd
                  (sym (combined false s c) ∙ same ∙ combined false t d)) [
                    | inl below ↦ inl below
                    | inr here ↦ inr (inl here)
                  ]
          ]
    verify_loop-injective c d (s ∷ ss) (t ∷ ts) (left ∷ sides) dc dd n h =
        elim (verify_loop-injective
          (if left then combine_pair sha256 s c else combine_pair sha256 c s)
          (if left then combine_pair sha256 t d else combine_pair sha256 d t) ss ts sides
          (combined-IsDigest left s c) (combined-IsDigest left t d) (omega arith) h) [
            | inr above ↦ inr (inr above)
            | inl same ↦
                elim (level left s t c d dc dd
                  (sym (combined left s c) ∙ same ∙ combined left t d)) [
                    | inl below ↦ inl below
                    | inr here ↦ inr (inl here)
                  ]
          ]

    -- For SHA-256 with digests of 32 bytes: two accepted proofs with one root, the same sides and as many
    -- siblings, of leaves that are hashes of 64 lower-case digits, are of one leaf, or at one level their
    -- checks hash bytes that differ to one double hash.
    pub verify_merkle_proof_sound :
        (p q : MerkleProof)
        → is_canonical_hash p.leaf_hash ≡ true
        → is_canonical_hash q.leaf_hash ≡ true
        → verify_merkle_proof sha256 p ≡ true
        → verify_merkle_proof sha256 q ≡ true
        → p.root ≡ q.root
        → p.sibling_on_left ≡ q.sibling_on_left
        → length p.siblings ≡ length q.siblings
        → (p.leaf_hash ≡ q.leaf_hash)
          ⊎ Collide p.leaf_hash q.leaf_hash p.siblings q.siblings p.sibling_on_left
    unfolding verify_merkle_proof
    verify_merkle_proof_sound p q hash_p hash_q accept_p accept_q root sides size =
        let computed_p = (text_eq_iff _ _).0 accept_p in
        let computed_q = (text_eq_iff _ _).0 accept_q in
        verify_loop-injective p.leaf_hash q.leaf_hash p.siblings q.siblings p.sibling_on_left
          (canonical_hash p.leaf_hash hash_p) (canonical_hash q.leaf_hash hash_q) size
          (computed_p
            ∙ root
            ∙ sym computed_q
            ∙ ap (verify_loop sha256 q.leaf_hash q.siblings) (sym sides))

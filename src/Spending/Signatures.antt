-- ===== src/Spending/Signatures.antt =====
-- packages/jgc-node/src/crypto/pq-signatures.ts: whether a signature unlocks a script. ML-DSA-65, its
-- sizes and SHA3-256 are parameters.
use junctiongenerator.Base.{
  ℕ, zero, suc, ◌*◌, Bool, false, ◌&&◌, ◌||◌, not, Option, none, some, List, [], ◌∷◌, ◌++◌, ◌==◌,
  if◌then◌else◌, length, Result, ok, err, ◌>>◌, throw_if,
}
use junctiongenerator.Base.Texts.{Bytes, Text, text_eq}
use junctiongenerator.Base.Hex.{between, all_hex, from_hex, to_hex}
use junctiongenerator.Proposer.{to_lower_case}
use junctiongenerator.Spending.Bonds.{take, drop}

-- What the ML-DSA-65 library and the hash give.
pub record PqLibrary : Type 0 where
  pub sha3_256 : Bytes → Bytes
  pub public_key_size : ℕ
  pub signature_size : ℕ
  -- `ml_dsa65.verify(signature, message, publicKey)`; one that throws counts as false.
  pub verify : Bytes → Bytes → Bytes → Bool

pub data SpendError : Type 0 where
  not_a_pq_script bad_script_sig malformed_public_key malformed_signature : SpendError
  wrong_public_key invalid_signature : SpendError

-- /^5114([0-9a-fA-F]{40})63ac$/, with its group in lower case.
unfoldable pub pq_hash_from_script_pub_key : Text → Option Text
pq_hash_from_script_pub_key script =
    let hash = take 40 (drop 4 script) in
    if text_eq (take 4 script) (b'5' ∷ b'1' ∷ b'1' ∷ b'4' ∷ [])
      && (length hash == 40
          && (all_hex hash && text_eq (drop 44 script) (b'6' ∷ b'3' ∷ b'a' ∷ b'c' ∷ [])))
    then some (to_lower_case hash)
    else none

abbrev starts_with : Bytes → Text → Bool
starts_with p text = text_eq (take (length p) text) p

-- The white space (`\s`) of more than one byte: U+1680, U+2000 to U+200A, U+2028, U+2029, U+202F, U+205F,
-- U+3000 and U+FEFF.
abbrev is_wide_space : Text → Bool
is_wide_space (a ∷ b ∷ c ∷ _) =
    (a == 0xe1 && (b == 0x9a && c == 0x80))
    || ((a == 0xe2 && (b == 0x80 && (between 0x80 0x8a c || (between 0xa8 0xa9 c || c == 0xaf))))
        || ((a == 0xe2 && (b == 0x81 && c == 0x9f))
            || ((a == 0xe3 && (b == 0x80 && c == 0x80))
                || (a == 0xef && (b == 0xbb && c == 0xbf)))))
is_wide_space _ = false

abbrev is_space : ℕ → Bool
is_space c = between 9 13 c || c == 32

abbrev first_width : Text → ℕ
first_width [] = 0
first_width (c ∷ cs) = if is_space c then 1 else 0

-- The bytes of the white space that a text begins with: none, or those of one character.
unfoldable pub space_width : Text → ℕ
space_width text =
    if is_wide_space text
    then 3
    else if starts_with (0xc2 ∷ 0xa0 ∷ []) text
    then 2
    else first_width text

abbrev add_word : Text → List Text → List Text
add_word [] words = words
add_word word words = word ∷ words

-- `scriptSig.trim().split(/\s+/)`, on the bytes still to skip and the word so far. Of a blank text it is
-- empty here and one empty word there: either is not two words.
unfoldable pub split_words : ℕ → Text → Text → List Text
split_words skip word [] = add_word word []
split_words (suc skip) word (c ∷ cs) = split_words skip word cs
split_words zero word (c ∷ cs) = elim (space_width (c ∷ cs)) [
  | zero ↦ split_words zero (word ++ (c ∷ [])) cs
  | suc n ↦ add_word word (split_words n [] cs)
]

module _ (lib : PqLibrary) where
  unfoldable pub pq_is_valid_public_key : Text → Bool
  pq_is_valid_public_key key = all_hex key && length key == lib.public_key_size * 2

  unfoldable pub pq_is_valid_signature : Text → Bool
  pq_is_valid_signature sig =
      not (length sig == 0) && (all_hex sig && length (from_hex sig) == lib.signature_size)

  unfoldable pub pq_hash_public_key : Text → Text
  pq_hash_public_key key = to_hex (take 20 (lib.sha3_256 (from_hex key)))

  unfoldable pub pq_verify_hash_signature : Text → Bytes → Text → Bool
  pq_verify_hash_signature sig hash key =
      pq_is_valid_signature sig
      && (pq_is_valid_public_key key && lib.verify (from_hex sig) hash (from_hex key))

  -- Once the key hash of the script and the words of `scriptSig` are known.
  unfoldable pub verify_parts : Text → List Text → Bytes → Result SpendError (Unit {0})
  verify_parts key_hash (sig ∷ key ∷ []) sighash = do
    throw_if (not (pq_is_valid_public_key key)) malformed_public_key
    throw_if (not (pq_is_valid_signature sig)) malformed_signature
    throw_if (not (text_eq (pq_hash_public_key key) key_hash)) wrong_public_key
    throw_if (not (pq_verify_hash_signature sig sighash key)) invalid_signature
    ok tt
  verify_parts key_hash _ sighash = err bad_script_sig

  unfoldable pub pq_verify_spend : Text → Text → Bytes → Result SpendError (Unit {0})
  pq_verify_spend script_sig script_pub_key sighash =
      elim (pq_hash_from_script_pub_key script_pub_key) [
        | none ↦ err not_a_pq_script
        | some key_hash ↦ verify_parts key_hash (split_words 0 [] script_sig) sighash
      ]

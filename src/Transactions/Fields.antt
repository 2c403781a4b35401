-- ===== src/Transactions/Fields.antt =====
-- The readers of the fields, on what the writers wrote.
use mathlib.Core.List.{append_assoc}
use native.Mathlib.Nat.{pow-suc}
use junctiongenerator.Base.{
  Bool-cases, leb→le, inl, inr, ℕ, zero, suc, ◌+◌, ◌*◌, ◌/◌, ◌%◌, ◌^◌, ◌<◌, ◌≡◌, refl, sym, ap,
  subst, ◌∙◌, [], ◌∷◌, ◌++◌, arith, ltb, leb, length, ok, ◌>>=◌, ok-bind,
}
use junctiongenerator.Base.Int.{pos}
use junctiongenerator.Base.Texts.{Bytes, Text}
use junctiongenerator.Base.Hex.{to_hex, from_hex}
use junctiongenerator.Types.{TxInput}
use junctiongenerator.Transactions.{le_bytes, u32le, encode_var_int, len_hex, write_input}
use junctiongenerator.Transactions.Reading.{
  Reader, take_bytes, from_le, read_le, read_u32, read_var_int, read_u128, read_hex, read_script,
  read_input,
}

-- The reader takes exactly these bytes, whatever follows them.
abbrev pub Reads : {A : Type 0} → Reader A → Bytes → A → Type 0
Reads r bytes a = (rest : Bytes) → r (bytes ++ rest) ≡ ok (a, rest)

-- One reader after another.
abbrev pub read_then : {A B : Type 0} → Reader A → (A → Reader B) → Reader B
read_then r k buf = r buf >>= λ p. k p.0 p.1

pub read_then-Reads :
    {A B : Type 0} (r : Reader A) (k : A → Reader B) (a : A) (b : B) (xs ys : Bytes)
    → Reads r xs a
    → Reads (k a) ys b
    → Reads (read_then r k) (xs ++ ys) b
read_then-Reads r k a b xs ys h g rest =
    subst (λ buf. read_then r k buf ≡ ok (b, rest)) (sym (append_assoc xs ys rest))
      (ok-bind (λ p. k p.0 p.1) (h (ys ++ rest)) ∙ g rest)

pub read_map-Reads :
    {A B : Type 0} (r : Reader A) (f : A → B) (a : A) (xs : Bytes)
    → Reads r xs a
    → Reads (read_then r (λ x buf. ok (f x, buf))) xs (f a)
read_map-Reads r f a xs h rest = ok-bind (λ p. ok (f p.0, p.1)) (h rest)

pub take_bytes-Reads : (bs : Bytes) → Reads (take_bytes (length bs)) bs bs
unfolding take_bytes
take_bytes-Reads [] rest = refl
take_bytes-Reads (b ∷ bs) rest = ok-bind _ (take_bytes-Reads bs rest)

pub length-le_bytes : (width n : ℕ) → length (le_bytes width n) ≡ width
unfolding le_bytes
length-le_bytes zero n = refl
length-le_bytes (suc width) n = ap suc (length-le_bytes width (n / 256))

from_le-le_bytes : (width n : ℕ) → n < 256 ^ width → from_le (le_bytes width n) ≡ n
unfolding from_le le_bytes
from_le-le_bytes zero n h = omega arith
from_le-le_bytes (suc width) n h =
    let rest = from_le-le_bytes width (n / 256) (omega (arith, pow-suc 256 width)) in
    omega (arith, rest)

pub read_le-Reads : (width n : ℕ) → n < 256 ^ width → Reads (read_le width) (le_bytes width n) n
unfolding read_le
read_le-Reads width n h rest =
    let taken =
      subst (λ w. Reads (take_bytes w) (le_bytes width n) (le_bytes width n))
        (length-le_bytes width n) (take_bytes-Reads (le_bytes width n)) in
    ok-bind _ (taken rest) ∙ ap (λ m. ok (m, rest)) (from_le-le_bytes width n h)

pub read_u32-Reads : (n : ℕ) → n < 2 ^ 32 → Reads read_u32 (u32le n) n
unfolding read_u32 u32le
read_u32-Reads n h =
    let same : n % 2 ^ 32 ≡ n = omega arith in
    subst (λ m. Reads (read_le 4) (le_bytes 4 m) n) (sym same) (read_le-Reads 4 n (omega arith))

pub read_var_int-Reads : (n : ℕ) → n < 2 ^ 64 → Reads read_var_int (encode_var_int n) n
unfolding read_var_int encode_var_int
read_var_int-Reads n h rest = elim (Bool-cases (ltb n 0xfd)) [
  | inl one ↦ rw (one, one)
  | inr more ↦ elim (Bool-cases (leb n 0xffff)) [
    | inl two ↦ rw (more, two) (read_le-Reads 2 n (omega (arith, leb→le n 0xffff two)) rest)
    | inr more' ↦ elim (Bool-cases (leb n 0xffff_ffff)) [
      | inl four ↦
          rw (more, more', four) (read_le-Reads 4 n (omega (arith, leb→le n 0xffff_ffff four)) rest)
      | inr eight ↦ rw (more, more', eight) (read_le-Reads 8 n (omega arith) rest)
    ]
  ]
]

-- The text is lower-case hexadecimal digits, an even number of them.
abbrev pub IsHex : Text → Type 0
IsHex t = to_hex (from_hex t) ≡ t

-- The lower-case text of the bytes that a text decodes to: itself, where it is such a text, and else what
-- stands before the first pair that is none.
abbrev pub recoded_hex : Text → Text
recoded_hex t = to_hex (from_hex t)

recoded_hex-Reads : (t : Text) → Reads (read_hex (length (from_hex t))) (from_hex t) (recoded_hex t)
unfolding read_hex
recoded_hex-Reads t rest = ok-bind _ (take_bytes-Reads (from_hex t) rest)

pub read_hex-Reads : (t : Text) → IsHex t → Reads (read_hex (length (from_hex t))) (from_hex t) t
read_hex-Reads t h =
    subst (Reads (read_hex (length (from_hex t))) (from_hex t)) h (recoded_hex-Reads t)

pub read_script-Reads :
    (t : Text) → length (from_hex t) < 2 ^ 64 → Reads read_script (len_hex t) (recoded_hex t)
unfolding read_script len_hex
read_script-Reads t fits =
    read_then-Reads read_var_int read_hex (length (from_hex t)) (recoded_hex t) _ _
      (read_var_int-Reads (length (from_hex t)) fits) (recoded_hex-Reads t)

pub read_u128-Reads :
    (v : ℕ)
    → v < 2 ^ 128
    → Reads read_u128 (le_bytes 8 (v % 2 ^ 64) ++ le_bytes 8 (v / 2 ^ 64)) (pos v)
unfolding read_u128
read_u128-Reads v h =
    let whole : v / 2 ^ 64 * 2 ^ 64 + v % 2 ^ 64 ≡ v = omega arith in
    let low = v % 2 ^ 64 in
    subst (Reads read_u128 (le_bytes 8 low ++ le_bytes 8 (v / 2 ^ 64))) (ap pos whole) (
      read_then-Reads (read_le 8) _ low _ _ _ (read_le-Reads 8 low (omega arith)) (
        read_map-Reads (read_le 8) (λ hi. pos (hi * 2 ^ 64 + low)) (v / 2 ^ 64) _
          (read_le-Reads 8 (v / 2 ^ 64) (omega arith))))

-- The inputs that the format can hold.
pub record IsInput (inp : TxInput) : Type 0 where
  pub txid_size : length (from_hex inp.prev_out.txid) ≡ 32
  pub vout : inp.prev_out.vout < 2 ^ 32
  pub script_size : length (from_hex inp.script_sig) < 2 ^ 64
  pub sequence : inp.sequence < 2 ^ 32

abbrev pub recoded_input : TxInput → TxInput
recoded_input inp = record {
  prev_out = record { txid = recoded_hex inp.prev_out.txid; vout = inp.prev_out.vout };
  script_sig = recoded_hex inp.script_sig;
  sequence = inp.sequence;
}

pub read_input-Reads :
    (inp : TxInput) → IsInput inp → Reads read_input (write_input inp) (recoded_input inp)
unfolding read_input write_input
read_input-Reads inp h =
    let out = recoded_input inp in
    read_then-Reads (read_hex 32) _ out.prev_out.txid out _ _
      (subst (λ n. Reads (read_hex n) (from_hex inp.prev_out.txid) out.prev_out.txid) h.txid_size
        (recoded_hex-Reads inp.prev_out.txid))
      (read_then-Reads read_u32 _ inp.prev_out.vout out _ _
        (read_u32-Reads inp.prev_out.vout h.vout)
        (read_then-Reads read_script _ out.script_sig out _ _
          (read_script-Reads inp.script_sig h.script_size)
          (read_map-Reads read_u32
            (λ sequence. record {
              prev_out = out.prev_out;
              script_sig = out.script_sig;
              sequence = sequence;
            })
            inp.sequence _ (read_u32-Reads inp.sequence h.sequence))))

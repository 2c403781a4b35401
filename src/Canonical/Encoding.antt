-- ===== src/Canonical/Encoding.antt =====
-- What the writer's methods append.
use junctiongenerator.Base.{
  ℕ, zero, suc, ◌-◌, ◌/◌, ◌%◌, ◌^◌, ◌≤◌, ◌<◌, ◌≡◌, refl, ap, false, ◌++◌, arith, ltb, ok, length,
}
use mathlib.Core.List.{append_assoc}
use junctiongenerator.Base.Int.{pos}
use junctiongenerator.Base.Texts.{Bytes, Text}
use junctiongenerator.Canonical.{
  max_safe_integer, be_bytes, Write, u32, u64, u128, write_string, ◌then_write◌,
}

pub length-be_bytes : (width n : ℕ) → length (be_bytes width n) ≡ width
unfolding be_bytes
length-be_bytes zero n = refl
length-be_bytes (suc width) n = ap suc (length-be_bytes width n)

-- A method writes these bytes.
abbrev pub Writes : Write → Bytes → Type 0
Writes w bytes = (out : Bytes) → w out ≡ ok (out ++ bytes)

pub u32-Writes : (value : ℕ) → value < 2 ^ 32 → Writes (u32 value) (be_bytes 4 value)
unfolding u32
u32-Writes value h out = let fits : ltb 0xffff_ffff value ≡ false = ground arith in rw fits

pub u64-Writes : (value : ℕ) → value ≤ max_safe_integer → Writes (u64 value) (be_bytes 8 value)
unfolding u64
u64-Writes value h out =
    let safe : ltb max_safe_integer value ≡ false = ground arith in
    let fits : ltb 0xffff_ffff_ffff_ffff value ≡ false = ground arith in rw (safe, fits)

abbrev pub u128_bytes : ℕ → Bytes
u128_bytes value = be_bytes 8 (value / 2 ^ 64) ++ be_bytes 8 (value % 2 ^ 64)

pub u128-Writes : (value : ℕ) → value < 2 ^ 128 → Writes (u128 (pos value)) (u128_bytes value)
unfolding u128
u128-Writes value h out = let fits : ltb (2 ^ 128 - 1) value ≡ false = ground arith in rw fits

abbrev pub string_bytes : Text → Bytes
string_bytes s = be_bytes 4 (length s) ++ s

pub write_string-Writes : (s : Text) → length s < 2 ^ 32 → Writes (write_string s) (string_bytes s)
unfolding write_string
write_string-Writes s h out = rw (u32-Writes (length s) h out) (ap ok (append_assoc out _ s))

pub then_write-Writes :
    (v w : Write) (a b : Bytes) → Writes v a → Writes w b → Writes (v then_write w) (a ++ b)
then_write-Writes v w a b hv hw out = rw (hv out, hw (out ++ a)) (ap ok (append_assoc out a b))

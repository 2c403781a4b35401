-- ===== src/Work.antt =====
-- packages/jgc-node/src/broker/assigned-work.ts: assigned vector jobs, their leases and their funding
-- in rehearsal credits. Here the state, the checks of an event's fields and the digests; Work/Steps has
-- the transitions, Work/Journal the journal. SHA-256, SHA3-256 and ML-DSA-65 are parameters.
pub mod Json
pub mod Steps
pub mod Journal
mod Examples
use junctiongenerator.Base.{
  ℕ, ◌+◌, ◌-◌, ◌*◌, Bool, true, false, not, ◌&&◌, ◌||◌, Option, none, some, List, [], ◌∷◌, ◌++◌,
  map, ltb, leb, ◌==◌, if◌then◌else◌, length, Result, ok, err, ◌>>=◌, ◌>>◌, throw_if,
}
use junctiongenerator.Base.Int.{ℤ, pos, negsuc, ◌+ℤ◌, ◌*ℤ◌}
use junctiongenerator.Base.Texts.{Bytes, Text, text_eq}
use junctiongenerator.Base.Hex.{between, from_hex, to_hex}
use junctiongenerator.Base.Maps.{TextMap, lookup, insert}
use junctiongenerator.Canonical.{Number, int, not_an_integer, max_safe_integer}
use junctiongenerator.Headers.{all_lower_hex}
use junctiongenerator.Spending.{decimal}
use junctiongenerator.Spending.Bonds.{take, drop}
use junctiongenerator.Spending.Signatures.{PqLibrary, pq_is_valid_public_key}
use junctiongenerator.Work.Json.{
  json_array, json_string, json_number, signed_decimal, hash, workkey_prefix, vector_program_text,
  vector_input_tag, assigned_result_tag, assigned_funding_tag, result_signature_tag,
}

abbrev pub max_terms : ℕ
max_terms = 4096

pub data ReservationStatus : Type 0 where
  reserved paid refunded : ReservationStatus

pub record Reservation : Type 0 where
  pub buyer : Text
  pub amount : Text
  pub expires_at : ℕ
  pub status : ReservationStatus

pub record Lease : Type 0 where
  pub lease_id : Text
  pub miner : Text
  pub started_at : ℕ
  pub deadline : ℕ

pub record WorkResult : Type 0 where
  pub output : Text
  pub commitment : Text

pub record WorkJob : Type 0 where
  pub job_id : Text
  pub network : Text
  pub epoch : ℕ
  pub program_digest : Text
  pub input_commitment : Text
  pub resource_units : ℕ
  pub left : List Number
  pub right : List Number
  pub lease : Option Lease
  pub result : Option WorkResult
  pub reservation : Option Reservation

pub record Funding : Type 0 where
  pub buyer : Text
  pub amount : Text
  pub expires_at : Number

-- Each has the `jobId` first. A missing `now` is no integer.
pub data WorkEvent : Type 0 where
  credit : Text → Text → Text → WorkEvent  -- buyer, amount
  create : Text → Text → Number → List Number → List Number → Option Funding → Number → WorkEvent
  refund : Text → Text → Number → WorkEvent  -- buyer, now
  lease : Text → Text → Text → Number → Number → WorkEvent  -- leaseId, miner, deadline, now
  -- leaseId, miner, output, commitment, now, publicKey, signature
  complete : Text → Text → Text → Text → Text → Number → Option Text → Option Text → WorkEvent

pub record WorkState : Type 0 where
  pub jobs : TextMap WorkJob
  pub balances : TextMap ℕ
  pub credits : List Text

pub data WorkError : Type 0 where
  invalid_identifier invalid_integer bounded_vectors expected_int32 no_lease : WorkError
  invalid_amount duplicate_credit wrong_network_or_duplicate expired_reservation : WorkError
  insufficient_credits unknown_or_completed reservation_refunded unauthorized_refund : WorkError
  lease_active lease_deadline funded_lease reused_lease expired_lease : WorkError
  incorrect_computation context_mismatch worker_key worker_signature : WorkError
  journal_capacity corrupt_journal journal_full : WorkError

-- [a-zA-Z0-9_.:-]
abbrev pub is_identifier_char : ℕ → Bool
is_identifier_char c =
    between b'a' b'z' c
    || (between b'A' b'Z' c
        || (between b'0' b'9' c || (c == b'_' || (c == b'.' || (c == b':' || c == b'-')))))

unfoldable pub all_identifier_chars : Text → Bool
all_identifier_chars [] = true
all_identifier_chars (c ∷ cs) = is_identifier_char c && all_identifier_chars cs

-- /^[a-zA-Z0-9_.:-]{1,128}$/
unfoldable pub is_identifier : Text → Bool
is_identifier t = leb 1 (length t) && (leb (length t) 128 && all_identifier_chars t)

abbrev pub identifier : Text → Result WorkError (Unit {0})
identifier t = throw_if (not (is_identifier t)) invalid_identifier

unfoldable pub integer : Number → Result WorkError ℕ
integer (int (pos n)) = do throw_if (ltb max_safe_integer n) invalid_integer; ok n
integer _ = err invalid_integer

unfoldable pub int32 : Number → Result WorkError ℤ
int32 (int (pos n)) = do throw_if (ltb 2147483647 n) expected_int32; ok (pos n)
int32 (int (negsuc n)) = do throw_if (leb 2147483648 n) expected_int32; ok (negsuc n)
int32 not_an_integer = err expected_int32

unfoldable pub int32s : List Number → Result WorkError (List ℤ)
int32s [] = ok []
int32s (n ∷ ns) = do z ← int32 n; zs ← int32s ns; ok (z ∷ zs)

-- `vectors`, with the integers that it has found.
unfoldable pub vectors : List Number → List Number → Result WorkError (List ℤ × List ℤ)
vectors left right = do
  throw_if (length left == 0 || (ltb max_terms (length left) || not (length left == length right)))
      bounded_vectors
  xs ← int32s left
  ys ← int32s right
  ok (xs, ys)

-- The `reduce` over the left vector; the right one is as long.
unfoldable pub dot : ℤ → List ℤ → List ℤ → ℤ
dot sum (x ∷ xs) (y ∷ ys) = dot (sum +ℤ x *ℤ y) xs ys
dot sum _ _ = sum

unfoldable pub execute_vector_dot : List Number → List Number → Result WorkError Text
execute_vector_dot left right = do
  parts ← vectors left right
  ok (signed_decimal (dot (pos 0) parts.0 parts.1))

abbrev pub all_digits : Text → Bool
all_digits [] = true
all_digits (c ∷ cs) = between b'0' b'9' c && all_digits cs

-- /^[1-9][0-9]{0,29}$/
unfoldable pub is_amount : Text → Bool
is_amount [] = false
is_amount (c ∷ cs) = between b'1' b'9' c && (leb (length cs) 29 && all_digits cs)

-- BigInt(value), on digits.
unfoldable pub digits_value : ℕ → Text → ℕ
digits_value n [] = n
digits_value n (c ∷ cs) = digits_value (n * 10 + (c - b'0')) cs

unfoldable pub amount : Text → Result WorkError ℕ
amount value = do throw_if (not (is_amount value)) invalid_amount; ok (digits_value 0 value)

-- `balances.get(account) ?? 0n`
abbrev pub or_zero : Option ℕ → ℕ
or_zero none = 0
or_zero (some n) = n

abbrev pub balance_of : Text → TextMap ℕ → ℕ
balance_of account balances = or_zero (lookup account balances)

-- /^workkey:[0-9a-f]{64}$/
unfoldable pub is_worker_key : Text → Bool
is_worker_key t =
    text_eq (take 8 t) workkey_prefix && (length (drop 8 t) == 64 && all_lower_hex (drop 8 t))

unfoldable pub work_miner_identity : PqLibrary → Text → Result WorkError Text
work_miner_identity lib key = do
  throw_if (not (pq_is_valid_public_key lib key)) worker_key
  ok (workkey_prefix ++ to_hex (lib.sha3_256 (from_hex key)))

abbrev pub vector_program : (Bytes → Bytes) → Text
vector_program sha256 = hash sha256 (json_string vector_program_text)

abbrev pub vector_input : (Bytes → Bytes) → List Number → List Number → Text
vector_input sha256 left right = hash sha256 (
    json_array (
      json_string vector_input_tag
      ∷ json_array (map json_number left)
      ∷ json_array (map json_number right)
      ∷ []))

abbrev funding_context : Option Reservation → List Text
funding_context none = []
funding_context (some r) =
    json_string assigned_funding_tag
    ∷ json_string r.buyer
    ∷ json_string r.amount
    ∷ decimal r.expires_at
    ∷ []

-- Once there is a lease.
abbrev result_context : WorkJob → Lease → Text → List Text
result_context job l output =
    (json_string assigned_result_tag
      ∷ json_string job.network
      ∷ decimal job.epoch
      ∷ json_string job.job_id
      ∷ json_string job.program_digest
      ∷ json_string job.input_commitment
      ∷ decimal job.resource_units
      ∷ json_string l.lease_id
      ∷ json_string l.miner
      ∷ decimal l.started_at
      ∷ decimal l.deadline
      ∷ json_string output
      ∷ [])
    ++ funding_context job.reservation

abbrev pub result_commitment : (Bytes → Bytes) → WorkJob → Lease → Text → Text
result_commitment sha256 job l output = hash sha256 (json_array (result_context job l output))

unfoldable pub work_result_commitment : (Bytes → Bytes) → WorkJob → Text → Result WorkError Text
work_result_commitment sha256 job output = elim job.lease [
  | none ↦ err no_lease
  | some l ↦ ok (result_commitment sha256 job l output)
]

-- `workResultSignatureHash`, once there is a lease.
abbrev pub signature_hash : (Bytes → Bytes) → PqLibrary → WorkJob → Lease → Text → Bytes
signature_hash sha256 lib job l output = lib.sha3_256 (
    json_array
      (json_string result_signature_tag ∷ json_string (result_commitment sha256 job l output) ∷ []))

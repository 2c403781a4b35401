-- ===== src/Work/Examples.antt =====
-- A funded job from its credit to its payment, and the theorems at it. SHA-256 is replaced by a constant,
-- and ML-DSA-65 by a scheme that accepts every signature.
use junctiongenerator.Base.{
  ℕ, zero, suc, ◌+◌, ◌≡◌, ◌≤◌, ◌<◌, refl, true, none, some, List, [], ◌∷◌, ◌++◌, arith, ok, err,
  length,
}
use junctiongenerator.Base.Int.{pos, negsuc, ◌+ℤ◌, ◌*ℤ◌}
use junctiongenerator.Base.Texts.{Bytes, Text, text_eq}
use junctiongenerator.Base.Hex.{to_hex, hex_digit}
use junctiongenerator.Base.Maps.{lookup, insert}
use junctiongenerator.Canonical.{Number, int}
use junctiongenerator.Base.Hex.{from_hex, hex_value}
use junctiongenerator.Spending.{decimal, decimal_loop}
use junctiongenerator.Spending.Bonds.{take, drop}
use junctiongenerator.Spending.Signatures.{
  PqLibrary, pq_is_valid_public_key, pq_is_valid_signature, pq_verify_hash_signature,
}
use junctiongenerator.Work.{
  reserved, paid, refunded, Reservation, WorkEvent, credit, create, refund, lease, complete,
  WorkJob, WorkState, Lease, is_identifier, all_identifier_chars, amount, is_amount, digits_value,
  vectors, int32, int32s, dot, execute_vector_dot, integer, is_worker_key, work_miner_identity,
  insufficient_credits, result_commitment, balance_of,
}
use junctiongenerator.Work.Json.{workkey_prefix}
use junctiongenerator.Work.Steps.{
  transition, dispatch, apply_credit, create_job, fund, lease_job, complete_job, find_job,
  check_worker, current_lease, verify_worker, set_status,
}
use junctiongenerator.Work.Steps.Credits.{worth}
use junctiongenerator.Work.Steps.Sound.{IsSoundState}
use junctiongenerator.Work.Steps.Lifecycle.{Move, phase, transition-Move}
use junctiongenerator.Work.Steps.Completion.{complete-IsCorrect, IsSigned}
use junctiongenerator.Work.Journal.{
  JournalEntry, Replayed, read, read_entries, read_entry, entry_checksum, append,
}
use junctiongenerator.Work.Journal.Replay.{issued_by, read_conserves, read-append}
use junctiongenerator.Work.Journal.Refunds.{refund_succeeds}

abbrev sha256 : Bytes → Bytes
sha256 bytes = 7 ∷ []

abbrev zeros : ℕ → List ℕ
zeros zero = []
zeros (suc n) = 0 ∷ zeros n

abbrev lib : PqLibrary
lib = record {
  sha3_256 = λ bytes. zeros 32;
  public_key_size = 1;
  signature_size = 1;
  verify = λ signature message key. true;
}

abbrev net : Text
net = b'n' ∷ []

abbrev buyer_b : Text
buyer_b = b'b' ∷ []

abbrev job_j : Text
job_j = b'j' ∷ []

abbrev lease_l : Text
lease_l = b'l' ∷ []

abbrev digest : Text
digest = b'0' ∷ b'7' ∷ []

abbrev worker : Text
worker = workkey_prefix ++ to_hex (zeros 32)

abbrev hundred : Text
hundred = b'1' ∷ b'0' ∷ b'0' ∷ []

abbrev sixty : Text
sixty = b'6' ∷ b'0' ∷ []

abbrev left_vector : List Number
left_vector = int (pos 2) ∷ int (negsuc 2) ∷ []

abbrev right_vector : List Number
right_vector = int (pos 4) ∷ int (pos 5) ∷ []

-- "-7"
abbrev product : Text
product = b'-' ∷ b'7' ∷ []

abbrev number : ℕ → Number
number n = int (pos n)

abbrev deposit : WorkEvent
deposit = credit (b'd' ∷ []) buyer_b hundred

abbrev order : WorkEvent
order =
    create job_j net (number 7) left_vector right_vector
      (some (record { buyer = buyer_b; amount = sixty; expires_at = number 200 })) (number 100)

abbrev start : WorkEvent
start = lease job_j lease_l worker (number 160) (number 110)

abbrev deliver : WorkEvent
deliver =
    complete job_j lease_l worker product digest (number 120) (some (b'0' ∷ b'0' ∷ []))
      (some (b'0' ∷ b'0' ∷ []))

abbrev entry : WorkEvent → JournalEntry
entry event = record { previous = digest; event = event; checksum = digest }

abbrev ordered : List JournalEntry
ordered = entry deposit ∷ entry order ∷ []

abbrev started : List JournalEntry
started = entry deposit ∷ entry order ∷ entry start ∷ []

abbrev reservation_r : Reservation
reservation_r = record { buyer = buyer_b; amount = sixty; expires_at = 200; status = reserved }

abbrev waiting_job : WorkJob
waiting_job = record {
  job_id = job_j;
  network = net;
  epoch = 7;
  program_digest = digest;
  input_commitment = digest;
  resource_units = 2;
  left = left_vector;
  right = right_vector;
  lease = none;
  result = none;
  reservation = some reservation_r;
}

abbrev lease_held : Lease
lease_held = record { lease_id = lease_l; miner = worker; started_at = 110; deadline = 160 }

abbrev leased_job : WorkJob
leased_job = record waiting_job { lease = some lease_held }

abbrev state_of : WorkJob → WorkState
state_of job = record {
  jobs = (job_j, job) ∷ [];
  balances = (buyer_b, 40) ∷ [];
  credits = (b'd' ∷ []) ∷ [];
}

abbrev replayed_of : WorkJob → Replayed
replayed_of job = record { state = state_of job; previous = digest }

journal_of_order : read sha256 lib net ordered ≡ ok (replayed_of waiting_job)
unfolding read read_entries read_entry entry_checksum transition dispatch apply_credit create_job
    fund lease_job complete_job find_job check_worker current_lease verify_worker is_identifier
    all_identifier_chars amount is_amount digits_value vectors int32 int32s dot execute_vector_dot
    integer is_worker_key work_miner_identity pq_is_valid_public_key pq_is_valid_signature
    pq_verify_hash_signature take drop text_eq to_hex from_hex hex_digit hex_value lookup insert
    ◌+ℤ◌ ◌*ℤ◌ decimal decimal_loop
journal_of_order = refl

journal_of_start : read sha256 lib net started ≡ ok (replayed_of leased_job)
unfolding read read_entries read_entry entry_checksum transition dispatch apply_credit create_job
    fund lease_job complete_job find_job check_worker current_lease verify_worker is_identifier
    all_identifier_chars amount is_amount digits_value vectors int32 int32s dot execute_vector_dot
    integer is_worker_key work_miner_identity pq_is_valid_public_key pq_is_valid_signature
    pq_verify_hash_signature take drop text_eq to_hex from_hex hex_digit hex_value lookup insert
    ◌+ℤ◌ ◌*ℤ◌ decimal decimal_loop
journal_of_start = refl

abbrev delivered : WorkState
delivered = record {
  jobs =
      (
        job_j,
        record leased_job {
          result = some (record { output = product; commitment = digest });
          reservation = some (record reservation_r { status = paid });
        },
      )
      ∷ [];
  balances = (buyer_b, 40) ∷ (worker, 60) ∷ [];
  credits = (b'd' ∷ []) ∷ [];
}

deliver_ok : transition sha256 lib net deliver (state_of leased_job) ≡ ok delivered
unfolding transition dispatch complete_job find_job check_worker current_lease verify_worker
    is_identifier all_identifier_chars amount is_amount digits_value vectors int32 int32s dot
    execute_vector_dot integer work_miner_identity pq_is_valid_public_key pq_is_valid_signature
    pq_verify_hash_signature take drop text_eq to_hex from_hex hex_digit hex_value lookup insert
    ◌+ℤ◌ ◌*ℤ◌ decimal decimal_loop
deliver_ok = refl

abbrev delivered_job : WorkJob
delivered_job = record leased_job {
  result = some (record { output = product; commitment = digest });
  reservation = some (record reservation_r { status = paid });
}

deliver_appended :
    append sha256 lib net deliver started
    ≡ ok (entry deposit ∷ entry order ∷ entry start ∷ entry deliver ∷ [], some delivered_job)
unfolding append read read_entries read_entry entry_checksum transition dispatch apply_credit
    create_job fund lease_job complete_job find_job check_worker current_lease verify_worker
    is_identifier all_identifier_chars amount is_amount digits_value vectors int32 int32s dot
    execute_vector_dot integer is_worker_key work_miner_identity pq_is_valid_public_key
    pq_is_valid_signature pq_verify_hash_signature take drop text_eq to_hex from_hex hex_digit
    hex_value lookup insert ◌+ℤ◌ ◌*ℤ◌ decimal decimal_loop
deliver_appended = refl

-- A second order of 60 is more than the buyer has left.
overspending :
    create_job sha256 lib net
      (b'k' ∷ [])
      net
      (number 7)
      left_vector
      right_vector
      (some (record { buyer = buyer_b; amount = sixty; expires_at = number 200 }))
      (number 100)
      (state_of waiting_job)
    ≡ err insufficient_credits
unfolding create_job fund lease_job complete_job find_job check_worker current_lease verify_worker
    is_identifier all_identifier_chars amount is_amount digits_value vectors int32 int32s dot
    execute_vector_dot integer is_worker_key work_miner_identity pq_is_valid_public_key
    pq_is_valid_signature pq_verify_hash_signature take drop text_eq to_hex from_hex hex_digit
    hex_value lookup insert ◌+ℤ◌ ◌*ℤ◌ decimal decimal_loop
overspending = refl

read_conserves_example :
    (worth (state_of leased_job) ≡ issued_by started) × IsSoundState (state_of leased_job)
read_conserves_example =
    read_conserves sha256 lib net started (replayed_of leased_job) journal_of_start

read-append_example :
    (r r' : Replayed) × (read sha256 lib net started ≡ ok r)
    × (read sha256 lib net (entry deposit ∷ entry order ∷ entry start ∷ entry deliver ∷ []) ≡ ok r')
    × (transition sha256 lib net deliver r.state ≡ ok r'.state)
    × (some delivered_job ≡ lookup job_j r'.state.jobs)
    × (length (entry deposit ∷ entry order ∷ entry start ∷ entry deliver ∷ []) ≡ length started + 1)
read-append_example =
    read-append sha256 lib net deliver started
      (entry deposit ∷ entry order ∷ entry start ∷ entry deliver ∷ []) (some delivered_job)
      deliver_appended

transition-Move_example :
    Move (phase (lookup job_j (state_of leased_job).jobs)) (phase (lookup job_j delivered.jobs))
transition-Move_example =
    transition-Move sha256 lib net deliver (state_of leased_job) delivered deliver_ok job_j

complete-IsCorrect_example :
    (job : WorkJob) × (l : Lease) × (time : ℕ) × (lookup job_j (state_of leased_job).jobs
      ≡ some job)
    × (job.result ≡ none)
    × (job.lease ≡ some l)
    × (l.lease_id ≡ lease_l)
    × (l.miner ≡ worker)
    × (integer (number 120) ≡ ok time)
    × (l.started_at ≤ time)
    × (time < l.deadline)
    × (execute_vector_dot job.left job.right ≡ ok product)
    × (digest ≡ result_commitment sha256 job l product)
    × (text_eq (take 8 worker) workkey_prefix ≡ true
        → IsSigned sha256 lib job l worker product
            (some (b'0' ∷ b'0' ∷ []))
            (some (b'0' ∷ b'0' ∷ [])))
complete-IsCorrect_example =
    complete-IsCorrect sha256 lib net job_j lease_l worker product digest (number 120)
      (some (b'0' ∷ b'0' ∷ [])) (some (b'0' ∷ b'0' ∷ [])) (state_of leased_job) delivered deliver_ok

job_j-is_identifier : is_identifier job_j ≡ true
unfolding is_identifier all_identifier_chars
job_j-is_identifier = refl

waiting_found : lookup job_j (state_of waiting_job).jobs ≡ some waiting_job
unfolding lookup text_eq
waiting_found = refl

refund_succeeds_example :
    (entries' : List JournalEntry) × (r' : Replayed) × (append sha256 lib net
        (refund job_j buyer_b (number 110))
        ordered
      ≡ ok (
        entries',
        some (record waiting_job { reservation = some (set_status refunded reservation_r) }),
      ))
    × (read sha256 lib net entries' ≡ ok r')
    × (balance_of buyer_b r'.state.balances
        ≡ balance_of buyer_b (state_of waiting_job).balances + digits_value 0 sixty)
refund_succeeds_example =
    refund_succeeds sha256 lib net ordered (replayed_of waiting_job) job_j waiting_job reservation_r
      110 journal_of_order (omega arith) waiting_found refl refl refl job_j-is_identifier
      (omega arith) refl

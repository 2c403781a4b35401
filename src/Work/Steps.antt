-- ===== src/Work/Steps.antt =====
-- `transition` of assigned-work.ts. An event that throws has no effect that outlives it: the callers
-- replay the journal into fresh maps, so the state behind a throw is not modelled. Lengths are in bytes,
-- which are the characters of any output or signature that is accepted.
pub mod Accepted
pub mod Sound
pub mod Credits
pub mod Lifecycle
pub mod Completion
use junctiongenerator.Base.{
  ℕ, ◌+◌, ◌-◌, ◌*◌, Bool, true, false, not, ◌&&◌, ◌||◌, Option, none, some, List, [], ◌∷◌, ◌++◌,
  ltb, leb, ◌==◌, if◌then◌else◌, length, Result, ok, err, ◌>>=◌, ◌>>◌, throw_if,
}
use junctiongenerator.Base.Texts.{Bytes, Text, text_eq}
use junctiongenerator.Base.Hex.{all_hex}
use junctiongenerator.Base.Maps.{TextMap, lookup, insert}
use junctiongenerator.Canonical.{Number}
use junctiongenerator.Proposer.{has}
use junctiongenerator.Spending.Bonds.{take}
use junctiongenerator.Spending.Signatures.{PqLibrary, pq_verify_hash_signature}
use junctiongenerator.Work.Json.{workkey_prefix}
use junctiongenerator.Work.{
  ReservationStatus, reserved, paid, refunded, Reservation, Lease, WorkResult, WorkJob, Funding,
  WorkEvent, credit, create, refund, lease, complete, WorkState, WorkError, identifier, integer,
  vectors, execute_vector_dot, amount, balance_of, is_worker_key, work_miner_identity,
  vector_program, vector_input, result_commitment, signature_hash, duplicate_credit,
  wrong_network_or_duplicate, expired_reservation, insufficient_credits, unknown_or_completed,
  reservation_refunded, unauthorized_refund, lease_active, lease_deadline, funded_lease,
  reused_lease, expired_lease, incorrect_computation, context_mismatch, worker_signature,
}

abbrev pub is_set : {A : Type 0} → Option A → Bool
is_set none = false
is_set (some a) = true

unfoldable pub apply_credit : Text → Text → Text → WorkState → Result WorkError WorkState
apply_credit id buyer units s = do
  identifier buyer
  n ← amount units
  throw_if (has id s.credits) duplicate_credit
  ok (record s {
    credits = s.credits ++ (id ∷ []);
    balances = insert buyer (balance_of buyer s.balances + n) s.balances;
  })

-- The balances once the reservation is paid from the buyer's, and the reservation.
unfoldable pub fund :
    Option Funding → Number → TextMap ℕ → Result WorkError (TextMap ℕ × Option Reservation)
fund none now balances = ok (balances, none)
fund (some f) now balances = do
  identifier f.buyer
  units ← amount f.amount
  time ← integer now
  expires_at ← integer f.expires_at
  throw_if (leb expires_at time) expired_reservation
  throw_if (ltb (balance_of f.buyer balances) units) insufficient_credits
  ok (
    insert f.buyer (balance_of f.buyer balances - units) balances,
    some
        (record { buyer = f.buyer; amount = f.amount; expires_at = expires_at; status = reserved }),
  )

-- `!job || job.result`
abbrev pub open_job : Option WorkJob → Result WorkError WorkJob
open_job none = err unknown_or_completed
open_job (some job) = do throw_if (is_set job.result) unknown_or_completed; ok job

abbrev pub is_refunded : Option Reservation → Bool
is_refunded none = false
is_refunded (some r) = elim r.status [ refunded ↦ true | _ ↦ false ]

-- `job.lease && now < job.lease.deadline`
abbrev pub is_leased : ℕ → Option Lease → Bool
is_leased now none = false
is_leased now (some l) = ltb now l.deadline

abbrev pub is_expired : ℕ → Option Reservation → Bool
is_expired now none = false
is_expired now (some r) = leb r.expires_at now

-- The job of an event other than `credit` and `create`, and its time.
unfoldable pub find_job : Text → Number → WorkState → Result WorkError (WorkJob × ℕ)
find_job id now s = do
  job ← open_job (lookup id s.jobs)
  time ← integer now
  throw_if (is_refunded job.reservation) reservation_refunded
  ok (job, time)

abbrev pub set_status : ReservationStatus → Reservation → Reservation
set_status status r = record r { status = status }

unfoldable pub refund_to :
    Text → Text → WorkJob → ℕ → WorkState → Option Reservation → Result WorkError WorkState
refund_to id buyer job time s none = err unauthorized_refund
refund_to id buyer job time s (some r) = do
  throw_if (not (text_eq buyer r.buyer)) unauthorized_refund
  throw_if (is_leased time job.lease) lease_active
  units ← amount r.amount
  ok (record s {
    balances = insert r.buyer (balance_of r.buyer s.balances + units) s.balances;
    jobs = insert id (record job { reservation = some (set_status refunded r) }) s.jobs;
  })

-- The checks of a lease and of a completion.
unfoldable pub check_worker : WorkJob → ℕ → Text → Text → Result WorkError (Unit {0})
check_worker job time miner lease_id = do
  throw_if (is_expired time job.reservation) expired_reservation
  identifier miner
  identifier lease_id

abbrev pub is_funded_wrongly : ℕ → Text → Option Reservation → Bool
is_funded_wrongly deadline miner none = false
is_funded_wrongly deadline miner (some r) = ltb r.expires_at deadline || not (is_worker_key miner)

abbrev pub has_lease_id : Text → Option Lease → Bool
has_lease_id lease_id none = false
has_lease_id lease_id (some l) = text_eq l.lease_id lease_id

unfoldable pub lease_job :
    Text → Text → Text → Number → WorkJob → ℕ → WorkState → Result WorkError WorkState
lease_job id lease_id miner deadline job time s = do
  check_worker job time miner lease_id
  until ← integer deadline
  throw_if (leb until time || ltb 3600 (until - time)) lease_deadline
  throw_if (is_funded_wrongly until miner job.reservation) funded_lease
  throw_if (is_leased time job.lease) lease_active
  throw_if (has_lease_id lease_id job.lease) reused_lease
  let l : Lease = record { lease_id = lease_id; miner = miner; started_at = time; deadline = until }
  ok (record s { jobs = insert id (record job { lease = some l }) s.jobs })

-- The lease that a completion is made under.
unfoldable pub current_lease : Text → Text → ℕ → Option Lease → Result WorkError Lease
current_lease lease_id miner time none = err expired_lease
current_lease lease_id miner time (some l) = do
  throw_if
      (not (text_eq l.lease_id lease_id)
        || (not (text_eq l.miner miner) || (ltb time l.started_at || leb l.deadline time)))
      expired_lease
  ok l

module _ (sha256 : Bytes → Bytes) (lib : PqLibrary) where
  unfoldable pub verify_worker :
      WorkJob → Lease → Text → Text → Option Text → Option Text → Result WorkError (Unit {0})
  verify_worker job l miner output (some key) (some signature) = do
    throw_if
        (not (length signature == lib.signature_size * 2)
          || (length signature == 0 || not (all_hex signature)))
        worker_signature
    worker ← work_miner_identity lib key
    throw_if
        (not (text_eq worker miner)
          || not
              (pq_verify_hash_signature lib signature (signature_hash sha256 lib job l output) key))
        worker_signature
  verify_worker job l miner output none none =
      throw_if (text_eq (take 8 miner) workkey_prefix) worker_signature
  verify_worker job l miner output _ _ = err worker_signature

  abbrev pub pay_miner :
      Text → Option Reservation → TextMap ℕ → Result WorkError (TextMap ℕ × Option Reservation)
  pay_miner miner none balances = ok (balances, none)
  pay_miner miner (some r) balances = do
    units ← amount r.amount
    ok (insert miner (balance_of miner balances + units) balances, some (set_status paid r))

  unfoldable pub complete_job :
      Text
      → Text
      → Text
      → Text
      → Text
      → Option Text
      → Option Text
      → WorkJob
      → ℕ
      → WorkState
      → Result WorkError WorkState
  complete_job id lease_id miner output commitment key signature job time s = do
    check_worker job time miner lease_id
    l ← current_lease lease_id miner time job.lease
    throw_if (ltb 64 (length output)) incorrect_computation
    expected ← execute_vector_dot job.left job.right
    throw_if (not (text_eq output expected)) incorrect_computation
    throw_if (not (text_eq commitment (result_commitment sha256 job l output))) context_mismatch
    verify_worker job l miner output key signature
    payment ← pay_miner miner job.reservation s.balances
    ok (record s {
      balances = payment.0;
      jobs =
          insert id
            (record job {
              result = some (record { output = output; commitment = commitment });
              reservation = payment.1;
            })
            s.jobs;
    })

  unfoldable pub create_job :
      Text
      → Text
      → Text
      → Number
      → List Number
      → List Number
      → Option Funding
      → Number
      → WorkState
      → Result WorkError WorkState
  create_job network id job_network epoch left right funding now s = do
    throw_if (not (text_eq job_network network) || is_set (lookup id s.jobs))
        wrong_network_or_duplicate
    era ← integer epoch
    parts ← vectors left right
    funded ← fund funding now s.balances
    let job : WorkJob = record {
      job_id = id;
      network = network;
      epoch = era;
      program_digest = vector_program sha256;
      input_commitment = vector_input sha256 left right;
      resource_units = length left;
      left = left;
      right = right;
      lease = none;
      result = none;
      reservation = funded.1;
    }
    ok (record s { balances = funded.0; jobs = insert id job s.jobs })

  -- After the check of the `jobId`.
  unfoldable pub dispatch : Text → WorkEvent → WorkState → Result WorkError WorkState
  dispatch network (credit id buyer units) s = apply_credit id buyer units s
  dispatch network (create id job_network epoch left right funding now) s =
      create_job network id job_network epoch left right funding now s
  dispatch network (refund id buyer now) s = do
    found ← find_job id now s
    refund_to id buyer found.0 found.1 s found.0.reservation
  dispatch network (lease id lease_id miner deadline now) s = do
    found ← find_job id now s
    lease_job id lease_id miner deadline found.0 found.1 s
  dispatch network (complete id lease_id miner output commitment now key signature) s = do
    found ← find_job id now s
    complete_job id lease_id miner output commitment key signature found.0 found.1 s

  abbrev pub event_job : WorkEvent → Text
  event_job (credit id _ _) = id
  event_job (create id _ _ _ _ _ _) = id
  event_job (refund id _ _) = id
  event_job (lease id _ _ _ _) = id
  event_job (complete id _ _ _ _ _ _ _) = id

  unfoldable pub transition : Text → WorkEvent → WorkState → Result WorkError WorkState
  transition network event s = do identifier (event_job event); dispatch network event s

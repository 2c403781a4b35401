-- ===== src/Work/Steps/Accepted.antt =====
-- What an accepted event says of the job it is about.
use junctiongenerator.Base.{
  ℕ, ◌+◌, ◌-◌, ◌≡◌, true, false, Option, none, some, List, [], ◌∷◌, ◌++◌, arith, ok, bind-ok,
  throw_if-ok, ok-injective, not, ◌||◌, ◌≤◌, ◌<◌, leb, ltb, length,
}
use junctiongenerator.Base.Texts.{Bytes, Text, text_eq, text_eq_iff}
use junctiongenerator.Base.Maps.{TextMap, lookup, insert}
use junctiongenerator.Proposer.{has}
use junctiongenerator.Spending.Signatures.{PqLibrary}
use junctiongenerator.Canonical.{Number}
use junctiongenerator.Work.{
  Reservation, reserved, refunded, Lease, WorkJob, WorkState, Funding, amount, is_amount,
  digits_value, is_identifier, integer, balance_of, execute_vector_dot, vectors, result_commitment,
  vector_program, vector_input,
}
use junctiongenerator.Work.Steps.{
  is_set, open_job, is_refunded, is_leased, is_expired, find_job, current_lease, apply_credit, fund,
  refund_to, check_worker, is_funded_wrongly, has_lease_id, lease_job, verify_worker, pay_miner,
  complete_job, create_job, set_status,
}

pub amount-ok :
    (text : Text) (n : ℕ) → amount text ≡ ok n → (is_amount text ≡ true) × (n ≡ digits_value 0 text)
unfolding amount
amount-ok text n h = ground arith

open_job-ok :
    (found : Option WorkJob) (job : WorkJob)
    → open_job found ≡ ok job
    → (found ≡ some job) × (job.result ≡ none)
open_job-ok none job h = cc
open_job-ok (some j) job h = ground arith

-- The job is there, has no result and is not refunded.
pub find_job-ok :
    (id : Text) (now : Number) (s : WorkState) (job : WorkJob) (time : ℕ)
    → find_job id now s ≡ ok (job, time)
    → (lookup id s.jobs ≡ some job)
      × (job.result ≡ none)
      × (is_refunded job.reservation ≡ false)
      × (integer now ≡ ok time)
unfolding find_job
find_job-ok id now s job time h = ground (arith, open_job-ok (lookup id s.jobs))

pub current_lease-ok :
    (lease_id miner : Text) (time : ℕ) (held : Option Lease) (l : Lease)
    → current_lease lease_id miner time held ≡ ok l
    → (held ≡ some l)
      × (l.lease_id ≡ lease_id)
      × (l.miner ≡ miner)
      × (l.started_at ≤ time)
      × (time < l.deadline)
unfolding current_lease
current_lease-ok lease_id miner time none l h = cc
current_lease-ok lease_id miner time (some k) l h =
    ground (arith, text_eq_iff k.lease_id lease_id, text_eq_iff k.miner miner)

pub apply_credit-ok :
    (id buyer units : Text) (s s' : WorkState)
    → apply_credit id buyer units s ≡ ok s'
    → (n : ℕ) × (amount units ≡ ok n)
      × (has id s.credits ≡ false)
      × (s' ≡ record s {
        credits = s.credits ++ (id ∷ []);
        balances = insert buyer (balance_of buyer s.balances + n) s.balances;
      })
unfolding apply_credit
apply_credit-ok id buyer units s s' h =
    let (_, h₁) = throw_if-ok (not (is_identifier buyer)) _ _ s' h in
    let (n, read, h₂) = bind-ok (amount units) _ s' h₁ in
    let (fresh, h₃) = throw_if-ok (has id s.credits) _ _ s' h₂ in (n, read, fresh, ok-injective h₃)

pub fund-ok :
    (f : Funding) (now : Number) (m : TextMap ℕ) (result : TextMap ℕ × Option Reservation)
    → fund (some f) now m ≡ ok result
    → (n expiry : ℕ) × (amount f.amount ≡ ok n)
      × (n ≤ balance_of f.buyer m)
      × (result ≡ (
        insert f.buyer (balance_of f.buyer m - n) m,
        some
            (record { buyer = f.buyer; amount = f.amount; expires_at = expiry; status = reserved }),
      ))
unfolding fund
fund-ok f now m result h =
    let (_, h₁) = throw_if-ok (not (is_identifier f.buyer)) _ _ result h in
    let (n, read, h₂) = bind-ok (amount f.amount) _ result h₁ in
    let (time, _, h₃) = bind-ok (integer now) _ result h₂ in
    let (expiry, _, h₄) = bind-ok (integer f.expires_at) _ result h₃ in
    let (_, h₅) = throw_if-ok (leb expiry time) _ _ result h₄ in
    let (enough, h₆) = throw_if-ok (ltb (balance_of f.buyer m) n) _ _ result h₅ in
    (n, expiry, read, ground (arith, enough), ok-injective h₆)

pub refund_to-ok :
    (id buyer : Text) (job : WorkJob) (time : ℕ) (s s' : WorkState) (r : Reservation)
    → refund_to id buyer job time s (some r) ≡ ok s'
    → (n : ℕ) × (amount r.amount ≡ ok n)
      × (buyer ≡ r.buyer)
      × (is_leased time job.lease ≡ false)
      × (s' ≡ record s {
        balances = insert r.buyer (balance_of r.buyer s.balances + n) s.balances;
        jobs = insert id (record job { reservation = some (set_status refunded r) }) s.jobs;
      })
unfolding refund_to
refund_to-ok id buyer job time s s' r h =
    let (own, h₁) = throw_if-ok (not (text_eq buyer r.buyer)) _ _ s' h in
    let (idle, h₂) = throw_if-ok (is_leased time job.lease) _ _ s' h₁ in
    let (n, read, h₃) = bind-ok (amount r.amount) _ s' h₂ in
    (n, read, ground (arith, own, text_eq_iff buyer r.buyer), idle, ok-injective h₃)

pub check_worker-ok :
    (job : WorkJob) (time : ℕ) (miner lease_id : Text)
    → check_worker job time miner lease_id ≡ ok tt
    → is_expired time job.reservation ≡ false
unfolding check_worker
check_worker-ok job time miner lease_id h =
    (throw_if-ok (is_expired time job.reservation) _ _ tt h).0

pub lease_job-ok :
    (id lease_id miner : Text) (deadline : Number) (job : WorkJob) (time : ℕ) (s s' : WorkState)
    → lease_job id lease_id miner deadline job time s ≡ ok s'
    → (end : ℕ) × (is_expired time job.reservation ≡ false)
      × (time < end)
      × (end ≤ time + 3600)
      × (is_funded_wrongly end miner job.reservation ≡ false)
      × (is_leased time job.lease ≡ false)
      × (has_lease_id lease_id job.lease ≡ false)
      × (s' ≡ record s {
        jobs =
            insert id
              (record job {
                lease = some (record {
                  lease_id = lease_id;
                  miner = miner;
                  started_at = time;
                  deadline = end;
                });
              })
              s.jobs;
      })
unfolding lease_job
lease_job-ok id lease_id miner deadline job time s s' h =
    let (_, checked, h₁) = bind-ok (check_worker job time miner lease_id) _ s' h in
    let (end, _, h₂) = bind-ok (integer deadline) _ s' h₁ in
    let (short, h₃) = throw_if-ok (leb end time || ltb 3600 (end - time)) _ _ s' h₂ in
    let (well, h₄) = throw_if-ok (is_funded_wrongly end miner job.reservation) _ _ s' h₃ in
    let (idle, h₅) = throw_if-ok (is_leased time job.lease) _ _ s' h₄ in
    let (new, h₆) = throw_if-ok (has_lease_id lease_id job.lease) _ _ s' h₅ in
    (
      end,
      check_worker-ok job time miner lease_id checked,
      ground (arith, short),
      ground (arith, short),
      well,
      idle,
      new,
      ok-injective h₆,
    )

module _ (sha256 : Bytes → Bytes) (lib : PqLibrary) where
  pub complete_job-ok :
      (id lease_id miner output commitment : Text) (key signature : Option Text) (job : WorkJob)
      (time : ℕ) (s s' : WorkState)
      → complete_job sha256 lib id lease_id miner output commitment key signature job time s ≡ ok s'
      → (l : Lease) × (payment : TextMap ℕ × Option Reservation) × (is_expired time job.reservation
          ≡ false)
        × (current_lease lease_id miner time job.lease ≡ ok l)
        × (execute_vector_dot job.left job.right ≡ ok output)
        × (commitment ≡ result_commitment sha256 job l output)
        × (verify_worker sha256 lib job l miner output key signature ≡ ok tt)
        × (pay_miner sha256 lib miner job.reservation s.balances ≡ ok payment)
        × (s' ≡ record s {
          balances = payment.0;
          jobs =
              insert id
                (record job {
                  result = some (record { output = output; commitment = commitment });
                  reservation = payment.1;
                })
                s.jobs;
        })
  unfolding complete_job
  complete_job-ok id lease_id miner output commitment key signature job time s s' h =
      let (_, checked, h₁) = bind-ok (check_worker job time miner lease_id) _ s' h in
      let (l, current, h₂) = bind-ok (current_lease lease_id miner time job.lease) _ s' h₁ in
      let (_, h₃) = throw_if-ok (ltb 64 (length output)) _ _ s' h₂ in
      let (expected, run, h₄) = bind-ok (execute_vector_dot job.left job.right) _ s' h₃ in
      let (same, h₅) = throw_if-ok (not (text_eq output expected)) _ _ s' h₄ in
      let (bound, h₆) =
        throw_if-ok (not (text_eq commitment (result_commitment sha256 job l output))) _ _ s' h₅ in
      let (_, signed, h₇) =
        bind-ok (verify_worker sha256 lib job l miner output key signature) _ s' h₆ in
      let (payment, pays, h₈) =
        bind-ok (pay_miner sha256 lib miner job.reservation s.balances) _ s' h₇ in
      let equal : output ≡ expected = ground (arith, same, text_eq_iff output expected) in
      (
        l,
        payment,
        check_worker-ok job time miner lease_id checked,
        current,
        rw equal run,
        ground (arith, bound, text_eq_iff commitment (result_commitment sha256 job l output)),
        signed,
        pays,
        ok-injective h₈,
      )

  pub create_job-ok :
      (network id job_network : Text) (epoch : Number) (left right : List Number)
      (funding : Option Funding) (now : Number) (s s' : WorkState)
      → create_job sha256 lib network id job_network epoch left right funding now s ≡ ok s'
      → (era : ℕ) × (funded : TextMap ℕ × Option Reservation) × (lookup id s.jobs ≡ none)
        × (fund funding now s.balances ≡ ok funded)
        × (s' ≡ record s {
          balances = funded.0;
          jobs =
              insert id
                (record {
                  job_id = id;
                  network = network;
                  epoch = era;
                  program_digest = vector_program sha256;
                  input_commitment = vector_input sha256 left right;
                  resource_units = length left;
                  left = left;
                  right = right;
                  lease = none;
                  result = none;
                  reservation = funded.1;
                })
                s.jobs;
        })
  unfolding create_job
  create_job-ok network id job_network epoch left right funding now s s' h =
      let (new, h₁) =
        throw_if-ok (not (text_eq job_network network) || is_set (lookup id s.jobs)) _ _ s' h in
      let (era, _, h₂) = bind-ok (integer epoch) _ s' h₁ in
      let (parts, _, h₃) = bind-ok (vectors left right) _ s' h₂ in
      let (funded, pays, h₄) = bind-ok (fund funding now s.balances) _ s' h₃ in
      (era, funded, ground (arith, new), pays, ok-injective h₄)

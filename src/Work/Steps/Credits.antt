-- ===== src/Work/Steps/Credits.antt =====
-- The credits: those in the balances and those in reservations.
use junctiongenerator.Base.{
  ℕ, ◌+◌, ◌-◌, ◌≡◌, refl, false, not, Option, none, some, List, [], ◌∷◌, arith, ok, bind-ok,
  throw_if-ok, ok-injective, not, length,
}
use junctiongenerator.Base.Texts.{Bytes, Text}
use junctiongenerator.Base.Maps.{TextMap, lookup, insert}
use junctiongenerator.Canonical.{Number}
use junctiongenerator.Spending.Signatures.{PqLibrary}
use junctiongenerator.Work.{
  reserved, refunded, Reservation, Lease, WorkJob, Funding, WorkEvent, credit, create, refund,
  lease, complete, WorkState, amount, digits_value, balance_of, or_zero, is_identifier,
  vector_program, vector_input,
}
use junctiongenerator.Work.Steps.{
  apply_credit, fund, refund_to, lease_job, pay_miner, complete_job, create_job, dispatch,
  transition, find_job, set_status, is_refunded,
}
use junctiongenerator.Work.Steps.Sound.{is_paid, IsSound, IsSoundState, Every-lookup, unpaid}
use junctiongenerator.Work.Steps.Accepted.{
  amount-ok, find_job-ok, apply_credit-ok, fund-ok, refund_to-ok, lease_job-ok, complete_job-ok,
  create_job-ok,
}

-- What a sum over the entries counts for a key.
abbrev counted : {V : Type 0} → (V → ℕ) → Option V → ℕ
counted f none = 0
counted f (some v) = f v

abbrev sum_of : {V : Type 0} → (V → ℕ) → TextMap V → ℕ
sum_of f [] = 0
sum_of f ((k, v) ∷ m) = f v + sum_of f m

sum_of-insert :
    {V : Type 0} (f : V → ℕ) (k : Text) (v : V) (m : TextMap V)
    → sum_of f (insert k v m) + counted f (lookup k m) ≡ sum_of f m + f v
unfolding insert lookup
sum_of-insert f k v [] = omega arith
sum_of-insert f k v ((j, w) ∷ m) = ground (arith, sum_of-insert f k v m)

-- What a reservation holds back.
abbrev pub held : Option Reservation → ℕ
held none = 0
held (some r) = elim r.status [ reserved ↦ digits_value 0 r.amount | _ ↦ 0 ]

abbrev job_held : WorkJob → ℕ
job_held job = held job.reservation

abbrev pub in_balances : WorkState → ℕ
in_balances s = sum_of (λ n. n) s.balances

abbrev pub in_reservations : WorkState → ℕ
in_reservations s = sum_of job_held s.jobs

-- All the credits there are.
abbrev pub worth : WorkState → ℕ
worth s = in_balances s + in_reservations s

-- The credits that an event brings in from outside.
abbrev pub issued : WorkEvent → ℕ
issued (credit id buyer units) = digits_value 0 units
issued _ = 0

counted-or_zero : (found : Option ℕ) → counted (λ n. n) found ≡ or_zero found
counted-or_zero none = refl
counted-or_zero (some n) = refl

sum_of-balance :
    (account : Text) (n : ℕ) (m : TextMap ℕ)
    → sum_of (λ n. n) (insert account n m) + balance_of account m ≡ sum_of (λ n. n) m + n
sum_of-balance account n m =
    omega (arith, sum_of-insert (λ n. n) account n m, counted-or_zero (lookup account m))

apply_credit-worth :
    (id buyer units : Text) (s s' : WorkState)
    → apply_credit id buyer units s ≡ ok s'
    → worth s' ≡ worth s + digits_value 0 units
apply_credit-worth id buyer units s s' h =
    let (n, read, _, made) = apply_credit-ok id buyer units s s' h in
    let value = (amount-ok units n read).1 in
    let total = sum_of-balance buyer (balance_of buyer s.balances + n) s.balances in
    rw made (omega (arith, value, total))

fund-worth :
    (f : Option Funding) (now : Number) (m : TextMap ℕ) (result : TextMap ℕ × Option Reservation)
    → fund f now m ≡ ok result
    → sum_of (λ n. n) result.0 + held result.1 ≡ sum_of (λ n. n) m
unfolding fund
fund-worth none now m result h = rw (ok-injective h) (omega arith)
fund-worth (some f) now m result h =
    let (n, expiry, read, enough, made) = fund-ok f now m result h in
    let value = (amount-ok f.amount n read).1 in
    let total = sum_of-balance f.buyer (balance_of f.buyer m - n) m in
    rw made (omega (arith, value, total, enough))

refund_to-worth :
    (id buyer : Text) (job : WorkJob) (time : ℕ) (s s' : WorkState) (r : Option Reservation)
    → lookup id s.jobs ≡ some job
    → job.reservation ≡ r
    → is_refunded r ≡ false
    → is_paid r ≡ false
    → refund_to id buyer job time s r ≡ ok s'
    → worth s' ≡ worth s
unfolding refund_to
refund_to-worth id buyer job time s s' none found own live due h = cc
refund_to-worth id buyer job time s s' (some r) found own live due h =
    let (n, read, _, _, made) = refund_to-ok id buyer job time s s' r h in
    let value = (amount-ok r.amount n read).1 in
    let total = sum_of-balance r.buyer (balance_of r.buyer s.balances + n) s.balances in
    let back = record job { reservation = some (set_status refunded r) } in
    let jobs = sum_of-insert job_held id back s.jobs in rw made (ground (arith, value, total, jobs))

lease_job-worth :
    (id lease_id miner : Text) (deadline : Number) (job : WorkJob) (time : ℕ) (s s' : WorkState)
    → lookup id s.jobs ≡ some job
    → lease_job id lease_id miner deadline job time s ≡ ok s'
    → worth s' ≡ worth s
lease_job-worth id lease_id miner deadline job time s s' found h =
    let (end, _, _, _, _, _, _, made) = lease_job-ok id lease_id miner deadline job time s s' h in
    let l : Lease = record {
      lease_id = lease_id;
      miner = miner;
      started_at = time;
      deadline = end;
    } in
    let jobs = sum_of-insert job_held id (record job { lease = some l }) s.jobs in
    rw made (ground (arith, jobs))

module _ (sha256 : Bytes → Bytes) (lib : PqLibrary) where
  pay_miner-worth :
      (miner : Text) (r : Option Reservation) (m : TextMap ℕ)
      (payment : TextMap ℕ × Option Reservation)
      → is_refunded r ≡ false
      → is_paid r ≡ false
      → pay_miner sha256 lib miner r m ≡ ok payment
      → sum_of (λ n. n) payment.0 + held payment.1 ≡ sum_of (λ n. n) m + held r
  pay_miner-worth miner none m payment live due h = rw (ok-injective h) (omega arith)
  pay_miner-worth miner (some r) m payment live due h =
      let (n, read, made) = bind-ok (amount r.amount) _ payment h in
      let value = (amount-ok r.amount n read).1 in
      let total = sum_of-balance miner (balance_of miner m + n) m in
      rw (ok-injective made) (ground (arith, value, total))

  complete_job-worth :
      (id lease_id miner output commitment : Text) (key signature : Option Text) (job : WorkJob)
      (time : ℕ) (s s' : WorkState)
      → lookup id s.jobs ≡ some job
      → is_refunded job.reservation ≡ false
      → is_paid job.reservation ≡ false
      → complete_job sha256 lib id lease_id miner output commitment key signature job time s ≡ ok s'
      → worth s' ≡ worth s
  complete_job-worth id lease_id miner output commitment key signature job time s s' found live due
        h =
      let (_, payment, _, _, _, _, _, pays, made) =
        complete_job-ok sha256 lib id lease_id miner output commitment key signature job time s s'
          h in
      let paid' = pay_miner-worth miner job.reservation s.balances payment live due pays in
      let done : WorkJob = record job {
        result = some (record { output = output; commitment = commitment });
        reservation = payment.1;
      } in
      let jobs = sum_of-insert job_held id done s.jobs in rw made (ground (arith, paid', jobs))

  create_job-worth :
      (network id job_network : Text) (epoch : Number) (left right : List Number)
      (funding : Option Funding) (now : Number) (s s' : WorkState)
      → create_job sha256 lib network id job_network epoch left right funding now s ≡ ok s'
      → worth s' ≡ worth s
  create_job-worth network id job_network epoch left right funding now s s' h =
      let (era, funded, new, pays, made) =
        create_job-ok sha256 lib network id job_network epoch left right funding now s s' h in
      let total = fund-worth funding now s.balances funded pays in
      let job : WorkJob = record {
        job_id = id;
        network = network;
        epoch = era;
        program_digest = vector_program sha256;
        input_commitment = vector_input sha256 left right;
        resource_units = length left;
        left = left;
        right = right;
        lease = none;
        result = none;
        reservation = funded.1;
      } in
      let jobs = sum_of-insert job_held id job s.jobs in rw made (ground (arith, total, jobs, new))

  -- Each event that is accepted in a sound state leaves as many credits as there were, in the balances
  -- and in reservations that are still held together, and a credit adds its amount.
  pub transition_conserves :
      (network : Text) (event : WorkEvent) (s s' : WorkState)
      → IsSoundState s
      → transition sha256 lib network event s ≡ ok s'
      → worth s' ≡ worth s + issued event
  unfolding transition dispatch
  transition_conserves network (credit id buyer units) s s' sound h =
      apply_credit-worth id buyer units s s' (throw_if-ok (not (is_identifier id)) _ _ s' h).1
  transition_conserves network (create id job_network epoch left right funding now) s s' sound h =
      let (_, made) = throw_if-ok (not (is_identifier id)) _ _ s' h in
      omega (arith, create_job-worth network id job_network epoch left right funding now s s' made)
  transition_conserves network (refund id buyer now) s s' sound h =
      let (_, h₁) = throw_if-ok (not (is_identifier id)) _ _ s' h in
      let (found, there, made) = bind-ok (find_job id now s) _ s' h₁ in
      let (job, open_, live, _) = find_job-ok id now s found.0 found.1 there in
      let due = unpaid found.0 (Every-lookup IsSound id found.0 s.jobs sound job) open_ in
      omega (
        arith,
        refund_to-worth id buyer found.0 found.1 s s' found.0.reservation job refl live due made,
      )
  transition_conserves network (lease id lease_id miner deadline now) s s' sound h =
      let (_, h₁) = throw_if-ok (not (is_identifier id)) _ _ s' h in
      let (found, there, made) = bind-ok (find_job id now s) _ s' h₁ in
      let job = (find_job-ok id now s found.0 found.1 there).0 in
      omega (arith, lease_job-worth id lease_id miner deadline found.0 found.1 s s' job made)
  transition_conserves network (complete id lease_id miner output commitment now key signature) s s'
        sound h =
      let (_, h₁) = throw_if-ok (not (is_identifier id)) _ _ s' h in
      let (found, there, made) = bind-ok (find_job id now s) _ s' h₁ in
      let (job, open_, live, _) = find_job-ok id now s found.0 found.1 there in
      let due = unpaid found.0 (Every-lookup IsSound id found.0 s.jobs sound job) open_ in
      omega (
        arith,
        complete_job-worth id lease_id miner output commitment key signature found.0 found.1 s s'
            job live due made,
      )

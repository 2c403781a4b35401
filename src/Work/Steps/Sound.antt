-- ===== src/Work/Steps/Sound.antt =====
-- What holds of every job that transitions make.
use junctiongenerator.Base.{
  ℕ, ◌≡◌, refl, sym, ap, subst, ◌∙◌, Bool, true, false, not, ◌&&◌, Option, none, some, List, [],
  ◌∷◌, arith, ok, bind-ok, throw_if-ok, if◌then◌else◌, ok-injective, leb, Bool-cases, inl, inr,
  length,
}
use junctiongenerator.Base.Texts.{Bytes, Text, text_eq}
use junctiongenerator.Base.Maps.{TextMap, lookup, insert}
use junctiongenerator.Canonical.{Number}
use junctiongenerator.Spending.Signatures.{PqLibrary}
use junctiongenerator.Work.{
  paid, refunded, Reservation, Lease, WorkJob, Funding, WorkEvent, credit, create, refund, lease,
  complete, WorkState, amount, is_amount, is_identifier, vector_program, vector_input,
}
use junctiongenerator.Work.Steps.{
  fund, refund_to, lease_job, pay_miner, complete_job, create_job, dispatch, transition, find_job,
  set_status, is_set, is_refunded, is_funded_wrongly,
}
use junctiongenerator.Work.Steps.Accepted.{
  amount-ok, find_job-ok, apply_credit-ok, fund-ok, refund_to-ok, lease_job-ok, complete_job-ok,
  create_job-ok,
}

abbrev pub is_paid : Option Reservation → Bool
is_paid none = false
is_paid (some r) = elim r.status [ paid ↦ true | _ ↦ false ]

abbrev pub has_amount : Option Reservation → Bool
has_amount none = true
has_amount (some r) = is_amount r.amount

abbrev pub ends_in_time : Option Reservation → Option Lease → Bool
ends_in_time (some r) (some l) = leb l.deadline r.expires_at
ends_in_time _ _ = true

-- A paid job has a result and a refunded one has none, the amount of a reservation is a number, and a
-- lease ends before its reservation expires.
pub record IsSound (job : WorkJob) : Type 0 where
  pub paid_done : (is_paid job.reservation && not (is_set job.result)) ≡ false
  pub refunded_undone : (is_refunded job.reservation && is_set job.result) ≡ false
  pub funded : has_amount job.reservation ≡ true
  pub timely : ends_in_time job.reservation job.lease ≡ true

abbrev pub Every : {V : Type 0} → (V → Type 0) → TextMap V → Type 0
Every P [] = Unit
Every P ((k, v) ∷ m) = P v × Every P m

pub Every-insert :
    {V : Type 0} (P : V → Type 0) (k : Text) (v : V) (m : TextMap V)
    → P v
    → Every P m
    → Every P (insert k v m)
unfolding insert
Every-insert P k v [] h a = (h, tt)
Every-insert P k v ((j, w) ∷ m) h (own, rest) = elim (Bool-cases (text_eq j k)) [
  | inl same ↦ rw same (h, rest)
  | inr other ↦ rw other (own, Every-insert P k v m h rest)
]

pub Every-lookup :
    {V : Type 0} (P : V → Type 0) (k : Text) (v : V) (m : TextMap V)
    → Every P m
    → lookup k m ≡ some v
    → P v
unfolding lookup
Every-lookup {V} P k v [] a h = cc
Every-lookup {V} P k v ((j, w) ∷ m) (own, rest) h = elim (Bool-cases (text_eq j k)) [
  | inl same ↦
      let found : Path (Option V) (some w) (some v) =
        ap (λ t. if t then some w else lookup k m) (sym same) ∙ h in
      subst P (cc) own
  | inr other ↦
      Every-lookup P k v m rest (ap (λ t. if t then some w else lookup k m) (sym other) ∙ h)
]

abbrev pub IsSoundState : WorkState → Type 0
IsSoundState s = Every IsSound s.jobs

-- A sound job that has no result is not paid.
pub unpaid : (job : WorkJob) → IsSound job → job.result ≡ none → is_paid job.reservation ≡ false
unpaid job sound open_ = ground (arith, sound.paid_done)

set_job-IsSoundState :
    (id : Text) (job : WorkJob) (s : WorkState)
    → IsSound job
    → IsSoundState s
    → Every IsSound (insert id job s.jobs)
set_job-IsSoundState id job s sound all = Every-insert IsSound id job s.jobs sound all

refund_to-IsSoundState :
    (id buyer : Text) (job : WorkJob) (time : ℕ) (s s' : WorkState) (r : Option Reservation)
    → job.reservation ≡ r
    → job.result ≡ none
    → IsSound job
    → IsSoundState s
    → refund_to id buyer job time s r ≡ ok s'
    → IsSoundState s'
unfolding refund_to
refund_to-IsSoundState id buyer job time s s' none own undone sound all h = cc
refund_to-IsSoundState id buyer job time s s' (some r) own undone sound all h =
    let (n, read, _, _, made) = refund_to-ok id buyer job time s s' r h in
    let back : WorkJob = record job { reservation = some (set_status refunded r) } in
    let valid : is_amount r.amount ≡ true = (amount-ok r.amount n read).0 in
    let timely : ends_in_time (some r) job.lease ≡ true = ground (arith, sound.timely) in
    let sound' : IsSound back = ground (arith, undone, valid, timely) in
    rw made (set_job-IsSoundState id back s sound' all)

lease_job-IsSoundState :
    (id lease_id miner : Text) (deadline : Number) (job : WorkJob) (time : ℕ) (s s' : WorkState)
    → IsSound job
    → IsSoundState s
    → lease_job id lease_id miner deadline job time s ≡ ok s'
    → IsSoundState s'
lease_job-IsSoundState id lease_id miner deadline job time s s' sound all h =
    let (end, _, _, _, well, _, _, made) =
      lease_job-ok id lease_id miner deadline job time s s' h in
    let l : Lease = record {
      lease_id = lease_id;
      miner = miner;
      started_at = time;
      deadline = end;
    } in
    let timely : ends_in_time job.reservation (some l) ≡ true =
      in_time end miner job.reservation l refl well in
    let leased : WorkJob = record job { lease = some l } in
    let sound' : IsSound leased = record {
      paid_done = sound.paid_done;
      refunded_undone = sound.refunded_undone;
      funded = sound.funded;
      timely = timely;
    } in
    rw made (set_job-IsSoundState id leased s sound' all)
  where
    in_time :
        (end : ℕ) (miner : Text) (r : Option Reservation) (l : Lease)
        → l.deadline ≡ end
        → is_funded_wrongly end miner r ≡ false
        → ends_in_time r (some l) ≡ true
    in_time end miner none l e well = refl
    in_time end miner (some r) l e well = ground arith

pub fund-IsSound :
    (f : Option Funding) (now : Number) (m : TextMap ℕ) (result : TextMap ℕ × Option Reservation)
    → fund f now m ≡ ok result
    → (is_paid result.1 ≡ false) × (is_refunded result.1 ≡ false) × (has_amount result.1 ≡ true)
unfolding fund
fund-IsSound none now m result h = rw (ok-injective h) (refl, refl, refl)
fund-IsSound (some f) now m result h =
    let (n, expiry, read, _, made) = fund-ok f now m result h in
    rw made (refl, refl, (amount-ok f.amount n read).0)

module _ (sha256 : Bytes → Bytes) (lib : PqLibrary) where
  pay_miner-IsSound :
      (miner : Text) (r : Option Reservation) (l : Option Lease) (m : TextMap ℕ)
      (payment : TextMap ℕ × Option Reservation)
      → is_refunded r ≡ false
      → has_amount r ≡ true
      → ends_in_time r l ≡ true
      → pay_miner sha256 lib miner r m ≡ ok payment
      → (is_refunded payment.1 ≡ false)
        × (has_amount payment.1 ≡ true)
        × (ends_in_time payment.1 l ≡ true)
  pay_miner-IsSound miner none l m payment live funded timely h =
      rw (ok-injective h) (refl, refl, refl)
  pay_miner-IsSound miner (some r) l m payment live funded timely h =
      let (n, read, made) = bind-ok (amount r.amount) _ payment h in
      rw (ok-injective made) (refl, funded, ground arith)

  complete_job-IsSoundState :
      (id lease_id miner output commitment : Text) (key signature : Option Text) (job : WorkJob)
      (time : ℕ) (s s' : WorkState)
      → is_refunded job.reservation ≡ false
      → IsSound job
      → IsSoundState s
      → complete_job sha256 lib id lease_id miner output commitment key signature job time s ≡ ok s'
      → IsSoundState s'
  complete_job-IsSoundState id lease_id miner output commitment key signature job time s s' live
        sound all h =
      let (_, payment, _, _, _, _, _, pays, made) =
        complete_job-ok sha256 lib id lease_id miner output commitment key signature job time s s'
          h in
      let (live', funded', timely') =
        pay_miner-IsSound miner job.reservation job.lease s.balances payment live sound.funded
          sound.timely pays in
      let done : WorkJob = record job {
        result = some (record { output = output; commitment = commitment });
        reservation = payment.1;
      } in
      let sound' : IsSound done = ground (arith, live', funded', timely') in
      rw made (set_job-IsSoundState id done s sound' all)

  create_job-IsSoundState :
      (network id job_network : Text) (epoch : Number) (left right : List Number)
      (funding : Option Funding) (now : Number) (s s' : WorkState)
      → IsSoundState s
      → create_job sha256 lib network id job_network epoch left right funding now s ≡ ok s'
      → IsSoundState s'
  create_job-IsSoundState network id job_network epoch left right funding now s s' all h =
      let (era, funded, new, pays, made) =
        create_job-ok sha256 lib network id job_network epoch left right funding now s s' h in
      let (due, live, valid) = fund-IsSound funding now s.balances funded pays in
      let job : WorkJob = record {
        job_id = id;
        network = network;
        epoch = era;
        program_digest = vector_program sha256;
        input_commitment = vector_input sha256 left right;
        resource_units = length left;
        left = left;
        right = right;
        lease = none;
        result = none;
        reservation = funded.1;
      } in
      let sound' : IsSound job = ground (arith, due, live, valid) in
      rw made (set_job-IsSoundState id job s sound' all)

  -- Every event that is accepted in a sound state leaves a sound state.
  pub transition-IsSoundState :
      (network : Text) (event : WorkEvent) (s s' : WorkState)
      → IsSoundState s
      → transition sha256 lib network event s ≡ ok s'
      → IsSoundState s'
  unfolding transition dispatch
  transition-IsSoundState network (credit id buyer units) s s' all h =
      let (_, h₁) = throw_if-ok (not (is_identifier id)) _ _ s' h in
      let (_, _, _, made) = apply_credit-ok id buyer units s s' h₁ in rw made all
  transition-IsSoundState network (create id job_network epoch left right funding now) s s' all h =
      let (_, made) = throw_if-ok (not (is_identifier id)) _ _ s' h in
      create_job-IsSoundState network id job_network epoch left right funding now s s' all made
  transition-IsSoundState network (refund id buyer now) s s' all h =
      let (_, h₁) = throw_if-ok (not (is_identifier id)) _ _ s' h in
      let (found, there, made) = bind-ok (find_job id now s) _ s' h₁ in
      let (job, undone, _, _) = find_job-ok id now s found.0 found.1 there in
      refund_to-IsSoundState id buyer found.0 found.1 s s' found.0.reservation refl undone
        (Every-lookup IsSound id found.0 s.jobs all job) all made
  transition-IsSoundState network (lease id lease_id miner deadline now) s s' all h =
      let (_, h₁) = throw_if-ok (not (is_identifier id)) _ _ s' h in
      let (found, there, made) = bind-ok (find_job id now s) _ s' h₁ in
      let job = (find_job-ok id now s found.0 found.1 there).0 in
      lease_job-IsSoundState id lease_id miner deadline found.0 found.1 s s'
        (Every-lookup IsSound id found.0 s.jobs all job) all made
  transition-IsSoundState network (complete id lease_id miner output commitment now key signature) s
        s' all h =
      let (_, h₁) = throw_if-ok (not (is_identifier id)) _ _ s' h in
      let (found, there, made) = bind-ok (find_job id now s) _ s' h₁ in
      let (job, _, live, _) = find_job-ok id now s found.0 found.1 there in
      complete_job-IsSoundState id lease_id miner output commitment key signature found.0 found.1 s
        s' live (Every-lookup IsSound id found.0 s.jobs all job) all made

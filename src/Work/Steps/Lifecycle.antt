-- ===== src/Work/Steps/Lifecycle.antt =====
-- The life of a job as a diagram, which the transitions follow.
use junctiongenerator.Base.{
  ℕ, ◌≡◌, refl, ap, ◌∙◌, false, not, Option, none, some, arith, ok, bind-ok, throw_if-ok,
  if◌then◌else◌, Bool-cases, inl, inr, length,
}
use junctiongenerator.Base.Texts.{Bytes, Text, text_eq, text_eq_iff}
use junctiongenerator.Base.Maps.{TextMap, lookup, insert, lookup-insert}
use junctiongenerator.Spending.Signatures.{PqLibrary}
use junctiongenerator.Work.{
  refunded, Reservation, Lease, WorkJob, WorkEvent, credit, create, refund, lease, complete,
  WorkState, is_identifier, vector_program, vector_input,
}
use junctiongenerator.Work.Steps.{
  refund_to, dispatch, transition, find_job, is_set, is_refunded, set_status,
}
use junctiongenerator.Work.Steps.Accepted.{
  find_job-ok, apply_credit-ok, refund_to-ok, lease_job-ok, complete_job-ok, create_job-ok,
  current_lease-ok,
}
use junctiongenerator.Work.Steps.Sound.{fund-IsSound}

pub data Phase : Type 0 where
  absent waiting leased done returned : Phase

abbrev lease_phase : Option Lease → Phase
lease_phase none = waiting
lease_phase (some l) = leased

abbrev pub job_phase : WorkJob → Phase
job_phase job =
    if is_set job.result
    then done
    else if is_refunded job.reservation
    then returned
    else lease_phase job.lease

abbrev pub phase : Option WorkJob → Phase
phase none = absent
phase (some job) = job_phase job

-- `done` and `returned` have no edge but the one to themselves.
pub data Move : Phase → Phase → Type 0 where
  stay : {p : Phase} → Move p p
  post : Move absent waiting
  assign : Move waiting leased
  finish : Move leased done
  give_back : Move waiting returned
  take_back : Move leased returned

insert-Move :
    (id : Text) (job : WorkJob) (jobs : TextMap WorkJob)
    → Move (phase (lookup id jobs)) (job_phase job)
    → (j : Text) → Move (phase (lookup j jobs)) (phase (lookup j (insert id job jobs)))
insert-Move id job jobs move j = elim (Bool-cases (text_eq id j)) [
  | inl same ↦
      let e = (text_eq_iff id j).0 same in rw (lookup-insert id j job jobs, same) (rw (← e) move)
  | inr other ↦ rw (lookup-insert id j job jobs, other) stay
]

-- A job with no result that is not refunded goes where its new value is.
open_phase :
    (job : WorkJob)
    → job.result ≡ none
    → is_refunded job.reservation ≡ false
    → job_phase job ≡ lease_phase job.lease
open_phase job undone live = ground arith

returns : (l : Option Lease) → Move (lease_phase l) returned
returns none = give_back
returns (some l) = take_back

assigns : (l : Option Lease) → Move (lease_phase l) leased
assigns none = assign
assigns (some l) = stay

refund_to-Move :
    (id buyer : Text) (job : WorkJob) (time : ℕ) (s s' : WorkState) (r : Option Reservation)
    → lookup id s.jobs ≡ some job
    → job.reservation ≡ r
    → job.result ≡ none
    → is_refunded r ≡ false
    → refund_to id buyer job time s r ≡ ok s'
    → (j : Text) → Move (phase (lookup j s.jobs)) (phase (lookup j s'.jobs))
unfolding refund_to
refund_to-Move id buyer job time s s' none found own undone live h = cc
refund_to-Move id buyer job time s s' (some r) found own undone live h =
    let (n, _, _, _, made) = refund_to-ok id buyer job time s s' r h in
    let back : WorkJob = record job { reservation = some (set_status refunded r) } in
    let start : phase (lookup id s.jobs) ≡ lease_phase job.lease = ground (arith, found) in
    let end : job_phase back ≡ returned = ground (arith, undone) in
    rw made (insert-Move id back s.jobs (rw (start, end) (returns job.lease)))

module _ (sha256 : Bytes → Bytes) (lib : PqLibrary) where
  -- Each event that is accepted moves every job along an edge of the diagram, or leaves it where it is.
  pub transition-Move :
      (network : Text) (event : WorkEvent) (s s' : WorkState)
      → transition sha256 lib network event s ≡ ok s'
      → (j : Text) → Move (phase (lookup j s.jobs)) (phase (lookup j s'.jobs))
  unfolding transition dispatch
  transition-Move network (credit id buyer units) s s' h j =
      let (_, h₁) = throw_if-ok (not (is_identifier id)) _ _ s' h in
      let (_, _, _, made) = apply_credit-ok id buyer units s s' h₁ in rw made stay
  transition-Move network (create id job_network epoch left right funding now) s s' h j =
      let (_, h₁) = throw_if-ok (not (is_identifier id)) _ _ s' h in
      let (era, funded, new, pays, made) =
        create_job-ok sha256 lib network id job_network epoch left right funding now s s' h₁ in
      let live = (fund-IsSound funding now s.balances funded pays).1 in
      let job : WorkJob = record {
        job_id = id;
        network = network;
        epoch = era;
        program_digest = vector_program sha256;
        input_commitment = vector_input sha256 left right;
        resource_units = length left;
        left = left;
        right = right;
        lease = none;
        result = none;
        reservation = funded.1;
      } in
      let start : phase (lookup id s.jobs) ≡ absent = ground (arith, new) in
      let end : job_phase job ≡ waiting = ground (arith, live) in
      rw made (insert-Move id job s.jobs (rw (start, end) post) j)
  transition-Move network (refund id buyer now) s s' h j =
      let (_, h₁) = throw_if-ok (not (is_identifier id)) _ _ s' h in
      let (found, there, made) = bind-ok (find_job id now s) _ s' h₁ in
      let (job, undone, live, _) = find_job-ok id now s found.0 found.1 there in
      refund_to-Move id buyer found.0 found.1 s s' found.0.reservation job refl undone live made j
  transition-Move network (lease id lease_id miner deadline now) s s' h j =
      let (_, h₁) = throw_if-ok (not (is_identifier id)) _ _ s' h in
      let (found, there, h₂) = bind-ok (find_job id now s) _ s' h₁ in
      let (job, undone, live, _) = find_job-ok id now s found.0 found.1 there in
      let (end, _, _, _, _, _, _, made) =
        lease_job-ok id lease_id miner deadline found.0 found.1 s s' h₂ in
      let l : Lease = record {
        lease_id = lease_id;
        miner = miner;
        started_at = found.1;
        deadline = end;
      } in
      let held : WorkJob = record found.0 { lease = some l } in
      let start : phase (lookup id s.jobs) ≡ lease_phase found.0.lease =
        rw job (open_phase found.0 undone live) in
      let end' : job_phase held ≡ leased = open_phase held undone live in
      rw made (insert-Move id held s.jobs (rw (start, end') (assigns found.0.lease)) j)
  transition-Move network (complete id lease_id miner output commitment now key signature) s s' h
        j =
      let (_, h₁) = throw_if-ok (not (is_identifier id)) _ _ s' h in
      let (found, there, h₂) = bind-ok (find_job id now s) _ s' h₁ in
      let (job, undone, live, _) = find_job-ok id now s found.0 found.1 there in
      let (l, payment, _, current, _, _, _, _, made) =
        complete_job-ok sha256 lib id lease_id miner output commitment key signature found.0 found.1
          s s' h₂ in
      let held = (current_lease-ok lease_id miner found.1 found.0.lease l current).0 in
      let ended : WorkJob = record found.0 {
        result = some (record { output = output; commitment = commitment });
        reservation = payment.1;
      } in
      let start : phase (lookup id s.jobs) ≡ leased =
        rw job (open_phase found.0 undone live ∙ ap lease_phase held) in
      rw made (insert-Move id ended s.jobs (rw start finish) j)

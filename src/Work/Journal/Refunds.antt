-- ===== src/Work/Journal/Refunds.antt =====
-- The refund of an unfinished job whose lease has ended, in a journal that is not full.
use junctiongenerator.Base.{
  ℕ, ◌+◌, ◌≡◌, refl, sym, ap, ◌∙◌, true, false, none, some, List, [], ◌∷◌, ◌++◌, arith, ok, ok-bind,
  ok-injective, leb, length, ◌≤◌, ◌<◌, if◌then◌else◌,
}
use junctiongenerator.Base.Int.{pos}
use junctiongenerator.Base.Texts.{Bytes, Text, text_eq_refl}
use junctiongenerator.Base.Maps.{lookup, insert, lookup-insert}
use junctiongenerator.Canonical.{int, max_safe_integer}
use junctiongenerator.Spending.Signatures.{PqLibrary}
use junctiongenerator.Work.{
  reserved, refunded, Reservation, WorkEvent, refund, WorkJob, WorkState, is_identifier, integer,
  amount, is_amount, digits_value, balance_of, or_zero,
}
use junctiongenerator.Work.Steps.{
  transition, dispatch, find_job, refund_to, is_leased, is_refunded, set_status, event_job,
}
use junctiongenerator.Work.Steps.Sound.{IsSound, Every-lookup}
use junctiongenerator.Work.Journal.{
  max_events, JournalEntry, Replayed, entry_checksum, read, append,
}
use junctiongenerator.Work.Journal.Replay.{read_conserves, read-append}

abbrev returned_job : WorkJob → Reservation → WorkJob
returned_job job r = record job { reservation = some (set_status refunded r) }

abbrev after_refund : Text → WorkJob → Reservation → WorkState → WorkState
after_refund id job r s = record s {
  balances = insert r.buyer (balance_of r.buyer s.balances + digits_value 0 r.amount) s.balances;
  jobs = insert id (returned_job job r) s.jobs;
}

find_job_ok :
    (id : Text) (now : ℕ) (s : WorkState) (job : WorkJob)
    → now ≤ max_safe_integer
    → lookup id s.jobs ≡ some job
    → job.result ≡ none
    → is_refunded job.reservation ≡ false
    → find_job id (int (pos now)) s ≡ ok (job, now)
unfolding find_job integer
find_job_ok id now s job safe found undone live = ground (arith, found, undone, live)

refund_to_ok :
    (id : Text) (job : WorkJob) (now : ℕ) (s : WorkState) (r : Reservation)
    → is_amount r.amount ≡ true
    → is_leased now job.lease ≡ false
    → refund_to id r.buyer job now s (some r) ≡ ok (after_refund id job r s)
unfolding refund_to amount
refund_to_ok id job now s r valid idle = rw (text_eq_refl r.buyer, valid, idle) refl

module _ (sha256 : Bytes → Bytes) (lib : PqLibrary) (network : Text) where
  refund_ok :
      (id : Text) (job : WorkJob) (now : ℕ) (s : WorkState) (v : Reservation)
      → lookup id s.jobs ≡ some job
      → job.result ≡ none
      → job.reservation ≡ some v
      → v.status ≡ reserved
      → is_identifier id ≡ true
      → now ≤ max_safe_integer
      → is_leased now job.lease ≡ false
      → is_amount v.amount ≡ true
      → transition sha256 lib network (refund id v.buyer (int (pos now))) s
        ≡ ok (after_refund id job v s)
  unfolding transition dispatch
  refund_ok id job now s v found undone funded held named safe idle valid =
      let live : is_refunded job.reservation ≡ false = ground (arith, funded, held) in
      let there = find_job_ok id now s job safe found undone live in
      rw named (
        ok-bind (λ f. refund_to id v.buyer f.0 f.1 s f.0.reservation) there
        ∙ ap (λ x. refund_to id v.buyer job now s x) funded
        ∙ refund_to_ok id job now s v valid idle)

  append_ok :
      (event : WorkEvent) (entries : List JournalEntry) (r : Replayed) (s : WorkState)
      → read sha256 lib network entries ≡ ok r
      → length entries < max_events
      → transition sha256 lib network event r.state ≡ ok s
      → (entries' : List JournalEntry) × (append sha256 lib network event entries
          ≡ ok (entries', lookup (event_job sha256 lib event) s.jobs))
  unfolding append
  append_ok event entries r s before room made =
      let fits : leb max_events (length entries) ≡ false = ground (arith, room) in
      (
        entries
            ++ (record {
              previous = r.previous;
              event = event;
              checksum = entry_checksum sha256 lib network r.previous event;
            }
                ∷ []),
        rw (before, fits, made) refl,
      )

  -- After any journal that is read and not full, the buyer of a job that has no result, whose
  -- reservation is still held and whose lease, if it has one, has ended can append a refund; then the
  -- buyer's balance is larger by the amount of the reservation.
  pub refund_succeeds :
      (entries : List JournalEntry) (r : Replayed) (id : Text) (job : WorkJob) (v : Reservation)
      (now : ℕ)
      → read sha256 lib network entries ≡ ok r
      → length entries < max_events
      → lookup id r.state.jobs ≡ some job
      → job.result ≡ none
      → job.reservation ≡ some v
      → v.status ≡ reserved
      → is_identifier id ≡ true
      → now ≤ max_safe_integer
      → is_leased now job.lease ≡ false
      → (entries' : List JournalEntry) × (r' : Replayed) × (append sha256 lib network
            (refund id v.buyer (int (pos now)))
            entries
          ≡ ok (entries', some (returned_job job v)))
        × (read sha256 lib network entries' ≡ ok r')
        × (balance_of v.buyer r'.state.balances
            ≡ balance_of v.buyer r.state.balances + digits_value 0 v.amount)
  refund_succeeds entries r id job v now before room found undone funded held named safe idle =
      let sound =
        Every-lookup IsSound id job r.state.jobs
          (read_conserves sha256 lib network entries r before).1 found in
      let valid : is_amount v.amount ≡ true = ground (arith, sound.funded, funded) in
      let s' = after_refund id job v r.state in
      let event = refund id v.buyer (int (pos now)) in
      let made = refund_ok id job now r.state v found undone funded held named safe idle valid in
      let (entries', added) = append_ok event entries r s' before room made in
      let (r₀, r', again, after, step, _, _) =
        read-append sha256 lib network event entries entries' (lookup id s'.jobs) added in
      let same : r₀ ≡ r = ok-injective (sym before ∙ again) in
      let state : r'.state ≡ s' =
        ok-injective
          (sym made ∙ ap (λ x. transition sha256 lib network event x.state) (sym same) ∙ step) in
      (
        entries',
        r',
        added
            ∙ ap (λ j. ok (entries', j))
                (lookup-insert id id (returned_job job v) r.state.jobs
                  ∙ ap (λ t. if t then some (returned_job job v) else lookup id r.state.jobs)
                      (text_eq_refl id)),
        after,
        ap (λ x. balance_of v.buyer x.balances) state
            ∙ ap or_zero (
                lookup-insert v.buyer v.buyer
                  (balance_of v.buyer r.state.balances + digits_value 0 v.amount) r.state.balances
                ∙ ap
                    (λ t.
                      if t
                      then some (balance_of v.buyer r.state.balances + digits_value 0 v.amount)
                      else lookup v.buyer r.state.balances)
                    (text_eq_refl v.buyer)),
      )

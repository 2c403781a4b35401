-- ===== src/Work/Steps/Completion.antt =====
-- What a completion that is accepted shows.
use junctiongenerator.Base.{
  ℕ, ◌*◌, ◌≡◌, refl, ap, ◌∙◌, true, not, ◌||◌, ◌==◌, Option, none, some, arith, ok, bind-ok, ◌≤◌,
  ◌<◌, throw_if-ok, length,
}
use junctiongenerator.Base.Texts.{Bytes, Text, text_eq, text_eq_iff}
use junctiongenerator.Base.Hex.{all_hex}
use junctiongenerator.Base.Maps.{lookup}
use junctiongenerator.Canonical.{Number}
use junctiongenerator.Spending.Bonds.{take}
use junctiongenerator.Spending.Signatures.{PqLibrary, pq_verify_hash_signature}
use junctiongenerator.Work.Json.{workkey_prefix}
use junctiongenerator.Work.{
  Lease, WorkJob, WorkState, complete, is_identifier, integer, execute_vector_dot,
  result_commitment, work_miner_identity, signature_hash,
}
use junctiongenerator.Work.Steps.{verify_worker, dispatch, transition, find_job}
use junctiongenerator.Work.Steps.Accepted.{find_job-ok, complete_job-ok, current_lease-ok}

module _ (sha256 : Bytes → Bytes) (lib : PqLibrary) where
  -- The key hashes to the miner's identity, and it has signed the digest of the result.
  abbrev pub IsSigned : WorkJob → Lease → Text → Text → Option Text → Option Text → Type 0
  IsSigned job l miner output key signature =
      (k signed : Text) × (key ≡ some k)
      × (signature ≡ some signed)
      × (work_miner_identity lib k ≡ ok miner)
      × (pq_verify_hash_signature lib signed (signature_hash sha256 lib job l output) k ≡ true)

  verify_worker-IsSigned :
      (job : WorkJob) (l : Lease) (miner output : Text) (key signature : Option Text)
      → verify_worker sha256 lib job l miner output key signature ≡ ok tt
      → text_eq (take 8 miner) workkey_prefix ≡ true
      → IsSigned job l miner output key signature
  unfolding verify_worker
  verify_worker-IsSigned job l miner output (some k) (some signed) h worker =
      let (_, h₁) =
        throw_if-ok
          (not (length signed == lib.signature_size * 2)
            || (length signed == 0 || not (all_hex signed)))
          _ _ tt h in
      let (owner, named, h₂) = bind-ok (work_miner_identity lib k) _ tt h₁ in
      let same : owner ≡ miner = ground (arith, h₂, text_eq_iff owner miner) in
      (k, signed, refl, refl, named ∙ ap ok same, ground (arith, h₂))
  verify_worker-IsSigned job l miner output (some k) none h worker = cc
  verify_worker-IsSigned job l miner output none (some signed) h worker = cc
  verify_worker-IsSigned job l miner output none none h worker = ground arith

  -- A completion is accepted only for a job without a result, from the miner of its lease and under
  -- that lease's id, from the start of the lease and before its deadline, with the dot product of the
  -- job's vectors as the output and the commitment to the job, the lease and the output; and from a
  -- worker key only with a signature of that key on the result.
  pub complete-IsCorrect :
      (network id lease_id miner output commitment : Text) (now : Number)
      (key signature : Option Text) (s s' : WorkState)
      → transition sha256 lib network
          (complete id lease_id miner output commitment now key signature)
          s
        ≡ ok s'
      → (job : WorkJob) × (l : Lease) × (time : ℕ) × (lookup id s.jobs ≡ some job)
        × (job.result ≡ none)
        × (job.lease ≡ some l)
        × (l.lease_id ≡ lease_id)
        × (l.miner ≡ miner)
        × (integer now ≡ ok time)
        × (l.started_at ≤ time)
        × (time < l.deadline)
        × (execute_vector_dot job.left job.right ≡ ok output)
        × (commitment ≡ result_commitment sha256 job l output)
        × (text_eq (take 8 miner) workkey_prefix ≡ true → IsSigned job l miner output key signature)
  unfolding transition dispatch
  complete-IsCorrect network id lease_id miner output commitment now key signature s s' h =
      let (_, h₁) = throw_if-ok (not (is_identifier id)) _ _ s' h in
      let (found, there, h₂) = bind-ok (find_job id now s) _ s' h₁ in
      let (job, undone, _, time) = find_job-ok id now s found.0 found.1 there in
      let (l, _, _, current, run, bound, signed, _, _) =
        complete_job-ok sha256 lib id lease_id miner output commitment key signature found.0 found.1
          s s' h₂ in
      let (held, same_id, same_miner, begun, early) =
        current_lease-ok lease_id miner found.1 found.0.lease l current in
      (
        found.0,
        l,
        found.1,
        job,
        undone,
        held,
        same_id,
        same_miner,
        time,
        begun,
        early,
        run,
        bound,
        verify_worker-IsSigned found.0 l miner output key signature signed,
      )

-- ===== src/Work/Journal/Replay.antt =====
-- What an accepted journal says, and the reading of what is appended to it.
use junctiongenerator.Base.{
  ℕ, ◌+◌, ◌≡◌, refl, ap, ◌∙◌, false, not, ◌||◌, Option, List, [], ◌∷◌, ◌++◌, arith, Result, ok, err,
  ◌>>=◌, bind-ok, throw_if-ok, ok-injective, leb, ltb, length, length-append,
}
use junctiongenerator.Base.Texts.{Bytes, Text, text_eq, text_eq_refl}
use junctiongenerator.Base.Maps.{lookup}
use junctiongenerator.Spending.Signatures.{PqLibrary}
use junctiongenerator.Work.{WorkEvent, WorkJob, WorkState, WorkError}
use junctiongenerator.Work.Steps.{transition, event_job}
use junctiongenerator.Work.Steps.Sound.{IsSoundState, transition-IsSoundState}
use junctiongenerator.Work.Steps.Credits.{worth, issued, transition_conserves}
use junctiongenerator.Work.Journal.{
  max_events, JournalEntry, Replayed, empty_state, entry_checksum, journal_seed, read_entry,
  read_entries, read, append,
}

-- The credits that the entries bring in.
abbrev pub issued_by : List JournalEntry → ℕ
issued_by [] = 0
issued_by (e ∷ es) = issued e.event + issued_by es

module _ (sha256 : Bytes → Bytes) (lib : PqLibrary) (network : Text) where
  read_entry-ok :
      (e : JournalEntry) (r r' : Replayed)
      → read_entry sha256 lib network e r ≡ ok r'
      → (transition sha256 lib network e.event r.state ≡ ok r'.state)
  unfolding read_entry
  read_entry-ok e r r' h =
      let (_, h₁) =
        throw_if-ok
          (not (text_eq e.previous r.previous)
            || not (text_eq e.checksum (entry_checksum sha256 lib network r.previous e.event)))
          _ _ r' h in
      let (s, made, h₂) = bind-ok (transition sha256 lib network e.event r.state) _ r' h₁ in
      rw (ok-injective h₂) made

  read_entries_lem :
      (es : List JournalEntry) (r r' : Replayed)
      → IsSoundState r.state
      → read_entries sha256 lib network es r ≡ ok r'
      → IsSoundState r'.state × (worth r'.state ≡ worth r.state + issued_by es)
  unfolding read_entries
  read_entries_lem [] r r' sound h = rw (ok-injective h) (sound, omega arith)
  read_entries_lem (e ∷ es) r r' sound h =
      let (next, first, rest) = bind-ok (read_entry sha256 lib network e r) _ r' h in
      let made = read_entry-ok e r next first in
      let kept = transition-IsSoundState sha256 lib network e.event r.state next.state sound made in
      let total = transition_conserves sha256 lib network e.event r.state next.state sound made in
      let (sound', total') = read_entries_lem es next r' kept rest in
      (sound', omega (arith, total, total'))

  -- In the state of every journal that is read, the balances and the reservations still held add up to
  -- the credits that the journal's entries issued, and every job is sound.
  pub read_conserves :
      (entries : List JournalEntry) (r : Replayed)
      → read sha256 lib network entries ≡ ok r
      → (worth r.state ≡ issued_by entries) × IsSoundState r.state
  unfolding read
  read_conserves entries r h =
      let (_, h₁) = throw_if-ok (ltb max_events (length entries)) _ _ r h in
      let (sound, total) =
        read_entries_lem entries
          (record { state = empty_state; previous = journal_seed sha256 lib network }) r tt h₁ in
      (omega (arith, total), sound)

  read_entries-append :
      (es more : List JournalEntry) (r : Replayed)
      → read_entries sha256 lib network (es ++ more) r
        ≡ (read_entries sha256 lib network es r >>= read_entries sha256 lib network more)
  unfolding read_entries
  read_entries-append [] more r = refl
  read_entries-append (e ∷ es) more r =
      next (λ r'. read_entries-append es more r') (read_entry sha256 lib network e r)
    where
      next :
          ((r' : Replayed)
            → read_entries sha256 lib network (es ++ more) r'
              ≡ (read_entries sha256 lib network es r' >>= read_entries sha256 lib network more))
          → (m : Result WorkError Replayed)
          → (m >>= λ r'. read_entries sha256 lib network (es ++ more) r') ≡ (
              (m >>= λ r'. read_entries sha256 lib network es r')
              >>= read_entries sha256 lib network more)
      next rest (ok r') = rest r'
      next rest (err x) = refl

  abbrev entry_after : Replayed → WorkEvent → JournalEntry
  entry_after r event = record {
    previous = r.previous;
    event = event;
    checksum = entry_checksum sha256 lib network r.previous event;
  }

  read_entry_after :
      (r : Replayed) (event : WorkEvent) (s : WorkState)
      → transition sha256 lib network event r.state ≡ ok s
      → read_entries sha256 lib network (entry_after r event ∷ []) r
        ≡ ok (record { state = s; previous = entry_checksum sha256 lib network r.previous event })
  unfolding read_entries read_entry
  read_entry_after r event s made =
      rw
        (
          text_eq_refl r.previous,
          text_eq_refl (entry_checksum sha256 lib network r.previous event),
          made,
        )
        refl

  -- What `append` returns is the journal with one entry more, which reads back to the state that the
  -- event makes of the state read before; the job returned is that of the event in it.
  pub read-append :
      (event : WorkEvent) (entries entries' : List JournalEntry) (job : Option WorkJob)
      → append sha256 lib network event entries ≡ ok (entries', job)
      → (r r' : Replayed) × (read sha256 lib network entries ≡ ok r)
        × (read sha256 lib network entries' ≡ ok r')
        × (transition sha256 lib network event r.state ≡ ok r'.state)
        × (job ≡ lookup (event_job sha256 lib event) r'.state.jobs)
        × (length entries' ≡ length entries + 1)
  unfolding append read
  read-append event entries entries' job h =
      let (r, before, h₁) = bind-ok (read sha256 lib network entries) _ (entries', job) h in
      let (room, h₂) = throw_if-ok (leb max_events (length entries)) _ _ (entries', job) h₁ in
      let (s, made, h₃) =
        bind-ok (transition sha256 lib network event r.state) _ (entries', job) h₂ in
      let r' : Replayed = record {
        state = s;
        previous = entry_checksum sha256 lib network r.previous event;
      } in
      let start : Replayed = record {
        state = empty_state;
        previous = journal_seed sha256 lib network;
      } in
      let e = entry_after r event in
      let journal : entries' ≡ entries ++ (e ∷ []) = ap (λ p. p.0) (ok-injective h₃) in
      let found : job ≡ lookup (event_job sha256 lib event) s.jobs =
        ap (λ p. p.1) (ok-injective h₃) in
      let size = length-append entries (e ∷ []) in
      let fits : ltb max_events (length (entries ++ (e ∷ []))) ≡ false =
        ground (arith, size, room) in
      let (_, first) = throw_if-ok (ltb max_events (length entries)) _ _ r before in
      let last = read_entry_after r event s made in
      let all =
        read_entries-append entries (e ∷ []) start
        ∙ ap (λ m. m >>= read_entries sha256 lib network (e ∷ [])) first
        ∙ last in
      (r, r', before, rw journal (rw fits all), made, found, rw journal (omega (arith, size)))

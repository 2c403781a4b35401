-- ===== src/Work/Journal.antt =====
-- `AssignedWorkJournal` of assigned-work.ts: the chained entries, their replay and what is appended. An
-- entry is the record that a file holds; the files, their names, sizes and flushes are left out.
pub mod Replay
pub mod Refunds
use junctiongenerator.Base.{
  ℕ, ◌+◌, Bool, true, false, not, ◌||◌, Option, none, some, List, [], ◌∷◌, ◌++◌, map, ltb, leb,
  length, Result, ok, err, ◌>>=◌, ◌>>◌, throw_if,
}
use junctiongenerator.Base.Texts.{Bytes, Text, text_eq}
use junctiongenerator.Base.Maps.{lookup}
use junctiongenerator.Canonical.{Number}
use junctiongenerator.Spending.Signatures.{PqLibrary}
use junctiongenerator.Work.Json.{json_array, json_string, json_number, json_members, hash}
use junctiongenerator.Work.{
  Funding, WorkEvent, credit, create, refund, lease, complete, WorkJob, WorkState, WorkError,
  identifier, balance_of, journal_capacity, corrupt_journal, journal_full,
}
use junctiongenerator.Work.Steps.{transition, event_job}

abbrev pub max_events : ℕ
max_events = 10000

-- "jgc/assigned-journal/v1"
abbrev pub journal_tag : Text
journal_tag =
    b'j' ∷ b'g' ∷ b'c' ∷ b'/' ∷ b'a' ∷ b's' ∷ b's' ∷ b'i' ∷ b'g' ∷ b'n' ∷ b'e' ∷ b'd' ∷ b'-' ∷ b'j'
    ∷ b'o' ∷ b'u' ∷ b'r' ∷ b'n' ∷ b'a' ∷ b'l' ∷ b'/' ∷ b'v' ∷ b'1' ∷ []

-- A member of an object: its name and its value as text.
abbrev pub json_field : Text → Text → Text
json_field name value = json_string name ++ (b':' ∷ value)

-- An object; `json_members` ends with a bracket, so the braces are written here.
unfoldable pub json_fields : List Text → Text
json_fields [] = b'}' ∷ []
json_fields (t ∷ ts) = b',' ∷ (t ++ json_fields ts)

abbrev pub json_object : Text → List Text → Text
json_object first rest = b'{' ∷ (first ++ json_fields rest)

-- The names of the members and the kinds of the events.
abbrev key_kind : Text
key_kind = b'k' ∷ b'i' ∷ b'n' ∷ b'd' ∷ []

abbrev key_job_id : Text
key_job_id = b'j' ∷ b'o' ∷ b'b' ∷ b'I' ∷ b'd' ∷ []

abbrev key_buyer : Text
key_buyer = b'b' ∷ b'u' ∷ b'y' ∷ b'e' ∷ b'r' ∷ []

abbrev key_amount : Text
key_amount = b'a' ∷ b'm' ∷ b'o' ∷ b'u' ∷ b'n' ∷ b't' ∷ []

abbrev key_network : Text
key_network = b'n' ∷ b'e' ∷ b't' ∷ b'w' ∷ b'o' ∷ b'r' ∷ b'k' ∷ []

abbrev key_epoch : Text
key_epoch = b'e' ∷ b'p' ∷ b'o' ∷ b'c' ∷ b'h' ∷ []

abbrev key_left : Text
key_left = b'l' ∷ b'e' ∷ b'f' ∷ b't' ∷ []

abbrev key_right : Text
key_right = b'r' ∷ b'i' ∷ b'g' ∷ b'h' ∷ b't' ∷ []

abbrev key_funding : Text
key_funding = b'f' ∷ b'u' ∷ b'n' ∷ b'd' ∷ b'i' ∷ b'n' ∷ b'g' ∷ []

abbrev key_expires_at : Text
key_expires_at = b'e' ∷ b'x' ∷ b'p' ∷ b'i' ∷ b'r' ∷ b'e' ∷ b's' ∷ b'A' ∷ b't' ∷ []

abbrev key_now : Text
key_now = b'n' ∷ b'o' ∷ b'w' ∷ []

abbrev key_lease_id : Text
key_lease_id = b'l' ∷ b'e' ∷ b'a' ∷ b's' ∷ b'e' ∷ b'I' ∷ b'd' ∷ []

abbrev key_miner : Text
key_miner = b'm' ∷ b'i' ∷ b'n' ∷ b'e' ∷ b'r' ∷ []

abbrev key_deadline : Text
key_deadline = b'd' ∷ b'e' ∷ b'a' ∷ b'd' ∷ b'l' ∷ b'i' ∷ b'n' ∷ b'e' ∷ []

abbrev key_output : Text
key_output = b'o' ∷ b'u' ∷ b't' ∷ b'p' ∷ b'u' ∷ b't' ∷ []

abbrev key_commitment : Text
key_commitment = b'c' ∷ b'o' ∷ b'm' ∷ b'm' ∷ b'i' ∷ b't' ∷ b'm' ∷ b'e' ∷ b'n' ∷ b't' ∷ []

abbrev key_public_key : Text
key_public_key = b'p' ∷ b'u' ∷ b'b' ∷ b'l' ∷ b'i' ∷ b'c' ∷ b'K' ∷ b'e' ∷ b'y' ∷ []

abbrev key_signature : Text
key_signature = b's' ∷ b'i' ∷ b'g' ∷ b'n' ∷ b'a' ∷ b't' ∷ b'u' ∷ b'r' ∷ b'e' ∷ []

abbrev key_credit : Text
key_credit = b'c' ∷ b'r' ∷ b'e' ∷ b'd' ∷ b'i' ∷ b't' ∷ []

abbrev key_create : Text
key_create = b'c' ∷ b'r' ∷ b'e' ∷ b'a' ∷ b't' ∷ b'e' ∷ []

abbrev key_refund : Text
key_refund = b'r' ∷ b'e' ∷ b'f' ∷ b'u' ∷ b'n' ∷ b'd' ∷ []

abbrev key_lease : Text
key_lease = b'l' ∷ b'e' ∷ b'a' ∷ b's' ∷ b'e' ∷ []

abbrev key_complete : Text
key_complete = b'c' ∷ b'o' ∷ b'm' ∷ b'p' ∷ b'l' ∷ b'e' ∷ b't' ∷ b'e' ∷ []

abbrev text_field : Text → Text → Text
text_field name value = json_field name (json_string value)

abbrev number_field : Text → Number → Text
number_field name value = json_field name (json_number value)

abbrev numbers_field : Text → List Number → Text
numbers_field name values = json_field name (json_array (map json_number values))

abbrev kind_field : Text → Text
kind_field kind = text_field key_kind kind

-- With `now`, which the journal gives where it gives a funding.
abbrev funding_fields : Option Funding → Number → List Text
funding_fields none now = []
funding_fields (some f) now =
    json_field key_funding (
      json_object (text_field key_buyer f.buyer)
        (text_field key_amount f.amount ∷ number_field key_expires_at f.expires_at ∷ []))
    ∷ number_field key_now now
    ∷ []

-- `JSON.stringify(event)`, with the members in the order in which the methods write them. A key and a
-- signature are given together.
unfoldable pub event_json : WorkEvent → Text
event_json (credit id buyer amount) =
    json_object (kind_field key_credit)
      (text_field key_job_id id ∷ text_field key_buyer buyer ∷ text_field key_amount amount ∷ [])
event_json (create id network epoch left right funding now) = json_object (kind_field key_create) (
    text_field key_job_id id
    ∷ text_field key_network network
    ∷ number_field key_epoch epoch
    ∷ numbers_field key_left left
    ∷ numbers_field key_right right
    ∷ funding_fields funding now)
event_json (refund id buyer now) =
    json_object (kind_field key_refund)
      (text_field key_job_id id ∷ text_field key_buyer buyer ∷ number_field key_now now ∷ [])
event_json (lease id lease_id miner deadline now) = json_object (kind_field key_lease) (
    text_field key_job_id id
    ∷ text_field key_miner miner
    ∷ text_field key_lease_id lease_id
    ∷ number_field key_now now
    ∷ number_field key_deadline deadline
    ∷ [])
event_json (complete id lease_id miner output commitment now (some key) (some signature)) =
    json_object (kind_field key_complete) (
      text_field key_job_id id
      ∷ text_field key_miner miner
      ∷ text_field key_public_key key
      ∷ text_field key_lease_id lease_id
      ∷ text_field key_output output
      ∷ text_field key_commitment commitment
      ∷ text_field key_signature signature
      ∷ number_field key_now now
      ∷ [])
event_json (complete id lease_id miner output commitment now _ _) =
    json_object (kind_field key_complete) (
      text_field key_job_id id
      ∷ text_field key_miner miner
      ∷ text_field key_lease_id lease_id
      ∷ text_field key_output output
      ∷ text_field key_commitment commitment
      ∷ number_field key_now now
      ∷ [])

pub record JournalEntry : Type 0 where
  pub previous : Text
  pub event : WorkEvent
  pub checksum : Text

pub record Replayed : Type 0 where
  pub state : WorkState
  pub previous : Text

abbrev pub empty_state : WorkState
empty_state = record { jobs = []; balances = []; credits = [] }

module _ (sha256 : Bytes → Bytes) (lib : PqLibrary) (network : Text) where
  unfoldable pub entry_checksum : Text → WorkEvent → Text
  entry_checksum previous event =
      hash sha256 (json_array (json_string previous ∷ event_json event ∷ []))

  abbrev pub journal_seed : Text
  journal_seed = hash sha256 (json_array (json_string journal_tag ∷ json_string network ∷ []))

  unfoldable pub read_entry : JournalEntry → Replayed → Result WorkError Replayed
  read_entry e r = do
    throw_if
        (not (text_eq e.previous r.previous)
          || not (text_eq e.checksum (entry_checksum r.previous e.event)))
        corrupt_journal
    s ← transition sha256 lib network e.event r.state
    ok (record { state = s; previous = e.checksum })

  -- The `for` over the files.
  unfoldable pub read_entries : List JournalEntry → Replayed → Result WorkError Replayed
  read_entries [] r = ok r
  read_entries (e ∷ es) r = do next ← read_entry e r; read_entries es next

  unfoldable pub read : List JournalEntry → Result WorkError Replayed
  read entries = do
    throw_if (ltb max_events (length entries)) journal_capacity
    read_entries entries (record { state = empty_state; previous = journal_seed })

  -- The journal with the new entry, and the job of the event; a credit returns none.
  unfoldable pub append :
      WorkEvent → List JournalEntry → Result WorkError (List JournalEntry × Option WorkJob)
  append event entries = do
    r ← read entries
    throw_if (leb max_events (length entries)) journal_full
    s ← transition sha256 lib network event r.state
    ok (
      entries
          ++ (record {
            previous = r.previous;
            event = event;
            checksum = entry_checksum r.previous event;
          }
              ∷ []),
      lookup (event_job sha256 lib event) s.jobs,
    )

  unfoldable pub balance : Text → List JournalEntry → Result WorkError ℕ
  balance account entries = do
    identifier account
    r ← read entries
    ok (balance_of account r.state.balances)

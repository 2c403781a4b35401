-- ===== src/PeerGuard.antt =====
-- packages/jgc-node/src/network/peer-guard.ts: the admission of peers and the accounting of their abuse.
-- The clock is read once per call and is an argument; `peerHost`, which rests on the platform's URL
-- parser, is a parameter.
pub mod Bans
pub mod Refusal
pub mod Bounds
pub mod Limits
mod Examples
use junctiongenerator.Base.{
  ℕ, ◌+◌, ◌-◌, Bool, true, false, not, ◌&&◌, ◌||◌, Option, none, some, List, [], ◌∷◌, ltb, leb,
  ◌==◌, if◌then◌else◌, length,
}
use junctiongenerator.Base.Texts.{Text}
use junctiongenerator.Base.Maps.{TextMap, lookup, insert, erase}

pub record PeerGuardPolicy : Type 0 where
  pub max_inbound_per_host : ℕ
  pub messages_per_window : ℕ
  pub message_window_ms : ℕ
  pub ban_score : ℕ
  pub ban_duration_ms : ℕ

abbrev pub default_peer_guard_policy : PeerGuardPolicy
default_peer_guard_policy = record {
  max_inbound_per_host = 4;
  messages_per_window = 120;
  message_window_ms = 10_000;
  ban_score = 100;
  ban_duration_ms = 900_000;
}

-- A time in milliseconds, or `Infinity`.
pub data Until : Type 0 where
  time : ℕ → Until
  infinity : Until

-- `until > now`
abbrev pub is_after : Until → ℕ → Bool
is_after (time t) now = ltb now t
is_after infinity now = true

pub record HostState : Type 0 where
  pub inbound : ℕ
  pub connections : ℕ
  pub last_seen : ℕ
  pub score : ℕ
  pub banned_until : Until

abbrev pub max_peer_guard_hosts : ℕ
max_peer_guard_hosts = 4096

pub record MessageBucket : Type 0 where
  pub started_at : ℕ
  pub count : ℕ

pub data PeerViolation : Type 0 where
  malformed_frame message_flood invalid_data : PeerViolation

unfoldable pub penalty : PeerViolation → ℕ
penalty malformed_frame = 20
penalty message_flood = 50
penalty invalid_data = 10

pub record PeerGuard : Type 0 where
  pub hosts : TextMap HostState
  pub buckets : TextMap MessageBucket

-- A host that is seen for the first time.
abbrev pub fresh : ℕ → Until → HostState
fresh now banned_until = record {
  inbound = 0;
  connections = 0;
  last_seen = now;
  score = 0;
  banned_until = banned_until;
}

-- `bannedUntil !== 0 && bannedUntil <= now`: then the ban and the score are cleared.
unfoldable pub expire_ban : ℕ → HostState → HostState
expire_ban now s = if is_after s.banned_until now then s else elim s.banned_until [
  | time t ↦ if t == 0 then s else record s { banned_until = time 0; score = 0 }
  | infinity ↦ s
]

-- The state of a host, the map, and whether the state stands in it: one that does not is lost.
pub record Visit : Type 0 where
  pub state : HostState
  pub hosts : TextMap HostState
  pub stored : Bool

abbrev pub create : ℕ → Text → TextMap HostState → Visit
create now host m = record {
  state = fresh now (time 0);
  hosts = insert host (fresh now (time 0)) m;
  stored = true;
}

abbrev pub refuse : ℕ → TextMap HostState → Visit
refuse now m = record { state = fresh now infinity; hosts = m; stored = false }

abbrev pub make_room : ℕ → Text → TextMap HostState → Visit
make_room now host m =
    if leb max_peer_guard_hosts (length m) then refuse now m else create now host m

-- What a method does with the state it was given is written to the map, if it stands there.
abbrev pub update : Text → Visit → HostState → TextMap HostState
update host v s = if v.stored then insert host s v.hosts else v.hosts

-- `release` on the state of the host; subtraction stops at 0.
unfoldable pub release_state : Bool → HostState → HostState
release_state inbound s = record s {
  inbound = if inbound then s.inbound - 1 else s.inbound;
  connections = s.connections - 1;
}

module _ (policy : PeerGuardPolicy) where
  -- An entry that makes room for another host.
  abbrev pub is_idle : ℕ → HostState → Bool
  is_idle now old =
      old.connections == 0
      && (not (is_after old.banned_until now) && leb (old.last_seen + policy.ban_duration_ms) now)

  -- The `for` over the hosts when the map is full.
  unfoldable pub sweep : ℕ → TextMap HostState → TextMap HostState
  sweep now [] = []
  sweep now ((k, old) ∷ m) = if is_idle now old then sweep now m else (k, old) ∷ sweep now m

  abbrev pub visit_found : ℕ → Text → TextMap HostState → Option HostState → Visit
  visit_found now host m (some s) = record {
    state = record s { last_seen = now };
    hosts = insert host (record s { last_seen = now }) m;
    stored = true;
  }
  visit_found now host m none =
      if leb max_peer_guard_hosts (length m)
      then make_room now host (sweep now m)
      else create now host m

  -- `state(host)`
  unfoldable pub visit : ℕ → Text → TextMap HostState → Visit
  visit now host m = visit_found now host m (lookup host m)

  -- `admit` on the state of the host.
  unfoldable pub admit_state : ℕ → Bool → HostState → HostState × Bool
  admit_state now inbound s =
      let s' = expire_ban now s in
      if is_after s'.banned_until now
      then (s', false)
      else if inbound && leb policy.max_inbound_per_host s'.inbound
      then (s', false)
      else (
        record s' {
          inbound = if inbound then s'.inbound + 1 else s'.inbound;
          connections = s'.connections + 1;
        },
        true,
      )

  -- `penalize` on the state of the host.
  unfoldable pub penalize_state : ℕ → PeerViolation → HostState → HostState × Bool
  penalize_state now violation s =
      let s' = expire_ban now s in
      let score = s'.score + penalty violation in
      if ltb score policy.ban_score
      then (record s' { score = score }, false)
      else (record s' { score = 0; banned_until = time (now + policy.ban_duration_ms) }, true)

  -- The message bucket of the peer: a new one once the window is over.
  abbrev pub current_bucket : ℕ → Option MessageBucket → MessageBucket
  current_bucket now none = record { started_at = now; count = 0 }
  current_bucket now (some b) =
      if leb (b.started_at + policy.message_window_ms) now
      then record { started_at = now; count = 0 }
      else b

  module _ (peer_host : Text → Text) where
    unfoldable pub admit : ℕ → Text → Bool → PeerGuard → PeerGuard × Bool
    admit now address inbound g =
        let host = peer_host address in
        let v = visit now host g.hosts in
        let (s, admitted) = admit_state now inbound v.state in
        (record g { hosts = update host v s }, admitted)

    unfoldable pub release : ℕ → Text → Bool → PeerGuard → PeerGuard
    release now address inbound g =
        let host = peer_host address in
        let v = visit now host g.hosts in
        record g { hosts = update host v (release_state inbound v.state) }

    unfoldable pub penalize : ℕ → Text → PeerViolation → PeerGuard → PeerGuard × Bool
    penalize now address violation g =
        let host = peer_host address in
        let v = visit now host g.hosts in
        let (s, banned) = penalize_state now violation v.state in
        (record g { hosts = update host v s }, banned)

    unfoldable pub is_banned : ℕ → Text → PeerGuard → PeerGuard × Bool
    is_banned now address g =
        let host = peer_host address in
        let v = visit now host g.hosts in
        let s = expire_ban now v.state in
        (record g { hosts = update host v s }, is_after s.banned_until now)

    -- The rest of `allowMessage` for a host that is not banned.
    unfoldable pub count_message : ℕ → Text → Text → PeerGuard → PeerGuard × Bool
    count_message now peer_id address g =
        let b = current_bucket now (lookup peer_id g.buckets) in
        let b' = record b { count = b.count + 1 } in
        let g' = record g { buckets = insert peer_id b' g.buckets } in
        if leb b'.count policy.messages_per_window
        then (g', true)
        else ((penalize now address message_flood g').0, false)

    unfoldable pub allow_message : ℕ → Text → Text → PeerGuard → PeerGuard × Bool
    allow_message now peer_id address g =
        let (g', banned) = is_banned now address g in
        if banned then (g', false) else count_message now peer_id address g'

unfoldable pub forget_peer : Text → PeerGuard → PeerGuard
forget_peer peer_id g = record g { buckets = erase peer_id g.buckets }

-- A call of one of the methods.
pub data Call : Type 0 where
  admit_call release_call : Text → Bool → Call
  penalize_call : Text → PeerViolation → Call
  allow_call : Text → Text → Call
  banned_call forget_call : Text → Call

-- The guard after a call.
unfoldable pub step : PeerGuardPolicy → (Text → Text) → ℕ → Call → PeerGuard → PeerGuard
step policy peer_host now (admit_call address inbound) g =
    (admit policy peer_host now address inbound g).0
step policy peer_host now (release_call address inbound) g =
    release policy peer_host now address inbound g
step policy peer_host now (penalize_call address violation) g =
    (penalize policy peer_host now address violation g).0
step policy peer_host now (allow_call peer_id address) g =
    (allow_message policy peer_host now peer_id address g).0
step policy peer_host now (banned_call address) g = (is_banned policy peer_host now address g).0
step policy peer_host now (forget_call peer_id) g = forget_peer peer_id g

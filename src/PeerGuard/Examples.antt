-- ===== src/PeerGuard/Examples.antt =====
-- Runs of the guard with its default policy, and its theorems at a concrete state.
use junctiongenerator.Base.{ℕ, List, ◌≡◌, refl, true, false, [], ◌∷◌, arith}
use junctiongenerator.Base.Texts.{Text, text_eq}
use junctiongenerator.Base.Maps.{lookup, insert}
use junctiongenerator.PeerGuard.{
  default_peer_guard_policy, time, HostState, malformed_frame, message_flood, PeerGuard, penalty,
  expire_ban, visit, admit_state, penalize_state, admit, penalize, is_banned, penalize_call,
  allow_call, step, admit_call, Call, allow_message,
}
use junctiongenerator.PeerGuard.Refusal.{run, ban_lasts}
use junctiongenerator.PeerGuard.Bounds.{IsBounded}
use junctiongenerator.PeerGuard.Limits.{step-IsBounded}

abbrev peer_host : Text → Text
peer_host address = address

abbrev alice : Text
alice = b'a' ∷ []

abbrev bob : Text
bob = b'b' ∷ []

abbrev banned_state : HostState
banned_state = record {
  inbound = 1;
  connections = 2;
  last_seen = 50;
  score = 0;
  banned_until = time 1000;
}

abbrev full_state : HostState
full_state = record {
  inbound = 4;
  connections = 4;
  last_seen = 50;
  score = 60;
  banned_until = time 0;
}

abbrev guard : PeerGuard
guard = record { hosts = (alice, banned_state) ∷ (bob, full_state) ∷ []; buckets = [] }

-- A host with four inbound connections is not given a fifth one, but an outbound one.
fifth_inbound : (admit default_peer_guard_policy peer_host 100 bob true guard).1 ≡ false
unfolding admit visit lookup insert text_eq admit_state expire_ban
fifth_inbound = refl

outbound : (admit default_peer_guard_policy peer_host 100 bob false guard).1 ≡ true
unfolding admit visit lookup insert text_eq admit_state expire_ban
outbound = refl

-- A score of 60 and two malformed frames make a ban, which has expired fifteen minutes later.
second_frame :
    let (g, first) = penalize default_peer_guard_policy peer_host 100 bob malformed_frame guard in
    let (h, second) = penalize default_peer_guard_policy peer_host 100 bob malformed_frame g in
    (first ≡ false)
    × (second ≡ true)
    × ((is_banned default_peer_guard_policy peer_host 900_099 bob h).1 ≡ true)
    × ((is_banned default_peer_guard_policy peer_host 900_100 bob h).1 ≡ false)
unfolding penalize visit lookup insert text_eq penalize_state expire_ban penalty is_banned
second_frame = (refl, refl, refl, refl)

guard-IsBounded : IsBounded default_peer_guard_policy 100 guard.hosts
guard-IsBounded = record { count = omega arith; modest = (omega arith, (omega arith, tt)) }

abbrev flooded_guard : PeerGuard
flooded_guard = record guard { hosts = (bob, full_state) ∷ [] }

-- A flood brings bob's score from 60 to 110.
flood_banned :
    (penalize default_peer_guard_policy peer_host 100 bob message_flood flooded_guard).1 ≡ true
unfolding penalize visit lookup insert text_eq penalize_state expire_ban penalty
flood_banned = refl

bob_stored : (visit default_peer_guard_policy 100 bob flooded_guard.hosts).stored ≡ true
unfolding visit lookup text_eq
bob_stored = refl

-- Two more calls of bob while he is banned, one of them a flood.
abbrev calls_of_bob : List (ℕ × Call)
calls_of_bob = (200, admit_call bob true) ∷ (300, penalize_call bob message_flood) ∷ []

ban_lasts_example :
    let g =
      run default_peer_guard_policy peer_host calls_of_bob
        (penalize default_peer_guard_policy peer_host 100 bob message_flood flooded_guard).0 in
    ((admit default_peer_guard_policy peer_host 900_099 bob true g).1 ≡ false)
    × ((allow_message default_peer_guard_policy peer_host 900_099 alice bob g).1 ≡ false)
    × ((is_banned default_peer_guard_policy peer_host 900_099 bob g).1 ≡ true)
ban_lasts_example =
    ban_lasts default_peer_guard_policy peer_host 100 bob bob alice message_flood true flooded_guard
      calls_of_bob 900_099 bob_stored flood_banned
      (omega arith, omega arith, (omega arith, omega arith, tt)) refl (omega arith)

step-IsBounded_example :
    IsBounded default_peer_guard_policy 100
      (step default_peer_guard_policy peer_host 100 (allow_call alice bob) guard).hosts
step-IsBounded_example =
    step-IsBounded default_peer_guard_policy 100 peer_host (allow_call alice bob) guard
      guard-IsBounded

-- ===== src/PeerGuard/Limits.antt =====
-- The limits on hosts and on inbound connections, call by call.
use junctiongenerator.Base.{
  ℕ, ◌+◌, ◌≡◌, inl, inr, Bool, true, false, ◌&&◌, arith, ltb, leb, Bool-cases, if◌then◌else◌,
}
use junctiongenerator.Base.Texts.{Text}
use junctiongenerator.PeerGuard.{
  PeerGuardPolicy, is_after, HostState, PeerViolation, message_flood, PeerGuard, expire_ban,
  admit_state, release_state, penalize_state, penalty, admit, release, penalize, is_banned,
  count_message, allow_message, forget_peer, Call, admit_call, release_call, penalize_call,
  allow_call, banned_call, forget_call, step,
}
use junctiongenerator.PeerGuard.Bounds.{IsModest, IsBounded, update-IsBounded}

module _ (policy : PeerGuardPolicy) (now : ℕ) where
  expire_ban-inbound : (s : HostState) → (expire_ban now s).inbound ≡ s.inbound
  unfolding expire_ban
  expire_ban-inbound s = ground arith

  admit_state-IsModest :
      (inbound : Bool) (s : HostState)
      → IsModest policy now s
      → IsModest policy now (admit_state policy now inbound s).0
  unfolding admit_state
  admit_state-IsModest inbound s h =
      let same = expire_ban-inbound s in
      elim (Bool-cases (is_after (expire_ban now s).banned_until now)) [
        | inl banned ↦ rw banned (omega arith)
        | inr free ↦
            elim (Bool-cases
              (inbound && leb policy.max_inbound_per_host (expire_ban now s).inbound)) [
                | inl full ↦ rw (free, full) (omega arith)
                | inr room ↦ rw (free, room) (ground arith)
              ]
      ]

  release_state-IsModest :
      (inbound : Bool) (s : HostState)
      → IsModest policy now s
      → IsModest policy now (release_state inbound s)
  unfolding release_state
  release_state-IsModest true s h = omega arith
  release_state-IsModest false s h = h

  penalize_state-IsModest :
      (violation : PeerViolation) (s : HostState)
      → IsModest policy now s
      → IsModest policy now (penalize_state policy now violation s).0
  unfolding penalize_state
  penalize_state-IsModest violation s h =
      let same = expire_ban-inbound s in
      elim (Bool-cases (ltb ((expire_ban now s).score + penalty violation) policy.ban_score)) [
        | inl below ↦ rw below (omega arith)
        | inr reached ↦ rw reached (omega arith)
      ]

  expire_ban-IsModest :
      (s : HostState) → IsModest policy now s → IsModest policy now (expire_ban now s)
  expire_ban-IsModest s h = let same = expire_ban-inbound s in omega arith

  choose-IsBounded :
      (c : Bool) (x y : PeerGuard × Bool)
      → IsBounded policy now x.0.hosts
      → IsBounded policy now y.0.hosts
      → IsBounded policy now (if c then x else y).0.hosts
  choose-IsBounded true x y bx by = bx
  choose-IsBounded false x y bx by = by

  module _ (peer_host : Text → Text) where
    penalize-IsBounded :
        (address : Text) (violation : PeerViolation) (g : PeerGuard)
        → IsBounded policy now g.hosts
        → IsBounded policy now (penalize policy peer_host now address violation g).0.hosts
    unfolding penalize
    penalize-IsBounded address violation g b =
        update-IsBounded policy now (peer_host address) g.hosts
          (λ s. (penalize_state policy now violation s).0) (penalize_state-IsModest violation) b

    is_banned-IsBounded :
        (address : Text) (g : PeerGuard)
        → IsBounded policy now g.hosts
        → IsBounded policy now (is_banned policy peer_host now address g).0.hosts
    unfolding is_banned
    is_banned-IsBounded address g b =
        update-IsBounded policy now (peer_host address) g.hosts (expire_ban now) expire_ban-IsModest
          b

    count_message-IsBounded :
        (peer_id address : Text) (g : PeerGuard)
        → IsBounded policy now g.hosts
        → IsBounded policy now (count_message policy peer_host now peer_id address g).0.hosts
    unfolding count_message
    count_message-IsBounded peer_id address g b =
        choose-IsBounded (leb _ policy.messages_per_window) _ _ b
          (penalize-IsBounded address message_flood _ b)

    -- Every call keeps at most 4096 hosts, none with more inbound connections than the policy allows.
    pub step-IsBounded :
        (call : Call) (g : PeerGuard)
        → IsBounded policy now g.hosts
        → IsBounded policy now (step policy peer_host now call g).hosts
    unfolding step admit release allow_message forget_peer
    step-IsBounded (admit_call address inbound) g b =
        update-IsBounded policy now (peer_host address) g.hosts
          (λ s. (admit_state policy now inbound s).0) (admit_state-IsModest inbound) b
    step-IsBounded (release_call address inbound) g b =
        update-IsBounded policy now (peer_host address) g.hosts (release_state inbound)
          (release_state-IsModest inbound) b
    step-IsBounded (penalize_call address violation) g b = penalize-IsBounded address violation g b
    step-IsBounded (allow_call peer_id address) g b =
        let seen = is_banned-IsBounded address g b in
        choose-IsBounded (is_banned policy peer_host now address g).1 _ _ seen
          (count_message-IsBounded peer_id address _ seen)
    step-IsBounded (banned_call address) g b = is_banned-IsBounded address g b
    step-IsBounded (forget_call peer_id) g b = b

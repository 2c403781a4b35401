-- ===== src/PeerGuard/Refusal.antt =====
-- A stored ban, and the calls that are made before it expires.
use junctiongenerator.Base.{
  ℕ, ◌+◌, ◌≤◌, ◌<◌, ◌≡◌, refl, List, [], ◌∷◌, sym, ap, subst, inl, inr, Bool, true, false, arith,
  ltb, leb, Bool-cases, if◌then◌else◌,
}
use junctiongenerator.Base.Texts.{Text}
use junctiongenerator.Base.Maps.{TextMap}
use junctiongenerator.PeerGuard.{
  PeerGuardPolicy, is_after, HostState, PeerViolation, message_flood, PeerGuard, expire_ban,
  visit_found, visit, admit_state, release_state, penalize_state, penalty, admit, release, penalize,
  is_banned, count_message, allow_message, forget_peer, Call, admit_call, release_call,
  penalize_call, allow_call, banned_call, forget_call, step,
}
use junctiongenerator.PeerGuard.Bans.{
  reaches, reaches-is_after, IsBanned, insert-IsBanned, update-IsBanned,
}

module _ (policy : PeerGuardPolicy) (now deadline : ℕ) (early : now < deadline) where
  choose-IsBanned :
      (host : Text) (c : Bool) (x y : PeerGuard × Bool)
      → IsBanned deadline host x.0.hosts
      → IsBanned deadline host y.0.hosts
      → IsBanned deadline host (if c then x else y).0.hosts
  choose-IsBanned host true x y bx by = bx
  choose-IsBanned host false x y bx by = by

  reaches-active :
      (s : HostState) → reaches s.banned_until deadline ≡ true → is_after s.banned_until now ≡ true
  reaches-active s r = reaches-is_after s.banned_until now deadline early r

  expire_ban-active : (s : HostState) → is_after s.banned_until now ≡ true → expire_ban now s ≡ s
  unfolding expire_ban
  expire_ban-active s a = rw a

  abbrev Keeps : (HostState → HostState) → Type 0
  Keeps f =
      (s : HostState)
      → reaches s.banned_until deadline ≡ true
      → reaches (f s).banned_until deadline ≡ true

  expire_ban-Keeps : Keeps (expire_ban now)
  expire_ban-Keeps s r = rw (expire_ban-active s (reaches-active s r)) r

  -- A banned host is not admitted.
  admit_state-active :
      (inbound : Bool) (s : HostState)
      → is_after s.banned_until now ≡ true
      → admit_state policy now inbound s ≡ (s, false)
  unfolding admit_state
  admit_state-active inbound s a = rw (expire_ban-active s a, a)

  admit_state-Keeps : (inbound : Bool) → Keeps (λ s. (admit_state policy now inbound s).0)
  admit_state-Keeps inbound s r = rw (admit_state-active inbound s (reaches-active s r)) r

  release_state-Keeps : (inbound : Bool) → Keeps (release_state inbound)
  unfolding release_state
  release_state-Keeps inbound s r = r

  penalize_state-Keeps :
      (violation : PeerViolation)
      → deadline ≤ now + policy.ban_duration_ms
      → Keeps (λ s. (penalize_state policy now violation s).0)
  unfolding penalize_state
  penalize_state-Keeps violation d s r =
      elim (Bool-cases (ltb ((expire_ban now s).score + penalty violation) policy.ban_score)) [
        | inl below ↦ rw below (expire_ban-Keeps s r)
        | inr reached ↦ rw reached (ground arith)
      ]

  module _ (peer_host : Text → Text) (host : Text)
      (d : deadline ≤ now + policy.ban_duration_ms) where
    penalize-IsBanned :
        (address : Text) (violation : PeerViolation) (g : PeerGuard)
        → IsBanned deadline host g.hosts
        → IsBanned deadline host (penalize policy peer_host now address violation g).0.hosts
    unfolding penalize
    penalize-IsBanned address violation g b =
        update-IsBanned policy now deadline early host (peer_host address) g.hosts
          (λ s. (penalize_state policy now violation s).0) (penalize_state-Keeps violation d) b

    is_banned-IsBanned :
        (address : Text) (g : PeerGuard)
        → IsBanned deadline host g.hosts
        → IsBanned deadline host (is_banned policy peer_host now address g).0.hosts
    unfolding is_banned
    is_banned-IsBanned address g b =
        update-IsBanned policy now deadline early host (peer_host address) g.hosts (expire_ban now)
          expire_ban-Keeps b

    count_message-IsBanned :
        (peer_id address : Text) (g : PeerGuard)
        → IsBanned deadline host g.hosts
        → IsBanned deadline host (count_message policy peer_host now peer_id address g).0.hosts
    unfolding count_message
    count_message-IsBanned peer_id address g b =
        choose-IsBanned host (leb _ policy.messages_per_window) _ _ b
          (penalize-IsBanned address message_flood _ b)

    -- A ban that reaches the deadline still reaches it after a call, for this host or another one.
    step-IsBanned :
        (call : Call) (g : PeerGuard)
        → IsBanned deadline host g.hosts
        → IsBanned deadline host (step policy peer_host now call g).hosts
    unfolding step admit release allow_message forget_peer
    step-IsBanned (admit_call address inbound) g b =
        update-IsBanned policy now deadline early host (peer_host address) g.hosts
          (λ s. (admit_state policy now inbound s).0) (admit_state-Keeps inbound) b
    step-IsBanned (release_call address inbound) g b =
        update-IsBanned policy now deadline early host (peer_host address) g.hosts
          (release_state inbound) (release_state-Keeps inbound) b
    step-IsBanned (penalize_call address violation) g b = penalize-IsBanned address violation g b
    step-IsBanned (allow_call peer_id address) g b =
        let seen = is_banned-IsBanned address g b in
        choose-IsBanned host (is_banned policy peer_host now address g).1 _ _ seen
          (count_message-IsBanned peer_id address _ seen)
    step-IsBanned (banned_call address) g b = is_banned-IsBanned address g b
    step-IsBanned (forget_call peer_id) g b = b

  -- The state that a method on a banned host is given.
  visit-active :
      (host : Text) (m : TextMap HostState)
      → IsBanned deadline host m
      → is_after (visit policy now host m).state.banned_until now ≡ true
  unfolding visit
  visit-active host m b =
      subst (λ o. is_after (visit_found policy now host m o).state.banned_until now ≡ true)
        (sym b.known) (reaches-active b.state b.active)

  -- While a host is banned it is not admitted, its messages are refused, and it is reported as banned.
  banned_host_refused :
      (peer_host : Text → Text) (address peer_id : Text) (inbound : Bool) (g : PeerGuard)
      → IsBanned deadline (peer_host address) g.hosts
      → ((admit policy peer_host now address inbound g).1 ≡ false)
        × ((allow_message policy peer_host now peer_id address g).1 ≡ false)
        × ((is_banned policy peer_host now address g).1 ≡ true)
  unfolding admit allow_message is_banned
  banned_host_refused peer_host address peer_id inbound g b =
      let host = peer_host address in
      let v = visit policy now host g.hosts in
      let a = visit-active host g.hosts b in
      let reported : is_after (expire_ban now v.state).banned_until now ≡ true =
        rw (expire_ban-active v.state a) a in
      (ap (λ p. p.1) (admit_state-active inbound v.state a), rw reported refl, reported)

-- The guard after the calls, each with its time, in their order.
abbrev pub run : PeerGuardPolicy → (Text → Text) → List (ℕ × Call) → PeerGuard → PeerGuard
run policy peer_host [] g = g
run policy peer_host ((now, call) ∷ calls) g =
    run policy peer_host calls (step policy peer_host now call g)

-- No call is made before the start, and each is made before the deadline.
abbrev pub AreWithin : ℕ → ℕ → List (ℕ × Call) → Type 0
AreWithin start deadline [] = Unit
AreWithin start deadline ((now, call) ∷ calls) =
    (start ≤ now) × (now < deadline) × AreWithin start deadline calls

module _ (policy : PeerGuardPolicy) (peer_host : Text → Text) (start : ℕ) where
  run-IsBanned :
      (deadline : ℕ) (host : Text) (calls : List (ℕ × Call)) (g : PeerGuard)
      → deadline ≤ start + policy.ban_duration_ms
      → AreWithin start deadline calls
      → IsBanned deadline host g.hosts
      → IsBanned deadline host (run policy peer_host calls g).hosts
  run-IsBanned deadline host [] g d w b = b
  run-IsBanned deadline host ((now, call) ∷ calls) g d (late, early, w) b =
      run-IsBanned deadline host calls (step policy peer_host now call g) d w
        (step-IsBanned policy now deadline early peer_host host (omega arith) call g b)

  penalize_state-banned :
      (violation : PeerViolation) (s : HostState)
      → (penalize_state policy start violation s).1 ≡ true
      → reaches
          (penalize_state policy start violation s).0.banned_until
          (start + policy.ban_duration_ms)
        ≡ true
  unfolding penalize_state
  penalize_state-banned violation s h =
      elim (Bool-cases (ltb ((expire_ban start s).score + penalty violation) policy.ban_score)) [
        | inl below ↦ let refused : false ≡ true = rw below at h in cc
        | inr reached ↦ rw reached (ground arith)
      ]

  penalize-IsBanned_new :
      (address : Text) (violation : PeerViolation) (g : PeerGuard)
      → (visit policy start (peer_host address) g.hosts).stored ≡ true
      → (penalize policy peer_host start address violation g).1 ≡ true
      → IsBanned
          (start + policy.ban_duration_ms)
          (peer_host address)
          (penalize policy peer_host start address violation g).0.hosts
  unfolding penalize
  penalize-IsBanned_new address violation g stored h =
      let v = visit policy start (peer_host address) g.hosts in
      let s = (penalize_state policy start violation v.state).0 in
      rw stored (
        insert-IsBanned (start + policy.ban_duration_ms) (peer_host address) s v.hosts
          (penalize_state-banned violation v.state h))

  -- A violation is penalized at the start with a ban, and the host's state stands in the map. Through any
  -- calls from then on that are made before the duration of the ban is over, and at any time before it is
  -- over, an address of this host is not admitted, its messages are refused, and it is reported as banned.
  pub ban_lasts :
      (address other peer_id : Text) (violation : PeerViolation) (inbound : Bool) (g : PeerGuard)
      (calls : List (ℕ × Call)) (now : ℕ)
      → (visit policy start (peer_host address) g.hosts).stored ≡ true
      → (penalize policy peer_host start address violation g).1 ≡ true
      → AreWithin start (start + policy.ban_duration_ms) calls
      → peer_host other ≡ peer_host address
      → now < start + policy.ban_duration_ms
      → let g' =
          run policy peer_host calls (penalize policy peer_host start address violation g).0 in
        ((admit policy peer_host now other inbound g').1 ≡ false)
        × ((allow_message policy peer_host now peer_id other g').1 ≡ false)
        × ((is_banned policy peer_host now other g').1 ≡ true)
  ban_lasts address other peer_id violation inbound g calls now stored banned w same early =
      let deadline = start + policy.ban_duration_ms in
      let penalized = penalize policy peer_host start address violation g in
      let kept =
        run-IsBanned deadline (peer_host address) calls penalized.0 (omega arith) w
          (penalize-IsBanned_new address violation g stored banned) in
      banned_host_refused policy now deadline early peer_host other peer_id inbound
        (run policy peer_host calls penalized.0)
        (subst (λ host. IsBanned deadline host (run policy peer_host calls penalized.0).hosts)
          (sym same) kept)

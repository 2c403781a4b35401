-- ===== src/PeerGuard/Bans.antt =====
-- What becomes of a banned host when a host is visited, and when the map of hosts is swept.
use junctiongenerator.Base.{
  ℕ, ◌<◌, ◌≡◌, refl, sym, ap, ◌∙◌, subst, inl, inr, Bool, true, false, Option, none, some, [], ◌∷◌,
  arith, leb, Bool-cases, if◌then◌else◌, length,
}
use junctiongenerator.Base.Texts.{Text, text_eq, text_eq_iff, text_eq_refl}
use junctiongenerator.Base.Maps.{TextMap, lookup, insert, lookup-insert}
use junctiongenerator.PeerGuard.{
  PeerGuardPolicy, Until, time, infinity, is_after, HostState, fresh, is_idle, sweep, Visit,
  make_room, visit_found, visit, update, max_peer_guard_hosts,
}

-- A ban that does not expire before a time.
abbrev pub reaches : Until → ℕ → Bool
reaches (time t) deadline = leb deadline t
reaches infinity deadline = true

pub reaches-is_after :
    (u : Until) (now deadline : ℕ)
    → now < deadline
    → reaches u deadline ≡ true
    → is_after u now ≡ true
reaches-is_after (time t) now deadline early r = ground arith
reaches-is_after infinity now deadline early r = refl

-- The host is in the map, with a ban that does not expire before the deadline.
pub record IsBanned (deadline : ℕ) (host : Text) (m : TextMap HostState) : Type 0 where
  pub state : HostState
  pub known : lookup host m ≡ some state
  pub active : reaches state.banned_until deadline ≡ true

insert-IsBanned_other :
    (deadline : ℕ) (host other : Text) (s : HostState) (m : TextMap HostState)
    → text_eq other host ≡ false
    → IsBanned deadline host m
    → IsBanned deadline host (insert other s m)
insert-IsBanned_other deadline host other s m d b = record {
  state = b.state;
  known = lookup-insert other host s m ∙ ap (λ e. if e then some s else lookup host m) d ∙ b.known;
  active = b.active;
}

pub insert-IsBanned :
    (deadline : ℕ) (host : Text) (s : HostState) (m : TextMap HostState)
    → reaches s.banned_until deadline ≡ true
    → IsBanned deadline host (insert host s m)
insert-IsBanned deadline host s m a = record {
  state = s;
  known =
      lookup-insert host host s m
      ∙ ap (λ e. if e then some s else lookup host m) (text_eq_refl host);
  active = a;
}

abbrev is_active : ℕ → Option HostState → Bool
is_active now none = false
is_active now (some s) = is_after s.banned_until now

module _ (policy : PeerGuardPolicy) (now deadline : ℕ) (early : now < deadline) where
  sweep-lookup :
      (host : Text) (s : HostState) (m : TextMap HostState)
      → lookup host m ≡ some s
      → is_after s.banned_until now ≡ true
      → lookup host (sweep policy now m) ≡ some s
  unfolding sweep lookup
  sweep-lookup host s [] h a = cc
  sweep-lookup host s ((k, old) ∷ m) h a = elim (Bool-cases (text_eq k host)) [
    | inl same ↦
        let found : Path (Option HostState) (some old) (some s) =
          ap (λ b. if b then some old else lookup host m) (sym same) ∙ h in
        let active : is_after old.banned_until now ≡ true = ap (is_active now) found ∙ a in
        let kept : is_idle policy now old ≡ false = ground arith in rw (kept, same) found
    | inr other ↦
        let found : lookup host m ≡ some s =
          ap (λ b. if b then some old else lookup host m) (sym other) ∙ h in
        let rest = sweep-lookup host s m found a in
        elim (Bool-cases (is_idle policy now old)) [
          | inl idle ↦ rw idle rest
          | inr kept ↦ rw (kept, other) rest
        ]
  ]

  sweep-IsBanned :
      (host : Text) (m : TextMap HostState)
      → IsBanned deadline host m
      → IsBanned deadline host (sweep policy now m)
  sweep-IsBanned host m b = record {
    state = b.state;
    known =
        sweep-lookup host b.state m b.known
          (reaches-is_after b.state.banned_until now deadline early b.active);
    active = b.active;
  }

  make_room-IsBanned :
      (host other : Text) (m : TextMap HostState)
      → text_eq other host ≡ false
      → IsBanned deadline host m
      → IsBanned deadline host (make_room now other m).hosts
  make_room-IsBanned host other m d b = elim (Bool-cases (leb max_peer_guard_hosts (length m))) [
    | inl full ↦ rw full b
    | inr room ↦ rw room (insert-IsBanned_other deadline host other (fresh now (time 0)) m d b)
  ]

  visit_found-IsBanned :
      (host other : Text) (m : TextMap HostState) (o : Option HostState)
      → text_eq other host ≡ false
      → IsBanned deadline host m
      → IsBanned deadline host (visit_found policy now other m o).hosts
  visit_found-IsBanned host other m (some s) d b =
      insert-IsBanned_other deadline host other (record s { last_seen = now }) m d b
  visit_found-IsBanned host other m none d b =
      elim (Bool-cases (leb max_peer_guard_hosts (length m))) [
        | inl full ↦
            rw full (make_room-IsBanned host other (sweep policy now m) d (sweep-IsBanned host m b))
        | inr room ↦ rw room (insert-IsBanned_other deadline host other (fresh now (time 0)) m d b)
      ]

  update_other :
      (host other : Text) (v : Visit) (s : HostState)
      → text_eq other host ≡ false
      → IsBanned deadline host v.hosts
      → IsBanned deadline host (update other v s)
  update_other host other v s d b = elim (Bool-cases v.stored) [
    | inl stored ↦ rw stored (insert-IsBanned_other deadline host other s v.hosts d b)
    | inr lost ↦ rw lost b
  ]

  -- A method on the state of a host keeps the ban, if what it does to a state keeps it.
  pub update-IsBanned :
      (host other : Text) (m : TextMap HostState) (f : HostState → HostState)
      → ((s : HostState)
          → reaches s.banned_until deadline ≡ true
          → reaches (f s).banned_until deadline ≡ true)
      → IsBanned deadline host m
      → IsBanned deadline host
          (update other (visit policy now other m) (f (visit policy now other m).state))
  unfolding visit
  update-IsBanned host other m f keeps b = elim (Bool-cases (text_eq other host)) [
    | inl same ↦
        let e : other ≡ host = (text_eq_iff other host).0 same in
        let found : lookup other m ≡ some b.state = ap (λ k. lookup k m) e ∙ b.known in
        subst (λ v. IsBanned deadline host (update other v (f v.state)))
          (ap (visit_found policy now other m) (sym found))
          (subst
            (λ k. IsBanned deadline k (
              insert other (f (record b.state { last_seen = now }))
                (insert other (record b.state { last_seen = now }) m)))
            e
            (insert-IsBanned deadline other (f (record b.state { last_seen = now }))
              (insert other (record b.state { last_seen = now }) m)
              (keeps (record b.state { last_seen = now }) b.active)))
    | inr differ ↦
        let v = visit policy now other m in
        update_other host other v (f v.state) differ
          (visit_found-IsBanned host other m (lookup other m) differ b)
  ]

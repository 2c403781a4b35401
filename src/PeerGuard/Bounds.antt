-- ===== src/PeerGuard/Bounds.antt =====
-- The number of hosts that the guard remembers, and the inbound connections of each.
use junctiongenerator.Base.{
  ℕ, suc, ◌≤◌, ◌≡◌, refl, sym, ap, ◌∙◌, inl, inr, false, Option, none, some, [], ◌∷◌, arith, leb,
  Bool-cases, if◌then◌else◌, length, ◌⊎◌,
}
use junctiongenerator.Base.Texts.{Text, text_eq, text_eq_refl}
use junctiongenerator.Base.Maps.{TextMap, lookup, insert, lookup-insert}
use junctiongenerator.PeerGuard.{
  PeerGuardPolicy, time, HostState, fresh, is_idle, sweep, Visit, create, make_room, visit_found,
  visit, update, max_peer_guard_hosts,
}

length-insert :
    (k : Text) (s : HostState) (m : TextMap HostState) → length (insert k s m) ≤ suc (length m)
unfolding insert
length-insert k s [] = omega arith
length-insert k s ((j, t) ∷ m) = elim (Bool-cases (text_eq j k)) [
  | inl same ↦ rw same (omega arith)
  | inr other ↦ let rest = length-insert k s m in rw other (omega (arith, rest))
]

length-insert_known :
    (k : Text) (s t : HostState) (m : TextMap HostState)
    → lookup k m ≡ some t
    → length (insert k s m) ≡ length m
unfolding insert lookup
length-insert_known k s t [] h = cc
length-insert_known k s t ((j, u) ∷ m) h = elim (Bool-cases (text_eq j k)) [
  | inl same ↦ rw same refl
  | inr other ↦
      let found : lookup k m ≡ some t =
        ap (λ b. if b then some u else lookup k m) (sym other) ∙ h in
      rw other (ap suc (length-insert_known k s t m found))
]

lookup-insert_self :
    (k : Text) (s : HostState) (m : TextMap HostState) → lookup k (insert k s m) ≡ some s
lookup-insert_self k s m =
    lookup-insert k k s m ∙ ap (λ e. if e then some s else lookup k m) (text_eq_refl k)

abbrev inbound_of : Option HostState → ℕ
inbound_of none = 0
inbound_of (some s) = s.inbound

module _ (policy : PeerGuardPolicy) (now : ℕ) where
  -- No more inbound connections than the policy allows.
  abbrev pub IsModest : HostState → Type 0
  IsModest s = s.inbound ≤ policy.max_inbound_per_host

  abbrev pub AllModest : TextMap HostState → Type 0
  AllModest [] = Unit
  AllModest ((k, s) ∷ m) = IsModest s × AllModest m

  pub record IsBounded (m : TextMap HostState) : Type 0 where
    pub count : length m ≤ max_peer_guard_hosts
    pub modest : AllModest m

  insert-AllModest :
      (k : Text) (s : HostState) (m : TextMap HostState)
      → IsModest s
      → AllModest m
      → AllModest (insert k s m)
  unfolding insert
  insert-AllModest k s [] h a = (h, tt)
  insert-AllModest k s ((j, t) ∷ m) h (b, bs) = elim (Bool-cases (text_eq j k)) [
    | inl same ↦ rw same (h, bs)
    | inr other ↦ rw other (b, insert-AllModest k s m h bs)
  ]

  lookup-IsModest :
      (k : Text) (s : HostState) (m : TextMap HostState)
      → AllModest m
      → lookup k m ≡ some s
      → IsModest s
  unfolding lookup
  lookup-IsModest k s [] a h = cc
  lookup-IsModest k s ((j, t) ∷ m) (b, bs) h = elim (Bool-cases (text_eq j k)) [
    | inl same ↦
        let found : Path (Option HostState) (some t) (some s) =
          ap (λ b. if b then some t else lookup k m) (sym same) ∙ h in
        let same_inbound : t.inbound ≡ s.inbound = ap inbound_of found in
        omega (arith, same_inbound)
    | inr other ↦
        lookup-IsModest k s m bs (ap (λ b. if b then some t else lookup k m) (sym other) ∙ h)
  ]

  sweep-IsBounded :
      (m : TextMap HostState)
      → AllModest m
      → AllModest (sweep policy now m) × (length (sweep policy now m) ≤ length m)
  unfolding sweep
  sweep-IsBounded [] a = (tt, omega arith)
  sweep-IsBounded ((k, s) ∷ m) (b, bs) =
      let (modest, size) = sweep-IsBounded m bs in
      elim (Bool-cases (is_idle policy now s)) [
        | inl idle ↦ rw idle (modest, omega (arith, size))
        | inr kept ↦ rw kept ((b, modest), omega (arith, size))
      ]

  -- What a visit gives: a bounded map, a modest state, and its place in the map if it has one.
  pub record IsVisit (host : Text) (v : Visit) : Type 0 where
    pub bounded : IsBounded v.hosts
    pub modest : IsModest v.state
    pub place : (v.stored ≡ false) ⊎ (lookup host v.hosts ≡ some v.state)

  create-IsVisit :
      (host : Text) (m : TextMap HostState)
      → IsBounded m
      → leb max_peer_guard_hosts (length m) ≡ false
      → IsVisit host (create now host m)
  create-IsVisit host m b room = record {
    bounded = record {
      count = ground (arith, length-insert host (fresh now (time 0)) m);
      modest = insert-AllModest host (fresh now (time 0)) m (omega arith) b.modest;
    };
    modest = omega arith;
    place = inr (lookup-insert_self host (fresh now (time 0)) m);
  }

  make_room-IsVisit :
      (host : Text) (m : TextMap HostState) → IsBounded m → IsVisit host (make_room now host m)
  make_room-IsVisit host m b = elim (Bool-cases (leb max_peer_guard_hosts (length m))) [
    | inl full ↦ rw full (record { bounded = b; modest = omega arith; place = inl refl })
    | inr room ↦ rw room (create-IsVisit host m b room)
  ]

  visit_found-IsVisit :
      (host : Text) (m : TextMap HostState) (o : Option HostState)
      → lookup host m ≡ o
      → IsBounded m
      → IsVisit host (visit_found policy now host m o)
  visit_found-IsVisit host m (some s) h b =
      let modest = lookup-IsModest host s m b.modest h in
      let seen = record s { last_seen = now } in
      record {
        bounded = record {
          count = omega (arith, length-insert_known host seen s m h, b.count);
          modest = insert-AllModest host seen m modest b.modest;
        };
        modest = modest;
        place = inr (lookup-insert_self host seen m);
      }
  visit_found-IsVisit host m none h b = elim (Bool-cases (leb max_peer_guard_hosts (length m))) [
    | inl full ↦
        let (modest, size) = sweep-IsBounded m b.modest in
        rw full (
          make_room-IsVisit host (sweep policy now m)
            (record { count = omega (arith, size, b.count); modest = modest }))
    | inr room ↦ rw room (create-IsVisit host m b room)
  ]

  update_visit-IsBounded :
      (host : Text) (v : Visit) (s : HostState)
      → IsVisit host v
      → IsModest s
      → IsBounded (update host v s)
  update_visit-IsBounded host v s h modest = elim h.place [
    | inl lost ↦ rw lost h.bounded
    | inr there ↦ elim (Bool-cases v.stored) [
      | inl stored ↦ rw stored (record {
        count = omega (arith, length-insert_known host s v.state v.hosts there, h.bounded.count);
        modest = insert-AllModest host s v.hosts modest h.bounded.modest;
      })
      | inr lost ↦ rw lost h.bounded
    ]
  ]

  -- A method on the state of a host keeps the bounds, if what it does to a state keeps it modest.
  pub update-IsBounded :
      (host : Text) (m : TextMap HostState) (f : HostState → HostState)
      → ((s : HostState) → IsModest s → IsModest (f s))
      → IsBounded m
      → IsBounded (update host (visit policy now host m) (f (visit policy now host m).state))
  unfolding visit
  update-IsBounded host m f keeps b =
      let v = visit_found-IsVisit host m (lookup host m) refl b in
      update_visit-IsBounded host (visit policy now host m) (f (visit policy now host m).state) v
        (keeps (visit policy now host m).state v.modest)

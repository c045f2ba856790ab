-- ===== src/Traffic/Bounds.antt =====
-- The table of sessions (src/traffic.rs): its bound.
use llm_provider_router.Prelude.{
  ℕ, ◌+◌, ◌≤◌, Text, true, ◌≡◌, refl, ap, ◌⊎◌, inl, inr, Option, none, some, [], ◌∷◌, arith, leb,
  nat_beq, length, ◌==◌, text_equality, text_eq_iff, Bool-cases, beq_refl, if-cases,
}
use llm_provider_router.Prelude.Dict.{
  lookup, insert, contains_key, Distinct, Distinct-insert, Distinct-remove, lookup-Fresh,
  length-remove,
}
use llm_provider_router.Traffic.{
  max_traffic_sessions, SessionTraffic, Sessions, Traffic, least_active, without, with_room,
  touched, touch_session, by_session, up_counted, down_counted, record_up, record_down_chunk,
}

least_active-lookup :
    (m : Sessions)
    → Distinct m
    → (m ≡ [])
      ⊎ ((k : Text) × (e : SessionTraffic) × (least_active m ≡ some (k, e)) × (lookup k m ≡ some e))
unfolding least_active lookup
least_active-lookup [] d = inl refl
least_active-lookup ((k, e) ∷ m) d = inr (elim (least_active-lookup m d.1) [
  | inl n ↦ (k, e, ground (arith, n), ground (arith, beq_refl k))
  | inr (j, f, o, l) ↦ elim (Bool-cases (leb e.last_activity f.last_activity)) [
    | inl b ↦ (k, e, ground arith, ground (arith, beq_refl k))
    | inr b ↦ (j, f, ground arith, ground (arith, text_eq_iff k j, lookup-Fresh k m d.0))
  ]
])

abbrev pub IsBounded : Sessions → Type 0
IsBounded m = Distinct m × (length m ≤ max_traffic_sessions)

without-room :
    (m : Sessions)
    → IsBounded m
    → leb max_traffic_sessions (length m) ≡ true
    → Distinct (without m (least_active m))
      × (length (without m (least_active m)) + 1 ≤ max_traffic_sessions)
without-room m (d, h) full = elim (least_active-lookup m d) [
  | inl empty ↦ absurd (ground (arith, ap length empty))
  | inr (k, e, o, l) ↦ rw o (Distinct-remove k m d, omega (arith, h, length-remove k e m d l))
]

-- An insertion takes one place at most, and none for a key that is there.
length-insert_new :
    (k : Text) (e : SessionTraffic) (m : Sessions) → length (insert k e m) ≤ length m + 1
unfolding insert
length-insert_new k e [] = omega arith
length-insert_new k e ((j, f) ∷ m) = ground (arith, length-insert_new k e m)

length-insert_again :
    (k : Text) (e : SessionTraffic) (m : Sessions)
    → contains_key k m ≡ true
    → length (insert k e m) ≡ length m
unfolding insert contains_key
length-insert_again k e [] h = absurd (ground (arith, h))
length-insert_again k e ((j, f) ∷ m) h = ground (arith, length-insert_again k e m)

insert-IsBounded :
    (sid : Text) (m : Sessions) (e : SessionTraffic)
    → IsBounded m
    → IsBounded (insert sid e (with_room sid m))
unfolding with_room
insert-IsBounded sid m e (d, h) = elim (Bool-cases (contains_key sid m)) [
  | inl there ↦
      rw there (Distinct-insert sid e m d, omega (arith, h, length-insert_again sid e m there))
  | inr new ↦ elim (Bool-cases (leb max_traffic_sessions (length m))) [
    | inr space ↦
        rw (new, space)
          (Distinct-insert sid e m d, ground (arith, space, length-insert_new sid e m))
    | inl full ↦
        let room = without m (least_active m) in
        let (d', h') = without-room m (d, h) full in
        rw (new, full)
          (Distinct-insert sid e room d', omega (arith, h', length-insert_new sid e room))
  ]
]

by_session-IsBounded :
    (count : SessionTraffic → SessionTraffic) (session : Option Text) (now : ℕ) (m : Sessions)
    → IsBounded m
    → IsBounded (by_session count session now m)
unfolding by_session touch_session
by_session-IsBounded count none now m h = h
by_session-IsBounded count (some sid) now m h =
    if-cases IsBounded (sid == []) m _ h
      (insert-IsBounded sid m (count (touched now (lookup sid (with_room sid m)))) h)

-- The counting of sent and of received bytes keeps the table of sessions at 512 at most, each of them
-- once, whichever session, and whether or not there is one.
pub sessions-IsBounded :
    (now bytes : ℕ) (session : Option Text) (t : Traffic)
    → Distinct t.sessions
    → length t.sessions ≤ max_traffic_sessions
    → IsBounded (record_up now session bytes t).sessions
      × IsBounded (record_down_chunk now session bytes t).sessions
unfolding record_up record_down_chunk
sessions-IsBounded now bytes session t d h = (
  if-cases (λ (s : Traffic). IsBounded s.sessions) (nat_beq bytes 0) t _ (d, h)
      (by_session-IsBounded (up_counted now bytes) session now t.sessions (d, h)),
  if-cases (λ (s : Traffic). IsBounded s.sessions) (nat_beq bytes 0) t _ (d, h)
      (by_session-IsBounded (down_counted now bytes) session now t.sessions (d, h)),
)

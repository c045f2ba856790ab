-- ===== src/Responses/Store/Meanwhile.antt =====
-- A response stays in the store for half an hour, whatever happens to others while there is room.
use llm_provider_router.Prelude.{
  ℕ, suc, zero, ◌==◌, ◌+◌, ◌≤◌, ◌<◌, Text, false, ◌≡◌, refl, some, List, [], ◌∷◌, arith, leb,
  length, text_equality, beq_refl,
}
use llm_provider_router.Prelude.Json.{Json}
use llm_provider_router.Prelude.Dict.{
  lookup, retain, Distinct, Distinct-insert, Distinct-remove, Distinct-retain, lookup-insert,
  lookup-remove, lookup-retain,
}
use llm_provider_router.Responses.Store.{
  Entry, ResponseStore, max_entries, store_ttl, live, sweep, room_loop, make_room, put_full,
  get_response, delete,
}
use llm_provider_router.Responses.Store.Lifecycle.{put_full_bounded}

-- The store has this entry for the id.
abbrev Holds : Text → Entry → ResponseStore → Type 0
Holds id e st = Distinct st × (lookup id st ≡ some e)

-- What may happen to a store while a response of the id `id` stays in it, before the time `end`:
-- responses are put under other ids, where there is room for them, responses are asked for, and other
-- responses are deleted.
pub data Meanwhile (id : Text) (end_time : ℕ) : ResponseStore → ResponseStore → Type 0 where
  nothing : {st : ResponseStore} → Meanwhile id end_time st st
  another :
      (t c : ℕ) (other : Text) (messages : List Json) (response : Json) (items : List Json)
      {st st' : ResponseStore}
      → t < end_time
      → length st < max_entries
      → ((c ∷ other) == id) ≡ false
      → Meanwhile id end_time (put_full t (c ∷ other) messages response items st) st'
      → Meanwhile id end_time st st'
  asked :
      (t : ℕ) (other : Text) {st st' : ResponseStore}
      → t < end_time
      → Meanwhile id end_time (get_response t other st).0 st'
      → Meanwhile id end_time st st'
  deleted :
      (t : ℕ) (other : Text) {st st' : ResponseStore}
      → t < end_time
      → (other == id) ≡ false
      → Meanwhile id end_time (delete t other st).0 st'
      → Meanwhile id end_time st st'

sweep-Holds :
    (t : ℕ) (id : Text) (e : Entry) (st : ResponseStore)
    → t < e.created + store_ttl
    → Holds id e st
    → Holds id e (sweep t st)
unfolding sweep
sweep-Holds t id e st soon (d, l) =
    (Distinct-retain (live t) st d, ground (arith, lookup-retain (live t) id st d, l))

length-retain : (t : ℕ) (st : ResponseStore) → length (retain (live t) st) ≤ length st
unfolding retain
length-retain t [] = omega arith
length-retain t ((k, e) ∷ st) = ground (arith, length-retain t st)

make_room_spare : (n : ℕ) (st : ResponseStore) → length st < max_entries → room_loop n st ≡ st
unfolding room_loop
make_room_spare zero st h = refl
make_room_spare (suc n) st h =
    let spare : leb max_entries (length st) ≡ false = ground (arith, h) in rw spare refl

put_other-Holds :
    (t c : ℕ) (other id : Text) (messages : List Json) (response : Json) (items : List Json)
    (e : Entry) (st : ResponseStore)
    → t < e.created + store_ttl
    → length st < max_entries
    → ((c ∷ other) == id) ≡ false
    → Holds id e st
    → Holds id e (put_full t (c ∷ other) messages response items st)
unfolding put_full make_room sweep
put_other-Holds t c other id messages response items e st soon room differs held =
    let x : Entry = record {
      messages = messages;
      response = response;
      input_items = items;
      created = t;
    } in
    let m = retain (live t) st in
    let (d, l) = sweep-Holds t id e st soon held in
    let same : room_loop (length m) m ≡ m =
      make_room_spare (length m) m (omega (arith, room, length-retain t st)) in
    rw same (
      Distinct-insert (c ∷ other) x m d,
      ground (arith, lookup-insert (c ∷ other) id x m, differs, l),
    )

delete_other-Holds :
    (t : ℕ) (other id : Text) (e : Entry) (st : ResponseStore)
    → t < e.created + store_ttl
    → (other == id) ≡ false
    → Holds id e st
    → Holds id e (delete t other st).0
unfolding delete
delete_other-Holds t other id e st soon differs held =
    let (d, l) = sweep-Holds t id e st soon held in
    (
      Distinct-remove other (sweep t st) d,
      ground (arith, lookup-remove other id (sweep t st), differs, l),
    )

Meanwhile-Holds :
    (id : Text) (e : Entry) (st st' : ResponseStore)
    → Meanwhile id (e.created + store_ttl) st st'
    → Holds id e st
    → Holds id e st'
unfolding get_response sweep
Meanwhile-Holds id e st st' nothing held = held
Meanwhile-Holds id e st st' (another t c o ms r is soon room differs rest) held =
    Meanwhile-Holds id e (put_full t (c ∷ o) ms r is st) st' rest
      (put_other-Holds t c o id ms r is e st soon room differs held)
Meanwhile-Holds id e st st' (asked t o soon rest) held =
    Meanwhile-Holds id e (get_response t o st).0 st' rest (sweep-Holds t id e st soon held)
Meanwhile-Holds id e st st' (deleted t o soon differs rest) held =
    Meanwhile-Holds id e (delete t o st).0 st' rest
      (delete_other-Holds t o id e st soon differs held)

-- Within half an hour a get answers the response that was put under its id, if since then responses
-- were only asked for, or deleted or put under other ids, the latter while the store had room.
pub put_then_get :
    (now later c : ℕ) (id : Text) (messages : List Json) (response : Json) (items : List Json)
    (st st' : ResponseStore)
    → Distinct st
    → Meanwhile (c ∷ id) (now + store_ttl) (put_full now (c ∷ id) messages response items st) st'
    → later < now + store_ttl
    → (get_response later (c ∷ id) st').1 ≡ some response
unfolding get_response put_full
put_then_get now later c id messages response items st st' d meanwhile soon =
    let e : Entry = record {
      messages = messages;
      response = response;
      input_items = items;
      created = now;
    } in
    let held : Holds (c ∷ id) e (put_full now (c ∷ id) messages response items st) = (
      (put_full_bounded now c id messages response items st d).0,
      ground
          (arith, lookup-insert (c ∷ id) (c ∷ id) e (make_room (sweep now st)), beq_refl (c ∷ id)),
    ) in
    let at_last = sweep-Holds later (c ∷ id) e st' soon (
      Meanwhile-Holds (c ∷ id) e (put_full now (c ∷ id) messages response items st) st' meanwhile
        held) in
    ground (arith, at_last.1)

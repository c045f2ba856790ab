-- ===== src/Responses/Store/Lifecycle.antt =====
-- The bound of the response store, and what becomes of a response.
use llm_provider_router.Prelude.{
  ℕ, suc, zero, ◌+◌, ◌≤◌, ◌<◌, Text, text, Bool, true, false, ◌≡◌, refl, ap, ◌⊎◌, inl, inr, none,
  some, List, [], ◌∷◌, arith, leb, length, text_equality, text_eq_iff, Bool-cases, Option-cases,
  beq_refl,
}
use llm_provider_router.Prelude.Json.{
  Json, Fields, null, boolean, number, string, array, object, field, end, insert_field,
}
use llm_provider_router.Prelude.Dict.{
  lookup, insert, remove, retain, Distinct, Distinct-insert, Distinct-remove, Distinct-retain,
  lookup-insert, lookup-remove, lookup-retain, lookup-Fresh, length-remove, contains_key,
}
use llm_provider_router.Responses.Store.{
  Entry, ResponseStore, max_entries, live, sweep, earliest, room_loop, make_room, put_full,
  get_response, cancelled, cancel, delete,
}

earliest-lookup :
    (m : ResponseStore)
    → Distinct m
    → (m ≡ []) ⊎ ((k : Text) × (e : Entry) × (earliest m ≡ some (k, e)) × (lookup k m ≡ some e))
unfolding earliest lookup
earliest-lookup [] d = inl refl
earliest-lookup ((k, e) ∷ m) d = inr (elim (earliest-lookup m d.1) [
  | inl n ↦ (k, e, ground (arith, n), ground (arith, beq_refl k))
  | inr (j, f, o, l) ↦ elim (Bool-cases (leb e.created f.created)) [
    | inl b ↦ (k, e, ground arith, ground (arith, beq_refl k))
    | inr b ↦ (j, f, ground arith, ground (arith, text_eq_iff k j, lookup-Fresh k m d.0))
  ]
])

room_loop-within :
    (n : ℕ) (m : ResponseStore)
    → length m ≤ n
    → Distinct m
    → Distinct (room_loop n m) × (length (room_loop n m) < max_entries)
unfolding room_loop
room_loop-within zero m h d = (d, omega (arith, h))
room_loop-within (suc n) m h d = elim (Bool-cases (leb max_entries (length m))) [
  | inr e ↦ rw e (d, ground (arith, e))
  | inl e ↦ elim (earliest-lookup m d) [
    | inl none_left ↦ absurd (ground (arith, ap length none_left))
    | inr (k, f, o, l) ↦
        rw (e, o)
          (room_loop-within n (remove k m) (omega (arith, h, length-remove k f m d l))
            (Distinct-remove k m d))
  ]
]

length-insert : (k : Text) (e : Entry) (m : ResponseStore) → length (insert k e m) ≤ length m + 1
unfolding insert
length-insert k e [] = omega arith
length-insert k e ((j, f) ∷ m) = ground (arith, length-insert k e m)

-- After a response is stored under an id, there are at most a hundred, however many there were.
pub put_full_bounded :
    (now : ℕ) (c : ℕ) (id : Text) (messages : List Json) (response : Json) (items : List Json)
    (st : ResponseStore)
    → Distinct st
    → Distinct (put_full now (c ∷ id) messages response items st)
      × (length (put_full now (c ∷ id) messages response items st) ≤ max_entries)
unfolding put_full make_room sweep
put_full_bounded now c id messages response items st d =
    let m = retain (live now) st in
    let e : Entry = record {
      messages = messages;
      response = response;
      input_items = items;
      created = now;
    } in
    let (d', w) = room_loop-within (length m) m (omega arith) (Distinct-retain (live now) st d) in
    (
      Distinct-insert (c ∷ id) e (room_loop (length m) m) d',
      omega (arith, w, length-insert (c ∷ id) e (room_loop (length m) m)),
    )

insert_field_again :
    (k : Text) (v : Json) (fs : Fields)
    → insert_field k v (insert_field k v fs) ≡ insert_field k v fs
unfolding insert_field
insert_field_again k v end = ground (arith, beq_refl k)
insert_field_again k v (field j w fs) = ground (arith, beq_refl k, insert_field_again k v fs)

cancelled_again : (v : Json) → cancelled (cancelled v) ≡ cancelled v
unfolding cancelled
cancelled_again (object fs) =
    ap (λ x. object x) (insert_field_again (text "status") (string (text "cancelled")) fs)
cancelled_again null = refl
cancelled_again (boolean b) = refl
cancelled_again (number n) = refl
cancelled_again (string s) = refl
cancelled_again (array vs) = refl

-- Cancelling again at the same time answers the same, and a cancelled response is shown cancelled.
pub cancel_again :
    (now : ℕ) (id : Text) (st : ResponseStore)
    → Distinct st
    → ((cancel now id (cancel now id st).0).1 ≡ (cancel now id st).1)
      × ((get_response now id (cancel now id st).0).1 ≡ (cancel now id st).1)
unfolding cancel get_response sweep
cancel_again now id st d =
    let m = retain (live now) st in
    let dm = Distinct-retain (live now) st d in
    elim (Option-cases (lookup id st)) [
      | inl l ↦ (
        ground (arith, l, lookup-retain (live now) id st d, lookup-retain (live now) id m dm),
        ground (arith, l, lookup-retain (live now) id st d, lookup-retain (live now) id m dm),
      )
      | inr (e, l) ↦
          let x : Entry = record e { response = cancelled e.response } in
          (
            ground (
              arith,
              l,
              lookup-retain (live now) id st d,
              lookup-retain (live now) id m dm,
              lookup-retain (live now) id (insert id x m) (Distinct-insert id x m dm),
              lookup-insert id id x m,
              beq_refl id,
              cancelled_again e.response,
            ),
            ground (
              arith,
              l,
              lookup-retain (live now) id st d,
              lookup-retain (live now) id m dm,
              lookup-retain (live now) id (insert id x m) (Distinct-insert id x m dm),
              lookup-insert id id x m,
              beq_refl id,
            ),
          )
    ]

contains_key-is_some :
    (k : Text) (m : ResponseStore)
    → contains_key k m ≡ elim (lookup k m) as (λ x. Bool) [ none ↦ false | some e ↦ true ]
unfolding contains_key lookup
contains_key-is_some k [] = refl
contains_key-is_some k ((j, f) ∷ m) = ground (arith, contains_key-is_some k m)

-- Deleting answers whether the response was there and live, and it is not answered afterwards.
pub delete_then_get :
    (now later : ℕ) (id : Text) (st : ResponseStore)
    → Distinct st
    → ((delete now id st).1
        ≡ elim (lookup id st) as (λ x. Bool) [ none ↦ false | some e ↦ live now id e ])
      × ((get_response later id (delete now id st).0).1 ≡ none)
unfolding delete get_response sweep
delete_then_get now later id st d =
    let m = retain (live now) st in
    let dm = Distinct-retain (live now) st d in
    (
      ground (arith, lookup-retain (live now) id st d, contains_key-is_some id m),
      ground (
        arith,
        lookup-retain (live later) id (remove id m) (Distinct-remove id m dm),
        lookup-remove id id m,
        beq_refl id,
      ),
    )

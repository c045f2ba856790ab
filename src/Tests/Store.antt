-- ===== src/Tests/Store.antt =====
-- Runs of the response store.
use llm_provider_router.Prelude.{
  ◌+◌, ◌≤◌, ◌≡◌, refl, some, [], ◌∷◌, length, arith, text_equality, text_eq,
}
use llm_provider_router.Prelude.Json.{null, object, end}
use llm_provider_router.Prelude.Dict.{Distinct, contains_key, retain, insert}
use llm_provider_router.Responses.Store.{
  ResponseStore, max_entries, put_full, make_room, room_loop, sweep, get_response, delete,
  store_ttl,
}
use llm_provider_router.Responses.Store.Lifecycle.{put_full_bounded}
use llm_provider_router.Responses.Store.Meanwhile.{
  Meanwhile, nothing, another, asked, deleted, put_then_get,
}

-- One response `r`, created at 3.
abbrev responses : ResponseStore
responses =
    (b'r' ∷ [], record { messages = []; response = object end; input_items = []; created = 3 }) ∷ []

responses-Distinct : Distinct responses
unfolding contains_key
responses-Distinct = (refl, tt)

put_full_bounded_example :
    Distinct (put_full 9 (b'q' ∷ []) [] null [] responses)
    × (length (put_full 9 (b'q' ∷ []) [] null [] responses) ≤ max_entries)
put_full_bounded_example = put_full_bounded 9 b'q' [] [] null [] responses responses-Distinct

-- Then `s` was put, asked for and deleted.
busy-Meanwhile :
    let st = put_full 9 (b'q' ∷ []) [] null [] responses in
    Meanwhile
      (b'q' ∷ [])
      (9 + store_ttl)
      st
      (delete 12
        (b's' ∷ [])
        (get_response 11 (b's' ∷ []) (put_full 10 (b's' ∷ []) [] null [] st)).0).0
unfolding put_full make_room room_loop sweep retain insert text_eq
busy-Meanwhile =
    another 10 b's' [] [] null [] (omega arith) (omega arith) refl
      (asked 11 (b's' ∷ []) (omega arith) (deleted 12 (b's' ∷ []) (omega arith) refl nothing))

put_then_get_example :
    let st = put_full 9 (b'q' ∷ []) [] null [] responses in
    (get_response 50
      (b'q' ∷ [])
      (delete 12
        (b's' ∷ [])
        (get_response 11 (b's' ∷ []) (put_full 10 (b's' ∷ []) [] null [] st)).0).0).1
    ≡ some null
put_then_get_example =
    put_then_get 9 50 b'q' [] [] null [] responses
      (delete 12 (b's' ∷ [])
        (get_response 11 (b's' ∷ [])
          (put_full 10 (b's' ∷ []) [] null [] (put_full 9 (b'q' ∷ []) [] null [] responses))).0).0
      responses-Distinct busy-Meanwhile (omega arith)

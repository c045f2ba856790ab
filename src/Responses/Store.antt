-- ===== src/Responses/Store.antt =====
-- src/features/responses/store.rs: the responses of translated requests, for half an hour and at most
-- a hundred. Each function locks the table, so it is one step; it answers with the table it leaves.
pub mod Lifecycle
pub mod Meanwhile
use llm_provider_router.Prelude.{
  ℕ, suc, zero, ◌-◌, Text, text, Bool, true, false, Option, none, some, List, [], ◌∷◌, ltb, leb,
  length, ◌==◌, text_equality, if◌then◌else◌,
}
use llm_provider_router.Prelude.Json.{Json, object, string, insert_field}
use llm_provider_router.Prelude.Dict.{Dict, lookup, insert, remove, retain, contains_key}

abbrev pub max_entries : ℕ
max_entries = 100

-- 1800 seconds.
abbrev pub store_ttl : ℕ
store_ttl = 1_800_000

pub record Entry : Type 0 where
  pub messages : List Json
  pub response : Json
  pub input_items : List Json
  pub created : ℕ

abbrev pub ResponseStore : Type 0
ResponseStore = Dict Text Entry

abbrev pub live : ℕ → Text → Entry → Bool
live now id e = ltb (now - e.created) store_ttl

unfoldable pub sweep : ℕ → ResponseStore → ResponseStore
unfolding retain
sweep now st = retain (live now) st

abbrev pub earlier : Text × Entry → Option (Text × Entry) → Text × Entry
earlier x none = x
earlier (k, e) (some (j, f)) = if leb e.created f.created then (k, e) else (j, f)

-- `min_by_key(created)`; the first wins a tie.
unfoldable pub earliest : ResponseStore → Option (Text × Entry)
earliest [] = none
earliest (x ∷ xs) = some (earlier x (earliest xs))

abbrev pub remove_earliest : ResponseStore → Option (Text × Entry) → ResponseStore
remove_earliest st none = st
remove_earliest st (some (k, e)) = remove k st

-- `while len >= MAX_ENTRIES`, as often as there are entries at most.
unfoldable pub room_loop : ℕ → ResponseStore → ResponseStore
room_loop zero st = st
room_loop (suc n) st =
    let rest = room_loop n (remove_earliest st (earliest st)) in
    if leb max_entries (length st) then rest else st

unfoldable pub make_room : ResponseStore → ResponseStore
make_room st = room_loop (length st) st

unfoldable pub put_full : ℕ → Text → List Json → Json → List Json → ResponseStore → ResponseStore
put_full now [] messages response input_items st = st
put_full now (c ∷ id) messages response input_items st =
    insert (c ∷ id)
      (record {
        messages = messages;
        response = response;
        input_items = input_items;
        created = now;
      })
      (make_room (sweep now st))

-- `.filter(|m| !m.is_empty())`
abbrev non_empty_list : List Json → Option (List Json)
non_empty_list [] = none
non_empty_list (v ∷ vs) = some (v ∷ vs)

abbrev messages_of : Option Entry → Option (List Json)
messages_of none = none
messages_of (some e) = non_empty_list e.messages

pub get_messages : ℕ → Text → ResponseStore → ResponseStore × Option (List Json)
get_messages now id st = let st' = sweep now st in (st', messages_of (lookup id st'))

abbrev response_of : Option Entry → Option Json
response_of none = none
response_of (some e) = some e.response

pub get_response : ℕ → Text → ResponseStore → ResponseStore × Option Json
get_response now id st = let st' = sweep now st in (st', response_of (lookup id st'))

abbrev items_of : Option Entry → Option (List Json)
items_of none = none
items_of (some e) = non_empty_list e.input_items

pub get_input_items : ℕ → Text → ResponseStore → ResponseStore × Option (List Json)
get_input_items now id st = let st' = sweep now st in (st', items_of (lookup id st'))

pub cancelled : Json → Json
unfolding text insert_field
cancelled (object fs) = object (insert_field (text "status") (string (text "cancelled")) fs)
cancelled v = v

abbrev cancel_entry : Text → ResponseStore → Option Entry → ResponseStore × Option Json
cancel_entry id st none = (st, none)
cancel_entry id st (some e) =
    (insert id (record e { response = cancelled e.response }) st, some (cancelled e.response))

pub cancel : ℕ → Text → ResponseStore → ResponseStore × Option Json
cancel now id st = let st' = sweep now st in cancel_entry id st' (lookup id st')

pub delete : ℕ → Text → ResponseStore → ResponseStore × Bool
delete now id st = let st' = sweep now st in (remove id st', contains_key id st')

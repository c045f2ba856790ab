-- ===== src/Responses/Sse.antt =====
-- src/features/responses/stream/mod.rs: `ResponsesSse`, the state machine that turns the chunks of a
-- chat stream into the events of a Responses stream. The text `out` that a call appends to is the
-- list of what was sent. `now` is the clock's reading of the call.
pub mod Chunks
pub mod Snapshot
pub mod Stream
pub mod Protocol
use llm_provider_router.Prelude.{
  ℕ, ◌+◌, ◌%◌, ◌^◌, Text, text, Bool, true, false, Option, none, some, List, [], ◌∷◌, ◌++◌, map,
  decimal, ltb, nat_beq, any, ◌==◌, text_equality, unwrap_or, if◌then◌else◌,
}
use llm_provider_router.Prelude.Json.{
  Json, null, number, string, array, object, Fields, end, field, nil, of_list, get, insert_field,
  as_array, as_str, is_object,
}
use llm_provider_router.Usage.{◌>>=◌}

pub record MessageState : Type 0 where
  pub item_id : Text
  pub text_so_far : Text
  pub output_index : ℕ
  pub content_index : ℕ

pub record ReasoningState : Type 0 where
  pub item_id : Text
  pub text_so_far : Text
  pub output_index : ℕ
  pub content_index : ℕ
  pub summary_index : ℕ

pub record ToolState : Type 0 where
  pub index : ℕ
  pub item_id : Text
  pub call_id : Text
  pub name : Text
  pub arguments : Text
  pub output_index : ℕ

pub record ResponsesSse : Type 0 where
  pub response_id : Text
  pub created_at : ℕ
  pub model : Text
  pub echo : Json
  pub output_index : ℕ
  pub message : Option MessageState
  pub reasoning : Option ReasoningState
  pub tool_calls : List ToolState
  pub usage : Option Json
  pub emitted_created : Bool
  pub sequence : ℕ
  pub finish_reason : Option Text

-- An event with its data, or the line that closes every stream.
pub data Sent : Type 0 where
  event : Text → Json → Sent
  done_mark : Sent

-- What a call changes: the machine, the counter behind `next_id`, the output.
pub record Feed : Type 0 where
  pub sse : ResponsesSse
  pub id_counter : ℕ
  pub out : List Sent

-- `json!({ .. })`
unfoldable pub fields : List (Text × Json) → Fields
fields [] = end
fields ((k, v) ∷ rest) = field k v (fields rest)

abbrev pub json : List (Text × Json) → Json
json entries = object (fields entries)

-- `n += 1` on 64 bits.
abbrev pub bump : ℕ → ℕ
bump n = (n + 1) % 2 ^ 64

unfoldable pub id_text : Text → ℕ → ℕ → Text
unfolding decimal
id_text prefix now n = prefix ++ b'_' ∷ decimal now ++ b'_' ∷ decimal n

-- The id that `next_id` answers, and the counter behind it.
abbrev pub next_id : Text → ℕ → Feed → Text
next_id prefix now p = id_text prefix now p.id_counter

abbrev pub drawn : Feed → Feed
drawn p = record p { id_counter = bump p.id_counter }

abbrev pub set_sse : ResponsesSse → Feed → Feed
set_sse s p = record p { sse = s }

abbrev pub send : Sent → Feed → Feed
send e p = record p { out = p.out ++ e ∷ [] }

unfoldable pub numbered : Text → ℕ → Json → Json
unfolding text insert_field
numbered event_type seq (object fs) = object (
    insert_field (text "sequence_number") (number seq)
      (insert_field (text "type") (string event_type) fs))
numbered event_type seq v = v

unfoldable pub push_seq : Text → Json → Feed → Feed
unfolding numbered
push_seq event_type v p =
    let seq = bump p.sse.sequence in
    send (event event_type (numbered event_type seq v))
      (set_sse (record p.sse { sequence = seq }) p)

unfoldable pub with_echo : ℕ → ℕ → Text → Json → Feed
unfolding id_text text
with_echo now counter model echo = record {
  sse = record {
    response_id = id_text (text "resp") now counter;
    created_at = now;
    model = model;
    echo = elim echo as (λ e. Json) [ null ↦ object end | other ↦ other ];
    output_index = 0;
    message = none;
    reasoning = none;
    tool_calls = [];
    usage = none;
    emitted_created = false;
    sequence = 0;
    finish_reason = none;
  };
  id_counter = bump counter;
  out = [];
}

message_item : Text → Json
unfolding text fields
message_item item_id = json (
    (text "id", string item_id)
    ∷ (text "type", string (text "message"))
    ∷ (text "role", string (text "assistant"))
    ∷ (text "status", string (text "in_progress"))
    ∷ (text "content", array nil)
    ∷ [])

unfoldable pub text_part : Text → Json
unfolding text fields
text_part t = json (
    (text "type", string (text "output_text"))
    ∷ (text "text", string t)
    ∷ (text "annotations", array nil)
    ∷ [])

unfoldable pub summary_part : Text → Json
unfolding text fields
summary_part t = json ((text "type", string (text "summary_text")) ∷ (text "text", string t) ∷ [])

unfoldable pub open_message : ℕ → Feed → MessageState × Feed
unfolding text fields push_seq id_text message_item text_part
open_message now p =
    let item_id = next_id (text "msg") now p in
    let index = p.sse.output_index in
    let m : MessageState = record {
      item_id = item_id;
      text_so_far = [];
      output_index = index;
      content_index = 0;
    } in
    (
      m,
      push_seq (text "response.content_part.added")
          (json (
            (text "item_id", string item_id)
            ∷ (text "output_index", number index)
            ∷ (text "content_index", number 0)
            ∷ (text "part", text_part [])
            ∷ []))
          (push_seq (text "response.output_item.added")
            (json ((text "output_index", number index) ∷ (text "item", message_item item_id) ∷ []))
            (set_sse (record p.sse { output_index = bump index; message = some m }) (drawn p))),
    )

-- `ensure_message`, with the message that is there afterwards.
unfoldable pub ensure_message : ℕ → Feed → MessageState × Feed
unfolding open_message
ensure_message now p = elim p.sse.message [ none ↦ open_message now p | some old ↦ (old, p) ]

unfoldable pub push_message_delta : ℕ → Text → Feed → Feed
unfolding text fields push_seq ensure_message
push_message_delta now delta_text p =
    let ensured = ensure_message now p in
    let m = ensured.0 in
    let q = ensured.1 in
    push_seq (text "response.output_text.delta")
      (json (
        (text "item_id", string m.item_id)
        ∷ (text "output_index", number m.output_index)
        ∷ (text "content_index", number m.content_index)
        ∷ (text "delta", string delta_text)
        ∷ []))
      (set_sse
        (record q.sse { message = some (record m { text_so_far = m.text_so_far ++ delta_text }) })
        q)

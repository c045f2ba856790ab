-- ===== src/Responses/Sse/Stream.antt =====
-- src/features/responses/stream/mod.rs: `ResponsesSse::feed`, `finish`, and a stream as a sequence of
-- chunks with an end.
use llm_provider_router.Prelude.{
  ℕ, leb, Text, text, true, Option, none, some, List, [], ◌∷◌, ◌++◌, map, ◌==◌, text_equality,
  if◌then◌else◌,
}
use llm_provider_router.Prelude.Json.{
  Json, null, number, string, array, object, cons, nil, insert_field,
}
use llm_provider_router.Responses.Sse.{
  MessageState, ReasoningState, ToolState, ResponsesSse, event, done_mark, Feed, fields, json,
  set_sse, send, push_seq, text_part, summary_part, with_echo,
}
use llm_provider_router.Responses.Sse.Chunks.{feed_choice, first_choice, take_usage}
use llm_provider_router.Responses.Sse.Snapshot.{response_with, history_from_output}

-- The event that opens the stream, sent by the first call only.
unfoldable pub ensure_created : Feed → Feed
unfolding text fields response_with
ensure_created p =
    let s : ResponsesSse = record p.sse { emitted_created = true } in
    if p.sse.emitted_created
    then p
    else send
        (event (text "response.created")
          (json ((text "response", response_with s (text "in_progress") []) ∷ [])))
        (set_sse s p)

unfoldable pub feed : ℕ → Json → Feed → Feed
unfolding ensure_created take_usage first_choice feed_choice
feed now chunk p =
    let opened = take_usage chunk (ensure_created p) in
    elim (first_choice chunk) [ none ↦ opened | some choice ↦ feed_choice now choice opened ]

-- What `finish` has closed: the machine, and the items with their indices.
abbrev pub Closed : Type 0
Closed = Feed × List (ℕ × Json)

unfoldable pub close_item : ℕ → Json → Closed → Closed
unfolding text fields push_seq
close_item index item (p, items) = (
  push_seq (text "response.output_item.done")
      (json ((text "output_index", number index) ∷ (text "item", item) ∷ [])) p,
  items ++ (index, item) ∷ [],
)

abbrev pub close_first : (Feed → Feed) → Closed → Closed
close_first f (p, items) = (f p, items)

unfoldable pub reasoning_done : ReasoningState → Feed → Feed
unfolding text fields push_seq summary_part
reasoning_done rs p =
    push_seq (text "response.reasoning.done")
      (json (
        (text "item_id", string rs.item_id)
        ∷ (text "output_index", number rs.output_index)
        ∷ (text "content_index", number rs.content_index)
        ∷ (text "text", string rs.text_so_far)
        ∷ []))
      (push_seq (text "response.reasoning_summary_part.done")
        (json (
          (text "item_id", string rs.item_id)
          ∷ (text "output_index", number rs.output_index)
          ∷ (text "summary_index", number rs.summary_index)
          ∷ (text "part", summary_part rs.text_so_far)
          ∷ []))
        (push_seq (text "response.reasoning_summary_text.done")
          (json (
            (text "item_id", string rs.item_id)
            ∷ (text "output_index", number rs.output_index)
            ∷ (text "summary_index", number rs.summary_index)
            ∷ (text "text", string rs.text_so_far)
            ∷ []))
          (set_sse (record p.sse { reasoning = none }) p)))

reasoning_closed : ReasoningState → Json
unfolding text fields summary_part
reasoning_closed rs = json (
    (text "id", string rs.item_id)
    ∷ (text "type", string (text "reasoning"))
    ∷ (text "status", string (text "completed"))
    ∷ (text "summary", array (cons (summary_part rs.text_so_far) nil))
    ∷ [])

unfoldable pub close_reasoning : Closed → Closed
unfolding close_item reasoning_done reasoning_closed
close_reasoning (p, items) = elim p.sse.reasoning [
  | none ↦ (p, items)
  | some rs ↦
      close_item rs.output_index (reasoning_closed rs) (close_first (reasoning_done rs) (p, items))
]

unfoldable pub message_done : MessageState → Feed → Feed
unfolding text fields push_seq text_part
message_done m p =
    push_seq (text "response.content_part.done")
      (json (
        (text "item_id", string m.item_id)
        ∷ (text "output_index", number m.output_index)
        ∷ (text "content_index", number m.content_index)
        ∷ (text "part", text_part m.text_so_far)
        ∷ []))
      (push_seq (text "response.output_text.done")
        (json (
          (text "item_id", string m.item_id)
          ∷ (text "output_index", number m.output_index)
          ∷ (text "content_index", number m.content_index)
          ∷ (text "text", string m.text_so_far)
          ∷ []))
        (set_sse (record p.sse { message = none }) p))

message_closed : MessageState → Json
unfolding text fields text_part
message_closed m = json (
    (text "id", string m.item_id)
    ∷ (text "type", string (text "message"))
    ∷ (text "status", string (text "completed"))
    ∷ (text "role", string (text "assistant"))
    ∷ (text "content", array (cons (text_part m.text_so_far) nil))
    ∷ [])

unfoldable pub close_message : Closed → Closed
unfolding close_item message_done message_closed
close_message (p, items) = elim p.sse.message [
  | none ↦ (p, items)
  | some m ↦ close_item m.output_index (message_closed m) (close_first (message_done m) (p, items))
]

unfoldable pub call_done : ToolState → Feed → Feed
unfolding text fields push_seq
call_done t p =
    push_seq (text "response.function_call_arguments.done")
      (json (
        (text "item_id", string t.item_id)
        ∷ (text "output_index", number t.output_index)
        ∷ (text "arguments", string t.arguments)
        ∷ []))
      p

call_closed : ToolState → Json
unfolding text fields
call_closed t = json (
    (text "id", string t.item_id)
    ∷ (text "type", string (text "function_call"))
    ∷ (text "status", string (text "completed"))
    ∷ (text "call_id", string t.call_id)
    ∷ (text "name", string t.name)
    ∷ (text "arguments", string t.arguments)
    ∷ [])

unfoldable pub close_each : List ToolState → Closed → Closed
unfolding close_item call_done call_closed
close_each [] c = c
close_each (t ∷ ts) c =
    close_each ts (close_item t.output_index (call_closed t) (close_first (call_done t) c))

unfoldable pub close_calls : Closed → Closed
unfolding close_each
close_calls (p, items) =
    close_each p.sse.tool_calls (set_sse (record p.sse { tool_calls = [] }) p, items)

-- `items.sort_by_key(|(idx, _)| *idx)`: stable.
insert_item : ℕ × Json → List (ℕ × Json) → List (ℕ × Json)
insert_item x [] = x ∷ []
insert_item x (y ∷ ys) = if leb x.0 y.0 then x ∷ y ∷ ys else y ∷ insert_item x ys

sort_items : List (ℕ × Json) → List (ℕ × Json)
unfolding insert_item
sort_items [] = []
sort_items (x ∷ xs) = insert_item x (sort_items xs)

abbrev reason : Text → Json
reason r = json ((text "reason", string r) ∷ [])

-- The status of the answer, and its `incomplete_details`.
unfoldable pub final_status : Option Text → Text × Json
unfolding text fields
final_status fr =
    let interrupted : Text × Json = (text "incomplete", reason (text "interrupted")) in
    elim fr as (λ o. Text × Json) [
      | none ↦ interrupted
      | some r ↦
          if r == text "stop"
          then (text "completed", null)
          else if r == text "tool_calls"
          then (text "completed", null)
          else if r == text "length"
          then (text "incomplete", reason (text "max_output_tokens"))
          else interrupted
    ]

-- `response["incomplete_details"] = details`
with_details : Json → Json → Json
unfolding text insert_field
with_details details (object fs) = object (insert_field (text "incomplete_details") details fs)
with_details details v = v

unfoldable pub final_event : Text → Text
unfolding text
final_event status =
    if status == text "incomplete" then text "response.incomplete" else text "response.completed"

-- The last events, and the answer of `finish`: the id, the history, the response.
abbrev pub Finished : Type 0
Finished = Text × (List Json × Json)

unfoldable pub final_response : ResponsesSse → List Json → Json
unfolding final_status with_details response_with
final_response s output =
    let status = final_status s.finish_reason in
    with_details status.1 (response_with s status.0 output)

unfoldable pub outputs : List (ℕ × Json) → List Json
unfolding sort_items
outputs items = map (λ x. x.1) (sort_items items)

unfoldable pub conclude : Closed → Feed × Finished
unfolding text fields push_seq final_status final_event final_response history_from_output outputs
conclude (p, items) =
    let output = outputs items in
    let response = final_response p.sse output in
    (
      send done_mark (
          push_seq (final_event (final_status p.sse.finish_reason).0)
            (json ((text "response", response) ∷ [])) p),
      (p.sse.response_id, (history_from_output output, response)),
    )

unfoldable pub finish_sse : Feed → Feed × Finished
unfolding ensure_created close_reasoning close_message close_calls conclude
finish_sse p = conclude (close_calls (close_message (close_reasoning (ensure_created p, []))))

-- A stream: its chunks, each with the clock's reading, and the end.
unfoldable pub feed_all : List (ℕ × Json) → Feed → Feed
unfolding feed
feed_all [] p = p
feed_all ((now, chunk) ∷ rest) p = feed_all rest (feed now chunk p)

unfoldable pub run : ℕ → ℕ → Text → Json → List (ℕ × Json) → Feed × Finished
unfolding with_echo feed_all finish_sse
run now counter model echo chunks = finish_sse (feed_all chunks (with_echo now counter model echo))

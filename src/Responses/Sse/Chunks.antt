-- ===== src/Responses/Sse/Chunks.antt =====
-- src/features/responses/stream/mod.rs: what `ResponsesSse::feed` does with one chunk of the stream.
use llm_provider_router.Prelude.{
  ℕ, ◌^◌, Text, text, Option, none, some, List, [], ◌∷◌, ◌++◌, ltb, nat_beq, ◌==◌, text_equality,
  unwrap_or, if◌then◌else◌,
}
use llm_provider_router.Prelude.Json.{
  Json, number, string, array, object, end, nil, get, as_array, as_str, is_object,
}
use llm_provider_router.Usage.{◌>>=◌}
use llm_provider_router.Responses.Sse.{
  ReasoningState, ToolState, Feed, fields, json, bump, id_text, next_id, drawn, set_sse, push_seq,
  summary_part, push_message_delta,
}

reasoning_item : Text → Json
unfolding text fields
reasoning_item item_id = json (
    (text "id", string item_id)
    ∷ (text "type", string (text "reasoning"))
    ∷ (text "status", string (text "in_progress"))
    ∷ (text "summary", array nil)
    ∷ [])

unfoldable pub open_reasoning : ℕ → Feed → ReasoningState × Feed
unfolding text fields push_seq id_text reasoning_item summary_part
open_reasoning now p =
    let item_id = next_id (text "rs") now p in
    let index = p.sse.output_index in
    let rs : ReasoningState = record {
      item_id = item_id;
      text_so_far = [];
      output_index = index;
      content_index = 0;
      summary_index = 0;
    } in
    (
      rs,
      push_seq (text "response.reasoning_summary_part.added")
          (json (
            (text "item_id", string item_id)
            ∷ (text "output_index", number index)
            ∷ (text "summary_index", number 0)
            ∷ (text "part", summary_part [])
            ∷ []))
          (push_seq (text "response.output_item.added")
            (json
              ((text "output_index", number index) ∷ (text "item", reasoning_item item_id) ∷ []))
            (set_sse (record p.sse { output_index = bump index; reasoning = some rs }) (drawn p))),
    )

-- `ensure_reasoning`, with the reasoning that is there afterwards.
unfoldable pub ensure_reasoning : ℕ → Feed → ReasoningState × Feed
unfolding open_reasoning
ensure_reasoning now p = elim p.sse.reasoning [ none ↦ open_reasoning now p | some old ↦ (old, p) ]

unfoldable pub push_reasoning_delta : ℕ → Text → Feed → Feed
unfolding text fields push_seq ensure_reasoning
push_reasoning_delta now delta_text p =
    let ensured = ensure_reasoning now p in
    let rs = ensured.0 in
    let q = ensured.1 in
    push_seq (text "response.reasoning_summary_text.delta")
      (json (
        (text "item_id", string rs.item_id)
        ∷ (text "output_index", number rs.output_index)
        ∷ (text "summary_index", number rs.summary_index)
        ∷ (text "delta", string delta_text)
        ∷ []))
      (set_sse
        (record q.sse {
          reasoning = some (record rs { text_so_far = rs.text_so_far ++ delta_text });
        })
        q)

-- The first call with an index, its arguments extended, and the calls after that.
unfoldable pub extend_call : ℕ → Text → List ToolState → Option (ToolState × List ToolState)
extend_call index arguments [] = none
extend_call index arguments (t ∷ ts) =
    let later = extend_call index arguments ts in
    if nat_beq t.index index
    then some (t, record t { arguments = t.arguments ++ arguments } ∷ ts)
    else elim later [ none ↦ none | some (found, rest) ↦ some (found, t ∷ rest) ]

-- `.and_then(Value::as_str).unwrap_or_default()`
unfoldable pub str_or_empty : Option Json → Text
unfolding as_str
str_or_empty v = unwrap_or (v >>= as_str) []

-- `tc.get("index").and_then(Value::as_i64).unwrap_or(0) as usize`; the numbers of `Json` are natural.
unfoldable pub call_index : Json → ℕ
unfolding text get
call_index tc = elim (get (text "index") tc) [
  | none ↦ 0
  | some (number n) ↦ if ltb n (2 ^ 63) then n else 0
  | some other ↦ 0
]

-- `tc.pointer("/function/{k}")`
unfoldable pub of_function : Text → Json → Option Json
unfolding text get
of_function k tc = get (text "function") tc >>= get k

unfoldable pub arguments_delta : Text → ℕ → Text → Feed → Feed
unfolding text fields push_seq
arguments_delta item_id index arguments p =
    push_seq (text "response.function_call_arguments.delta")
      (json (
        (text "item_id", string item_id)
        ∷ (text "output_index", number index)
        ∷ (text "delta", string arguments)
        ∷ []))
      p

call_item : Text → Text → Text → Json
unfolding text fields
call_item item_id call_id name = json (
    (text "id", string item_id)
    ∷ (text "type", string (text "function_call"))
    ∷ (text "call_id", string call_id)
    ∷ (text "name", string name)
    ∷ (text "arguments", string [])
    ∷ [])

-- A chunk of a call that is there already.
unfoldable pub continue_call : ToolState → List ToolState → Text → Feed → Feed
unfolding arguments_delta
continue_call t extended arguments p =
    if arguments == []
    then p
    else arguments_delta t.item_id t.output_index arguments
        (set_sse (record p.sse { tool_calls = extended }) p)

unfoldable pub add_call : ToolState → Feed → Feed
unfolding text fields push_seq call_item
add_call t p =
    push_seq (text "response.output_item.added")
      (json (
        (text "output_index", number t.output_index)
        ∷ (text "item", call_item t.item_id t.call_id t.name)
        ∷ []))
      (set_sse
        (record p.sse {
          output_index = bump t.output_index;
          tool_calls = p.sse.tool_calls ++ t ∷ [];
        })
        (drawn p))

-- The first chunk of a call; `p` has drawn the id where the chunk has none.
unfoldable pub open_call : ℕ → ℕ → Text → Text → Text → Feed → Feed
unfolding text id_text arguments_delta add_call
open_call now index call_id name arguments p =
    let t : ToolState = record {
      index = index;
      item_id = next_id (text "fc") now p;
      call_id = call_id;
      name = name;
      arguments = arguments;
      output_index = p.sse.output_index;
    } in
    let added = add_call t p in
    if arguments == [] then added else arguments_delta t.item_id t.output_index arguments added

unfoldable pub feed_tool_call : ℕ → Json → Feed → Feed
unfolding text get str_or_empty call_index of_function extend_call continue_call open_call id_text
feed_tool_call now tc p =
    let index = call_index tc in
    let arguments = str_or_empty (of_function (text "arguments") tc) in
    let call_id = str_or_empty (get (text "id") tc) in
    let name = str_or_empty (of_function (text "name") tc) in
    elim (extend_call index arguments p.sse.tool_calls) [
      | some (t, extended) ↦ continue_call t extended arguments p
      | none ↦
          if call_id == []
          then open_call now index (next_id (text "call") now p) name arguments (drawn p)
          else open_call now index call_id name arguments p
    ]

unfoldable pub feed_tool_calls : ℕ → List Json → Feed → Feed
unfolding feed_tool_call
feed_tool_calls now [] p = p
feed_tool_calls now (tc ∷ tcs) p = feed_tool_calls now tcs (feed_tool_call now tc p)

-- `if let Some(t) = delta.get(k).and_then(Value::as_str) { if !t.is_empty() { push } }`
unfoldable pub push_text : (Text → Feed → Feed) → Text → Json → Feed → Feed
unfolding get str_or_empty
push_text push k delta p = let t = str_or_empty (get k delta) in if t == [] then p else push t p

-- `chunk.get("choices").and_then(Value::as_array).and_then(|a| a.first())`
unfoldable pub first_choice : Json → Option Json
unfolding text get as_array
first_choice chunk = elim (get (text "choices") chunk >>= as_array) [
  | none ↦ none
  | some [] ↦ none
  | some (c ∷ cs) ↦ some c
]

unfoldable pub take_usage : Json → Feed → Feed
unfolding text get is_object
take_usage chunk p = elim (get (text "usage") chunk) [
  | none ↦ p
  | some u ↦ if is_object u then set_sse (record p.sse { usage = some u }) p else p
]

unfoldable pub take_finish_reason : Json → Feed → Feed
unfolding text get str_or_empty
take_finish_reason choice p =
    let fr = str_or_empty (get (text "finish_reason") choice) in
    if fr == [] then p else set_sse (record p.sse { finish_reason = some fr }) p

-- `delta.get("tool_calls").and_then(Value::as_array)`
unfoldable pub called : Json → List Json
unfolding text get as_array
called delta = unwrap_or (get (text "tool_calls") delta >>= as_array) []

unfoldable pub feed_choice : ℕ → Json → Feed → Feed
unfolding text get push_text push_reasoning_delta push_message_delta feed_tool_calls called
    take_finish_reason
feed_choice now choice p =
    let delta = unwrap_or (get (text "delta") choice) (object end) in
    take_finish_reason choice (
      feed_tool_calls now (called delta) (
        push_text (push_message_delta now) (text "content") delta (
          push_text (push_reasoning_delta now) (text "reasoning") delta
            (push_text (push_reasoning_delta now) (text "reasoning_content") delta p))))

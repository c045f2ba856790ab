-- ===== src/Responses/Sse/Snapshot.antt =====
-- src/features/responses/stream/mod.rs: the `Response` object of a snapshot or of the end, and the chat
-- message that a later request continues from.
use llm_provider_router.Prelude.{
  Text, text, Bool, true, false, ◌&&◌, none, some, List, [], ◌∷◌, ◌++◌, ◌==◌, text_equality,
  unwrap_or, if◌then◌else◌,
}
use llm_provider_router.Prelude.Json.{
  Json, null, boolean, number, string, array, nil, of_list, get, as_array, as_str,
}
use llm_provider_router.Usage.{◌>>=◌}
use llm_provider_router.Responses.Sse.{ResponsesSse, fields, json}
use llm_provider_router.Responses.Sse.Chunks.{str_or_empty}

unfoldable pub zero_usage : Json
unfolding text fields
zero_usage = json (
    (text "input_tokens", number 0)
    ∷ (text "input_tokens_details", json ((text "cached_tokens", number 0) ∷ []))
    ∷ (text "output_tokens", number 0)
    ∷ (text "output_tokens_details", json ((text "reasoning_tokens", number 0) ∷ []))
    ∷ (text "total_tokens", number 0)
    ∷ [])

-- `get("type").and_then(Value::as_str) == Some(kind)`
is_type : Text → Json → Bool
unfolding text get as_str
is_type kind v = elim (get (text "type") v >>= as_str) [ none ↦ false | some k ↦ k == kind ]

parts_of : Json → List Json
unfolding text get as_array
parts_of item = unwrap_or (get (text "content") item >>= as_array) []

-- `filter_map(|p| p.get("text").and_then(Value::as_str)).collect::<String>()`
all_text : List Json → Text
unfolding text get str_or_empty
all_text [] = []
all_text (p ∷ ps) = str_or_empty (get (text "text") p) ++ all_text ps

output_text : List Json → Text
unfolding text is_type parts_of all_text
output_text [] = []
output_text (item ∷ items) =
    let later = output_text items in
    if is_type (text "message") item then all_text (parts_of item) ++ later else later

-- `echo.get(k).cloned().unwrap_or(default)` as the field `k`.
echoed : Json → Text → Json → Text × Json
unfolding get
echoed echo k default = (k, unwrap_or (get k echo) default)

unfoldable pub response_with : ResponsesSse → Text → List Json → Json
unfolding text fields zero_usage output_text echoed
response_with s status output = json (
    (text "id", string s.response_id)
    ∷ (text "object", string (text "response"))
    ∷ (text "created_at", number s.created_at)
    ∷ (text "completed_at", number s.created_at)
    ∷ (text "status", string status)
    ∷ (text "model", string s.model)
    ∷ (text "output", array (of_list output))
    ∷ (text "output_text", string (output_text output))
    ∷ (text "usage", unwrap_or s.usage zero_usage)
    ∷ (text "error", null)
    ∷ (text "incomplete_details", null)
    ∷ echoed s.echo (text "instructions") null
    ∷ echoed s.echo (text "metadata") null
    ∷ echoed s.echo (text "parallel_tool_calls") (boolean true)
    ∷ echoed s.echo (text "temperature") null
    ∷ echoed s.echo (text "tool_choice") (string (text "auto"))
    ∷ echoed s.echo (text "tools") (array nil)
    ∷ echoed s.echo (text "top_p") null
    ∷ echoed s.echo (text "max_output_tokens") null
    ∷ echoed s.echo (text "max_tool_calls") null
    ∷ echoed s.echo (text "background") null
    ∷ echoed s.echo (text "conversation") null
    ∷ echoed s.echo (text "previous_response_id") null
    ∷ echoed s.echo (text "store") (boolean true)
    ∷ echoed s.echo (text "service_tier") null
    ∷ echoed s.echo (text "truncation") null
    ∷ echoed s.echo (text "reasoning") null
    ∷ echoed s.echo (text "text") null
    ∷ echoed s.echo (text "user") null
    ∷ echoed s.echo (text "top_logprobs") null
    ∷ (text "prompt", null)
    ∷ (text "prompt_cache_key", null)
    ∷ (text "prompt_cache_options", null)
    ∷ (text "prompt_cache_retention", null)
    ∷ (text "moderation", null)
    ∷ (text "safety_identifier", null)
    ∷ [])

-- The texts of the parts of type `output_text`.
output_texts : List Json → Text
unfolding text get is_type str_or_empty
output_texts [] = []
output_texts (p ∷ ps) =
    let later = output_texts ps in
    if is_type (text "output_text") p then str_or_empty (get (text "text") p) ++ later else later

history_text : List Json → Text
unfolding text is_type parts_of output_texts
history_text [] = []
history_text (item ∷ items) =
    let later = history_text items in
    if is_type (text "message") item then output_texts (parts_of item) ++ later else later

history_call : Json → Json
unfolding text fields get str_or_empty
history_call item = json (
    (text "id", string (str_or_empty (get (text "call_id") item)))
    ∷ (text "type", string (text "function"))
    ∷ (
      text "function",
      json (
          (text "name", string (str_or_empty (get (text "name") item)))
          ∷ (text "arguments", string (str_or_empty (get (text "arguments") item)))
          ∷ []),
    )
    ∷ [])

history_calls : List Json → List Json
unfolding text is_type history_call
history_calls [] = []
history_calls (item ∷ items) =
    let later = history_calls items in
    if is_type (text "function_call") item then history_call item ∷ later else later

-- `if !tool_calls.is_empty() { msg["tool_calls"] = .. }`
calls_entry : List Json → List (Text × Json)
unfolding text
calls_entry [] = []
calls_entry (c ∷ cs) = (text "tool_calls", array (of_list (c ∷ cs))) ∷ []

no_calls : List Json → Bool
no_calls [] = true
no_calls (c ∷ cs) = false

unfoldable pub history_from_output : List Json → List Json
unfolding text fields history_text history_calls calls_entry no_calls
history_from_output output =
    let t = history_text output in
    let calls = history_calls output in
    if t == [] && no_calls calls
    then []
    else json (
        (text "role", string (text "assistant"))
        ∷ (text "content", if t == [] then null else string t)
        ∷ calls_entry calls)
      ∷ []

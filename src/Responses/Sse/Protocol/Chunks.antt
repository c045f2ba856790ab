-- ===== src/Responses/Sse/Protocol/Chunks.antt =====
-- A chunk leaves the stream of `ResponsesSse` open (src/features/responses/stream/mod.rs).
use llm_provider_router.Prelude.{
  ℕ, Text, text, some, List, [], ◌∷◌, refl, text_eq, ◌==◌, text_equality, elim-cases, if-cases,
  unwrap_or, if◌then◌else◌,
}
use llm_provider_router.Prelude.Json.{Json, object, end, get, is_object}
use llm_provider_router.Responses.Sse.{
  MessageState, ReasoningState, ToolState, Feed, open_message, ensure_message, push_message_delta,
  set_sse, drawn, next_id,
}
use llm_provider_router.Responses.Sse.Chunks.{
  open_reasoning, ensure_reasoning, push_reasoning_delta, extend_call, str_or_empty, call_index,
  of_function, arguments_delta, continue_call, add_call, open_call, feed_tool_call, feed_tool_calls,
  push_text, take_usage, take_finish_reason, called, feed_choice,
}
use llm_provider_router.Responses.Sse.Protocol.{
  is_created, is_final, IsOpen, push_seq-IsOpen, set_sse-IsOpen,
}

ruleset opening = (push_seq-IsOpen, set_sse-IsOpen)

open_message-IsOpen : (now : ℕ) (p : Feed) → IsOpen p → IsOpen (open_message now p).1
unfolding open_message text text_eq is_created is_final IsOpen
open_message-IsOpen now p before = search opening

ensure_message-IsOpen : (now : ℕ) (p : Feed) → IsOpen p → IsOpen (ensure_message now p).1
unfolding ensure_message
ensure_message-IsOpen now p before =
    elim-cases (λ (x : MessageState × Feed). IsOpen x.1) p.sse.message (open_message now p)
      (λ old. (old, p)) (open_message-IsOpen now p before) (λ old e. before)

push_message_delta-IsOpen :
    (now : ℕ) (t : Text) (p : Feed) → IsOpen p → IsOpen (push_message_delta now t p)
unfolding push_message_delta text text_eq is_created is_final
push_message_delta-IsOpen now t p before = search (opening, ensure_message-IsOpen)

open_reasoning-IsOpen : (now : ℕ) (p : Feed) → IsOpen p → IsOpen (open_reasoning now p).1
unfolding open_reasoning text text_eq is_created is_final IsOpen
open_reasoning-IsOpen now p before = search opening

ensure_reasoning-IsOpen : (now : ℕ) (p : Feed) → IsOpen p → IsOpen (ensure_reasoning now p).1
unfolding ensure_reasoning
ensure_reasoning-IsOpen now p before =
    elim-cases (λ (x : ReasoningState × Feed). IsOpen x.1) p.sse.reasoning (open_reasoning now p)
      (λ old. (old, p)) (open_reasoning-IsOpen now p before) (λ old e. before)

push_reasoning_delta-IsOpen :
    (now : ℕ) (t : Text) (p : Feed) → IsOpen p → IsOpen (push_reasoning_delta now t p)
unfolding push_reasoning_delta text text_eq is_created is_final
push_reasoning_delta-IsOpen now t p before = search (opening, ensure_reasoning-IsOpen)

arguments_delta-IsOpen :
    (item_id : Text) (index : ℕ) (t : Text) (p : Feed)
    → IsOpen p
    → IsOpen (arguments_delta item_id index t p)
unfolding arguments_delta text text_eq is_created is_final
arguments_delta-IsOpen item_id index t p before = search opening

add_call-IsOpen : (t : ToolState) (p : Feed) → IsOpen p → IsOpen (add_call t p)
unfolding add_call text text_eq is_created is_final IsOpen
add_call-IsOpen t p before = search opening

open_call-IsOpen :
    (now index : ℕ) (call_id name arguments : Text) (p : Feed)
    → IsOpen p
    → IsOpen (open_call now index call_id name arguments p)
unfolding open_call
open_call-IsOpen now index call_id name arguments p before =
    let added = add_call-IsOpen _ p before in
    if-cases IsOpen (arguments == []) _ _ added (arguments_delta-IsOpen _ _ arguments _ added)

continue_call-IsOpen :
    (t : ToolState) (extended : List ToolState) (arguments : Text) (p : Feed)
    → IsOpen p
    → IsOpen (continue_call t extended arguments p)
unfolding continue_call
continue_call-IsOpen t extended arguments p before = if-cases IsOpen (arguments == []) p _ before (
    arguments_delta-IsOpen t.item_id t.output_index arguments
      (set_sse (record p.sse { tool_calls = extended }) p)
      (set_sse-IsOpen (record p.sse { tool_calls = extended }) p refl refl before))

drawn-IsOpen : (p : Feed) → IsOpen p → IsOpen (drawn p)
unfolding IsOpen
drawn-IsOpen p before = before

feed_tool_call-IsOpen :
    (now : ℕ) (tc : Json) (p : Feed) → IsOpen p → IsOpen (feed_tool_call now tc p)
unfolding feed_tool_call
feed_tool_call-IsOpen now tc p before =
    let index = call_index tc in
    let arguments = str_or_empty (of_function (text "arguments") tc) in
    let call_id = str_or_empty (get (text "id") tc) in
    let name = str_or_empty (of_function (text "name") tc) in
    let drawing = drawn p in
    elim-cases IsOpen (extend_call index arguments p.sse.tool_calls) _
      (λ (found : ToolState × List ToolState). continue_call found.0 found.1 arguments p)
      (if-cases IsOpen (call_id == []) _ _
        (open_call-IsOpen now index (next_id (text "call") now p) name arguments drawing
          (drawn-IsOpen p before))
        (open_call-IsOpen now index call_id name arguments p before))
      (λ found e. continue_call-IsOpen found.0 found.1 arguments p before)

feed_tool_calls-IsOpen :
    (now : ℕ) (tcs : List Json) (p : Feed) → IsOpen p → IsOpen (feed_tool_calls now tcs p)
unfolding feed_tool_calls
feed_tool_calls-IsOpen now [] p before = before
feed_tool_calls-IsOpen now (tc ∷ tcs) p before =
    feed_tool_calls-IsOpen now tcs (feed_tool_call now tc p) (feed_tool_call-IsOpen now tc p before)

push_text-IsOpen :
    (push : Text → Feed → Feed) (k : Text) (delta : Json) (p : Feed)
    → ((t : Text) → IsOpen p → IsOpen (push t p))
    → IsOpen p
    → IsOpen (push_text push k delta p)
unfolding push_text
push_text-IsOpen push k delta p kept before =
    let t = str_or_empty (get k delta) in
    if-cases IsOpen (t == []) p (push t p) before (kept t before)

pub take_usage-IsOpen : (chunk : Json) (p : Feed) → IsOpen p → IsOpen (take_usage chunk p)
unfolding take_usage
take_usage-IsOpen chunk p before =
    elim-cases IsOpen (get (text "usage") chunk) p
      (λ u. if is_object u then set_sse (record p.sse { usage = some u }) p else p) before
      (λ u e. if-cases IsOpen (is_object u) _ p (set_sse-IsOpen _ p refl refl before) before)

take_finish_reason-IsOpen :
    (choice : Json) (p : Feed) → IsOpen p → IsOpen (take_finish_reason choice p)
unfolding take_finish_reason
take_finish_reason-IsOpen choice p before =
    let fr = str_or_empty (get (text "finish_reason") choice) in
    if-cases IsOpen (fr == []) p (set_sse (record p.sse { finish_reason = some fr }) p) before
      (set_sse-IsOpen _ p refl refl before)

pub feed_choice-IsOpen :
    (now : ℕ) (choice : Json) (p : Feed) → IsOpen p → IsOpen (feed_choice now choice p)
unfolding feed_choice
feed_choice-IsOpen now choice p before =
    let delta = unwrap_or (get (text "delta") choice) (object end) in
    take_finish_reason-IsOpen choice _ (
      feed_tool_calls-IsOpen now (called delta) _ (
        push_text-IsOpen (push_message_delta now) (text "content") delta _
          (λ t. push_message_delta-IsOpen now t _)
          (push_text-IsOpen (push_reasoning_delta now) (text "reasoning") delta _
            (λ t. push_reasoning_delta-IsOpen now t _)
            (push_text-IsOpen (push_reasoning_delta now) (text "reasoning_content") delta p
              (λ t. push_reasoning_delta-IsOpen now t p) before))))

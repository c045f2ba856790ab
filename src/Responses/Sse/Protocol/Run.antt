-- ===== src/Responses/Sse/Protocol/Run.antt =====
-- A whole stream is accepted by its reader (src/features/responses/stream/mod.rs).
use llm_provider_router.Prelude.{
  ℕ, Text, text, true, false, some, List, [], ◌∷◌, ◌++◌, ◌≡◌, ◌⊎◌, refl, arith, text_eq, ◌==◌,
  text_equality, if-split, inl, inr, elim-cases, if-cases,
}
use llm_provider_router.Prelude.Json.{Json, object, Fields}
use llm_provider_router.Responses.Sse.{
  MessageState, ReasoningState, ToolState, event, done_mark, numbered, Feed, fields, bump, set_sse,
  send, with_echo, push_seq,
}
use llm_provider_router.Responses.Sse.Chunks.{first_choice, take_usage, feed_choice}
use llm_provider_router.Responses.Sse.Stream.{
  ensure_created, feed, Closed, close_item, reasoning_done, close_reasoning, message_done,
  close_message, call_done, close_each, close_calls, conclude, final_status, final_event,
  final_response, outputs, finish_sse, feed_all, run,
}
use llm_provider_router.Responses.Sse.Protocol.{
  waiting, closed, is_created, is_final, read, read_all, read_all-append, IsOpen, push_seq-IsOpen,
  set_sse-IsOpen, read-streaming,
}
use llm_provider_router.Responses.Sse.Protocol.Chunks.{take_usage-IsOpen, feed_choice-IsOpen}

-- Nothing was sent yet, or the stream is open.
abbrev IsFresh : Feed → Type 0
IsFresh p = (p.sse.emitted_created ≡ false) × (p.sse.sequence ≡ 0) × (p.out ≡ [])

ensure_created-IsOpen : (p : Feed) → IsFresh p ⊎ IsOpen p → IsOpen (ensure_created p)
unfolding ensure_created IsOpen read_all read text text_eq is_created
ensure_created-IsOpen p (inl (fresh, number, nothing)) =
    if-split IsOpen p.sse.emitted_created p _ (λ e. absurd (ground (arith, e, fresh)))
      (λ e. (refl, rw (nothing, number) refl))
ensure_created-IsOpen p (inr before) =
    if-split IsOpen p.sse.emitted_created p _ (λ e. before)
      (λ e. absurd (ground (arith, e, before.0)))

close_item-IsOpen :
    (index : ℕ) (item : Json) (c : Closed) → IsOpen c.0 → IsOpen (close_item index item c).0
unfolding close_item text text_eq is_created is_final
close_item-IsOpen index item c before = search push_seq-IsOpen

reasoning_done-IsOpen : (rs : ReasoningState) (p : Feed) → IsOpen p → IsOpen (reasoning_done rs p)
unfolding reasoning_done text text_eq is_created is_final IsOpen
reasoning_done-IsOpen rs p before = search push_seq-IsOpen

message_done-IsOpen : (m : MessageState) (p : Feed) → IsOpen p → IsOpen (message_done m p)
unfolding message_done text text_eq is_created is_final IsOpen
message_done-IsOpen m p before = search push_seq-IsOpen

call_done-IsOpen : (t : ToolState) (p : Feed) → IsOpen p → IsOpen (call_done t p)
unfolding call_done text text_eq is_created is_final
call_done-IsOpen t p before = search push_seq-IsOpen

close_reasoning-IsOpen : (c : Closed) → IsOpen c.0 → IsOpen (close_reasoning c).0
unfolding close_reasoning
close_reasoning-IsOpen (p, items) before =
    elim-cases (λ (c : Closed). IsOpen c.0) p.sse.reasoning (p, items) _ before
      (λ rs e.
        close_item-IsOpen rs.output_index _ (reasoning_done rs p, items)
          (reasoning_done-IsOpen rs p before))

close_message-IsOpen : (c : Closed) → IsOpen c.0 → IsOpen (close_message c).0
unfolding close_message
close_message-IsOpen (p, items) before =
    elim-cases (λ (c : Closed). IsOpen c.0) p.sse.message (p, items) _ before
      (λ m e.
        close_item-IsOpen m.output_index _ (message_done m p, items)
          (message_done-IsOpen m p before))

close_each-IsOpen : (ts : List ToolState) (c : Closed) → IsOpen c.0 → IsOpen (close_each ts c).0
unfolding close_each
close_each-IsOpen [] c before = before
close_each-IsOpen (t ∷ ts) c before =
    close_each-IsOpen ts _
      (close_item-IsOpen t.output_index _ (call_done t c.0, c.1) (call_done-IsOpen t c.0 before))

close_calls-IsOpen : (c : Closed) → IsOpen c.0 → IsOpen (close_calls c).0
unfolding close_calls
close_calls-IsOpen (p, items) before =
    close_each-IsOpen p.sse.tool_calls (set_sse (record p.sse { tool_calls = [] }) p, items)
      (set_sse-IsOpen (record p.sse { tool_calls = [] }) p refl refl before)

final_event-IsFinal :
    (status : Text)
    → (is_created (final_event status) ≡ false) × (is_final (final_event status) ≡ true)
unfolding final_event text text_eq is_created is_final
final_event-IsFinal status =
    if-cases (λ n. (is_created n ≡ false) × (is_final n ≡ true)) (status == text "incomplete") _ _
      (refl, refl) (refl, refl)

-- The reader has come to the end, at the machine's number.
abbrev pub IsRead : Feed → Type 0
IsRead p = read_all waiting p.out ≡ some (closed p.sse.sequence)

push_final-IsRead :
    (name : Text) (fs : Fields) (p : Feed)
    → is_created name ≡ false
    → is_final name ≡ true
    → IsOpen p
    → IsRead (send done_mark (push_seq name (object fs) p))
unfolding push_seq IsOpen read
push_final-IsRead name fs p other last (emitted, reached) =
    let e = event name (numbered name (bump p.sse.sequence) (object fs)) in
    rw
      (
        read_all-append waiting (p.out ++ e ∷ []) done_mark,
        read_all-append waiting p.out e,
        reached,
        read-streaming p.sse.sequence name fs other,
        last,
      )
      refl

conclude-IsRead : (c : Closed) → IsOpen c.0 → IsRead (conclude c).0
unfolding conclude
conclude-IsRead (p, items) before =
    let output = outputs items in
    let named = final_event-IsFinal (final_status p.sse.finish_reason).0 in
    push_final-IsRead (final_event (final_status p.sse.finish_reason).0)
      (fields ((text "response", final_response p.sse output) ∷ [])) p named.0 named.1 before

finish_sse-IsRead : (p : Feed) → IsFresh p ⊎ IsOpen p → IsRead (finish_sse p).0
unfolding finish_sse
finish_sse-IsRead p before =
    let c : Closed = (ensure_created p, []) in
    let after_reasoning = close_reasoning-IsOpen c (ensure_created-IsOpen p before) in
    let after_message = close_message-IsOpen (close_reasoning c) after_reasoning in
    conclude-IsRead (close_calls (close_message (close_reasoning c)))
      (close_calls-IsOpen (close_message (close_reasoning c)) after_message)

feed-IsOpen : (now : ℕ) (chunk : Json) (p : Feed) → IsFresh p ⊎ IsOpen p → IsOpen (feed now chunk p)
unfolding feed
feed-IsOpen now chunk p before =
    let opened = take_usage-IsOpen chunk (ensure_created p) (ensure_created-IsOpen p before) in
    elim-cases IsOpen (first_choice chunk) _
      (λ choice. feed_choice now choice (take_usage chunk (ensure_created p))) opened
      (λ choice e. feed_choice-IsOpen now choice _ opened)

feed_all-IsOpen :
    (chunks : List (ℕ × Json)) (p : Feed)
    → IsFresh p ⊎ IsOpen p
    → IsFresh (feed_all chunks p) ⊎ IsOpen (feed_all chunks p)
unfolding feed_all
feed_all-IsOpen [] p before = before
feed_all-IsOpen ((now, chunk) ∷ rest) p before =
    feed_all-IsOpen rest (feed now chunk p) (inr (feed-IsOpen now chunk p before))

-- For every sequence of chunks, the reader of a stream accepts what `feed` and `finish` send:
-- `response.created` first and only then, numbered events without a gap from 1 on (modulo 2 ^ 64),
-- `response.completed` or `response.incomplete` as the only final event, and then the closing line, which is
-- the last. The number of the final event is the machine's.
pub stream_read :
    (now counter : ℕ) (model : Text) (echo : Json) (chunks : List (ℕ × Json))
    → read_all waiting (run now counter model echo chunks).0.out
      ≡ some (closed (run now counter model echo chunks).0.sse.sequence)
unfolding run with_echo
stream_read now counter model echo chunks =
    finish_sse-IsRead _
      (feed_all-IsOpen chunks (with_echo now counter model echo) (inl (refl, refl, refl)))

-- ===== src/Responses/Sse/Protocol.antt =====
-- What a client may rely on in the events of a stream (src/features/responses/stream/mod.rs): their
-- order and their numbers, as a reader of the stream that refuses everything else.
pub mod Chunks
pub mod Run
use llm_provider_router.Prelude.{
  ℕ, Text, text, Bool, true, false, ◌||◌, Option, none, some, List, [], ◌∷◌, ◌++◌, ◌≡◌, refl, sym,
  ap, ◌∙◌, nat_beq, text_eq_iff, arith, ◌==◌, text_equality, if◌then◌else◌, elim-cases, if-cases,
  text_eq,
}
use llm_provider_router.Prelude.Json.{
  Json, number, string, object, Fields, field, get, get_field, insert_field, get_field-insert_field,
}
use llm_provider_router.Responses.Sse.{
  MessageState, ResponsesSse, Sent, event, done_mark, Feed, fields, bump, numbered, push_seq,
  set_sse, send, id_text, ensure_message, push_message_delta,
}

pub data Phase : Type 0 where
  -- Nothing was sent.
  waiting : Phase
  -- The stream is open, and the last event had this number.
  streaming : ℕ → Phase
  -- The event that ends the response had this number.
  ended : ℕ → Phase
  -- The closing line was sent.
  closed : ℕ → Phase

unfoldable pub is_created : Text → Bool
unfolding text
is_created name = name == text "response.created"

unfoldable pub is_final : Text → Bool
unfolding text
is_final name = name == text "response.completed" || name == text "response.incomplete"

-- `sequence_number` of an event.
unfoldable pub number_of : Json → Option ℕ
unfolding text get
number_of v = elim (get (text "sequence_number") v) [ some (number n) ↦ some n | _ ↦ none ]

-- The reader: `response.created` first and never again, then events that are numbered without a gap,
-- the last one of them final, then the mark.
unfoldable pub read : Phase → Sent → Option Phase
unfolding is_created is_final number_of
read waiting (event name v) = if is_created name then some (streaming 0) else none
read (streaming n) (event name v) = if is_created name then none else elim (number_of v) [
  | none ↦ none
  | some k ↦
      if nat_beq k (bump n) then some (if is_final name then ended k else streaming k) else none
]
read (ended n) done_mark = some (closed n)
read _ _ = none

unfoldable pub read_all : Phase → List Sent → Option Phase
unfolding read
read_all q [] = some q
read_all q (e ∷ es) = elim (read q e) [ none ↦ none | some q' ↦ read_all q' es ]

-- What a reader that has come to a phase makes of one event more.
abbrev pub then_read : Option Phase → Sent → Option Phase
then_read none e = none
then_read (some q) e = read q e

pub read_all-append :
    (q : Phase) (es : List Sent) (e : Sent)
    → read_all q (es ++ e ∷ []) ≡ then_read (read_all q es) e
unfolding read_all
read_all-append q [] e = elim (read q e) as (λ o. elim o [ none ↦ none | some q' ↦ some q' ] ≡ o) [
  | none ↦ refl
  | some q' ↦ refl
]
read_all-append q (d ∷ es) e =
    elim (read q d)
      as (λ o.
        elim o [ none ↦ none | some q' ↦ read_all q' (es ++ e ∷ []) ]
        ≡ then_read (elim o [ none ↦ none | some q' ↦ read_all q' es ]) e) [
          | none ↦ refl
          | some q' ↦ read_all-append q' es e
        ]

-- The stream is open, and its reader is at the machine's number.
unfoldable pub IsOpen : Feed → Type 0
unfolding read_all
IsOpen p =
    (p.sse.emitted_created ≡ true) × (read_all waiting p.out ≡ some (streaming p.sse.sequence))

number_of-numbered :
    (name : Text) (n : ℕ) (fs : Fields) → number_of (numbered name n (object fs)) ≡ some n
unfolding number_of numbered text get text_eq
number_of-numbered name n fs =
    rw
      (
        number_of,
        get_field-insert_field (text "sequence_number") (text "sequence_number") (number n)
            (insert_field (text "type") (string name) fs),
      )
      refl

pub read-streaming :
    (n : ℕ) (name : Text) (fs : Fields)
    → is_created name ≡ false
    → read (streaming n) (event name (numbered name (bump n) (object fs)))
      ≡ some (if is_final name then ended (bump n) else streaming (bump n))
unfolding read
read-streaming n name fs other =
    let own : nat_beq (bump n) (bump n) ≡ true = ground arith in
    rw (other, number_of-numbered name (bump n) fs, own) refl

pub push_seq-IsOpen :
    (name : Text) (fs : Fields) (p : Feed)
    → is_created name ≡ false
    → is_final name ≡ false
    → IsOpen p
    → IsOpen (push_seq name (object fs) p)
unfolding push_seq IsOpen
push_seq-IsOpen name fs p other middle (emitted, reached) = (
  emitted,
  rw
      (
        read_all-append waiting p.out
            (event name (numbered name (bump p.sse.sequence) (object fs))),
        reached,
        read-streaming p.sse.sequence name fs other,
        middle,
      )
      refl,
)

-- The other fields of the machine may change.
pub set_sse-IsOpen :
    (s : ResponsesSse) (p : Feed)
    → s.emitted_created ≡ p.sse.emitted_created
    → s.sequence ≡ p.sse.sequence
    → IsOpen p
    → IsOpen (set_sse s p)
unfolding IsOpen
set_sse-IsOpen s p emitted same (e, reached) = (emitted ∙ e, rw (same) reached)

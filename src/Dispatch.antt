-- ===== src/Dispatch.antt =====
-- The calls of an upstream for one physical model: `call_responses_passthrough` and
-- `call_upstream_responses` of src/routes/responses.rs and `call_anthropic_passthrough` of
-- src/routes/messages.rs, which share one loop of rounds. A round picks a key, sends the request and
-- acts on the answer. What a round meets outside the router is a `Round`: the libraries, the clock,
-- the stored keys, the answers of the upstream, and what other requests do to the state before the
-- round and while its request is on its way. Headers and the rendering of a reply are left out.
mod Kept
mod Rounds
mod Progress
pub mod Calls
pub mod Health
pub mod Failover
use llm_provider_router.Prelude.{
  ℕ, zero, suc, ◌+◌, Text, text, Bool, true, false, ◌&&◌, Option, none, some, List, [], ◌∷◌, ◌++◌,
  is_blank, leb, ltb, nat_beq, unwrap_or, or_option, text_equality, if◌then◌else◌,
}
use llm_provider_router.Prelude.Json.{Json, object, field, string, end, get, as_i64, number}
use llm_provider_router.Prelude.Dict.{Dict, lookup}
use llm_provider_router.Config.{KeyRef, ModelAlias}
use llm_provider_router.Usage.{usage_key_name, ◌>>=◌}
use llm_provider_router.Router.Freeze.{Env}
use llm_provider_router.Router.State.{RouterState, record_usage}
use llm_provider_router.Router.Select.{Selected, selected, no_available_key, select_key_excluding}
use llm_provider_router.Router.Failure.{
  Body, FailureAction, next_key, next_key_transient, retry_same, abort, handle_connect_failure,
  handle_response_failure, note_success_differential, circuit_breaker_on_exhaustion,
}
use llm_provider_router.Router.Failure.Embedded.{
  FromStr, handle_embedded_failure, clear_unsupported_if_ok, extract_usage,
}

pub data Endpoint : Type 0 where
  responses_passthrough responses_translated anthropic_passthrough : Endpoint

pub record Answer : Type 0 where
  pub status : ℕ
  pub retry_after : Option Text
  pub body : Text

pub record Round : Type 0 where
  pub env : Env
  pub selected_at : ℕ
  pub answered_at : ℕ
  pub others_before : RouterState → RouterState
  pub others_during : RouterState → RouterState
  pub api_keys : Dict Text Text
  pub send : KeyRef → ℕ → Option Answer

pub record World : Type 0 where
  pub from_str : FromStr
  pub rounds : ℕ → Round

-- The local variables of the loop.
pub record Trial : Type 0 where
  pub tried : List Text
  pub ambiguous : List KeyRef
  pub last_failure_transient : Bool
  pub retry_key : Option KeyRef
  pub same_key_attempt : ℕ

abbrev pub fresh_trial : Trial
fresh_trial = record {
  tried = [];
  ambiguous = [];
  last_failure_transient = false;
  retry_key = none;
  same_key_attempt = 0;
}

-- `Ok(response)` of a success or an abort, with its status and content; `Err(NoAvailable)`; the
-- answer to a provider without the endpoint; and no answer within the fuel. The contents are those of
-- the upstream, which the translating endpoint renders as objects of the Responses interface.
pub data Outcome : Type 0 where
  served : KeyRef → ℕ → Json → Outcome
  aborted : ℕ → Json → Outcome
  no_available : ℕ → Outcome
  no_endpoint : Outcome
  out_of_fuel : Outcome

-- How a round ends: with another round, or with the outcome.
pub data Turn : Type 0 where
  again : RouterState → Trial → Turn
  stop : RouterState → Outcome → Turn

-- `upstream_key_value(key)`: the stored value of the key's name, if it is not empty.
unfoldable pub upstream_key_value : Dict Text Text → KeyRef → Option Text
unfolding lookup
upstream_key_value api_keys key = do
  value ← lookup key.name api_keys
  elim value [ [] ↦ none | c ∷ cs ↦ some (c ∷ cs) ]

unfoldable pub should_retry_upstream_send : ℕ → Bool
should_retry_upstream_send attempt = nat_beq attempt 0

-- `for attempt in 0..2`
send_from : Round → KeyRef → ℕ → ℕ → Option Answer
unfolding should_retry_upstream_send
send_from round key attempt zero = none
send_from round key attempt (suc left) =
    let retried = send_from round key (attempt + 1) left in
    elim (round.send key attempt) [
      | some answer ↦ some answer
      | none ↦ if should_retry_upstream_send attempt then retried else none
    ]

unfoldable pub send_upstream : Round → KeyRef → Option Answer
unfolding send_from
send_upstream round key = send_from round key 0 2

-- The `type` of the error object that wraps a body that is no JSON.
wrap_type : Endpoint → Text
unfolding text
wrap_type responses_passthrough = text "upstream_error"
wrap_type responses_translated = text "upstream_error"
wrap_type anthropic_passthrough = text "api_error"

unfoldable pub content_of : FromStr → Endpoint → Text → Json
unfolding text wrap_type
content_of from_str endpoint body = unwrap_or (from_str body) (
    object (
      field (text "error")
        (object (
          field (text "message") (string body)
            (field (text "type") (string (wrap_type endpoint)) end)))
        end))

count_field : Text → Text → Json → ℕ
count_field name other usage =
    unwrap_or (or_option (do v ← get name usage; as_i64 v) (do v ← get other usage; as_i64 v)) 0

-- `normalize_usage(usage)` of src/features/anthropic/mod.rs
unfoldable pub normalize_usage : Json → Json
unfolding text count_field
normalize_usage usage = object (
    field (text "prompt_tokens")
      (number (count_field (text "input_tokens") (text "prompt_tokens") usage))
      (field (text "completion_tokens")
        (number (count_field (text "output_tokens") (text "completion_tokens") usage)) end))

-- `extract_anthropic_usage(content)`: the normalized usage is never empty.
unfoldable pub extract_anthropic_usage : Json → Option Json
unfolding extract_usage normalize_usage
extract_anthropic_usage content = do usage ← extract_usage content; some (normalize_usage usage)

-- The usage that goes with a failure of status 400 or more.
failure_usage : FromStr → Endpoint → Text → Option Json
failure_usage from_str responses_passthrough body =
    extract_usage (content_of from_str responses_passthrough body)
failure_usage from_str responses_translated body =
    extract_usage (content_of from_str responses_translated body)
failure_usage from_str anthropic_passthrough body = none

-- What a success changes, by the endpoint.
unfoldable pub on_success :
    FromStr
    → Endpoint
    → Round
    → ModelAlias
    → Option Text
    → KeyRef
    → Answer
    → List KeyRef
    → RouterState
    → RouterState
on_success from_str responses_passthrough round alias session key answer ambiguous s =
    let now = round.answered_at in
    let (s1, failed) =
      handle_embedded_failure from_str round.env now alias key answer.body session s in
    if failed
    then s1
    else clear_unsupported_if_ok key alias answer.status
        (note_success_differential now ambiguous s1)
on_success from_str responses_translated round alias session key answer ambiguous s =
    clear_unsupported_if_ok key alias answer.status
      (note_success_differential round.answered_at ambiguous s)
on_success from_str anthropic_passthrough round alias session key answer ambiguous s =
    let now = round.answered_at in
    let content = content_of from_str anthropic_passthrough answer.body in
    let usage =
      if leb 200 answer.status && ltb answer.status 300
      then extract_anthropic_usage content
      else none in
    record_usage now alias.alias (usage_key_name key) answer.status usage session
      (note_success_differential now ambiguous s)

-- The action of a failure, as the loop takes it.
unfoldable pub act : KeyRef → Trial → RouterState × FailureAction → Turn
act key t (s, next_key message) = again s (record t { last_failure_transient = false })
act key t (s, next_key_transient message) =
    again s (record t { ambiguous = t.ambiguous ++ key ∷ []; last_failure_transient = true })
act key t (s, retry_same delay message) = again s (record t { retry_key = some key })
act key t (s, abort status message content) = stop s (aborted status content)

unfoldable pub on_answer :
    FromStr
    → Endpoint
    → Round
    → ModelAlias
    → Option Text
    → KeyRef
    → Trial
    → Answer
    → RouterState
    → Turn
unfolding content_of failure_usage
on_answer from_str endpoint round alias session key t answer s =
    let body : Body = record { text_of = answer.body; json = from_str answer.body } in
    let failed = act key t (
      handle_response_failure round.env round.answered_at alias key answer.status answer.retry_after
        body (failure_usage from_str endpoint answer.body) session t.same_key_attempt s) in
    let s' = on_success from_str endpoint round alias session key answer t.ambiguous s in
    if leb 400 answer.status
    then failed
    else stop s' (served key answer.status (content_of from_str endpoint answer.body))

-- A connection failure is always transient.
unfoldable pub on_connect_failure :
    Round → ModelAlias → Option Text → KeyRef → Trial → RouterState → Turn
unfolding text
on_connect_failure round alias session key t s =
    act key t
      (handle_connect_failure round.answered_at alias key (text "upstream connect error") session s)

-- The round with its key: a key without a stored value is passed over.
unfoldable pub with_key :
    FromStr → Endpoint → Round → ModelAlias → Option Text → KeyRef → Trial → RouterState → Turn
unfolding upstream_key_value send_upstream
with_key from_str endpoint round alias session key t s =
    elim (upstream_key_value round.api_keys key) [
      | none ↦
          again (record_usage round.selected_at alias.alias (usage_key_name key) 599 none session s)
            (record t { last_failure_transient = false })
      | some value ↦ elim (send_upstream round key) [
        | none ↦ on_connect_failure round alias session key t (round.others_during s)
        | some answer ↦
            on_answer from_str endpoint round alias session key t answer (round.others_during s)
      ]
    ]

-- The answer of a selection: its name counts as tried, and with no key left the pool may break.
unfoldable pub on_selected :
    FromStr → Endpoint → Round → ModelAlias → Option Text → Trial → RouterState × Selected → Turn
on_selected from_str endpoint round alias session t (s, selected key) =
    with_key from_str endpoint round alias session key
      (record t { tried = key.name ∷ t.tried; same_key_attempt = 0 }) s
on_selected from_str endpoint round alias session t (s, no_available_key seconds) =
    stop
      (if t.last_failure_transient
        then circuit_breaker_on_exhaustion round.selected_at alias s
        else s)
      (no_available seconds)

unfoldable pub play :
    FromStr → Endpoint → Round → ModelAlias → Option Text → Trial → RouterState → Turn
play from_str endpoint round alias session t s = elim t.retry_key [
  | some key ↦
      with_key from_str endpoint round alias session key
        (record t { retry_key = none; same_key_attempt = t.same_key_attempt + 1 })
        (round.others_before s)
  | none ↦ on_selected from_str endpoint round alias session t (
      select_key_excluding round.env round.selected_at alias session t.tried
        (round.others_before s))
]

-- The loop, from the round `n` on.
unfoldable pub loop :
    World
    → Endpoint
    → ModelAlias
    → Option Text
    → ℕ
    → ℕ
    → Trial
    → RouterState
    → RouterState × Outcome
loop world endpoint alias session zero n t s = (s, out_of_fuel)
loop world endpoint alias session (suc fuel) n t s =
    elim (play world.from_str endpoint (world.rounds n) alias session t s) [
      | again s' t' ↦ loop world endpoint alias session fuel (n + 1) t' s'
      | stop s' o ↦ (s', o)
    ]

-- Whether the provider's URL for the endpoint is missing.
unfoldable pub lacks_endpoint : Endpoint → ModelAlias → Bool
unfolding is_blank
lacks_endpoint responses_passthrough alias = is_blank (unwrap_or alias.responses_base_url [])
lacks_endpoint responses_translated alias = is_blank alias.base_url
lacks_endpoint anthropic_passthrough alias = is_blank (unwrap_or alias.anthropic_base_url [])

unfoldable pub call :
    World → Endpoint → ModelAlias → Option Text → ℕ → RouterState → RouterState × Outcome
unfolding lacks_endpoint
call world endpoint alias session fuel s =
    let run = loop world endpoint alias session fuel 0 fresh_trial s in
    if lacks_endpoint endpoint alias then (s, no_endpoint) else run

abbrev pub call_responses_passthrough :
    World → ModelAlias → Option Text → ℕ → RouterState → RouterState × Outcome
call_responses_passthrough world alias session fuel s =
    call world responses_passthrough alias session fuel s

abbrev pub call_upstream_responses :
    World → ModelAlias → Option Text → ℕ → RouterState → RouterState × Outcome
call_upstream_responses world alias session fuel s =
    call world responses_translated alias session fuel s

abbrev pub call_anthropic_passthrough :
    World → ModelAlias → Option Text → ℕ → RouterState → RouterState × Outcome
call_anthropic_passthrough world alias session fuel s =
    call world anthropic_passthrough alias session fuel s

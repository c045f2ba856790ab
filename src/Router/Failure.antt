-- ===== src/Router/Failure.antt =====
-- src/features/router/failure.rs: what a failed or broken request does to the router state. Journal
-- lines and the diagnostics file are not modelled; bodies are given with their JSON reading.
pub mod Effects
pub mod Avoided
pub mod Breaker
pub mod Unbinding
pub mod Embedded
pub mod Patience
pub mod Kept
use llm_provider_router.Prelude.{
  ℕ, suc, ◌+◌, Text, text, Bool, true, false, not, ◌&&◌, ◌||◌, Option, none, some, List, [], ◌∷◌,
  ◌++◌, ltb, leb, nat_beq, length, take, decimal, or_option, unwrap_or, contains_text, text_eq,
  ◌==◌, text_equality, if◌then◌else◌,
}
use llm_provider_router.Prelude.Int.{positive}
use llm_provider_router.Prelude.Json.{
  Json, get, as_str, as_i64, is_object, object, string, field, end,
}
use llm_provider_router.Config.{KeyRef, ModelAlias, upstream_model, alias_provider}
use llm_provider_router.ErrorRules.{
  ErrorClass, invalid, rate_limited, model_unsupported, transient, class_name, ClassifiedFailure,
  classify,
}
use llm_provider_router.Usage.{usage_key_name, ◌>>=◌}
use llm_provider_router.Router.Freeze.{Env, key_state_id, parse_retry_after, parse_quota_reset}
use llm_provider_router.Router.State.{
  RouterState, ErrorLogEntry, freeze, unbind, tunables, push_recent_error, record_usage,
  mark_key_model_unsupported, note_connect_failure, note_connect_failure_streak, is_frozen,
}

abbrev pub connect_error_status : ℕ
connect_error_status = 599

abbrev pub embedded_error_status : ℕ
embedded_error_status = 200

abbrev pub stream_break_status : ℕ
stream_break_status = 598

pub data FailureAction : Type 0 where
  next_key next_key_transient : Text → FailureAction
  retry_same : ℕ → Text → FailureAction
  abort : ℕ → Text → Json → FailureAction

-- A body as text, with what `serde_json::from_str` reads in it.
pub record Body : Type 0 where
  pub text_of : Text
  pub json : Option Json

extract_error_message : Body → Text
unfolding text
extract_error_message b =
    unwrap_or (do j ← b.json; e ← get (text "error") j; m ← get (text "message") e; as_str m)
      (take 300 b.text_of)

error_message : Json → Option Text
unfolding text
error_message v =
    or_option (do m ← get (text "message") v; as_str m) (do m ← get (text "msg") v; as_str m)

number_text : Json → Option Text
number_text v = do n ← as_i64 v; some (decimal n)

error_code : Json → Text
unfolding text number_text
error_code v =
    unwrap_or
      (or_option (do c ← get (text "code") v; or_option (as_str c) (number_text c))
        (do t ← get (text "type") v; as_str t))
      (text "upstream_error")

-- `filter(|v| v.is_object())`
only_object : Json → Option Json
only_object v = if is_object v then some v else none

coded : Json → Option (Text × Text)
unfolding error_code error_message
coded v = do m ← error_message v; some (error_code v, m)

-- The five shapes of an error event: its code and message.
unfoldable pub extract_stream_error_event : Json → Option (Text × Text)
unfolding text only_object coded
extract_stream_error_event v =
    let typ = unwrap_or (do t ← get (text "type") v; as_str t) [] in
    let failed : Option (Text × Text) = (do
      r ← get (text "response") v
      e ← get (text "error") r
      o ← only_object e
      coded o) in
    let inner : Option (Text × Text) = (do e ← get (text "error") v; o ← only_object e; coded o) in
    let whole : Option (Text × Text) =
      (if typ == text "error" || typ == [] then coded v else none) in
    if typ == text "response.failed" then failed else or_option inner whole

abbrev log_entry : ℕ → ModelAlias → KeyRef → ℕ → ErrorClass → Text → Text → ErrorLogEntry
log_entry now alias key status class rule message = record {
  ts = now;
  provider = alias_provider alias;
  key = key.name;
  alias = alias.alias;
  model = upstream_model alias;
  status = status;
  class = class_name class;
  rule = rule;
  message = take 300 message;
}

pub unbind_session : ModelAlias → Option Text → RouterState → RouterState
unbind_session alias none s = s
unbind_session alias (some session) s = unbind alias.alias session s

freeze_invalid : ℕ → KeyRef → Text → RouterState → RouterState
unfolding text
freeze_invalid now key rule s =
    (freeze (key_state_id key) (now + (tunables s).invalid_freeze) (text "invalid:" ++ rule) s).0

freeze_until : KeyRef → Option (ℕ × Text) → RouterState → RouterState
freeze_until key none s = s
freeze_until key (some (until, reason)) s = (freeze (key_state_id key) until reason s).0

pub quota_reset : Env → ℕ → Text → RouterState → Option (ℕ × Text)
quota_reset env now body s =
    parse_quota_reset env now body s.settings.monthly_quota_fallback
      s.settings.five_hour_quota_fallback

-- The retry-after header, else the reset time of the body, else no freeze.
freeze_rate_limited : Env → ℕ → KeyRef → Option Text → Text → RouterState → RouterState
unfolding text
freeze_rate_limited env now key retry_after body s = elim (parse_retry_after env now retry_after) [
  | some until ↦ (freeze (key_state_id key) until (text "retry_after") s).0
  | none ↦ freeze_until key (quota_reset env now body s) s
]

embedded_freeze : Env → ℕ → KeyRef → Text → ClassifiedFailure → RouterState → RouterState
embedded_freeze env now key message c s = elim c.class [
  | invalid ↦ freeze_invalid now key c.rule s
  | rate_limited ↦ freeze_until key (quota_reset env now message s) s
  | model_unsupported ↦ s
  | transient ↦ s
]

-- An error event inside an answer of status 200.
pub apply_embedded_failure :
    Env → ℕ → ModelAlias → KeyRef → Text → Text → Option Text → RouterState → RouterState
unfolding text
apply_embedded_failure env now alias key code message session s =
    let c =
      classify s.error_rules (alias_provider alias) embedded_error_status
        (env.to_lowercase (code ++ b' ' ∷ message)) in
    let entry =
      log_entry now alias key embedded_error_status c.class c.rule
        (text "[stream] " ++ (code ++ (text ": " ++ message))) in
    embedded_freeze env now key message c (unbind_session alias session (push_recent_error entry s))

-- A stream that ended abnormally before any byte reached the client.
pub note_zero_output_incomplete :
    ℕ → ModelAlias → KeyRef → Text → Option Text → RouterState → RouterState
unfolding text
note_zero_output_incomplete now alias key reason session s =
    let entry =
      log_entry now alias key embedded_error_status transient (text "zero_output_incomplete")
        (text "[stream] zero-output incomplete: " ++ reason) in
    let s' = unbind_session alias session (push_recent_error entry s) in
    (freeze (key_state_id key) (now + (tunables s').differential_freeze)
      (text "zero_output_incomplete") s').0

-- `is_unsupported_signal`: 404 and "not support" in the error's message.
pub is_unsupported_signal : Env → ℕ → Body → Bool
unfolding text
is_unsupported_signal env status b =
    nat_beq status 404
    && elim (do j ← b.json; e ← get (text "error") j; m ← get (text "message") e; as_str m) [
      | none ↦ false
      | some m ↦ contains_text (text "not support") (env.to_lowercase m)
    ]

upstream_text : ℕ → Text → Text
unfolding text
upstream_text status message = text "upstream " ++ (decimal status ++ (text ": " ++ message))

transient_action : ℕ → ℕ → ℕ → Text → FailureAction
transient_action attempt attempts interval message =
    if ltb (attempt + 1) attempts then retry_same interval message else next_key_transient message

-- The body as JSON, or wrapped into an error object.
unfoldable pub failure_content : Body → Json
unfolding text
failure_content b = unwrap_or b.json (
    object (
      field (text "error")
        (object (
          field (text "message") (string b.text_of)
            (field (text "type") (string (text "upstream_error")) end)))
        end))

pub note_unsupported : Env → ℕ → ModelAlias → KeyRef → ℕ → Body → Text → RouterState → RouterState
note_unsupported env now alias key status b message s =
    if is_unsupported_signal env status b
    then mark_key_model_unsupported now (key.provider, (key.name, upstream_model alias)) message s
    else s

response_action :
    Env
    → ℕ
    → ModelAlias
    → KeyRef
    → ℕ
    → Option Text
    → Body
    → ℕ
    → ClassifiedFailure
    → RouterState
    → RouterState × FailureAction
response_action env now alias key status retry_after b attempt c s =
    let message = extract_error_message b in
    let shown = upstream_text status message in
    elim c.class [
      | invalid ↦ (freeze_invalid now key c.rule s, next_key shown)
      | rate_limited ↦ (freeze_rate_limited env now key retry_after b.text_of s, next_key shown)
      | model_unsupported ↦ (
        note_unsupported env now alias key status b message s,
        abort status message (failure_content b),
      )
      | transient ↦ (
        s,
        transient_action attempt (tunables s).transient_attempts_per_key
            (tunables s).transient_retry_interval_ms shown,
      )
    ]

-- A response of status 400 or more: account it, log it, unbind the session, then act on its class.
pub handle_response_failure :
    Env
    → ℕ
    → ModelAlias
    → KeyRef
    → ℕ
    → Option Text
    → Body
    → Option Json
    → Option Text
    → ℕ
    → RouterState
    → RouterState × FailureAction
handle_response_failure env now alias key status retry_after b usage session attempt s =
    let c = classify s.error_rules (alias_provider alias) status (env.to_lowercase b.text_of) in
    let s1 = record_usage now alias.alias (usage_key_name key) status usage session s in
    let s2 =
      push_recent_error (log_entry now alias key status c.class c.rule (extract_error_message b))
        s1 in
    response_action env now alias key status retry_after b attempt c
      (unbind_session alias session s2)

-- The short freeze of a connection failure; a pool of one key is spared.
pub connect_freeze : ℕ → ModelAlias → KeyRef → RouterState → RouterState
unfolding text
connect_freeze now alias key s =
    let base = (tunables s).connect_error_freeze in
    let (s', ttl) = note_connect_failure_streak now (key_state_id key) base s in
    let frozen = (freeze (key_state_id key) (now + ttl) (text "connect_error") s').0 in
    if ltb 0 base && not (leb (length alias.keys) 1) then (if ltb 0 ttl then frozen else s') else s

pub handle_connect_failure :
    ℕ → ModelAlias → KeyRef → Text → Option Text → RouterState → RouterState × FailureAction
unfolding text
handle_connect_failure now alias key exc session s =
    let message = text "upstream connect error: " ++ exc in
    let s1 =
      record_usage now alias.alias (usage_key_name key) connect_error_status none session s in
    let s2 = unbind_session alias session s1 in
    let s3 = note_connect_failure now (key_state_id key) message s2 in
    let s4 = connect_freeze now alias key s3 in
    (
      push_recent_error
          (log_entry now alias key connect_error_status transient (text "connect") message) s4,
      next_key_transient message,
    )

pub note_stream_break :
    ℕ → ModelAlias → KeyRef → Text → Bool → ℕ → Option Text → RouterState → RouterState
unfolding text
note_stream_break now alias key exc is_timeout bytes session s =
    let kind = (if is_timeout then text "timeout" else text "transport") in
    let message =
      text "[stream-break:"
      ++ (kind ++ (text "] " ++ (decimal bytes ++ (text " bytes received: " ++ exc)))) in
    let s1 = record_usage now alias.alias (usage_key_name key) stream_break_status none session s in
    push_recent_error (log_entry now alias key stream_break_status transient [] message)
      (unbind_session alias session s1)

freeze_each : ℕ → Text → List KeyRef → RouterState → RouterState
freeze_each until reason [] s = s
freeze_each until reason (k ∷ ks) s =
    freeze_each until reason ks (freeze (key_state_id k) until reason s).0

-- Keys that failed in a request that another key then served.
pub note_success_differential : ℕ → List KeyRef → RouterState → RouterState
unfolding text
note_success_differential now ambiguous s =
    freeze_each (now + (tunables s).differential_freeze) (text "differential_peer_success")
      ambiguous s

-- One key of the breaker: frozen unless it is already, or the store cannot tell.
break_key : ℕ → ℕ → KeyRef → RouterState → RouterState
unfolding text
break_key now until k s =
    let (s', r) = is_frozen now (key_state_id k) s in
    let broken = (freeze (key_state_id k) until (text "transient_exhausted") s').0 in
    if unwrap_or r true then s' else broken

break_keys : ℕ → ℕ → List KeyRef → RouterState → RouterState
break_keys now until [] s = s
break_keys now until (k ∷ ks) s =
    break_keys now until ks (if positive k.weight then break_key now until k s else s)

-- Every key of the pool failed, the last one transiently.
pub circuit_breaker_on_exhaustion : ℕ → ModelAlias → RouterState → RouterState
circuit_breaker_on_exhaustion now alias s =
    let seconds = (tunables s).transient_exhausted_freeze in
    if nat_beq seconds 0 then s else break_keys now (now + seconds) alias.keys s

-- ===== src/Router/Failure/Embedded.antt =====
-- src/features/router/failure.rs: error events inside answers of status 200, and what a success of a
-- key clears (src/features/chat/select.rs). `from_str` is the reader of JSON.
use llm_provider_router.Prelude.{
  ℕ, Text, text, Bool, true, false, not, ◌&&◌, ◌||◌, Option, none, some, List, [], ◌∷◌, starts_with,
  strip_prefix, contains_text, trim, lines, leb, ◌==◌, text_equality, if◌then◌else◌,
}
use llm_provider_router.Prelude.Json.{Json, get, is_object}
use llm_provider_router.Config.{KeyRef, ModelAlias, upstream_model}
use llm_provider_router.Usage.{◌>>=◌}
use llm_provider_router.Router.Freeze.{Env, key_state_id}
use llm_provider_router.Router.State.{
  RouterState, clear_key_model_unsupported, clear_connect_streak,
}
use llm_provider_router.Router.Failure.{extract_stream_error_event, apply_embedded_failure}

abbrev pub FromStr : Type 0
FromStr = Text → Option Json

-- The payload of a `data:` line, `none` for what is skipped.
unfoldable pub data_line : Text → Option Text
unfolding text trim strip_prefix
data_line line = elim (strip_prefix (text "data:") (trim line)) [
  | none ↦ none
  | some rest ↦
      let body = trim rest in if body == [] || body == text "[DONE]" then none else some body
]

unfoldable pub scan_lines : FromStr → List Text → Option (Text × Text)
unfolding data_line extract_stream_error_event
scan_lines from_str [] = none
scan_lines from_str (line ∷ rest) =
    let found : Option (Text × Text) = (do
      body ← data_line line
      value ← from_str body
      extract_stream_error_event value) in
    let later = scan_lines from_str rest in elim found [ none ↦ later | some f ↦ some f ]

unfoldable pub scan_error_event_text : FromStr → Text → Option (Text × Text)
unfolding trim lines scan_lines starts_with extract_stream_error_event
scan_error_event_text from_str body_text =
    let trimmed = trim body_text in
    let whole : Option (Text × Text) = (do
      value ← from_str trimmed
      extract_stream_error_event value) in
    if not (starts_with (b'{' ∷ []) trimmed) && not (starts_with (b'[' ∷ []) trimmed)
    then scan_lines from_str (lines body_text)
    else whole

-- The texts without which no body is scanned.
unfoldable pub may_hold_error : Text → Bool
unfolding text contains_text
may_hold_error body_text =
    contains_text (text "\"error\"") body_text
    || contains_text (text "response.failed") body_text
    || contains_text (text "\"msg\"") body_text
    || contains_text (text "\"code\"") body_text

-- Whether an error was found and applied.
unfoldable pub handle_embedded_failure :
    FromStr → Env → ℕ → ModelAlias → KeyRef → Text → Option Text → RouterState → RouterState × Bool
unfolding may_hold_error scan_error_event_text
handle_embedded_failure from_str env now alias key body_text session s =
    elim (if may_hold_error body_text then scan_error_event_text from_str body_text else none) [
      | none ↦ (s, false)
      | some (code, message) ↦
          (apply_embedded_failure env now alias key code message session s, true)
    ]

-- `content.get("usage").filter(|value| value.is_object())`
unfoldable pub extract_usage : Json → Option Json
unfolding text get is_object
extract_usage content = do
  usage ← get (text "usage") content
  if is_object usage then some usage else none

-- The last usage of a stream's events.
usage_of_lines : FromStr → List Text → Option Json
unfolding data_line extract_usage
usage_of_lines from_str [] = none
usage_of_lines from_str (line ∷ rest) =
    let later = usage_of_lines from_str rest in
    let here : Option Json = (do
      body ← data_line line
      value ← from_str body
      extract_usage value) in
    elim later [ none ↦ here | some u ↦ some u ]

unfoldable pub extract_usage_from_stream : FromStr → Text → Option Json
unfolding usage_of_lines lines
extract_usage_from_stream from_str body_text = usage_of_lines from_str (lines body_text)

unfoldable pub clear_unsupported_if_ok : KeyRef → ModelAlias → ℕ → RouterState → RouterState
clear_unsupported_if_ok key alias status s =
    if leb 400 status
    then s
    else clear_connect_streak (key_state_id key)
        (clear_key_model_unsupported (key.provider, (key.name, upstream_model alias)) s)

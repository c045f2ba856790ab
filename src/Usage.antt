-- ===== src/Usage.antt =====
-- src/usage_store.rs (`record`, `reset`, the two token totals behind key selection) and
-- `usage_key_name` of src/features/chat/select.rs. An SQL statement succeeds while `conn_ok`.
pub mod Totals
use llm_provider_router.Prelude.{
  ℕ, ◌+◌, Text, text, Bool, true, ◌&&◌, Option, none, some, List, [], ◌∷◌, ◌++◌, leb, filter,
  contains, unwrap_or, or_option, ◌==◌, text_equality, if◌then◌else◌,
}
use llm_provider_router.Prelude.Json.{Json, get, as_i64}
use llm_provider_router.Prelude.Dict.{Dict, lookup, insert}
use llm_provider_router.Config.{KeyRef}

pub record UsageEvent : Type 0 where
  pub created_at : ℕ
  pub model : Text
  pub key_name : Text
  pub status_code : ℕ
  pub session_id : Option Text
  pub prompt_tokens : ℕ
  pub cached_tokens : ℕ
  pub completion_tokens : ℕ
  pub total_tokens : ℕ

pub record UsageStore : Type 0 where
  pub conn_ok : Bool
  pub events : List UsageEvent

infixl 5 ◌>>=◌
abbrev pub ◌>>=◌ {ℓ κ} : {A : Type ℓ} {B : Type κ} → Option A → (A → Option B) → Option B
none >>= f = none
some a >>= f = f a

-- The name under which a request is accounted: `provider/key`.
unfoldable pub usage_key_name : KeyRef → Text
usage_key_name key = key.provider ++ b'/' ∷ key.name

-- `usage.and_then(|u| u.get(k)).and_then(Value::as_i64)`
usage_field : Text → Option Json → Option ℕ
usage_field k usage = do u ← usage; v ← get k u; as_i64 v

extract_cached_tokens : Option Json → ℕ
unfolding usage_field text
extract_cached_tokens usage =
    let details = usage >>= get (text "prompt_tokens_details") in
    unwrap_or
      (or_option (usage_field (text "cached_tokens") details)
        (usage_field (text "cached_tokens") usage))
      0

-- `session_id.filter(|value| !value.is_empty())`
non_empty : Option Text → Option Text
non_empty none = none
non_empty (some []) = none
non_empty (some (c ∷ s)) = some (c ∷ s)

event_of : ℕ → Text → Text → ℕ → Option Json → Option Text → UsageEvent
unfolding usage_field extract_cached_tokens non_empty text
event_of now model key_name status usage session_id = record {
  created_at = now;
  model = model;
  key_name = key_name;
  status_code = status;
  session_id = non_empty session_id;
  prompt_tokens = unwrap_or (usage_field (text "prompt_tokens") usage) 0;
  cached_tokens = extract_cached_tokens usage;
  completion_tokens = unwrap_or (usage_field (text "completion_tokens") usage) 0;
  total_tokens = unwrap_or (usage_field (text "total_tokens") usage) 0;
}

unfoldable pub record_event :
    UsageStore → ℕ → Text → Text → ℕ → Option Json → Option Text → Option UsageStore
unfolding event_of
record_event u now model key_name status usage session_id =
    if u.conn_ok
    then some
        (record u { events = u.events ++ event_of now model key_name status usage session_id ∷ [] })
    else none

unfoldable pub reset : UsageStore → Option UsageStore
reset u = if u.conn_ok then some (record u { events = [] }) else none

zeros : List Text → Dict Text ℕ
zeros [] = []
zeros (n ∷ names) = insert n 0 (zeros names)

-- `SUM(total_tokens) … GROUP BY key_name`, read into the map of zeros.
accumulate : List UsageEvent → Dict Text ℕ → Dict Text ℕ
accumulate [] totals = totals
accumulate (e ∷ es) totals =
    accumulate es
      (insert e.key_name (unwrap_or (lookup e.key_name totals) 0 + e.total_tokens) totals)

-- The `WHERE` clause; `midnight` is the start of the local day.
abbrev selected : ℕ → List Text → UsageEvent → Bool
selected midnight names e = leb midnight e.created_at && contains e.key_name names

totals_where : UsageStore → (UsageEvent → Bool) → List Text → Option (Dict Text ℕ)
unfolding zeros accumulate filter
totals_where u p [] = some []
totals_where u p (n ∷ names) =
    if u.conn_ok then some (accumulate (filter p u.events) (zeros (n ∷ names))) else none

unfoldable pub key_token_totals_today : UsageStore → ℕ → List Text → Option (Dict Text ℕ)
unfolding totals_where
key_token_totals_today u midnight names = totals_where u (selected midnight names) names

unfoldable pub key_token_totals_for_model : UsageStore → ℕ → Text → List Text → Option (Dict Text ℕ)
unfolding totals_where
key_token_totals_for_model u midnight model names =
    totals_where u (λ e. selected midnight names e && e.model == model) names

-- ===== src/Tests/Fixtures.antt =====
-- The keys, models and states that the runs share.
use llm_provider_router.Prelude.{none, some, [], ◌∷◌, true}
use llm_provider_router.Prelude.Int.{pos}
use llm_provider_router.Config.{KeyRef, ModelAlias, weighted, priority}
use llm_provider_router.Usage.{UsageEvent, UsageStore}
use llm_provider_router.ErrorRules.Presets.{builtin_config}
use llm_provider_router.StateStore.{StateStore}
use llm_provider_router.Router.Selection.{Sampler, TargetCandidate}
use llm_provider_router.Router.Freeze.{Env}
use llm_provider_router.Router.State.{RouterState, ErrorLogEntry}
use llm_provider_router.Router.Failure.{Body}

abbrev pub sampler : Sampler
sampler = record { digest_u64 = λ t. 5; gen_range = λ n. 0; gen_range_lt = λ n h. h }

abbrev pub env : Env
env = record {
  sampler = sampler;
  local_midnight = λ n. 0;
  to_lowercase = λ t. t;
  parse_http_date = λ t. none;
  reset_timestamp_offset = λ t. none;
  reset_timestamp_cn = λ t. none;
}

-- A key of the provider `p`.
abbrev pub key_a : KeyRef
key_a = record {
  name = b'a' ∷ [];
  weight = pos 3;
  provider = b'p' ∷ [];
  billing_type = [];
  daily_token_quota = some 10;
}

abbrev pub key_b : KeyRef
key_b = record key_a { name = b'b' ∷ []; weight = pos 1; daily_token_quota = none }

abbrev pub model_m : ModelAlias
model_m = record {
  alias = b'm' ∷ [];
  litellm_model = b'u' ∷ [];
  base_url = [];
  keys = key_a ∷ key_b ∷ [];
  retry_policy = none;
  params = [];
  context_window = none;
  max_output_tokens = none;
  thinking_level_map = none;
  thinking_format = none;
  responses_base_url = none;
  anthropic_base_url = none;
  strategy = weighted;
}

abbrev pub model_n : ModelAlias
model_n = record model_m { alias = b'n' ∷ []; keys = key_b ∷ [] }

abbrev pub candidate_m : TargetCandidate
candidate_m = record { model = model_m; weight = some (pos 2); strategy = weighted }

abbrev pub candidate_n : TargetCandidate
candidate_n = record { model = model_n; weight = none; strategy = priority }

-- 40 tokens of `p/a`, one after midnight.
abbrev pub event_a : UsageEvent
event_a = record {
  created_at = 3;
  model = b'm' ∷ [];
  key_name = b'p' ∷ b'/' ∷ b'a' ∷ [];
  status_code = 200;
  session_id = none;
  prompt_tokens = 30;
  cached_tokens = 0;
  completion_tokens = 10;
  total_tokens = 40;
}

abbrev pub usage : UsageStore
usage = record { conn_ok = true; events = event_a ∷ [] }

abbrev pub entry : ErrorLogEntry
entry = record {
  ts = 7;
  provider = b'p' ∷ [];
  key = b'a' ∷ [];
  alias = b'm' ∷ [];
  model = b'u' ∷ [];
  status = 500;
  class = [];
  rule = [];
  message = [];
}

abbrev pub store : StateStore
store = record {
  conn_ok = true;
  frozen_keys = [];
  session_bindings = [];
  key_model_unsupported = [];
}

abbrev pub state : RouterState
state = record {
  settings = record {
    session_ttl = 1_000;
    monthly_quota_fallback = 90;
    five_hour_quota_fallback = 50;
    subscription_invalid_freeze = 500;
  };
  store = store;
  frozen = [];
  bindings = [];
  unsupported = [];
  usage_store = usage;
  error_rules = builtin_config;
  recent_errors = [];
  connect_streaks = [];
  connect_failures = [];
}

-- `p/a` is frozen until 100.
abbrev pub frozen_state : RouterState
frozen_state = record state {
  frozen = (b'p' ∷ b'/' ∷ b'a' ∷ [], record { until = 100; reason = [] }) ∷ [];
}

abbrev pub unauthorized : Body
unauthorized = record { text_of = b'x' ∷ []; json = none }

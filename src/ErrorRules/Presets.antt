-- ===== src/ErrorRules/Presets.antt =====
-- The built-in templates of src/error_rules.rs: `default`, `ark` and `zp`.
use llm_provider_router.Prelude.{ℕ, Text, text, none, List, [], ◌∷◌}
use llm_provider_router.ErrorRules.{ClassRule, ClassTemplate, Tunables, ErrorRulesConfig}

abbrev by_status : List ℕ → ClassRule
by_status codes = record { status = codes; keywords_any = []; keywords_all = [] }

abbrev by_keyword : List Text → ClassRule
by_keyword words = record { status = []; keywords_any = words; keywords_all = [] }

abbrev auth_words : List Text
unfolding text
auth_words =
    text "subscription has expired"
    ∷ text "身份验证失败"
    ∷ text "authentication failed"
    ∷ text "invalid api key"
    ∷ []

unfoldable pub default_template : ClassTemplate
unfolding text
default_template = record {
  invalid_rules = by_status (401 ∷ 402 ∷ 403 ∷ []) ∷ by_keyword auth_words ∷ [];
  rate_limited_rules =
      by_status (429 ∷ [])
      ∷ by_keyword (text "rate_limit_error" ∷ text "rate_limit_exceeded" ∷ [])
      ∷ [];
  model_unsupported_rules = by_status (404 ∷ []) ∷ [];
  transient_rules = by_status (500 ∷ 502 ∷ 503 ∷ 504 ∷ []) ∷ [];
}

abbrev coding_plan : ClassRule
unfolding text
coding_plan = record {
  status = 400 ∷ [];
  keywords_any = [];
  keywords_all = text "codingplan" ∷ text "subscription" ∷ [];
}

unfoldable pub ark_template : ClassTemplate
unfolding text
ark_template = record {
  invalid_rules = by_status (401 ∷ 402 ∷ 403 ∷ []) ∷ coding_plan ∷ by_keyword auth_words ∷ [];
  rate_limited_rules =
      by_status (429 ∷ [])
      ∷ by_keyword (text "rate_limit_error" ∷ text "rate_limit_exceeded" ∷ [])
      ∷ [];
  model_unsupported_rules = by_status (404 ∷ []) ∷ [];
  transient_rules = by_status (500 ∷ 502 ∷ 503 ∷ 504 ∷ []) ∷ [];
}

unfoldable pub zp_template : ClassTemplate
unfolding text
zp_template = record {
  invalid_rules = by_status (401 ∷ 402 ∷ 403 ∷ []) ∷ by_keyword auth_words ∷ [];
  rate_limited_rules =
      by_status (429 ∷ []) ∷ by_keyword (text "使用上限" ∷ text "rate_limit_exceeded" ∷ []) ∷ [];
  model_unsupported_rules = by_status (404 ∷ []) ∷ [];
  transient_rules = by_status (500 ∷ 502 ∷ 503 ∷ 504 ∷ []) ∷ [];
}

no_tunables : Tunables
no_tunables = record {
  invalid_freeze = none;
  differential_freeze = none;
  transient_exhausted_freeze = none;
  connect_error_freeze = none;
  transient_attempts_per_key = none;
  transient_retry_interval_ms = none;
}

unfoldable pub builtin_config : ErrorRulesConfig
unfolding no_tunables text default_template ark_template zp_template
builtin_config = record {
  tunables = no_tunables;
  templates =
      (text "default", default_template)
      ∷ (text "ark", ark_template)
      ∷ (text "zp", zp_template)
      ∷ [];
  provider_bindings = [];
}

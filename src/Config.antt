-- ===== src/Config.antt =====
-- src/config.rs (`KeyRef`, `RetryPolicy`, `ModelAlias`) and src/config/v2/types.rs: keys, physical
-- and logical models, and the aggregated configuration that the router resolves names in.
pub mod Resolve
pub mod Validate
pub mod Fold
pub mod Mutate
use llm_provider_router.Prelude.{
  ℕ, Text, text, Bool, true, false, not, Option, none, some, List, [], ◌∷◌, strip_prefix, is_blank,
  is_some_and, unwrap_or, filter,
}
use llm_provider_router.Prelude.Int.{ℤ}
use llm_provider_router.Prelude.Json.{Json}
use llm_provider_router.Prelude.Dict.{Dict}

pub record KeyRef : Type 0 where
  pub name : Text
  pub weight : ℤ
  pub provider : Text
  pub billing_type : Text
  pub daily_token_quota : Option ℕ

pub record RetryPolicy : Type 0 where
  pub max_retry_seconds : ℕ
  pub retry_delay_seconds : ℕ
  pub retry_on_status : List ℕ

pub data Strategy : Type 0 where
  priority weighted usage_aware : Strategy

pub record ModelAlias : Type 0 where
  pub alias : Text
  pub litellm_model : Text
  pub base_url : Text
  pub keys : List KeyRef
  pub retry_policy : Option RetryPolicy
  pub params : Dict Text Json
  pub context_window : Option ℕ
  pub max_output_tokens : Option ℕ
  pub thinking_level_map : Option (Dict Text (Option Text))
  pub thinking_format : Option Text
  pub responses_base_url : Option Text
  pub anthropic_base_url : Option Text
  pub strategy : Strategy

unfoldable pub new_alias : Text → Text → Text → List KeyRef → Option RetryPolicy → ModelAlias
new_alias alias litellm_model base_url keys retry_policy = record {
  alias = alias;
  litellm_model = litellm_model;
  base_url = base_url;
  keys = keys;
  retry_policy = retry_policy;
  params = [];
  context_window = none;
  max_output_tokens = none;
  thinking_level_map = none;
  thinking_format = none;
  responses_base_url = none;
  anthropic_base_url = none;
  strategy = weighted;
}

-- The `with_…` builders.
abbrev pub with_strategy : Strategy → ModelAlias → ModelAlias
with_strategy s m = record m { strategy = s }

abbrev pub with_params : Dict Text Json → ModelAlias → ModelAlias
with_params p m = record m { params = p }

abbrev pub with_windows : Option ℕ → Option ℕ → ModelAlias → ModelAlias
with_windows w o m = record m { context_window = w; max_output_tokens = o }

abbrev pub with_thinking : Option (Dict Text (Option Text)) → Option Text → ModelAlias → ModelAlias
with_thinking l f m = record m { thinking_level_map = l; thinking_format = f }

abbrev pub with_responses_base_url : Option Text → ModelAlias → ModelAlias
with_responses_base_url u m = record m { responses_base_url = u }

abbrev pub with_anthropic_base_url : Option Text → ModelAlias → ModelAlias
with_anthropic_base_url u m = record m { anthropic_base_url = u }

unfoldable pub supports_responses : ModelAlias → Bool
unfolding is_blank
supports_responses m = is_some_and (λ s. not (is_blank s)) m.responses_base_url

unfoldable pub supports_anthropic : ModelAlias → Bool
unfolding is_blank
supports_anthropic m = is_some_and (λ s. not (is_blank s)) m.anthropic_base_url

unfoldable pub upstream_model : ModelAlias → Text
unfolding strip_prefix text
upstream_model m = unwrap_or (strip_prefix (text "openai/") m.litellm_model) m.litellm_model

-- `alias.provider()`: the provider of the first key, or the alias itself.
unfoldable pub alias_provider : ModelAlias → Text
alias_provider m = elim m.keys [ [] ↦ m.alias | key ∷ rest ↦ key.provider ]

pub record V2Key : Type 0 where
  pub weight : ℤ
  pub billing_type : Text
  pub daily_token_quota : Option ℕ
  pub enabled : Bool

pub record V2Provider : Type 0 where
  pub base_url : Text
  pub responses_base_url : Option Text
  pub anthropic_base_url : Option Text
  pub retry : Option RetryPolicy
  pub keys : Dict Text V2Key

pub record V2PhysicalModel : Type 0 where
  pub provider : Text
  pub upstream_model : Text
  pub family : Option Text
  pub params : Dict Text Json
  pub context_window : Option ℕ
  pub max_output_tokens : Option ℕ
  pub supports_image : Option Bool
  pub thinking_level_map : Option (Dict Text (Option Text))
  pub thinking_format : Option Text

pub record V2Target : Type 0 where
  pub model : Text
  pub weight : Option ℤ
  pub enabled : Bool
  pub keys : Option (List Text)

pub record V2Route : Type 0 where
  pub strategy : Strategy
  pub targets : List V2Target

pub record V2LogicalModel : Type 0 where
  pub params : Dict Text Json
  pub route : V2Route
  pub display_name : Option Text

pub record V2Config : Type 0 where
  pub providers : Dict Text V2Provider
  pub models : Dict Text V2PhysicalModel
  pub logical_models : Dict Text V2LogicalModel
  pub virtual_models : Dict Text (Dict Text Text)

is_named : Text → Bool
is_named [] = false
is_named (c ∷ s) = true

-- An empty allowlist means no restriction, and empty names are dropped first.
unfoldable pub normalize_keys_allowlist : Option (List Text) → Option (List Text)
unfolding filter is_named
normalize_keys_allowlist keys =
    let names = filter is_named (unwrap_or keys []) in
    elim names [ [] ↦ none | n ∷ ns ↦ some (n ∷ ns) ]

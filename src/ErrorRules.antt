-- ===== src/ErrorRules.antt =====
-- src/error_rules.rs: rules that sort an upstream failure into four classes, the built-in
-- templates, and the tunables. Bodies are matched in lower case; times are in milliseconds.
pub mod Presets
pub mod Priority
use llm_provider_router.Prelude.{
  ℕ, suc, Text, text, Bool, true, false, not, ◌&&◌, ◌||◌, Option, none, some, List, [], ◌∷◌, ◌++◌,
  any, all, contains, contains_text, decimal, unwrap_or, nat_eq, text_equality, if◌then◌else◌,
}
use llm_provider_router.Prelude.Dict.{Dict, lookup}

pub data ErrorClass : Type 0 where
  invalid rate_limited model_unsupported transient : ErrorClass

unfoldable pub class_name : ErrorClass → Text
unfolding text
class_name invalid = text "invalid"
class_name rate_limited = text "rate_limited"
class_name model_unsupported = text "model_unsupported"
class_name transient = text "transient"

pub record ClassRule : Type 0 where
  pub status : List ℕ
  pub keywords_any : List Text
  pub keywords_all : List Text

is_empty {ℓ} : {A : Type ℓ} → List A → Bool
is_empty [] = true
is_empty (x ∷ xs) = false

unfoldable pub matches : ClassRule → ℕ → Text → Bool
unfolding is_empty contains contains_text any all
matches r status body =
    if not (is_empty r.status) && not (contains status r.status)
    then false
    else if not (all (λ k. contains_text k body) r.keywords_all)
    then false
    else if is_empty r.keywords_any
    then true
    else any (λ k. contains_text k body) r.keywords_any

pub record ClassTemplate : Type 0 where
  pub invalid_rules : List ClassRule
  pub rate_limited_rules : List ClassRule
  pub model_unsupported_rules : List ClassRule
  pub transient_rules : List ClassRule

pub record Tunables : Type 0 where
  pub invalid_freeze : Option ℕ
  pub differential_freeze : Option ℕ
  pub transient_exhausted_freeze : Option ℕ
  pub connect_error_freeze : Option ℕ
  pub transient_attempts_per_key : Option ℕ
  pub transient_retry_interval_ms : Option ℕ

pub record ResolvedTunables : Type 0 where
  pub invalid_freeze : ℕ
  pub differential_freeze : ℕ
  pub transient_exhausted_freeze : ℕ
  pub connect_error_freeze : ℕ
  pub transient_attempts_per_key : ℕ
  pub transient_retry_interval_ms : ℕ

abbrev pub default_tunables : ResolvedTunables
default_tunables = record {
  invalid_freeze = 86_400_000;
  differential_freeze = 600_000;
  transient_exhausted_freeze = 300_000;
  connect_error_freeze = 30_000;
  transient_attempts_per_key = 1;
  transient_retry_interval_ms = 1_000;
}

unfoldable pub resolve : Tunables → ℕ → ResolvedTunables
resolve t invalid_fallback = record {
  invalid_freeze = unwrap_or t.invalid_freeze invalid_fallback;
  differential_freeze = unwrap_or t.differential_freeze default_tunables.differential_freeze;
  transient_exhausted_freeze =
      unwrap_or t.transient_exhausted_freeze default_tunables.transient_exhausted_freeze;
  connect_error_freeze = unwrap_or t.connect_error_freeze default_tunables.connect_error_freeze;
  transient_attempts_per_key =
      unwrap_or t.transient_attempts_per_key default_tunables.transient_attempts_per_key;
  transient_retry_interval_ms =
      unwrap_or t.transient_retry_interval_ms default_tunables.transient_retry_interval_ms;
}

pub record ErrorRulesConfig : Type 0 where
  pub tunables : Tunables
  pub templates : Dict Text ClassTemplate
  pub provider_bindings : Dict Text Text

abbrev pub empty_template : ClassTemplate
empty_template = record {
  invalid_rules = [];
  rate_limited_rules = [];
  model_unsupported_rules = [];
  transient_rules = [];
}

-- `config.templates.get(name)`, with the name of the template that was found.
named_template : ErrorRulesConfig → Option Text → Option (ClassTemplate × Text)
unfolding lookup
named_template c none = none
named_template c (some name) = elim (lookup name c.templates) [
  | none ↦ none
  | some t ↦ some (t, name)
]

-- An explicit binding, else the template of the same name, else `default`, else no rules.
unfoldable pub template_for : ErrorRulesConfig → Text → ClassTemplate × Text
unfolding named_template text lookup
template_for c provider = elim (named_template c (lookup provider c.provider_bindings)) [
  | some found ↦ found
  | none ↦ elim (named_template c (some provider)) [
    | some found ↦ found
    | none ↦ unwrap_or (named_template c (some (text "default"))) (empty_template, text "empty")
  ]
]

pub record ClassifiedFailure : Type 0 where
  pub class : ErrorClass
  pub rule : Text

-- The index of the first rule that matches.
unfoldable pub first_match : List ClassRule → ℕ → Text → Option ℕ
unfolding matches
first_match [] status body = none
first_match (r ∷ rs) status body =
    let rest = first_match rs status body in
    if matches r status body then some 0 else elim rest [ none ↦ none | some i ↦ some (suc i) ]

-- `{template_name}/{label}#{idx}`
tag : Text → ErrorClass → Text → Text
unfolding class_name
tag name class suffix = name ++ b'/' ∷ (class_name class ++ b'#' ∷ suffix)

abbrev failure : Text → ErrorClass → Text → ClassifiedFailure
failure name class suffix = record { class = class; rule = tag name class suffix }

unfoldable pub classify_by : ClassTemplate → Text → ℕ → Text → ClassifiedFailure
unfolding first_match tag text decimal
classify_by t name status body = elim (first_match t.invalid_rules status body) [
  | some i ↦ failure name invalid (decimal i)
  | none ↦ elim (first_match t.rate_limited_rules status body) [
    | some i ↦ failure name rate_limited (decimal i)
    | none ↦ elim (first_match t.model_unsupported_rules status body) [
      | some i ↦ failure name model_unsupported (decimal i)
      | none ↦ failure name transient (text "fallback")
    ]
  ]
]

unfoldable pub classify : ErrorRulesConfig → Text → ℕ → Text → ClassifiedFailure
unfolding template_for classify_by
classify c provider status body =
    let (t, name) = template_for c provider in classify_by t name status body

-- ===== src/Router/Routing.antt =====
-- src/features/router/state/routing.rs (`route_aliases`), `usage_preferred_index` of
-- src/features/router/selection.rs and `custom_alias_models` of src/features/router/state/v2.rs: the
-- ordered models that a requested name stands for. Ratios of tokens to weight are compared as exact
-- fractions.
pub mod Routed
use llm_provider_router.Prelude.{
  ℕ, ◌+◌, Text, text, Bool, true, false, Option, none, some, List, [], ◌∷◌, ◌++◌, map, filter,
  unwrap_or, text_equality, if◌then◌else◌,
}
use llm_provider_router.Prelude.Int.{positive}
use llm_provider_router.Prelude.Dict.{Dict, lookup, insert}
use llm_provider_router.Config.{
  KeyRef, ModelAlias, RetryPolicy, V2Config, V2Provider, Strategy, priority, weighted, usage_aware,
  new_alias,
}
use llm_provider_router.Config.Resolve.{resolve_targets, enabled_keys_filtered, option_list}
use llm_provider_router.Usage.{UsageStore, key_token_totals_today, key_token_totals_for_model}
use llm_provider_router.Router.Selection.{
  Sampler, TargetCandidate, order_targets, drop_exhausted_candidates,
}
use llm_provider_router.Router.Select.{ratio_of, ratio_lt, min_ratio, names_of}

-- An entry of the aliases that were added at run time.
pub record CustomAlias : Type 0 where
  pub alias : Text
  pub upstream_model : Text
  pub provider : Text
  pub max_retry_seconds : ℕ
  pub retry_delay_seconds : ℕ

abbrev custom_retry : CustomAlias → RetryPolicy
custom_retry c = record {
  max_retry_seconds = c.max_retry_seconds;
  retry_delay_seconds = c.retry_delay_seconds;
  retry_on_status = 401 ∷ 402 ∷ 429 ∷ 500 ∷ 502 ∷ 503 ∷ 504 ∷ [];
}

-- An alias whose provider is gone is skipped.
unfoldable pub custom_alias_models :
    V2Config → List CustomAlias → Dict Text ModelAlias → Dict Text ModelAlias
unfolding lookup insert enabled_keys_filtered new_alias
custom_alias_models cfg [] out = out
custom_alias_models cfg (c ∷ customs) out =
    custom_alias_models cfg customs (elim (lookup c.provider cfg.providers) [
      | none ↦ out
      | some provider ↦
          insert c.alias
            (new_alias c.alias c.upstream_model provider.base_url
              (enabled_keys_filtered provider c.provider none) (some (custom_retry c)))
            out
    ])

-- `ratio < best`, where no best is infinity.
abbrev better : ℕ × ℕ → Option (ℕ × (ℕ × ℕ)) → Bool
better r none = true
better r (some (i, best)) = ratio_lt r best

-- The lowest ratio of a candidate's keys of positive weight; `none` if the totals cannot be read, or
-- no key has a positive weight.
candidate_ratio : UsageStore → ℕ → Text → TargetCandidate → Option (ℕ × ℕ)
unfolding filter
candidate_ratio usage midnight alias c =
    elim (key_token_totals_for_model usage midnight alias (names_of c.model.keys)) [
      | none ↦ none
      | some totals ↦
          min_ratio
            (map (ratio_of totals) (filter (λ (k : KeyRef). positive k.weight) c.model.keys))
    ]

preferred_from :
    UsageStore → ℕ → Text → ℕ → Option (ℕ × (ℕ × ℕ)) → List TargetCandidate → Option (ℕ × (ℕ × ℕ))
unfolding candidate_ratio
preferred_from usage midnight alias i best [] = best
preferred_from usage midnight alias i best (c ∷ cs) =
    preferred_from usage midnight alias (i + 1)
      (elim (candidate_ratio usage midnight alias c) [
        | none ↦ best
        | some r ↦ if better r best then some (i, r) else best
      ])
      cs

unfoldable pub usage_preferred_index : UsageStore → ℕ → Text → List TargetCandidate → Option ℕ
unfolding preferred_from
usage_preferred_index usage midnight alias candidates =
    elim (preferred_from usage midnight alias 0 none candidates) [
      | none ↦ none
      | some (i, r) ↦ some i
    ]

abbrev key_names : List TargetCandidate → List Text
key_names [] = []
key_names (c ∷ cs) = names_of c.model.keys ++ key_names cs

unfoldable pub keep_by : UsageStore → ℕ → Strategy → List TargetCandidate → List TargetCandidate
keep_by usage midnight priority cs = elim (key_token_totals_today usage midnight (key_names cs)) [
  | none ↦ cs
  | some totals ↦ drop_exhausted_candidates cs totals
]
keep_by usage midnight weighted cs = cs
keep_by usage midnight usage_aware cs = cs

-- The strategy of the first candidate decides.
unfoldable pub keep_fresh : UsageStore → ℕ → List TargetCandidate → List TargetCandidate
keep_fresh usage midnight [] = []
keep_fresh usage midnight (c ∷ cs) = keep_by usage midnight c.strategy (c ∷ cs)

preferred_of : UsageStore → ℕ → Text → List TargetCandidate → Option ℕ
preferred_of usage midnight name [] = none
preferred_of usage midnight name (c ∷ cs) = elim c.strategy [
  | priority ↦ none
  | weighted ↦ none
  | usage_aware ↦ usage_preferred_index usage midnight name (c ∷ cs)
]

-- The candidates of the name; none if it is no logical model.
unfoldable pub expanded : V2Config → Text → List TargetCandidate
expanded cfg name = unwrap_or (unwrap_or (resolve_targets cfg name) none) []

-- `none` is a panic of `order_targets`.
unfoldable pub route_aliases :
    Sampler
    → UsageStore
    → ℕ
    → V2Config
    → List CustomAlias
    → Text
    → Option Text
    → Option (List ModelAlias)
unfolding preferred_of lookup
route_aliases sampler usage midnight cfg customs name session =
    let candidates = keep_fresh usage midnight (expanded cfg name) in
    elim (order_targets sampler candidates session (preferred_of usage midnight name candidates)) [
      | none ↦ none
      | some out ↦ some (out ++ option_list (lookup name (custom_alias_models cfg customs [])))
    ]

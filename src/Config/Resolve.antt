-- ===== src/Config/Resolve.antt =====
-- src/config/v2/resolve.rs: the physical candidates of a logical model. A logical model may name other
-- ones, in cycles too; the recursion runs on fuel, and one more than the number of logical models is
-- enough, since a name is only opened where it is not being visited. `HashMap`s are iterated in the
-- order of their entries.
pub mod Ends
pub mod Candidates
pub mod Sources
use llm_provider_router.Prelude.{
  ℕ, zero, suc, Text, text, Bool, true, false, not, ◌&&◌, Option, none, some, List, [], ◌∷◌, ◌++◌,
  map, filter, find, contains, length, ◌+◌, text_leb, split_once, ◌==◌, text_equality,
  if◌then◌else◌,
}
use llm_provider_router.Prelude.Int.{ℤ}
use llm_provider_router.Prelude.Json.{Json}
use llm_provider_router.Prelude.Dict.{Dict, lookup, insert, contains_key}
use llm_provider_router.Usage.{◌>>=◌}
use llm_provider_router.Config.{
  KeyRef, ModelAlias, Strategy, V2Config, V2Key, V2Provider, V2PhysicalModel, V2Target,
  V2LogicalModel, new_alias, with_params, with_windows, with_responses_base_url,
  with_anthropic_base_url, with_strategy,
}
use llm_provider_router.Router.Selection.{TargetCandidate}

-- The overrides are written over the defaults.
unfoldable pub merge_params : Dict Text Json → Dict Text Json → Dict Text Json
unfolding insert
merge_params defaults [] = defaults
merge_params defaults ((k, v) ∷ overrides) = merge_params (insert k v defaults) overrides

-- `keys_allow.is_none_or(|names| names.contains(name))`
abbrev pub allows : Option (List Text) → Text → Bool
allows none name = true
allows (some names) name = contains name names

abbrev pub key_ref : Text → Text × V2Key → KeyRef
key_ref provider (name, key) = record {
  name = name;
  weight = key.weight;
  provider = provider;
  billing_type = key.billing_type;
  daily_token_quota = key.daily_token_quota;
}

abbrev pub may_use : Option (List Text) → Text × V2Key → Bool
may_use allowed (name, key) = key.enabled && allows allowed name

unfoldable pub enabled_keys_filtered : V2Provider → Text → Option (List Text) → List KeyRef
unfolding filter
enabled_keys_filtered prov provider allowed =
    map (key_ref provider) (filter (may_use allowed) prov.keys)

unfoldable pub lm_params_default : V2Config → Text → Dict Text Json
unfolding lookup
lm_params_default cfg alias = elim (lookup alias cfg.logical_models) [
  | none ↦ []
  | some lm ↦ lm.params
]

-- The model of a candidate, before its windows.
unfoldable pub base_model :
    V2Provider → Text → Text → List KeyRef → Dict Text Json → Strategy → ModelAlias
unfolding text new_alias
base_model prov alias upstream keys params strategy = with_strategy strategy (
    with_anthropic_base_url prov.anthropic_base_url (
      with_responses_base_url prov.responses_base_url (
        with_params params
          (new_alias alias (text "openai/" ++ upstream) prov.base_url keys prov.retry))))

abbrev is_upstream : Text → Text → Text × V2PhysicalModel → Bool
is_upstream provider upstream (id, pm) = pm.provider == provider && pm.upstream_model == upstream

-- A virtual model has no entry of its own: the windows are those of a model with the same upstream.
abbrev reuse_windows : Option (Text × V2PhysicalModel) → ModelAlias → ModelAlias
reuse_windows none m = m
reuse_windows (some (id, pm)) m = with_windows pm.context_window pm.max_output_tokens m

abbrev candidate : ModelAlias → Option ℤ → Strategy → TargetCandidate
candidate m weight strategy = record { model = m; weight = weight; strategy = strategy }

unfoldable pub virtual_candidate :
    V2Config
    → Text
    → Text
    → Text
    → Option ℤ
    → Option (List Text)
    → Strategy
    → Option TargetCandidate
unfolding lookup find enabled_keys_filtered lm_params_default base_model
virtual_candidate cfg alias provider upstream weight allowed strategy =
    elim (lookup provider cfg.providers) [
      | none ↦ none
      | some prov ↦
          let keys = enabled_keys_filtered prov provider allowed in
          let m = base_model prov alias upstream keys (lm_params_default cfg alias) strategy in
          elim keys [
            | [] ↦ none
            | k ∷ ks ↦ some (
                candidate (reuse_windows (find (is_upstream provider upstream) cfg.models) m) weight
                  strategy)
          ]
    ]

-- Whether a restriction left no key.
abbrev pub starved : Option (List Text) → List KeyRef → Bool
starved none keys = false
starved (some names) [] = true
starved (some names) (k ∷ ks) = false

unfoldable pub physical_candidate :
    V2Config → Text → Text → Option ℤ → Option (List Text) → Strategy → Option TargetCandidate
unfolding lookup enabled_keys_filtered lm_params_default merge_params base_model
physical_candidate cfg alias model_id weight allowed strategy = do
  pm ← lookup model_id cfg.models
  prov ← lookup pm.provider cfg.providers
  let keys = enabled_keys_filtered prov pm.provider allowed
  let params = merge_params (lm_params_default cfg alias) pm.params
  if starved allowed keys
      then none
      else some (
          candidate
            (with_windows pm.context_window pm.max_output_tokens
              (base_model prov alias pm.upstream_model keys params strategy))
            weight strategy)

-- `providers.sort()`, each with its mapping.
insert_provider : Text × Text → List (Text × Text) → List (Text × Text)
insert_provider p [] = p ∷ []
insert_provider p (q ∷ qs) = if text_leb p.0 q.0 then p ∷ q ∷ qs else q ∷ insert_provider p qs

unfoldable pub sort_providers : List (Text × Text) → List (Text × Text)
unfolding insert_provider
sort_providers [] = []
sort_providers (p ∷ ps) = insert_provider p (sort_providers ps)

abbrev pub option_list {ℓ} : {A : Type ℓ} → Option A → List A
option_list none = []
option_list (some a) = a ∷ []

abbrev virtual_each :
    V2Config
    → Text
    → Option ℤ
    → Option (List Text)
    → Strategy
    → List (Text × Text)
    → List TargetCandidate
virtual_each cfg alias weight allowed strategy [] = []
virtual_each cfg alias weight allowed strategy ((provider, upstream) ∷ rest) =
    option_list (virtual_candidate cfg alias provider upstream weight allowed strategy)
    ++ virtual_each cfg alias weight allowed strategy rest

-- `provider/virtual`: the mapping of one provider; `none` if the text names no such.
scoped_virtual : V2Config → Text → Option (Text × Text)
unfolding lookup split_once
scoped_virtual cfg target = do
  parts ← split_once b'/' target
  mappings ← lookup parts.1 cfg.virtual_models
  upstream ← lookup parts.0 mappings
  some (parts.0, upstream)

-- `None` is not a virtual model.
unfoldable pub virtual_candidates :
    V2Config
    → Text
    → Text
    → Option ℤ
    → Option (List Text)
    → Strategy
    → Option (List TargetCandidate)
unfolding lookup sort_providers scoped_virtual virtual_candidate
virtual_candidates cfg alias target weight allowed strategy =
    elim (lookup target cfg.virtual_models) [
      | some mappings ↦
          some (virtual_each cfg alias weight allowed strategy (sort_providers mappings))
      | none ↦ elim (scoped_virtual cfg target) [
        | none ↦ none
        | some scoped ↦ some (virtual_each cfg alias weight allowed strategy (scoped ∷ []))
      ]
    ]

-- What a nested name gives: no answer within the fuel, no such logical model, or its candidates.
abbrev pub Nested : Type 0
Nested = Option (Option (List TargetCandidate))

-- `if let Some(nested) = ... { candidates.extend(nested) }`
abbrev pub extend_nested : Nested → Option (List TargetCandidate)
extend_nested none = none
extend_nested (some none) = some []
extend_nested (some (some cs)) = some cs

-- One target, with the expansion of nested names given; `none` is out of fuel.
unfoldable pub expand_target :
    V2Config → Text → Strategy → (Text → Nested) → V2Target → Option (List TargetCandidate)
unfolding contains_key physical_candidate virtual_candidates
expand_target cfg alias strategy nested target =
    let physical =
      option_list (physical_candidate cfg alias target.model target.weight target.keys strategy) in
    let other : Option (List TargetCandidate) =
      (elim (virtual_candidates cfg alias target.model target.weight target.keys strategy) [
        | some candidates ↦ some candidates
        | none ↦ extend_nested (nested target.model)
      ]) in
    if not target.enabled
    then some []
    else if contains_key target.model cfg.models
    then some physical
    else other

unfoldable pub expand_targets :
    V2Config → Text → Strategy → (Text → Nested) → List V2Target → Option (List TargetCandidate)
unfolding expand_target
expand_targets cfg alias strategy nested [] = some []
expand_targets cfg alias strategy nested (target ∷ rest) = do
  first ← expand_target cfg alias strategy nested target
  later ← expand_targets cfg alias strategy nested rest
  some (first ++ later)

abbrev pub resolved : Option (List TargetCandidate) → Nested
resolved none = none
resolved (some cs) = some (some cs)

-- A name that is being visited closes a cycle, and is skipped.
unfoldable pub resolve_targets_inner : V2Config → ℕ → Text → List Text → Nested
unfolding lookup contains expand_targets
resolve_targets_inner cfg zero alias visited = none
resolve_targets_inner cfg (suc fuel) alias visited = elim (lookup alias cfg.logical_models) [
  | none ↦ some none
  | some lm ↦
      let all = resolved (
        expand_targets cfg alias lm.route.strategy
          (λ name. resolve_targets_inner cfg fuel name (alias ∷ visited)) lm.route.targets) in
      if contains alias visited then some (some []) else all
]

unfoldable pub resolve_targets : V2Config → Text → Nested
unfolding resolve_targets_inner
resolve_targets cfg alias = resolve_targets_inner cfg (length cfg.logical_models + 1) alias []

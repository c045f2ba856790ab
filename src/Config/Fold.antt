-- ===== src/Config/Fold.antt =====
-- src/config/v2/fold.rs: the view of a configuration in which every logical model is the first
-- physical model that it reaches. The search runs on fuel, like the resolution of targets.
pub mod Total
use llm_provider_router.Prelude.{
  ℕ, zero, suc, ◌+◌, Text, text, Bool, true, false, not, ◌&&◌, Option, none, some, List, [], ◌∷◌,
  ◌++◌, any, contains, length, text_equality, if◌then◌else◌,
}
use llm_provider_router.Prelude.Dict.{Dict, lookup, insert, contains_key}
use llm_provider_router.Config.{
  KeyRef, ModelAlias, V2Config, V2Key, V2Provider, V2PhysicalModel, V2Target, V2LogicalModel,
  new_alias, with_windows, with_responses_base_url, with_anthropic_base_url, with_strategy,
  with_thinking,
}
use llm_provider_router.Config.Resolve.{allows, may_use, enabled_keys_filtered}
use llm_provider_router.Config.Validate.{ConfigError, validate}

-- Whether a restriction hits an enabled key of the model's provider.
unfoldable pub target_keys_usable : V2Config → V2Target → Bool
unfolding lookup any
target_keys_usable cfg target = elim target.keys [
  | none ↦ true
  | some names ↦ elim (lookup target.model cfg.models) [
    | none ↦ false
    | some m ↦ elim (lookup m.provider cfg.providers) [
      | none ↦ false
      | some prov ↦ any (may_use (some names)) prov.keys
    ]
  ]
]

-- What a search gives: no answer within the fuel, no target, or a target.
abbrev pub Search : Type 0
Search = Option (Option V2Target)

abbrev pub or_later : Search → Search → Search
or_later none later = none
or_later (some none) later = later
or_later (some (some t)) later = some (some t)

-- The targets of one model, with the search in a nested one given.
unfoldable pub first_of :
    V2Config → (List V2Target → List Text → Search) → List Text → List V2Target → Search
unfolding contains_key lookup contains target_keys_usable
first_of cfg nested visited [] = some none
first_of cfg nested visited (t ∷ ts) =
    let later = first_of cfg nested visited ts in
    let inner : Search = (elim (lookup t.model cfg.logical_models) [
      | none ↦ later
      | some lm ↦
          if contains t.model visited
          then later
          else or_later (nested lm.route.targets (t.model ∷ visited)) later
    ]) in
    if not t.enabled
    then later
    else if contains_key t.model cfg.models
    then if target_keys_usable cfg t then some (some t) else later
    else inner

unfoldable pub first_physical_target : V2Config → ℕ → List V2Target → List Text → Search
unfolding first_of
first_physical_target cfg zero targets visited = none
first_physical_target cfg (suc fuel) targets visited =
    first_of cfg (λ ts vs. first_physical_target cfg fuel ts vs) visited targets

-- `Ok(aliases)`; the error of the checks; the error of a model without its provider; the panic of
-- the index `cfg.models[&first.model]`; and no answer within the fuel.
pub data Folded : Type 0 where
  folded : Dict Text ModelAlias → Folded
  invalid : ConfigError → Folded
  missing_provider : Text → Text → Folded
  panicked : Folded
  out_of_fuel : Folded

folded_alias :
    Text → V2LogicalModel → V2PhysicalModel → V2Provider → Option (List Text) → ModelAlias
unfolding text new_alias enabled_keys_filtered
folded_alias alias lm model provider allowed =
    with_thinking model.thinking_level_map model.thinking_format (
      with_strategy lm.route.strategy (
        with_anthropic_base_url provider.anthropic_base_url (
          with_responses_base_url provider.responses_base_url (
            with_windows model.context_window model.max_output_tokens (
              new_alias alias (text "openai/" ++ model.upstream_model) provider.base_url
                (enabled_keys_filtered provider model.provider allowed) provider.retry)))))

abbrev pub put_alias : Text → ModelAlias → Folded → Folded
put_alias alias m (folded aliases) = folded (insert alias m aliases)
put_alias alias m (invalid e) = invalid e
put_alias alias m (missing_provider id p) = missing_provider id p
put_alias alias m panicked = panicked
put_alias alias m out_of_fuel = out_of_fuel

-- What a search makes of an entry; `rest` is the fold of the others.
fold_found : V2Config → Text → V2LogicalModel → Search → Folded → Folded
unfolding lookup insert folded_alias
fold_found cfg alias lm none rest = out_of_fuel
fold_found cfg alias lm (some none) rest = rest
fold_found cfg alias lm (some (some first)) rest = elim (lookup first.model cfg.models) [
  | none ↦ panicked
  | some model ↦ elim (lookup model.provider cfg.providers) [
    | none ↦ missing_provider first.model model.provider
    | some provider ↦ put_alias alias (folded_alias alias lm model provider first.keys) rest
  ]
]

unfoldable pub fold_entries : V2Config → Dict Text V2LogicalModel → Folded
unfolding fold_found first_physical_target
fold_entries cfg [] = folded []
fold_entries cfg ((alias, lm) ∷ rest) =
    fold_found cfg alias lm
      (first_physical_target cfg (length cfg.logical_models + 1) lm.route.targets (alias ∷ []))
      (fold_entries cfg rest)

unfoldable pub fold_to_aliases : V2Config → Folded
unfolding fold_entries validate
fold_to_aliases cfg = elim (validate cfg) [
  | some e ↦ invalid e
  | none ↦ fold_entries cfg cfg.logical_models
]

-- ===== src/Tests/Configuration.antt =====
-- Runs of the resolution, the checks and the renaming of a configuration with a cycle of pools.
use mathlib.Core.List.{Perm}
use llm_provider_router.Prelude.{
  Text, ◌≡◌, ◌↔◌, ◌⊎◌, refl, none, some, Option, List, [], ◌∷◌, ◌++◌, map, true, false, All,
  contains, text_equality, nat_eq, text_eq, split_once,
}
use llm_provider_router.Prelude.Int.{pos}
use llm_provider_router.Prelude.Dict.{lookup}
use llm_provider_router.Config.{
  ModelAlias, V2Config, V2Provider, V2Key, V2LogicalModel, V2Target, priority,
}
use llm_provider_router.Config.Resolve.{resolve_targets, option_list}
use llm_provider_router.Config.Resolve.Ends.{resolve_targets_ends}
use llm_provider_router.Config.Resolve.Sources.{FromTarget, resolve_targets-FromTarget}
use llm_provider_router.Config.Validate.{ConfigError, validate}
use llm_provider_router.Config.Validate.Sound.{IsUsable, validate-IsUsable}
use llm_provider_router.Config.Fold.{fold_to_aliases, invalid}
use llm_provider_router.Config.Fold.Total.{Succeeds, fold_to_aliases_total}
use llm_provider_router.Config.Mutate.{bare_model, renamed_id, renamed_target}
use llm_provider_router.Prelude.Split.{has_slash}
use llm_provider_router.Config.Mutate.Renames.{renames_agree}
use llm_provider_router.Router.Selection.{TargetCandidate}
use llm_provider_router.Router.Routing.{custom_alias_models, expanded, keep_fresh, route_aliases}
use llm_provider_router.Router.Routing.Routed.{Keeps, route_aliases_complete}
use llm_provider_router.Tests.Fixtures.{sampler, usage}

abbrev open_key : V2Key
open_key = record { weight = pos 3; billing_type = []; daily_token_quota = none; enabled = true }

abbrev provider_p : V2Provider
provider_p = record {
  base_url = b'h' ∷ [];
  responses_base_url = none;
  anthropic_base_url = none;
  retry = none;
  keys = (b'a' ∷ [], open_key) ∷ (b'b' ∷ [], record open_key { enabled = false }) ∷ [];
}

abbrev to : Text → V2Target
to name = record { model = name; weight = none; enabled = true; keys = none }

abbrev pool : List V2Target → V2LogicalModel
pool targets = record {
  params = [];
  route = record { strategy = priority; targets = targets };
  display_name = none;
}

abbrev id_u : Text
id_u = b'p' ∷ b'/' ∷ b'u' ∷ []

-- The pools `m` and `n` name each other.
abbrev cyclic : V2Config
cyclic = record {
  providers = (b'p' ∷ [], provider_p) ∷ [];
  models = (id_u, bare_model (b'p' ∷ []) (b'u' ∷ [])) ∷ [];
  logical_models =
      (b'm' ∷ [], pool (to (b'n' ∷ []) ∷ to id_u ∷ []))
      ∷ (b'n' ∷ [], pool (to (b'm' ∷ []) ∷ []))
      ∷ [];
  virtual_models = [];
}

resolve_targets_ends_example :
    (answer : Option (List TargetCandidate)) × (resolve_targets cyclic (b'm' ∷ []) ≡ some answer)
resolve_targets_ends_example = resolve_targets_ends cyclic (b'm' ∷ [])

answer_m : List TargetCandidate
unfolding resolve_targets text_eq split_once
answer_m = elim (resolve_targets cyclic (b'm' ∷ [])) [
  | none ↦ []
  | some none ↦ []
  | some (some cs) ↦ cs
]

resolve_targets-FromTarget_example : All (FromTarget cyclic) answer_m
unfolding answer_m resolve_targets text_eq split_once
resolve_targets-FromTarget_example = resolve_targets-FromTarget cyclic (b'm' ∷ []) answer_m refl

validate-IsUsable_example : (validate cyclic ≡ none) ↔ IsUsable cyclic
validate-IsUsable_example = validate-IsUsable cyclic

fold_to_aliases_total_example :
    ((e : ConfigError) × (validate cyclic ≡ some e) × (fold_to_aliases cyclic ≡ invalid e))
    ⊎ ((validate cyclic ≡ none) × Succeeds (fold_to_aliases cyclic))
fold_to_aliases_total_example = fold_to_aliases_total cyclic

renames_agree_example : (has_slash (b'u' ∷ b'/' ∷ b'v' ∷ []) ≡ false) ↔ (
    renamed_id (b'q' ∷ []) ((b'p' ∷ []) ++ b'/' ∷ b'u' ∷ b'/' ∷ b'v' ∷ [])
    ≡ renamed_target (b'q' ∷ []) (b'p' ∷ []) ((b'p' ∷ []) ++ b'/' ∷ b'u' ∷ b'/' ∷ b'v' ∷ []))
unfolding contains
renames_agree_example = renames_agree (b'q' ∷ []) (b'p' ∷ []) (b'u' ∷ b'/' ∷ b'v' ∷ []) refl

route_aliases_complete_example :
    (out : List ModelAlias) × (route_aliases sampler usage 2 cyclic [] (b'm' ∷ []) none
      ≡ some (out ++ option_list (lookup (b'm' ∷ []) (custom_alias_models cyclic [] []))))
    × Perm out (map (λ c. c.model) (keep_fresh usage 2 (expanded cyclic (b'm' ∷ []))))
    × Keeps usage 2 (expanded cyclic (b'm' ∷ [])) (keep_fresh usage 2 (expanded cyclic (b'm' ∷ [])))
    × All (FromTarget cyclic) (expanded cyclic (b'm' ∷ []))
route_aliases_complete_example = route_aliases_complete usage 2 sampler cyclic [] (b'm' ∷ []) none

-- ===== src/Config/Validate.antt =====
-- src/config/v2/validate.rs: the checks of a configuration. The first failed check is the error.
pub mod Sound
use llm_provider_router.Prelude.{
  ℕ, zero, suc, Text, Bool, true, false, not, ◌&&◌, ◌||◌, Option, none, some, List, [], ◌∷◌,
  is_blank, split_once, is_some_and, or_option, ◌==◌, text_equality, if◌then◌else◌,
}
use llm_provider_router.Prelude.Dict.{Dict, lookup, contains_key}
use llm_provider_router.Config.{V2Config, V2Provider, V2PhysicalModel, V2Target, V2LogicalModel}

pub data ConfigError : Type 0 where
  no_base_url : Text → ConfigError
  unknown_provider : Text → Text → ConfigError
  zero_context_window zero_max_output_tokens no_targets : Text → ConfigError
  unknown_target : Text → Text → ConfigError

-- The first error of the entries.
unfoldable pub first_error {ℓ} :
    {A : Type ℓ} → (A → Option ConfigError) → List A → Option ConfigError
first_error check [] = none
first_error check (a ∷ rest) = or_option (check a) (first_error check rest)

abbrev pub non_blank : Text → Bool
non_blank s = not (is_blank s)

unfoldable pub has_any_url : V2Provider → Bool
unfolding is_blank
has_any_url p =
    non_blank p.base_url
    || is_some_and non_blank p.responses_base_url
    || is_some_and non_blank p.anthropic_base_url

unfoldable pub check_provider : Text × V2Provider → Option ConfigError
unfolding has_any_url
check_provider (name, p) = if has_any_url p then none else some (no_base_url name)

-- `Some(0)`
abbrev pub is_zero : Option ℕ → Bool
is_zero none = false
is_zero (some zero) = true
is_zero (some (suc n)) = false

unfoldable pub check_model : V2Config → Text × V2PhysicalModel → Option ConfigError
unfolding contains_key
check_model cfg (id, m) =
    if not (contains_key m.provider cfg.providers)
    then some (unknown_provider id m.provider)
    else if is_zero m.context_window
    then some (zero_context_window id)
    else if is_zero m.max_output_tokens
    then some (zero_max_output_tokens id)
    else none

unfoldable pub is_provider_scoped_virtual : V2Config → Text → Bool
unfolding split_once contains_key lookup
is_provider_scoped_virtual cfg target = elim (split_once b'/' target) [
  | none ↦ false
  | some (provider, rest) ↦
      contains_key provider cfg.providers
      && is_some_and (λ m. contains_key provider m) (lookup rest cfg.virtual_models)
]

-- `known_physical || known_logical || known_virtual`
unfoldable pub known_target : V2Config → Text → V2Target → Bool
unfolding contains_key is_provider_scoped_virtual
known_target cfg alias t =
    contains_key t.model cfg.models
    || (contains_key t.model cfg.logical_models && not (t.model == alias))
    || contains_key t.model cfg.virtual_models
    || is_provider_scoped_virtual cfg t.model

unfoldable pub check_target : V2Config → Text → V2Target → Option ConfigError
unfolding known_target
check_target cfg alias t =
    if known_target cfg alias t then none else some (unknown_target alias t.model)

unfoldable pub check_targets : V2Config → Text → List V2Target → Option ConfigError
unfolding check_target first_error
check_targets cfg alias [] = some (no_targets alias)
check_targets cfg alias (t ∷ ts) = first_error (check_target cfg alias) (t ∷ ts)

abbrev pub check_logical : V2Config → Text × V2LogicalModel → Option ConfigError
check_logical cfg (alias, lm) = check_targets cfg alias lm.route.targets

-- `none` is `Ok(())`.
unfoldable pub validate : V2Config → Option ConfigError
unfolding check_provider check_model check_targets first_error
validate cfg = or_option (first_error check_provider cfg.providers) (
    or_option (first_error (check_model cfg) cfg.models)
      (first_error (check_logical cfg) cfg.logical_models))

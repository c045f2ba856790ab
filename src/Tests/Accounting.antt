-- ===== src/Tests/Accounting.antt =====
-- Runs of the accounting of tokens and of the classification of errors.
use llm_provider_router.Prelude.{
  Text, ◌≡◌, refl, some, [], ◌∷◌, filter, contains, false, arith, text_equality, text_eq,
}
use llm_provider_router.Prelude.Dict.{lookup, insert}
use llm_provider_router.ErrorRules.{classify, template_for}
use llm_provider_router.ErrorRules.Presets.{builtin_config}
use llm_provider_router.ErrorRules.Priority.{class_by, classify-class_by}
use llm_provider_router.Usage.{key_token_totals_today, usage_key_name, ◌>>=◌}
use llm_provider_router.Usage.Totals.{Accounted, tokens_for, since, totals_today}
use llm_provider_router.Router.Selection.{key_exhausted, used_of}
use llm_provider_router.Router.Selection.Quota.{quota_never_reached}
use llm_provider_router.Tests.Fixtures.{key_a, usage}

abbrev full_name : Text
full_name = b'p' ∷ b'/' ∷ b'a' ∷ []

abbrev bare_name : Text
bare_name = b'a' ∷ []

totals_today_example :
    (key_token_totals_today usage 2 (full_name ∷ []) >>= lookup full_name)
    ≡ some (tokens_for full_name (filter (since 2) usage.events))
unfolding contains text_eq
totals_today_example = totals_today usage 2 full_name (full_name ∷ []) refl refl

usage-Accounted : Accounted usage.events
unfolding usage_key_name
usage-Accounted = ((key_a, refl), tt)

quota_never_reached_example : key_exhausted key_a (used_of ((bare_name, 0) ∷ []) key_a) ≡ false
unfolding contains key_token_totals_today insert text_eq
quota_never_reached_example =
    quota_never_reached usage 2 key_a (bare_name ∷ []) ((bare_name, 0) ∷ []) refl usage-Accounted
      refl refl (λ e. absurd (ground arith)) refl

classify-class_by_example :
    (classify builtin_config full_name 503 []).class
    ≡ class_by (template_for builtin_config full_name).0 503 []
classify-class_by_example = classify-class_by builtin_config full_name 503 []

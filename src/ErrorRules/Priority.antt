-- ===== src/ErrorRules/Priority.antt =====
-- What classification depends on: the class of the first list with a matching rule.
use llm_provider_router.Prelude.{
  ℕ, suc, Text, text, Bool, true, false, ◌≡◌, refl, ◌⊎◌, inl, inr, none, some, List, [], ◌∷◌, arith,
  any, contains, nat_eq, text_equality, ◌==◌, text_eq, if◌then◌else◌, Bool-cases,
}
use llm_provider_router.ErrorRules.{
  ErrorClass, invalid, rate_limited, model_unsupported, transient, ClassRule, ClassTemplate,
  ErrorRulesConfig, matches, first_match, classify_by, classify, template_for,
}
use llm_provider_router.ErrorRules.Presets.{
  builtin_config, default_template, ark_template, zp_template,
}

-- Some rule of the list matches.
abbrev pub hits : List ClassRule → ℕ → Text → Bool
hits rules status body = any (λ r. matches r status body) rules

first_match-hits :
    (rules : List ClassRule) (status : ℕ) (body : Text)
    → ((first_match rules status body ≡ none) × (hits rules status body ≡ false))
      ⊎ ((i : ℕ) × (first_match rules status body ≡ some i) × (hits rules status body ≡ true))
unfolding first_match any
first_match-hits [] status body = inl (refl, refl)
first_match-hits (r ∷ rs) status body = elim (Bool-cases (matches r status body)) [
  | inl e ↦ rw e (inr (0, refl, refl))
  | inr e ↦ rw e (elim (first_match-hits rs status body) [
    | inl (f, h) ↦ inl (rw f, h)
    | inr (i, f, h) ↦ inr (suc i, rw f, h)
  ])
]

-- The class by the fixed priority of the three lists, whatever the labels.
abbrev pub class_by : ClassTemplate → ℕ → Text → ErrorClass
class_by t status body =
    if hits t.invalid_rules status body
    then invalid
    else if hits t.rate_limited_rules status body
    then rate_limited
    else if hits t.model_unsupported_rules status body
    then model_unsupported
    else transient

-- `classify` answers the class of the first list, in the order invalid, rate limited, model
-- unsupported, that has a matching rule in the template of the provider; if none has one the class
-- is transient, so every failure is classified.
pub classify-class_by :
    (c : ErrorRulesConfig) (provider : Text) (status : ℕ) (body : Text)
    → (classify c provider status body).class ≡ class_by (template_for c provider).0 status body
unfolding classify classify_by
classify-class_by c provider status body =
    let t = (template_for c provider).0 in
    ground (
      arith,
      first_match-hits t.invalid_rules status body,
      first_match-hits t.rate_limited_rules status body,
      first_match-hits t.model_unsupported_rules status body,
    )

builtin_template-cases :
    (provider : Text)
    → ((template_for builtin_config provider).0 ≡ default_template)
      ⊎ ((template_for builtin_config provider).0 ≡ ark_template)
      ⊎ ((template_for builtin_config provider).0 ≡ zp_template)
unfolding builtin_config template_for text_eq
builtin_template-cases provider = elim (Bool-cases (text "default" == provider)) [
  | inl e ↦ inl (rw e)
  | inr e ↦ elim (Bool-cases (text "ark" == provider)) [
    | inl a ↦ inr (inl (rw (e, a)))
    | inr a ↦ elim (Bool-cases (text "zp" == provider)) [
      | inl z ↦ inr (inr (rw (e, a, z)))
      | inr z ↦ inl (rw (e, a, z))
    ]
  ]
]

auth_hits :
    (t : ClassTemplate) (status : ℕ) (body : Text)
    → (t ≡ default_template) ⊎ (t ≡ ark_template) ⊎ (t ≡ zp_template)
    → (status ≡ 401) ⊎ (status ≡ 402) ⊎ (status ≡ 403)
    → hits t.invalid_rules status body ≡ true
unfolding default_template ark_template zp_template matches any contains
auth_hits t status body cases code = ground arith

-- With the built-in rules, an answer 401, 402 or 403 is of the class invalid for every provider and
-- whatever its body.
pub builtin_auth_invalid :
    (provider : Text) (status : ℕ) (body : Text)
    → (status ≡ 401) ⊎ (status ≡ 402) ⊎ (status ≡ 403)
    → (classify builtin_config provider status body).class ≡ invalid
builtin_auth_invalid provider status body code = ground (
  arith,
  classify-class_by builtin_config provider status body,
  auth_hits (template_for builtin_config provider).0 status body (builtin_template-cases provider)
      code,
)

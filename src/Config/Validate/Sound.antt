-- ===== src/Config/Validate/Sound.antt =====
-- What the checks of a configuration establish.
use llm_provider_router.Prelude.{
  Bool, ◌⊎◌, inl, inr, is_blank, is_some_and, ◌||◌, ◌&&◌, not, ◌==◌, split_once, Option-cases, ap,
  ◌∙◌, text_eq_iff, ◌++◌, ℕ, zero, suc, Text, true, false, ◌≡◌, ◌≢◌, ◌↔◌, refl, Option, none, some,
  List, [], ◌∷◌, arith, text_equality, All, or_option,
}
use llm_provider_router.Prelude.Dict.{Dict, lookup, contains_key}
use llm_provider_router.Prelude.Split.{has_slash, split-prefix, split-before, split-join}
use llm_provider_router.Config.{V2Config, V2Provider, V2PhysicalModel, V2Target, V2LogicalModel}
use llm_provider_router.Config.Validate.{
  ConfigError, first_error, has_any_url, check_provider, check_model, known_target, check_target,
  check_targets, check_logical, validate, is_zero, non_blank, is_provider_scoped_virtual,
}

-- A configuration that serves: each provider has an address, each model a provider and no empty
-- window, and each route targets, all of them known.
abbrev pub IsAddress : Option Text → Type 0
IsAddress url = (u : Text) × (url ≡ some u) × (is_blank u ≡ false)

abbrev pub HasUrl : Text × V2Provider → Type 0
HasUrl e =
    ((is_blank e.1.base_url ≡ false) ⊎ IsAddress e.1.responses_base_url)
    ⊎ IsAddress e.1.anthropic_base_url

abbrev pub IsUsableModel : V2Config → Text × V2PhysicalModel → Type 0
IsUsableModel cfg e =
    (contains_key e.1.provider cfg.providers ≡ true)
    × (e.1.context_window ≢ some 0)
    × (e.1.max_output_tokens ≢ some 0)

-- `provider/virtual`, for a virtual model that the provider serves.
abbrev pub IsScoped : V2Config → Text → Type 0
IsScoped cfg target =
    (provider : Text) × (name : Text) × (served : Dict Text Text) × (target
      ≡ provider ++ b'/' ∷ name)
    × (has_slash provider ≡ false)
    × (contains_key provider cfg.providers ≡ true)
    × (lookup name cfg.virtual_models ≡ some served)
    × (contains_key provider served ≡ true)

-- A target names a model, another logical model, a virtual model, or one of a provider.
abbrev pub IsKnown : V2Config → Text → V2Target → Type 0
IsKnown cfg alias t =
    (((contains_key t.model cfg.models ≡ true)
        ⊎ ((contains_key t.model cfg.logical_models ≡ true) × (t.model ≢ alias)))
      ⊎ (contains_key t.model cfg.virtual_models ≡ true))
    ⊎ IsScoped cfg t.model

abbrev pub IsUsableRoute : V2Config → Text × V2LogicalModel → Type 0
IsUsableRoute cfg e = (e.1.route.targets ≢ []) × All (IsKnown cfg e.0) e.1.route.targets

pub record IsUsable (cfg : V2Config) : Type 0 where
  pub providers_ok : All HasUrl cfg.providers
  pub models_ok : All (IsUsableModel cfg) cfg.models
  pub routes_ok : All (IsUsableRoute cfg) cfg.logical_models

or_option-none : (o p : Option ConfigError) → (or_option o p ≡ none) ↔ ((o ≡ none) × (p ≡ none))
or_option-none none p = ground arith
or_option-none (some e) p = ground arith

module _ {ℓ κ} {A : Type ℓ} (check : A → Option ConfigError) (Good : A → Type κ)
    (agrees : (a : A) → (check a ≡ none) ↔ Good a) where
  first_error-All : (xs : List A) → (first_error check xs ≡ none) ↔ All Good xs
  unfolding first_error
  first_error-All [] = (λ e. tt, λ h. refl)
  first_error-All (a ∷ xs) =
      let parts = or_option-none (check a) (first_error check xs) in
      let later = first_error-All xs in
      (
        λ e. ((agrees a).0 (parts.0 e).0, later.0 (parts.0 e).1),
        λ h. parts.1 ((agrees a).1 h.0, later.1 h.1),
      )

is_some_and-IsAddress : (url : Option Text) → (is_some_and non_blank url ≡ true) ↔ IsAddress url
is_some_and-IsAddress none = (λ h. absurd cc, λ (u, e, b). absurd cc)
is_some_and-IsAddress (some u) =
    (λ h. (u, refl, ground (arith, h)), λ (v, e, b). ground (arith, e, b))

-- A disjunction of tests is that of what they test.
or-cases {ℓ κ} :
    {P : Type ℓ} {Q : Type κ} (a b : Bool)
    → (a ≡ true) ↔ P
    → (b ≡ true) ↔ Q
    → (a || b ≡ true) ↔ (P ⊎ Q)
or-cases true b p q = (λ h. inl (p.0 refl), λ h. refl)
or-cases false b p q =
    (λ h. inr (q.0 h), λ h. elim h [ inl x ↦ absurd (ground (arith, p.1 x)) | inr y ↦ q.1 y ])

has_any_url-HasUrl : (e : Text × V2Provider) → (has_any_url e.1 ≡ true) ↔ HasUrl e
unfolding has_any_url
has_any_url-HasUrl (name, p) =
    let b : (non_blank p.base_url ≡ true) ↔ (is_blank p.base_url ≡ false) = ground arith in
    let r = is_some_and-IsAddress p.responses_base_url in
    let a = is_some_and-IsAddress p.anthropic_base_url in
    or-cases (non_blank p.base_url || is_some_and non_blank p.responses_base_url)
      (is_some_and non_blank p.anthropic_base_url)
      (or-cases (non_blank p.base_url) (is_some_and non_blank p.responses_base_url) b r) a

check_provider-HasUrl : (e : Text × V2Provider) → (check_provider e ≡ none) ↔ HasUrl e
unfolding check_provider
check_provider-HasUrl (name, p) =
    let has = has_any_url-HasUrl (name, p) in
    (λ h. has.0 (ground (arith, h)), λ h. ground (arith, has.1 h))

is_zero_iff : (o : Option ℕ) → (is_zero o ≡ false) ↔ (o ≢ some 0)
is_zero_iff none = (λ e q. absurd cc, λ h. refl)
is_zero_iff (some zero) = ground arith
is_zero_iff (some (suc n)) = ground arith

module _ (cfg : V2Config) where
  check_model-IsUsableModel :
      (e : Text × V2PhysicalModel) → (check_model cfg e ≡ none) ↔ IsUsableModel cfg e
  unfolding check_model
  check_model-IsUsableModel (id, m) =
      ground (arith, is_zero_iff m.context_window, is_zero_iff m.max_output_tokens)

  is_provider_scoped_virtual-IsScoped :
      (target : Text) → is_provider_scoped_virtual cfg target ≡ true → IsScoped cfg target
  unfolding is_provider_scoped_virtual
  is_provider_scoped_virtual-IsScoped target h = elim (Option-cases (split_once b'/' target)) [
    | inl n ↦ absurd (ground (arith, n, h))
    | inr ((p, rest), e) ↦ elim (Option-cases (lookup rest cfg.virtual_models)) [
      | inl n ↦ absurd (ground (arith, e, n, h))
      | inr (m, found) ↦ (
        p,
        rest,
        m,
        split-join target p rest e,
        split-before target p rest e,
        ground (arith, e, found, h),
        found,
        ground (arith, e, found, h),
      )
    ]
  ]

  scoped_known :
      (target : Text) → IsScoped cfg target → is_provider_scoped_virtual cfg target ≡ true
  unfolding is_provider_scoped_virtual
  scoped_known target (p, rest, m, shape, bare, provider, found, serves) =
      let sides : split_once b'/' target ≡ some (p, rest) =
        ap (split_once b'/') shape ∙ split-prefix p rest bare in
      ground (arith, sides, provider, found, serves)

  known_target-IsKnown :
      (alias : Text) (t : V2Target) → (known_target cfg alias t ≡ true) ↔ IsKnown cfg alias t
  unfolding known_target
  known_target-IsKnown alias t =
      let other : (contains_key t.model cfg.logical_models && not (t.model == alias) ≡ true)
          ↔ ((contains_key t.model cfg.logical_models ≡ true) × (t.model ≢ alias)) =
        ground (arith, text_eq_iff t.model alias) in
      or-cases _ _ (or-cases _ _ (or-cases _ _ (λ h. h, λ h. h) other) (λ h. h, λ h. h))
        (is_provider_scoped_virtual-IsScoped t.model, scoped_known t.model)

  check_target-IsKnown :
      (alias : Text) (t : V2Target) → (check_target cfg alias t ≡ none) ↔ IsKnown cfg alias t
  unfolding check_target
  check_target-IsKnown alias t =
      let known = known_target-IsKnown alias t in
      (λ h. known.0 (ground (arith, h)), λ h. ground (arith, known.1 h))

  check_targets-All :
      (alias : Text) (ts : List V2Target)
      → (check_targets cfg alias ts ≡ none) ↔ ((ts ≢ []) × All (IsKnown cfg alias) ts)
  unfolding check_targets
  check_targets-All alias [] = ground arith
  check_targets-All alias (t ∷ ts) =
      let all =
        first_error-All (check_target cfg alias) (IsKnown cfg alias) (check_target-IsKnown alias)
          (t ∷ ts) in
      (λ e. (λ q. absurd cc, all.0 e), λ h. all.1 h.1)

  check_logical-IsUsableRoute :
      (e : Text × V2LogicalModel) → (check_logical cfg e ≡ none) ↔ IsUsableRoute cfg e
  check_logical-IsUsableRoute (alias, lm) = check_targets-All alias lm.route.targets

  -- A configuration passes the checks exactly if it is usable.
  pub validate-IsUsable : (validate cfg ≡ none) ↔ IsUsable cfg
  unfolding validate
  validate-IsUsable =
      let p = first_error-All check_provider HasUrl check_provider-HasUrl cfg.providers in
      let m =
        first_error-All (check_model cfg) (IsUsableModel cfg) check_model-IsUsableModel
          cfg.models in
      let r =
        first_error-All (check_logical cfg) (IsUsableRoute cfg) check_logical-IsUsableRoute
          cfg.logical_models in
      let outer = or_option-none (first_error check_provider cfg.providers) (
        or_option (first_error (check_model cfg) cfg.models)
          (first_error (check_logical cfg) cfg.logical_models)) in
      let inner =
        or_option-none (first_error (check_model cfg) cfg.models)
          (first_error (check_logical cfg) cfg.logical_models) in
      (
        λ e. record {
          providers_ok = p.0 (outer.0 e).0;
          models_ok = m.0 (inner.0 (outer.0 e).1).0;
          routes_ok = r.0 (inner.0 (outer.0 e).1).1;
        },
        λ u. outer.1 (p.1 u.providers_ok, inner.1 (m.1 u.models_ok, r.1 u.routes_ok)),
      )

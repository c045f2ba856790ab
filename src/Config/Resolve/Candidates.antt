-- ===== src/Config/Resolve/Candidates.antt =====
-- What one target contributes: candidates with the addresses of one provider and with enabled keys of
-- it that the target allows.
use llm_provider_router.Prelude.{
  Text, true, Option, none, some, List, [], ◌∷◌, ◌++◌, map, ◌≡◌, refl, filter, find, arith,
  text_equality, Option-cases, Bool-cases, inl, inr, ◌⊎◌, All, MemberOf, if-cases, elim-cases,
}
use llm_provider_router.Prelude.Int.{ℤ}
use llm_provider_router.Prelude.Json.{Json}
use llm_provider_router.Prelude.Dict.{Dict, lookup}
use llm_provider_router.Config.{
  KeyRef, V2Config, V2Key, V2Provider, V2PhysicalModel, Strategy, new_alias,
}
use llm_provider_router.Router.Selection.{TargetCandidate}
use llm_provider_router.Config.Resolve.{
  allows, key_ref, may_use, enabled_keys_filtered, lm_params_default, base_model, is_upstream,
  reuse_windows, virtual_candidate, starved, physical_candidate, option_list, virtual_each,
  virtual_candidates, scoped_virtual, sort_providers,
}

-- An enabled key of the provider that the target allows.
abbrev pub KeyOf : Text → V2Provider → Option (List Text) → KeyRef → Type 0
KeyOf provider prov allowed k =
    (key : V2Key) × MemberOf (k.name, key) prov.keys
    × (key.enabled ≡ true)
    × (allows allowed k.name ≡ true)
    × (k ≡ key_ref provider (k.name, key))

enabled_keys-KeyOf :
    (provider : Text) (prov : V2Provider) (allowed : Option (List Text)) (es : Dict Text V2Key)
    → ((e : Text × V2Key) → MemberOf e es → MemberOf e prov.keys)
    → All (KeyOf provider prov allowed) (map (key_ref provider) (filter (may_use allowed) es))
unfolding filter
enabled_keys-KeyOf provider prov allowed [] sub = tt
enabled_keys-KeyOf provider prov allowed ((name, key) ∷ es) sub =
    let rest = enabled_keys-KeyOf provider prov allowed es (λ e m. sub e (inr m)) in
    elim (Bool-cases (may_use allowed (name, key))) [
      | inr e ↦ rw e rest
      | inl e ↦
          rw e ((key, sub (name, key) (inl refl), ground (arith, e), ground (arith, e), refl), rest)
    ]

-- A candidate as a target of the alias asks for it.
pub record BuiltFor (cfg : V2Config) (alias : Text) (weight : Option ℤ)
    (allowed : Option (List Text)) (strategy : Strategy) (c : TargetCandidate) : Type 0 where
  pub alias_eq : c.model.alias ≡ alias
  pub weight_eq : c.weight ≡ weight
  pub strategy_eq : (c.strategy ≡ strategy) × (c.model.strategy ≡ strategy)
  pub provider : Text
  pub prov : V2Provider
  pub found : lookup provider cfg.providers ≡ some prov
  pub urls :
      (c.model.base_url ≡ prov.base_url)
      × (c.model.responses_base_url ≡ prov.responses_base_url)
      × (c.model.anthropic_base_url ≡ prov.anthropic_base_url)
  pub keys_of : All (KeyOf provider prov allowed) c.model.keys

module _ (cfg : V2Config) (alias : Text) (weight : Option ℤ) (allowed : Option (List Text))
    (strategy : Strategy) where
  abbrev pub Built : List TargetCandidate → Type 0
  Built cs = All (BuiltFor cfg alias weight allowed strategy) cs

  pub physical-Built :
      (model_id : Text)
      → Built (option_list (physical_candidate cfg alias model_id weight allowed strategy))
  unfolding physical_candidate enabled_keys_filtered new_alias base_model
  physical-Built model_id = elim (Option-cases (lookup model_id cfg.models)) [
    | inl e ↦ rw e tt
    | inr (pm, e) ↦ elim (Option-cases (lookup pm.provider cfg.providers)) [
      | inl d ↦ rw (e, d) tt
      | inr (prov, d) ↦
          let keys = enabled_keys_filtered prov pm.provider allowed in
          rw (e, d)
            (if-cases (λ o. Built (option_list o)) (starved allowed keys) _ _ tt
              (
                record {
                  alias_eq = refl;
                  weight_eq = refl;
                  strategy_eq = (refl, refl);
                  provider = pm.provider;
                  prov = prov;
                  found = d;
                  urls = (refl, refl, refl);
                  keys_of = enabled_keys-KeyOf pm.provider prov allowed prov.keys (λ e m. m);
                },
                tt,
              ))
    ]
  ]

  -- The windows of another model change nothing else.
  windowed-Built :
      (provider : Text) (prov : V2Provider) (keys : List KeyRef) (upstream : Text)
      (params : Dict Text Json) (o : Option (Text × V2PhysicalModel))
      → lookup provider cfg.providers ≡ some prov
      → All (KeyOf provider prov allowed) keys
      → BuiltFor cfg alias weight allowed strategy (record {
        model = reuse_windows o (base_model prov alias upstream keys params strategy);
        weight = weight;
        strategy = strategy;
      })
  unfolding new_alias base_model
  windowed-Built provider prov keys upstream params none d h = record {
    alias_eq = refl;
    weight_eq = refl;
    strategy_eq = (refl, refl);
    provider = provider;
    prov = prov;
    found = d;
    urls = (refl, refl, refl);
    keys_of = h;
  }
  windowed-Built provider prov keys upstream params (some (id, pm)) d h = record {
    alias_eq = refl;
    weight_eq = refl;
    strategy_eq = (refl, refl);
    provider = provider;
    prov = prov;
    found = d;
    urls = (refl, refl, refl);
    keys_of = h;
  }

  keys-cases :
      (ks : List KeyRef) → (ks ≡ []) ⊎ ((k : KeyRef) × (rest : List KeyRef) × (ks ≡ k ∷ rest))
  keys-cases [] = inl refl
  keys-cases (k ∷ rest) = inr (k, rest, refl)

  virtual-Built :
      (provider upstream : Text)
      → Built (option_list (virtual_candidate cfg alias provider upstream weight allowed strategy))
  unfolding virtual_candidate enabled_keys_filtered
  virtual-Built provider upstream = elim (Option-cases (lookup provider cfg.providers)) [
    | inl e ↦ rw (e, virtual_candidate) tt
    | inr (prov, e) ↦
        let keys = enabled_keys_filtered prov provider allowed in
        let all : All (KeyOf provider prov allowed) keys =
          enabled_keys-KeyOf provider prov allowed prov.keys (λ e m. m) in
        elim (keys-cases keys) [
          | inl d ↦ rw (e, d, virtual_candidate) tt
          | inr (k, rest, d) ↦
              rw (e, d, virtual_candidate)
                (
                  windowed-Built provider prov keys upstream (lm_params_default cfg alias)
                      (find (is_upstream provider upstream) cfg.models) e all,
                  tt,
                )
        ]
  ]

  append-Built : (xs ys : List TargetCandidate) → Built xs → Built ys → Built (xs ++ ys)
  append-Built [] ys p q = q
  append-Built (x ∷ xs) ys p q = (p.0, append-Built xs ys p.1 q)

  virtual_each-Built :
      (mappings : List (Text × Text))
      → Built (virtual_each cfg alias weight allowed strategy mappings)
  virtual_each-Built [] = tt
  virtual_each-Built ((provider, upstream) ∷ rest) =
      append-Built _ _ (virtual-Built provider upstream) (virtual_each-Built rest)

  -- Of an answer, if there is one.
  abbrev pub BuiltIf : Option (List TargetCandidate) → Type 0
  BuiltIf none = Unit
  BuiltIf (some cs) = Built cs

  pub virtual_candidates-Built :
      (target : Text) → BuiltIf (virtual_candidates cfg alias target weight allowed strategy)
  unfolding virtual_candidates
  virtual_candidates-Built target =
      elim-cases BuiltIf (lookup target cfg.virtual_models) _ _
        (elim-cases BuiltIf (scoped_virtual cfg target) _ _ tt
          (λ scoped e. virtual_each-Built (scoped ∷ [])))
        (λ mappings e. virtual_each-Built (sort_providers mappings))

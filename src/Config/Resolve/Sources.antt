-- ===== src/Config/Resolve/Sources.antt =====
-- Where the candidates of a name come from: from an enabled target of a logical model, with the
-- addresses of one provider and with enabled keys of it that the target allows.
use llm_provider_router.Prelude.{
  ℕ, zero, suc, Text, true, Option, none, some, List, [], ◌∷◌, ◌++◌, ◌≡◌, refl, sym, ap, subst, ◌∙◌,
  contains, text_equality, Option-cases, Bool-cases, inl, inr, All, MemberOf, if-cases, elim-cases,
  elim-split, length, ◌+◌,
}
use llm_provider_router.Prelude.Dict.{lookup, contains_key}
use llm_provider_router.Config.{V2Config, V2LogicalModel, V2Target}
use llm_provider_router.Router.Selection.{TargetCandidate}
use llm_provider_router.Config.Resolve.{
  virtual_candidates, Nested, extend_nested, expand_target, expand_targets, resolved,
  resolve_targets_inner, resolve_targets,
}
use llm_provider_router.Config.Resolve.Candidates.{
  BuiltFor, Built, BuiltIf, physical-Built, virtual_candidates-Built,
}

-- A candidate comes from an enabled target of the logical model whose name it carries.
pub record FromTarget (cfg : V2Config) (c : TargetCandidate) : Type 0 where
  pub logical : V2LogicalModel
  pub named : lookup c.model.alias cfg.logical_models ≡ some logical
  pub target : V2Target
  pub listed : MemberOf target logical.route.targets
  pub enabled : target.enabled ≡ true
  pub built : BuiltFor cfg c.model.alias target.weight target.keys logical.route.strategy c

module _ (cfg : V2Config) where
  abbrev From : List TargetCandidate → Type 0
  From cs = All (FromTarget cfg) cs

  abbrev FromIf : Option (List TargetCandidate) → Type 0
  FromIf none = Unit
  FromIf (some cs) = From cs

  abbrev FromNested : Nested → Type 0
  FromNested none = Unit
  FromNested (some o) = FromIf o

  module _ (alias : Text) (lm : V2LogicalModel) (named : lookup alias cfg.logical_models ≡ some lm)
      (nested : Text → Nested) (from : (name : Text) → FromNested (nested name)) where
    Built-From :
        (target : V2Target) (cs : List TargetCandidate)
        → MemberOf target lm.route.targets
        → target.enabled ≡ true
        → Built cfg alias target.weight target.keys lm.route.strategy cs
        → From cs
    Built-From target [] m e h = tt
    Built-From target (c ∷ cs) m e h = (
      record {
        logical = lm;
        named = ap (λ x. lookup x cfg.logical_models) h.0.alias_eq ∙ named;
        target = target;
        listed = m;
        enabled = e;
        built =
            subst (λ x. BuiltFor cfg x target.weight target.keys lm.route.strategy c)
              (sym h.0.alias_eq) h.0;
      },
      Built-From target cs m e h.1,
    )

    extend-From : (n : Nested) → FromNested n → FromIf (extend_nested n)
    extend-From none h = tt
    extend-From (some none) h = tt
    extend-From (some (some cs)) h = h

    expand_target-From :
        (target : V2Target)
        → MemberOf target lm.route.targets
        → FromIf (expand_target cfg alias lm.route.strategy nested target)
    unfolding expand_target
    expand_target-From target m = elim (Bool-cases target.enabled) [
      | inr e ↦ rw e tt
      | inl e ↦
          let strategy = lm.route.strategy in
          rw e (
            if-cases FromIf (contains_key target.model cfg.models) _ _
              (Built-From target _ m e
                (physical-Built cfg alias target.weight target.keys strategy target.model))
              (elim-split FromIf
                (virtual_candidates cfg alias target.model target.weight target.keys strategy) _ _
                (λ q. extend-From (nested target.model) (from target.model))
                (λ cs q. Built-From target cs m e (
                  subst (BuiltIf cfg alias target.weight target.keys strategy) q (
                    virtual_candidates-Built cfg alias target.weight target.keys strategy
                      target.model)))))
    ]

    append-From : (xs ys : List TargetCandidate) → From xs → From ys → From (xs ++ ys)
    append-From [] ys p q = q
    append-From (x ∷ xs) ys p q = (p.0, append-From xs ys p.1 q)

    expand_targets-From :
        (targets : List V2Target)
        → ((t : V2Target) → MemberOf t targets → MemberOf t lm.route.targets)
        → FromIf (expand_targets cfg alias lm.route.strategy nested targets)
    unfolding expand_targets
    expand_targets-From [] sub = tt
    expand_targets-From (t ∷ ts) sub =
        let first = expand_target cfg alias lm.route.strategy nested t in
        let later = expand_targets cfg alias lm.route.strategy nested ts in
        let p = expand_target-From t (sub t (inl refl)) in
        let q = expand_targets-From ts (λ u m. sub u (inr m)) in
        elim (Option-cases first) [
          | inl e ↦ rw e tt
          | inr (xs, e) ↦ elim (Option-cases later) [
            | inl d ↦ rw (e, d) tt
            | inr (ys, d) ↦ rw (e, d) (append-From xs ys (rw e at p) (rw d at q))
          ]
        ]

  resolved-From : (o : Option (List TargetCandidate)) → FromIf o → FromNested (resolved o)
  resolved-From none h = tt
  resolved-From (some cs) h = h

  resolve_inner-From :
      (fuel : ℕ) (alias : Text) (visited : List Text)
      → FromNested (resolve_targets_inner cfg fuel alias visited)
  unfolding resolve_targets_inner
  resolve_inner-From zero alias visited = tt
  resolve_inner-From (suc fuel) alias visited =
      elim-cases FromNested (lookup alias cfg.logical_models) _ _ tt (λ lm e.
        if-cases FromNested (contains alias visited) _ _ tt (
          resolved-From _ (
            expand_targets-From alias lm e _
              (λ name. resolve_inner-From fuel name (alias ∷ visited)) lm.route.targets
              (λ t m. m))))

  -- Every candidate of a name comes from an enabled target of the logical model whose name it carries,
  -- with the weight of the target and the strategy of the route; its addresses are those of one
  -- provider, and its keys are enabled keys of this provider that the target allows.
  pub resolve_targets-FromTarget :
      (alias : Text) (cs : List TargetCandidate)
      → resolve_targets cfg alias ≡ some (some cs)
      → All (FromTarget cfg) cs
  unfolding resolve_targets
  resolve_targets-FromTarget alias cs h =
      subst FromNested h (resolve_inner-From (length cfg.logical_models + 1) alias [])

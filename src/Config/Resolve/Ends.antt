-- ===== src/Config/Resolve/Ends.antt =====
-- The expansion of a logical model ends, also where logical models name each other in cycles.
use llm_provider_router.Prelude.{
  ℕ, zero, suc, ◌+◌, ◌<◌, ◌≤◌, Text, false, not, Option, none, some, List, [], ◌∷◌, ◌++◌, ◌≡◌,
  filter, contains, length, arith, text_equality, text_eq_iff, Bool-cases, inl, inr, refl,
  length-filter-le, if-cases, elim-cases,
}
use llm_provider_router.Prelude.Dict.{Dict, lookup, contains_key}
use llm_provider_router.Config.{V2Config, V2LogicalModel, V2Target, Strategy}
use llm_provider_router.Router.Selection.{TargetCandidate}
use llm_provider_router.Config.Resolve.{
  Nested, extend_nested, expand_target, expand_targets, resolved, resolve_targets_inner,
  resolve_targets, virtual_candidates,
}

module _ {V : Type 0} where
  -- The keys of a dictionary that were not visited.
  abbrev pub unvisited : List Text → Dict Text V → ℕ
  unvisited visited m = length (filter (λ (e : Text × V). not (contains e.0 visited)) m)

  unvisited-le :
      (name : Text) (visited : List Text) (m : Dict Text V)
      → unvisited (name ∷ visited) m ≤ unvisited visited m
  unfolding filter contains
  unvisited-le name visited [] = omega arith
  unvisited-le name visited ((k, v) ∷ m) = ground (arith, unvisited-le name visited m)

  pub unvisited-falls :
      (name : Text) (visited : List Text) (m : Dict Text V) (v : V)
      → lookup name m ≡ some v
      → contains name visited ≡ false
      → unvisited (name ∷ visited) m < unvisited visited m
  unfolding filter contains lookup
  unvisited-falls name visited [] v l e = cc
  unvisited-falls name visited ((k, w) ∷ m) v l e = ground (
    arith,
    text_eq_iff k name,
    text_eq_iff name k,
    unvisited-le name visited m,
    unvisited-falls name visited m v,
    e,
  )

-- The answer is there.
abbrev pub IsSome {ℓ} : {A : Type ℓ} → Option A → Type ℓ
IsSome {A = A} o = (a : A) × (o ≡ some a)

module _ (cfg : V2Config) (alias : Text) (strategy : Strategy) (nested : Text → Nested)
    (answers : (name : Text) → IsSome (nested name)) where
  extend-IsSome : (n : Nested) → IsSome n → IsSome (extend_nested n)
  extend-IsSome none (r, e) = absurd cc
  extend-IsSome (some none) h = ([], refl)
  extend-IsSome (some (some cs)) h = (cs, refl)

  expand_target-IsSome :
      (target : V2Target) → IsSome (expand_target cfg alias strategy nested target)
  unfolding expand_target
  expand_target-IsSome target =
      if-cases IsSome (not target.enabled) _ _ ([], refl)
        (if-cases IsSome (contains_key target.model cfg.models) _ _ (_, refl)
          (elim-cases IsSome
            (virtual_candidates cfg alias target.model target.weight target.keys strategy) _ _
            (extend-IsSome (nested target.model) (answers target.model))
            (λ candidates e. (candidates, refl))))

  expand_targets-IsSome :
      (targets : List V2Target) → IsSome (expand_targets cfg alias strategy nested targets)
  unfolding expand_targets
  expand_targets-IsSome [] = ([], refl)
  expand_targets-IsSome (t ∷ ts) =
      let (first, e) = expand_target-IsSome t in
      let (later, d) = expand_targets-IsSome ts in rw (e, d) (first ++ later, refl)

resolved-IsSome : (o : Option (List TargetCandidate)) → IsSome o → IsSome (resolved o)
resolved-IsSome none (r, e) = absurd cc
resolved-IsSome (some cs) h = (some cs, refl)

-- More fuel than logical models that are not being visited is enough.
resolve_inner-IsSome :
    (cfg : V2Config) (fuel : ℕ) (alias : Text) (visited : List Text)
    → unvisited visited cfg.logical_models < fuel
    → IsSome (resolve_targets_inner cfg fuel alias visited)
unfolding resolve_targets_inner
resolve_inner-IsSome cfg zero alias visited h = absurd (omega (arith, h))
resolve_inner-IsSome cfg (suc fuel) alias visited h =
    elim-cases IsSome (lookup alias cfg.logical_models) _ _ (none, refl)
      (λ lm l. elim (Bool-cases (contains alias visited)) [
        | inl e ↦ rw e (some [], refl)
        | inr e ↦ rw e (
            resolved-IsSome _ (
              expand_targets-IsSome cfg alias lm.route.strategy _
                (λ name.
                  resolve_inner-IsSome cfg fuel name (alias ∷ visited)
                    (omega (arith, h, unvisited-falls alias visited cfg.logical_models lm l e)))
                lm.route.targets))
      ])

-- The expansion of every name ends, whatever cycles the logical models form: its fuel, one more than
-- there are logical models, is never used up.
pub resolve_targets_ends :
    (cfg : V2Config) (alias : Text)
    → (answer : Option (List TargetCandidate)) × (resolve_targets cfg alias ≡ some answer)
unfolding resolve_targets
resolve_targets_ends cfg alias = resolve_inner-IsSome cfg (length cfg.logical_models + 1) alias [] (
    omega (
      arith,
      length-filter-le (λ (e : Text × V2LogicalModel). not (contains e.0 [])) cfg.logical_models,
    ))

-- ===== src/Config/Fold/Total.antt =====
-- After the checks of a configuration the fold succeeds: its search ends, its index does not panic, and
-- no provider is missing.
use llm_provider_router.Prelude.{
  ℕ, zero, suc, ◌+◌, ◌<◌, Text, true, false, not, ◌≡◌, refl, none, some, List, [], ◌∷◌, arith,
  contains, length, length-filter-le, text_equality, Option-cases, inl, inr, if-cases, if-split,
  ◌⊎◌, elim-cases,
}
use llm_provider_router.Prelude.Dict.{
  Dict, lookup, insert, contains_key, contains-lookup, lookup-All,
}
use llm_provider_router.Config.{ModelAlias, V2Config, V2Target, V2LogicalModel}
use llm_provider_router.Config.Resolve.Ends.{unvisited, unvisited-falls}
use llm_provider_router.Config.Validate.{validate, ConfigError}
use llm_provider_router.Config.Validate.Sound.{IsUsable, IsUsableModel, validate-IsUsable}
use llm_provider_router.Config.Fold.{
  target_keys_usable, Search, or_later, first_of, first_physical_target, Folded, folded, invalid,
  put_alias, folded_alias, fold_found, fold_entries, fold_to_aliases,
}

-- A search ends, and a target that it finds is enabled and names a physical model.
abbrev pub Finds : V2Config → Search → Type 0
Finds cfg none = ⊥
Finds cfg (some none) = Unit
Finds cfg (some (some t)) = (t.enabled ≡ true) × (contains_key t.model cfg.models ≡ true)

module _ (cfg : V2Config) where
  or_later-Finds : (a b : Search) → Finds cfg a → Finds cfg b → Finds cfg (or_later a b)
  or_later-Finds none b p q = p
  or_later-Finds (some none) b p q = q
  or_later-Finds (some (some t)) b p q = p

  first_of-Finds :
      (nested : List V2Target → List Text → Search) (visited : List Text)
      → ((name : Text) (lm : V2LogicalModel)
          → lookup name cfg.logical_models ≡ some lm
          → contains name visited ≡ false
          → Finds cfg (nested lm.route.targets (name ∷ visited)))
      → (ts : List V2Target) → Finds cfg (first_of cfg nested visited ts)
  unfolding first_of
  first_of-Finds nested visited inner [] = tt
  first_of-Finds nested visited inner (t ∷ ts) =
      let later = first_of-Finds nested visited inner ts in
      if-split (Finds cfg) (not t.enabled) _ _ (λ e. later)
        (λ e.
          if-split (Finds cfg) (contains_key t.model cfg.models) _ _
            (λ m. if-cases (Finds cfg) (target_keys_usable cfg t) _ _ (ground (arith, e), m) later)
            (λ m. elim-cases (Finds cfg) (lookup t.model cfg.logical_models) _ _ later (λ lm l.
              if-split (Finds cfg) (contains t.model visited) _ _ (λ v. later)
                (λ v. or_later-Finds _ _ (inner t.model lm l v) later))))

  first_physical-Finds :
      (fuel : ℕ) (ts : List V2Target) (visited : List Text)
      → unvisited visited cfg.logical_models < fuel
      → Finds cfg (first_physical_target cfg fuel ts visited)
  unfolding first_physical_target
  first_physical-Finds zero ts visited h = absurd (omega (arith, h))
  first_physical-Finds (suc fuel) ts visited h =
      first_of-Finds (λ us vs. first_physical_target cfg fuel us vs) visited
        (λ name lm l e.
          first_physical-Finds fuel lm.route.targets (name ∷ visited)
            (omega (arith, h, unvisited-falls name visited cfg.logical_models lm l e)))
        ts

-- The fold is a success.
abbrev pub Succeeds : Folded → Type 0
Succeeds f = (aliases : Dict Text ModelAlias) × (f ≡ folded aliases)

module _ (cfg : V2Config) (usable : IsUsable cfg) where
  put_alias-Succeeds :
      (alias : Text) (m : ModelAlias) (f : Folded) → Succeeds f → Succeeds (put_alias alias m f)
  put_alias-Succeeds alias m f (aliases, e) = rw e (insert alias m aliases, refl)

  fold_found-Succeeds :
      (alias : Text) (lm : V2LogicalModel) (found : Search) (rest : Folded)
      → Finds cfg found
      → Succeeds rest
      → Succeeds (fold_found cfg alias lm found rest)
  unfolding fold_found
  fold_found-Succeeds alias lm none rest f r = elim f [ ]
  fold_found-Succeeds alias lm (some none) rest f r = r
  fold_found-Succeeds alias lm (some (some t)) rest f r =
      let (model, m) = contains-lookup t.model cfg.models f.1 in
      let good = lookup-All (IsUsableModel cfg) t.model model cfg.models usable.models_ok m in
      let (prov, p) = contains-lookup model.provider cfg.providers good.0 in
      rw (m, p, fold_found)
        (put_alias-Succeeds alias (folded_alias alias lm model prov t.keys) rest r)

  fold_entries-Succeeds : (es : Dict Text V2LogicalModel) → Succeeds (fold_entries cfg es)
  unfolding fold_entries
  fold_entries-Succeeds [] = ([], refl)
  fold_entries-Succeeds ((alias, lm) ∷ rest) =
      fold_found-Succeeds alias lm _ _
        (first_physical-Finds cfg (length cfg.logical_models + 1) lm.route.targets (alias ∷ []) (
          omega (
            arith,
            length-filter-le (λ (e : Text × V2LogicalModel). not (contains e.0 (alias ∷ [])))
                cfg.logical_models,
          )))
        (fold_entries-Succeeds rest)

-- The fold answers with the error of the checks, or it succeeds: after the checks its search of every
-- logical model ends, the index of the model that it finds does not panic, and no provider is missing.
pub fold_to_aliases_total :
    (cfg : V2Config)
    → ((e : ConfigError) × (validate cfg ≡ some e) × (fold_to_aliases cfg ≡ invalid e))
      ⊎ ((validate cfg ≡ none) × Succeeds (fold_to_aliases cfg))
unfolding fold_to_aliases
fold_to_aliases_total cfg = elim (Option-cases (validate cfg)) [
  | inl e ↦ inr (
    e,
    rw (e, fold_to_aliases)
        (fold_entries-Succeeds cfg ((validate-IsUsable cfg).0 e) cfg.logical_models),
  )
  | inr (x, e) ↦ inl (x, e, rw (e, fold_to_aliases) refl)
]

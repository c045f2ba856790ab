-- ===== src/Router/Routing/Routed.antt =====
-- Every model of a route comes from a candidate of the name or from its custom alias, and no candidate
-- is dropped but for a spent quota.
use mathlib.Core.List.{Perm}
use llm_provider_router.Prelude.{
  ℕ, Text, not, ◌≡◌, refl, ◌∙◌, sym, subst, ap, Option, some, List, [], ◌∷◌, ◌++◌, map, any, inl,
  inr, All, MemberOf, filter-MemberOf, Option-cases, text_equality, elim-cases, if-cases,
}
use llm_provider_router.Prelude.Dict.{Dict, lookup}
use llm_provider_router.Config.{ModelAlias, V2Config, Strategy, priority, weighted, usage_aware}
use llm_provider_router.Config.Resolve.{resolve_targets, option_list}
use llm_provider_router.Config.Resolve.Sources.{FromTarget, resolve_targets-FromTarget}
use llm_provider_router.Usage.{UsageStore, key_token_totals_today}
use llm_provider_router.Router.Selection.{
  Sampler, TargetCandidate, drop_exhausted_candidates, candidate_exhausted,
}
use llm_provider_router.Router.Selection.Quota.{drop_exhausted_soft}
use llm_provider_router.Router.Selection.Order.{order_targets_total}
use llm_provider_router.Router.Routing.{
  CustomAlias, custom_alias_models, key_names, keep_by, keep_fresh, preferred_of, expanded,
  route_aliases,
}

drop-MemberOf :
    (cs : List TargetCandidate) (totals : Dict Text ℕ) (c : TargetCandidate)
    → MemberOf c (drop_exhausted_candidates cs totals)
    → MemberOf c cs
unfolding drop_exhausted_candidates
drop-MemberOf cs totals c =
    let fresh = λ (d : TargetCandidate). not (candidate_exhausted totals d) in
    if-cases (λ ds. MemberOf c ds → MemberOf c cs) (any fresh cs) _ _
      (λ m. (filter-MemberOf fresh cs c m).0) (λ m. m)

module _ (usage : UsageStore) (midnight : ℕ) where
  -- The candidates that are left are of the list, and some are left if there were any.
  abbrev pub Keeps : List TargetCandidate → List TargetCandidate → Type 0
  Keeps cs kept = ((c : TargetCandidate) → MemberOf c kept → MemberOf c cs) × (kept ≡ [] → cs ≡ [])

  Keeps-same : (cs : List TargetCandidate) → Keeps cs cs
  Keeps-same cs = (λ c m. m, λ e. e)

  drop-Keeps :
      (cs : List TargetCandidate) (totals : Dict Text ℕ)
      → Keeps cs (drop_exhausted_candidates cs totals)
  drop-Keeps cs totals = elim (drop_exhausted_soft cs totals) [
    | inr same ↦ subst (Keeps cs) (sym same.0) (Keeps-same cs)
    | inl left ↦ (drop-MemberOf cs totals, λ e. absurd (left.0 e))
  ]

  keep_by-Keeps :
      (st : Strategy) (cs : List TargetCandidate) → Keeps cs (keep_by usage midnight st cs)
  unfolding keep_by
  keep_by-Keeps priority cs =
      elim-cases (Keeps cs) (key_token_totals_today usage midnight (key_names cs)) _ _
        (Keeps-same cs) (λ totals q. drop-Keeps cs totals)
  keep_by-Keeps weighted cs = Keeps-same cs
  keep_by-Keeps usage_aware cs = Keeps-same cs

  keep_fresh-Keeps : (cs : List TargetCandidate) → Keeps cs (keep_fresh usage midnight cs)
  unfolding keep_fresh
  keep_fresh-Keeps [] = Keeps-same []
  keep_fresh-Keeps (c ∷ cs) = keep_by-Keeps c.strategy (c ∷ cs)

  module _ (sampler : Sampler) (cfg : V2Config) (customs : List CustomAlias) (name : Text)
      (session : Option Text) where
    expanded-FromTarget : All (FromTarget cfg) (expanded cfg name)
    unfolding expanded
    expanded-FromTarget = elim (Option-cases (resolve_targets cfg name)) [
      | inl e ↦ rw e tt
      | inr (o, e) ↦ elim (Option-cases o) [
        | inl d ↦ rw (e, d) tt
        | inr (cs, d) ↦ rw (e, d) (resolve_targets-FromTarget cfg name cs (e ∙ ap (λ x. some x) d))
      ]
    ]

    -- A route never panics. It consists of the models of the candidates that are left, each once and
    -- in some order, and the custom alias of the name behind them. The candidates that are left come
    -- from enabled targets of logical models, and some are left if the name had any.
    pub route_aliases_complete :
        let cs = expanded cfg name in
        let kept = keep_fresh usage midnight cs in
        (out : List ModelAlias) × (route_aliases sampler usage midnight cfg customs name session
          ≡ some (out ++ option_list (lookup name (custom_alias_models cfg customs []))))
        × Perm out (map (λ c. c.model) kept)
        × Keeps cs kept
        × All (FromTarget cfg) cs
    unfolding route_aliases
    route_aliases_complete =
        let kept = keep_fresh usage midnight (expanded cfg name) in
        let (out, e, p) =
          order_targets_total sampler kept session (preferred_of usage midnight name kept) in
        (
          out,
          rw (e, route_aliases) refl,
          p,
          keep_fresh-Keeps (expanded cfg name),
          expanded-FromTarget,
        )

-- ===== src/Router/Select/Candidates.antt =====
-- The candidates of a selection: which keys `collect` and the picks can return.
use llm_provider_router.Prelude.{
  ℕ, Text, Bool, true, not, ◌&&◌, ◌≡◌, refl, ◌∙◌, ap, Option, none, some, List, [], ◌∷◌, map, arith,
  filter, unwrap_or, text_equality, pair_eq, MemberOf, filter-MemberOf,
}
use llm_provider_router.Prelude.Int.{positive}
use llm_provider_router.Prelude.Dict.{Dict}
use llm_provider_router.Config.{KeyRef, ModelAlias, Strategy, priority, weighted, usage_aware}
use llm_provider_router.Router.Freeze.{Env, key_state_id}
use llm_provider_router.Router.Selection.Shares.{weighted_pick-MemberOf}
use llm_provider_router.Router.Selection.Quota.{priority_key_pick-MemberOf}
use llm_provider_router.Usage.{key_token_totals_today, key_token_totals_for_model}
use llm_provider_router.Router.State.{RouterState, is_frozen, key_model_blocked}
use llm_provider_router.Router.State.Frozen.{
  hot, SameView, SameView-refl, SameView-trans, is_frozen-SameView, is_frozen-hot,
}
use llm_provider_router.Router.Select.{
  strategy_pick, eligible, blocked, collect, lowest_keys, near, min_ratio, ratio_of,
  usage_adjusted_by, pick_lowest, usage_adjusted_pick, names_of,
}

module _ (now : ℕ) (excluded : List Text) where
  -- A key that may serve the request: positive weight, not excluded, not frozen.
  abbrev pub usable : RouterState → KeyRef → Bool
  usable s k = eligible excluded k && not (hot now s.frozen (key_state_id k))

  usable-SameView : (s t : RouterState) → SameView now s t → (k : KeyRef) → usable t k ≡ usable s k
  usable-SameView s t v k = ground (arith, v.hot_eq (key_state_id k))

  blocked-SameView :
      (model : Text) (s t : RouterState) (k : KeyRef)
      → SameView now s t
      → blocked now model t k ≡ blocked now model s k
  unfolding key_model_blocked
  blocked-SameView model s t k v =
      ap (λ u. blocked now model (record s { unsupported = u }) k) v.unsupported_eq

  -- The test that `collect` applies to a key.
  abbrev pub wanted : Text → Bool → RouterState → KeyRef → Bool
  wanted model respect s k = usable s k && not (respect && blocked now model s k)

  filter-wanted :
      (model : Text) (respect : Bool) (s t : RouterState)
      → SameView now s t
      → (ks : List KeyRef) → filter (wanted model respect t) ks ≡ filter (wanted model respect s) ks
  unfolding filter
  filter-wanted model respect s t v [] = refl
  filter-wanted model respect s t v (k ∷ ks) = ground (
    arith,
    v.hot_eq (key_state_id k),
    blocked-SameView model s t k v,
    filter-wanted model respect s t v ks,
  )

  pub collect-SameView :
      (model : Text) (respect : Bool) (ks : List KeyRef) (s : RouterState)
      → SameView now s (collect now model excluded respect ks s).0
  unfolding collect
  collect-SameView model respect [] s = SameView-refl now s
  collect-SameView model respect (k ∷ ks) s =
      let s' = (is_frozen now (key_state_id k) s).0 in
      let later =
        SameView-trans now s s' (collect now model excluded respect ks s').0
          (is_frozen-SameView now (key_state_id k) s) (collect-SameView model respect ks s') in
      let plain = collect-SameView model respect ks s in
      record {
        hot_eq = λ j. ground (arith, later.hot_eq j, plain.hot_eq j);
        unsupported_eq = ground (arith, later.unsupported_eq, plain.unsupported_eq);
        conn_eq = ground (arith, later.conn_eq, plain.conn_eq);
        usage_eq = ground (arith, later.usage_eq, plain.usage_eq);
      }

  pub collect-filter :
      (model : Text) (respect : Bool) (ks : List KeyRef) (s : RouterState)
      → s.store.conn_ok ≡ true
      → (collect now model excluded respect ks s).1 ≡ filter (wanted model respect s) ks
  unfolding collect filter
  collect-filter model respect [] s ok = refl
  collect-filter model respect (k ∷ ks) s ok =
      let s' = (is_frozen now (key_state_id k) s).0 in
      let v = is_frozen-SameView now (key_state_id k) s in
      ground (
        arith,
        is_frozen-hot now (key_state_id k) s,
        blocked-SameView model s s' k v,
        filter-wanted model respect s s' v ks,
        collect-filter model respect ks s ok,
        collect-filter model respect ks s' (v.conn_eq ∙ ok),
      )

  pub collect-MemberOf :
      (model : Text) (respect : Bool) (ks : List KeyRef) (s : RouterState) (a : KeyRef)
      → MemberOf a (collect now model excluded respect ks s).1
      → MemberOf a ks × (wanted model respect s a ≡ true)
  unfolding collect
  collect-MemberOf model respect [] s a h = elim h [ ]
  collect-MemberOf model respect (k ∷ ks) s a h =
      let s' = (is_frozen now (key_state_id k) s).0 in
      let v = is_frozen-SameView now (key_state_id k) s in
      ground (
        arith,
        is_frozen-hot now (key_state_id k) s,
        blocked-SameView model s s' k v,
        blocked-SameView model s s' a v,
        v.hot_eq (key_state_id a),
        collect-MemberOf model respect ks s a,
        collect-MemberOf model respect ks s' a,
      )

lowest_keys-MemberOf :
    (totals : Dict Text ℕ) (ks : List KeyRef) (k : KeyRef)
    → MemberOf k (lowest_keys totals ks)
    → MemberOf k ks
unfolding lowest_keys
lowest_keys-MemberOf totals ks k h =
    (filter-MemberOf (λ j. near (min_ratio (map (ratio_of totals) ks)) (ratio_of totals j)) ks k
      h).0

pick_lowest-MemberOf :
    (env : Env) (alias : ModelAlias) (ks : List KeyRef) (session : Option Text) (t : Dict Text ℕ)
    (ps : List KeyRef) (k : KeyRef)
    → ((j : KeyRef) → MemberOf j ps → MemberOf j ks)
    → pick_lowest env alias ks session t ps ≡ some k
    → MemberOf k ks
unfolding pick_lowest
pick_lowest-MemberOf env alias ks session t [] k sub h =
    weighted_pick-MemberOf env.sampler ks session alias.alias k h
pick_lowest-MemberOf env alias ks session t (p ∷ ps) k sub h = sub k (
    lowest_keys-MemberOf t (p ∷ ps) k
      (weighted_pick-MemberOf env.sampler (lowest_keys t (p ∷ ps)) session alias.alias k h))

usage_adjusted_by-MemberOf :
    (env : Env) (alias : ModelAlias) (ks : List KeyRef) (session : Option Text)
    (totals : Option (Dict Text ℕ)) (k : KeyRef)
    → usage_adjusted_by env alias ks session totals ≡ some k
    → MemberOf k ks
unfolding usage_adjusted_by
usage_adjusted_by-MemberOf env alias ks session none k h = cc
usage_adjusted_by-MemberOf env alias ks session (some t) k h =
    pick_lowest-MemberOf env alias ks session t (filter (λ (j : KeyRef). positive j.weight) ks) k
      (λ j m. (filter-MemberOf (λ (i : KeyRef). positive i.weight) ks j m).0) h

pub strategy_pick-MemberOf :
    (env : Env) (now : ℕ) (alias : ModelAlias) (ks : List KeyRef) (session : Option Text)
    (s : RouterState) (st : Strategy) (k : KeyRef)
    → strategy_pick env now alias ks session s st ≡ some k
    → MemberOf k ks
unfolding strategy_pick usage_adjusted_pick
strategy_pick-MemberOf env now alias ks session s weighted k h =
    weighted_pick-MemberOf env.sampler ks session alias.alias k h
strategy_pick-MemberOf env now alias ks session s priority k h =
    let totals =
      unwrap_or (key_token_totals_today s.usage_store (env.local_midnight now) (names_of ks)) [] in
    ground (
      arith,
      priority_key_pick-MemberOf ks totals k,
      weighted_pick-MemberOf env.sampler ks session alias.alias k,
    )
strategy_pick-MemberOf env now alias ks session s usage_aware k h = ground (
  arith,
  usage_adjusted_by-MemberOf env alias ks session
      (key_token_totals_for_model s.usage_store (env.local_midnight now) alias.alias (names_of ks))
      k,
  weighted_pick-MemberOf env.sampler ks session alias.alias k,
)

-- ===== src/Router/Select/Kept.antt =====
-- The selection of a key keeps what its single steps keep.
use llm_provider_router.Prelude.{
  ℕ, Text, Bool, true, false, Option, none, some, List, [], ◌∷◌, contains, if-cases, text_equality,
  pair_eq,
}
use llm_provider_router.Prelude.Dict.{lookup}
use llm_provider_router.Config.{KeyRef, ModelAlias, upstream_model}
use llm_provider_router.StateStore.{SessionBinding}
use llm_provider_router.Router.Freeze.{Env, key_state_id}
use llm_provider_router.Router.State.{RouterState, is_frozen}
use llm_provider_router.Router.Select.{
  frozen_or_error, eligible, collect, retry_collect, bind_session, finish, select_fresh,
  keep_or_move, quota_spent, sticky_key, from_binding, after_cleanup, select_key_excluding,
}
use llm_provider_router.Router.State.Steps.{KeptBySteps}

module _ (P : RouterState → Type 0) (kept : KeptBySteps P) where
  abbrev Left {ℓ} : {A : Type ℓ} → RouterState × A → Type 0
  Left r = P r.0

  module _ (now : ℕ) (model : Text) (excluded : List Text) where
    collect-keeps :
        (respect : Bool) (ks : List KeyRef) (s : RouterState)
        → P s
        → P (collect now model excluded respect ks s).0
    unfolding collect
    collect-keeps respect [] s p = p
    collect-keeps respect (k ∷ ks) s p =
        let s' = (frozen_or_error now (key_state_id k) s).0 in
        let rest = collect-keeps respect ks s' (kept.by_is_frozen now (key_state_id k) s p) in
        if-cases Left (eligible excluded k) _ _ (if-cases Left _ _ _ rest rest)
          (collect-keeps respect ks s p)

    retry_collect-keeps :
        (keys : List KeyRef) (r : RouterState × List KeyRef)
        → P r.0
        → P (retry_collect now model excluded keys r).0
    retry_collect-keeps keys (s, []) p = collect-keeps false keys s p
    retry_collect-keeps keys (s, c ∷ cs) p = p

  module _ (env : Env) (now : ℕ) (alias : ModelAlias) (excluded : List Text) where
    bind_session-keeps :
        (session : Option Text) (k : KeyRef) (s : RouterState)
        → P s
        → P (bind_session now alias session k s)
    unfolding bind_session
    bind_session-keeps none k s p = p
    bind_session-keeps (some x) k s p = kept.by_bind now alias.alias x (key_state_id k) s p

    finish-keeps :
        (session : Option Text) (r : RouterState × List KeyRef)
        → P r.0
        → P (finish env now alias session r).0
    unfolding finish
    finish-keeps session (s, []) p = p
    finish-keeps session (s, c ∷ cs) p = bind_session-keeps session _ s p

    select_fresh-keeps :
        (session : Option Text) (s : RouterState)
        → P s
        → P (select_fresh env now alias session excluded s).0
    unfolding select_fresh
    select_fresh-keeps session s p =
        let model = upstream_model alias in
        finish-keeps session _ (
          retry_collect-keeps now model excluded alias.keys _
            (collect-keeps now model excluded true alias.keys s p))

    keep_or_move-keeps :
        (session : Text) (o : Option KeyRef) (s : RouterState)
        → P s
        → P (keep_or_move env now alias session excluded o s).0
    unfolding keep_or_move
    keep_or_move-keeps session none s p = select_fresh-keeps (some session) s p
    keep_or_move-keeps session (some k) s p =
        if-cases Left (quota_spent env now k s) _ _
          (select_fresh-keeps (some session) _ (kept.by_unbind alias.alias session s p))
          (kept.by_bind now alias.alias session (key_state_id k) s p)

    from_binding-keeps :
        (session : Text) (o : Option SessionBinding) (s : RouterState)
        → P s
        → P (from_binding env now alias session excluded o s).0
    unfolding from_binding
    from_binding-keeps session none s p = select_fresh-keeps (some session) s p
    from_binding-keeps session (some b) s p =
        let p' = kept.by_is_frozen now b.key_name s p in
        if-cases Left (contains b.key_name excluded) _ _ (select_fresh-keeps (some session) s p) (
          if-cases Left (frozen_or_error now b.key_name s).1 _ _
            (select_fresh-keeps (some session) _ p')
            (keep_or_move-keeps session
              (sticky_key now alias excluded b.key_name (is_frozen now b.key_name s).0) _ p'))

    after_cleanup-keeps :
        (session : Option Text) (r : RouterState × Bool)
        → P r.0
        → P (after_cleanup env now alias session excluded r).0
    unfolding after_cleanup
    after_cleanup-keeps session (s, false) p = p
    after_cleanup-keeps none (s, true) p = select_fresh-keeps none s p
    after_cleanup-keeps (some x) (s, true) p =
        from_binding-keeps x (lookup (alias.alias, x) s.bindings) s p

    pub select_key-keeps :
        (session : Option Text) (s : RouterState)
        → P s
        → P (select_key_excluding env now alias session excluded s).0
    unfolding select_key_excluding
    select_key-keeps session s p = after_cleanup-keeps session _ (kept.by_cleanup now s p)

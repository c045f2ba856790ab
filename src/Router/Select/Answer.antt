-- ===== src/Router/Select/Answer.antt =====
-- What `select_key_excluding` answers: only usable keys, and one whenever there is one.
use llm_provider_router.Prelude.{
  ℕ, Text, Bool, true, false, not, ◌&&◌, ◌≡◌, refl, sym, ◌∙◌, ◌⊎◌, inl, inr, Option, none, some,
  List, [], ◌∷◌, arith, filter, contains, ◌==◌, text_equality, pair_eq, text_eq_iff, Bool-cases,
  Option-cases, All, MemberOf, find-MemberOf,
}
use llm_provider_router.Prelude.Int.{positive}
use llm_provider_router.Prelude.Dict.{lookup, Distinct}
use llm_provider_router.Config.{KeyRef, ModelAlias, upstream_model}
use llm_provider_router.StateStore.{SessionBinding}
use llm_provider_router.Router.Freeze.{Env, key_state_id}
use llm_provider_router.Router.State.{RouterState, cleanup, is_frozen, unbind}
use llm_provider_router.Router.State.Frozen.{
  hot, SameView, SameView-trans, is_frozen-SameView, is_frozen-hot, cleanup-SameView, cleanup_ok,
  unbind-SameView,
}
use llm_provider_router.Router.Select.{
  Selected, selected, no_available_key, strategy_pick, frozen_or_error, blocked, collect,
  retry_collect, finish, select_fresh, sticky_key, keep_or_move, from_binding, after_cleanup,
  select_key_excluding, quota_spent,
}
use llm_provider_router.Router.Select.Candidates.{
  usable, wanted, collect-SameView, collect-filter, collect-MemberOf, strategy_pick-MemberOf,
}

-- What a caller may rely on: a selected key is a usable key of the pool, and a refusal means that no
-- key of the pool is usable, or that the store failed.
abbrev pub Answers : ℕ → List Text → List KeyRef → RouterState → Selected → Type 0
Answers now excluded keys s (selected k) = MemberOf k keys × (usable now excluded s k ≡ true)
Answers now excluded keys s (no_available_key seconds) =
    (All (λ k. usable now excluded s k ≡ false) keys) ⊎ (s.store.conn_ok ≡ false)

module _ (env : Env) (now : ℕ) (alias : ModelAlias) (excluded : List Text) where
  finish-Answers :
      (session : Option Text) (s t : RouterState) (cs : List KeyRef)
      → ((k : KeyRef) → MemberOf k cs → MemberOf k alias.keys × (usable now excluded s k ≡ true))
      → (cs ≡ []
          → (All (λ k. usable now excluded s k ≡ false) alias.keys) ⊎ (s.store.conn_ok ≡ false))
      → Answers now excluded alias.keys s (finish env now alias session (t, cs)).1
  unfolding finish
  finish-Answers session s t [] sound empty = empty refl
  finish-Answers session s t (c ∷ cs) sound empty =
      elim (Option-cases (strategy_pick env now alias (c ∷ cs) session t alias.strategy)) [
        | inl e ↦ rw e (sound c (inl refl))
        | inr (k, e) ↦
            rw e
              (sound k (strategy_pick-MemberOf env now alias (c ∷ cs) session t alias.strategy k e))
      ]

  empty-All : (p : KeyRef → Bool) (ks : List KeyRef) → filter p ks ≡ [] → All (λ k. p k ≡ false) ks
  unfolding filter
  empty-All p [] h = tt
  empty-All p (k ∷ ks) h = elim (Bool-cases (p k)) [
    | inl e ↦ absurd (ground arith)
    | inr e ↦ (e, empty-All p ks (ground arith))
  ]

  usable-All :
      (s t : RouterState) (ks : List KeyRef)
      → SameView now s t
      → All (λ k. wanted now excluded (upstream_model alias) false t k ≡ false) ks
      → All (λ k. usable now excluded s k ≡ false) ks
  usable-All s t [] v h = tt
  usable-All s t (k ∷ ks) v h = (ground (arith, v.hot_eq (key_state_id k)), usable-All s t ks v h.1)

  collect_sound :
      (respect : Bool) (s t : RouterState)
      → SameView now s t
      → (k : KeyRef)
      → MemberOf k (collect now (upstream_model alias) excluded respect alias.keys t).1
      → MemberOf k alias.keys × (usable now excluded s k ≡ true)
  collect_sound respect s t v k m =
      let w = collect-MemberOf now excluded (upstream_model alias) respect alias.keys t k m in
      (w.0, ground (arith, w.1, v.hot_eq (key_state_id k)))

  collect_complete :
      (s t : RouterState)
      → SameView now s t
      → (collect now (upstream_model alias) excluded false alias.keys t).1 ≡ []
      → (All (λ k. usable now excluded s k ≡ false) alias.keys) ⊎ (s.store.conn_ok ≡ false)
  collect_complete s t v e = elim (Bool-cases s.store.conn_ok) [
    | inr bad ↦ inr bad
    | inl ok ↦ inl (
        usable-All s t alias.keys v (
          empty-All (wanted now excluded (upstream_model alias) false t) alias.keys (
            sym (
              collect-filter now excluded (upstream_model alias) false alias.keys t
                (v.conn_eq ∙ ok))
            ∙ e)))
  ]

  retry-Answers :
      (session : Option Text) (s t : RouterState) (cs : List KeyRef)
      → SameView now s t
      → ((k : KeyRef) → MemberOf k cs → MemberOf k alias.keys × (usable now excluded s k ≡ true))
      → Answers now excluded alias.keys s
          (finish env now alias session
            (retry_collect now (upstream_model alias) excluded alias.keys (t, cs))).1
  retry-Answers session s t (c ∷ cs) v sound =
      finish-Answers session s t (c ∷ cs) sound (λ e. absurd (cc))
  retry-Answers session s t [] v sound =
      finish-Answers session s (collect now (upstream_model alias) excluded false alias.keys t).0
        (collect now (upstream_model alias) excluded false alias.keys t).1
        (collect_sound false s t v) (collect_complete s t v)

  -- Read from any state with the same view as `s`.
  select_fresh-Answers :
      (session : Option Text) (s t : RouterState)
      → SameView now s t
      → Answers now excluded alias.keys s (select_fresh env now alias session excluded t).1
  unfolding select_fresh
  select_fresh-Answers session s t v =
      let r = collect now (upstream_model alias) excluded true alias.keys t in
      retry-Answers session s r.0 r.1
        (SameView-trans now s t r.0 v
          (collect-SameView now excluded (upstream_model alias) true alias.keys t))
        (collect_sound true s t v)

  sticky_key-usable :
      (bound : Text) (s t : RouterState) (k : KeyRef)
      → SameView now s t
      → hot now s.frozen bound ≡ false
      → sticky_key now alias excluded bound t ≡ some k
      → MemberOf k alias.keys × (usable now excluded s k ≡ true)
  unfolding sticky_key
  sticky_key-usable bound s t k v cold h =
      let m =
        find-MemberOf
          (λ (k : KeyRef).
            key_state_id k == bound
            && positive k.weight
            && not (contains k.name excluded)
            && not (blocked now (upstream_model alias) t k))
          alias.keys k h in
      (m.0, ground (arith, text_eq_iff (key_state_id k) bound, m.1))

  keep_or_move-Answers :
      (session : Text) (o : Option KeyRef) (s t : RouterState)
      → SameView now s t
      → ((k : KeyRef) → o ≡ some k → MemberOf k alias.keys × (usable now excluded s k ≡ true))
      → Answers now excluded alias.keys s (keep_or_move env now alias session excluded o t).1
  unfolding keep_or_move
  keep_or_move-Answers session none s t v sound = select_fresh-Answers (some session) s t v
  keep_or_move-Answers session (some k) s t v sound = elim (Bool-cases (quota_spent env now k t)) [
    | inl e ↦ rw e (
        select_fresh-Answers (some session) s (unbind alias.alias session t) (
          SameView-trans now s t (unbind alias.alias session t) v
            (unbind-SameView now alias.alias session t)))
    | inr e ↦ rw e (sound k refl)
  ]

  from_binding-Answers :
      (session : Text) (o : Option SessionBinding) (s t : RouterState)
      → SameView now s t
      → Answers now excluded alias.keys s (from_binding env now alias session excluded o t).1
  unfolding from_binding
  from_binding-Answers session none s t v = select_fresh-Answers (some session) s t v
  from_binding-Answers session (some b) s t v =
      let t' = (is_frozen now b.key_name t).0 in
      let v' = SameView-trans now s t t' v (is_frozen-SameView now b.key_name t) in
      elim (Bool-cases (contains b.key_name excluded)) [
        | inl e ↦ rw e (select_fresh-Answers (some session) s t v)
        | inr e ↦ elim (Bool-cases (frozen_or_error now b.key_name t).1) [
          | inl f ↦ rw (e, f) (select_fresh-Answers (some session) s t' v')
          | inr f ↦
              rw (e, f)
                (keep_or_move-Answers session (sticky_key now alias excluded b.key_name t') s t' v'
                  (λ k h.
                    sticky_key-usable b.key_name s t' k v'
                      (ground (arith, is_frozen-hot now b.key_name t, v.hot_eq b.key_name)) h))
        ]
      ]

  after_cleanup-Answers :
      (session : Option Text) (s t : RouterState) (ok : Bool)
      → SameView now s t
      → (ok ≡ false → s.store.conn_ok ≡ false)
      → Answers now excluded alias.keys s (after_cleanup env now alias session excluded (t, ok)).1
  unfolding after_cleanup
  after_cleanup-Answers session s t false v bad = inr (bad refl)
  after_cleanup-Answers none s t true v bad = select_fresh-Answers none s t v
  after_cleanup-Answers (some session) s t true v bad =
      from_binding-Answers session (lookup (alias.alias, session) t.bindings) s t v

  -- A selected key belongs to the pool, has a positive weight, is not excluded and is not frozen at
  -- that time, also on the sticky path and whether or not the store works. If no key is selected,
  -- either no key of the pool is usable, or the store failed. The freezes have distinct keys.
  pub select_key_Answers :
      (session : Option Text) (s : RouterState)
      → Distinct s.frozen
      → Answers now excluded alias.keys s (select_key_excluding env now alias session excluded s).1
  unfolding select_key_excluding
  select_key_Answers session s d =
      after_cleanup-Answers session s (cleanup now s).0 (cleanup now s).1 (cleanup-SameView now s d)
        (λ e. ground (arith, cleanup_ok now s))

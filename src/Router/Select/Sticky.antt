-- ===== src/Router/Select/Sticky.antt =====
-- A session keeps its key as long as the key can serve it.
use llm_provider_router.Prelude.{
  ℕ, ◌+◌, ◌<◌, Text, Bool, true, false, ◌≡◌, refl, ◌∙◌, ap, inl, inr, none, some, List, arith,
  contains, MemberOf, find-only, not, ◌&&◌, ◌==◌, text_eq_iff, text_equality, pair_eq, beq_refl,
  Option-cases,
}
use llm_provider_router.Prelude.Dict.{
  lookup, Distinct, keys_where, remove_all, lookup-remove_all, contains-keys_where, lookup-insert,
}
use llm_provider_router.Prelude.Int.{positive}
use llm_provider_router.Config.{KeyRef, ModelAlias, upstream_model}
use llm_provider_router.StateStore.{SessionBinding, SessionKey, delete_frozen, delete_bindings}
use llm_provider_router.Router.Freeze.{Env, key_state_id}
use llm_provider_router.Router.State.{
  RouterState, Settings, cleanup, is_frozen, bind, frozen_over, binding_over, key_model_blocked,
}
use llm_provider_router.Router.State.Frozen.{
  hot, cleanup-SameView, cleanup_ok, is_frozen-SameView, is_frozen-hot,
}
use llm_provider_router.Router.Select.{
  selected, blocked, sticky_key, quota_spent, keep_or_move, from_binding, after_cleanup,
  select_key_excluding, frozen_or_error,
}

cleanup-bindings :
    (now : ℕ) (s : RouterState)
    → (cleanup now s).0.bindings ≡ remove_all (keys_where (binding_over now) s.bindings) s.bindings
unfolding cleanup
cleanup-bindings now s =
    elim (Option-cases (delete_frozen s.store (keys_where (frozen_over now) s.frozen))) [
      | inl e ↦ ground arith
      | inr (t, e) ↦
          elim (Option-cases (delete_bindings t (keys_where (binding_over now) s.bindings))) [
            | inl b ↦ ground arith
            | inr (u, b) ↦ ground arith
          ]
    ]

cleanup-keeps :
    (now : ℕ) (s : RouterState) (k : SessionKey) (b : SessionBinding)
    → Distinct s.bindings
    → lookup k s.bindings ≡ some b
    → now < b.expires_at
    → lookup k (cleanup now s).0.bindings ≡ some b
cleanup-keeps now s k b d l live = ground (
  arith,
  cleanup-bindings now s,
  lookup-remove_all (keys_where (binding_over now) s.bindings) k s.bindings,
  contains-keys_where (binding_over now) k s.bindings d,
  l,
)

sticky_key-unsupported :
    (now : ℕ) (alias : ModelAlias) (excluded : List Text) (bound : Text) (s t : RouterState)
    → t.unsupported ≡ s.unsupported
    → sticky_key now alias excluded bound t ≡ sticky_key now alias excluded bound s
unfolding sticky_key key_model_blocked
sticky_key-unsupported now alias excluded bound s t e =
    ap (λ u. sticky_key now alias excluded bound (record s { unsupported = u })) e

bind-lookup :
    (now : ℕ) (alias session key : Text) (s : RouterState)
    → lookup (alias, session) (bind now alias session key s).0.bindings
      ≡ some (record { key_name = key; expires_at = now + s.settings.session_ttl })
unfolding bind
bind-lookup now alias session key s =
    let b : SessionBinding = record { key_name = key; expires_at = now + s.settings.session_ttl } in
    ground (
      arith,
      lookup-insert (alias, session) (alias, session) b s.bindings,
      beq_refl {A = SessionKey} (alias, session),
    )

module _ (env : Env) (now : ℕ) (alias : ModelAlias) (excluded : List Text) (session : Text) where
  keep_bound :
      (k : KeyRef) (s : RouterState)
      → k.daily_token_quota ≡ none
      → (keep_or_move env now alias session excluded (some k) s)
        ≡ ((bind now alias.alias session (key_state_id k) s).0, selected k)
  unfolding keep_or_move quota_spent
  keep_bound k s free = ground (arith, free)

  from_bound :
      (b : SessionBinding) (k : KeyRef) (s : RouterState)
      → s.store.conn_ok ≡ true
      → contains b.key_name excluded ≡ false
      → hot now s.frozen b.key_name ≡ false
      → sticky_key now alias excluded b.key_name s ≡ some k
      → k.daily_token_quota ≡ none
      → from_binding env now alias session excluded (some b) s ≡ (
        (bind now alias.alias session (key_state_id k) (is_frozen now b.key_name s).0).0,
        selected k,
      )
  unfolding from_binding
  from_bound b k s ok allowed cold stuck free =
      let t = (is_frozen now b.key_name s).0 in
      let v = is_frozen-SameView now b.key_name s in
      let f : (frozen_or_error now b.key_name s).1 ≡ false =
        ground (arith, is_frozen-hot now b.key_name s) in
      let q = sticky_key-unsupported now alias excluded b.key_name s t v.unsupported_eq ∙ stuck in
      rw (allowed, f, q) (keep_bound k t free)

  cleanup-settings : (s : RouterState) → (cleanup now s).0.settings ≡ s.settings
  unfolding cleanup
  cleanup-settings s =
      elim (Option-cases (delete_frozen s.store (keys_where (frozen_over now) s.frozen))) [
        | inl e ↦ ground arith
        | inr (t, e) ↦
            elim (Option-cases (delete_bindings t (keys_where (binding_over now) s.bindings))) [
              | inl b ↦ ground arith
              | inr (u, b) ↦ ground arith
            ]
      ]

  is_frozen-settings :
      (key : Text) (s : RouterState) → (is_frozen now key s).0.settings ≡ s.settings
  unfolding is_frozen
  is_frozen-settings key s = ground arith

  -- The only key of the pool with the bound name is the one that a binding stands for.
  sticky_key-only :
      (bound : Text) (k : KeyRef) (s : RouterState)
      → MemberOf k alias.keys
      → key_state_id k ≡ bound
      → ((j : KeyRef) → MemberOf j alias.keys → key_state_id j ≡ bound → j ≡ k)
      → positive k.weight ≡ true
      → contains k.name excluded ≡ false
      → blocked now (upstream_model alias) s k ≡ false
      → sticky_key now alias excluded bound s ≡ some k
  unfolding sticky_key
  sticky_key-only bound k s m named only heavy allowed open_for_model =
      find-only
        (λ (j : KeyRef).
          key_state_id j == bound
          && positive j.weight
          && not (contains j.name excluded)
          && not (blocked now (upstream_model alias) s j))
        alias.keys k m
        (ground (arith, text_eq_iff (key_state_id k) bound, named, heavy, allowed, open_for_model))
        (λ j n e. only j n (ground (arith, text_eq_iff (key_state_id j) bound, e)))

  -- A session whose binding is live is answered with the bound key, and the binding is renewed for
  -- the whole time to live: if the key is the only one of the pool with the bound name, has a
  -- positive weight, is neither excluded nor blocked for the model, not frozen, and without a quota;
  -- with the store working and distinct keys in the freezes and bindings.
  pub session_keeps_key :
      (b : SessionBinding) (k : KeyRef) (s : RouterState)
      → Distinct s.frozen
      → Distinct s.bindings
      → s.store.conn_ok ≡ true
      → lookup (alias.alias, session) s.bindings ≡ some b
      → now < b.expires_at
      → contains b.key_name excluded ≡ false
      → hot now s.frozen b.key_name ≡ false
      → MemberOf k alias.keys
      → key_state_id k ≡ b.key_name
      → ((j : KeyRef) → MemberOf j alias.keys → key_state_id j ≡ b.key_name → j ≡ k)
      → positive k.weight ≡ true
      → contains k.name excluded ≡ false
      → key_model_blocked now (k.provider, (k.name, upstream_model alias)) s ≡ false
      → k.daily_token_quota ≡ none
      → let r = select_key_excluding env now alias (some session) excluded s in
        (r.1 ≡ selected k)
        × (lookup (alias.alias, session) r.0.bindings
            ≡ some
                (record { key_name = key_state_id k; expires_at = now + s.settings.session_ttl }))
  unfolding select_key_excluding after_cleanup
  session_keeps_key b k s d db ok l live allowed cold m named only heavy kept_in unblocked free =
      let stuck = sticky_key-only b.key_name k s m named only heavy kept_in unblocked in
      let t = (cleanup now s).0 in
      let v = cleanup-SameView now s d in
      let u = (is_frozen now b.key_name t).0 in
      let p : cleanup now s ≡ (t, true) = ap (λ (x : Bool). (t, x)) (cleanup_ok now s ok) in
      let q = sticky_key-unsupported now alias excluded b.key_name s t v.unsupported_eq ∙ stuck in
      let f = from_bound b k t (v.conn_eq ∙ ok) allowed (v.hot_eq b.key_name ∙ cold) q free in
      let kept = cleanup-keeps now s (alias.alias, session) b db l live in
      let e : select_key_excluding env now alias (some session) excluded s
          ≡ ((bind now alias.alias session (key_state_id k) u).0, selected k) =
        rw (p, kept) f in
      let ttl : u.settings ≡ s.settings = is_frozen-settings b.key_name t ∙ cleanup-settings s in
      rw e (
        refl,
        bind-lookup now alias.alias session (key_state_id k) u
            ∙ ap
                (λ (x : Settings).
                  some (record { key_name = key_state_id k; expires_at = now + x.session_ttl }))
                ttl,
      )

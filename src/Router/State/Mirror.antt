-- ===== src/Router/State/Mirror.antt =====
-- The rows of the state store mirror the memory of the router, and bring it back after a restart.
pub mod Steps
use llm_provider_router.Prelude.{
  ℕ, ◌+◌, if◌then◌else◌, Text, true, ◌≡◌, Option, none, some, arith, ltb, text_equality, pair_eq,
  text_eq_iff,
}
use llm_provider_router.Prelude.Dict.{
  Dict, lookup, Distinct, lookup-insert, lookup-remove, lookup-retain, retain,
}
use llm_provider_router.StateStore.{
  FrozenKey, SessionBinding, SessionKey, KeyModel, load_frozen, load_bindings, upsert_frozen,
  delete_frozen, upsert_binding, delete_bindings, upsert_unsupported,
}
use llm_provider_router.Router.State.{
  RouterState, freeze, is_frozen, bind, unbind, mark_key_model_unsupported, next_unsupported,
}
use llm_provider_router.Router.State.Frozen.{hot}

-- The store works, and every table holds what the memory holds.
pub record Mirrored (s : RouterState) : Type 0 where
  pub conn : s.store.conn_ok ≡ true
  pub frozen_rows : (k : Text) → lookup k s.store.frozen_keys ≡ lookup k s.frozen
  pub binding_rows : (k : SessionKey) → lookup k s.store.session_bindings ≡ lookup k s.bindings
  pub unsupported_rows :
      (k : KeyModel) → lookup k s.store.key_model_unsupported ≡ lookup k s.unsupported

pub freeze-Mirrored :
    (k reason : Text) (until : ℕ) (s : RouterState)
    → Mirrored s
    → Mirrored (freeze k until reason s).0
unfolding freeze upsert_frozen
freeze-Mirrored k reason until s m =
    let f : FrozenKey = record { until = until; reason = reason } in
    record {
      conn = ground (arith, m.conn);
      frozen_rows = λ j. ground (
        arith,
        m.conn,
        m.frozen_rows k,
        m.frozen_rows j,
        lookup-insert k j f s.frozen,
        lookup-insert k j f s.store.frozen_keys,
        text_eq_iff k j,
      );
      binding_rows = λ j. ground (arith, m.conn, m.binding_rows j);
      unsupported_rows = λ j. ground (arith, m.conn, m.unsupported_rows j);
    }

pub is_frozen-Mirrored :
    (now : ℕ) (k : Text) (s : RouterState) → Mirrored s → Mirrored (is_frozen now k s).0
unfolding is_frozen delete_frozen
is_frozen-Mirrored now k s m = record {
  conn = ground (arith, m.conn);
  frozen_rows = λ j. ground (
    arith,
    m.conn,
    m.frozen_rows j,
    lookup-remove k j s.frozen,
    lookup-remove k j s.store.frozen_keys,
  );
  binding_rows = λ j. ground (arith, m.conn, m.binding_rows j);
  unsupported_rows = λ j. ground (arith, m.conn, m.unsupported_rows j);
}

pub bind-Mirrored :
    (now : ℕ) (alias session key : Text) (s : RouterState)
    → Mirrored s
    → Mirrored (bind now alias session key s).0
unfolding bind upsert_binding
bind-Mirrored now alias session key s m = record {
  conn = ground (arith, m.conn);
  frozen_rows = λ j. ground (arith, m.conn, m.frozen_rows j);
  binding_rows = λ j. ground (
    arith,
    m.conn,
    m.binding_rows j,
    lookup-insert (alias, session) j
        (record { key_name = key; expires_at = now + s.settings.session_ttl }) s.bindings,
    lookup-insert (alias, session) j
        (record { key_name = key; expires_at = now + s.settings.session_ttl })
        s.store.session_bindings,
  );
  unsupported_rows = λ j. ground (arith, m.conn, m.unsupported_rows j);
}

pub unbind-Mirrored :
    (alias session : Text) (s : RouterState) → Mirrored s → Mirrored (unbind alias session s)
unfolding unbind delete_bindings
unbind-Mirrored alias session s m = record {
  conn = ground (arith, m.conn);
  frozen_rows = λ j. ground (arith, m.conn, m.frozen_rows j);
  binding_rows = λ j. ground (
    arith,
    m.conn,
    m.binding_rows j,
    lookup-remove (alias, session) j s.bindings,
    lookup-remove (alias, session) j s.store.session_bindings,
  );
  unsupported_rows = λ j. ground (arith, m.conn, m.unsupported_rows j);
}

pub mark-Mirrored :
    (now : ℕ) (k : KeyModel) (error : Text) (s : RouterState)
    → Mirrored s
    → Mirrored (mark_key_model_unsupported now k error s)
unfolding mark_key_model_unsupported upsert_unsupported
mark-Mirrored now k error s m =
    let e = next_unsupported now error (lookup k s.unsupported) in
    record {
      conn = ground (arith, m.conn);
      frozen_rows = λ j. ground (arith, m.conn, m.frozen_rows j);
      binding_rows = λ j. ground (arith, m.conn, m.binding_rows j);
      unsupported_rows = λ j. ground (
        arith,
        m.conn,
        m.unsupported_rows j,
        lookup-insert k j e s.unsupported,
        lookup-insert k j e s.store.key_model_unsupported,
      );
    }

-- Freezing, asking for a freeze, binding, unbinding and marking a model keep the tables a mirror of
-- the memory.
pub operations_mirror :
    (now until : ℕ) (k reason alias session error : Text) (model : KeyModel) (s : RouterState)
    → Mirrored s
    → Mirrored (freeze k until reason s).0
      × Mirrored (is_frozen now k s).0
      × Mirrored (bind now alias session k s).0
      × Mirrored (unbind alias session s)
      × Mirrored (mark_key_model_unsupported now model error s)
operations_mirror now until k reason alias session error model s m = (
  freeze-Mirrored k reason until s m,
  is_frozen-Mirrored now k s m,
  bind-Mirrored now alias session k s m,
  unbind-Mirrored alias session s m,
  mark-Mirrored now model error s m,
)

-- A restart loses no freeze and no binding: from tables that mirror the memory, with distinct keys,
-- a start at any time loads exactly the freezes that are not over, with their ends and reasons, and
-- exactly the bindings that are live.
pub restart_restores :
    (now : ℕ) (s : RouterState)
    → Mirrored s
    → Distinct s.store.frozen_keys
    → Distinct s.store.session_bindings
    → (f : Dict Text FrozenKey) × (b : Dict SessionKey SessionBinding) × (load_frozen s.store now
        ≡ some f)
      × (load_bindings s.store now ≡ some b)
      × ((k : Text)
          → lookup k f ≡ elim (lookup k s.frozen) as (λ x. Option FrozenKey) [
            | none ↦ none
            | some x ↦ if ltb now x.until then some x else none
          ])
      × ((k : SessionKey)
          → lookup k b ≡ elim (lookup k s.bindings) as (λ x. Option SessionBinding) [
            | none ↦ none
            | some x ↦ if ltb now x.expires_at then some x else none
          ])
unfolding load_frozen load_bindings
restart_restores now s m df db = (
  retain (λ k (x : FrozenKey). ltb now x.until) s.store.frozen_keys,
  retain (λ k (x : SessionBinding). ltb now x.expires_at) s.store.session_bindings,
  ground (arith, m.conn),
  ground (arith, m.conn),
  λ k. ground (
    arith,
    m.frozen_rows k,
    lookup-retain (λ j (x : FrozenKey). ltb now x.until) k s.store.frozen_keys df,
  ),
  λ k. ground (
    arith,
    m.binding_rows k,
    lookup-retain (λ j (x : SessionBinding). ltb now x.expires_at) k s.store.session_bindings db,
  ),
)

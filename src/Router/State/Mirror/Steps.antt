-- ===== src/Router/State/Mirror/Steps.antt =====
-- Every step on the router state keeps the tables of the state store a mirror of the memory: an
-- implementation of the interface of Router/State/Steps.
use llm_provider_router.Prelude.{
  ℕ, Text, true, ◌≡◌, refl, some, List, [], ◌∷◌, arith, text_equality, pair_eq, ap, not, ◌==◌,
  text_eq_iff,
}
use llm_provider_router.Prelude.Dict.{
  lookup, Distinct, keys_where, remove_all, remove, lookup-remove_all, lookup-remove, lookup-retain,
  Distinct-retain, Distinct-insert,
}
use llm_provider_router.StateStore.{
  StateStore, UnsupportedEntry, SessionKey, KeyModel, delete_frozen, delete_bindings,
  delete_unsupported, upsert_frozen, upsert_binding, upsert_unsupported, selects,
}
use llm_provider_router.Router.State.{
  RouterState, cleanup, is_frozen, freeze, bind, unbind, record_usage, push_recent_error,
  mark_key_model_unsupported, clear_key_model_unsupported, note_connect_failure,
  note_connect_failure_streak, clear_connect_streak, frozen_over, binding_over, next_unsupported,
}
use llm_provider_router.Router.State.Steps.{KeptBySteps}
use llm_provider_router.Router.State.Mirror.{
  Mirrored, freeze-Mirrored, is_frozen-Mirrored, bind-Mirrored, unbind-Mirrored, mark-Mirrored,
}

delete_frozen-all :
    (s : StateStore) (ks : List Text)
    → s.conn_ok ≡ true
    → delete_frozen s ks ≡ some (record s { frozen_keys = remove_all ks s.frozen_keys })
unfolding delete_frozen remove_all
delete_frozen-all s [] ok = refl
delete_frozen-all s (k ∷ ks) ok =
    ground (arith, delete_frozen-all (record s { frozen_keys = remove k s.frozen_keys }) ks ok)

delete_bindings-all :
    (s : StateStore) (ks : List SessionKey)
    → s.conn_ok ≡ true
    → delete_bindings s ks ≡ some (record s { session_bindings = remove_all ks s.session_bindings })
unfolding delete_bindings remove_all
delete_bindings-all s [] ok = refl
delete_bindings-all s (k ∷ ks) ok =
    ground (
      arith,
      delete_bindings-all (record s { session_bindings = remove k s.session_bindings }) ks ok,
    )

-- What a sweep leaves while the store works.
cleanup_whole :
    (now : ℕ) (s : RouterState)
    → s.store.conn_ok ≡ true
    → let names = keys_where (frozen_over now) s.frozen in
      let keys = keys_where (binding_over now) s.bindings in
      (cleanup now s).0 ≡ record s {
        frozen = remove_all names s.frozen;
        bindings = remove_all keys s.bindings;
        store = record s.store {
          frozen_keys = remove_all names s.store.frozen_keys;
          session_bindings = remove_all keys s.store.session_bindings;
        };
      }
unfolding cleanup
cleanup_whole now s ok =
    let names = keys_where (frozen_over now) s.frozen in
    let keys = keys_where (binding_over now) s.bindings in
    let mid : StateStore = record s.store { frozen_keys = remove_all names s.store.frozen_keys } in
    ground (arith, delete_frozen-all s.store names ok, delete_bindings-all mid keys ok)

cleanup-Mirrored : (now : ℕ) (s : RouterState) → Mirrored s → Mirrored (cleanup now s).0
cleanup-Mirrored now s m =
    let names = keys_where (frozen_over now) s.frozen in
    let keys = keys_where (binding_over now) s.bindings in
    rw (cleanup_whole now s m.conn) (record {
      conn = m.conn;
      frozen_rows = λ j. ground (
        arith,
        m.frozen_rows j,
        lookup-remove_all names j s.frozen,
        lookup-remove_all names j s.store.frozen_keys,
      );
      binding_rows = λ j. ground (
        arith,
        m.binding_rows j,
        lookup-remove_all keys j s.bindings,
        lookup-remove_all keys j s.store.session_bindings,
      );
      unsupported_rows = m.unsupported_rows;
    })

-- The mirror, with no row of an unsupported model twice.
abbrev pub InStep : RouterState → Type 0
InStep s = Mirrored s × Distinct s.store.key_model_unsupported

selects-eq :
    (p k m : Text) (j : KeyModel) → selects (some p) (some k) (some m) j ≡ ((p, (k, m)) == j)
selects-eq p k m (q, (i, n)) = ground (arith, text_eq_iff p q, text_eq_iff k i, text_eq_iff m n)

clear-InStep :
    (k : KeyModel) (s : RouterState) → InStep s → InStep (clear_key_model_unsupported k s)
unfolding clear_key_model_unsupported delete_unsupported
clear-InStep (p, (k, m)) s (w, d) =
    let test =
      λ (j : KeyModel) (e : UnsupportedEntry). not (selects (some p) (some k) (some m) j) in
    let rows = s.store.key_model_unsupported in
    (
      record {
        conn = ground (arith, w.conn);
        frozen_rows = λ j. ground (arith, w.conn, w.frozen_rows j);
        binding_rows = λ j. ground (arith, w.conn, w.binding_rows j);
        unsupported_rows = λ j. ground (
          arith,
          w.conn,
          w.unsupported_rows j,
          lookup-remove (p, (k, m)) j s.unsupported,
          lookup-retain test j rows d,
          w.unsupported_rows (p, (k, m)),
          selects-eq p k m j,
        );
      },
      ground (arith, w.conn, Distinct-retain test rows d, d),
    )

-- A state with the same tables and the same memory of them.
InStep-same :
    (s t : RouterState)
    → t.store ≡ s.store
    → t.frozen ≡ s.frozen
    → t.bindings ≡ s.bindings
    → t.unsupported ≡ s.unsupported
    → InStep s
    → InStep t
InStep-same s t e f b u w = (
  record {
    conn = ground (arith, e, w.0.conn);
    frozen_rows = λ j. ground (arith, e, f, w.0.frozen_rows j);
    binding_rows = λ j. ground (arith, e, b, w.0.binding_rows j);
    unsupported_rows = λ j. ground (arith, e, u, w.0.unsupported_rows j);
  },
  ground (arith, e, w.1),
)

-- Every step keeps the tables of the store a mirror of the memory.
pub InStep-KeptBySteps : KeptBySteps InStep
unfolding cleanup is_frozen freeze bind unbind record_usage push_recent_error
    mark_key_model_unsupported note_connect_failure note_connect_failure_streak clear_connect_streak
    delete_frozen delete_bindings upsert_frozen upsert_binding upsert_unsupported
InStep-KeptBySteps = record {
  by_cleanup = λ now s w. (
    cleanup-Mirrored now s (w.0),
    ground (
      arith,
      ap (λ (t : RouterState). t.store.key_model_unsupported) (cleanup_whole now s w.0.conn),
      w.1,
    ),
  );
  by_is_frozen = λ now k s w. (is_frozen-Mirrored now k s w.0, ground (arith, w.1));
  by_freeze = λ k until reason s w. (freeze-Mirrored k reason until s w.0, ground (arith, w.1));
  by_bind =
      λ now alias session key s w. (bind-Mirrored now alias session key s w.0, ground (arith, w.1));
  by_unbind = λ alias session s w. (unbind-Mirrored alias session s w.0, ground (arith, w.1));
  by_record_usage = λ now model key status usage session s w.
      InStep-same s (record_usage now model key status usage session s) (ground arith)
        (ground arith) (ground arith) (ground arith) w;
  by_push_recent_error = λ entry s w.
      InStep-same s (push_recent_error entry s) (ground arith) (ground arith) (ground arith)
        (ground arith) w;
  by_mark_unsupported = λ now k error s w. (
    mark-Mirrored now k error s w.0,
    ground (
      arith,
      w.1,
      Distinct-insert k (next_unsupported now error (lookup k s.unsupported))
          s.store.key_model_unsupported w.1,
    ),
  );
  by_clear_unsupported = clear-InStep;
  by_connect_failure = λ now k message s w.
      InStep-same s (note_connect_failure now k message s) (ground arith) (ground arith)
        (ground arith) (ground arith) w;
  by_connect_streak = λ now k base s w.
      InStep-same s ((note_connect_failure_streak now k base s).0) (ground arith) (ground arith)
        (ground arith) (ground arith) w;
  by_clear_streak = λ k s w.
      InStep-same s (clear_connect_streak k s) (ground arith) (ground arith) (ground arith)
        (ground arith) w;
}

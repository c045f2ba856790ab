-- ===== src/Tests/Sessions.antt =====
-- Runs of sessions that keep their key, and of a restart.
use llm_provider_router.Prelude.{
  MemberOf, inl, inr, sym, ◌+◌, Text, ◌≡◌, refl, Option, none, some, [], ◌∷◌, arith, ltb,
  text_equality, pair_eq, text_eq, contains, if◌then◌else◌,
}
use llm_provider_router.Prelude.Dict.{Dict, lookup, contains_key}
use llm_provider_router.StateStore.{
  FrozenKey, SessionBinding, SessionKey, load_frozen, load_bindings,
}
use llm_provider_router.Config.{KeyRef}
use llm_provider_router.Router.Freeze.{key_state_id}
use llm_provider_router.Router.State.{
  RouterState, freeze, is_frozen, bind, unbind, mark_key_model_unsupported, key_model_blocked,
}
use llm_provider_router.Router.State.Mirror.{Mirrored, operations_mirror, restart_restores}
use llm_provider_router.Router.Select.{select_key_excluding, selected}
use llm_provider_router.Router.Select.Sticky.{session_keeps_key}
use llm_provider_router.Tests.Fixtures.{env, key_b, model_m, state, store}

abbrev session : Text
session = b's' ∷ []

abbrev binding_b : SessionBinding
binding_b = record { key_name = b'p' ∷ b'/' ∷ b'b' ∷ []; expires_at = 900 }

abbrev freeze_a : FrozenKey
freeze_a = record { until = 100; reason = [] }

-- `p/a` is frozen until 100, and the session is bound to `p/b` until 900, in memory and in the rows.
abbrev mirrored : RouterState
mirrored = record state {
  frozen = (b'p' ∷ b'/' ∷ b'a' ∷ [], freeze_a) ∷ [];
  bindings = ((b'm' ∷ [], session), binding_b) ∷ [];
  store = record store {
    frozen_keys = (b'p' ∷ b'/' ∷ b'a' ∷ [], freeze_a) ∷ [];
    session_bindings = ((b'm' ∷ [], session), binding_b) ∷ [];
  };
}

mirrored-Mirrored : Mirrored mirrored
mirrored-Mirrored = record {
  conn = refl;
  frozen_rows = λ k. refl;
  binding_rows = λ k. refl;
  unsupported_rows = λ k. refl;
}

operations_mirror_example :
    Mirrored (freeze (b'k' ∷ []) 50 [] mirrored).0
    × Mirrored (is_frozen 7 (b'k' ∷ []) mirrored).0
    × Mirrored (bind 7 (b'm' ∷ []) session (b'k' ∷ []) mirrored).0
    × Mirrored (unbind (b'm' ∷ []) session mirrored)
    × Mirrored (mark_key_model_unsupported 7 (b'p' ∷ [], (b'b' ∷ [], b'u' ∷ [])) [] mirrored)
operations_mirror_example =
    operations_mirror 7 50 (b'k' ∷ []) [] (b'm' ∷ []) session [] (b'p' ∷ [], (b'b' ∷ [], b'u' ∷ []))
      mirrored mirrored-Mirrored

restart_restores_example :
    (f : Dict Text FrozenKey) × (b : Dict SessionKey SessionBinding) × (load_frozen mirrored.store
        150
      ≡ some f)
    × (load_bindings mirrored.store 150 ≡ some b)
    × ((k : Text)
        → lookup k f ≡ elim (lookup k mirrored.frozen) as (λ x. Option FrozenKey) [
          | none ↦ none
          | some x ↦ if ltb 150 x.until then some x else none
        ])
    × ((k : SessionKey)
        → lookup k b ≡ elim (lookup k mirrored.bindings) as (λ x. Option SessionBinding) [
          | none ↦ none
          | some x ↦ if ltb 150 x.expires_at then some x else none
        ])
unfolding contains_key
restart_restores_example = restart_restores 150 mirrored mirrored-Mirrored (refl, tt) (refl, tt)

only_b :
    (j : KeyRef) → MemberOf j model_m.keys → key_state_id j ≡ b'p' ∷ b'/' ∷ b'b' ∷ [] → j ≡ key_b
unfolding key_state_id
only_b j (inl a) e = absurd (ground (arith, a, e))
only_b j (inr (inl b)) e = sym b
only_b j (inr (inr none_left)) e = elim none_left [ ]

session_keeps_key_example :
    ((select_key_excluding env 7 model_m (some session) [] mirrored).1 ≡ selected key_b)
    × (lookup
          (b'm' ∷ [], session)
          (select_key_excluding env 7 model_m (some session) [] mirrored).0.bindings
        ≡ some (record { key_name = key_state_id key_b; expires_at = 7 + 1_000 }))
unfolding contains_key contains lookup text_eq key_model_blocked key_state_id
session_keeps_key_example =
    session_keeps_key env 7 model_m [] session binding_b key_b mirrored (refl, tt) (refl, tt) refl
      refl (omega arith) refl refl (inr (inl refl)) refl only_b refl refl refl refl

-- ===== src/Tests/Router.antt =====
-- Runs of the router state, of the selection of keys and of the failures.
use llm_provider_router.Prelude.{
  any, ℕ, Text, ◌≡◌, refl, inl, none, some, [], ◌∷◌, ◌==◌, true, arith, text_equality, pair_eq,
  length, min, ◌*◌, max, leb, ltb, if◌then◌else◌, unwrap_or, get_elem?, ◌+◌, nat_beq, ◌||◌,
}
use llm_provider_router.Prelude.Dict.{lookup, contains_key}
use llm_provider_router.Config.{alias_provider}
use llm_provider_router.ErrorRules.{classify, invalid, resolve}
use llm_provider_router.ErrorRules.Presets.{builtin_config}
use llm_provider_router.ErrorRules.Priority.{builtin_auth_invalid}
use llm_provider_router.Router.Freeze.{key_state_id}
use llm_provider_router.Router.State.{
  freeze, note_connect_failure_streak, key_model_blocked, mark_key_model_unsupported,
  permanent_threshold, retry_ladder, previous_attempt, tunables, streak_ttl, streak_count,
}
use llm_provider_router.Router.State.Frozen.{unwrap_until, freeze_never_shortens}
use llm_provider_router.Router.State.Backoff.{streak_doubles, mark_blocks}
use llm_provider_router.Router.Select.{select_key_excluding, no_available_key}
use llm_provider_router.Router.Select.Answer.{Answers, select_key_Answers}
use llm_provider_router.Router.Failure.{
  note_success_differential, handle_response_failure, connect_freeze, circuit_breaker_on_exhaustion,
  apply_embedded_failure, note_zero_output_incomplete, handle_connect_failure, note_stream_break,
}
use llm_provider_router.Router.Failure.Effects.{extended, freeze_end, response_failure_freezes}
use llm_provider_router.Router.Failure.Avoided.{NotServed, failed_key_avoided}
use llm_provider_router.Router.Failure.Breaker.{circuit_breaker_opens, success_differential_freezes}
use llm_provider_router.Router.Failure.Unbinding.{Unbound, failures_unbind, connect_failure_freezes}
use llm_provider_router.Tests.Fixtures.{
  env, key_a, key_b, model_m, state, frozen_state, unauthorized,
}

abbrev id_a : Text
id_a = b'p' ∷ b'/' ∷ b'a' ∷ []

select_key_Answers_example :
    Answers 7 []
      (key_a ∷ key_b ∷ [])
      frozen_state
      (select_key_excluding env 7 model_m (some (b's' ∷ [])) [] frozen_state).1
unfolding contains_key
select_key_Answers_example =
    select_key_Answers env 7 model_m [] (some (b's' ∷ [])) frozen_state (refl, tt)

freeze_never_shortens_example :
    unwrap_until (lookup id_a (freeze id_a 50 [] frozen_state).0.frozen) ≡ (
      if id_a == id_a
      then max (unwrap_until (lookup id_a frozen_state.frozen)) 50
      else unwrap_until (lookup id_a frozen_state.frozen))
freeze_never_shortens_example = freeze_never_shortens id_a id_a [] 50 frozen_state

streak_doubles_example :
    (note_connect_failure_streak 8 id_a 30 (note_connect_failure_streak 7 id_a 30 state).0).1
    ≡ min ((note_connect_failure_streak 7 id_a 30 state).1 * 2) (30 * 32)
unfolding note_connect_failure_streak streak_count streak_ttl lookup
streak_doubles_example = streak_doubles 7 8 id_a 30 state (omega arith) (omega arith)

mark_blocks_example :
    key_model_blocked 9
      (b'p' ∷ [], (b'a' ∷ [], b'u' ∷ []))
      (mark_key_model_unsupported 7 (b'p' ∷ [], (b'a' ∷ [], b'u' ∷ [])) [] state)
    ≡ (if leb 5 (previous_attempt none)
        then true
        else ltb 9
            (7 + unwrap_or (get_elem? retry_ladder (previous_attempt none)) permanent_threshold))
unfolding lookup
mark_blocks_example = mark_blocks 7 9 (b'p' ∷ [], (b'a' ∷ [], b'u' ∷ [])) [] state (omega arith)

connect_failure_freezes_example :
    unwrap_until (lookup id_a (connect_freeze 7 model_m key_a state).frozen) ≡ (
      if leb (length model_m.keys) 1 || nat_beq (tunables state).connect_error_freeze 0
      then unwrap_until (lookup id_a state.frozen)
      else extended
          (key_state_id key_a)
          (7
            + streak_ttl
                (tunables state).connect_error_freeze
                (streak_count 7 (lookup (key_state_id key_a) state.connect_streaks)))
          state
          id_a)
connect_failure_freezes_example = connect_failure_freezes 7 model_m key_a state id_a

circuit_breaker_opens_example :
    (seconds : ℕ) × ((select_key_excluding env 7 model_m none []
        (circuit_breaker_on_exhaustion 7 model_m state)).1
      ≡ no_available_key seconds)
unfolding tunables resolve builtin_config
circuit_breaker_opens_example =
    circuit_breaker_opens env 7 model_m [] none state tt refl (omega arith)

failures_unbind_example :
    Unbound model_m
      (b's' ∷ [])
      (handle_response_failure env 7 model_m key_a 429 none unauthorized none
        (some (b's' ∷ []))
        0
        state).0
    × Unbound model_m
        (b's' ∷ [])
        (apply_embedded_failure env 7 model_m key_a [] [] (some (b's' ∷ [])) state)
    × Unbound model_m
        (b's' ∷ [])
        (note_zero_output_incomplete 7 model_m key_a [] (some (b's' ∷ [])) state)
    × Unbound model_m
        (b's' ∷ [])
        (handle_connect_failure 7 model_m key_a [] (some (b's' ∷ [])) state).0
    × Unbound model_m
        (b's' ∷ [])
        (note_stream_break 7 model_m key_a [] true 12 (some (b's' ∷ [])) state)
failures_unbind_example =
    failures_unbind env 7 model_m key_a 429 none unauthorized none 0 [] [] (b's' ∷ []) true 12 state

response_failure_freezes_example :
    unwrap_until (
      lookup id_a
        (handle_response_failure env 7 model_m key_a 401 none unauthorized none none 0
          state).0.frozen)
    ≡ extended
        (key_state_id key_a)
        (freeze_end env 7 none unauthorized.text_of state
          (classify state.error_rules
            (alias_provider model_m)
            401
            (env.to_lowercase unauthorized.text_of)).class)
        state
        id_a
response_failure_freezes_example =
    response_failure_freezes env 7 model_m key_a 401 none unauthorized none none 0 state id_a

class_401 :
    (classify state.error_rules
      (alias_provider model_m)
      401
      (env.to_lowercase unauthorized.text_of)).class
    ≡ invalid
class_401 = builtin_auth_invalid (alias_provider model_m) 401 (b'x' ∷ []) (inl refl)

failed_key_avoided_example :
    NotServed
      (key_state_id key_a)
      (select_key_excluding env 8 model_m none []
        (handle_response_failure env 7 model_m key_a 401 none unauthorized none none 0 state).0).1
unfolding tunables resolve builtin_config
failed_key_avoided_example =
    failed_key_avoided env 7 model_m key_a 401 none unauthorized none none 0 state 8 model_m [] none
      tt (ground (arith, class_401))

success_differential_freezes_example :
    unwrap_until (lookup id_a (note_success_differential 7 (key_b ∷ key_a ∷ []) state).frozen) ≡ (
      if any (λ k. key_state_id k == id_a) (key_b ∷ key_a ∷ [])
      then max (unwrap_until (lookup id_a state.frozen)) (7 + (tunables state).differential_freeze)
      else unwrap_until (lookup id_a state.frozen))
success_differential_freezes_example =
    success_differential_freezes 7 (key_b ∷ key_a ∷ []) state id_a

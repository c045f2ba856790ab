-- ===== src/Tests/Dispatch.antt =====
-- Calls of an upstream that answers, that refuses, and that cannot be reached.
use llm_provider_router.Prelude.{
  ◌≢◌, refl, ap, sym, text_eq, inl, inr, none, some, [], ◌∷◌, arith, contains,
}
use llm_provider_router.Prelude.Dict.{lookup, contains_key}
use llm_provider_router.Config.{ModelAlias}
use llm_provider_router.ErrorRules.{resolve}
use llm_provider_router.ErrorRules.Presets.{builtin_config}
use llm_provider_router.Router.State.{tunables}
use llm_provider_router.Router.State.Mirror.Steps.{InStep}
use llm_provider_router.Dispatch.{
  responses_passthrough, responses_translated, Answer, Round, World, out_of_fuel, call,
  lacks_endpoint, upstream_key_value, send_upstream,
}
use llm_provider_router.Dispatch.Calls.{EndsJustified, call_answers, call_ends, call_mirrors}
use llm_provider_router.Dispatch.Health.{Healthy, IsServed, call-IsServed}
use llm_provider_router.Tests.Fixtures.{env, key_b, model_m, model_n, state}

abbrev ok_answer : Answer
ok_answer = record { status = 200; retry_after = none; body = b'x' ∷ [] }

abbrev round : Round
round = record {
  env = env;
  selected_at = 7;
  answered_at = 9;
  others_before = λ s. s;
  others_during = λ s. s;
  api_keys = (b'a' ∷ [], b'v' ∷ []) ∷ (b'b' ∷ [], b'v' ∷ []) ∷ [];
  send = λ k n. some ok_answer;
}

abbrev world : World
world = record { from_str = λ t. none; rounds = λ n. round }

abbrev with_url : ModelAlias
with_url = record model_n { base_url = b'h' ∷ [] }

call_answers_example :
    EndsJustified 3
      (omega arith)
      world
      responses_translated
      with_url
      none
      (λ n s h. (h, h))
      state
      (call world responses_translated with_url none 4 state).1
unfolding lacks_endpoint tunables resolve builtin_config
call_answers_example =
    call_answers 3 (omega arith) world responses_translated with_url none (λ n s h. (h, h)) 4 state
      (tt, omega arith) refl (omega arith)

call_ends_example : (call world responses_passthrough model_m none 7 state).1 ≢ out_of_fuel
unfolding tunables resolve builtin_config
call_ends_example =
    call_ends 3 (omega arith) world responses_passthrough model_m none (λ n s h. (h, h)) 7 state
      (tt, omega arith) (omega arith)

call_mirrors_example : InStep (call world responses_translated with_url none 4 state).0
unfolding lookup
call_mirrors_example =
    call_mirrors world responses_translated with_url none 4 state (λ n s h. (h, h))
      (
        record {
          conn = refl;
          frozen_rows = λ k. refl;
          binding_rows = λ k. refl;
          unsupported_rows = λ k. refl;
        },
        tt,
      )

healthy : Healthy round (key_b ∷ [])
unfolding upstream_key_value send_upstream lookup text_eq
healthy k (inl e) =
    (b'v' ∷ [], ok_answer, ap (upstream_key_value round.api_keys) (sym e), refl, omega arith)
healthy k (inr m) = elim m [ ]

call-IsServed_example :
    IsServed world responses_translated with_url none
      (call world responses_translated with_url none 1 state).1
unfolding lacks_endpoint contains contains_key lookup
call-IsServed_example =
    call-IsServed world responses_translated with_url none 0 state key_b refl tt refl (inl refl)
      refl healthy

-- ===== src/Router/State/Lasting.antt =====
-- What lasts through every step on the router state: no key twice in the freezes, and the rules.
use llm_provider_router.Prelude.{
  ℕ, ◌≤◌, ◌≡◌, arith, text_equality, pair_eq, inl, inr, Option-cases, refl,
}
use llm_provider_router.Prelude.Dict.{
  Distinct, Distinct-insert, Distinct-remove, Distinct-remove_all, keys_where, remove_all,
}
use llm_provider_router.StateStore.{delete_frozen, delete_bindings}
use llm_provider_router.Router.State.{
  RouterState, cleanup, is_frozen, freeze, bind, unbind, record_usage, push_recent_error,
  mark_key_model_unsupported, clear_key_model_unsupported, note_connect_failure,
  note_connect_failure_streak, clear_connect_streak, frozen_over, binding_over, tunables,
}
use llm_provider_router.Router.State.Steps.{KeptBySteps}

-- What a sweep leaves of the memory, whether or not the store works.
cleanup_memory :
    (now : ℕ) (s : RouterState)
    → ((cleanup now s).0.frozen ≡ remove_all (keys_where (frozen_over now) s.frozen) s.frozen)
      × ((cleanup now s).0.error_rules ≡ s.error_rules)
      × ((cleanup now s).0.settings ≡ s.settings)
unfolding cleanup
cleanup_memory now s =
    elim (Option-cases (delete_frozen s.store (keys_where (frozen_over now) s.frozen))) [
      | inl e ↦ ground arith
      | inr (t, e) ↦
          elim (Option-cases (delete_bindings t (keys_where (binding_over now) s.bindings))) [
            | inl b ↦ ground arith
            | inr (u, b) ↦ ground arith
          ]
    ]

-- No step makes an entry of a key that the freezes have already.
pub Distinct-KeptBySteps : KeptBySteps (λ s. Distinct s.frozen)
unfolding is_frozen freeze bind unbind record_usage push_recent_error mark_key_model_unsupported
    clear_key_model_unsupported note_connect_failure note_connect_failure_streak
    clear_connect_streak
Distinct-KeptBySteps = record {
  by_cleanup = λ now s d. ground (
    arith,
    (cleanup_memory now s).0,
    Distinct-remove_all (keys_where (frozen_over now) s.frozen) s.frozen d,
  );
  by_is_frozen = λ now k s d. ground (arith, Distinct-remove k s.frozen d);
  by_freeze = λ k until reason s d.
      ground (arith, Distinct-insert k (record { until = until; reason = reason }) s.frozen d);
  by_bind = λ now alias session key s d. ground (arith, d);
  by_unbind = λ alias session s d. ground (arith, d);
  by_record_usage = λ now model key status usage session s d. ground (arith, d);
  by_push_recent_error = λ entry s d. d;
  by_mark_unsupported = λ now k error s d. ground (arith, d);
  by_clear_unsupported = λ k s d. ground (arith, d);
  by_connect_failure = λ now k message s d. d;
  by_connect_streak = λ now k base s d. ground (arith, d);
  by_clear_streak = λ k s d. d;
}

-- The attempts that the rules allow for one key.
abbrev pub attempts : RouterState → ℕ
attempts s = (tunables s).transient_attempts_per_key

attempts-rules :
    (s t : RouterState) (n : ℕ) → t.error_rules ≡ s.error_rules → attempts s ≤ n → attempts t ≤ n
unfolding tunables
attempts-rules s t n e h = ground (arith, e)

pub attempts-KeptBySteps : (n : ℕ) → KeptBySteps (λ s. attempts s ≤ n)
unfolding is_frozen freeze bind unbind record_usage push_recent_error mark_key_model_unsupported
    clear_key_model_unsupported note_connect_failure note_connect_failure_streak
    clear_connect_streak
attempts-KeptBySteps n = record {
  by_cleanup = λ now s. attempts-rules s (cleanup now s).0 n (cleanup_memory now s).1;
  by_is_frozen = λ now k s. attempts-rules s (is_frozen now k s).0 n (ground arith);
  by_freeze = λ k until reason s. attempts-rules s (freeze k until reason s).0 n (ground arith);
  by_bind = λ now alias x k s. attempts-rules s (bind now alias x k s).0 n (ground arith);
  by_unbind = λ alias x s. attempts-rules s (unbind alias x s) n (ground arith);
  by_record_usage = λ now m k status usage x s.
      attempts-rules s (record_usage now m k status usage x s) n (ground arith);
  by_push_recent_error = λ e s. attempts-rules s (push_recent_error e s) n refl;
  by_mark_unsupported =
      λ now k e s. attempts-rules s (mark_key_model_unsupported now k e s) n (ground arith);
  by_clear_unsupported = λ k s. attempts-rules s (clear_key_model_unsupported k s) n (ground arith);
  by_connect_failure = λ now k m s. attempts-rules s (note_connect_failure now k m s) n refl;
  by_connect_streak =
      λ now k b s. attempts-rules s (note_connect_failure_streak now k b s).0 n (ground arith);
  by_clear_streak = λ k s. attempts-rules s (clear_connect_streak k s) n refl;
}

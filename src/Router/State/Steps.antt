-- ===== src/Router/State/Steps.antt =====
-- The interface of an invariant of the router state: a property that every single step of
-- src/features/router/state/mod.rs keeps.
use llm_provider_router.Prelude.{ℕ, Text, Option}
use llm_provider_router.Prelude.Json.{Json}
use llm_provider_router.StateStore.{KeyModel}
use llm_provider_router.Router.State.{
  RouterState, ErrorLogEntry, cleanup, is_frozen, freeze, bind, unbind, record_usage,
  push_recent_error, mark_key_model_unsupported, clear_key_model_unsupported, note_connect_failure,
  note_connect_failure_streak, clear_connect_streak,
}

-- A property of the state that every single step on it keeps.
pub record KeptBySteps (P : RouterState → Type 0) : Type 0 where
  pub by_cleanup : (now : ℕ) (s : RouterState) → P s → P (cleanup now s).0
  pub by_is_frozen : (now : ℕ) (k : Text) (s : RouterState) → P s → P (is_frozen now k s).0
  pub by_freeze :
      (k : Text) (until : ℕ) (reason : Text) (s : RouterState) → P s → P (freeze k until reason s).0
  pub by_bind :
      (now : ℕ) (alias session key : Text) (s : RouterState)
      → P s
      → P (bind now alias session key s).0
  pub by_unbind : (alias session : Text) (s : RouterState) → P s → P (unbind alias session s)
  pub by_record_usage :
      (now : ℕ) (model key : Text) (status : ℕ) (usage : Option Json) (session : Option Text)
      (s : RouterState)
      → P s
      → P (record_usage now model key status usage session s)
  pub by_push_recent_error :
      (entry : ErrorLogEntry) (s : RouterState) → P s → P (push_recent_error entry s)
  pub by_mark_unsupported :
      (now : ℕ) (k : KeyModel) (error : Text) (s : RouterState)
      → P s
      → P (mark_key_model_unsupported now k error s)
  pub by_clear_unsupported :
      (k : KeyModel) (s : RouterState) → P s → P (clear_key_model_unsupported k s)
  pub by_connect_failure :
      (now : ℕ) (k message : Text) (s : RouterState)
      → P s
      → P (note_connect_failure now k message s)
  pub by_connect_streak :
      (now : ℕ) (k : Text) (base : ℕ) (s : RouterState)
      → P s
      → P (note_connect_failure_streak now k base s).0
  pub by_clear_streak : (k : Text) (s : RouterState) → P s → P (clear_connect_streak k s)

-- Two properties that every step keeps are kept together.
pub both_kept :
    {P Q : RouterState → Type 0} → KeptBySteps P → KeptBySteps Q → KeptBySteps (λ s. P s × Q s)
both_kept p q = record {
  by_cleanup = λ now s h. (p.by_cleanup now s h.0, q.by_cleanup now s h.1);
  by_is_frozen = λ now k s h. (p.by_is_frozen now k s h.0, q.by_is_frozen now k s h.1);
  by_freeze = λ k u r s h. (p.by_freeze k u r s h.0, q.by_freeze k u r s h.1);
  by_bind = λ now a x k s h. (p.by_bind now a x k s h.0, q.by_bind now a x k s h.1);
  by_unbind = λ a x s h. (p.by_unbind a x s h.0, q.by_unbind a x s h.1);
  by_record_usage = λ now m k st u x s h.
      (p.by_record_usage now m k st u x s h.0, q.by_record_usage now m k st u x s h.1);
  by_push_recent_error = λ e s h. (p.by_push_recent_error e s h.0, q.by_push_recent_error e s h.1);
  by_mark_unsupported =
      λ now k e s h. (p.by_mark_unsupported now k e s h.0, q.by_mark_unsupported now k e s h.1);
  by_clear_unsupported = λ k s h. (p.by_clear_unsupported k s h.0, q.by_clear_unsupported k s h.1);
  by_connect_failure =
      λ now k m s h. (p.by_connect_failure now k m s h.0, q.by_connect_failure now k m s h.1);
  by_connect_streak =
      λ now k b s h. (p.by_connect_streak now k b s h.0, q.by_connect_streak now k b s h.1);
  by_clear_streak = λ k s h. (p.by_clear_streak k s h.0, q.by_clear_streak k s h.1);
}

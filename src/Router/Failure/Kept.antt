-- ===== src/Router/Failure/Kept.antt =====
-- The handlers of failures and successes keep what the single steps keep.
use llm_provider_router.Prelude.{
  ℕ, Text, Option, some, List, [], ◌∷◌, ltb, leb, length, not, ◌&&◌, unwrap_or, nat_beq, if-cases,
  Bool, if◌then◌else◌, elim-cases, true, inl, inr, none, text_equality, pair_eq,
}
use llm_provider_router.Prelude.Int.{positive}
use llm_provider_router.Prelude.Json.{Json}
use llm_provider_router.Config.{KeyRef, ModelAlias, upstream_model}
use llm_provider_router.ErrorRules.{ClassifiedFailure}
use llm_provider_router.Usage.{usage_key_name}
use llm_provider_router.Router.Freeze.{Env, key_state_id, parse_retry_after}
use llm_provider_router.Router.State.{RouterState, tunables, note_connect_failure_streak, is_frozen}
use llm_provider_router.Router.State.Steps.{KeptBySteps}
use llm_provider_router.Router.Failure.{
  Body, freeze_invalid, freeze_until, quota_reset, freeze_rate_limited, embedded_freeze,
  apply_embedded_failure, unbind_session, note_unsupported, is_unsupported_signal, response_action,
  handle_response_failure, connect_freeze, connect_error_status, handle_connect_failure,
  freeze_each, note_success_differential, break_key, break_keys, circuit_breaker_on_exhaustion,
  extract_error_message,
}
use llm_provider_router.Router.Failure.Embedded.{
  FromStr, may_hold_error, scan_error_event_text, handle_embedded_failure, clear_unsupported_if_ok,
}
use llm_provider_router.Router.Failure.Effects.{class-cases}

module _ (P : RouterState → Type 0) (kept : KeptBySteps P) where
  freeze_until-keeps :
      (key : KeyRef) (o : Option (ℕ × Text)) (s : RouterState) → P s → P (freeze_until key o s)
  unfolding freeze_until
  freeze_until-keeps key none s p = p
  freeze_until-keeps key (some (until, reason)) s p =
      kept.by_freeze (key_state_id key) until reason s p

  pub unbind_session-keeps :
      (alias : ModelAlias) (session : Option Text) (s : RouterState)
      → P s
      → P (unbind_session alias session s)
  unfolding unbind_session
  unbind_session-keeps alias none s p = p
  unbind_session-keeps alias (some x) s p = kept.by_unbind alias.alias x s p

  freeze_rate_limited-keeps :
      (env : Env) (now : ℕ) (key : KeyRef) (retry_after : Option Text) (body : Text)
      (s : RouterState)
      → P s
      → P (freeze_rate_limited env now key retry_after body s)
  unfolding freeze_rate_limited
  freeze_rate_limited-keeps env now key retry_after body s p =
      elim-cases P (parse_retry_after env now retry_after) _ _
        (freeze_until-keeps key (quota_reset env now body s) s p)
        (λ until e. kept.by_freeze (key_state_id key) until _ s p)

  embedded_freeze-keeps :
      (env : Env) (now : ℕ) (key : KeyRef) (message : Text) (c : ClassifiedFailure)
      (s : RouterState)
      → P s
      → P (embedded_freeze env now key message c s)
  unfolding embedded_freeze freeze_invalid
  embedded_freeze-keeps env now key message c s p = elim (class-cases c.class) [
    | inl e ↦ rw e (kept.by_freeze (key_state_id key) _ _ s p)
    | inr (inl e) ↦ rw e (freeze_until-keeps key (quota_reset env now message s) s p)
    | inr (inr (inl e)) ↦ rw e p
    | inr (inr (inr e)) ↦ rw e p
  ]

  pub apply_embedded-keeps :
      (env : Env) (now : ℕ) (alias : ModelAlias) (key : KeyRef) (code message : Text)
      (session : Option Text) (s : RouterState)
      → P s
      → P (apply_embedded_failure env now alias key code message session s)
  unfolding apply_embedded_failure
  apply_embedded-keeps env now alias key code message session s p =
      embedded_freeze-keeps env now key message _ _
        (unbind_session-keeps alias session _ (kept.by_push_recent_error _ s p))

  note_unsupported-keeps :
      (env : Env) (now : ℕ) (alias : ModelAlias) (key : KeyRef) (status : ℕ) (b : Body)
      (message : Text) (s : RouterState)
      → P s
      → P (note_unsupported env now alias key status b message s)
  unfolding note_unsupported
  note_unsupported-keeps env now alias key status b message s p =
      if-cases P (is_unsupported_signal env status b) _ _
        (kept.by_mark_unsupported now (key.provider, (key.name, upstream_model alias)) message s p)
        p

  response_action-keeps :
      (env : Env) (now : ℕ) (alias : ModelAlias) (key : KeyRef) (status : ℕ)
      (retry_after : Option Text) (b : Body) (attempt : ℕ) (c : ClassifiedFailure) (s : RouterState)
      → P s
      → P (response_action env now alias key status retry_after b attempt c s).0
  unfolding response_action freeze_invalid
  response_action-keeps env now alias key status retry_after b attempt c s p =
      elim (class-cases c.class) [
        | inl e ↦ rw e (kept.by_freeze (key_state_id key) _ _ s p)
        | inr (inl e) ↦ rw e (freeze_rate_limited-keeps env now key retry_after b.text_of s p)
        | inr (inr (inl e)) ↦
            rw e (note_unsupported-keeps env now alias key status b (extract_error_message b) s p)
        | inr (inr (inr e)) ↦ rw e p
      ]

  pub response_failure-keeps :
      (env : Env) (now : ℕ) (alias : ModelAlias) (key : KeyRef) (status : ℕ)
      (retry_after : Option Text) (b : Body) (usage : Option Json) (session : Option Text)
      (attempt : ℕ) (s : RouterState)
      → P s
      → P (handle_response_failure env now alias key status retry_after b usage session attempt s).0
  unfolding handle_response_failure
  response_failure-keeps env now alias key status retry_after b usage session attempt s p =
      response_action-keeps env now alias key status retry_after b attempt _ _ (
        unbind_session-keeps alias session _ (
          kept.by_push_recent_error _ _
            (kept.by_record_usage now alias.alias (usage_key_name key) status usage session s p)))

  connect_freeze-keeps :
      (now : ℕ) (alias : ModelAlias) (key : KeyRef) (s : RouterState)
      → P s
      → P (connect_freeze now alias key s)
  unfolding connect_freeze
  connect_freeze-keeps now alias key s p =
      let base = (tunables s).connect_error_freeze in
      let q = kept.by_connect_streak now (key_state_id key) base s p in
      let r = note_connect_failure_streak now (key_state_id key) base s in
      if-cases P (ltb 0 base && not (leb (length alias.keys) 1)) _ _
        (if-cases P (ltb 0 r.1) _ _ (kept.by_freeze (key_state_id key) _ _ _ q) q) p

  pub connect_failure-keeps :
      (now : ℕ) (alias : ModelAlias) (key : KeyRef) (exc : Text) (session : Option Text)
      (s : RouterState)
      → P s
      → P (handle_connect_failure now alias key exc session s).0
  unfolding handle_connect_failure
  connect_failure-keeps now alias key exc session s p = kept.by_push_recent_error _ _ (
      connect_freeze-keeps now alias key _ (
        kept.by_connect_failure now (key_state_id key) _ _ (
          unbind_session-keeps alias session _ (
            kept.by_record_usage now alias.alias (usage_key_name key) connect_error_status none
              session s p))))

  freeze_each-keeps :
      (until : ℕ) (reason : Text) (ks : List KeyRef) (s : RouterState)
      → P s
      → P (freeze_each until reason ks s)
  unfolding freeze_each
  freeze_each-keeps until reason [] s p = p
  freeze_each-keeps until reason (k ∷ ks) s p =
      freeze_each-keeps until reason ks _ (kept.by_freeze (key_state_id k) until reason s p)

  pub success_differential-keeps :
      (now : ℕ) (ambiguous : List KeyRef) (s : RouterState)
      → P s
      → P (note_success_differential now ambiguous s)
  unfolding note_success_differential
  success_differential-keeps now ambiguous s p = freeze_each-keeps _ _ ambiguous s p

  break_key-keeps :
      (now until : ℕ) (k : KeyRef) (s : RouterState) → P s → P (break_key now until k s)
  unfolding break_key
  break_key-keeps now until k s p =
      let q = kept.by_is_frozen now (key_state_id k) s p in
      if-cases P (unwrap_or (is_frozen now (key_state_id k) s).1 true) _ _ q
        (kept.by_freeze (key_state_id k) until _ _ q)

  break_keys-keeps :
      (now until : ℕ) (ks : List KeyRef) (s : RouterState) → P s → P (break_keys now until ks s)
  unfolding break_keys
  break_keys-keeps now until [] s p = p
  break_keys-keeps now until (k ∷ ks) s p =
      break_keys-keeps now until ks _
        (if-cases P (positive k.weight) _ _ (break_key-keeps now until k s p) p)

  pub circuit_breaker-keeps :
      (now : ℕ) (alias : ModelAlias) (s : RouterState)
      → P s
      → P (circuit_breaker_on_exhaustion now alias s)
  unfolding circuit_breaker_on_exhaustion
  circuit_breaker-keeps now alias s p =
      if-cases P (nat_beq (tunables s).transient_exhausted_freeze 0) _ _ p
        (break_keys-keeps now _ alias.keys s p)

  pub embedded_failure-keeps :
      (from_str : FromStr) (env : Env) (now : ℕ) (alias : ModelAlias) (key : KeyRef) (body : Text)
      (session : Option Text) (s : RouterState)
      → P s
      → P (handle_embedded_failure from_str env now alias key body session s).0
  unfolding handle_embedded_failure
  embedded_failure-keeps from_str env now alias key body session s p =
      elim-cases (λ (r : RouterState × Bool). P r.0)
        (if may_hold_error body then scan_error_event_text from_str body else none) _ _ p
        (λ (code, message) e. apply_embedded-keeps env now alias key code message session s p)

  pub clear_unsupported_if_ok-keeps :
      (key : KeyRef) (alias : ModelAlias) (status : ℕ) (s : RouterState)
      → P s
      → P (clear_unsupported_if_ok key alias status s)
  unfolding clear_unsupported_if_ok
  clear_unsupported_if_ok-keeps key alias status s p =
      if-cases P (leb 400 status) _ _ p
        (kept.by_clear_streak (key_state_id key) _ (kept.by_clear_unsupported _ s p))

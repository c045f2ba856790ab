-- ===== src/Router/Failure/Unbinding.antt =====
-- Every failure lets go of the session's key, and a connection failure spares a pool of one key.
use llm_provider_router.Prelude.{
  ℕ, ◌+◌, Text, text, Bool, ◌≡◌, refl, ◌∙◌, ap, Option, none, some, ◌∷◌, ◌++◌, arith, leb, length,
  text_equality, pair_eq, beq_refl, nat_beq, ◌||◌, Option-cases, inl, inr, if◌then◌else◌,
}
use llm_provider_router.Prelude.Json.{Json}
use llm_provider_router.Prelude.Dict.{lookup, lookup-remove}
use llm_provider_router.Config.{KeyRef, ModelAlias, alias_provider}
use llm_provider_router.StateStore.{SessionKey}
use llm_provider_router.ErrorRules.{transient, ClassifiedFailure, classify}
use llm_provider_router.Usage.{usage_key_name}
use llm_provider_router.Router.Freeze.{Env, key_state_id, parse_retry_after}
use llm_provider_router.Router.State.{
  RouterState, ErrorLogEntry, freeze, unbind, tunables, push_recent_error, record_usage,
  mark_key_model_unsupported, streak_ttl, streak_count, note_connect_failure,
  note_connect_failure_streak,
}
use llm_provider_router.Router.State.Backoff.{streak_ttl-positive}
use llm_provider_router.Router.State.Frozen.{unwrap_until, freeze_never_shortens}
use llm_provider_router.Router.Failure.{
  Body, freeze_invalid, freeze_until, quota_reset, freeze_rate_limited, unbind_session,
  note_unsupported, response_action, handle_response_failure, log_entry, extract_error_message,
  connect_error_status, embedded_error_status, stream_break_status, handle_connect_failure,
  connect_freeze, apply_embedded_failure, note_zero_output_incomplete, note_stream_break,
  embedded_freeze,
}
use llm_provider_router.Router.Failure.Effects.{class-cases, extended}

-- The session has no key of the alias.
abbrev pub Unbound : ModelAlias → Text → RouterState → Type 0
Unbound alias session s = lookup (alias.alias, session) s.bindings ≡ none

unbind_session-Unbound :
    (alias : ModelAlias) (session : Text) (s : RouterState)
    → Unbound alias session (unbind_session alias (some session) s)
unfolding unbind_session unbind
unbind_session-Unbound alias session s = ground (
  arith,
  lookup-remove (alias.alias, session) (alias.alias, session) s.bindings,
  beq_refl {A = SessionKey} (alias.alias, session),
)

freeze-bindings :
    (k reason : Text) (until : ℕ) (s : RouterState)
    → (freeze k until reason s).0.bindings ≡ s.bindings
unfolding freeze
freeze-bindings k reason until s = ground arith

push_recent_error-bindings :
    (e : ErrorLogEntry) (s : RouterState) → (push_recent_error e s).bindings ≡ s.bindings
unfolding push_recent_error
push_recent_error-bindings e s = refl

freeze_until-bindings :
    (key : KeyRef) (o : Option (ℕ × Text)) (s : RouterState)
    → (freeze_until key o s).bindings ≡ s.bindings
unfolding freeze_until
freeze_until-bindings key none s = refl
freeze_until-bindings key (some (until, reason)) s =
    freeze-bindings (key_state_id key) reason until s

freeze_rate_limited-bindings :
    (env : Env) (now : ℕ) (key : KeyRef) (retry_after : Option Text) (body : Text) (s : RouterState)
    → (freeze_rate_limited env now key retry_after body s).bindings ≡ s.bindings
unfolding freeze_rate_limited
freeze_rate_limited-bindings env now key retry_after body s =
    elim (Option-cases (parse_retry_after env now retry_after)) [
      | inl e ↦ ground (arith, e, freeze_until-bindings key (quota_reset env now body s) s)
      | inr (until, e) ↦
          ground (arith, e, freeze-bindings (key_state_id key) (text "retry_after") until s)
    ]

note_unsupported-bindings :
    (env : Env) (now : ℕ) (alias : ModelAlias) (key : KeyRef) (status : ℕ) (b : Body) (m : Text)
    (s : RouterState)
    → (note_unsupported env now alias key status b m s).bindings ≡ s.bindings
unfolding note_unsupported mark_key_model_unsupported
note_unsupported-bindings env now alias key status b m s = ground arith

response_action-bindings :
    (env : Env) (now : ℕ) (alias : ModelAlias) (key : KeyRef) (status : ℕ)
    (retry_after : Option Text) (b : Body) (attempt : ℕ) (c : ClassifiedFailure) (s : RouterState)
    → (response_action env now alias key status retry_after b attempt c s).0.bindings ≡ s.bindings
unfolding response_action freeze_invalid
response_action-bindings env now alias key status retry_after b attempt c s =
    elim (class-cases c.class) [
      | inl e ↦ rw e (freeze-bindings (key_state_id key) _ _ s)
      | inr (inl e) ↦ rw e (freeze_rate_limited-bindings env now key retry_after b.text_of s)
      | inr (inr (inl e)) ↦
          rw e (note_unsupported-bindings env now alias key status b (extract_error_message b) s)
      | inr (inr (inr e)) ↦ rw e refl
    ]

embedded_freeze-bindings :
    (env : Env) (now : ℕ) (key : KeyRef) (m : Text) (c : ClassifiedFailure) (s : RouterState)
    → (embedded_freeze env now key m c s).bindings ≡ s.bindings
unfolding embedded_freeze freeze_invalid
embedded_freeze-bindings env now key m c s = elim (class-cases c.class) [
  | inl e ↦ rw e (freeze-bindings (key_state_id key) _ _ s)
  | inr (inl e) ↦ rw e (freeze_until-bindings key (quota_reset env now m s) s)
  | inr (inr (inl e)) ↦ rw e refl
  | inr (inr (inr e)) ↦ rw e refl
]

connect_freeze-bindings :
    (now : ℕ) (alias : ModelAlias) (key : KeyRef) (s : RouterState)
    → (connect_freeze now alias key s).bindings ≡ s.bindings
unfolding connect_freeze note_connect_failure_streak
connect_freeze-bindings now alias key s =
    let base = (tunables s).connect_error_freeze in
    let r = note_connect_failure_streak now (key_state_id key) base s in
    ground (arith, freeze-bindings (key_state_id key) (text "connect_error") (now + r.1) r.0)

still-Unbound :
    (alias : ModelAlias) (session : Text) (s t : RouterState)
    → t.bindings ≡ s.bindings
    → Unbound alias session s
    → Unbound alias session t
still-Unbound alias session s t e h = ap (lookup (alias.alias, session)) e ∙ h

module _ (env : Env) (now : ℕ) (alias : ModelAlias) (key : KeyRef) (session : Text) where
  abbrev let_go : RouterState → RouterState
  let_go s = unbind_session alias (some session) s

  response_unbinds :
      (status : ℕ) (retry_after : Option Text) (b : Body) (usage : Option Json) (attempt : ℕ)
      (s : RouterState)
      → Unbound alias session
          (handle_response_failure env now alias key status retry_after b usage
            (some session)
            attempt
            s).0
  unfolding handle_response_failure
  response_unbinds status retry_after b usage attempt s =
      let c = classify s.error_rules (alias_provider alias) status (env.to_lowercase b.text_of) in
      let s1 = record_usage now alias.alias (usage_key_name key) status usage (some session) s in
      let entry = log_entry now alias key status c.class c.rule (extract_error_message b) in
      let s2 = push_recent_error entry s1 in
      still-Unbound alias session (let_go s2)
        (response_action env now alias key status retry_after b attempt c (let_go s2)).0
        (response_action-bindings env now alias key status retry_after b attempt c (let_go s2))
        (unbind_session-Unbound alias session s2)

  embedded_unbinds :
      (code message : Text) (s : RouterState)
      → Unbound alias session
          (apply_embedded_failure env now alias key code message (some session) s)
  unfolding apply_embedded_failure
  embedded_unbinds code message s =
      let c =
        classify s.error_rules (alias_provider alias) embedded_error_status
          (env.to_lowercase (code ++ b' ' ∷ message)) in
      let entry =
        log_entry now alias key embedded_error_status c.class c.rule
          (text "[stream] " ++ (code ++ (text ": " ++ message))) in
      let s1 = push_recent_error entry s in
      still-Unbound alias session (let_go s1) (embedded_freeze env now key message c (let_go s1))
        (embedded_freeze-bindings env now key message c (let_go s1))
        (unbind_session-Unbound alias session s1)

  zero_output_unbinds :
      (reason : Text) (s : RouterState)
      → Unbound alias session (note_zero_output_incomplete now alias key reason (some session) s)
  unfolding note_zero_output_incomplete
  zero_output_unbinds reason s =
      let entry =
        log_entry now alias key embedded_error_status transient (text "zero_output_incomplete")
          (text "[stream] zero-output incomplete: " ++ reason) in
      let s1 = push_recent_error entry s in
      let until : ℕ = now + (tunables (let_go s1)).differential_freeze in
      still-Unbound alias session (let_go s1)
        (freeze (key_state_id key) until (text "zero_output_incomplete") (let_go s1)).0
        (freeze-bindings (key_state_id key) (text "zero_output_incomplete") until (let_go s1))
        (unbind_session-Unbound alias session s1)

  connect_unbinds :
      (exc : Text) (s : RouterState)
      → Unbound alias session (handle_connect_failure now alias key exc (some session) s).0
  unfolding handle_connect_failure note_connect_failure push_recent_error
  connect_unbinds exc s =
      let s1 =
        record_usage now alias.alias (usage_key_name key) connect_error_status none (some session)
          s in
      let s3 =
        note_connect_failure now (key_state_id key) (text "upstream connect error: " ++ exc)
          (let_go s1) in
      still-Unbound alias session (let_go s1) (connect_freeze now alias key s3)
        (connect_freeze-bindings now alias key s3) (unbind_session-Unbound alias session s1)

  stream_break_unbinds :
      (exc : Text) (is_timeout : Bool) (bytes : ℕ) (s : RouterState)
      → Unbound alias session
          (note_stream_break now alias key exc is_timeout bytes (some session) s)
  unfolding note_stream_break push_recent_error
  stream_break_unbinds exc is_timeout bytes s =
      unbind_session-Unbound alias session (
        record_usage now alias.alias (usage_key_name key) stream_break_status none (some session) s)

-- A connection failure of the only key of a pool freezes nothing; otherwise its key is frozen until
-- the later of the old freeze and the end of the streak's freeze. A base of 0 turns that off.
pub connect_failure_freezes :
    (now : ℕ) (alias : ModelAlias) (key : KeyRef) (s : RouterState) (j : Text)
    → unwrap_until (lookup j (connect_freeze now alias key s).frozen) ≡ (
        if leb (length alias.keys) 1 || nat_beq (tunables s).connect_error_freeze 0
        then unwrap_until (lookup j s.frozen)
        else extended
            (key_state_id key)
            (now
              + streak_ttl
                  (tunables s).connect_error_freeze
                  (streak_count now (lookup (key_state_id key) s.connect_streaks)))
            s
            j)
unfolding connect_freeze note_connect_failure_streak
connect_failure_freezes now alias key s j =
    let base = (tunables s).connect_error_freeze in
    let r = note_connect_failure_streak now (key_state_id key) base s in
    ground (
      arith,
      freeze_never_shortens (key_state_id key) j (text "connect_error") (now + r.1) r.0,
      streak_ttl-positive base (streak_count now (lookup (key_state_id key) s.connect_streaks)),
    )

-- After any failure of a request with a session, the session has no key: a response failure of any
-- class, an error event inside a stream, an abnormal end before any output, a connection failure and
-- a broken stream. This holds whether or not the store works.
pub failures_unbind :
    (env : Env) (now : ℕ) (alias : ModelAlias) (key : KeyRef) (status : ℕ)
    (retry_after : Option Text) (b : Body) (usage : Option Json) (attempt : ℕ)
    (code message session : Text) (is_timeout : Bool) (bytes : ℕ) (s : RouterState)
    → Unbound alias session
        (handle_response_failure env now alias key status retry_after b usage
          (some session)
          attempt
          s).0
      × Unbound alias session
          (apply_embedded_failure env now alias key code message (some session) s)
      × Unbound alias session (note_zero_output_incomplete now alias key message (some session) s)
      × Unbound alias session (handle_connect_failure now alias key message (some session) s).0
      × Unbound alias session
          (note_stream_break now alias key message is_timeout bytes (some session) s)
failures_unbind env now alias key status retry_after b usage attempt code message session is_timeout
      bytes s =
    (
      response_unbinds env now alias key session status retry_after b usage attempt s,
      embedded_unbinds env now alias key session code message s,
      zero_output_unbinds env now alias key session message s,
      connect_unbinds env now alias key session message s,
      stream_break_unbinds env now alias key session message is_timeout bytes s,
    )

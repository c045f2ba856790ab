-- ===== src/Router/Failure/Effects.antt =====
-- What a failure changes of the freezes and bindings, and what later selections make of it.
use llm_provider_router.Prelude.{
  ℕ, ◌+◌, max, Text, text, ◌≡◌, refl, ◌∙◌, Option, none, some, arith, ltb, ◌==◌, text_equality,
  pair_eq, Option-cases, inl, inr, ◌⊎◌, if◌then◌else◌,
}
use llm_provider_router.Prelude.Json.{Json}
use llm_provider_router.Prelude.Dict.{Dict, lookup, Distinct, Distinct-insert}
use llm_provider_router.Config.{KeyRef, ModelAlias, alias_provider}
use llm_provider_router.StateStore.{FrozenKey}
use llm_provider_router.ErrorRules.{
  ErrorClass, invalid, rate_limited, model_unsupported, transient, ClassifiedFailure, classify,
}
use llm_provider_router.Usage.{usage_key_name}
use llm_provider_router.Router.Freeze.{Env, key_state_id, parse_retry_after}
use llm_provider_router.Router.State.{
  RouterState, ErrorLogEntry, freeze, unbind, tunables, push_recent_error, record_usage,
  mark_key_model_unsupported,
}
use llm_provider_router.Router.State.Frozen.{hot, unwrap_until, freeze_never_shortens}
use llm_provider_router.Router.Failure.{
  Body, freeze_invalid, freeze_until, quota_reset, freeze_rate_limited, unbind_session,
  note_unsupported, response_action, handle_response_failure, log_entry, extract_error_message,
}

pub hot-until :
    (now : ℕ) (m : Dict Text FrozenKey) (k : Text)
    → hot now m k ≡ ltb now (unwrap_until (lookup k m))
hot-until now m k = ground arith

pub freeze-Distinct :
    (k reason : Text) (until : ℕ) (s : RouterState)
    → Distinct s.frozen
    → Distinct (freeze k until reason s).0.frozen
unfolding freeze
freeze-Distinct k reason until s d =
    ground (arith, Distinct-insert k (record { until = until; reason = reason }) s.frozen d)

-- The freezes, the settings and the error rules are the same.
abbrev pub SameRules : RouterState → RouterState → Type 0
SameRules s t = (t.frozen ≡ s.frozen) × (t.settings ≡ s.settings) × (t.error_rules ≡ s.error_rules)

-- The steps of a failure that leave the freezes alone.
pub record_usage-frozen :
    (now : ℕ) (model key_name : Text) (status : ℕ) (usage : Option Json) (session : Option Text)
    (s : RouterState)
    → SameRules s (record_usage now model key_name status usage session s)
unfolding record_usage
record_usage-frozen now model key_name status usage session s = ground arith

pub push_recent_error-frozen :
    (e : ErrorLogEntry) (s : RouterState) → SameRules s (push_recent_error e s)
unfolding push_recent_error
push_recent_error-frozen e s = ground arith

pub unbind_session-frozen :
    (alias : ModelAlias) (session : Option Text) (s : RouterState)
    → SameRules s (unbind_session alias session s)
unfolding unbind_session unbind
unbind_session-frozen alias none s = (refl, refl, refl)
unbind_session-frozen alias (some x) s = ground arith

pub note_unsupported-frozen :
    (env : Env) (now : ℕ) (alias : ModelAlias) (key : KeyRef) (status : ℕ) (b : Body) (m : Text)
    (s : RouterState)
    → (note_unsupported env now alias key status b m s).frozen ≡ s.frozen
unfolding note_unsupported mark_key_model_unsupported
note_unsupported-frozen env now alias key status b m s = ground arith

-- The later of the freeze of `k` and `until`, for the key `j` if it is `k`.
abbrev pub extended : Text → ℕ → RouterState → Text → ℕ
extended k until s j =
    if k == j
    then max (unwrap_until (lookup j s.frozen)) until
    else unwrap_until (lookup j s.frozen)

-- The end of the freeze that a reset time asks for.
abbrev pub reset_end : Option (ℕ × Text) → ℕ
reset_end none = 0
reset_end (some (until, reason)) = until

abbrev pub rate_limit_end : Env → ℕ → Option Text → Text → RouterState → ℕ
rate_limit_end env now retry_after body s = elim (parse_retry_after env now retry_after) [
  | none ↦ reset_end (quota_reset env now body s)
  | some until ↦ until
]

-- The end of the freeze that a class asks for; 0 asks for none.
abbrev pub freeze_end : Env → ℕ → Option Text → Text → RouterState → ErrorClass → ℕ
freeze_end env now retry_after body s invalid = now + (tunables s).invalid_freeze
freeze_end env now retry_after body s rate_limited = rate_limit_end env now retry_after body s
freeze_end env now retry_after body s model_unsupported = 0
freeze_end env now retry_after body s transient = 0

pub class-cases :
    (c : ErrorClass)
    → (c ≡ invalid) ⊎ ((c ≡ rate_limited) ⊎ ((c ≡ model_unsupported) ⊎ (c ≡ transient)))
class-cases invalid = inl refl
class-cases rate_limited = inr (inl refl)
class-cases model_unsupported = inr (inr (inl refl))
class-cases transient = inr (inr (inr refl))

freeze_end-SameRules :
    (env : Env) (now : ℕ) (retry_after : Option Text) (body : Text) (s t : RouterState)
    → SameRules s t
    → (c : ErrorClass)
    → freeze_end env now retry_after body t c ≡ freeze_end env now retry_after body s c
unfolding tunables quota_reset
freeze_end-SameRules env now retry_after body s t (f, e, r) invalid = ground (arith, e, r)
freeze_end-SameRules env now retry_after body s t (f, e, r) rate_limited = ground (arith, e)
freeze_end-SameRules env now retry_after body s t q model_unsupported = refl
freeze_end-SameRules env now retry_after body s t q transient = refl

freeze_until_end :
    (key : KeyRef) (o : Option (ℕ × Text)) (s : RouterState) (j : Text)
    → unwrap_until (lookup j (freeze_until key o s).frozen)
      ≡ extended (key_state_id key) (reset_end o) s j
unfolding freeze_until
freeze_until_end key none s j = ground arith
freeze_until_end key (some (until, reason)) s j =
    freeze_never_shortens (key_state_id key) j reason until s

freeze_rate_limited_end :
    (env : Env) (now : ℕ) (key : KeyRef) (retry_after : Option Text) (body : Text) (s : RouterState)
    (j : Text)
    → unwrap_until (lookup j (freeze_rate_limited env now key retry_after body s).frozen)
      ≡ extended (key_state_id key) (rate_limit_end env now retry_after body s) s j
unfolding freeze_rate_limited
freeze_rate_limited_end env now key retry_after body s j =
    elim (Option-cases (parse_retry_after env now retry_after)) [
      | inl e ↦ ground (arith, e, freeze_until_end key (quota_reset env now body s) s j)
      | inr (until, e) ↦
          ground (arith, e, freeze_never_shortens (key_state_id key) j (text "retry_after") until s)
    ]

module _ (env : Env) (now : ℕ) (alias : ModelAlias) (key : KeyRef) (status : ℕ)
    (retry_after : Option Text) (b : Body) where
  response_action_end :
      (attempt : ℕ) (c : ClassifiedFailure) (s : RouterState) (j : Text)
      → unwrap_until
          (lookup j (response_action env now alias key status retry_after b attempt c s).0.frozen)
        ≡ extended (key_state_id key) (freeze_end env now retry_after b.text_of s c.class) s j
  unfolding response_action freeze_invalid
  response_action_end attempt c s j = elim (class-cases c.class) [
    | inl e ↦ rw e (freeze_never_shortens (key_state_id key) j _ _ s)
    | inr (inl e) ↦ rw e (freeze_rate_limited_end env now key retry_after b.text_of s j)
    | inr (inr (inl e)) ↦ rw e (
        ground
          (arith, note_unsupported-frozen env now alias key status b (extract_error_message b) s))
    | inr (inr (inr e)) ↦ rw e (ground arith)
  ]

  -- The freezes that a response failure leaves: the key is frozen until the later of its old freeze
  -- and the end that the failure's class asks for, which is the invalid freeze from now, or the reset
  -- time of the retry-after header or the body. Other keys keep theirs.
  pub response_failure_freezes :
      (usage : Option Json) (session : Option Text) (attempt : ℕ) (s : RouterState) (j : Text)
      → let class =
          (classify s.error_rules
            (alias_provider alias)
            status
            (env.to_lowercase b.text_of)).class in
        unwrap_until (
          lookup j
            (handle_response_failure env now alias key status retry_after b usage session attempt
              s).0.frozen)
        ≡ extended (key_state_id key) (freeze_end env now retry_after b.text_of s class) s j
  unfolding handle_response_failure
  response_failure_freezes usage session attempt s j =
      let c = classify s.error_rules (alias_provider alias) status (env.to_lowercase b.text_of) in
      let s1 = record_usage now alias.alias (usage_key_name key) status usage session s in
      let entry = log_entry now alias key status c.class c.rule (extract_error_message b) in
      let s2 = push_recent_error entry s1 in
      let s3 = unbind_session alias session s2 in
      let q1 = record_usage-frozen now alias.alias (usage_key_name key) status usage session s in
      let q2 = push_recent_error-frozen entry s1 in
      let q3 = unbind_session-frozen alias session s2 in
      let q : SameRules s s3 = (q3.0 ∙ q2.0 ∙ q1.0, q3.1 ∙ q2.1 ∙ q1.1, q3.2 ∙ q2.2 ∙ q1.2) in
      response_action_end attempt c s3 j
      ∙ ground (arith, freeze_end-SameRules env now retry_after b.text_of s s3 q c.class, q.0)

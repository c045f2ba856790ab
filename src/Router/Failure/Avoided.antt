-- ===== src/Router/Failure/Avoided.antt =====
-- A key whose failure froze it is not selected before its freeze is over.
use llm_provider_router.Prelude.{
  ℕ, ◌<◌, subst, Text, text, true, false, ◌≡◌, sym, ◌∙◌, Option, none, some, List, arith, ◌==◌,
  text_equality, pair_eq, text_eq_iff, beq_refl, Bool-cases, Option-cases, inl, inr,
}
use llm_provider_router.Prelude.Json.{Json}
use llm_provider_router.Prelude.Dict.{Distinct}
use llm_provider_router.Config.{KeyRef, ModelAlias, alias_provider}
use llm_provider_router.ErrorRules.{ClassifiedFailure, classify}
use llm_provider_router.Usage.{usage_key_name}
use llm_provider_router.Router.Freeze.{Env, key_state_id, parse_retry_after}
use llm_provider_router.Router.State.{RouterState, push_recent_error, record_usage}
use llm_provider_router.Router.State.Frozen.{hot}
use llm_provider_router.Router.Select.{Selected, selected, no_available_key, select_key_excluding}
use llm_provider_router.Router.Select.Answer.{Answers, select_key_Answers}
use llm_provider_router.Router.Failure.{
  Body, freeze_invalid, freeze_until, quota_reset, freeze_rate_limited, unbind_session,
  response_action, handle_response_failure, log_entry, extract_error_message,
}
use llm_provider_router.Router.Failure.Effects.{
  hot-until, freeze-Distinct, record_usage-frozen, push_recent_error-frozen, unbind_session-frozen,
  note_unsupported-frozen, class-cases, freeze_end, response_failure_freezes,
}

-- The answer of a selection is not the key `id`.
abbrev pub NotServed : Text → Selected → Type 0
NotServed id (selected k) = (key_state_id k == id) ≡ false
NotServed id (no_available_key seconds) = Unit

answered-NotServed :
    (t : ℕ) (excluded : List Text) (keys : List KeyRef) (s : RouterState) (id : Text) (r : Selected)
    → hot t s.frozen id ≡ true
    → Answers t excluded keys s r
    → NotServed id r
answered-NotServed t excluded keys s id (selected k) h a =
    elim (Bool-cases (key_state_id k == id)) [
      | inr n ↦ n
      | inl y ↦ absurd (ground (arith, a.1, text_eq_iff (key_state_id k) id))
    ]
answered-NotServed t excluded keys s id (no_available_key seconds) h a = tt

freeze_until-Distinct :
    (key : KeyRef) (o : Option (ℕ × Text)) (s : RouterState)
    → Distinct s.frozen
    → Distinct (freeze_until key o s).frozen
unfolding freeze_until
freeze_until-Distinct key none s d = d
freeze_until-Distinct key (some (until, reason)) s d =
    freeze-Distinct (key_state_id key) reason until s d

freeze_rate_limited-Distinct :
    (env : Env) (now : ℕ) (key : KeyRef) (retry_after : Option Text) (body : Text) (s : RouterState)
    → Distinct s.frozen
    → Distinct (freeze_rate_limited env now key retry_after body s).frozen
unfolding freeze_rate_limited
freeze_rate_limited-Distinct env now key retry_after body s d =
    elim (Option-cases (parse_retry_after env now retry_after)) [
      | inl e ↦ ground (arith, e, freeze_until-Distinct key (quota_reset env now body s) s d)
      | inr (until, e) ↦
          ground (arith, e, freeze-Distinct (key_state_id key) (text "retry_after") until s d)
    ]

module _ (env : Env) (now : ℕ) (alias : ModelAlias) (key : KeyRef) (status : ℕ)
    (retry_after : Option Text) (b : Body) where
  response_action-Distinct :
      (attempt : ℕ) (c : ClassifiedFailure) (s : RouterState)
      → Distinct s.frozen
      → Distinct (response_action env now alias key status retry_after b attempt c s).0.frozen
  unfolding response_action freeze_invalid
  response_action-Distinct attempt c s d = elim (class-cases c.class) [
    | inl e ↦ rw e (freeze-Distinct (key_state_id key) _ _ s d)
    | inr (inl e) ↦ rw e (freeze_rate_limited-Distinct env now key retry_after b.text_of s d)
    | inr (inr (inl e)) ↦
        rw e (rw (note_unsupported-frozen env now alias key status b (extract_error_message b) s) d)
    | inr (inr (inr e)) ↦ rw e d
  ]

  response_failure-Distinct :
      (usage : Option Json) (session : Option Text) (attempt : ℕ) (s : RouterState)
      → Distinct s.frozen
      → Distinct
          (handle_response_failure env now alias key status retry_after b usage session attempt
            s).0.frozen
  unfolding handle_response_failure
  response_failure-Distinct usage session attempt s d =
      let c = classify s.error_rules (alias_provider alias) status (env.to_lowercase b.text_of) in
      let s1 = record_usage now alias.alias (usage_key_name key) status usage session s in
      let entry = log_entry now alias key status c.class c.rule (extract_error_message b) in
      let s2 = push_recent_error entry s1 in
      let s3 = unbind_session alias session s2 in
      let q1 = record_usage-frozen now alias.alias (usage_key_name key) status usage session s in
      let q2 = push_recent_error-frozen entry s1 in
      let q3 = unbind_session-frozen alias session s2 in
      response_action-Distinct attempt c s3 (subst Distinct (sym (q3.0 ∙ q2.0 ∙ q1.0)) d)

  -- Until the end of the freeze that the class of a response failure asks for, no selection of any
  -- model, session and exclusion answers with the key that failed. The freezes have distinct keys.
  pub failed_key_avoided :
      (usage : Option Json) (session : Option Text) (attempt : ℕ) (s : RouterState) (t : ℕ)
      (other : ModelAlias) (excluded : List Text) (next : Option Text)
      → Distinct s.frozen
      → t
        < freeze_end env now retry_after b.text_of s
            (classify s.error_rules
              (alias_provider alias)
              status
              (env.to_lowercase b.text_of)).class
      → NotServed
          (key_state_id key)
          (select_key_excluding env t other next excluded
            (handle_response_failure env now alias key status retry_after b usage session attempt
              s).0).1
  failed_key_avoided usage session attempt s t other excluded next d soon =
      let s' =
        (handle_response_failure env now alias key status retry_after b usage session attempt
          s).0 in
      let id = key_state_id key in
      let until =
        response_failure_freezes env now alias key status retry_after b usage session attempt s
          id in
      answered-NotServed t excluded other.keys s' id
        (select_key_excluding env t other next excluded s').1
        (ground (arith, hot-until t s'.frozen id, until, beq_refl id))
        (select_key_Answers env t other excluded next s'
          (response_failure-Distinct usage session attempt s d))

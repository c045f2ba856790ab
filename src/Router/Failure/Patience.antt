-- ===== src/Router/Failure/Patience.antt =====
-- A failure is only answered with a retry of the same key while the rules allow another attempt.
use llm_provider_router.Prelude.{
  ℕ, ◌+◌, ◌<◌, ◌≤◌, Text, Option, ◌≡◌, ltb, arith, inl, inr, Bool-cases, text_equality, refl,
}
use llm_provider_router.Prelude.Json.{Json}
use llm_provider_router.Config.{KeyRef, ModelAlias}
use llm_provider_router.ErrorRules.{ClassifiedFailure}
use llm_provider_router.Usage.{usage_key_name}
use llm_provider_router.Router.Freeze.{Env}
use llm_provider_router.Router.State.{RouterState}
use llm_provider_router.Router.State.Lasting.{attempts, attempts-KeptBySteps}
use llm_provider_router.Router.Failure.{
  Body, FailureAction, next_key, next_key_transient, retry_same, abort, response_action,
  failure_content, transient_action, handle_response_failure, handle_connect_failure,
}
use llm_provider_router.Router.Failure.Effects.{class-cases}
use llm_provider_router.Router.Failure.Kept.{unbind_session-keeps}

-- A retry is followed by an attempt below `n`, and an abort has the status of the failure and the
-- content that is given.
abbrev pub Patient : ℕ → ℕ → ℕ → Json → FailureAction → Type 0
Patient n attempt status body (next_key m) = Unit
Patient n attempt status body (next_key_transient m) = Unit
Patient n attempt status body (retry_same delay m) = attempt + 1 < n
Patient n attempt status body (abort st m content) = (st ≡ status) × (content ≡ body)

transient_action-Patient :
    (n attempt status allowed interval : ℕ) (body : Json) (message : Text)
    → allowed ≤ n
    → Patient n attempt status body (transient_action attempt allowed interval message)
unfolding transient_action
transient_action-Patient n attempt status allowed interval body message h =
    elim (Bool-cases (ltb (attempt + 1) allowed)) [
      | inl e ↦ rw e (ground (arith, h))
      | inr e ↦ rw e tt
    ]

module _ (env : Env) (now : ℕ) (alias : ModelAlias) (key : KeyRef) (status : ℕ)
    (retry_after : Option Text) (b : Body) (n attempt : ℕ) where
  response_action-Patient :
      (c : ClassifiedFailure) (s : RouterState)
      → attempts s ≤ n
      → Patient n attempt status
          (failure_content b)
          (response_action env now alias key status retry_after b attempt c s).1
  unfolding response_action
  response_action-Patient c s h = elim (class-cases c.class) [
    | inl e ↦ rw e tt
    | inr (inl e) ↦ rw e tt
    | inr (inr (inl e)) ↦ rw e (refl, refl)
    | inr (inr (inr e)) ↦
        rw e (transient_action-Patient n attempt status (attempts s) _ (failure_content b) _ h)
  ]

  pub response_failure-Patient :
      (usage : Option Json) (session : Option Text) (s : RouterState)
      → attempts s ≤ n
      → Patient n attempt status
          (failure_content b)
          (handle_response_failure env now alias key status retry_after b usage session attempt s).1
  unfolding handle_response_failure
  response_failure-Patient usage session s h =
      let kept = attempts-KeptBySteps n in
      response_action-Patient _ _ (
        unbind_session-keeps (λ t. attempts t ≤ n) kept alias session _
          (kept.by_push_recent_error _ _
            (kept.by_record_usage now alias.alias (usage_key_name key) status usage session s h)))

-- A connection failure moves on to the next key.
pub connect_failure_moves_on :
    (now : ℕ) (alias : ModelAlias) (key : KeyRef) (exc : Text) (session : Option Text)
    (s : RouterState)
    → (m : Text) × ((handle_connect_failure now alias key exc session s).1 ≡ next_key_transient m)
unfolding handle_connect_failure
connect_failure_moves_on now alias key exc session s = (_, refl)

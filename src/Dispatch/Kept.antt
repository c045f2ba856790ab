-- ===== src/Dispatch/Kept.antt =====
-- A property of the router state that its single steps keep, and that other requests keep, is kept by
-- a whole call.
use llm_provider_router.Prelude.{
  ℕ, zero, suc, ◌+◌, Text, Option, List, leb, ◌⊎◌, inl, inr, refl, subst, ◌≡◌, if-cases, elim-cases,
  text_equality,
}
use llm_provider_router.Config.{KeyRef, ModelAlias}
use llm_provider_router.Router.State.{RouterState}
use llm_provider_router.Router.State.Steps.{KeptBySteps}
use llm_provider_router.Router.Select.{Selected, selected, no_available_key}
use llm_provider_router.Router.Select.Kept.{select_key-keeps}
use llm_provider_router.Router.Failure.{
  FailureAction, next_key, next_key_transient, retry_same, abort,
}
use llm_provider_router.Router.Failure.Embedded.{FromStr, handle_embedded_failure}
use llm_provider_router.Router.Failure.Kept.{
  response_failure-keeps, connect_failure-keeps, success_differential-keeps, circuit_breaker-keeps,
  embedded_failure-keeps, clear_unsupported_if_ok-keeps,
}
use llm_provider_router.Dispatch.{
  Endpoint, responses_passthrough, responses_translated, anthropic_passthrough, Answer, Round,
  World, Trial, fresh_trial, Outcome, Turn, again, stop, on_success, act, on_answer,
  on_connect_failure, with_key, on_selected, play, loop, call, upstream_key_value, send_upstream,
  lacks_endpoint,
}

-- The state that a round leaves.
abbrev pub left_state : Turn → RouterState
left_state (again s t) = s
left_state (stop s o) = s

pub turn-cases :
    (turn : Turn)
    → ((s : RouterState) × (t : Trial) × (turn ≡ again s t))
      ⊎ ((s : RouterState) × (o : Outcome) × (turn ≡ stop s o))
turn-cases (again s t) = inl (s, t, refl)
turn-cases (stop s o) = inr (s, o, refl)

-- Other requests keep the property, before and during every round.
abbrev pub Calm : (RouterState → Type 0) → World → Type 0
Calm P world =
    (n : ℕ) (s : RouterState)
    → P s
    → P ((world.rounds n).others_before s) × P ((world.rounds n).others_during s)

module _ (P : RouterState → Type 0) (kept : KeptBySteps P) where
  on_success-keeps :
      (from_str : FromStr) (endpoint : Endpoint) (round : Round) (alias : ModelAlias)
      (session : Option Text) (key : KeyRef) (answer : Answer) (ambiguous : List KeyRef)
      (s : RouterState)
      → P s
      → P (on_success from_str endpoint round alias session key answer ambiguous s)
  unfolding on_success
  on_success-keeps from_str responses_passthrough round alias session key answer ambiguous s p =
      let q =
        embedded_failure-keeps P kept from_str round.env round.answered_at alias key answer.body
          session s p in
      let r =
        handle_embedded_failure from_str round.env round.answered_at alias key answer.body session
          s in
      if-cases P r.1 _ _ q (
        clear_unsupported_if_ok-keeps P kept key alias answer.status _
          (success_differential-keeps P kept round.answered_at ambiguous _ q))
  on_success-keeps from_str responses_translated round alias session key answer ambiguous s p =
      clear_unsupported_if_ok-keeps P kept key alias answer.status _
        (success_differential-keeps P kept round.answered_at ambiguous s p)
  on_success-keeps from_str anthropic_passthrough round alias session key answer ambiguous s p =
      kept.by_record_usage _ _ _ _ _ _ _
        (success_differential-keeps P kept round.answered_at ambiguous s p)

  act-keeps :
      (key : KeyRef) (t : Trial) (r : RouterState × FailureAction)
      → P r.0
      → P (left_state (act key t r))
  unfolding act
  act-keeps key t (s, next_key m) p = p
  act-keeps key t (s, next_key_transient m) p = p
  act-keeps key t (s, retry_same d m) p = p
  act-keeps key t (s, abort st m c) p = p

  module _ (from_str : FromStr) (endpoint : Endpoint) (round : Round) (alias : ModelAlias)
      (session : Option Text)
      (quiet : (s : RouterState)
        → P s
        → P (round.others_before s) × P (round.others_during s)) where
    abbrev Left : Turn → Type 0
    Left turn = P (left_state turn)

    on_answer-keeps :
        (key : KeyRef) (t : Trial) (answer : Answer) (s : RouterState)
        → P s
        → Left (on_answer from_str endpoint round alias session key t answer s)
    unfolding on_answer
    on_answer-keeps key t answer s p =
        if-cases Left (leb 400 answer.status) _ _
          (act-keeps key t _ (
            response_failure-keeps P kept round.env round.answered_at alias key answer.status
              answer.retry_after _ _ session t.same_key_attempt s p))
          (on_success-keeps from_str endpoint round alias session key answer t.ambiguous s p)

    with_key-keeps :
        (key : KeyRef) (t : Trial) (s : RouterState)
        → P s
        → Left (with_key from_str endpoint round alias session key t s)
    unfolding with_key on_connect_failure
    with_key-keeps key t s p =
        elim-cases Left (upstream_key_value round.api_keys key) _ _
          (kept.by_record_usage _ _ _ _ _ session s p)
          (λ value e.
            elim-cases Left (send_upstream round key) _ _
              (act-keeps key t _ (
                connect_failure-keeps P kept round.answered_at alias key _ session _ (quiet s p).1))
              (λ answer e. on_answer-keeps key t answer _ (quiet s p).1))

    on_selected-keeps :
        (t : Trial) (r : RouterState × Selected)
        → P r.0
        → Left (on_selected from_str endpoint round alias session t r)
    unfolding on_selected
    on_selected-keeps t (s, selected key) p = with_key-keeps key _ s p
    on_selected-keeps t (s, no_available_key seconds) p =
        if-cases P t.last_failure_transient _ _
          (circuit_breaker-keeps P kept round.selected_at alias s p) p

    pub play-keeps :
        (t : Trial) (s : RouterState) → P s → Left (play from_str endpoint round alias session t s)
    unfolding play
    play-keeps t s p =
        elim-cases Left t.retry_key _ _
          (on_selected-keeps t _ (
            select_key-keeps P kept round.env round.selected_at alias t.tried session _
              (quiet s p).0))
          (λ key e. with_key-keeps key _ _ (quiet s p).0)

  module _ (world : World) (endpoint : Endpoint) (alias : ModelAlias) (session : Option Text)
      (calm : Calm P world) where
    loop-keeps :
        (fuel n : ℕ) (t : Trial) (s : RouterState)
        → P s
        → P (loop world endpoint alias session fuel n t s).0
    unfolding loop
    loop-keeps zero n t s p = p
    loop-keeps (suc fuel) n t s p =
        let p' = play-keeps world.from_str endpoint (world.rounds n) alias session (calm n) t s p in
        elim (turn-cases (play world.from_str endpoint (world.rounds n) alias session t s)) [
          | inl (s', t', e) ↦
              rw (e, loop) (loop-keeps fuel (n + 1) t' s' (subst (λ r. P (left_state r)) e p'))
          | inr (s', o, e) ↦ rw (e, loop) (subst (λ r. P (left_state r)) e p')
        ]

    pub call-keeps :
        (fuel : ℕ) (s : RouterState) → P s → P (call world endpoint alias session fuel s).0
    unfolding call
    call-keeps fuel s p =
        if-cases (λ (r : RouterState × Outcome). P r.0) (lacks_endpoint endpoint alias) _ _ p
          (loop-keeps fuel 0 fresh_trial s p)

-- ===== src/Dispatch/Failover/Replies.antt =====
-- Which model of a route replies, and why (`responses_inner` of src/routes/responses.rs).
use llm_provider_router.Prelude.{
  ℕ, ◌+◌, ◌≤◌, true, false, Text, Option, some, List, [], ◌∷◌, ◌++◌, ◌≡◌, ◌⊎◌, if◌then◌else◌,
}
use llm_provider_router.Config.{ModelAlias, supports_responses}
use llm_provider_router.Router.State.{RouterState}
use llm_provider_router.Dispatch.{
  World, Endpoint, responses_passthrough, responses_translated, lacks_endpoint, Outcome,
  no_available, no_endpoint,
}
use llm_provider_router.Dispatch.Kept.{Calm}
use llm_provider_router.Dispatch.Progress.{Sound}
use llm_provider_router.Dispatch.Calls.{EndsJustified}
use llm_provider_router.Dispatch.Failover.{
  Reply, answered, invalid_request, all_keys_frozen, unsupported_model, Dispatched, replied,
  exhausted, tried_at,
}

-- The endpoint that a model is called by.
abbrev pub endpoint_of : ModelAlias → Endpoint
endpoint_of alias = if supports_responses alias then responses_passthrough else responses_translated

module _ (n : ℕ) (some_attempt : 1 ≤ n) (worlds : ℕ → World)
    (calm : (i : ℕ) → Calm (Sound n) (worlds i)) (rejected : Option Text) (session : Option Text)
    (fuel : ℕ) where
  -- The justified end of a call of the model at the place `i`, from the state `s`.
  abbrev Ends : ℕ → ModelAlias → RouterState → Outcome → Type 0
  Ends i alias s o =
      EndsJustified n some_attempt (worlds i) (endpoint_of alias) alias session (calm i) s o

  -- Why a model replies, or passes the request on.
  abbrev pub Explained : ℕ → ModelAlias → RouterState → Dispatched → Type 0
  Explained i alias s (exhausted seconds) = Ends i alias s (no_available seconds)
  Explained i alias s (replied (answered o)) =
      ((lacks_endpoint (endpoint_of alias) alias ≡ true) × (o ≡ no_endpoint)) ⊎ Ends i alias s o
  Explained i alias s (replied (invalid_request message)) =
      (supports_responses alias ≡ false) × (rejected ≡ some message)
  Explained i alias s (replied (all_keys_frozen seconds)) = ⊥
  Explained i alias s (replied unsupported_model) = ⊥

  -- The models of a list are called in order, from the place `i` and state `s` to the place `j` and
  -- state `t`, and each gives up.
  pub data Exhausted : ℕ → List ModelAlias → RouterState → ℕ → RouterState → Type 0 where
    none_left : {i : ℕ} {s : RouterState} → Exhausted i [] s i s
    one_more :
        {i j seconds : ℕ} {alias : ModelAlias} {rest : List ModelAlias} {s s' t : RouterState}
        → tried_at worlds rejected session fuel i alias s ≡ (s', exhausted seconds)
        → Explained i alias s (exhausted seconds)
        → Exhausted (i + 1) rest s' j t
        → Exhausted i (alias ∷ rest) s j t

  -- A model replies to which the models before it pass the request on.
  pub record FirstReply (i : ℕ) (aliases : List ModelAlias) (s t : RouterState) (r : Reply)
      : Type 0 where
    pub before : List ModelAlias
    pub chosen : ModelAlias
    pub after : List ModelAlias
    pub place : ℕ
    pub reached : RouterState
    pub split : aliases ≡ before ++ chosen ∷ after
    pub passed : Exhausted i before s place reached
    pub replies : tried_at worlds rejected session fuel place chosen reached ≡ (t, replied r)
    pub explained : Explained place chosen reached (replied r)

-- ===== src/Dispatch/Failover.antt =====
-- The failover over the physical models of a name, as `responses_inner` and
-- `responses_alias_dispatch` of src/routes/responses.rs do it for a request that is not streamed:
-- the models are called in order, and only a call that gives up passes the request on.
-- `worlds` holds what each call meets, and `rejected` the error of a request that cannot be translated
-- for a provider without the Responses endpoint.
pub mod Replies
use llm_provider_router.Prelude.{
  ℕ, ◌+◌, ◌*◌, ◌<◌, ◌≤◌, length, true, false, All, Bool-cases, if-split, elim-cases, subst, arith,
  Text, Option, none, some, List, [], ◌∷◌, ◌++◌, ◌≡◌, ap, if◌then◌else◌,
}
use llm_provider_router.Config.{ModelAlias, supports_responses}
use llm_provider_router.Router.State.{RouterState}
use llm_provider_router.Dispatch.{
  World, Endpoint, responses_passthrough, responses_translated, lacks_endpoint, call,
  call_responses_passthrough, call_upstream_responses, Outcome, served, aborted, no_available,
  no_endpoint, out_of_fuel,
}
use llm_provider_router.Dispatch.Kept.{Calm, call-keeps}
use llm_provider_router.Dispatch.Progress.{Sound, Sound-KeptBySteps}
use llm_provider_router.Dispatch.Calls.{EndsJustified, call_answers}

pub data Reply : Type 0 where
  answered : Outcome → Reply
  invalid_request : Text → Reply
  all_keys_frozen : ℕ → Reply
  unsupported_model : Reply

-- `Err(NoAvailable)` of one model, or its response.
pub data Dispatched : Type 0 where
  replied : Reply → Dispatched
  exhausted : ℕ → Dispatched

dispatched : Outcome → Dispatched
dispatched (no_available seconds) = exhausted seconds
dispatched (served k status content) = replied (answered (served k status content))
dispatched (aborted status content) = replied (answered (aborted status content))
dispatched no_endpoint = replied (answered no_endpoint)
dispatched out_of_fuel = replied (answered out_of_fuel)

pub responses_alias_dispatch :
    World → Option Text → ModelAlias → Option Text → ℕ → RouterState → RouterState × Dispatched
unfolding dispatched
responses_alias_dispatch world rejected alias session fuel s =
    let (s1, passed) = call_responses_passthrough world alias session fuel s in
    let (s2, chat) = call_upstream_responses world alias session fuel s in
    if supports_responses alias then (s1, dispatched passed) else elim rejected [
      | none ↦ (s2, dispatched chat)
      | some message ↦ (s, replied (invalid_request message))
    ]

-- `last_frozen`, at the end of the models.
abbrev pub give_up : Option ℕ → Reply
give_up none = unsupported_model
give_up (some seconds) = all_keys_frozen seconds

module _ (worlds : ℕ → World) (rejected : Option Text) (session : Option Text) (fuel : ℕ) where
  abbrev tried_at : ℕ → ModelAlias → RouterState → RouterState × Dispatched
  tried_at i alias s = responses_alias_dispatch (worlds i) rejected alias session fuel s

  -- The models from the place `i` on.
  pub route_responses : ℕ → Option ℕ → List ModelAlias → RouterState → RouterState × Reply
  route_responses i last_frozen [] s = (s, give_up last_frozen)
  route_responses i last_frozen (alias ∷ rest) s =
      let (s', d) = tried_at i alias s in
      elim d [
        | replied r ↦ (s', r)
        | exhausted seconds ↦ route_responses (i + 1) (some seconds) rest s'
      ]

  -- The refusal after the last model.
  abbrev pub Refused : Option ℕ → List ModelAlias → Reply → Type 0
  Refused last [] r = r ≡ give_up last
  Refused last (alias ∷ rest) r = (seconds : ℕ) × (r ≡ all_keys_frozen seconds)

-- ===== src/Dispatch/Health.antt =====
-- Where the upstream is healthy and a key is usable, a call is served at once.
use llm_provider_router.Prelude.{
  ℕ, suc, ◌<◌, Text, true, false, Option, some, List, [], leb, ◌≡◌, refl, inl, inr, arith,
  text_equality, MemberOf, All-MemberOf,
}
use llm_provider_router.Prelude.Json.{Json}
use llm_provider_router.Prelude.Dict.{Distinct}
use llm_provider_router.Config.{KeyRef, ModelAlias}
use llm_provider_router.Router.State.{RouterState}
use llm_provider_router.Router.Select.{Selected, selected, no_available_key, select_key_excluding}
use llm_provider_router.Router.Select.Candidates.{usable}
use llm_provider_router.Router.Select.Answer.{Answers, select_key_Answers}
use llm_provider_router.Dispatch.{
  Endpoint, Answer, upstream_key_value, send_upstream, on_answer, Round, World, Trial, fresh_trial,
  Outcome, served, Turn, again, stop, with_key, on_selected, play, loop, call, lacks_endpoint,
}
use llm_provider_router.Dispatch.Kept.{turn-cases}

-- The upstream answers every key of the pool at the first attempt, with a status below 400, and the
-- keys have stored values.
abbrev pub Healthy : Round → List KeyRef → Type 0
Healthy round keys =
    (k : KeyRef)
    → MemberOf k keys
    → (value : Text) × (answer : Answer) × (upstream_key_value round.api_keys k ≡ some value)
      × (send_upstream round k ≡ some answer)
      × (answer.status < 400)

module _ (world : World) (endpoint : Endpoint) (alias : ModelAlias) (session : Option Text) where
  abbrev pub IsServed : Outcome → Type 0
  IsServed o =
      (k : KeyRef) × (status : ℕ) × (content : Json) × MemberOf k alias.keys
      × (o ≡ served k status content)

  abbrev StopsServed : Turn → Type 0
  StopsServed (again s t) = ⊥
  StopsServed (stop s o) = IsServed o

  with_key-StopsServed :
      (round : Round) (k : KeyRef) (t : Trial) (s : RouterState)
      → Healthy round alias.keys
      → MemberOf k alias.keys
      → StopsServed (with_key world.from_str endpoint round alias session k t s)
  unfolding with_key on_answer
  with_key-StopsServed round k t s h m =
      let (value, answer, v, a, l) = h k m in
      let low : leb 400 answer.status ≡ false = ground (arith, l) in
      rw (v, a, low, with_key, on_answer) (k, answer.status, _, m, refl)

  on_selected-StopsServed :
      (round : Round) (t : Trial) (s : RouterState) (g : KeyRef) (r : RouterState × Selected)
      → Healthy round alias.keys
      → MemberOf g alias.keys
      → usable round.selected_at t.tried s g ≡ true
      → s.store.conn_ok ≡ true
      → Answers round.selected_at t.tried alias.keys s r.1
      → StopsServed (on_selected world.from_str endpoint round alias session t r)
  unfolding on_selected
  on_selected-StopsServed round t s g (u, selected k) h m e ok a =
      with_key-StopsServed round k _ u h a.0
  on_selected-StopsServed round t s g (u, no_available_key w) h m e ok (inl none_usable) = absurd (
      ground (
        arith,
        e,
        All-MemberOf (λ k. usable round.selected_at t.tried s k ≡ false) alias.keys g none_usable m,
      ))
  on_selected-StopsServed round t s g (u, no_available_key w) h m e ok (inr bad) =
      absurd (ground (arith, ok, bad))

  -- A call is answered in its first round with a success by a key of the pool, if the pool has a key
  -- that is usable when it starts, the store works, the provider has the endpoint, and the upstream
  -- is healthy for the keys of the pool. The freezes have distinct keys.
  pub call-IsServed :
      (fuel : ℕ) (s : RouterState) (g : KeyRef)
      → lacks_endpoint endpoint alias ≡ false
      → Distinct ((world.rounds 0).others_before s).frozen
      → ((world.rounds 0).others_before s).store.conn_ok ≡ true
      → MemberOf g alias.keys
      → usable (world.rounds 0).selected_at [] ((world.rounds 0).others_before s) g ≡ true
      → Healthy (world.rounds 0) alias.keys
      → IsServed (call world endpoint alias session (suc fuel) s).1
  unfolding call loop play
  call-IsServed fuel s g there d ok m e h =
      let round = world.rounds 0 in
      let t = round.others_before s in
      let r = select_key_excluding round.env round.selected_at alias session [] t in
      let stops =
        on_selected-StopsServed round fresh_trial t g r h m e ok
          (select_key_Answers round.env round.selected_at alias [] session t d) in
      elim (turn-cases (on_selected world.from_str endpoint round alias session fresh_trial r)) [
        | inl (s', u, q) ↦ absurd (rw q at stops)
        | inr (s', o, q) ↦ rw (there, q, loop, play) (rw q at stops)
      ]

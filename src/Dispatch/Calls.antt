-- ===== src/Dispatch/Calls.antt =====
-- A whole call: it ends, it tries no key twice, and what it answers is justified.
use llm_provider_router.Prelude.{
  ℕ, zero, suc, ◌+◌, ◌*◌, ◌<◌, ◌≤◌, Text, false, not, Option, List, [], ◌∷◌, length, contains, ◌≡◌,
  ◌≢◌, refl, sym, inl, inr, arith, Bool-cases, text_equality, All, MemberOf, length-filter-le,
  subst,
}
use native.Mathlib.Nat.{mul-le-mul_right}
use llm_provider_router.Config.{KeyRef, ModelAlias}
use llm_provider_router.Router.State.{RouterState}
use llm_provider_router.Router.State.Mirror.Steps.{InStep, InStep-KeptBySteps}
use llm_provider_router.Dispatch.{
  Endpoint, World, Trial, fresh_trial, Outcome, out_of_fuel, again, play, loop, call,
  lacks_endpoint,
}
use llm_provider_router.Dispatch.Progress.{
  Sound, Sound-KeptBySteps, Extends, Justified, Played, play-Played,
}
use llm_provider_router.Dispatch.Kept.{Calm, left_state, turn-cases, play-keeps, call-keeps}
use llm_provider_router.Dispatch.Rounds.{rounds_left, InHand}

-- The trials and states that a call from `s₀` comes by, at the start of its rounds.
pub data Reached (world : World) (endpoint : Endpoint) (alias : ModelAlias) (session : Option Text)
    (s₀ : RouterState) : ℕ → Trial → RouterState → Type 0 where
  start : Reached world endpoint alias session s₀ 0 fresh_trial s₀
  next :
      {m : ℕ} {t u : Trial} {s s' : RouterState}
      → Reached world endpoint alias session s₀ m t s
      → play world.from_str endpoint (world.rounds m) alias session t s ≡ again s' u
      → Reached world endpoint alias session s₀ (m + 1) u s'

-- No name twice.
abbrev pub NoRepeat : List Text → Type 0
NoRepeat [] = Unit
NoRepeat (x ∷ xs) = (contains x xs ≡ false) × NoRepeat xs

abbrev pub NameIn : List KeyRef → Text → Type 0
NameIn keys name = (k : KeyRef) × MemberOf k keys × (k.name ≡ name)

Extends-keeps :
    (keys : List KeyRef) (old new : List Text)
    → Extends keys old new
    → NoRepeat old
    → All (NameIn keys) old
    → NoRepeat new × All (NameIn keys) new
Extends-keeps keys old new (inl e) once pool =
    (subst NoRepeat (sym e) once, subst (All (NameIn keys)) (sym e) pool)
Extends-keeps keys old new (inr (k, m, c, e)) once pool =
    (subst NoRepeat (sym e) (c, once), subst (All (NameIn keys)) (sym e) ((k, m, refl), pool))

module _ (n : ℕ) (some_attempt : 1 ≤ n) (world : World) (endpoint : Endpoint) (alias : ModelAlias)
    (session : Option Text) (calm : Calm (Sound n) world) where
  -- The outcome is justified in a round that the call comes by, and the names tried until then are
  -- names of the pool, each only once.
  abbrev pub EndsJustified : RouterState → Outcome → Type 0
  EndsJustified s₀ o =
      (m : ℕ) × (t : Trial) × (s : RouterState) × Reached world endpoint alias session s₀ m t s
      × NoRepeat t.tried
      × All (NameIn alias.keys) t.tried
      × Justified world.from_str (world.rounds m) alias.keys t.tried
          ((world.rounds m).others_before s) o

  round_Played :
      (m : ℕ) (t : Trial) (s : RouterState)
      → Sound n s
      → InHand n alias.keys t
      → Played n some_attempt world.from_str alias
          (world.rounds m)
          t
          ((world.rounds m).others_before s)
          (play world.from_str endpoint (world.rounds m) alias session t s)
  round_Played m t s h hand =
      play-Played n some_attempt world.from_str endpoint alias (world.rounds m) session (calm m) t s
        h hand

  -- In every round of a call the names that were tried are names of the pool, each only once, and a
  -- key in hand has an attempt left.
  pub tried_once :
      (s₀ : RouterState) (m : ℕ) (t : Trial) (s : RouterState)
      → Sound n s₀
      → Reached world endpoint alias session s₀ m t s
      → NoRepeat t.tried × All (NameIn alias.keys) t.tried × InHand n alias.keys t × Sound n s
  tried_once s₀ m t s h start = (tt, tt, tt, h)
  tried_once s₀ m t s h (next {m = k} {t = u} {s = s1} r e) =
      let (once, pool, hand, sound) = tried_once s₀ k u s1 h r in
      let p = round_Played k u s1 sound hand in
      let q =
        play-keeps (Sound n) (Sound-KeptBySteps n) world.from_str endpoint (world.rounds k) alias
          session (calm k) u s1 sound in
      let (hand', less, more) = rw e at p in
      let (once', pool') = Extends-keeps alias.keys u.tried t.tried more once pool in
      (once', pool', hand', subst (λ turn. Sound n (left_state turn)) e q)

  -- The loop from a round that the call comes by.
  loop_ends :
      (s₀ : RouterState) (fuel m : ℕ) (t : Trial) (s : RouterState)
      → Sound n s₀
      → Reached world endpoint alias session s₀ m t s
      → rounds_left n alias.keys t < fuel
      → EndsJustified s₀ (loop world endpoint alias session fuel m t s).1
  unfolding loop
  loop_ends s₀ zero m t s h r f = absurd (omega (arith, f))
  loop_ends s₀ (suc fuel) m t s h r f =
      let (once, pool, hand, sound) = tried_once s₀ m t s h r in
      let p = round_Played m t s sound hand in
      elim (turn-cases (play world.from_str endpoint (world.rounds m) alias session t s)) [
        | inl (s', t', e) ↦
            let (hand', less, more) = rw e at p in
            rw (e, loop) (loop_ends s₀ fuel (m + 1) t' s' h (next r e) (omega (arith, less, f)))
        | inr (s', o, e) ↦ rw (e, loop) (m, t, s, r, once, pool, rw e at p)
      ]

  rounds_of_pool : (keys : List KeyRef) → rounds_left n keys fresh_trial ≤ length keys * n
  rounds_of_pool keys =
      omega (
        arith,
        mul-le-mul_right n (length-filter-le (λ (k : KeyRef). not (contains k.name [])) keys),
      )

  -- With fuel above the keys of the pool times the attempts that the rules allow for one key, a call
  -- for a provider with the endpoint ends, and its outcome is justified in a round that it comes by,
  -- until which no key was tried twice, and only keys of the pool:
  -- a success has the status, below 400, and the content of an answer that the upstream gave in that
  -- round to a key of the pool with a stored value, an error of an upstream those of such an answer
  -- with a status of 400 or more, and it gives up only if every key of the pool was tried, or is
  -- frozen, or has no positive weight, or else the store failed. Other requests may change the state before and
  -- during every round, as long as they keep the freezes distinct and the allowed attempts bounded.
  pub call_answers :
      (fuel : ℕ) (s₀ : RouterState)
      → Sound n s₀
      → lacks_endpoint endpoint alias ≡ false
      → length alias.keys * n < fuel
      → EndsJustified s₀ (call world endpoint alias session fuel s₀).1
  unfolding call
  call_answers fuel s₀ h there f =
      rw there
        (loop_ends s₀ fuel 0 fresh_trial s₀ h start (omega (arith, f, rounds_of_pool alias.keys)))

  -- With that fuel a call never runs out of it, whatever the endpoint.
  pub call_ends :
      (fuel : ℕ) (s₀ : RouterState)
      → Sound n s₀
      → length alias.keys * n < fuel
      → (call world endpoint alias session fuel s₀).1 ≢ out_of_fuel
  unfolding call
  call_ends fuel s₀ h f = elim (Bool-cases (lacks_endpoint endpoint alias)) [
    | inl e ↦ λ q. ground (arith, q, e)
    | inr e ↦ λ q. (subst (EndsJustified s₀) q (call_answers fuel s₀ h e f)).6
  ]

-- In a call the tables of the state store stay a mirror of the memory, with no row of an unsupported
-- model twice, as long as other requests keep them so.
pub call_mirrors :
    (world : World) (endpoint : Endpoint) (alias : ModelAlias) (session : Option Text) (fuel : ℕ)
    (s : RouterState)
    → Calm InStep world
    → InStep s
    → InStep (call world endpoint alias session fuel s).0
call_mirrors world endpoint alias session fuel s calm =
    call-keeps InStep InStep-KeptBySteps world endpoint alias session calm fuel s

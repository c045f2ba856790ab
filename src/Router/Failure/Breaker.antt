-- ===== src/Router/Failure/Breaker.antt =====
-- The circuit breaker, and the freeze of the keys that failed beside a success.
use llm_provider_router.Prelude.{
  any, ◌==◌, max, if◌then◌else◌, ℕ, ◌+◌, ◌<◌, subst, Text, text, true, ◌≡◌, refl, ◌∙◌, Option, List,
  [], ◌∷◌, arith, text_equality, pair_eq, beq_refl, inl, inr, MemberOf, ◌⊎◌,
}
use llm_provider_router.Prelude.Int.{positive}
use llm_provider_router.Prelude.Dict.{Distinct, Distinct-remove, lookup}
use llm_provider_router.Config.{KeyRef, ModelAlias}
use llm_provider_router.Router.Freeze.{Env, key_state_id}
use llm_provider_router.Router.State.{RouterState, freeze, tunables, is_frozen}
use llm_provider_router.Router.State.Frozen.{
  hot, unwrap_until, freeze_never_shortens, is_frozen-hot, is_frozen-SameView,
}
use llm_provider_router.Router.Select.{Selected, selected, no_available_key, select_key_excluding}
use llm_provider_router.Router.Select.Answer.{Answers, select_key_Answers}
use llm_provider_router.Router.Failure.{
  freeze_each, note_success_differential, break_key, break_keys, circuit_breaker_on_exhaustion,
}
use llm_provider_router.Router.Failure.Effects.{hot-until, freeze-Distinct}

freeze_keeps :
    (now : ℕ) (k j reason : Text) (until : ℕ) (s : RouterState)
    → hot now s.frozen j ≡ true
    → hot now (freeze k until reason s).0.frozen j ≡ true
freeze_keeps now k j reason until s h = ground (
  arith,
  hot-until now s.frozen j,
  hot-until now (freeze k until reason s).0.frozen j,
  freeze_never_shortens k j reason until s,
)

break_key-hot :
    (now until : ℕ) (k : KeyRef) (s : RouterState) (j : Text)
    → hot now s.frozen j ≡ true
    → hot now (break_key now until k s).frozen j ≡ true
unfolding break_key
break_key-hot now until k s j h =
    let v = is_frozen-SameView now (key_state_id k) s in
    let s' = (is_frozen now (key_state_id k) s).0 in
    ground
      (arith, v.hot_eq j, freeze_keeps now (key_state_id k) j (text "transient_exhausted") until s')

break_key-own :
    (now until : ℕ) (k : KeyRef) (s : RouterState)
    → now < until
    → s.store.conn_ok ≡ true
    → hot now (break_key now until k s).frozen (key_state_id k) ≡ true
unfolding break_key
break_key-own now until k s later ok =
    let v = is_frozen-SameView now (key_state_id k) s in
    let s' = (is_frozen now (key_state_id k) s).0 in
    ground (
      arith,
      v.hot_eq (key_state_id k),
      is_frozen-hot now (key_state_id k) s,
      hot-until now (freeze (key_state_id k) until (text "transient_exhausted") s').0.frozen
          (key_state_id k),
      freeze_never_shortens (key_state_id k) (key_state_id k) (text "transient_exhausted") until s',
      beq_refl (key_state_id k),
    )

freeze-conn :
    (k reason : Text) (until : ℕ) (s : RouterState)
    → (freeze k until reason s).0.store.conn_ok ≡ s.store.conn_ok
unfolding freeze
freeze-conn k reason until s = ground arith

break_key-conn :
    (now until : ℕ) (k : KeyRef) (s : RouterState)
    → (break_key now until k s).store.conn_ok ≡ s.store.conn_ok
unfolding break_key
break_key-conn now until k s =
    let v = is_frozen-SameView now (key_state_id k) s in
    ground (
      arith,
      v.conn_eq,
      freeze-conn (key_state_id k) (text "transient_exhausted") until
          (is_frozen now (key_state_id k) s).0,
    )

break_keys-keeps :
    (now until : ℕ) (ks : List KeyRef) (s : RouterState) (j : Text)
    → hot now s.frozen j ≡ true
    → hot now (break_keys now until ks s).frozen j ≡ true
unfolding break_keys
break_keys-keeps now until [] s j h = h
break_keys-keeps now until (k ∷ ks) s j h = ground (
  arith,
  break_keys-keeps now until ks s j h,
  break_keys-keeps now until ks (break_key now until k s) j (break_key-hot now until k s j h),
)

break_keys-hot :
    (now until : ℕ) (ks : List KeyRef) (s : RouterState) (k : KeyRef)
    → now < until
    → s.store.conn_ok ≡ true
    → MemberOf k ks
    → positive k.weight ≡ true
    → hot now (break_keys now until ks s).frozen (key_state_id k) ≡ true
unfolding break_keys
break_keys-hot now until [] s k later ok m p = elim m [ ]
break_keys-hot now until (x ∷ ks) s k later ok (inl e) p = ground (
  arith,
  e,
  break_keys-keeps now until ks (break_key now until x s) (key_state_id x)
      (break_key-own now until x s later ok),
)
break_keys-hot now until (x ∷ ks) s k later ok (inr m) p = ground (
  arith,
  break_keys-hot now until ks s k later ok m p,
  break_keys-hot now until ks (break_key now until x s) k later (break_key-conn now until x s ∙ ok)
      m p,
)

is_frozen-Distinct :
    (now : ℕ) (k : Text) (s : RouterState)
    → Distinct s.frozen
    → Distinct (is_frozen now k s).0.frozen
unfolding is_frozen
is_frozen-Distinct now k s d = ground (arith, Distinct-remove k s.frozen d)

break_key-Distinct :
    (now until : ℕ) (k : KeyRef) (s : RouterState)
    → Distinct s.frozen
    → Distinct (break_key now until k s).frozen
unfolding break_key
break_key-Distinct now until k s d =
    let s' = (is_frozen now (key_state_id k) s).0 in
    let d' = is_frozen-Distinct now (key_state_id k) s d in
    ground (arith, d', freeze-Distinct (key_state_id k) (text "transient_exhausted") until s' d')

break_keys-Distinct :
    (now until : ℕ) (ks : List KeyRef) (s : RouterState)
    → Distinct s.frozen
    → Distinct (break_keys now until ks s).frozen
unfolding break_keys
break_keys-Distinct now until [] s d = d
break_keys-Distinct now until (k ∷ ks) s d = ground (
  arith,
  break_keys-Distinct now until ks s d,
  break_keys-Distinct now until ks (break_key now until k s) (break_key-Distinct now until k s d),
)

selected-cases :
    (r : Selected) → ((k : KeyRef) × (r ≡ selected k)) ⊎ ((n : ℕ) × (r ≡ no_available_key n))
selected-cases (selected k) = inl (k, refl)
selected-cases (no_available_key n) = inr (n, refl)

-- A pool whose positive keys are all frozen is refused.
refused :
    (env : Env) (now : ℕ) (alias : ModelAlias) (excluded : List Text) (session : Option Text)
    (s : RouterState)
    → Distinct s.frozen
    → ((k : KeyRef)
        → MemberOf k alias.keys
        → positive k.weight ≡ true
        → hot now s.frozen (key_state_id k) ≡ true)
    → (seconds : ℕ) × ((select_key_excluding env now alias session excluded s).1
        ≡ no_available_key seconds)
refused env now alias excluded session s d h =
    elim (selected-cases (select_key_excluding env now alias session excluded s).1) [
      | inr (n, e) ↦ (n, e)
      | inl (k, e) ↦
          let a : Answers now excluded alias.keys s (selected k) =
            subst (Answers now excluded alias.keys s) e
              (select_key_Answers env now alias excluded session s d) in
          absurd (ground (arith, a.1, h k a.0))
    ]

-- After the breaker no selection of the same moment finds a key in the pool, for any session and
-- exclusion: with the breaker configured, the store working, and distinct keys in the freezes.
pub circuit_breaker_opens :
    (env : Env) (now : ℕ) (alias : ModelAlias) (excluded : List Text) (session : Option Text)
    (s : RouterState)
    → Distinct s.frozen
    → s.store.conn_ok ≡ true
    → 0 < (tunables s).transient_exhausted_freeze
    → (seconds : ℕ) × ((select_key_excluding env now alias session excluded
          (circuit_breaker_on_exhaustion now alias s)).1
        ≡ no_available_key seconds)
unfolding circuit_breaker_on_exhaustion
circuit_breaker_opens env now alias excluded session s d ok on =
    let until : ℕ = now + (tunables s).transient_exhausted_freeze in
    let s' = break_keys now until alias.keys s in
    let e : circuit_breaker_on_exhaustion now alias s ≡ s' = ground arith in
    let d' = break_keys-Distinct now until alias.keys s d in
    refused env now alias excluded session (circuit_breaker_on_exhaustion now alias s) (rw e d')
      (λ k m p. rw e (break_keys-hot now until alias.keys s k (omega arith) ok m p))

freeze_each_end :
    (until : ℕ) (reason : Text) (ks : List KeyRef) (s : RouterState) (j : Text)
    → unwrap_until (lookup j (freeze_each until reason ks s).frozen) ≡ (
        if any (λ k. key_state_id k == j) ks
        then max (unwrap_until (lookup j s.frozen)) until
        else unwrap_until (lookup j s.frozen))
unfolding freeze_each any
freeze_each_end until reason [] s j = refl
freeze_each_end until reason (k ∷ ks) s j = ground (
  arith,
  freeze_each_end until reason ks (freeze (key_state_id k) until reason s).0 j,
  freeze_never_shortens (key_state_id k) j reason until s,
)

-- When another key served the request, exactly the keys that failed in it are frozen, until the
-- later of their old freeze and the end of the differential freeze.
pub success_differential_freezes :
    (now : ℕ) (ambiguous : List KeyRef) (s : RouterState) (j : Text)
    → unwrap_until (lookup j (note_success_differential now ambiguous s).frozen) ≡ (
        if any (λ k. key_state_id k == j) ambiguous
        then max (unwrap_until (lookup j s.frozen)) (now + (tunables s).differential_freeze)
        else unwrap_until (lookup j s.frozen))
unfolding note_success_differential
success_differential_freezes now ambiguous s j =
    freeze_each_end (now + (tunables s).differential_freeze) (text "differential_peer_success")
      ambiguous s j

-- ===== src/Dispatch/Rounds.antt =====
-- What one round makes of the loop's variables: it ends the call, or it retries the key while the
-- rules allow it, or it is through with one more key of the pool.
use llm_provider_router.Prelude.{
  ℕ, ◌+◌, ◌-◌, ◌*◌, ◌<◌, ◌≤◌, Text, false, not, Option, none, some, List, [], ◌∷◌, leb, length,
  filter, contains, ◌≡◌, refl, ◌⊎◌, inl, inr, elim-cases, arith, Bool-cases, text_equality,
  text_eq_iff, text_eq, text, MemberOf, Option-cases, sym, subst, zero, suc,
}
use llm_provider_router.Prelude.Json.{Json, string, get}
use llm_provider_router.Usage.{◌>>=◌}
use llm_provider_router.Config.{KeyRef, ModelAlias}
use llm_provider_router.Router.State.{RouterState}
use llm_provider_router.Router.State.Lasting.{attempts}
use llm_provider_router.Router.Failure.{
  FailureAction, failure_content, next_key, next_key_transient, retry_same, abort,
}
use llm_provider_router.Router.Failure.Embedded.{FromStr}
use llm_provider_router.Router.Failure.Patience.{
  Patient, response_failure-Patient, connect_failure_moves_on,
}
use llm_provider_router.Dispatch.{
  Endpoint, Answer, Round, Trial, Outcome, served, aborted, no_available, no_endpoint, out_of_fuel,
  Turn, again, stop, act, on_answer, on_connect_failure, with_key, upstream_key_value,
  send_upstream, send_from, content_of, should_retry_upstream_send,
}

-- The pool's keys whose names were not tried.
abbrev pub untried : List Text → List KeyRef → ℕ
untried tried keys = length (filter (λ (k : KeyRef). not (contains k.name tried)) keys)

untried-le :
    (name : Text) (tried : List Text) (keys : List KeyRef)
    → untried (name ∷ tried) keys ≤ untried tried keys
unfolding filter contains
untried-le name tried [] = omega arith
untried-le name tried (k ∷ keys) = ground (arith, untried-le name tried keys)

-- A key that was not tried leaves the count when it is.
pub untried-falls :
    (key : KeyRef) (tried : List Text) (keys : List KeyRef)
    → MemberOf key keys
    → contains key.name tried ≡ false
    → untried (key.name ∷ tried) keys < untried tried keys
unfolding filter contains
untried-falls key tried [] m e = elim m [ ]
untried-falls key tried (k ∷ keys) (inl q) e =
    let same : k.name ≡ key.name = ground (arith, q) in
    ground (arith, same, text_eq_iff key.name k.name, untried-le key.name tried keys)
untried-falls key tried (k ∷ keys) (inr m) e =
    ground (arith, untried-falls key tried keys m e, text_eq_iff key.name k.name)

-- The attempts that a key in hand has left.
abbrev pub attempts_left : ℕ → Trial → ℕ
attempts_left n t = elim t.retry_key [ none ↦ 0 | some k ↦ n - (t.same_key_attempt + 1) ]

-- The rounds that may follow, where a key may have `n` attempts.
abbrev pub rounds_left : ℕ → List KeyRef → Trial → ℕ
rounds_left n keys t = untried t.tried keys * n + attempts_left n t

-- A key in hand is a key of the pool, and has an attempt left.
abbrev pub InHand : ℕ → List KeyRef → Trial → Type 0
InHand n keys t = elim t.retry_key as (λ o. Type 0) [
  | none ↦ Unit
  | some k ↦ MemberOf k keys × (t.same_key_attempt + 1 < n)
]

-- The content is the body read as JSON, or, for a body that is none, an error object whose message is
-- the body.
abbrev pub Carries : FromStr → Text → Json → Type 0
Carries from_str body content =
    (from_str body ≡ some content)
    ⊎ ((from_str body ≡ none)
        × ((get (text "error") content >>= get (text "message")) ≡ some (string body)))

-- The upstream gave this answer to a request with the key, which has a stored value.
abbrev pub AnsweredBy : FromStr → Round → KeyRef → ℕ → Json → Type 0
AnsweredBy from_str round key status content =
    (value : Text) × (attempt : ℕ) × (answer : Answer) × (upstream_key_value round.api_keys key
      ≡ some value)
    × (round.send key attempt ≡ some answer)
    × (answer.status ≡ status)
    × Carries from_str answer.body content

-- The ends of a round that has a key.
abbrev pub EndsWith : FromStr → Round → KeyRef → Outcome → Type 0
EndsWith from_str round key (served k status content) =
    (k ≡ key) × (status < 400) × AnsweredBy from_str round key status content
EndsWith from_str round key (aborted status content) =
    (400 ≤ status) × AnsweredBy from_str round key status content
EndsWith from_str round key (no_available seconds) = ⊥
EndsWith from_str round key no_endpoint = ⊥
EndsWith from_str round key out_of_fuel = ⊥

-- A round with the key `key`, from a trial `t` without a key to retry.
abbrev pub After : FromStr → Round → ℕ → KeyRef → Trial → Turn → Type 0
After from_str round n key t (again s u) =
    (u.tried ≡ t.tried)
    × (u.same_key_attempt ≡ t.same_key_attempt)
    × ((u.retry_key ≡ none) ⊎ ((u.retry_key ≡ some key) × (t.same_key_attempt + 1 < n)))
After from_str round n key t (stop s o) = EndsWith from_str round key o

content_of-Carries :
    (from_str : FromStr) (endpoint : Endpoint) (body : Text)
    → Carries from_str body (content_of from_str endpoint body)
unfolding content_of text text_eq get
content_of-Carries from_str endpoint body = elim (Option-cases (from_str body)) [
  | inl e ↦ inr (e, rw e refl)
  | inr (v, e) ↦ inl (ground (arith, e))
]

failure_content-Carries :
    (from_str : FromStr) (body : Text)
    → Carries from_str body (failure_content (record { text_of = body; json = from_str body }))
unfolding failure_content text text_eq get
failure_content-Carries from_str body = elim (Option-cases (from_str body)) [
  | inl e ↦ inr (e, rw e refl)
  | inr (v, e) ↦ inl (ground (arith, e))
]

send_from-some :
    (round : Round) (key : KeyRef) (attempt left : ℕ) (answer : Answer)
    → send_from round key attempt left ≡ some answer
    → (n : ℕ) × (round.send key n ≡ some answer)
unfolding send_from
send_from-some round key attempt zero answer h = cc
send_from-some round key attempt (suc left) answer h =
    elim (Option-cases (round.send key attempt)) [
      | inr (a, e) ↦ (attempt, ground (arith, e, h))
      | inl e ↦ elim (Bool-cases (should_retry_upstream_send attempt)) [
        | inl again_sent ↦
            send_from-some round key (attempt + 1) left answer (ground (arith, e, again_sent, h))
        | inr last_sent ↦ absurd (ground (arith, e, last_sent, h))
      ]
    ]

send_upstream-some :
    (round : Round) (key : KeyRef) (answer : Answer)
    → send_upstream round key ≡ some answer
    → (n : ℕ) × (round.send key n ≡ some answer)
unfolding send_upstream
send_upstream-some round key answer h = send_from-some round key 0 2 answer h

module _ (from_str : FromStr) (round : Round) (n : ℕ) (key : KeyRef) (t : Trial)
    (fresh : t.retry_key ≡ none) where
  act-After :
      (status : ℕ) (body : Json) (r : RouterState × FailureAction)
      → 400 ≤ status
      → ((st : ℕ) (c : Json) → st ≡ status → c ≡ body → AnsweredBy from_str round key st c)
      → Patient n t.same_key_attempt status body r.1
      → After from_str round n key t (act key t r)
  unfolding act
  act-After status body (s, next_key m) h a p = (refl, refl, inl fresh)
  act-After status body (s, next_key_transient m) h a p = (refl, refl, inl fresh)
  act-After status body (s, retry_same d m) h a p = (refl, refl, inr (refl, p))
  act-After status body (s, abort st m c) h a p = (ground (arith, p, h), a st c p.0 p.1)

  module _ (endpoint : Endpoint) (alias : ModelAlias) (session : Option Text) where
    on_answer-After :
        (value : Text) (attempt : ℕ) (answer : Answer) (s : RouterState)
        → upstream_key_value round.api_keys key ≡ some value
        → round.send key attempt ≡ some answer
        → attempts s ≤ n
        → After from_str round n key t
            (on_answer from_str endpoint round alias session key t answer s)
    unfolding on_answer
    on_answer-After value attempt answer s v sent h = elim (Bool-cases (leb 400 answer.status)) [
      | inl e ↦ rw e (
          act-After answer.status
            (failure_content (record { text_of = answer.body; json = from_str answer.body })) _
            (ground arith)
            (λ st c p q. (
              value,
              attempt,
              answer,
              v,
              sent,
              sym p,
              subst (Carries from_str answer.body) (sym q)
                  (failure_content-Carries from_str answer.body),
            ))
            (response_failure-Patient round.env round.answered_at alias key answer.status
              answer.retry_after _ n t.same_key_attempt _ session s h))
      | inr e ↦ rw e (
        refl,
        ground arith,
        (value, attempt, answer, v, sent, refl, content_of-Carries from_str endpoint answer.body),
      )
    ]

    connect_failure-After :
        (s : RouterState)
        → After from_str round n key t (on_connect_failure round alias session key t s)
    unfolding on_connect_failure act
    connect_failure-After s =
        let moved =
          connect_failure_moves_on round.answered_at alias key (text "upstream connect error")
            session s in
        rw (moved.1) (refl, refl, inl fresh)

    pub with_key-After :
        (s : RouterState)
        → attempts (round.others_during s) ≤ n
        → After from_str round n key t (with_key from_str endpoint round alias session key t s)
    unfolding with_key
    with_key-After s h =
        elim-cases (After from_str round n key t) (upstream_key_value round.api_keys key) _ _
          (refl, refl, inl fresh)
          (λ value v.
            elim-cases (After from_str round n key t) (send_upstream round key) _ _
              (connect_failure-After (round.others_during s))
              (λ answer e.
                let (attempt, sent) = send_upstream-some round key answer e in
                on_answer-After value attempt answer _ v sent h))

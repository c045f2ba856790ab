-- ===== src/Dispatch/Progress.antt =====
-- What a round comes to from any state: an outcome that is justified, or a step closer to the end.
use llm_provider_router.Prelude.{
  ℕ, ◌+◌, ◌-◌, ◌*◌, ◌<◌, ◌≤◌, Text, false, Option, none, some, List, ◌∷◌, contains, ◌≡◌, refl, sym,
  ◌∙◌, ◌⊎◌, inl, inr, elim-split, arith, text_equality, All, MemberOf, subst, ap,
}
use native.Mathlib.Nat.{mul-le-mul_right}
use llm_provider_router.Prelude.Dict.{Distinct}
use llm_provider_router.Config.{KeyRef, ModelAlias}
use llm_provider_router.Router.State.{RouterState}
use llm_provider_router.Router.State.Steps.{KeptBySteps, both_kept}
use llm_provider_router.Router.State.Lasting.{attempts, attempts-KeptBySteps, Distinct-KeptBySteps}
use llm_provider_router.Router.Select.{Selected, selected, no_available_key, select_key_excluding}
use llm_provider_router.Router.Select.Candidates.{usable}
use llm_provider_router.Router.Select.Answer.{Answers, select_key_Answers}
use llm_provider_router.Router.Select.Kept.{select_key-keeps}
use llm_provider_router.Router.Failure.Embedded.{FromStr}
use llm_provider_router.Dispatch.{
  Endpoint, Round, Trial, Outcome, served, aborted, no_available, no_endpoint, out_of_fuel, Turn,
  again, stop, with_key, on_selected, play,
}
use llm_provider_router.Dispatch.Rounds.{
  AnsweredBy, untried, untried-falls, attempts_left, rounds_left, InHand, EndsWith, After,
  with_key-After,
}

-- No key twice in the freezes, and at most `n` attempts for one key.
abbrev pub Sound : ℕ → RouterState → Type 0
Sound n s = Distinct s.frozen × (attempts s ≤ n)

pub Sound-KeptBySteps : (n : ℕ) → KeptBySteps (Sound n)
Sound-KeptBySteps n = both_kept Distinct-KeptBySteps (attempts-KeptBySteps n)

-- The names tried are those from before, perhaps with one more, of a key of the pool.
abbrev pub Extends : List KeyRef → List Text → List Text → Type 0
Extends keys tried new =
    (new ≡ tried)
    ⊎ ((k : KeyRef) × MemberOf k keys × (contains k.name tried ≡ false) × (new ≡ k.name ∷ tried))

-- What justifies an outcome in a round that finds the state `s`, after the tries `tried`: a success
-- and an error of an upstream have the status and the content of an answer that the upstream gave to
-- a key of the pool, and to give up, no key of the pool may be usable that was not tried, or the store
-- failed.
abbrev pub Justified : FromStr → Round → List KeyRef → List Text → RouterState → Outcome → Type 0
Justified from_str round keys tried s (served key status content) =
    MemberOf key keys × (status < 400) × AnsweredBy from_str round key status content
Justified from_str round keys tried s (aborted status content) =
    (key : KeyRef) × MemberOf key keys
    × (400 ≤ status)
    × AnsweredBy from_str round key status content
Justified from_str round keys tried s (no_available seconds) =
    (All (λ k. usable round.selected_at tried s k ≡ false) keys) ⊎ (s.store.conn_ok ≡ false)
Justified from_str round keys tried s no_endpoint = ⊥
Justified from_str round keys tried s out_of_fuel = ⊥

EndsWith-Justified :
    (from_str : FromStr) (round : Round) (keys : List KeyRef) (tried : List Text) (s : RouterState)
    (key : KeyRef) (o : Outcome)
    → MemberOf key keys
    → EndsWith from_str round key o
    → Justified from_str round keys tried s o
EndsWith-Justified from_str round keys tried s key (served k st c) m e = (
  subst (λ (j : KeyRef). MemberOf j keys) (sym e.0) m,
  e.1,
  subst (λ (j : KeyRef). AnsweredBy from_str round j st c) (sym e.0) e.2,
)
EndsWith-Justified from_str round keys tried s key (aborted st c) m e = (key, m, e.0, e.1)
EndsWith-Justified from_str round keys tried s key (no_available w) m e = elim e [ ]
EndsWith-Justified from_str round keys tried s key no_endpoint m e = elim e [ ]
EndsWith-Justified from_str round keys tried s key out_of_fuel m e = elim e [ ]

module _ (n : ℕ) (some_attempt : 1 ≤ n) (from_str : FromStr) (alias : ModelAlias)
    (round : Round) where
  -- What a round comes to.
  abbrev pub Played : Trial → RouterState → Turn → Type 0
  Played t s (again s' u) =
      InHand n alias.keys u
      × (rounds_left n alias.keys u < rounds_left n alias.keys t)
      × Extends alias.keys t.tried u.tried
  Played t s (stop s' o) = Justified from_str round alias.keys t.tried s o

  -- The trial after a round with a key: no key in hand, or the same with an attempt less.
  resumed :
      (v : Trial) (key : KeyRef)
      → MemberOf key alias.keys
      → v.same_key_attempt < n
      → (v.retry_key ≡ none) ⊎ ((v.retry_key ≡ some key) × (v.same_key_attempt + 1 < n))
      → InHand n alias.keys v × (attempts_left n v < n - v.same_key_attempt)
  resumed v key m l (inl e) = (rw e tt, rw e (omega arith))
  resumed v key m l (inr (e, lt)) = (rw e (m, lt), rw e (omega arith))

  -- With a key in hand.
  retried-Played :
      (t u : Trial) (key : KeyRef) (s : RouterState) (turn : Turn)
      → t.retry_key ≡ some key
      → InHand n alias.keys t
      → u ≡ record t { retry_key = none; same_key_attempt = t.same_key_attempt + 1 }
      → After from_str round n key u turn
      → Played t s turn
  retried-Played t u key s (again s' v) r h q a =
      let held : MemberOf key alias.keys × (t.same_key_attempt + 1 < n) = rw r at h in
      let same : v.tried ≡ t.tried = a.0 ∙ ap (λ (x : Trial). x.tried) q in
      let next : v.same_key_attempt ≡ t.same_key_attempt + 1 =
        a.1 ∙ ap (λ (x : Trial). x.same_key_attempt) q in
      let left : attempts_left n t ≡ n - (t.same_key_attempt + 1) = rw r refl in
      let names = ap (λ x. untried x alias.keys * n) same in
      let (hand, fewer) =
        resumed v key held.0 (omega (arith, next, held.1))
          (elim a.2 [ inl e ↦ inl e | inr (e, l) ↦ inr (e, omega (arith, a.1, l)) ]) in
      (hand, omega (arith, names, left, next, fewer), inl same)
  retried-Played t u key s (stop s' o) r h q a =
      let held : MemberOf key alias.keys × (t.same_key_attempt + 1 < n) = rw r at h in
      EndsWith-Justified from_str round alias.keys t.tried s key o held.0 a

  -- With a key that was selected.
  selected-Played :
      (t u : Trial) (key : KeyRef) (s : RouterState) (turn : Turn)
      → t.retry_key ≡ none
      → MemberOf key alias.keys
      → contains key.name t.tried ≡ false
      → u ≡ record t { tried = key.name ∷ t.tried; same_key_attempt = 0 }
      → After from_str round n key u turn
      → Played t s turn
  selected-Played t u key s (again s' v) r m c q a =
      let grown : v.tried ≡ key.name ∷ t.tried = a.0 ∙ ap (λ (x : Trial). x.tried) q in
      let next : v.same_key_attempt ≡ 0 = a.1 ∙ ap (λ (x : Trial). x.same_key_attempt) q in
      let names = ap (λ x. untried x alias.keys) grown in
      let fall = untried-falls key t.tried alias.keys m c in
      let more : (untried v.tried alias.keys + 1) * n ≤ untried t.tried alias.keys * n =
        mul-le-mul_right n (omega (arith, names, fall)) in
      let (hand, fewer) =
        resumed v key m (omega (arith, next, some_attempt))
          (elim a.2 [ inl e ↦ inl e | inr (e, l) ↦ inr (e, omega (arith, a.1, l)) ]) in
      (hand, omega (arith, more, next, fewer), inr (key, m, c, grown))
  selected-Played t u key s (stop s' o) r m c q a =
      EndsWith-Justified from_str round alias.keys t.tried s key o m a

module _ (n : ℕ) (some_attempt : 1 ≤ n) (from_str : FromStr) (endpoint : Endpoint)
    (alias : ModelAlias) (round : Round) (session : Option Text)
    (quiet : (s : RouterState)
      → Sound n s
      → Sound n (round.others_before s) × Sound n (round.others_during s)) where
  on_selected-Played :
      (t : Trial) (s : RouterState) (r : RouterState × Selected)
      → t.retry_key ≡ none
      → Sound n r.0
      → Answers round.selected_at t.tried alias.keys s r.1
      → Played n some_attempt from_str alias round t s
          (on_selected from_str endpoint round alias session t r)
  unfolding on_selected
  on_selected-Played t s (u, selected key) e h a =
      let v : Trial = record t { tried = key.name ∷ t.tried; same_key_attempt = 0 } in
      selected-Played n some_attempt from_str alias round t v key s
        (with_key from_str endpoint round alias session key v u) e a.0 (ground (arith, a.1)) refl
        (with_key-After from_str round n key v e endpoint alias session u (quiet u h).1.1)
  on_selected-Played t s (u, no_available_key seconds) e h a = a

  pub play-Played :
      (t : Trial) (s : RouterState)
      → Sound n s
      → InHand n alias.keys t
      → Played n some_attempt from_str alias round t
          (round.others_before s)
          (play from_str endpoint round alias session t s)
  unfolding play
  play-Played t s h hand =
      let s' = round.others_before s in
      let h' = (quiet s h).0 in
      let chosen = select_key_excluding round.env round.selected_at alias session t.tried s' in
      elim-split (Played n some_attempt from_str alias round t s') t.retry_key _ _
        (λ e.
          on_selected-Played t s' chosen e
            (select_key-keeps (Sound n) (Sound-KeptBySteps n) round.env round.selected_at alias
              t.tried session s' h')
            (select_key_Answers round.env round.selected_at alias t.tried session s' h'.0))
        (λ key e.
          let v : Trial = record t {
            retry_key = none;
            same_key_attempt = t.same_key_attempt + 1;
          } in
          retried-Played n some_attempt from_str alias round t v key s'
            (with_key from_str endpoint round alias session key v s') e hand refl
            (with_key-After from_str round n key v refl endpoint alias session s'
              (quiet s' h').1.1))

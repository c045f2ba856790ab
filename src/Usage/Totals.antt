-- ===== src/Usage/Totals.antt =====
-- What the token totals behind quotas and usage balancing add up to.
use llm_provider_router.Prelude.{
  ℕ, ◌+◌, Text, Bool, true, false, ◌≡◌, refl, none, some, List, [], ◌∷◌, ◌++◌, arith, leb, filter,
  contains, unwrap_or, ◌==◌, text_equality, nat_eq, All, if◌then◌else◌, text_eq_iff,
}
use llm_provider_router.Prelude.Dict.{Dict, lookup, insert, lookup-insert}
use llm_provider_router.Config.{KeyRef}
use llm_provider_router.Usage.{
  UsageEvent, UsageStore, usage_key_name, zeros, accumulate, selected, key_token_totals_today,
  ◌>>=◌,
}

-- The tokens of the events of one key name, whatever else was recorded.
unfoldable pub tokens_for : Text → List UsageEvent → ℕ
tokens_for n [] = 0
tokens_for n (e ∷ es) = (if e.key_name == n then e.total_tokens else 0) + tokens_for n es

abbrev pub since : ℕ → UsageEvent → Bool
since midnight e = leb midnight e.created_at

lookup-zeros :
    (n : Text) (names : List Text)
    → lookup n (zeros names) ≡ (if contains n names then some 0 else none)
unfolding zeros contains lookup
lookup-zeros n [] = refl
lookup-zeros n (m ∷ names) = ground (arith, lookup-insert m n 0 (zeros names), lookup-zeros n names)

lookup-accumulate :
    (n : Text) (es : List UsageEvent) (t : Dict Text ℕ) (a : ℕ)
    → lookup n t ≡ some a
    → lookup n (accumulate es t) ≡ some (a + tokens_for n es)
unfolding accumulate tokens_for
lookup-accumulate n [] t a h = ground arith
lookup-accumulate n (e ∷ es) t a h =
    let sum = unwrap_or (lookup e.key_name t) 0 + e.total_tokens in
    let t' = insert e.key_name sum t in
    ground (
      arith,
      text_eq_iff e.key_name n,
      lookup-insert e.key_name n sum t,
      lookup-accumulate n es t' a,
      lookup-accumulate n es t' (a + e.total_tokens),
    )

tokens_for-selected :
    (midnight : ℕ) (n : Text) (names : List Text) (es : List UsageEvent)
    → contains n names ≡ true
    → tokens_for n (filter (selected midnight names) es) ≡ tokens_for n (filter (since midnight) es)
unfolding tokens_for filter
tokens_for-selected midnight n names [] h = refl
tokens_for-selected midnight n names (e ∷ es) h =
    ground (arith, text_eq_iff e.key_name n, tokens_for-selected midnight n names es h)

-- While SQLite answers, today's total of a requested name is the sum of the tokens of the events
-- since midnight that carry exactly this name.
pub totals_today :
    (u : UsageStore) (midnight : ℕ) (n : Text) (names : List Text)
    → u.conn_ok ≡ true
    → contains n names ≡ true
    → (key_token_totals_today u midnight names >>= lookup n)
      ≡ some (tokens_for n (filter (since midnight) u.events))
unfolding key_token_totals_today contains
totals_today u midnight n [] ok h = cc
totals_today u midnight n (m ∷ names) ok h = ground (
  arith,
  tokens_for-selected midnight n (m ∷ names) u.events h,
  lookup-zeros n (m ∷ names),
  lookup-accumulate n (filter (selected midnight (m ∷ names)) u.events) (zeros (m ∷ names)) 0,
)

-- Every event was recorded under `usage_key_name` of some key.
abbrev pub Accounted : List UsageEvent → Type 0
Accounted = All (λ e. (k : KeyRef) × (e.key_name ≡ usage_key_name k))

slash_inside : (p s : Text) → contains b'/' (p ++ b'/' ∷ s) ≡ true
unfolding contains
slash_inside [] s = refl
slash_inside (c ∷ p) s = ground (arith, slash_inside p s)

tokens_for-bare :
    (n : Text) (midnight : ℕ) (es : List UsageEvent)
    → contains b'/' n ≡ false
    → Accounted es
    → tokens_for n (filter (since midnight) es) ≡ 0
unfolding tokens_for filter usage_key_name
tokens_for-bare n midnight [] h a = refl
tokens_for-bare n midnight (e ∷ es) h ((k, q), a) = ground (
  arith,
  text_eq_iff e.key_name n,
  slash_inside k.provider k.name,
  tokens_for-bare n midnight es h a,
)

-- Events carry `provider/key`, and the totals are asked for by bare key names. So if every event
-- was recorded under `usage_key_name`, today's total of a name without a slash is 0, whatever was
-- recorded for its key.
pub bare_name_total :
    (u : UsageStore) (midnight : ℕ) (n : Text) (names : List Text)
    → u.conn_ok ≡ true
    → contains n names ≡ true
    → contains b'/' n ≡ false
    → Accounted u.events
    → (key_token_totals_today u midnight names >>= lookup n) ≡ some 0
bare_name_total u midnight n names ok h bare a =
    ground (arith, totals_today u midnight n names ok h, tokens_for-bare n midnight u.events bare a)

-- ===== src/Router/State/Backoff.antt =====
-- The two back-offs of the router state: connection streaks and unsupported models.
use llm_provider_router.Prelude.{
  ℕ, zero, suc, ◌+◌, ◌-◌, ◌*◌, ◌%◌, ◌^◌, ◌≤◌, ◌<◌, min, inl, inr, Bool-cases, Text, true, ◌≡◌, sym,
  ap, ◌∙◌, Option, none, some, List, [], ◌∷◌, ◌++◌, arith, ltb, leb, length, text_equality, pair_eq,
  beq_refl, length-append, get_elem?, unwrap_or, if◌then◌else◌,
}
use llm_provider_router.Prelude.Dict.{lookup, lookup-insert}
use llm_provider_router.StateStore.{KeyModel}
use llm_provider_router.Router.State.{
  RouterState, ConnectStreak, ErrorLogEntry, note_connect_failure_streak, streak_ttl, streak_count,
  next_unsupported, push_recent_error, recent_errors_cap, drop_front, retry_ladder,
  permanent_threshold, mark_key_model_unsupported, key_model_blocked, previous_attempt,
}

streak_ttl-capped : (base n : ℕ) → 6 ≤ n → streak_ttl base n ≡ base * 32
unfolding streak_ttl
streak_ttl-capped base n h = let e : min (n - 1) 5 ≡ 5 = omega arith in rw e (omega arith)

two_pow-positive : (n : ℕ) → 0 < 2 ^ n
two_pow-positive zero = omega arith
two_pow-positive (suc n) = omega (arith, two_pow-positive n)

mul-positive : (a b : ℕ) → 0 < a → 0 < b → 0 < a * b
mul-positive zero b p q = absurd (omega arith)
mul-positive (suc a) zero p q = absurd (omega arith)
mul-positive (suc a) (suc b) p q = omega arith

pub streak_ttl-positive : (base count : ℕ) → 0 < base → 0 < streak_ttl base count
unfolding streak_ttl
streak_ttl-positive base count h =
    let p : ℕ = 2 ^ min (count - 1) 5 in
    omega (arith, mul-positive base p h (two_pow-positive (min (count - 1) 5)))

streak_next :
    (base c : ℕ)
    → 1 ≤ c
    → streak_ttl base (min (c + 1) (2 ^ 32 - 1)) ≡ min (streak_ttl base c * 2) (base * 32)
unfolding streak_ttl
streak_next base zero h = absurd (omega arith)
streak_next base (suc zero) h = omega arith
streak_next base (suc (suc zero)) h = omega arith
streak_next base (suc (suc (suc zero))) h = omega arith
streak_next base (suc (suc (suc (suc zero)))) h = omega arith
streak_next base (suc (suc (suc (suc (suc zero))))) h = omega arith
streak_next base (suc (suc (suc (suc (suc (suc n)))))) h =
    let c : ℕ = suc (suc (suc (suc (suc (suc n))))) in
    omega (
      arith,
      streak_ttl-capped base c (omega arith),
      streak_ttl-capped base (min (c + 1) (2 ^ 32 - 1)) (omega arith),
    )

streak_count-pos : (now : ℕ) (o : Option ConnectStreak) → 1 ≤ streak_count now o
unfolding streak_count
streak_count-pos now none = omega arith
streak_count-pos now (some c) = ground arith

-- What a failure leaves: the streak that the next failure finds.
streak_left :
    (t : ℕ) (k : Text) (base : ℕ) (s : RouterState)
    → 0 < base
    → let count = streak_count t (lookup k s.connect_streaks) in
      ((note_connect_failure_streak t k base s).1 ≡ streak_ttl base count)
      × (lookup k (note_connect_failure_streak t k base s).0.connect_streaks
          ≡ some (record { count = count; last_at = t; last_ttl = streak_ttl base count }))
unfolding note_connect_failure_streak
streak_left t k base s h =
    let count = streak_count t (lookup k s.connect_streaks) in
    let c : ConnectStreak = record {
      count = count;
      last_at = t;
      last_ttl = streak_ttl base count;
    } in
    ground (arith, lookup-insert k k c s.connect_streaks, beq_refl k)

streak_continues :
    (u : ℕ) (c : ConnectStreak)
    → u < c.last_at + c.last_ttl * 4
    → streak_count u (some c) ≡ min (c.count + 1) (2 ^ 32 - 1)
unfolding streak_count
streak_continues u c h = ground arith

-- A connection failure within four times the freeze of the one before gets twice its freeze, up to
-- 32 times the base, for any positive base and from any state.
pub streak_doubles :
    (t u : ℕ) (k : Text) (base : ℕ) (s : RouterState)
    → 0 < base
    → u < t + (note_connect_failure_streak t k base s).1 * 4
    → (note_connect_failure_streak u k base (note_connect_failure_streak t k base s).0).1
      ≡ min ((note_connect_failure_streak t k base s).1 * 2) (base * 32)
streak_doubles t u k base s h soon =
    let count = streak_count t (lookup k s.connect_streaks) in
    let c : ConnectStreak = record {
      count = count;
      last_at = t;
      last_ttl = streak_ttl base count;
    } in
    let s' = (note_connect_failure_streak t k base s).0 in
    let left = streak_left t k base s h in
    let next = streak_left u k base s' h in
    let e : streak_count u (lookup k s'.connect_streaks) ≡ min (count + 1) (2 ^ 32 - 1) =
      rw left.1 (streak_continues u c (omega (arith, left.0))) in
    next.0
    ∙ ap (streak_ttl base) e
    ∙ streak_next base count (streak_count-pos t (lookup k s.connect_streaks))
    ∙ ap (λ (x : ℕ). min (x * 2) (base * 32)) (sym left.0)

next_attempt : (n : ℕ) → n + 1 < 2 ^ 32 → (n + 1) % 2 ^ 32 ≡ n + 1
next_attempt n h = omega arith

-- Marking an unsupported model blocks its key until the end of the attempt's step of the ladder,
-- and for good from the sixth failure in a row, as long as the count of failures, which is a 32-bit
-- number, does not wrap around. The store's answer does not matter.
pub mark_blocks :
    (now t : ℕ) (k : KeyModel) (error : Text) (s : RouterState)
    → previous_attempt (lookup k s.unsupported) + 1 < 2 ^ 32
    → let failures = previous_attempt (lookup k s.unsupported) in
      key_model_blocked t k (mark_key_model_unsupported now k error s) ≡ (
        if leb 5 failures
        then true
        else ltb t (now + unwrap_or (get_elem? retry_ladder failures) permanent_threshold))
unfolding mark_key_model_unsupported key_model_blocked
mark_blocks now t (p, (k, m)) error s small = ground (
  arith,
  next_attempt (previous_attempt (lookup (p, (k, m)) s.unsupported)) small,
  lookup-insert (p, (k, m)) (p, (k, m))
      (next_unsupported now error (lookup (p, (k, m)) s.unsupported)) s.unsupported,
  beq_refl {A = KeyModel} (p, (k, m)),
)

length-drop_front : (xs : List ErrorLogEntry) → length (drop_front xs) ≡ length xs - 1
unfolding drop_front
length-drop_front [] = omega arith
length-drop_front (x ∷ xs) = omega arith

-- The log keeps at most 200 errors, the newest last.
pub push_recent_error_bounded :
    (e : ErrorLogEntry) (s : RouterState)
    → length s.recent_errors ≤ recent_errors_cap
    → (older : List ErrorLogEntry) × ((push_recent_error e s).recent_errors ≡ older ++ e ∷ [])
      × (length (push_recent_error e s).recent_errors
          ≡ min (length s.recent_errors + 1) recent_errors_cap)
unfolding push_recent_error
push_recent_error_bounded e s h =
    elim (Bool-cases (leb recent_errors_cap (length s.recent_errors))) [
      | inl full ↦ (
        drop_front s.recent_errors,
        ground arith,
        ground (
          arith,
          length-append (drop_front s.recent_errors) (e ∷ []),
          length-drop_front s.recent_errors,
        ),
      )
      | inr room ↦
          (s.recent_errors, ground arith, ground (arith, length-append s.recent_errors (e ∷ [])))
    ]

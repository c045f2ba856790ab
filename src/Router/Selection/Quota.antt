-- ===== src/Router/Selection/Quota.antt =====
-- The priority strategy: exhausted candidates and keys.
use llm_provider_router.Prelude.{
  ℕ, ◌≤◌, ◌↔◌, unwrap_or, Option-cases, ◌≡◌, ◌≢◌, refl, Text, Bool, true, false, not, Option, none,
  some, List, [], ◌∷◌, arith, filter, any, find, text_leb, All, MemberOf, find-MemberOf, Bool-cases,
  inl, inr, ◌⊎◌, text_equality, nat_eq, contains,
}
use llm_provider_router.Prelude.Dict.{Dict, lookup}
use llm_provider_router.Prelude.Int.{ℤ, pos, negsuc, ltb_ℤ}
use llm_provider_router.Config.{KeyRef}
use llm_provider_router.Usage.{UsageStore, key_token_totals_today}
use llm_provider_router.Usage.Totals.{Accounted, bare_name_total}
use llm_provider_router.Router.Selection.Sorted.{
  key_before_total, Sorted, sort_keys-All, sort_keys-Sorted, sort_keys-MemberOf,
}
use llm_provider_router.Router.Selection.{
  TargetCandidate, candidate_exhausted, drop_exhausted_candidates, key_exhausted, used_of,
  key_before, sort_keys, priority_key_pick,
}

-- `j` is exhausted, or comes after the pick.
abbrev Yields : KeyRef → Dict Text ℕ → KeyRef → Type 0
Yields k totals j = (key_exhausted j (used_of totals j) ≡ true) ⊎ (key_before k j ≡ true)

after_pick :
    (k : KeyRef) (totals : Dict Text ℕ) (ks : List KeyRef)
    → All (λ j. key_before k j ≡ true) ks
    → All (Yields k totals) ks
after_pick k totals [] h = tt
after_pick k totals (j ∷ js) h = (inr h.0, after_pick k totals js h.1)

abbrev fresh_key : Dict Text ℕ → KeyRef → Bool
fresh_key totals k = not (key_exhausted k (used_of totals k))

-- What the search in a sorted pool answers.
abbrev Finds : Dict Text ℕ → List KeyRef → Option KeyRef → Type 0
Finds totals ks none = All (λ j. key_exhausted j (used_of totals j) ≡ true) ks
Finds totals ks (some k) = (key_exhausted k (used_of totals k) ≡ false) × All (Yields k totals) ks

skip-Finds :
    (totals : Dict Text ℕ) (k : KeyRef) (ks : List KeyRef) (r : Option KeyRef)
    → key_exhausted k (used_of totals k) ≡ true
    → Finds totals ks r
    → Finds totals (k ∷ ks) r
skip-Finds totals k ks none e h = (e, h)
skip-Finds totals k ks (some j) e h = (h.0, (inl e, h.1))

find-Finds :
    (totals : Dict Text ℕ) (ks : List KeyRef)
    → Sorted ks
    → Finds totals ks (find (fresh_key totals) ks)
unfolding find
find-Finds totals [] h = tt
find-Finds totals (k ∷ ks) h = elim (Bool-cases (key_exhausted k (used_of totals k))) [
  | inl e ↦ rw e (skip-Finds totals k ks (find (fresh_key totals) ks) e (find-Finds totals ks h.1))
  | inr e ↦ rw e (e, (inr (ground (arith, key_before_total k k)), after_pick k totals ks h.0))
]

unsort-Finds :
    (totals : Dict Text ℕ) (ks : List KeyRef) (r : Option KeyRef)
    → Finds totals (sort_keys ks) r
    → Finds totals ks r
unsort-Finds totals ks none h = sort_keys-All (λ j. key_exhausted j (used_of totals j) ≡ true) ks h
unsort-Finds totals ks (some k) h = (h.0, sort_keys-All (Yields k totals) ks h.1)

-- The key has a quota, and today's usage has reached it.
abbrev pub IsSpent : Dict Text ℕ → KeyRef → Type 0
IsSpent totals k =
    (quota : ℕ) × (k.daily_token_quota ≡ some quota) × (quota ≤ unwrap_or (lookup k.name totals) 0)

-- `k` is heavier than `j`, or as heavy and not behind it by name.
abbrev pub Outranks : KeyRef → KeyRef → Type 0
Outranks k j =
    (ltb_ℤ j.weight k.weight ≡ true) ⊎ ((j.weight ≡ k.weight) × (text_leb k.name j.name ≡ true))

-- A pick from a pool.
abbrev pub Picks : Dict Text ℕ → List KeyRef → Option KeyRef → Type 0
Picks totals ks none = All (IsSpent totals) ks
Picks totals ks (some k) =
    MemberOf k ks × (IsSpent totals k → ⊥) × All (λ j. IsSpent totals j ⊎ Outranks k j) ks

key_exhausted-IsSpent :
    (totals : Dict Text ℕ) (k : KeyRef)
    → (key_exhausted k (used_of totals k) ≡ true) ↔ IsSpent totals k
unfolding key_exhausted
key_exhausted-IsSpent totals k = elim (Option-cases k.daily_token_quota) [
  | inl e ↦ (λ h. absurd (ground (arith, e, h)), λ (q, p, l). absurd (ground (arith, e, p)))
  | inr (q, e) ↦ (λ h. (q, e, ground (arith, e, h)), λ (r, p, l). ground (arith, e, p, l))
]

equal_weights : (a b : ℤ) → ltb_ℤ a b ≡ false → ltb_ℤ b a ≡ false → a ≡ b
equal_weights (pos m) (pos n) h g = ground (arith, h, g)
equal_weights (pos m) (negsuc n) h g = absurd (ground (arith, h, g))
equal_weights (negsuc m) (pos n) h g = absurd (ground (arith, h, g))
equal_weights (negsuc m) (negsuc n) h g = ground (arith, h, g)

key_before-Outranks : (k j : KeyRef) → key_before k j ≡ true → Outranks k j
unfolding key_before
key_before-Outranks k j h = elim (Bool-cases (ltb_ℤ j.weight k.weight)) [
  | inl heavier ↦ inl heavier
  | inr light ↦ elim (Bool-cases (ltb_ℤ k.weight j.weight)) [
    | inl lighter ↦ absurd (ground (arith, light, lighter, h))
    | inr same ↦ inr (equal_weights j.weight k.weight light same, ground (arith, light, same, h))
  ]
]

Yields-Outranks :
    (k : KeyRef) (totals : Dict Text ℕ) (ks : List KeyRef)
    → All (Yields k totals) ks
    → All (λ j. IsSpent totals j ⊎ Outranks k j) ks
Yields-Outranks k totals [] h = tt
Yields-Outranks k totals (j ∷ js) (inl e, h) =
    (inl ((key_exhausted-IsSpent totals j).0 e), Yields-Outranks k totals js h)
Yields-Outranks k totals (j ∷ js) (inr b, h) =
    (inr (key_before-Outranks k j b), Yields-Outranks k totals js h)

exhausted-IsSpent :
    (totals : Dict Text ℕ) (ks : List KeyRef)
    → All (λ j. key_exhausted j (used_of totals j) ≡ true) ks
    → All (IsSpent totals) ks
exhausted-IsSpent totals [] h = tt
exhausted-IsSpent totals (k ∷ ks) h =
    ((key_exhausted-IsSpent totals k).0 h.0, exhausted-IsSpent totals ks h.1)

-- The priority pick is a key of the pool below its quota, or without one, and every other such key
-- of the pool is lighter, or as heavy and not before it by name; there is no pick only if every key
-- has used up its quota.
pub priority_key_pick_first :
    (keys : List KeyRef) (totals : Dict Text ℕ) → Picks totals keys (priority_key_pick keys totals)
unfolding priority_key_pick
priority_key_pick_first keys totals =
    let found =
      unsort-Finds totals keys (find (fresh_key totals) (sort_keys keys))
        (find-Finds totals (sort_keys keys) (sort_keys-Sorted keys)) in
    elim (Option-cases (find (fresh_key totals) (sort_keys keys))) [
      | inl e ↦ rw e (exhausted-IsSpent totals keys (rw e at found))
      | inr (k, e) ↦
          let chosen : Finds totals keys (some k) = rw e at found in
          rw e (
            sort_keys-MemberOf k keys (find-MemberOf (fresh_key totals) (sort_keys keys) k e).0,
            λ spent. absurd (ground (arith, chosen.0, (key_exhausted-IsSpent totals k).1 spent)),
            Yields-Outranks k totals keys chosen.1,
          )
    ]

-- What `drop_exhausted_candidates` keeps.
abbrev pub Fresh : Dict Text ℕ → TargetCandidate → Type 0
Fresh totals c = candidate_exhausted totals c ≡ false

abbrev fresh_candidate : Dict Text ℕ → TargetCandidate → Bool
fresh_candidate totals c = not (candidate_exhausted totals c)

filter-Fresh :
    (totals : Dict Text ℕ) (cs : List TargetCandidate)
    → All (Fresh totals) (filter (fresh_candidate totals) cs)
unfolding filter
filter-Fresh totals [] = tt
filter-Fresh totals (c ∷ cs) = elim (Bool-cases (candidate_exhausted totals c)) [
  | inl e ↦ rw e (filter-Fresh totals cs)
  | inr e ↦ rw e (e, filter-Fresh totals cs)
]

any-filter :
    (totals : Dict Text ℕ) (cs : List TargetCandidate)
    → any (fresh_candidate totals) cs ≡ true
    → filter (fresh_candidate totals) cs ≢ []
unfolding filter any
any-filter totals [] h e = cc
any-filter totals (c ∷ cs) h e = ground (arith, any-filter totals cs)

none-fresh :
    (totals : Dict Text ℕ) (cs : List TargetCandidate)
    → any (fresh_candidate totals) cs ≡ false
    → All (λ c. candidate_exhausted totals c ≡ true) cs
unfolding any
none-fresh totals [] h = tt
none-fresh totals (c ∷ cs) h = (ground arith, none-fresh totals cs (ground arith))

-- Either some candidate is left and none of those left is exhausted, or every candidate is
-- exhausted and the list stays as it was. So a pool is never emptied by its quotas.
pub drop_exhausted_soft :
    (cs : List TargetCandidate) (totals : Dict Text ℕ)
    → ((drop_exhausted_candidates cs totals ≢ [])
        × All (Fresh totals) (drop_exhausted_candidates cs totals))
      ⊎ ((drop_exhausted_candidates cs totals ≡ cs)
          × All (λ c. candidate_exhausted totals c ≡ true) cs)
unfolding drop_exhausted_candidates
drop_exhausted_soft cs totals = elim (Bool-cases (any (fresh_candidate totals) cs)) [
  | inl e ↦ rw e (inl (any-filter totals cs e, filter-Fresh totals cs))
  | inr e ↦ rw e (inr (refl, none-fresh totals cs e))
]

-- The daily quota is never reached: the totals are asked for by bare names and the usage is
-- recorded as `provider/name`. While every event was recorded under `usage_key_name`, a key of the
-- pool whose name has no slash and whose quota is positive does not count as exhausted, whatever
-- it used since midnight.
pub quota_never_reached :
    (u : UsageStore) (midnight : ℕ) (key : KeyRef) (names : List Text) (totals : Dict Text ℕ)
    → u.conn_ok ≡ true
    → Accounted u.events
    → contains key.name names ≡ true
    → contains b'/' key.name ≡ false
    → key.daily_token_quota ≢ some 0
    → key_token_totals_today u midnight names ≡ some totals
    → key_exhausted key (used_of totals key) ≡ false
unfolding key_exhausted
quota_never_reached u midnight key names totals ok a h bare quota e =
    let total = bare_name_total u midnight key.name names ok h bare a in ground (arith, total)

pub priority_key_pick-MemberOf :
    (keys : List KeyRef) (totals : Dict Text ℕ) (k : KeyRef)
    → priority_key_pick keys totals ≡ some k
    → MemberOf k keys
unfolding priority_key_pick
priority_key_pick-MemberOf keys totals k h =
    sort_keys-MemberOf k keys (find-MemberOf (fresh_key totals) (sort_keys keys) k h).0

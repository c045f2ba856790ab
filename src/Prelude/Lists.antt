-- ===== src/Prelude/Lists.antt =====
-- Lists measured by native numbers and searched by Boolean tests.
use Prim.Native.Nat.{ℕ, zero, suc, ◌+◌, ◌≤◌}
use mathlib.Core.Path.{◌≡◌, refl, ap, subst}
use mathlib.Core.Logic.{◌⊎◌, inl, inr}
use mathlib.Core.Bool.{Bool, true, false, ◌&&◌, ◌||◌}
use mathlib.Core.Option.{Option, none, some}
use mathlib.Core.List.{List, [], ◌∷◌, ◌++◌}
use native.Mathlib.Omega.{arith}
use llm_provider_router.Prelude.Tests.{if◌then◌else◌, Bool-cases}

module _ {ℓ} {A : Type ℓ} where
  abbrev pub length : List A → ℕ
  length [] = 0
  length (x ∷ xs) = suc (length xs)

  abbrev pub get_elem? : List A → ℕ → Option A
  get_elem? [] i = none
  get_elem? (x ∷ xs) zero = some x
  get_elem? (x ∷ xs) (suc i) = get_elem? xs i

  abbrev pub take : ℕ → List A → List A
  take zero xs = []
  take (suc n) [] = []
  take (suc n) (x ∷ xs) = x ∷ take n xs

  unfoldable pub filter : (A → Bool) → List A → List A
  filter p [] = []
  filter p (x ∷ xs) = if p x then x ∷ filter p xs else filter p xs

  unfoldable pub any : (A → Bool) → List A → Bool
  any p [] = false
  any p (x ∷ xs) = p x || any p xs

  unfoldable pub all : (A → Bool) → List A → Bool
  all p [] = true
  all p (x ∷ xs) = p x && all p xs

  -- `iter().find(p)`
  unfoldable pub find : (A → Bool) → List A → Option A
  find p [] = none
  find p (x ∷ xs) = if p x then some x else find p xs

  -- A predicate of every element, as a tuple that the tactics read.
  abbrev pub All {κ} : (A → Type κ) → List A → Type κ
  All P [] = Unit
  All P (x ∷ xs) = P x × All P xs

  pub length-append : (xs ys : List A) → length (xs ++ ys) ≡ length xs + length ys
  length-append [] ys = omega arith
  length-append (x ∷ xs) ys = omega (arith, length-append xs ys)

  pub length-filter-le : (p : A → Bool) (xs : List A) → length (filter p xs) ≤ length xs
  unfolding filter
  length-filter-le p [] = omega arith
  length-filter-le p (x ∷ xs) = ground (arith, length-filter-le p xs)

module _ {A : Type 0} where
  -- Membership by cases, which the tactics take apart.
  abbrev pub MemberOf : A → List A → Type 0
  MemberOf a [] = ⊥
  MemberOf a (x ∷ xs) = (x ≡ a) ⊎ MemberOf a xs

  pub get_elem?-MemberOf : (xs : List A) (i : ℕ) (a : A) → get_elem? xs i ≡ some a → MemberOf a xs
  get_elem?-MemberOf [] i a h = cc
  get_elem?-MemberOf (x ∷ xs) zero a h = inl (ground arith)
  get_elem?-MemberOf (x ∷ xs) (suc i) a h = inr (get_elem?-MemberOf xs i a h)

  pub find-MemberOf :
      (p : A → Bool) (xs : List A) (a : A) → find p xs ≡ some a → MemberOf a xs × (p a ≡ true)
  unfolding find
  find-MemberOf p [] a h = cc
  find-MemberOf p (x ∷ xs) a h = ground (arith, find-MemberOf p xs a)

  -- The search finds the only element that passes.
  pub find-only :
      (p : A → Bool) (xs : List A) (a : A)
      → MemberOf a xs
      → p a ≡ true
      → ((x : A) → MemberOf x xs → p x ≡ true → x ≡ a)
      → find p xs ≡ some a
  unfolding find
  find-only p [] a m e only = elim m [ ]
  find-only p (x ∷ xs) a m e only = elim (Bool-cases (p x)) [
    | inl here ↦ rw here (ap some (only x (inl refl) here))
    | inr past ↦ elim m [
      | inl q ↦ absurd (ground (arith, past, e, ap p q))
      | inr later ↦ rw past (find-only p xs a later e (λ y n. only y (inr n)))
    ]
  ]

  pub filter-MemberOf :
      (p : A → Bool) (xs : List A) (a : A) → MemberOf a (filter p xs) → MemberOf a xs × (p a ≡ true)
  unfolding filter
  filter-MemberOf p [] a h = elim h [ ]
  filter-MemberOf p (x ∷ xs) a h = ground (arith, filter-MemberOf p xs a)

  pub MemberOf-filter :
      (p : A → Bool) (xs : List A) (a : A) → MemberOf a xs → p a ≡ true → MemberOf a (filter p xs)
  unfolding filter
  MemberOf-filter p [] a h e = elim h [ ]
  MemberOf-filter p (x ∷ xs) a h e = ground (arith, MemberOf-filter p xs a)

  pub All-MemberOf {κ} : (P : A → Type κ) (xs : List A) (a : A) → All P xs → MemberOf a xs → P a
  All-MemberOf P [] a h m = elim m [ ]
  All-MemberOf P (x ∷ xs) a h (inl e) = subst P e h.0
  All-MemberOf P (x ∷ xs) a h (inr m) = All-MemberOf P xs a h.1 m

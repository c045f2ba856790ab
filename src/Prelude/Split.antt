-- ===== src/Prelude/Split.antt =====
-- A text and its two sides of the first slash.
use mathlib.Core.Path.{◌≡◌, refl, subst}
use mathlib.Core.Logic.{inl, inr}
use mathlib.Core.Bool.{Bool, false}
use mathlib.Core.Option.{none, some}
use mathlib.Core.List.{[], ◌∷◌, ◌++◌}
use native.Mathlib.Omega.{arith}
use llm_provider_router.Prelude.Tests.{nat_beq, Bool-cases, Option-cases}
use llm_provider_router.Prelude.Equality.{contains, nat_eq}
use llm_provider_router.Prelude.Texts.{Text, split_once}

abbrev pub has_slash : Text → Bool
has_slash s = contains b'/' s

pub split-prefix :
    (p rest : Text) → has_slash p ≡ false → split_once b'/' (p ++ b'/' ∷ rest) ≡ some (p, rest)
unfolding split_once contains
split-prefix [] rest h = refl
split-prefix (c ∷ p) rest h = ground (arith, split-prefix p rest)

pub split-none : (s : Text) → has_slash s ≡ false → split_once b'/' s ≡ none
unfolding split_once contains
split-none [] h = refl
split-none (c ∷ s) h = ground (arith, split-none s)

pub split_none-has_slash : (s : Text) → split_once b'/' s ≡ none → has_slash s ≡ false
unfolding split_once contains
split_none-has_slash [] h = refl
split_none-has_slash (c ∷ s) h = elim (Option-cases (split_once b'/' s)) [
  | inl n ↦ ground (arith, n, h, split_none-has_slash s n)
  | inr (p, q) ↦ absurd (ground (arith, q, h))
]

-- The text before the first slash has none.
pub split-before : (s a b : Text) → split_once b'/' s ≡ some (a, b) → has_slash a ≡ false
unfolding split_once contains
split-before [] a b h = cc
split-before (c ∷ s) a b h = elim (Bool-cases (nat_beq c b'/')) [
  | inl e ↦ ground (arith, e, h)
  | inr e ↦ elim (Option-cases (split_once b'/' s)) [
    | inl n ↦ absurd (ground (arith, e, n, h))
    | inr ((x, y), q) ↦
        let later = split-before s x y q in
        let shape : c ∷ x ≡ a = ground (arith, e, q, h) in
        subst (λ t. has_slash t ≡ false) shape (ground (arith, e, later))
  ]
]

-- The two sides with the slash between them are the text.
pub split-join : (s a b : Text) → split_once b'/' s ≡ some (a, b) → s ≡ a ++ b'/' ∷ b
unfolding split_once
split-join [] a b h = cc
split-join (c ∷ s) a b h = elim (Bool-cases (nat_beq c b'/')) [
  | inl e ↦ ground (arith, e, h)
  | inr e ↦ elim (Option-cases (split_once b'/' s)) [
    | inl n ↦ absurd (ground (arith, e, n, h))
    | inr ((x, y), q) ↦ let later = split-join s x y q in ground (arith, e, q, h, later)
  ]
]

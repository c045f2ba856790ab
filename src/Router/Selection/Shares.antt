-- ===== src/Router/Selection/Shares.antt =====
-- Which key a point of `0 .. total` selects: each key owns an interval as long as its weight.
use llm_provider_router.Prelude.{
  ℕ, zero, suc, ◌+◌, ◌-◌, ◌^◌, ◌↔◌, ◌≤◌, ◌<◌, ◌≡◌, refl, Text, Option, none, some, List, [], ◌∷◌,
  ◌++◌, arith, length, get_elem?, nat_beq, Bool-cases, inl, inr, ltb, ◌⊎◌, MemberOf,
  get_elem?-MemberOf,
}
use llm_provider_router.Prelude.Int.{pos_part}
use llm_provider_router.Config.{KeyRef}
use llm_provider_router.Router.Selection.{
  Sampler, sample_target, weight_sum, total_weight, walk, weights, weighted_pick,
}

walk_share :
    (before after : List ℕ) (w t : ℕ)
    → weight_sum before ≤ t
    → t < weight_sum before + w
    → walk (before ++ w ∷ after) t ≡ some (length before)
unfolding walk weight_sum
walk_share [] after w t lo hi = ground arith
walk_share (b ∷ before) after w t lo hi = ground (arith, walk_share before after w (t - b))

weights-append :
    (before : List KeyRef) (k : KeyRef) (after : List KeyRef)
    → weights (before ++ k ∷ after) ≡ weights before ++ pos_part k.weight ∷ weights after
weights-append [] k after = refl
weights-append (b ∷ before) k after = ground (arith, weights-append before k after)

length-weights : (ks : List KeyRef) → length (weights ks) ≡ length ks
length-weights [] = refl
length-weights (k ∷ ks) = ground (arith, length-weights ks)

get_elem?-middle :
    (before : List KeyRef) (k : KeyRef) (after : List KeyRef)
    → get_elem? (before ++ k ∷ after) (length before) ≡ some k
get_elem?-middle [] k after = refl
get_elem?-middle (b ∷ before) k after = get_elem?-middle before k after

-- The first part of the pick: a target below the total weight lands on a key.
walk-positive :
    (ks : List KeyRef) (t : ℕ)
    → t < weight_sum (weights ks)
    → (i : ℕ) × (k : KeyRef) × (walk (weights ks) t ≡ some i)
      × (get_elem? ks i ≡ some k)
      × (0 < pos_part k.weight)
unfolding walk weight_sum
walk-positive [] t h = absurd (omega arith)
walk-positive (k ∷ ks) t h = elim (Bool-cases (ltb t (pos_part k.weight))) [
  | inl here ↦ (0, k, rw (here, walk), refl, ground arith)
  | inr past ↦
      let (i, j, e, at, p) = walk-positive ks (t - pos_part k.weight) (ground arith) in
      (suc i, j, ground arith, at, p)
]

sample_target-lt :
    (s : Sampler) (session : Option Text) (alias : Text) (total : ℕ)
    → 0 < total
    → sample_target s session alias total < total
unfolding sample_target
sample_target-lt s none alias total h = s.gen_range_lt total h
sample_target-lt s (some session) alias total h = grind arith

-- Wrapping never makes the total larger, and leaves a sum that fits as it is.
total_weight-le : (ws : List ℕ) → total_weight ws ≤ weight_sum ws
unfolding total_weight
total_weight-le ws = ground arith

total_weight-fits : (ws : List ℕ) → weight_sum ws < 2 ^ 63 → total_weight ws ≡ weight_sum ws
unfolding total_weight
total_weight-fits ws h = ground arith

weight_sum-middle :
    (before after : List ℕ) (w : ℕ)
    → weight_sum (before ++ w ∷ after) ≡ weight_sum before + w + weight_sum after
unfolding weight_sum
weight_sum-middle [] after w = omega arith
weight_sum-middle (b ∷ before) after w = omega (arith, weight_sum-middle before after w)

-- Where a walk that ends at `k` has its point, if `k` stands nowhere else.
share_of :
    (before : List KeyRef) (k : KeyRef) (after : List KeyRef) (t i : ℕ)
    → (MemberOf k before → ⊥)
    → (MemberOf k after → ⊥)
    → walk (weights (before ++ k ∷ after)) t ≡ some i
    → get_elem? (before ++ k ∷ after) i ≡ some k
    → (weight_sum (weights before) ≤ t) × (t < weight_sum (weights before) + pos_part k.weight)
unfolding walk weight_sum
share_of [] k after t zero nb na w at = ground (arith, w)
share_of [] k after t (suc j) nb na w at = absurd (na (get_elem?-MemberOf after j k at))
share_of (b ∷ before) k after t zero nb na w at = absurd (nb (inl (ground (arith, at))))
share_of (b ∷ before) k after t (suc j) nb na w at = elim (Bool-cases (ltb t (pos_part b.weight))) [
  | inl here ↦ absurd (ground (arith, here, w))
  | inr past ↦
      let later : walk (weights (before ++ k ∷ after)) (t - pos_part b.weight) ≡ some j =
        ground (arith, past, w) in
      ground (
        arith,
        past,
        share_of before k after (t - pos_part b.weight) j (λ m. nb (inr m)) na later at,
      )
]

-- A pick is refused exactly if no key has a positive weight; otherwise it is a key of the pool,
-- and its weight is positive.
pub weighted_pick_total :
    (s : Sampler) (ks : List KeyRef) (session : Option Text) (alias : Text)
    → ((total_weight (weights ks) ≡ 0) × (weighted_pick s ks session alias ≡ none))
      ⊎ ((i : ℕ) × (k : KeyRef) × (weighted_pick s ks session alias ≡ some k)
          × (get_elem? ks i ≡ some k)
          × (0 < pos_part k.weight))
unfolding weighted_pick
weighted_pick_total s ks session alias = elim (Bool-cases (nat_beq (total_weight (weights ks)) 0)) [
  | inl e ↦ inl (ground arith, ground arith)
  | inr e ↦
      let h : 0 < total_weight (weights ks) = ground arith in
      let (i, k, w, at, p) =
        walk-positive ks (sample_target s session alias (total_weight (weights ks))) (
          omega (
            arith,
            sample_target-lt s session alias (total_weight (weights ks)) h,
            total_weight-le (weights ks),
          )) in
      inr (i, k, ground arith, at, p)
]

pub weighted_pick-MemberOf :
    (s : Sampler) (ks : List KeyRef) (session : Option Text) (alias : Text) (k : KeyRef)
    → weighted_pick s ks session alias ≡ some k
    → MemberOf k ks
weighted_pick-MemberOf s ks session alias k h = elim (weighted_pick_total s ks session alias) [
  | inl (z, e) ↦ absurd (ground arith)
  | inr (i, j, e, at, p) ↦ get_elem?-MemberOf ks i k (ground arith)
]

-- A key that stands once in the pool is picked for a session, or for a draw, exactly if the sampled
-- point lies past the weights of the keys before it and short of its own weight: for as many points
-- as its weight says. The weights are not so large that their sum wraps around, and one is positive.
pub weighted_pick_share :
    (s : Sampler) (before : List KeyRef) (k : KeyRef) (after : List KeyRef) (session : Option Text)
    (alias : Text)
    → (MemberOf k before → ⊥)
    → (MemberOf k after → ⊥)
    → weight_sum (weights (before ++ k ∷ after)) < 2 ^ 63
    → 0 < weight_sum (weights (before ++ k ∷ after))
    → let point = sample_target s session alias (weight_sum (weights (before ++ k ∷ after))) in
      (weighted_pick s (before ++ k ∷ after) session alias ≡ some k) ↔ (
        (weight_sum (weights before) ≤ point)
        × (point < weight_sum (weights before) + pos_part k.weight))
unfolding weighted_pick
weighted_pick_share s before k after session alias nb na fits some_weight =
    let ks = before ++ k ∷ after in
    let total = total_weight-fits (weights ks) fits in
    let t : ℕ = sample_target s session alias (weight_sum (weights ks)) in
    let (i, j, w, at, p) =
      walk-positive ks t (sample_target-lt s session alias (weight_sum (weights ks)) some_weight) in
    (
      λ e. share_of before k after t i nb na w (ground (arith, total, e, w, at)),
      λ h. ground (
        arith,
        total,
        weights-append before k after,
        walk_share (weights before) (weights after) (pos_part k.weight) t h.0 h.1,
        length-weights before,
        get_elem?-middle before k after,
      ),
    )

-- ===== src/Tests/Selection.antt =====
-- Runs of the picks of Router/Selection.
use llm_provider_router.Prelude.{
  ◌↔◌, ◌<◌, ◌≤◌, MemberOf, inl, inr, ◌≡◌, refl, ◌⊎◌, none, some, List, [], ◌∷◌, map, All, ◌≢◌, true,
  arith, text_equality,
}
use mathlib.Core.List.{Perm}
use llm_provider_router.Router.Selection.{
  weighted_pick, weight_sum, total_weight, item_of, order_targets, priority_key_pick,
  drop_exhausted_candidates, candidate_exhausted, sample_target,
}
use llm_provider_router.Router.Selection.Shares.{weighted_pick_share}
use llm_provider_router.Router.Selection.Order.{
  Ordered, order_targets_weighted, order_targets_total,
}
use llm_provider_router.Router.Selection.Quota.{
  Picks, Fresh, priority_key_pick_first, drop_exhausted_soft,
}
use llm_provider_router.Tests.Fixtures.{
  sampler, key_a, key_b, model_m, model_n, candidate_m, candidate_n,
}

not_b : MemberOf key_a (key_b ∷ []) → ⊥
not_b (inl e) = ground (arith, e)
not_b (inr m) = elim m [ ]

weighted_pick_share_example :
    (weighted_pick sampler (key_a ∷ key_b ∷ []) (some (b's' ∷ [])) (b'm' ∷ []) ≡ some key_a) ↔ (
      (0 ≤ sample_target sampler (some (b's' ∷ [])) (b'm' ∷ []) 4)
      × (sample_target sampler (some (b's' ∷ [])) (b'm' ∷ []) 4 < 3))
unfolding weight_sum
weighted_pick_share_example =
    weighted_pick_share sampler [] key_a (key_b ∷ []) (some (b's' ∷ [])) (b'm' ∷ []) (λ m. m) not_b
      (omega arith) (omega arith)

order_targets_weighted_example :
    Ordered
      (map item_of (candidate_m ∷ candidate_n ∷ []))
      (order_targets sampler (candidate_m ∷ candidate_n ∷ []) none none)
unfolding total_weight weight_sum
order_targets_weighted_example =
    order_targets_weighted sampler candidate_m (candidate_n ∷ []) none none refl (omega arith)

order_targets_total_example :
    (out : List _) × (order_targets sampler (candidate_n ∷ candidate_m ∷ []) none none ≡ some out)
    × Perm out (model_n ∷ model_m ∷ [])
order_targets_total_example = order_targets_total sampler (candidate_n ∷ candidate_m ∷ []) none none

priority_key_pick_first_example :
    Picks
      ((b'a' ∷ [], 10) ∷ [])
      (key_a ∷ key_b ∷ [])
      (priority_key_pick (key_a ∷ key_b ∷ []) ((b'a' ∷ [], 10) ∷ []))
priority_key_pick_first_example =
    priority_key_pick_first (key_a ∷ key_b ∷ []) ((b'a' ∷ [], 10) ∷ [])

drop_exhausted_soft_example :
    ((drop_exhausted_candidates (candidate_m ∷ []) [] ≢ [])
      × All (Fresh []) (drop_exhausted_candidates (candidate_m ∷ []) []))
    ⊎ ((drop_exhausted_candidates (candidate_m ∷ []) [] ≡ candidate_m ∷ [])
        × All (λ c. candidate_exhausted [] c ≡ true) (candidate_m ∷ []))
drop_exhausted_soft_example = drop_exhausted_soft (candidate_m ∷ []) []

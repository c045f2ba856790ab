-- ===== src/Router/Selection.antt =====
-- src/features/router/selection.rs: the order of candidates and the weighted and priority picks.
-- A total of weights is an `i64` that wraps around.
pub mod Shares
pub mod Order
mod Sorted
pub mod Quota
use llm_provider_router.Prelude.{
  ℕ, ◌+◌, ◌-◌, ◌*◌, ◌%◌, ◌^◌, ◌<◌, Text, Bool, true, false, not, ◌&&◌, ◌||◌, Option, none, some,
  List, [], ◌∷◌, ◌++◌, map, ltb, leb, nat_beq, filter, any, all, find, unwrap_or, is_some_and,
  length, get_elem?, text_leb, or_option, text_equality, if◌then◌else◌,
}
use llm_provider_router.Prelude.Int.{ℤ, pos, pos_part, positive, ltb_ℤ}
use llm_provider_router.Prelude.Dict.{Dict, lookup}
use llm_provider_router.Config.{KeyRef, ModelAlias, Strategy, priority, weighted, usage_aware}

pub record TargetCandidate : Type 0 where
  pub model : ModelAlias
  pub weight : Option ℤ
  pub strategy : Strategy

-- What the picks take from SHA-256 (the first eight bytes of the digest as a number) and from the
-- random generator (the draw of this call, below its bound).
pub record Sampler : Type 0 where
  pub digest_u64 : Text → ℕ
  pub gen_range : ℕ → ℕ
  pub gen_range_lt : (n : ℕ) → 0 < n → gen_range n < n

-- The point of `0 .. total` that a session, or the draw, falls on.
unfoldable pub sample_target : Sampler → Option Text → Text → ℕ → ℕ
sample_target s (some session) alias total = s.digest_u64 (alias ++ b':' ∷ session) % total
sample_target s none alias total = s.gen_range total

unfoldable pub weight_sum : List ℕ → ℕ
weight_sum [] = 0
weight_sum (w ∷ ws) = w + weight_sum ws

-- `items.iter().map(|(w, _)| w).sum()` on `i64`, which wraps around; a negative total is 0 here, for
-- every caller only asks whether `total <= 0`.
unfoldable pub total_weight : List ℕ → ℕ
unfolding weight_sum
total_weight ws = let u = weight_sum ws % 2 ^ 64 in if ltb u (2 ^ 63) then u else 0

-- `target -= w; if target < 0 { return i }`, the index of the weight that takes the target.
unfoldable pub walk : List ℕ → ℕ → Option ℕ
walk [] target = none
walk (w ∷ ws) target =
    let rest = walk ws (target - w) in
    if ltb target w then some 0 else elim rest [ none ↦ none | some i ↦ some (i + 1) ]

-- `w.max(0)` of each key.
abbrev pub weights : List KeyRef → List ℕ
weights = map λ k. pos_part k.weight

last : List KeyRef → Option KeyRef
last [] = none
last (k ∷ []) = some k
last (k ∷ j ∷ ks) = last (j ∷ ks)

at_walk : List KeyRef → Option ℕ → Option KeyRef
unfolding last
at_walk keys none = last keys
at_walk keys (some i) = get_elem? keys i

unfoldable pub weighted_pick : Sampler → List KeyRef → Option Text → Text → Option KeyRef
unfolding at_walk total_weight walk sample_target
weighted_pick s keys session alias =
    let total = total_weight (weights keys) in
    if nat_beq total 0
    then none
    else at_walk keys (walk (weights keys) (sample_target s session alias total))

-- `c.weight.unwrap_or(1).max(0)` beside the model.
abbrev pub item_of : TargetCandidate → ℕ × ModelAlias
item_of c = (pos_part (unwrap_or c.weight (pos 1)), c.model)

abbrev pub item_weights : List (ℕ × ModelAlias) → List ℕ
item_weights = map λ i. i.0

unfoldable pub weighted_first_index : Sampler → List (ℕ × ModelAlias) → Option Text → Text → ℕ
unfolding total_weight walk sample_target
weighted_first_index s items session alias =
    let total = total_weight (item_weights items) in
    if nat_beq total 0
    then 0
    else unwrap_or (walk (item_weights items) (sample_target s session alias total))
        (length items - 1)

-- `sort_by(|a, b| b.0.cmp(&a.0))`: stable, heavier first.
insert_desc : ℕ × ModelAlias → List (ℕ × ModelAlias) → List (ℕ × ModelAlias)
insert_desc x [] = x ∷ []
insert_desc x (y ∷ ys) = if leb y.0 x.0 then x ∷ y ∷ ys else y ∷ insert_desc x ys

unfoldable pub sort_desc : List (ℕ × ModelAlias) → List (ℕ × ModelAlias)
unfolding insert_desc
sort_desc [] = []
sort_desc (x ∷ xs) = insert_desc x (sort_desc xs)

-- `items.remove(i)`: the item and the rest; past the end the source panics.
remove_at : ℕ → List (ℕ × ModelAlias) → Option ((ℕ × ModelAlias) × List (ℕ × ModelAlias))
remove_at i [] = none
remove_at ℕ.zero (x ∷ xs) = some (x, xs)
remove_at (ℕ.suc i) (x ∷ xs) =
    let rest = remove_at i xs in elim rest [ none ↦ none | some (y, ys) ↦ some (y, x ∷ ys) ]

abbrev pub models : List (ℕ × ModelAlias) → List ModelAlias
models = map λ i. i.1

picked_index : Sampler → List (ℕ × ModelAlias) → Option Text → Text → Option ℕ → ℕ
unfolding weighted_first_index
picked_index s items session alias none = weighted_first_index s items session alias
picked_index s items session alias (some i) =
    if ltb i (length items) then i else weighted_first_index s items session alias

picked_first : Option ((ℕ × ModelAlias) × List (ℕ × ModelAlias)) → Option (List ModelAlias)
unfolding sort_desc
picked_first none = none
picked_first (some (x, rest)) = some (x.1 ∷ models (sort_desc rest))

order_items :
    Strategy
    → Sampler
    → List (ℕ × ModelAlias)
    → Option Text
    → Text
    → Option ℕ
    → Option (List ModelAlias)
unfolding picked_first remove_at picked_index total_weight
order_items priority s items session alias preferred = some (models items)
order_items weighted s items session alias preferred =
    if nat_beq (total_weight (item_weights items)) 0
    then some (models items)
    else picked_first (remove_at (picked_index s items session alias preferred) items)
order_items usage_aware s items session alias preferred =
    if nat_beq (total_weight (item_weights items)) 0
    then some (models items)
    else picked_first (remove_at (picked_index s items session alias preferred) items)

-- `none` is the panic of `items.remove`; `order_targets_total` shows that it does not happen.
unfoldable pub order_targets :
    Sampler → List TargetCandidate → Option Text → Option ℕ → Option (List ModelAlias)
unfolding order_items
order_targets s [] session preferred = some []
order_targets s (c ∷ cs) session preferred =
    order_items c.strategy s (map item_of (c ∷ cs)) session c.model.alias preferred

-- A key with a daily quota is exhausted from the quota on; without one it never is.
unfoldable pub key_exhausted : KeyRef → ℕ → Bool
key_exhausted key used_today = is_some_and (λ quota. leb quota used_today) key.daily_token_quota

-- `totals.get(&key.name).copied().unwrap_or(0)`
abbrev pub used_of : Dict Text ℕ → KeyRef → ℕ
used_of totals key = unwrap_or (lookup key.name totals) 0

unfoldable pub candidate_exhausted : Dict Text ℕ → TargetCandidate → Bool
unfolding key_exhausted filter all any
candidate_exhausted totals c =
    let weighted_keys = filter (λ (k : KeyRef). positive k.weight) c.model.keys in
    any (λ k. true) weighted_keys && all (λ k. key_exhausted k (used_of totals k)) weighted_keys

unfoldable pub drop_exhausted_candidates : List TargetCandidate → Dict Text ℕ → List TargetCandidate
unfolding candidate_exhausted any filter
drop_exhausted_candidates candidates totals =
    let fresh = λ (c : TargetCandidate). not (candidate_exhausted totals c) in
    if any fresh candidates then filter fresh candidates else candidates

-- `b.weight.cmp(&a.weight).then_with(|| a.name.cmp(&b.name))` is not `Greater`.
unfoldable pub key_before : KeyRef → KeyRef → Bool
unfolding text_leb
key_before a b =
    if ltb_ℤ b.weight a.weight
    then true
    else if ltb_ℤ a.weight b.weight
    then false
    else text_leb a.name b.name

insert_key : KeyRef → List KeyRef → List KeyRef
insert_key k [] = k ∷ []
insert_key k (j ∷ js) = if key_before k j then k ∷ j ∷ js else j ∷ insert_key k js

unfoldable pub sort_keys : List KeyRef → List KeyRef
unfolding insert_key
sort_keys [] = []
sort_keys (k ∷ ks) = insert_key k (sort_keys ks)

unfoldable pub priority_key_pick : List KeyRef → Dict Text ℕ → Option KeyRef
unfolding sort_keys find
priority_key_pick keys totals =
    find (λ k. not (key_exhausted k (used_of totals k))) (sort_keys keys)

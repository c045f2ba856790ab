-- ===== src/Router/Selection/Order.antt =====
-- `order_targets` loses no candidate, and its fallbacks come heaviest first.
use mathlib.Core.List.{Perm}
use mathlib.Core.List.Perm
use llm_provider_router.Prelude.{
  ℕ, zero, suc, ◌-◌, ◌≤◌, ◌<◌, ◌≡◌, refl, Text, Option, none, some, List, [], ◌∷◌, map, arith,
  length, nat_beq, Bool-cases, inl, inr, leb, unwrap_or, Option-cases, if◌then◌else◌,
}
use llm_provider_router.Config.{ModelAlias, Strategy, priority, weighted, usage_aware}
use llm_provider_router.Router.Selection.{
  Sampler, TargetCandidate, sample_target, total_weight, walk, item_weights, weighted_first_index,
  insert_desc, sort_desc, remove_at, models, picked_index, picked_first, order_items, order_targets,
  item_of,
}

insert_desc-Perm :
    (x : ℕ × ModelAlias) (ys : List (ℕ × ModelAlias)) → Perm (insert_desc x ys) (x ∷ ys)
unfolding insert_desc
insert_desc-Perm x [] = Perm.refl (x ∷ [])
insert_desc-Perm x (y ∷ ys) = elim (Bool-cases (leb y.0 x.0)) [
  | inl e ↦ rw e (Perm.refl _)
  | inr e ↦ rw e (Perm.trans (Perm.cons y (insert_desc-Perm x ys)) (Perm.swap x y ys))
]

sort_desc-Perm : (xs : List (ℕ × ModelAlias)) → Perm (sort_desc xs) xs
unfolding sort_desc
sort_desc-Perm [] = Perm.refl []
sort_desc-Perm (x ∷ xs) =
    Perm.trans (insert_desc-Perm x (sort_desc xs)) (Perm.cons x (sort_desc-Perm xs))

remove_at_total :
    (i : ℕ) (xs : List (ℕ × ModelAlias))
    → i < length xs
    → (x : ℕ × ModelAlias) × (ys : List (ℕ × ModelAlias)) × (remove_at i xs ≡ some (x, ys))
      × Perm (x ∷ ys) xs
unfolding remove_at
remove_at_total i [] h = absurd (omega arith)
remove_at_total zero (x ∷ xs) h = (x, xs, refl, Perm.refl _)
remove_at_total (suc i) (x ∷ xs) h =
    let (y, ys, e, p) = remove_at_total i xs (omega arith) in
    (y, x ∷ ys, rw (e, remove_at), Perm.trans (Perm.swap x y ys) (Perm.cons x p))

walk-lt : (ws : List ℕ) (t i : ℕ) → walk ws t ≡ some i → i < length ws
unfolding walk
walk-lt [] t i h = cc
walk-lt (w ∷ ws) t i h = ground (arith, walk-lt ws (t - w) (i - 1))

length-item_weights : (xs : List (ℕ × ModelAlias)) → length (item_weights xs) ≡ length xs
length-item_weights [] = refl
length-item_weights (x ∷ xs) = ground (arith, length-item_weights xs)

unwrap_walk-lt : (ws : List ℕ) (t d n : ℕ) → d < n → length ws ≤ n → unwrap_or (walk ws t) d < n
unwrap_walk-lt ws t d n h k = elim (Option-cases (walk ws t)) [
  | inl e ↦ rw e h
  | inr (i, e) ↦ rw e (omega (arith, walk-lt ws t i e))
]

weighted_first_index-lt :
    (s : Sampler) (x : ℕ × ModelAlias) (xs : List (ℕ × ModelAlias)) (session : Option Text)
    (alias : Text)
    → weighted_first_index s (x ∷ xs) session alias < length (x ∷ xs)
unfolding weighted_first_index
weighted_first_index-lt s x xs session alias = ground (
  arith,
  length-item_weights xs,
  unwrap_walk-lt (item_weights (x ∷ xs))
      (sample_target s session alias (total_weight (item_weights (x ∷ xs)))) (length xs)
      (suc (length xs)),
)

picked_index-lt :
    (s : Sampler) (x : ℕ × ModelAlias) (xs : List (ℕ × ModelAlias)) (session : Option Text)
    (alias : Text) (preferred : Option ℕ)
    → picked_index s (x ∷ xs) session alias preferred < length (x ∷ xs)
unfolding picked_index
picked_index-lt s x xs session alias none = weighted_first_index-lt s x xs session alias
picked_index-lt s x xs session alias (some i) =
    ground (arith, weighted_first_index-lt s x xs session alias)

-- Each weight is at least the next.
abbrev pub Descends : List (ℕ × ModelAlias) → Type 0
Descends [] = Unit
Descends (x ∷ []) = Unit
Descends (x ∷ y ∷ ys) = (y.0 ≤ x.0) × Descends (y ∷ ys)

insert_desc-Descends :
    (x : ℕ × ModelAlias) (ys : List (ℕ × ModelAlias)) → Descends ys → Descends (insert_desc x ys)
unfolding insert_desc
insert_desc-Descends x [] d = tt
insert_desc-Descends x (y ∷ []) d = ground arith
insert_desc-Descends x (y ∷ z ∷ zs) d = ground (arith, insert_desc-Descends x (z ∷ zs) d.1)

sort_desc-Descends : (xs : List (ℕ × ModelAlias)) → Descends (sort_desc xs)
unfolding sort_desc
sort_desc-Descends [] = tt
sort_desc-Descends (x ∷ xs) = insert_desc-Descends x (sort_desc xs) (sort_desc-Descends xs)

-- The order of a weighted pool: a head, and the other items heaviest first.
abbrev pub Ordered : List (ℕ × ModelAlias) → Option (List ModelAlias) → Type 0
Ordered items r =
    (head : ℕ × ModelAlias) × (rest : List (ℕ × ModelAlias)) × (r ≡ some (models (head ∷ rest)))
    × Perm (head ∷ rest) items
    × Descends rest

picked_first-Ordered :
    (i : ℕ) (items : List (ℕ × ModelAlias))
    → i < length items
    → Ordered items (picked_first (remove_at i items))
unfolding picked_first
picked_first-Ordered i items h =
    let (x, ys, e, p) = remove_at_total i items h in
    (
      x,
      sort_desc ys,
      rw (e, picked_first),
      Perm.trans (Perm.cons x (sort_desc-Perm ys)) p,
      sort_desc-Descends ys,
    )

-- With a positive total weight, the weighted strategy answers with every candidate model exactly
-- once, and all but the first come by descending weight. `preferred` may be any index.
pub order_targets_weighted :
    (s : Sampler) (c : TargetCandidate) (cs : List TargetCandidate) (session : Option Text)
    (preferred : Option ℕ)
    → c.strategy ≡ weighted
    → 0 < total_weight (item_weights (map item_of (c ∷ cs)))
    → Ordered (map item_of (c ∷ cs)) (order_targets s (c ∷ cs) session preferred)
unfolding order_targets
order_targets_weighted s c cs session preferred w h =
    let (head, rest, e, p, d) =
      picked_first-Ordered (picked_index s (map item_of (c ∷ cs)) session c.model.alias preferred)
        (map item_of (c ∷ cs))
        (picked_index-lt s (item_of c) (map item_of cs) session c.model.alias preferred) in
    (head, rest, ground (arith, e), p, d)

abbrev Answers : Option (List ModelAlias) → List (ℕ × ModelAlias) → Type 0
Answers r items = (out : List ModelAlias) × (r ≡ some out) × Perm out (models items)

weighted-Answers :
    (s : Sampler) (x : ℕ × ModelAlias) (xs : List (ℕ × ModelAlias)) (session : Option Text)
    (alias : Text) (preferred : Option ℕ)
    → Answers
        (if nat_beq (total_weight (item_weights (x ∷ xs))) 0
          then some (models (x ∷ xs))
          else picked_first (remove_at (picked_index s (x ∷ xs) session alias preferred) (x ∷ xs)))
        (x ∷ xs)
weighted-Answers s x xs session alias preferred =
    elim (Bool-cases (nat_beq (total_weight (item_weights (x ∷ xs))) 0)) [
      | inl e ↦ rw e (models (x ∷ xs), refl, Perm.refl _)
      | inr e ↦
          let (head, rest, r, p, d) =
            picked_first-Ordered (picked_index s (x ∷ xs) session alias preferred) (x ∷ xs)
              (picked_index-lt s x xs session alias preferred) in
          rw e (models (head ∷ rest), r, Perm.map (λ i. i.1) p)
    ]

order_items-Answers :
    (st : Strategy) (s : Sampler) (x : ℕ × ModelAlias) (xs : List (ℕ × ModelAlias))
    (session : Option Text) (alias : Text) (preferred : Option ℕ)
    → Answers (order_items st s (x ∷ xs) session alias preferred) (x ∷ xs)
unfolding order_items
order_items-Answers priority s x xs session alias preferred = (models (x ∷ xs), refl, Perm.refl _)
order_items-Answers weighted s x xs session alias preferred =
    weighted-Answers s x xs session alias preferred
order_items-Answers usage_aware s x xs session alias preferred =
    weighted-Answers s x xs session alias preferred

models-item_of : (cs : List TargetCandidate) → models (map item_of cs) ≡ map (λ c. c.model) cs
models-item_of [] = refl
models-item_of (c ∷ cs) = ground (arith, models-item_of cs)

-- Whatever the strategy, the session and the preferred index, `order_targets` does not panic, and
-- its answer is a permutation of the candidates' models: none is lost, none comes twice.
pub order_targets_total :
    (s : Sampler) (cs : List TargetCandidate) (session : Option Text) (preferred : Option ℕ)
    → (out : List ModelAlias) × (order_targets s cs session preferred ≡ some out)
      × Perm out (map (λ c. c.model) cs)
unfolding order_targets
order_targets_total s [] session preferred = ([], refl, Perm.refl [])
order_targets_total s (c ∷ cs) session preferred =
    rw (← models-item_of (c ∷ cs)) (
      order_items-Answers c.strategy s (item_of c) (map item_of cs) session c.model.alias preferred)

-- ===== src/Router/Select.antt =====
-- `select_key_excluding` and `usage_adjusted_pick` of src/features/router/state/mod.rs. The excluded
-- names are a list, and the ratios of tokens to weight are compared as exact fractions.
pub mod Candidates
pub mod Answer
pub mod Sticky
pub mod Kept
use llm_provider_router.Prelude.{
  ℕ, ◌+◌, ◌-◌, ◌*◌, ◌/◌, ◌^◌, max, min, Text, Bool, true, false, not, ◌&&◌, ◌||◌, Option, none,
  some, List, [], ◌∷◌, map, ltb, leb, filter, find, contains, or_option, unwrap_or, ◌==◌,
  text_equality, pair_eq, if◌then◌else◌,
}
use llm_provider_router.Prelude.Int.{pos_part, positive}
use llm_provider_router.Prelude.Dict.{Dict, lookup}
use llm_provider_router.Config.{
  KeyRef, ModelAlias, Strategy, priority, weighted, usage_aware, upstream_model,
}
use llm_provider_router.Usage.{key_token_totals_today, key_token_totals_for_model}
use llm_provider_router.StateStore.{FrozenKey, SessionBinding}
use llm_provider_router.Router.Freeze.{Env, key_state_id}
use llm_provider_router.Router.Selection.{
  Sampler, weighted_pick, priority_key_pick, key_exhausted, used_of,
}
use llm_provider_router.Router.State.{
  RouterState, cleanup, is_frozen, bind, unbind, key_model_blocked,
}

-- `NoAvailableKeyError` carries the seconds to wait.
pub data Selected : Type 0 where
  selected : KeyRef → Selected
  no_available_key : ℕ → Selected

-- A fraction of tokens over weight; `a / b < c / d`.
abbrev pub ratio_lt : ℕ × ℕ → ℕ × ℕ → Bool
ratio_lt (a, b) (c, d) = ltb (a * d) (c * b)

-- `fold(f64::INFINITY, f64::min)`; `none` is infinity.
pub min_ratio : List (ℕ × ℕ) → Option (ℕ × ℕ)
min_ratio [] = none
min_ratio (r ∷ rs) = elim (min_ratio rs) [
  | none ↦ some r
  | some m ↦ some (if ratio_lt m r then m else r)
]

-- `(ratio - min_ratio).abs() < f64::EPSILON`, for a ratio that is not below the minimum.
near : Option (ℕ × ℕ) → ℕ × ℕ → Bool
near none r = false
near (some (c, d)) (a, b) = ltb ((a * d - c * b) * 2 ^ 52) (b * d)

abbrev pub ratio_of : Dict Text ℕ → KeyRef → ℕ × ℕ
ratio_of totals k = (used_of totals k, pos_part k.weight)

lowest_keys : Dict Text ℕ → List KeyRef → List KeyRef
unfolding min_ratio near filter
lowest_keys totals positive_keys =
    let m = min_ratio (map (ratio_of totals) positive_keys) in
    filter (λ k. near m (ratio_of totals k)) positive_keys

pick_lowest :
    Env → ModelAlias → List KeyRef → Option Text → Dict Text ℕ → List KeyRef → Option KeyRef
pick_lowest env alias candidates session totals [] =
    weighted_pick env.sampler candidates session alias.alias
pick_lowest env alias candidates session totals (p ∷ ps) =
    weighted_pick env.sampler (lowest_keys totals (p ∷ ps)) session alias.alias

usage_adjusted_by :
    Env → ModelAlias → List KeyRef → Option Text → Option (Dict Text ℕ) → Option KeyRef
usage_adjusted_by env alias candidates session none = none
usage_adjusted_by env alias candidates session (some totals) =
    pick_lowest env alias candidates session totals
      (filter (λ (k : KeyRef). positive k.weight) candidates)

abbrev pub names_of : List KeyRef → List Text
names_of = map λ k. k.name

-- `usage_adjusted_pick(...)`; `none` is its error.
usage_adjusted_pick : Env → ℕ → ModelAlias → List KeyRef → Option Text → RouterState → Option KeyRef
usage_adjusted_pick env now alias candidates session s =
    usage_adjusted_by env alias candidates session (
      key_token_totals_for_model s.usage_store (env.local_midnight now) alias.alias
        (names_of candidates))

-- The pick of the pool's strategy, before the fallback to the first candidate.
pub strategy_pick :
    Env → ℕ → ModelAlias → List KeyRef → Option Text → RouterState → Strategy → Option KeyRef
strategy_pick env now alias candidates session s weighted =
    weighted_pick env.sampler candidates session alias.alias
strategy_pick env now alias candidates session s priority =
    let totals =
      unwrap_or
        (key_token_totals_today s.usage_store (env.local_midnight now) (names_of candidates)) [] in
    or_option (priority_key_pick candidates totals)
      (weighted_pick env.sampler candidates session alias.alias)
strategy_pick env now alias candidates session s usage_aware =
    or_option (usage_adjusted_pick env now alias candidates session s)
      (weighted_pick env.sampler candidates session alias.alias)

-- `self.is_frozen(id).unwrap_or(true)`
abbrev pub frozen_or_error : ℕ → Text → RouterState → RouterState × Bool
frozen_or_error now k s = let (s', r) = is_frozen now k s in (s', unwrap_or r true)

abbrev prepend : KeyRef → RouterState × List KeyRef → RouterState × List KeyRef
prepend k (s, ks) = (s, k ∷ ks)

-- The tests of `collect` that leave the state alone.
abbrev pub eligible : List Text → KeyRef → Bool
eligible excluded k = positive k.weight && not (contains k.name excluded)

abbrev pub blocked : ℕ → Text → RouterState → KeyRef → Bool
blocked now model s k = key_model_blocked now (k.provider, (k.name, model)) s

-- One key of `collect`, with the later keys from the state that this one leaves.
abbrev collect_key : Bool → Bool → KeyRef → RouterState × List KeyRef → RouterState × List KeyRef
collect_key frozen skip k rest = if frozen || skip then rest else prepend k rest

pub collect : ℕ → Text → List Text → Bool → List KeyRef → RouterState → RouterState × List KeyRef
collect now model excluded respect [] s = (s, [])
collect now model excluded respect (k ∷ ks) s =
    let plain = collect now model excluded respect ks s in
    let (s', frozen) = frozen_or_error now (key_state_id k) s in
    let rest = collect now model excluded respect ks s' in
    if eligible excluded k
    then collect_key frozen (respect && blocked now model s' k) k rest
    else plain

-- `min` of the seconds left over the freezes, or 60.
retry_after_of : ℕ → List (Text × FrozenKey) → Option ℕ
retry_after_of now [] = none
retry_after_of now ((k, f) ∷ fs) =
    let wait = max (f.until - now) 1000 / 1000 in
    elim (retry_after_of now fs) [ none ↦ some wait | some w ↦ some (min wait w) ]

bind_session : ℕ → ModelAlias → Option Text → KeyRef → RouterState → RouterState
bind_session now alias none key s = s
bind_session now alias (some session) key s = (bind now alias.alias session (key_state_id key) s).0

finish : Env → ℕ → ModelAlias → Option Text → RouterState × List KeyRef → RouterState × Selected
finish env now alias session (s, []) =
    (s, no_available_key (unwrap_or (retry_after_of now s.frozen) 60))
finish env now alias session (s, c ∷ cs) =
    let key = unwrap_or (strategy_pick env now alias (c ∷ cs) session s alias.strategy) c in
    (bind_session now alias session key s, selected key)

-- The second `collect` only runs when the first found nothing.
abbrev retry_collect :
    ℕ → Text → List Text → List KeyRef → RouterState × List KeyRef → RouterState × List KeyRef
retry_collect now model excluded keys (s, []) = collect now model excluded false keys s
retry_collect now model excluded keys (s, c ∷ cs) = (s, c ∷ cs)

pub select_fresh :
    Env → ℕ → ModelAlias → Option Text → List Text → RouterState → RouterState × Selected
select_fresh env now alias session excluded s =
    let model = upstream_model alias in
    finish env now alias session
      (retry_collect now model excluded alias.keys (collect now model excluded true alias.keys s))

-- The key that a binding still stands for.
unfoldable pub sticky_key : ℕ → ModelAlias → List Text → Text → RouterState → Option KeyRef
sticky_key now alias excluded bound s =
    let model = upstream_model alias in
    find
      (λ (k : KeyRef).
        key_state_id k == bound
        && positive k.weight
        && not (contains k.name excluded)
        && not (blocked now model s k))
      alias.keys

-- The quota of a bound key, asked for only if the key has one.
quota_spent : Env → ℕ → KeyRef → RouterState → Bool
quota_spent env now key s = elim key.daily_token_quota [
  | none ↦ false
  | some q ↦
      let totals =
        unwrap_or (key_token_totals_today s.usage_store (env.local_midnight now) (key.name ∷ []))
          [] in
      key_exhausted key (used_of totals key)
]

-- A bound session keeps its key, unless the key's quota is spent: then the binding goes too.
keep_or_move :
    Env → ℕ → ModelAlias → Text → List Text → Option KeyRef → RouterState → RouterState × Selected
keep_or_move env now alias session excluded none s =
    select_fresh env now alias (some session) excluded s
keep_or_move env now alias session excluded (some key) s =
    let moved = select_fresh env now alias (some session) excluded (unbind alias.alias session s) in
    if quota_spent env now key s
    then moved
    else ((bind now alias.alias session (key_state_id key) s).0, selected key)

from_binding :
    Env
    → ℕ
    → ModelAlias
    → Text
    → List Text
    → Option SessionBinding
    → RouterState
    → RouterState × Selected
from_binding env now alias session excluded none s =
    select_fresh env now alias (some session) excluded s
from_binding env now alias session excluded (some b) s =
    let (s', frozen) = frozen_or_error now b.key_name s in
    let stay =
      keep_or_move env now alias session excluded (sticky_key now alias excluded b.key_name s')
        s' in
    if contains b.key_name excluded
    then select_fresh env now alias (some session) excluded s
    else if frozen
    then select_fresh env now alias (some session) excluded s'
    else stay

after_cleanup :
    Env → ℕ → ModelAlias → Option Text → List Text → RouterState × Bool → RouterState × Selected
after_cleanup env now alias session excluded (s, false) = (s, no_available_key 60)
after_cleanup env now alias none excluded (s, true) = select_fresh env now alias none excluded s
after_cleanup env now alias (some session) excluded (s, true) =
    from_binding env now alias session excluded (lookup (alias.alias, session) s.bindings) s

pub select_key_excluding :
    Env → ℕ → ModelAlias → Option Text → List Text → RouterState → RouterState × Selected
select_key_excluding env now alias session excluded s =
    after_cleanup env now alias session excluded (cleanup now s)

-- ===== src/Router/State.antt =====
-- src/features/router/state/mod.rs: `RouterState` and the operations on freezes, bindings, connection
-- streaks, unsupported models and the log of recent errors. `now` is the clock's reading of the call,
-- in milliseconds. An operation answers with the state it leaves, also when the store refuses.
pub mod Frozen
pub mod Backoff
pub mod Mirror
pub mod Steps
pub mod Lasting
use llm_provider_router.Prelude.{
  ℕ, suc, ◌+◌, ◌-◌, ◌*◌, ◌%◌, ◌^◌, min, Text, text, Bool, true, false, not, ◌&&◌, ◌||◌, Option,
  none, some, List, [], ◌∷◌, ◌++◌, ltb, leb, nat_beq, length, take, filter, starts_with, ◌==◌,
  text_equality, pair_eq, unwrap_or, get_elem?, if◌then◌else◌,
}
use llm_provider_router.Prelude.Json.{Json}
use llm_provider_router.Prelude.Dict.{Dict, lookup, insert, remove, retain, keys_where, remove_all}
use llm_provider_router.Config.{ModelAlias}
use llm_provider_router.ErrorRules.{ErrorRulesConfig, ResolvedTunables, resolve}
use llm_provider_router.Usage.{UsageStore, record_event}
use llm_provider_router.Usage
use llm_provider_router.StateStore.{
  StateStore, FrozenKey, SessionBinding, UnsupportedEntry, SessionKey, KeyModel, upsert_frozen,
  delete_frozen, upsert_binding, delete_bindings, upsert_unsupported, delete_unsupported, accepts,
  selects,
}
use llm_provider_router.StateStore

-- The settings that the router state reads.
pub record Settings : Type 0 where
  pub session_ttl : ℕ
  pub monthly_quota_fallback : ℕ
  pub five_hour_quota_fallback : ℕ
  pub subscription_invalid_freeze : ℕ

pub record ConnectStreak : Type 0 where
  pub count : ℕ
  pub last_at : ℕ
  pub last_ttl : ℕ

pub record ConnectFailureStat : Type 0 where
  pub total : ℕ
  pub last_at : ℕ
  pub last_message : Text
  pub recent : List ℕ

pub record ErrorLogEntry : Type 0 where
  pub ts : ℕ
  pub provider : Text
  pub key : Text
  pub alias : Text
  pub model : Text
  pub status : ℕ
  pub class : Text
  pub rule : Text
  pub message : Text

pub record RouterState : Type 0 where
  pub settings : Settings
  pub store : StateStore
  pub frozen : Dict Text FrozenKey
  pub bindings : Dict SessionKey SessionBinding
  pub unsupported : Dict KeyModel UnsupportedEntry
  pub usage_store : UsageStore
  pub error_rules : ErrorRulesConfig
  pub recent_errors : List ErrorLogEntry
  pub connect_streaks : Dict Text ConnectStreak
  pub connect_failures : Dict Text ConnectFailureStat

-- What a call of the store leaves, and whether it succeeded.
abbrev stored : RouterState → Option StateStore → RouterState × Bool
stored s none = (s, false)
stored s (some st) = (record s { store = st }, true)

abbrev pub frozen_over : ℕ → Text → FrozenKey → Bool
frozen_over now k f = leb f.until now

abbrev pub binding_over : ℕ → SessionKey → SessionBinding → Bool
binding_over now k b = leb b.expires_at now

-- The rows go only after the memory, and the bindings' rows only after the freezes'.
delete_rows : RouterState → List Text → List SessionKey → RouterState × Bool
unfolding delete_frozen delete_bindings
delete_rows s names keys = elim (delete_frozen s.store names) [
  | none ↦ (s, false)
  | some st ↦ stored (record s { store = st }) (delete_bindings st keys)
]

unfoldable pub cleanup : ℕ → RouterState → RouterState × Bool
unfolding delete_rows keys_where remove_all
cleanup now s =
    let names = keys_where (frozen_over now) s.frozen in
    let keys = keys_where (binding_over now) s.bindings in
    delete_rows
      (record s { frozen = remove_all names s.frozen; bindings = remove_all keys s.bindings }) names
      keys

-- The answer of `is_frozen`: `none` is an error of the store.
abbrev thawed : RouterState × Bool → RouterState × Option Bool
thawed (s, true) = (s, some false)
thawed (s, false) = (s, none)

unfoldable pub is_frozen : ℕ → Text → RouterState → RouterState × Option Bool
unfolding lookup remove delete_frozen
is_frozen now k s = elim (lookup k s.frozen) [
  | none ↦ (s, some false)
  | some f ↦
      if leb f.until now
      then thawed
          (stored (record s { frozen = remove k s.frozen }) (delete_frozen s.store (k ∷ [])))
      else (s, some true)
]

-- A freeze is only ever extended.
unfoldable pub freeze : Text → ℕ → Text → RouterState → RouterState × Bool
unfolding lookup insert upsert_frozen
freeze k until reason s =
    let f : FrozenKey = record { until = until; reason = reason } in
    let update = stored (record s { frozen = insert k f s.frozen }) (upsert_frozen s.store k f) in
    elim (lookup k s.frozen) [
      | none ↦ update
      | some old ↦ if ltb old.until until then update else (s, true)
    ]

unfoldable pub clear_frozen : RouterState → RouterState × Bool
clear_frozen s =
    stored (record s { frozen = []; connect_streaks = [] }) (StateStore.clear_frozen s.store)

-- `name.starts_with("{provider}/") || name == provider`
abbrev pub of_provider : Text → Text → Bool
of_provider provider name = starts_with (provider ++ b'/' ∷ []) name || name == provider

cleared_for : RouterState → Text → List Text → Option StateStore → RouterState × Option ℕ
unfolding remove_all retain
cleared_for s provider names none = (s, none)
cleared_for s provider names (some st) = (
  record s {
    store = st;
    frozen = remove_all names s.frozen;
    connect_streaks = retain (λ id c. not (of_provider provider id)) s.connect_streaks;
  },
  some (length names),
)

-- The store goes first here: if it refuses, nothing changes.
unfoldable pub clear_frozen_for_provider : Text → RouterState → RouterState × Option ℕ
unfolding cleared_for keys_where delete_frozen
clear_frozen_for_provider provider s =
    let names = keys_where (λ k f. of_provider provider k) s.frozen in
    cleared_for s provider names (delete_frozen s.store names)

-- A failure within four times the last freeze continues the streak.
unfoldable pub streak_count : ℕ → Option ConnectStreak → ℕ
streak_count now none = 1
streak_count now (some c) =
    if ltb now (c.last_at + c.last_ttl * 4) then min (c.count + 1) (2 ^ 32 - 1) else 1

unfoldable pub streak_ttl : ℕ → ℕ → ℕ
streak_ttl base count = min (base * 2 ^ min (count - 1) 5) (base * 32)

unfoldable pub note_connect_failure_streak : ℕ → Text → ℕ → RouterState → RouterState × ℕ
note_connect_failure_streak now k base s =
    let count = streak_count now (lookup k s.connect_streaks) in
    let ttl = streak_ttl base count in
    let c : ConnectStreak = record { count = count; last_at = now; last_ttl = ttl } in
    if nat_beq base 0
    then (s, 0)
    else (record s { connect_streaks = insert k c s.connect_streaks }, ttl)

unfoldable pub clear_connect_streak : Text → RouterState → RouterState
unfolding remove
clear_connect_streak k s = record s { connect_streaks = remove k s.connect_streaks }

-- 24 hours.
abbrev pub connect_failure_retention : ℕ
connect_failure_retention = 86_400_000

-- `while front < cutoff { pop_front }`
drop_before : ℕ → ℕ → List ℕ → List ℕ
drop_before now retention [] = []
drop_before now retention (t ∷ ts) =
    let rest = drop_before now retention ts in if ltb (t + retention) now then rest else t ∷ ts

abbrev no_failures : ConnectFailureStat
no_failures = record { total = 0; last_at = 0; last_message = []; recent = [] }

noted : ℕ → Text → ConnectFailureStat → ConnectFailureStat
unfolding drop_before
noted now message st = record {
  total = min (st.total + 1) (2 ^ 64 - 1);
  last_at = now;
  last_message = take 200 message;
  recent = drop_before now connect_failure_retention (st.recent ++ now ∷ []);
}

unfoldable pub note_connect_failure : ℕ → Text → Text → RouterState → RouterState
unfolding lookup insert noted
note_connect_failure now k message s =
    let st = unwrap_or (lookup k s.connect_failures) no_failures in
    record s { connect_failures = insert k (noted now message st) s.connect_failures }

unfoldable pub bind : ℕ → Text → Text → Text → RouterState → RouterState × Bool
unfolding insert upsert_binding
bind now alias session key_name s =
    let b : SessionBinding = record {
      key_name = key_name;
      expires_at = now + s.settings.session_ttl;
    } in
    stored (record s { bindings = insert (alias, session) b s.bindings })
      (upsert_binding s.store (alias, session) b)

-- An error of the store is only logged.
unfoldable pub unbind : Text → Text → RouterState → RouterState
unfolding remove delete_bindings
unbind alias session s =
    (stored (record s { bindings = remove (alias, session) s.bindings })
      (delete_bindings s.store ((alias, session) ∷ []))).0

unfoldable pub tunables : RouterState → ResolvedTunables
unfolding resolve
tunables s = resolve s.error_rules.tunables s.settings.subscription_invalid_freeze

abbrev pub recent_errors_cap : ℕ
recent_errors_cap = 200

drop_front : List ErrorLogEntry → List ErrorLogEntry
drop_front [] = []
drop_front (x ∷ xs) = xs

unfoldable pub push_recent_error : ErrorLogEntry → RouterState → RouterState
unfolding drop_front
push_recent_error entry s =
    let kept =
      if leb recent_errors_cap (length s.recent_errors)
      then drop_front s.recent_errors
      else s.recent_errors in
    record s { recent_errors = kept ++ entry ∷ [] }

-- 1 minute, 5 minutes, 30 minutes, 2 hours, 8 hours; then a day, which is permanent.
abbrev pub retry_ladder : List ℕ
retry_ladder = 60_000 ∷ 300_000 ∷ 1_800_000 ∷ 7_200_000 ∷ 28_800_000 ∷ []

abbrev pub permanent_threshold : ℕ
permanent_threshold = 86_400_000

abbrev pub previous_attempt : Option UnsupportedEntry → ℕ
previous_attempt none = 0
previous_attempt (some e) = e.attempt

unfoldable pub next_unsupported : ℕ → Text → Option UnsupportedEntry → UnsupportedEntry
next_unsupported now error previous =
    let attempt = (previous_attempt previous + 1) % 2 ^ 32 in
    let delay = unwrap_or (get_elem? retry_ladder (attempt - 1)) permanent_threshold in
    record {
      last_error = take 300 error;
      attempt = attempt;
      last_error_at = now;
      retry_at = now + delay;
      permanent = leb permanent_threshold delay;
    }

unfoldable pub mark_key_model_unsupported : ℕ → KeyModel → Text → RouterState → RouterState
unfolding lookup insert upsert_unsupported next_unsupported
mark_key_model_unsupported now k error s =
    let entry = next_unsupported now error (lookup k s.unsupported) in
    (stored (record s { unsupported = insert k entry s.unsupported })
      (upsert_unsupported s.store k entry)).0

unfoldable pub key_model_blocked : ℕ → KeyModel → RouterState → Bool
unfolding lookup
key_model_blocked now k s = elim (lookup k s.unsupported) [
  | none ↦ false
  | some e ↦ e.permanent || ltb now e.retry_at
]

abbrev stored_count : RouterState → Option (ℕ × StateStore) → RouterState
stored_count s none = s
stored_count s (some (n, st)) = record s { store = st }

unfoldable pub clear_key_model_unsupported : KeyModel → RouterState → RouterState
unfolding lookup remove delete_unsupported
clear_key_model_unsupported (p, (k, m)) s = elim (lookup (p, (k, m)) s.unsupported) [
  | none ↦ s
  | some e ↦
      stored_count (record s { unsupported = remove (p, (k, m)) s.unsupported })
        (delete_unsupported s.store (some p) (some k) (some m))
]

-- The store goes first: if it refuses, nothing changes.
unfoldable pub refresh_unsupported :
    Option Text → Option Text → Option Text → RouterState → RouterState × Option ℕ
unfolding retain delete_unsupported
refresh_unsupported provider key model s = elim (delete_unsupported s.store provider key model) [
  | none ↦ (s, none)
  | some (n, st) ↦ (
    record s {
      store = st;
      unsupported = retain (λ k e. not (selects provider key model k)) s.unsupported;
    },
    some n,
  )
]

unfoldable pub record_usage :
    ℕ → Text → Text → ℕ → Option Json → Option Text → RouterState → RouterState
unfolding record_event
record_usage now model key_name status usage session s =
    elim (record_event s.usage_store now model key_name status usage session) [
      | none ↦ s
      | some u ↦ record s { usage_store = u }
    ]

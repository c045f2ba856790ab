-- ===== src/StateStore.antt =====
-- src/state_store.rs: the SQLite tables behind the router state, each by its primary key. A statement
-- succeeds while `conn_ok`, and a failed call changes nothing.
use llm_provider_router.Prelude.{
  ℕ, Text, Bool, true, not, ◌&&◌, Option, none, some, List, [], ◌∷◌, ltb, length, ◌==◌,
  text_equality, pair_eq, ◌-◌, if◌then◌else◌,
}
use llm_provider_router.Prelude.Dict.{Dict, lookup, insert, remove, retain}

pub record FrozenKey : Type 0 where
  pub until : ℕ
  pub reason : Text

pub record SessionBinding : Type 0 where
  pub key_name : Text
  pub expires_at : ℕ

pub record UnsupportedEntry : Type 0 where
  pub last_error : Text
  pub attempt : ℕ
  pub last_error_at : ℕ
  pub retry_at : ℕ
  pub permanent : Bool

abbrev pub SessionKey : Type 0
SessionKey = Text × Text

-- Provider, key name and upstream model.
abbrev pub KeyModel : Type 0
KeyModel = Text × (Text × Text)

pub record StateStore : Type 0 where
  pub conn_ok : Bool
  pub frozen_keys : Dict Text FrozenKey
  pub session_bindings : Dict SessionKey SessionBinding
  pub key_model_unsupported : Dict KeyModel UnsupportedEntry

-- `SELECT … WHERE until > now`
unfoldable pub load_frozen : StateStore → ℕ → Option (Dict Text FrozenKey)
unfolding retain
load_frozen s now = if s.conn_ok then some (retain (λ k f. ltb now f.until) s.frozen_keys) else none

abbrev pub upsert_frozen_row : Text → FrozenKey → Dict Text FrozenKey → Dict Text FrozenKey
upsert_frozen_row k f rows = elim (lookup k rows) [
  | none ↦ insert k f rows
  | some old ↦ if ltb old.until f.until then insert k f rows else rows
]

-- `ON CONFLICT … DO UPDATE … WHERE excluded.until > frozen_keys.until`
unfoldable pub upsert_frozen : StateStore → Text → FrozenKey → Option StateStore
unfolding lookup insert
upsert_frozen s k f =
    if s.conn_ok
    then some (record s { frozen_keys = upsert_frozen_row k f s.frozen_keys })
    else none

unfoldable pub delete_frozen : StateStore → List Text → Option StateStore
unfolding remove
delete_frozen s [] = some s
delete_frozen s (k ∷ ks) =
    let rest = delete_frozen (record s { frozen_keys = remove k s.frozen_keys }) ks in
    if s.conn_ok then rest else none

unfoldable pub clear_frozen : StateStore → Option StateStore
clear_frozen s = if s.conn_ok then some (record s { frozen_keys = [] }) else none

unfoldable pub load_unsupported : StateStore → Option (Dict KeyModel UnsupportedEntry)
load_unsupported s = if s.conn_ok then some s.key_model_unsupported else none

unfoldable pub upsert_unsupported : StateStore → KeyModel → UnsupportedEntry → Option StateStore
unfolding insert
upsert_unsupported s k e =
    if s.conn_ok
    then some (record s { key_model_unsupported = insert k e s.key_model_unsupported })
    else none

-- A filter that is not given restricts nothing.
abbrev pub accepts : Option Text → Text → Bool
accepts none v = true
accepts (some w) v = w == v

abbrev pub selects : Option Text → Option Text → Option Text → KeyModel → Bool
selects provider key model (p, (k, m)) = accepts provider p && accepts key k && accepts model m

-- The rows deleted are counted.
unfoldable pub delete_unsupported :
    StateStore → Option Text → Option Text → Option Text → Option (ℕ × StateStore)
unfolding retain
delete_unsupported s provider key model =
    let left = retain (λ k e. not (selects provider key model k)) s.key_model_unsupported in
    if s.conn_ok
    then some
        (length s.key_model_unsupported - length left, record s { key_model_unsupported = left })
    else none

unfoldable pub load_bindings : StateStore → ℕ → Option (Dict SessionKey SessionBinding)
unfolding retain
load_bindings s now =
    if s.conn_ok then some (retain (λ k b. ltb now b.expires_at) s.session_bindings) else none

unfoldable pub upsert_binding : StateStore → SessionKey → SessionBinding → Option StateStore
unfolding insert
upsert_binding s k b =
    if s.conn_ok then some (record s { session_bindings = insert k b s.session_bindings }) else none

unfoldable pub delete_bindings : StateStore → List SessionKey → Option StateStore
unfolding remove
delete_bindings s [] = some s
delete_bindings s (k ∷ ks) =
    let rest = delete_bindings (record s { session_bindings = remove k s.session_bindings }) ks in
    if s.conn_ok then rest else none

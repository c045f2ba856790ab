-- ===== src/Responses/Delta.antt =====
-- src/features/responses/delta.rs: the cache of request contexts. A client sends the items that are
-- new, and the router puts the cached prefix in front. The mutex makes each of the functions
-- `register_full`, `take_items` and `put_items` one step; a delta is the last two in a row. `now` is
-- the reading of the clock in the call, and `stamp` the bytes of clock and counter in a token.
pub mod Apply
pub mod Bytes
pub mod Context
pub mod Answers
pub mod Prefix
use llm_provider_router.Prelude.{
  ℕ, suc, zero, ◌+◌, ◌-◌, Text, text, Bool, true, false, not, ◌||◌, ◌⊎◌, inl, inr, Option, none,
  some, List, [], ◌∷◌, ◌++◌, ltb, leb, nat_beq, length, take, ◌==◌, text_equality, unwrap_or,
  if◌then◌else◌,
}
use llm_provider_router.Prelude.Json.{
  Json, Fields, null, array, object, get, as_array, as_str, is_object, insert_field, remove_field,
  to_list, of_list,
}
use llm_provider_router.Usage.{◌>>=◌}
use llm_provider_router.Prelude.Dict.{Dict, lookup, insert, remove, keys_where}

-- `serde_json::to_vec`, and SHA-256 in hexadecimal digits.
pub record Hasher : Type 0 where
  pub to_vec : Json → List ℕ
  pub sha256_hex : List ℕ → Text

pub record DeltaSettings : Type 0 where
  pub max_sessions : ℕ
  pub max_total_bytes : ℕ
  pub session_max_bytes : ℕ
  pub ttl : ℕ

pub record SessionEntry : Type 0 where
  pub instructions : Json
  pub items : List Json
  pub base_hash : Text
  pub bytes : ℕ
  pub last_access : ℕ

pub record DeltaStats : Type 0 where
  pub full_stores : ℕ
  pub delta_hits : ℕ
  pub miss_token : ℕ
  pub miss_hash : ℕ
  pub skip_oversize : ℕ
  pub evictions : ℕ

pub record DeltaCache : Type 0 where
  pub enabled : Bool
  pub sessions : Dict Text SessionEntry
  pub total_bytes : ℕ
  pub stats : DeltaStats

pub data DeltaMiss : Type 0 where
  rejected : Text → DeltaMiss
  token_miss hash_miss : DeltaMiss

hashed_items : Hasher → List Json → List ℕ
hashed_items h [] = []
hashed_items h (v ∷ vs) = h.to_vec v ++ 0x1e ∷ hashed_items h vs

-- 0x00 ends the instructions and 0x1e each item.
unfoldable pub compute_base_hash : Hasher → Json → List Json → Text
unfolding hashed_items
compute_base_hash h instructions items =
    h.sha256_hex (h.to_vec instructions ++ 0x00 ∷ hashed_items h items)

items_bytes : Hasher → List Json → ℕ
items_bytes h [] = 0
items_bytes h (v ∷ vs) = length (h.to_vec v) + items_bytes h vs

unfoldable pub entry_bytes : Hasher → Json → List Json → ℕ
unfolding items_bytes
entry_bytes h instructions items = length (h.to_vec instructions) + items_bytes h items

-- Eight bytes of the digest, as sixteen digits.
abbrev pub next_token : Hasher → List ℕ → Text → Text
next_token h stamp base_hash = take 16 (h.sha256_hex (stamp ++ base_hash))

unfoldable pub clear : DeltaCache → DeltaCache
clear c = record c { sessions = []; total_bytes = 0 }

unfoldable pub set_enabled : Bool → DeltaCache → DeltaCache
unfolding clear
set_enabled on c = let c' = record c { enabled = on } in if on then c' else clear c'

unfoldable pub settings_cleared : DeltaSettings → DeltaCache → Bool
settings_cleared s c = not c.enabled || nat_beq s.max_sessions 0 || nat_beq s.max_total_bytes 0

-- One session goes: its bytes are subtracted, down to 0, and the eviction is counted.
unfoldable pub evict : Text → DeltaCache → DeltaCache
unfolding lookup remove
evict k c = elim (lookup k c.sessions) [
  | none ↦ c
  | some e ↦ record c {
    sessions = remove k c.sessions;
    total_bytes = c.total_bytes - e.bytes;
    stats = record c.stats { evictions = c.stats.evictions + 1 };
  }
]

unfoldable pub evict_each : List Text → DeltaCache → DeltaCache
evict_each [] c = c
evict_each (k ∷ ks) c = evict_each ks (evict k c)

abbrev pub expired : ℕ → DeltaSettings → Text → SessionEntry → Bool
expired now s k e = leb s.ttl (now - e.last_access)

-- The number of sessions removed is used by no caller.
unfoldable pub remove_expired : ℕ → DeltaSettings → DeltaCache → DeltaCache
unfolding keys_where
remove_expired now s c = evict_each (keys_where (expired now s) c.sessions) c

abbrev pub older : Text × SessionEntry → Option (Text × SessionEntry) → Text × SessionEntry
older x none = x
older (k, e) (some (j, f)) = if leb e.last_access f.last_access then (k, e) else (j, f)

-- `min_by_key(last_access)`; the order of a `HashMap` is not fixed, and here the first wins a tie.
unfoldable pub oldest : Dict Text SessionEntry → Option (Text × SessionEntry)
oldest [] = none
oldest (x ∷ xs) = some (older x (oldest xs))

abbrev pub over : DeltaSettings → DeltaCache → Bool
over s c = ltb s.max_sessions (length c.sessions) || ltb s.max_total_bytes c.total_bytes

abbrev evict_oldest : DeltaCache → Option (Text × SessionEntry) → DeltaCache
evict_oldest c none = c
evict_oldest c (some (k, e)) = evict k c

-- The loop of `evict_lru`, as often as there are sessions at most.
unfoldable pub evict_loop : ℕ → DeltaSettings → DeltaCache → DeltaCache
evict_loop zero s c = c
evict_loop (suc n) s c =
    let rest = evict_loop n s (evict_oldest c (oldest c.sessions)) in if over s c then rest else c

unfoldable pub evict_lru : DeltaSettings → DeltaCache → DeltaCache
unfolding evict_loop
evict_lru s c = evict_loop (length c.sessions) s c

pub store_full :
    Hasher → DeltaSettings → ℕ → Text → Text → Json → List Json → DeltaCache → DeltaCache
unfolding remove_expired insert evict_lru
store_full h s now token base_hash instructions items c =
    let c' = remove_expired now s c in
    let e : SessionEntry = record {
      instructions = instructions;
      items = items;
      base_hash = base_hash;
      bytes = entry_bytes h instructions items;
      last_access = now;
    } in
    evict_lru s (record c' {
      sessions = insert token e c'.sessions;
      total_bytes = c'.total_bytes + entry_bytes h instructions items;
      stats = record c'.stats { full_stores = c'.stats.full_stores + 1 };
    })

-- The second lock asks whether the entry is still there.
granted : Text → DeltaCache → DeltaCache × Option (Text × Text)
unfolding lookup
granted token c = elim (lookup token c.sessions) [
  | none ↦ (c, none)
  | some e ↦ (c, some (token, e.base_hash))
]

register_items :
    Hasher
    → DeltaSettings
    → ℕ
    → List ℕ
    → Json
    → List Json
    → DeltaCache
    → DeltaCache × Option (Text × Text)
unfolding granted
register_items h s now stamp instructions items c =
    let base_hash = compute_base_hash h instructions items in
    let token = next_token h stamp base_hash in
    if ltb s.session_max_bytes (entry_bytes h instructions items)
    then (record c { stats = record c.stats { skip_oversize = c.stats.skip_oversize + 1 } }, none)
    else granted token (store_full h s now token base_hash instructions items c)

-- A full request: its token and hash, or nothing if it is not cached.
unfoldable pub register_full :
    Hasher → DeltaSettings → ℕ → List ℕ → Json → DeltaCache → DeltaCache × Option (Text × Text)
unfolding settings_cleared register_items text
register_full h s now stamp payload c =
    let instructions = unwrap_or (get (text "instructions") payload) null in
    let input = (do v ← get (text "input") payload; as_array v) in
    if settings_cleared s c then (c, none) else elim input [
      | none ↦ (c, none)
      | some items ↦ register_items h s now stamp instructions items c
    ]

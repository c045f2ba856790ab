-- ===== src/Responses/Delta/Apply.antt =====
-- src/features/responses/delta.rs: `apply_delta`. Between its two locks other requests may run, so
-- its halves `take_items` and `put_items` are operations of their own.
use llm_provider_router.Prelude.{
  ℕ, ◌+◌, ◌-◌, Text, text, Bool, true, false, ◌⊎◌, inl, inr, none, some, List, [], ◌∷◌, ◌++◌, ◌==◌,
  text_equality, unwrap_or, if◌then◌else◌,
}
use llm_provider_router.Prelude.Json.{
  Json, Fields, array, object, get, as_array, as_str, is_object, insert_field, remove_field,
  of_list,
}
use llm_provider_router.Usage.{◌>>=◌}
use llm_provider_router.Prelude.Dict.{lookup, insert}
use llm_provider_router.Responses.Delta.{
  Hasher, DeltaSettings, SessionEntry, DeltaCache, DeltaMiss, rejected, token_miss, hash_miss,
  compute_base_hash, entry_bytes, settings_cleared, remove_expired, evict_lru,
}

-- `x_delta`: the token, the hash of the client's prefix, and the new items.
pub record DeltaRequest : Type 0 where
  pub token : Text
  pub base_hash : Text
  pub append : List Json

named_request : Text → Text → List Json → DeltaMiss ⊎ DeltaRequest
unfolding text
named_request [] base_hash append = inl (rejected (text "x_delta.token/base_hash required"))
named_request (c ∷ t) [] append = inl (rejected (text "x_delta.token/base_hash required"))
named_request (c ∷ t) (d ∷ b) append =
    inr (record { token = c ∷ t; base_hash = d ∷ b; append = append })

abbrev str_field : Text → Json → Text
str_field k v = unwrap_or (do x ← get k v; as_str x) []

object_request : Json → DeltaMiss ⊎ DeltaRequest
unfolding text named_request
object_request x = elim (do a ← get (text "append") x; as_array a) [
  | none ↦ inl (rejected (text "x_delta.append must be an array"))
  | some append ↦ named_request (str_field (text "token") x) (str_field (text "base_hash") x) append
]

unfoldable pub read_delta : Json → DeltaMiss ⊎ DeltaRequest
unfolding text object_request
read_delta payload = elim (get (text "x_delta") payload) [
  | none ↦ inl (rejected (text "missing x_delta"))
  | some x ↦
      if is_object x then object_request x else inl (rejected (text "x_delta must be an object"))
]

pub is_delta_request : Json → Bool
unfolding text
is_delta_request payload = elim (get (text "x_delta") payload) [ none ↦ false | some x ↦ true ]

-- The first lock: the prefix of the token, whose items are moved out of the cache.
unfoldable pub take_items :
    ℕ → DeltaSettings → Text → Text → DeltaCache → DeltaCache × (DeltaMiss ⊎ (Json × List Json))
unfolding lookup insert
take_items now s token base_hash c =
    let c' = remove_expired now s c in
    elim (lookup token c'.sessions) [
      | none ↦ (
        record c' { stats = record c'.stats { miss_token = c'.stats.miss_token + 1 } },
        inl token_miss,
      )
      | some e ↦
          if e.base_hash == base_hash
          then (
            record c' { sessions = insert token (record e { items = [] }) c'.sessions },
            inr (e.instructions, e.items),
          )
          else (
            record c' { stats = record c'.stats { miss_hash = c'.stats.miss_hash + 1 } },
            inl hash_miss,
          )
    ]

abbrev pub advanced : Hasher → ℕ → Json → List Json → SessionEntry → SessionEntry
advanced h now instructions items e = record e {
  items = items;
  base_hash = compute_base_hash h instructions items;
  bytes = entry_bytes h instructions items;
  last_access = now;
}

abbrev pub hit : DeltaCache → DeltaCache
hit c = record c { stats = record c.stats { delta_hits = c.stats.delta_hits + 1 } }

-- The second lock: the entry, if it is still there, gets the longer prefix.
unfoldable pub put_items :
    Hasher → ℕ → DeltaSettings → Text → Json → List Json → DeltaCache → DeltaCache
unfolding lookup insert
put_items h now s token instructions items c = elim (lookup token c.sessions) [
  | none ↦ hit c
  | some e ↦ evict_lru s (
      hit (record c {
        sessions = insert token (advanced h now instructions items e) c.sessions;
        total_bytes = c.total_bytes - e.bytes + entry_bytes h instructions items;
      }))
]

abbrev pub completed : Json → List Json → Fields → Fields
completed instructions items fs =
    insert_field (text "instructions") instructions
      (insert_field (text "input") (array (of_list items)) (remove_field (text "x_delta") fs))

-- The whole payload, from the delta's own fields and the prefix.
unfoldable pub rebuild : Json → List Json → Json → DeltaMiss ⊎ Json
unfolding text insert_field remove_field
rebuild instructions items (object fs) = inr (object (completed instructions items fs))
rebuild instructions items _ = inl (rejected (text "payload must be an object"))

abbrev pub advance : Text → DeltaMiss ⊎ Json → DeltaMiss ⊎ (Json × Text)
advance new_hash (inl miss) = inl miss
advance new_hash (inr payload) = inr (payload, new_hash)

abbrev pub extend :
    Hasher
    → ℕ
    → DeltaSettings
    → (DeltaCache → DeltaCache)
    → DeltaRequest
    → Json
    → DeltaCache × (DeltaMiss ⊎ (Json × List Json))
    → DeltaCache × (DeltaMiss ⊎ (Json × Text))
extend h now s others r payload (c, inl miss) = (c, inl miss)
extend h now s others r payload (c, inr (instructions, items)) = (
  put_items h now s r.token instructions (items ++ r.append) (others c),
  advance (compute_base_hash h instructions (items ++ r.append))
      (rebuild instructions (items ++ r.append) payload),
)

abbrev pub deltas :
    Hasher
    → ℕ
    → DeltaSettings
    → (DeltaCache → DeltaCache)
    → Json
    → DeltaMiss ⊎ DeltaRequest
    → DeltaCache
    → DeltaCache × (DeltaMiss ⊎ (Json × Text))
deltas h now s others payload (inl miss) c = (c, inl miss)
deltas h now s others payload (inr r) c =
    extend h now s others r payload (take_items now s r.token r.base_hash c)

-- What other requests do between the two locks, if they do nothing.
abbrev pub idle : DeltaCache → DeltaCache
idle c = c

-- `others` is what other requests do to the cache between the two locks.
unfoldable pub apply_delta :
    Hasher
    → ℕ
    → DeltaSettings
    → (DeltaCache → DeltaCache)
    → Json
    → DeltaCache
    → DeltaCache × (DeltaMiss ⊎ (Json × Text))
unfolding text settings_cleared read_delta
apply_delta h now s others payload c =
    if settings_cleared s c
    then (c, inl (rejected (text "delta cache disabled")))
    else deltas h now s others payload (read_delta payload) c

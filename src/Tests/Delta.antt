-- ===== src/Tests/Delta.antt =====
-- Runs of the delta cache.
use llm_provider_router.Prelude.{
  ◌≤◌, text, ◌≡◌, refl, inr, [], ◌∷◌, length, true, text_eq, text_equality,
}
use llm_provider_router.Prelude.Json.{
  Json, null, string, array, object, field, end, cons, nil, get, get_field, as_array, as_str,
  is_object, insert_field, remove_field,
}
use llm_provider_router.Prelude.Dict.{lookup, insert, remove, keys_where, contains_key}
use llm_provider_router.Responses.Delta.{
  Hasher, DeltaSettings, SessionEntry, DeltaCache, evict_lru, compute_base_hash, remove_expired,
  evict_each, settings_cleared, evict_loop,
}
use llm_provider_router.Responses.Delta.Apply.{
  DeltaRequest, apply_delta, idle, take_items, put_items, read_delta, rebuild,
}
use llm_provider_router.Responses.Delta.Bytes.{evict_lru_within}
use llm_provider_router.Responses.Delta.Context.{Sound}
use llm_provider_router.Responses.Delta.Answers.{apply_delta-Sound}
use llm_provider_router.Responses.Delta.Prefix.{
  Continues, apply_delta-Continues, second_delta_loses_prefix,
}

abbrev hasher : Hasher
hasher = record { to_vec = λ v. 7 ∷ []; sha256_hex = λ t. b'h' ∷ [] }

abbrev settings : DeltaSettings
settings = record { max_sessions = 1; max_total_bytes = 100; session_max_bytes = 50; ttl = 60 }

abbrev session : SessionEntry
session = record {
  instructions = null;
  items = null ∷ [];
  base_hash = b'h' ∷ [];
  bytes = 2;
  last_access = 5;
}

abbrev cache : DeltaCache
cache = record {
  enabled = true;
  sessions = (b't' ∷ [], session) ∷ [];
  total_bytes = 2;
  stats = record {
    full_stores = 1;
    delta_hits = 0;
    miss_token = 0;
    miss_hash = 0;
    skip_oversize = 0;
    evictions = 0;
  };
}

-- Two sessions, one more than the settings allow.
abbrev full_cache : DeltaCache
full_cache = record cache {
  sessions = (b't' ∷ [], session) ∷ (b'u' ∷ [], session) ∷ [];
  total_bytes = 4;
}

abbrev payload : Json
payload = object (
    field (text "x_delta")
      (object (
        field (text "token") (string (b't' ∷ [])) (
          field (text "base_hash") (string (b'h' ∷ []))
            (field (text "append") (array (cons (string []) nil)) end))))
      end)

abbrev whole : Json
whole = object (
    field (text "input") (array (cons null (cons (string []) nil)))
      (field (text "instructions") null end))

cache-Sound : Sound hasher cache
unfolding contains_key compute_base_hash
cache-Sound = (((refl, tt), refl), (refl, tt))

evict_lru_within_example :
    (length (evict_lru settings full_cache).sessions ≤ 1)
    × ((evict_lru settings full_cache).total_bytes ≤ 100)
unfolding contains_key text_eq
evict_lru_within_example = evict_lru_within settings full_cache ((refl, (refl, tt)), refl)

apply_delta-Sound_example : Sound hasher (apply_delta hasher 9 settings idle payload cache).0
apply_delta-Sound_example = apply_delta-Sound hasher 9 settings payload cache cache-Sound

second_delta_loses_prefix_example :
    ((take_items 9 settings (b't' ∷ []) (b'h' ∷ []) cache).1 ≡ inr (null, null ∷ []))
    × ((take_items 10 settings
          (b't' ∷ [])
          (b'h' ∷ [])
          (take_items 9 settings (b't' ∷ []) (b'h' ∷ []) cache).0).1
        ≡ inr (null, []))
unfolding remove_expired evict_each keys_where lookup text_eq contains_key
second_delta_loses_prefix_example =
    second_delta_loses_prefix 9 10 settings (b't' ∷ []) (b'h' ∷ []) session cache (refl, tt) refl
      refl refl

apply_delta-Continues_example :
    (r : DeltaRequest) × (read_delta payload ≡ inr r)
    × Continues hasher 9 settings r whole (b'h' ∷ [])
unfolding apply_delta settings_cleared read_delta take_items put_items rebuild remove_expired
    evict_each keys_where lookup insert remove evict_lru evict_loop get get_field as_array as_str
    is_object insert_field remove_field text text_eq compute_base_hash
apply_delta-Continues_example =
    apply_delta-Continues hasher 9 settings idle payload cache whole (b'h' ∷ []) cache-Sound refl

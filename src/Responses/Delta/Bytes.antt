-- ===== src/Responses/Delta/Bytes.antt =====
-- The byte count of the delta cache and the bounds that eviction keeps.
use llm_provider_router.Prelude.{
  ℕ, suc, zero, ◌+◌, ◌≤◌, Text, false, ◌≡◌, refl, ap, ◌⊎◌, inl, inr, Option, none, some, List, [],
  ◌∷◌, arith, leb, length, text_equality, text_eq_iff, Bool-cases, beq_refl,
}
use llm_provider_router.Prelude.Dict.{
  Dict, length-remove, remove-Fresh, lookup, insert, remove, keys_where, Distinct, Distinct-remove,
  lookup-Fresh,
}
use llm_provider_router.Responses.Delta.{
  DeltaSettings, SessionEntry, DeltaCache, evict, evict_each, remove_expired, expired, oldest, over,
  evict_oldest, evict_loop, evict_lru,
}

abbrev pub sum_bytes : Dict Text SessionEntry → ℕ
sum_bytes [] = 0
sum_bytes ((k, e) ∷ m) = e.bytes + sum_bytes m

abbrev pub bytes_of : Option SessionEntry → ℕ
bytes_of none = 0
bytes_of (some e) = e.bytes

-- The tokens are distinct and the byte count is that of the entries.
abbrev pub Balanced : DeltaCache → Type 0
Balanced c = Distinct c.sessions × (c.total_bytes ≡ sum_bytes c.sessions)

pub sum_bytes-remove :
    (k : Text) (m : Dict Text SessionEntry)
    → Distinct m
    → sum_bytes (remove k m) + bytes_of (lookup k m) ≡ sum_bytes m
unfolding remove lookup
sum_bytes-remove k [] d = refl
sum_bytes-remove k ((j, e) ∷ m) d =
    ground (arith, text_eq_iff j k, sum_bytes-remove k m d.1, remove-Fresh j m d.0)

pub sum_bytes-insert :
    (k : Text) (e : SessionEntry) (m : Dict Text SessionEntry)
    → sum_bytes (insert k e m) + bytes_of (lookup k m) ≡ sum_bytes m + e.bytes
unfolding insert lookup
sum_bytes-insert k e [] = omega arith
sum_bytes-insert k e ((j, f) ∷ m) = ground (arith, sum_bytes-insert k e m)

pub evict-Balanced : (k : Text) (c : DeltaCache) → Balanced c → Balanced (evict k c)
unfolding evict
evict-Balanced k c (d, b) = (
  ground (arith, Distinct-remove k c.sessions d),
  ground (arith, b, sum_bytes-remove k c.sessions d),
)

evict_each-Balanced : (ks : List Text) (c : DeltaCache) → Balanced c → Balanced (evict_each ks c)
unfolding evict_each
evict_each-Balanced [] c b = b
evict_each-Balanced (k ∷ ks) c b = evict_each-Balanced ks (evict k c) (evict-Balanced k c b)

pub remove_expired-Balanced :
    (now : ℕ) (s : DeltaSettings) (c : DeltaCache) → Balanced c → Balanced (remove_expired now s c)
unfolding remove_expired
remove_expired-Balanced now s c b = evict_each-Balanced (keys_where (expired now s) c.sessions) c b

evict_oldest-Balanced :
    (c : DeltaCache) (o : Option (Text × SessionEntry)) → Balanced c → Balanced (evict_oldest c o)
evict_oldest-Balanced c none b = b
evict_oldest-Balanced c (some (k, e)) b = evict-Balanced k c b

evict_loop-Balanced :
    (n : ℕ) (s : DeltaSettings) (c : DeltaCache) → Balanced c → Balanced (evict_loop n s c)
unfolding evict_loop
evict_loop-Balanced zero s c b = b
evict_loop-Balanced (suc n) s c b = elim (Bool-cases (over s c)) [
  | inr e ↦ rw e b
  | inl e ↦ rw e (
      evict_loop-Balanced n s (evict_oldest c (oldest c.sessions))
        (evict_oldest-Balanced c (oldest c.sessions) b))
]

pub evict_lru-Balanced :
    (s : DeltaSettings) (c : DeltaCache) → Balanced c → Balanced (evict_lru s c)
unfolding evict_lru
evict_lru-Balanced s c b = evict_loop-Balanced (length c.sessions) s c b

-- The oldest entry is in the table, so evicting it shortens the table.
oldest-lookup :
    (m : Dict Text SessionEntry)
    → Distinct m
    → (m ≡ [])
      ⊎ ((k : Text) × (e : SessionEntry) × (oldest m ≡ some (k, e)) × (lookup k m ≡ some e))
unfolding oldest lookup
oldest-lookup [] d = inl refl
oldest-lookup ((k, e) ∷ m) d = inr (elim (oldest-lookup m d.1) [
  | inl n ↦ (k, e, ground (arith, n), ground (arith, beq_refl k))
  | inr (j, f, o, l) ↦ elim (Bool-cases (leb e.last_access f.last_access)) [
    | inl b ↦ (k, e, ground arith, ground (arith, beq_refl k))
    | inr b ↦ (j, f, ground arith, ground (arith, text_eq_iff k j, lookup-Fresh k m d.0))
  ]
])

no_sessions : (m : Dict Text SessionEntry) → length m ≤ 0 → m ≡ []
no_sessions [] h = refl
no_sessions (x ∷ m) h = absurd (omega (arith, h))

empty_within :
    (s : DeltaSettings) (c : DeltaCache) → Balanced c → c.sessions ≡ [] → over s c ≡ false
empty_within s c (d, b) e = ground (arith, b, ap sum_bytes e, ap length e)

length-evict :
    (k : Text) (e : SessionEntry) (c : DeltaCache)
    → Distinct c.sessions
    → lookup k c.sessions ≡ some e
    → length (evict k c).sessions + 1 ≡ length c.sessions
unfolding evict
length-evict k e c d h = ground (arith, h, length-remove k e c.sessions d h)

evict_loop-within :
    (n : ℕ) (s : DeltaSettings) (c : DeltaCache)
    → length c.sessions ≤ n
    → Balanced c
    → over s (evict_loop n s c) ≡ false
unfolding evict_loop
evict_loop-within zero s c h b = empty_within s c b (no_sessions c.sessions h)
evict_loop-within (suc n) s c h b = elim (Bool-cases (over s c)) [
  | inr e ↦ rw e e
  | inl e ↦ elim (oldest-lookup c.sessions b.0) [
    | inl none_left ↦ absurd (ground (arith, empty_within s c b none_left))
    | inr (k, f, o, l) ↦
        rw (e, o)
          (evict_loop-within n s (evict k c) (omega (arith, h, length-evict k f c b.0 l))
            (evict-Balanced k c b))
  ]
]

-- After an eviction the cache has at most the configured number of sessions and of bytes, if its
-- byte count was right; the rounds of the loop are enough.
pub evict_lru_within :
    (s : DeltaSettings) (c : DeltaCache)
    → Balanced c
    → (length (evict_lru s c).sessions ≤ s.max_sessions)
      × ((evict_lru s c).total_bytes ≤ s.max_total_bytes)
unfolding evict_lru
evict_lru_within s c b =
    let w : over s (evict_loop (length c.sessions) s c) ≡ false =
      evict_loop-within (length c.sessions) s c (omega arith) b in
    (ground (arith, w), ground (arith, w))

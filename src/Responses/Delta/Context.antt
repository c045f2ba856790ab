-- ===== src/Responses/Delta/Context.antt =====
-- Which contexts the delta cache hands out.
use llm_provider_router.Prelude.{
  ℕ, suc, zero, ◌+◌, ◌≤◌, Text, ◌≡◌, refl, ap, subst, inl, inr, Option, none, some, List, [], ◌∷◌,
  arith, length, ◌==◌, text_equality, Bool-cases,
}
use llm_provider_router.Prelude.Json.{Json}
use llm_provider_router.Prelude.Dict.{Dict, lookup, insert, remove, keys_where, Distinct-insert}
use llm_provider_router.Responses.Delta.{
  Hasher, DeltaSettings, SessionEntry, DeltaCache, evict, evict_each, remove_expired, expired,
  oldest, over, evict_oldest, evict_loop, evict_lru, store_full, entry_bytes, compute_base_hash,
}
use llm_provider_router.Responses.Delta.Bytes.{
  Balanced, bytes_of, sum_bytes-insert, remove_expired-Balanced, evict_lru-Balanced,
  evict_lru_within,
}

module _ (h : Hasher) where
  -- Every entry carries the hash of its own content.
  abbrev pub Addressed : Dict Text SessionEntry → Type 0
  Addressed [] = Unit
  Addressed ((k, e) ∷ m) = (e.base_hash ≡ compute_base_hash h e.instructions e.items) × Addressed m

  pub Addressed-lookup :
      (k : Text) (e : SessionEntry) (m : Dict Text SessionEntry)
      → Addressed m
      → lookup k m ≡ some e
      → e.base_hash ≡ compute_base_hash h e.instructions e.items
  unfolding lookup
  Addressed-lookup k e [] a l = absurd (ground arith)
  Addressed-lookup k e ((j, f) ∷ m) a l = elim (Bool-cases (j == k)) [
    | inl y ↦
        let q : f ≡ e = ground (arith, y) in
        subst (λ (x : SessionEntry). x.base_hash ≡ compute_base_hash h x.instructions x.items) q a.0
    | inr n ↦ Addressed-lookup k e m a.1 (ground (arith, n))
  ]

  Addressed-remove : (k : Text) (m : Dict Text SessionEntry) → Addressed m → Addressed (remove k m)
  unfolding remove
  Addressed-remove k [] a = tt
  Addressed-remove k ((j, f) ∷ m) a = ground (arith, Addressed-remove k m a.1)

  pub Addressed-insert :
      (k : Text) (e : SessionEntry) (m : Dict Text SessionEntry)
      → e.base_hash ≡ compute_base_hash h e.instructions e.items
      → Addressed m
      → Addressed (insert k e m)
  unfolding insert
  Addressed-insert k e [] q a = (q, tt)
  Addressed-insert k e ((j, f) ∷ m) q a = ground (arith, Addressed-insert k e m q a.1)

  evict-Addressed :
      (k : Text) (c : DeltaCache) → Addressed c.sessions → Addressed (evict k c).sessions
  unfolding evict
  evict-Addressed k c a = ground (arith, Addressed-remove k c.sessions a)

  evict_each-Addressed :
      (ks : List Text) (c : DeltaCache)
      → Addressed c.sessions
      → Addressed (evict_each ks c).sessions
  unfolding evict_each
  evict_each-Addressed [] c a = a
  evict_each-Addressed (k ∷ ks) c a = evict_each-Addressed ks (evict k c) (evict-Addressed k c a)

  pub remove_expired-Addressed :
      (now : ℕ) (s : DeltaSettings) (c : DeltaCache)
      → Addressed c.sessions
      → Addressed (remove_expired now s c).sessions
  unfolding remove_expired
  remove_expired-Addressed now s c a =
      evict_each-Addressed (keys_where (expired now s) c.sessions) c a

  evict_oldest-Addressed :
      (c : DeltaCache) (o : Option (Text × SessionEntry))
      → Addressed c.sessions
      → Addressed (evict_oldest c o).sessions
  evict_oldest-Addressed c none a = a
  evict_oldest-Addressed c (some (k, e)) a = evict-Addressed k c a

  evict_loop-Addressed :
      (n : ℕ) (s : DeltaSettings) (c : DeltaCache)
      → Addressed c.sessions
      → Addressed (evict_loop n s c).sessions
  unfolding evict_loop
  evict_loop-Addressed zero s c a = a
  evict_loop-Addressed (suc n) s c a = elim (Bool-cases (over s c)) [
    | inr e ↦ rw e a
    | inl e ↦ rw e (
        evict_loop-Addressed n s (evict_oldest c (oldest c.sessions))
          (evict_oldest-Addressed c (oldest c.sessions) a))
  ]

  pub evict_lru-Addressed :
      (s : DeltaSettings) (c : DeltaCache)
      → Addressed c.sessions
      → Addressed (evict_lru s c).sessions
  unfolding evict_lru
  evict_lru-Addressed s c a = evict_loop-Addressed (length c.sessions) s c a

  -- What holds of the cache between requests.
  abbrev pub Sound : DeltaCache → Type 0
  Sound c = Balanced c × Addressed c.sessions

  -- Storing a context under a new token keeps the byte count, the hashes and the bounds.
  pub store_full-Sound :
      (s : DeltaSettings) (now : ℕ) (token : Text) (instructions : Json) (items : List Json)
      (c : DeltaCache)
      → Sound c
      → lookup token (remove_expired now s c).sessions ≡ none
      → let c' =
          store_full h s now token (compute_base_hash h instructions items) instructions items c in
        Sound c' × (length c'.sessions ≤ s.max_sessions) × (c'.total_bytes ≤ s.max_total_bytes)
  unfolding store_full
  store_full-Sound s now token instructions items c (b, a) new =
      let c1 = remove_expired now s c in
      let e : SessionEntry = record {
        instructions = instructions;
        items = items;
        base_hash = compute_base_hash h instructions items;
        bytes = entry_bytes h instructions items;
        last_access = now;
      } in
      let c2 = record c1 {
        sessions = insert token e c1.sessions;
        total_bytes = c1.total_bytes + entry_bytes h instructions items;
        stats = record c1.stats { full_stores = c1.stats.full_stores + 1 };
      } in
      let (d, t) = remove_expired-Balanced now s c b in
      let b2 : Balanced c2 = (
        Distinct-insert token e c1.sessions d,
        omega (arith, t, sum_bytes-insert token e c1.sessions, ap bytes_of new),
      ) in
      let w = evict_lru_within s c2 b2 in
      (
        (
          evict_lru-Balanced s c2 b2,
          evict_lru-Addressed s c2
              (Addressed-insert token e c1.sessions refl (remove_expired-Addressed now s c a)),
        ),
        w.0,
        w.1,
      )

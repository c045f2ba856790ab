-- ===== src/Responses/Delta/Answers.antt =====
-- What a delta is answered with, alone and beside another one.
use llm_provider_router.Prelude.{
  ℕ, ◌+◌, ◌-◌, Text, true, false, ◌≡◌, refl, sym, ◌∙◌, ap, subst, ◌⊎◌, inl, inr, none, some, List,
  [], ◌++◌, arith, ◌==◌, text_equality, Bool-cases, Option-cases, beq_refl,
}
use llm_provider_router.Prelude.Json.{Json}
use llm_provider_router.Prelude.Dict.{
  lookup, insert, Distinct, Distinct-insert, lookup-insert, insert_again,
}
use llm_provider_router.Responses.Delta.{
  Hasher, DeltaSettings, SessionEntry, DeltaCache, DeltaMiss, token_miss, hash_miss, remove_expired,
  entry_bytes, settings_cleared,
}
use llm_provider_router.Responses.Delta.Apply.{
  DeltaRequest, read_delta, take_items, put_items, advanced, apply_delta, idle, extend, deltas, hit,
}
use llm_provider_router.Responses.Delta.Bytes.{
  Balanced, sum_bytes, bytes_of, sum_bytes-insert, sum_bytes-remove, remove_expired-Balanced,
  evict_lru-Balanced,
}
use llm_provider_router.Responses.Delta.Context.{
  Sound, Addressed, Addressed-insert, remove_expired-Addressed, evict_lru-Addressed,
}

-- The cache after the first lock, with the entry `e` of the token.
abbrev pub emptied : Text → SessionEntry → DeltaCache → DeltaCache
emptied token e c = record c { sessions = insert token (record e { items = [] }) c.sessions }

module _ (h : Hasher) (now : ℕ) (s : DeltaSettings) where
  put_after_take :
      (token : Text) (e : SessionEntry) (instructions : Json) (items : List Json) (c : DeltaCache)
      → Sound h c
      → lookup token c.sessions ≡ some e
      → Sound h (put_items h now s token e.instructions items (emptied token e c))
  unfolding put_items
  put_after_take token e instructions items c ((d, t), a) l =
      let adv = advanced h now e.instructions items (record e { items = [] }) in
      let old : bytes_of (lookup token c.sessions) ≡ e.bytes = ap bytes_of l in
      let c2 : DeltaCache = hit (record c {
        sessions = insert token adv c.sessions;
        total_bytes = c.total_bytes - e.bytes + entry_bytes h e.instructions items;
      }) in
      let b2 : Balanced c2 = (
        Distinct-insert token adv c.sessions d,
        omega (
          arith,
          t,
          sum_bytes-insert token adv c.sessions,
          sum_bytes-remove token c.sessions d,
          old,
        ),
      ) in
      let found : lookup token (insert token (record e { items = [] }) c.sessions)
          ≡ some (record e { items = [] }) =
        ground
          (arith, lookup-insert token token (record e { items = [] }) c.sessions, beq_refl token) in
      rw (found, insert_again token adv (record e { items = [] }) c.sessions, put_items)
        (
          evict_lru-Balanced s c2 b2,
          evict_lru-Addressed h s c2 (Addressed-insert h token adv c.sessions refl a),
        )

  -- Each answer of the first lock.
  pub take_none :
      (token base_hash : Text) (c : DeltaCache)
      → lookup token (remove_expired now s c).sessions ≡ none
      → ((take_items now s token base_hash c).0.sessions ≡ (remove_expired now s c).sessions)
        × ((take_items now s token base_hash c).0.total_bytes
            ≡ (remove_expired now s c).total_bytes)
        × ((take_items now s token base_hash c).1 ≡ inl token_miss)
  unfolding take_items
  take_none token base_hash c l = ground (arith, l)

  pub take_drifted :
      (token base_hash : Text) (e : SessionEntry) (c : DeltaCache)
      → lookup token (remove_expired now s c).sessions ≡ some e
      → (e.base_hash == base_hash) ≡ false
      → ((take_items now s token base_hash c).0.sessions ≡ (remove_expired now s c).sessions)
        × ((take_items now s token base_hash c).0.total_bytes
            ≡ (remove_expired now s c).total_bytes)
        × ((take_items now s token base_hash c).1 ≡ inl hash_miss)
  unfolding take_items
  take_drifted token base_hash e c l n = ground (arith, l, n)

  pub take_found :
      (token base_hash : Text) (e : SessionEntry) (c : DeltaCache)
      → lookup token (remove_expired now s c).sessions ≡ some e
      → (e.base_hash == base_hash) ≡ true
      → take_items now s token base_hash c
        ≡ (emptied token e (remove_expired now s c), inr (e.instructions, e.items))
  unfolding take_items
  take_found token base_hash e c l y = rw (l, y, take_items) refl

  Sound-cong :
      (c c' : DeltaCache)
      → c'.sessions ≡ c.sessions
      → c'.total_bytes ≡ c.total_bytes
      → Sound h c
      → Sound h c'
  Sound-cong c c' p q ((d, t), a) =
      ((subst Distinct (sym p) d, q ∙ t ∙ ap sum_bytes (sym p)), subst (Addressed h) (sym p) a)

  extend_miss :
      (r : DeltaRequest) (payload : Json) (p : DeltaCache × (DeltaMiss ⊎ (Json × List Json)))
      (m : DeltaMiss)
      → p.1 ≡ inl m
      → (extend h now s idle r payload p).0 ≡ p.0
  extend_miss r payload (c, inl x) m e = refl
  extend_miss r payload (c, inr x) m e = absurd (cc)

  pub remove_expired-Sound : (c : DeltaCache) → Sound h c → Sound h (remove_expired now s c)
  remove_expired-Sound c (b, a) =
      (remove_expired-Balanced now s c b, remove_expired-Addressed h now s c a)

  extend-Sound :
      (r : DeltaRequest) (payload : Json) (c : DeltaCache)
      → Sound h c
      → Sound h (extend h now s idle r payload (take_items now s r.token r.base_hash c)).0
  extend-Sound r payload c sound =
      let c1 = remove_expired now s c in
      let sound1 = remove_expired-Sound c sound in
      let taken = take_items now s r.token r.base_hash c in
      elim (Option-cases (lookup r.token c1.sessions)) [
        | inl l ↦
            let t = take_none r.token r.base_hash c l in
            subst (Sound h) (sym (extend_miss r payload taken token_miss t.2))
              (Sound-cong c1 taken.0 t.0 t.1 sound1)
        | inr (e, l) ↦ elim (Bool-cases (e.base_hash == r.base_hash)) [
          | inr n ↦
              let t = take_drifted r.token r.base_hash e c l n in
              subst (Sound h) (sym (extend_miss r payload taken hash_miss t.2))
                (Sound-cong c1 taken.0 t.0 t.1 sound1)
          | inl y ↦
              rw (take_found r.token r.base_hash e c l y)
                (put_after_take r.token e payload (e.items ++ r.append) c1 sound1 l)
        ]
      ]

  deltas-Sound :
      (payload : Json) (read : DeltaMiss ⊎ DeltaRequest) (c : DeltaCache)
      → Sound h c
      → Sound h (deltas h now s idle payload read c).0
  deltas-Sound payload (inl miss) c sound = sound
  deltas-Sound payload (inr r) c sound = extend-Sound r payload c sound

  -- A delta that no other request comes between, answered or missed, keeps the byte count and leaves every entry under the
  -- hash of its content.
  pub apply_delta-Sound :
      (payload : Json) (c : DeltaCache) → Sound h c → Sound h (apply_delta h now s idle payload c).0
  unfolding apply_delta
  apply_delta-Sound payload c sound = elim (Bool-cases (settings_cleared s c)) [
    | inl e ↦ rw e sound
    | inr e ↦ rw e (deltas-Sound payload (read_delta payload) c sound)
  ]

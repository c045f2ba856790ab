-- ===== src/Responses/Delta/Prefix.antt =====
-- What a delta is answered with: the prefix of its hash alone, and nothing of it beside another one.
use llm_provider_router.Prelude.{
  ℕ, Text, text, true, false, ◌≡◌, refl, sym, ◌∙◌, ap, ◌⊎◌, inl, inr, none, some, List, [], ◌∷◌,
  ◌++◌, arith, ◌==◌, text_equality, text_eq_iff, Bool-cases, Option-cases, beq_refl, text_eq,
  contains, if◌then◌else◌,
}
use llm_provider_router.Prelude.Json.{
  Json, array, object, null, boolean, number, string, remove_field, get, get_field-insert_field,
  insert_field, of_list,
}
use llm_provider_router.Prelude.Dict.{
  lookup, Distinct, Distinct-insert, lookup-insert, lookup-remove, keys_where, contains-keys_where,
}
use llm_provider_router.Responses.Delta.{
  Hasher, DeltaSettings, SessionEntry, DeltaCache, DeltaMiss, token_miss, hash_miss, evict,
  evict_each, expired, remove_expired, compute_base_hash, settings_cleared,
}
use llm_provider_router.Responses.Delta.Apply.{
  DeltaRequest, read_delta, take_items, rebuild, completed, apply_delta, extend, deltas, advance,
}
use llm_provider_router.Responses.Delta.Answers.{
  emptied, take_found, take_none, take_drifted, remove_expired-Sound,
}
use llm_provider_router.Responses.Delta.Context.{Sound, Addressed-lookup}

evict-lookup :
    (k j : Text) (c : DeltaCache)
    → lookup j (evict k c).sessions ≡ (if k == j then none else lookup j c.sessions)
unfolding evict
evict-lookup k j c = ground (arith, lookup-remove k j c.sessions, text_eq_iff k j)

evict_each-lookup :
    (ks : List Text) (j : Text) (c : DeltaCache)
    → lookup j (evict_each ks c).sessions ≡ (if contains j ks then none else lookup j c.sessions)
unfolding evict_each contains
evict_each-lookup [] j c = refl
evict_each-lookup (k ∷ ks) j c =
    ground (arith, evict_each-lookup ks j (evict k c), evict-lookup k j c)

-- An entry that is not expired stays.
pub remove_expired-lookup :
    (now : ℕ) (s : DeltaSettings) (j : Text) (e : SessionEntry) (c : DeltaCache)
    → Distinct c.sessions
    → lookup j c.sessions ≡ some e
    → expired now s j e ≡ false
    → lookup j (remove_expired now s c).sessions ≡ some e
unfolding remove_expired
remove_expired-lookup now s j e c d l fresh = ground (
  arith,
  evict_each-lookup (keys_where (expired now s) c.sessions) j c,
  contains-keys_where (expired now s) j c.sessions d,
  l,
)

-- A delta that comes between the two locks of another one of the same token and hash is not missed
-- but gets the instructions with an empty prefix, if the session has not expired by then.
pub second_delta_loses_prefix :
    (now later : ℕ) (s : DeltaSettings) (token base_hash : Text) (e : SessionEntry) (c : DeltaCache)
    → Distinct (remove_expired now s c).sessions
    → lookup token (remove_expired now s c).sessions ≡ some e
    → (e.base_hash == base_hash) ≡ true
    → expired later s token e ≡ false
    → ((take_items now s token base_hash c).1 ≡ inr (e.instructions, e.items))
      × ((take_items later s token base_hash (take_items now s token base_hash c).0).1
          ≡ inr (e.instructions, []))
second_delta_loses_prefix now later s token base_hash e c d l y fresh =
    let h : Hasher = record { to_vec = λ v. []; sha256_hex = λ t. t } in
    let c1 = remove_expired now s c in
    let empty : SessionEntry = record e { items = [] } in
    let first = take_found h now s token base_hash e c l y in
    let kept =
      remove_expired-lookup later s token empty (emptied token e c1)
        (Distinct-insert token empty c1.sessions d)
        (ground (arith, lookup-insert token token empty c1.sessions, beq_refl token)) fresh in
    (
      ap (λ p. p.1) first,
      rw first
          (ap (λ p. p.1) (take_found h later s token base_hash empty (emptied token e c1) kept y)),
    )

-- The payload that a delta becomes has the prefix and the new items, and the instructions.
rebuilt :
    (instructions : Json) (items : List Json) (payload whole : Json)
    → rebuild instructions items payload ≡ inr whole
    → (get (text "input") whole ≡ some (array (of_list items)))
      × (get (text "instructions") whole ≡ some instructions)
unfolding rebuild get text_eq
rebuilt instructions items (object fs) whole q =
    let filled =
      insert_field (text "input") (array (of_list items)) (remove_field (text "x_delta") fs) in
    let w : object (completed instructions items fs) ≡ whole = ground (arith, q) in
    rw (← w) (
      ground (
        arith,
        get_field-insert_field (text "instructions") (text "input") instructions filled,
        get_field-insert_field (text "input") (text "input") (array (of_list items))
            (remove_field (text "x_delta") fs),
      ),
      ground (
        arith,
        get_field-insert_field (text "instructions") (text "instructions") instructions filled,
      ),
    )
rebuilt instructions items null whole q = absurd (ground (arith, q))
rebuilt instructions items (boolean b) whole q = absurd (ground (arith, q))
rebuilt instructions items (number n) whole q = absurd (ground (arith, q))
rebuilt instructions items (string t) whole q = absurd (ground (arith, q))
rebuilt instructions items (array vs) whole q = absurd (ground (arith, q))

module _ (h : Hasher) (now : ℕ) (s : DeltaSettings) where
  -- The answer to a request is the prefix of its hash with the new items.
  abbrev pub Continues : DeltaRequest → Json → Text → Type 0
  Continues r whole new_hash =
      (instructions : Json) × (prefix : List Json) × (r.base_hash
        ≡ compute_base_hash h instructions prefix)
      × (get (text "instructions") whole ≡ some instructions)
      × (get (text "input") whole ≡ some (array (of_list (prefix ++ r.append))))
      × (new_hash ≡ compute_base_hash h instructions (prefix ++ r.append))

module _ (h : Hasher) (now : ℕ) (s : DeltaSettings) (others : DeltaCache → DeltaCache) where
  missed :
      (r : DeltaRequest) (payload : Json) (p : DeltaCache × (DeltaMiss ⊎ (Json × List Json)))
      (m : DeltaMiss)
      → p.1 ≡ inl m
      → (extend h now s others r payload p).1 ≡ inl m
  missed r payload (c, inl x) m e = ground (arith, e)
  missed r payload (c, inr x) m e = absurd (cc)

  advance-inr :
      (t : Text) (o : DeltaMiss ⊎ Json) (whole : Json) (new_hash : Text)
      → advance t o ≡ inr (whole, new_hash)
      → (o ≡ inr whole) × (new_hash ≡ t)
  advance-inr t (inl m) whole new_hash e = absurd (cc)
  advance-inr t (inr w) whole new_hash e = (ground (arith, e), ground (arith, e))

  extend-Continues :
      (r : DeltaRequest) (payload : Json) (c : DeltaCache) (whole : Json) (new_hash : Text)
      → Sound h c
      → (extend h now s others r payload (take_items now s r.token r.base_hash c)).1
        ≡ inr (whole, new_hash)
      → Continues h now s r whole new_hash
  extend-Continues r payload c whole new_hash sound ok =
      let c1 = remove_expired now s c in
      let taken = take_items now s r.token r.base_hash c in
      elim (Option-cases (lookup r.token c1.sessions)) [
        | inl l ↦
            let t = take_none h now s r.token r.base_hash c l in
            let m = missed r payload taken token_miss t.2 in absurd (ground (arith, m, ok))
        | inr (e, l) ↦ elim (Bool-cases (e.base_hash == r.base_hash)) [
          | inr n ↦
              let t = take_drifted h now s r.token r.base_hash e c l n in
              let m = missed r payload taken hash_miss t.2 in absurd (ground (arith, m, ok))
          | inl y ↦
              let found = take_found h now s r.token r.base_hash e c l y in
              let ok' : advance (compute_base_hash h e.instructions (e.items ++ r.append))
                    (rebuild e.instructions (e.items ++ r.append) payload)
                  ≡ inr (whole, new_hash) =
                ap (λ p. (extend h now s others r payload p).1) (sym found) ∙ ok in
              let (w, q) =
                advance-inr (compute_base_hash h e.instructions (e.items ++ r.append))
                  (rebuild e.instructions (e.items ++ r.append) payload) whole new_hash ok' in
              let parts = rebuilt e.instructions (e.items ++ r.append) payload whole w in
              let hash : e.base_hash ≡ r.base_hash =
                ground (arith, y, text_eq_iff e.base_hash r.base_hash) in
              let addressed =
                Addressed-lookup h r.token e c1.sessions (remove_expired-Sound h now s c sound).1
                  l in
              (e.instructions, e.items, sym hash ∙ addressed, parts.1, parts.0, q)
        ]
      ]

  deltas-Continues :
      (payload : Json) (read : DeltaMiss ⊎ DeltaRequest) (c : DeltaCache) (whole : Json)
      (new_hash : Text)
      → Sound h c
      → (deltas h now s others payload read c).1 ≡ inr (whole, new_hash)
      → (r : DeltaRequest) × (read ≡ inr r) × Continues h now s r whole new_hash
  deltas-Continues payload (inl m) c whole new_hash sound ok = absurd (cc)
  deltas-Continues payload (inr r) c whole new_hash sound ok =
      (r, refl, extend-Continues r payload c whole new_hash sound ok)

  -- A delta is only ever answered with a payload whose instructions and input are a context of the
  -- hash that the client sent, followed by the client's new items; and the new hash is that of the
  -- longer context. The cache was sound before; between the two locks other requests may do anything.
  pub apply_delta-Continues :
      (payload : Json) (c : DeltaCache) (whole : Json) (new_hash : Text)
      → Sound h c
      → (apply_delta h now s others payload c).1 ≡ inr (whole, new_hash)
      → (r : DeltaRequest) × (read_delta payload ≡ inr r) × Continues h now s r whole new_hash
  unfolding apply_delta
  apply_delta-Continues payload c whole new_hash sound ok =
      elim (Bool-cases (settings_cleared s c)) [
        | inl e ↦ absurd (ground (arith, ok))
        | inr e ↦
            deltas-Continues payload (read_delta payload) c whole new_hash sound
              (ground (arith, ok))
      ]

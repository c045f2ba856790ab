-- ===== src/Router/Selection/Sorted.antt =====
-- The order of the keys of a pool for the priority strategy: the sort of `priority_key_pick`.
use llm_provider_router.Prelude.{
  ◌≡◌, refl, Text, true, List, [], ◌∷◌, arith, text_leb, All, MemberOf, Bool-cases, inl, inr, ◌⊎◌,
}
use llm_provider_router.Config.{KeyRef}
use llm_provider_router.Router.Selection.{key_before, insert_key, sort_keys}

text_leb_total : (s t : Text) → (text_leb s t ≡ true) ⊎ (text_leb t s ≡ true)
unfolding text_leb
text_leb_total [] t = inl refl
text_leb_total (a ∷ s) [] = inr refl
text_leb_total (a ∷ s) (b ∷ t) = ground (arith, text_leb_total s t)

text_leb_trans : (s t u : Text) → text_leb s t ≡ true → text_leb t u ≡ true → text_leb s u ≡ true
unfolding text_leb
text_leb_trans [] t u p q = refl
text_leb_trans (a ∷ s) [] u p q = cc
text_leb_trans (a ∷ s) (b ∷ t) [] p q = cc
text_leb_trans (a ∷ s) (b ∷ t) (c ∷ u) p q = ground (arith, text_leb_trans s t u)

pub key_before_total : (a b : KeyRef) → (key_before a b ≡ true) ⊎ (key_before b a ≡ true)
unfolding key_before
key_before_total a b = ground (arith, text_leb_total a.name b.name)

key_before_trans :
    (a b c : KeyRef) → key_before a b ≡ true → key_before b c ≡ true → key_before a c ≡ true
unfolding key_before
key_before_trans a b c p q = ground (arith, text_leb_trans a.name b.name c.name)

-- The first key comes before every later one.
abbrev pub Sorted : List KeyRef → Type 0
Sorted [] = Unit
Sorted (k ∷ ks) = All (λ j. key_before k j ≡ true) ks × Sorted ks

before-All :
    (a b : KeyRef) (ks : List KeyRef)
    → key_before a b ≡ true
    → All (λ j. key_before b j ≡ true) ks
    → All (λ j. key_before a j ≡ true) ks
before-All a b [] p h = tt
before-All a b (k ∷ ks) p h = (key_before_trans a b k p h.0, before-All a b ks p h.1)

module _ (P : KeyRef → Type 0) where
  All-insert_key : (k : KeyRef) (ks : List KeyRef) → P k → All P ks → All P (insert_key k ks)
  unfolding insert_key
  All-insert_key k [] p h = (p, tt)
  All-insert_key k (j ∷ js) p h = elim (Bool-cases (key_before k j)) [
    | inl e ↦ rw e (p, h)
    | inr e ↦ rw e (h.0, All-insert_key k js p h.1)
  ]

  insert_key-All : (k : KeyRef) (ks : List KeyRef) → All P (insert_key k ks) → P k × All P ks
  unfolding insert_key
  insert_key-All k [] h = h
  insert_key-All k (j ∷ js) h = elim (Bool-cases (key_before k j)) [
    | inl e ↦ rw e at h
    | inr e ↦
        let h' : P j × All P (insert_key k js) = rw e at h in
        let r : P k × All P js = insert_key-All k js h'.1 in (r.0, (h'.0, r.1))
  ]

  pub sort_keys-All : (ks : List KeyRef) → All P (sort_keys ks) → All P ks
  unfolding sort_keys
  sort_keys-All [] h = h
  sort_keys-All (k ∷ ks) h =
      let r : P k × All P (sort_keys ks) = insert_key-All k (sort_keys ks) h in
      (r.0, sort_keys-All ks r.1)

insert_key-Sorted : (k : KeyRef) (ks : List KeyRef) → Sorted ks → Sorted (insert_key k ks)
unfolding insert_key
insert_key-Sorted k [] h = (tt, tt)
insert_key-Sorted k (j ∷ js) h = elim (Bool-cases (key_before k j)) [
  | inl e ↦ rw e ((e, before-All k j js e h.0), h)
  | inr e ↦ rw e (
    All-insert_key (λ i. key_before j i ≡ true) k js (ground (arith, key_before_total k j)) h.0,
    insert_key-Sorted k js h.1,
  )
]

pub sort_keys-Sorted : (ks : List KeyRef) → Sorted (sort_keys ks)
unfolding sort_keys
sort_keys-Sorted [] = tt
sort_keys-Sorted (k ∷ ks) = insert_key-Sorted k (sort_keys ks) (sort_keys-Sorted ks)

insert_key-MemberOf :
    (a k : KeyRef) (ks : List KeyRef) → MemberOf a (insert_key k ks) → (k ≡ a) ⊎ MemberOf a ks
unfolding insert_key
insert_key-MemberOf a k [] h = h
insert_key-MemberOf a k (j ∷ js) h = ground (arith, insert_key-MemberOf a k js)

pub sort_keys-MemberOf : (a : KeyRef) (ks : List KeyRef) → MemberOf a (sort_keys ks) → MemberOf a ks
unfolding sort_keys
sort_keys-MemberOf a [] h = h
sort_keys-MemberOf a (k ∷ ks) h = elim (insert_key-MemberOf a k (sort_keys ks) h) [
  | inl e ↦ inl e
  | inr m ↦ inr (sort_keys-MemberOf a ks m)
]

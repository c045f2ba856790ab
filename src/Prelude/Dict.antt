-- ===== src/Prelude/Dict.antt =====
-- `HashMap` as an association list. An insertion replaces the entry of its key in place, so that
-- distinct keys stay distinct; the order of entries stands for the unspecified iteration order.
use mathlib.Core.Path.{◌≡◌, refl, subst}
use mathlib.Core.Logic.{inl, inr}
use mathlib.Core.Bool.{Bool, true, false}
use mathlib.Core.Option.{Option, none, some}
use mathlib.Core.List.{List, [], ◌∷◌}
use native.Mathlib.Omega.{arith}
use llm_provider_router.Prelude.Tests.{if◌then◌else◌, Bool-cases}
use llm_provider_router.Prelude.Lists.{length, All}
use Prim.Native.Nat.{◌+◌}
use llm_provider_router.Prelude.Equality.{Equality, ◌==◌, contains}

abbrev pub Dict {ℓ κ} : Type ℓ → Type κ → Type (ℓ ⊔ κ)
Dict K V = List (K × V)

module _ {ℓ κ} {K : Type ℓ} {V : Type κ} ⦃e : Equality K⦄ where
  -- `m.get(k)`
  unfoldable pub lookup : K → Dict K V → Option V
  lookup k [] = none
  lookup k ((j, v) ∷ m) = if j == k then some v else lookup k m

  -- `m.contains_key(k)`
  unfoldable pub contains_key : K → Dict K V → Bool
  contains_key k [] = false
  contains_key k ((j, v) ∷ m) = if j == k then true else contains_key k m

  -- `m.insert(k, v)`: the value of a key that is there is replaced.
  unfoldable pub insert : K → V → Dict K V → Dict K V
  insert k new [] = (k, new) ∷ []
  insert k new ((head, old) ∷ rest) =
      if head == k then (k, new) ∷ rest else (head, old) ∷ insert k new rest

  -- `m.remove(k)`
  unfoldable pub remove : K → Dict K V → Dict K V
  remove k [] = []
  remove k ((j, w) ∷ m) = if j == k then remove k m else (j, w) ∷ remove k m

  -- `m.retain(p)`
  unfoldable pub retain : (K → V → Bool) → Dict K V → Dict K V
  retain p [] = []
  retain p ((j, w) ∷ m) = if p j w then (j, w) ∷ retain p m else retain p m

  abbrev pub Fresh : K → Dict K V → Type 0
  Fresh k m = contains_key k m ≡ false

  -- No key twice.
  abbrev pub Distinct : Dict K V → Type 0
  Distinct [] = Unit
  Distinct ((k, v) ∷ m) = Fresh k m × Distinct m

  pub lookup-insert :
      (k asked : K) (new : V) (dict : Dict K V)
      → lookup asked (insert k new dict) ≡ (if k == asked then some new else lookup asked dict)
  unfolding insert lookup
  lookup-insert k asked new [] = refl
  lookup-insert k asked new ((head, old) ∷ rest) = ground (
    arith,
    lookup-insert k asked new rest,
    e.beq_iff head k,
    e.beq_iff head asked,
    e.beq_iff k asked,
  )

  pub insert_again :
      (k : K) (new old : V) (dict : Dict K V) → insert k new (insert k old dict) ≡ insert k new dict
  unfolding insert
  insert_again k new old [] = ground (arith, e.beq_iff k k)
  insert_again k new old ((head, v) ∷ rest) =
      ground (arith, e.beq_iff k k, e.beq_iff head k, insert_again k new old rest)

  pub lookup-remove :
      (k j : K) (m : Dict K V) → lookup j (remove k m) ≡ (if k == j then none else lookup j m)
  unfolding lookup remove
  lookup-remove k j [] = ground arith
  lookup-remove k j ((i, w) ∷ m) =
      ground (arith, e.beq_iff k j, e.beq_iff i k, e.beq_iff i j, lookup-remove k j m)

  pub contains_key-lookup : (k : K) (m : Dict K V) → lookup k m ≡ none → contains_key k m ≡ false
  unfolding lookup contains_key
  contains_key-lookup k [] h = refl
  contains_key-lookup k ((j, v) ∷ m) h = ground (arith, contains_key-lookup k m)

  pub lookup-Fresh : (k : K) (m : Dict K V) → Fresh k m → lookup k m ≡ none
  unfolding lookup contains_key
  lookup-Fresh k [] h = refl
  lookup-Fresh k ((j, v) ∷ m) h = ground (arith, lookup-Fresh k m)

  pub Fresh-insert :
      (k j : K) (v : V) (m : Dict K V) → (k == j) ≡ false → Fresh j m → Fresh j (insert k v m)
  unfolding insert contains_key
  Fresh-insert k j v [] n h = ground arith
  Fresh-insert k j v ((i, w) ∷ m) n h = ground (arith, Fresh-insert k j v m n)

  pub Distinct-insert : (k : K) (v : V) (m : Dict K V) → Distinct m → Distinct (insert k v m)
  unfolding insert contains_key
  Distinct-insert k v [] h = (refl, tt)
  Distinct-insert k v ((i, w) ∷ m) h =
      ground (arith, e.beq_iff i k, e.beq_iff k i, Distinct-insert k v m h.1, Fresh-insert k i v m)

  pub Fresh-remove : (k j : K) (m : Dict K V) → Fresh j m → Fresh j (remove k m)
  unfolding remove contains_key
  Fresh-remove k j [] h = h
  Fresh-remove k j ((i, w) ∷ m) h = ground (arith, Fresh-remove k j m)

  pub Distinct-remove : (k : K) (m : Dict K V) → Distinct m → Distinct (remove k m)
  unfolding remove
  Distinct-remove k [] h = tt
  Distinct-remove k ((i, w) ∷ m) h = ground (arith, Distinct-remove k m h.1, Fresh-remove k i m h.0)

  pub Fresh-retain : (p : K → V → Bool) (j : K) (m : Dict K V) → Fresh j m → Fresh j (retain p m)
  unfolding retain contains_key
  Fresh-retain p j [] h = h
  Fresh-retain p j ((i, w) ∷ m) h = ground (arith, Fresh-retain p j m)

  pub Distinct-retain : (p : K → V → Bool) (m : Dict K V) → Distinct m → Distinct (retain p m)
  unfolding retain
  Distinct-retain p [] h = tt
  Distinct-retain p ((i, w) ∷ m) h = ground (arith, Distinct-retain p m h.1, Fresh-retain p i m h.0)

  -- What is left of an entry after a filter.
  abbrev pub kept : (K → V → Bool) → K → Option V → Option V
  kept p k none = none
  kept p k (some v) = if p k v then some v else none

  pub lookup-retain :
      (p : K → V → Bool) (j : K) (m : Dict K V)
      → Distinct m
      → lookup j (retain p m) ≡ kept p j (lookup j m)
  unfolding lookup retain
  lookup-retain p j [] h = refl
  lookup-retain p j ((i, w) ∷ m) h = ground (
    arith,
    e.beq_iff i j,
    lookup-retain p j m h.1,
    lookup-Fresh j (retain p m),
    lookup-Fresh i m h.0,
    lookup-Fresh i (retain p m),
    Fresh-retain p i m h.0,
  )

  -- The keys that pass a test, as the sweeps collect them before they remove.
  unfoldable pub keys_where : (K → V → Bool) → Dict K V → List K
  keys_where p [] = []
  keys_where p ((j, w) ∷ m) = if p j w then j ∷ keys_where p m else keys_where p m

  unfoldable pub remove_all : List K → Dict K V → Dict K V
  unfolding remove
  remove_all [] m = m
  remove_all (k ∷ ks) m = remove_all ks (remove k m)

  pub lookup-remove_all :
      (ks : List K) (j : K) (m : Dict K V)
      → lookup j (remove_all ks m) ≡ (if contains j ks then none else lookup j m)
  unfolding remove_all contains
  lookup-remove_all [] j m = refl
  lookup-remove_all (k ∷ ks) j m =
      ground (arith, lookup-remove_all ks j (remove k m), lookup-remove k j m)

  pub contains-keys_where :
      (p : K → V → Bool) (j : K) (m : Dict K V)
      → Distinct m
      → contains j (keys_where p m)
        ≡ elim (lookup j m) as (λ _. Bool) [ none ↦ false | some v ↦ p j v ]
  unfolding keys_where contains lookup
  contains-keys_where p j [] h = refl
  contains-keys_where p j ((i, w) ∷ m) h =
      ground (
        arith,
        e.beq_iff i j,
        contains-keys_where p j m h.1,
        lookup-Fresh j m,
        lookup-Fresh i m h.0,
      )

  pub Distinct-remove_all : (ks : List K) (m : Dict K V) → Distinct m → Distinct (remove_all ks m)
  unfolding remove_all
  Distinct-remove_all [] m h = h
  Distinct-remove_all (k ∷ ks) m h = Distinct-remove_all ks (remove k m) (Distinct-remove k m h)

  pub remove-Fresh : (k : K) (m : Dict K V) → Fresh k m → remove k m ≡ m
  unfolding remove contains_key
  remove-Fresh k [] h = refl
  remove-Fresh k ((j, v) ∷ m) h = ground (arith, remove-Fresh k m)

  pub length-remove :
      (k : K) (v : V) (m : Dict K V)
      → Distinct m
      → lookup k m ≡ some v
      → length (remove k m) + 1 ≡ length m
  unfolding remove lookup
  length-remove k v [] d h = absurd (ground arith)
  length-remove k v ((j, w) ∷ m) d h =
      ground (arith, e.beq_iff j k, length-remove k v m d.1, remove-Fresh j m d.0)

  -- The keys of a dictionary have values.
  pub contains-lookup :
      (k : K) (m : Dict K V) → contains_key k m ≡ true → (v : V) × (lookup k m ≡ some v)
  unfolding contains_key lookup
  contains-lookup k [] h = absurd (ground arith)
  contains-lookup k ((j, w) ∷ m) h = elim (Bool-cases (j == k)) [
    | inl q ↦ (w, rw q refl)
    | inr q ↦ let (v, l) = contains-lookup k m (rw q at h) in (v, rw q l)
  ]

  pub lookup-All :
      (P : K × V → Type 0) (k : K) (v : V) (m : Dict K V) → All P m → lookup k m ≡ some v → P (k, v)
  unfolding lookup
  lookup-All P k v [] h l = cc
  lookup-All P k v ((j, w) ∷ m) h l = elim (Bool-cases (j == k)) [
    | inl q ↦ let same : (j, w) ≡ (k, v) = ground (arith, e.beq_iff j k, q) in subst P same h.0
    | inr q ↦ lookup-All P k v m h.1 (rw q at l)
  ]

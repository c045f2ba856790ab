-- ===== src/Router/State/Frozen.antt =====
-- Which keys are frozen at a time, and what the sweeps and questions change of it.
use llm_provider_router.Prelude.{
  ℕ, Text, Bool, true, false, ◌≡◌, refl, ◌∙◌, Option, none, some, List, [], ◌∷◌, arith, ltb, leb,
  ◌==◌, text_equality, pair_eq, ◌⊎◌, text_eq_iff, Option-cases, inl, inr, if◌then◌else◌, max,
}
use llm_provider_router.Prelude.Dict.{
  Dict, lookup, Distinct, lookup-remove, lookup-remove_all, contains-keys_where, lookup-insert,
  keys_where, remove_all, remove,
}
use llm_provider_router.StateStore.{
  StateStore, FrozenKey, SessionKey, delete_frozen, delete_bindings,
}
use llm_provider_router.Router.State.{
  RouterState, cleanup, is_frozen, freeze, bind, unbind, frozen_over, binding_over,
}

-- The key is frozen at the time: its freeze is not over.
abbrev pub hot : ℕ → Dict Text FrozenKey → Text → Bool
hot now m k = elim (lookup k m) [ none ↦ false | some f ↦ ltb now f.until ]

-- The end of a freeze, 0 without one.
abbrev pub unwrap_until : Option FrozenKey → ℕ
unwrap_until none = 0
unwrap_until (some f) = f.until

-- The same keys are frozen at the time, the same models are blocked, and the store is in the same
-- condition.
pub record SameView (now : ℕ) (s t : RouterState) : Type 0 where
  pub hot_eq : (k : Text) → hot now t.frozen k ≡ hot now s.frozen k
  pub unsupported_eq : t.unsupported ≡ s.unsupported
  pub conn_eq : t.store.conn_ok ≡ s.store.conn_ok
  pub usage_eq : t.usage_store ≡ s.usage_store

pub SameView-refl : (now : ℕ) (s : RouterState) → SameView now s s
SameView-refl now s = record {
  hot_eq = λ k. refl;
  unsupported_eq = refl;
  conn_eq = refl;
  usage_eq = refl;
}

pub SameView-trans :
    (now : ℕ) (s t u : RouterState) → SameView now s t → SameView now t u → SameView now s u
SameView-trans now s t u p q = record {
  hot_eq = λ k. q.hot_eq k ∙ p.hot_eq k;
  unsupported_eq = q.unsupported_eq ∙ p.unsupported_eq;
  conn_eq = q.conn_eq ∙ p.conn_eq;
  usage_eq = q.usage_eq ∙ p.usage_eq;
}

hot-remove :
    (now : ℕ) (k : Text) (f : FrozenKey) (m : Dict Text FrozenKey)
    → lookup k m ≡ some f
    → leb f.until now ≡ true
    → (j : Text) → hot now (remove k m) j ≡ hot now m j
hot-remove now k f m e over j = ground (arith, lookup-remove k j m, text_eq_iff k j)

-- `is_frozen` forgets a freeze that is over, and nothing else.
pub is_frozen-SameView :
    (now : ℕ) (k : Text) (s : RouterState) → SameView now s (is_frozen now k s).0
unfolding is_frozen
is_frozen-SameView now k s = record {
  hot_eq = λ j. ground (arith, lookup-remove k j s.frozen, text_eq_iff k j);
  unsupported_eq = ground arith;
  conn_eq = ground arith;
  usage_eq = ground arith;
}

-- Its answer, where it has one, is whether the key is frozen; with the store working it has one.
pub is_frozen-hot :
    (now : ℕ) (k : Text) (s : RouterState)
    → ((is_frozen now k s).1 ≡ some (hot now s.frozen k))
      ⊎ (((is_frozen now k s).1 ≡ none) × (s.store.conn_ok ≡ false))
unfolding is_frozen
is_frozen-hot now k s = ground arith

delete_frozen-conn :
    (s t : StateStore) (ks : List Text) → delete_frozen s ks ≡ some t → t.conn_ok ≡ s.conn_ok
unfolding delete_frozen
delete_frozen-conn s t [] h = ground arith
delete_frozen-conn s t (k ∷ ks) h =
    ground (arith, delete_frozen-conn (record s { frozen_keys = remove k s.frozen_keys }) t ks)

delete_bindings-conn :
    (s t : StateStore) (ks : List SessionKey)
    → delete_bindings s ks ≡ some t
    → t.conn_ok ≡ s.conn_ok
unfolding delete_bindings
delete_bindings-conn s t [] h = ground arith
delete_bindings-conn s t (k ∷ ks) h =
    ground (
      arith,
      delete_bindings-conn (record s { session_bindings = remove k s.session_bindings }) t ks,
    )

-- The sweep fails only if the store does.
delete_frozen_ok :
    (s : StateStore) (ks : List Text)
    → s.conn_ok ≡ true
    → (t : StateStore) × (delete_frozen s ks ≡ some t) × (t.conn_ok ≡ true)
unfolding delete_frozen
delete_frozen_ok s [] ok = (s, refl, ok)
delete_frozen_ok s (k ∷ ks) ok =
    let (t, e, c) = delete_frozen_ok (record s { frozen_keys = remove k s.frozen_keys }) ks ok in
    (t, ground (arith, e), c)

delete_bindings_ok :
    (s : StateStore) (ks : List SessionKey)
    → s.conn_ok ≡ true
    → (t : StateStore) × (delete_bindings s ks ≡ some t) × (t.conn_ok ≡ true)
unfolding delete_bindings
delete_bindings_ok s [] ok = (s, refl, ok)
delete_bindings_ok s (k ∷ ks) ok =
    let (t, e, c) =
      delete_bindings_ok (record s { session_bindings = remove k s.session_bindings }) ks ok in
    (t, ground (arith, e), c)

hot-cleanup :
    (now : ℕ) (m : Dict Text FrozenKey) (j : Text)
    → Distinct m
    → hot now (remove_all (keys_where (frozen_over now) m) m) j ≡ hot now m j
hot-cleanup now m j d = ground (
  arith,
  lookup-remove_all (keys_where (frozen_over now) m) j m,
  contains-keys_where (frozen_over now) j m d,
)

module _ (now : ℕ) (s : RouterState) where
  abbrev swept : Dict Text FrozenKey
  swept = remove_all (keys_where (frozen_over now) s.frozen) s.frozen

  cleanup-parts :
      ((cleanup now s).0.frozen ≡ swept)
      × ((cleanup now s).0.unsupported ≡ s.unsupported)
      × ((cleanup now s).0.store.conn_ok ≡ s.store.conn_ok)
      × ((cleanup now s).0.usage_store ≡ s.usage_store)
  unfolding cleanup
  cleanup-parts =
      elim (Option-cases (delete_frozen s.store (keys_where (frozen_over now) s.frozen))) [
        | inl e ↦ ground arith
        | inr (t, e) ↦
            elim (Option-cases (delete_bindings t (keys_where (binding_over now) s.bindings))) [
              | inl b ↦
                  ground
                    (arith, delete_frozen-conn s.store t (keys_where (frozen_over now) s.frozen) e)
              | inr (u, b) ↦ ground (
                arith,
                delete_frozen-conn s.store t (keys_where (frozen_over now) s.frozen) e,
                delete_bindings-conn t u (keys_where (binding_over now) s.bindings) b,
              )
            ]
      ]

  -- The sweep drops what is over, in memory and in the store, and hides nothing that is frozen.
  pub cleanup-SameView : Distinct s.frozen → SameView now s (cleanup now s).0
  cleanup-SameView d = record {
    hot_eq = λ j. ground (arith, cleanup-parts.0, hot-cleanup now s.frozen j d);
    unsupported_eq = cleanup-parts.1;
    conn_eq = cleanup-parts.2;
    usage_eq = cleanup-parts.3;
  }

  pub cleanup_ok : s.store.conn_ok ≡ true → (cleanup now s).1 ≡ true
  unfolding cleanup
  cleanup_ok ok =
      let (t, e, c) = delete_frozen_ok s.store (keys_where (frozen_over now) s.frozen) ok in
      let (u, b, _) = delete_bindings_ok t (keys_where (binding_over now) s.bindings) c in
      ground (arith, e, b)

pub bind-SameView :
    (now : ℕ) (alias session key : Text) (s : RouterState)
    → SameView now s (bind now alias session key s).0
unfolding bind
bind-SameView now alias session key s = record {
  hot_eq = λ j. ground arith;
  unsupported_eq = ground arith;
  conn_eq = ground arith;
  usage_eq = ground arith;
}

pub unbind-SameView :
    (now : ℕ) (alias session : Text) (s : RouterState) → SameView now s (unbind alias session s)
unfolding unbind
unbind-SameView now alias session s = record {
  hot_eq = λ j. ground arith;
  unsupported_eq = ground arith;
  conn_eq = ground arith;
  usage_eq = ground arith;
}

-- A freeze holds until the later of the old and the new end: it is never cut short. No other key's
-- freeze changes, and this holds also if the store fails.
pub freeze_never_shortens :
    (k j reason : Text) (until : ℕ) (s : RouterState)
    → unwrap_until (lookup j (freeze k until reason s).0.frozen) ≡ (
        if k == j
        then max (unwrap_until (lookup j s.frozen)) until
        else unwrap_until (lookup j s.frozen))
unfolding freeze
freeze_never_shortens k j reason until s =
    ground (
      arith,
      text_eq_iff k j,
      lookup-insert k j (record { until = until; reason = reason }) s.frozen,
    )

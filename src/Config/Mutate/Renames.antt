-- ===== src/Config/Mutate/Renames.antt =====
-- What the renaming of a provider does to the ids of its models and to the targets that name them.
use llm_provider_router.Prelude.{
  Text, false, ◌≡◌, ◌↔◌, refl, subst, Option, none, some, List, [], ◌∷◌, ◌++◌, contains, split_once,
  strip_prefix, arith, ◌==◌, text_equality, nat_eq, text_eq_iff, Bool-cases, Option-cases, inl, inr,
  if◌then◌else◌,
}
use llm_provider_router.Prelude.Split.{
  has_slash, split-prefix, split-none, split_none-has_slash, split-before,
}
use llm_provider_router.Prelude.Dict.{
  Dict, lookup, insert, contains_key, lookup-insert, contains-lookup, lookup-Fresh,
}
use llm_provider_router.Config.{V2PhysicalModel, V2Target}
use llm_provider_router.Config.Mutate.{
  second_part, renamed_id, renamed_target, new_model, register_physical_models, retarget,
  renamed_pool,
}

strip-own : (p rest : Text) → strip_prefix (p ++ b'/' ∷ []) (p ++ b'/' ∷ rest) ≡ some rest
unfolding strip_prefix
strip-own [] rest = refl
strip-own (c ∷ p) rest = ground (arith, strip-own p rest)

append-cancel : (p x y : Text) → p ++ x ≡ p ++ y → x ≡ y
append-cancel [] x y e = e
append-cancel (c ∷ p) x y e = append-cancel p x y (ground arith)

second_part-first :
    (old rest : Text)
    → has_slash old ≡ false
    → second_part (old ++ b'/' ∷ rest) ≡ elim (split_once b'/' rest) as (λ x. Option Text) [
      | none ↦ some rest
      | some (second, more) ↦ some second
    ]
unfolding second_part
second_part-first old rest h = rw (split-prefix old rest h, second_part) refl

-- When a provider is renamed, the new id of a model and the new name of the targets that named it are
-- the same exactly if its upstream name has no slash. The old name of the provider has no slash.
pub renames_agree :
    (new_name old_name rest : Text)
    → has_slash old_name ≡ false
    → (has_slash rest ≡ false) ↔ (
        renamed_id new_name (old_name ++ b'/' ∷ rest)
        ≡ renamed_target new_name old_name (old_name ++ b'/' ∷ rest))
unfolding renamed_id renamed_target
renames_agree new_name old_name rest h =
    let second = second_part-first old_name rest h in
    let stripped = strip-own old_name rest in
    (
      λ n. rw (second, stripped, split-none rest n, renamed_target) refl,
      λ e. elim (Option-cases (split_once b'/' rest)) [
        | inl n ↦ split_none-has_slash rest n
        | inr ((a, b), q) ↦
            let same : new_name ++ b'/' ∷ a ≡ new_name ++ b'/' ∷ rest =
              rw (second, stripped, q, renamed_target) at e in
            let eq : a ≡ rest =
              ground (arith, append-cancel new_name (b'/' ∷ a) (b'/' ∷ rest) same) in
            subst (λ t. has_slash t ≡ false) eq (split-before rest a b q)
      ],
    )

-- No target of the other pools names a pool by its old name after the pool was renamed.
pub pool_rename_leaves_none :
    (old_name new_name : Text) (t : V2Target)
    → (old_name == new_name) ≡ false
    → ((retarget (renamed_pool old_name new_name) t).model == old_name) ≡ false
pool_rename_leaves_none old_name new_name t h = ground (
  arith,
  text_eq_iff old_name new_name,
  text_eq_iff new_name old_name,
  text_eq_iff t.model old_name,
)

module _ (known : List Text) where
  -- What a lookup finds after the registration of ids: what was there before, else the new model of an
  -- id that is listed and may be registered.
  pub register-lookup :
      (ids : List Text) (models : Dict Text V2PhysicalModel) (asked : Text)
      → lookup asked (register_physical_models known ids models).0
        ≡ elim (lookup asked models) as (λ x. Option V2PhysicalModel) [
          | some m ↦ some m
          | none ↦ if contains asked ids then new_model known asked else none
        ]
  unfolding register_physical_models contains
  register-lookup [] models asked = ground arith
  register-lookup (id ∷ ids) models asked = elim (Option-cases (new_model known id)) [
    | inl n ↦
        rw (n, register_physical_models)
          (ground (arith, n, register-lookup ids models asked, text_eq_iff id asked))
    | inr (m, n) ↦ elim (Bool-cases (contains_key id models)) [
      | inl e ↦
          let (v, l) = contains-lookup id models e in
          rw (n, e, register_physical_models)
            (ground (arith, l, register-lookup ids models asked, text_eq_iff id asked))
      | inr e ↦
          rw (n, e, register_physical_models)
            (ground (
              arith,
              n,
              register-lookup ids (insert id m models) asked,
              lookup-insert id asked m models,
              lookup-Fresh id models e,
              text_eq_iff id asked,
            ))
    ]
  ]

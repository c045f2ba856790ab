-- ===== src/Config/Mutate.antt =====
-- src/config/v2/mutate.rs: the registration of physical models, and the renaming of providers and
-- pools, on what the files hold. Reading and writing them is left out.
pub mod Renames
use llm_provider_router.Prelude.{
  ℕ, Text, Bool, true, false, not, ◌&&◌, Option, none, some, List, [], ◌∷◌, ◌++◌, map, contains,
  split_once, strip_prefix, unwrap_or, ◌==◌, text_equality, if◌then◌else◌,
}
use llm_provider_router.Prelude.Dict.{Dict, lookup, insert, contains_key}
use llm_provider_router.Config.{V2PhysicalModel, V2LogicalModel, V2Target, V2Route}

abbrev pub bare_model : Text → Text → V2PhysicalModel
bare_model provider upstream = record {
  provider = provider;
  upstream_model = upstream;
  family = none;
  params = [];
  context_window = none;
  max_output_tokens = none;
  supports_image = none;
  thinking_level_map = none;
  thinking_format = none;
}

-- The model of an id that may be registered.
unfoldable pub new_model : List Text → Text → Option V2PhysicalModel
unfolding split_once contains
new_model known id = elim (split_once b'/' id) [
  | none ↦ none
  | some (provider, upstream) ↦
      if contains provider known then some (bare_model provider upstream) else none
]

-- The models, and the ids that are new among them.
unfoldable pub register_physical_models :
    List Text → List Text → Dict Text V2PhysicalModel → Dict Text V2PhysicalModel × List Text
unfolding contains_key insert
register_physical_models known [] models = (models, [])
register_physical_models known (id ∷ ids) models =
    let skipped = register_physical_models known ids models in
    elim (new_model known id) [
      | none ↦ skipped
      | some m ↦
          let (after, registered) = register_physical_models known ids (insert id m models) in
          if contains_key id models then skipped else (after, id ∷ registered)
    ]

-- `id.split('/').nth(1)`
unfoldable pub second_part : Text → Option Text
unfolding split_once
second_part id = elim (split_once b'/' id) [
  | none ↦ none
  | some (first, rest) ↦ elim (split_once b'/' rest) [
    | none ↦ some rest
    | some (second, more) ↦ some second
  ]
]

unfoldable pub renamed_id : Text → Text → Text
unfolding second_part
renamed_id new_name id = new_name ++ b'/' ∷ unwrap_or (second_part id) id

-- The entries of the old provider under their new ids, the others as they are.
unfoldable pub rename_provider_in_models :
    Text → Text → Dict Text V2PhysicalModel → Dict Text V2PhysicalModel → Dict Text V2PhysicalModel
unfolding renamed_id insert
rename_provider_in_models new_name old_name [] renamed = renamed
rename_provider_in_models new_name old_name ((id, m) ∷ models) renamed =
    rename_provider_in_models new_name old_name models (
      if m.provider == old_name
      then insert (renamed_id new_name id) (record m { provider = new_name }) renamed
      else insert id m renamed)

-- The name of a target after the provider's prefix was rewritten.
unfoldable pub renamed_target : Text → Text → Text → Text
unfolding strip_prefix
renamed_target new_name old_name name = elim (strip_prefix (old_name ++ b'/' ∷ []) name) [
  | none ↦ name
  | some rest ↦ new_name ++ b'/' ∷ rest
]

-- Every target of a route, under a change of names.
abbrev pub retarget : (Text → Text) → V2Target → V2Target
retarget f t = record t { model = f t.model }

abbrev pub reroute : (Text → Text) → Text × V2LogicalModel → Text × V2LogicalModel
reroute f (name, lm) =
    (name, record lm { route = record lm.route { targets = map (retarget f) lm.route.targets } })

unfoldable pub rename_provider_in_logical :
    Text → Text → Dict Text V2LogicalModel → Dict Text V2LogicalModel
unfolding renamed_target
rename_provider_in_logical new_name old_name = map (reroute (renamed_target new_name old_name))

abbrev pub renamed_pool : Text → Text → Text → Text
renamed_pool old_name new_name name = if name == old_name then new_name else name

unfoldable pub insert_renamed_logical_model :
    V2LogicalModel → Text → Text → Dict Text V2LogicalModel → Dict Text V2LogicalModel
unfolding insert
insert_renamed_logical_model lm old_name new_name models =
    insert new_name lm (map (reroute (renamed_pool old_name new_name)) models)

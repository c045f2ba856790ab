-- ===== src/Prelude/Json.antt =====
-- `serde_json::Value`: the values of a JSON document and the accessors that the program calls.
use Prim.Native.Nat.{ℕ}
use mathlib.Core.Bool.{Bool, true, false}
use mathlib.Core.Option.{Option, none, some}
use mathlib.Core.List.{List, [], ◌∷◌}
use llm_provider_router.Prelude.Tests.{if◌then◌else◌}
use llm_provider_router.Prelude.Equality.{◌==◌, text_equality}
use llm_provider_router.Prelude.Texts.{Text, text_eq_iff}
use mathlib.Core.Path.{◌≡◌, refl}
use native.Mathlib.Omega.{arith}

mutual
  pub data Json : Type 0 where
    null : Json
    boolean : Bool → Json
    number : ℕ → Json
    string : Text → Json
    array : Items → Json
    object : Fields → Json

  pub data Items : Type 0 where
    nil : Items
    cons : Json → Items → Items

  pub data Fields : Type 0 where
    end : Fields
    field : Text → Json → Fields → Fields

abbrev pub to_list : Items → List Json
to_list nil = []
to_list (cons v vs) = v ∷ to_list vs

abbrev pub of_list : List Json → Items
of_list [] = nil
of_list (v ∷ vs) = cons v (of_list vs)

unfoldable pub get_field : Text → Fields → Option Json
get_field k end = none
get_field k (field j v fs) = if j == k then some v else get_field k fs

-- `v.get(k)`: `None` on anything but an object.
unfoldable pub get : Text → Json → Option Json
unfolding get_field
get k (object fs) = get_field k fs
get k _ = none

unfoldable pub as_array : Json → Option (List Json)
as_array (array vs) = some (to_list vs)
as_array _ = none

unfoldable pub as_str : Json → Option Text
as_str (string s) = some s
as_str _ = none

unfoldable pub is_object : Json → Bool
is_object (object fs) = true
is_object _ = false

-- `map.insert(k, v)`
unfoldable pub insert_field : Text → Json → Fields → Fields
insert_field k v end = field k v end
insert_field k v (field j w fs) = if j == k then field k v fs else field j w (insert_field k v fs)

-- `map.remove(k)`
unfoldable pub remove_field : Text → Fields → Fields
remove_field k end = end
remove_field k (field j w fs) = if j == k then remove_field k fs else field j w (remove_field k fs)

pub get_field-insert_field :
    (k asked : Text) (v : Json) (fs : Fields)
    → get_field asked (insert_field k v fs) ≡ (if k == asked then some v else get_field asked fs)
unfolding get_field insert_field
get_field-insert_field k asked v end = refl
get_field-insert_field k asked v (field j w fs) = ground (
  arith,
  text_eq_iff k asked,
  text_eq_iff j k,
  text_eq_iff j asked,
  get_field-insert_field k asked v fs,
)

unfoldable pub as_i64 : Json → Option ℕ
as_i64 (number n) = some n
as_i64 _ = none

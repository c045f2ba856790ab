-- ===== src/Prelude.antt =====
-- Names that every other module shares: the libraries', passed on, and those of the children.
mod Tests
mod Lists
mod Equality
mod Texts
pub mod Dict
pub mod Json
pub mod Int
pub mod Split
pub use Tests.*
unfoldable pub use Lists.*
unfoldable pub use Equality.*
pub use Texts.{Text, Text-discrete, text_eq_iff}
unfoldable pub use Texts.{
  text, starts_with, strip_prefix, split_once, contains_text, text_eq, is_blank, text_leb, decimal,
  trim, parse_u64, lines,
}
pub use Prim.Native.Nat.{ℕ, zero, suc, ◌+◌, ◌-◌, ◌*◌, ◌/◌, ◌%◌, ◌^◌, ◌≤◌, ◌<◌, min, max, pred}
pub use mathlib.Core.Path.{◌≡◌, refl, sym, ap, subst, ◌∙◌, fun_ext}
pub use mathlib.Core.Logic.{◌≢◌, ◌↔◌, ◌⊎◌, inl, inr}
pub use mathlib.Core.Bool.{Bool, true, false, ◌&&◌, ◌||◌, not}
pub use mathlib.Core.Option.{Option, none, some}
pub use mathlib.Core.List.{List, [], ◌∷◌, ◌++◌, map}
pub use native.Mathlib.Omega.{arith}

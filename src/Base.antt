-- ===== src/Base.antt =====
-- The names that all modules share: the libraries', passed on, and those of the children.
mod Tests
mod Lists
mod Words
mod Names
mod Texts
mod Sorting
pub use Tests.*
pub use Lists.*
pub use Words.*
unfoldable pub use Names.{has}
pub use Names.{has_cons}
unfoldable pub use Sorting.{insert_by, sort_by}
pub use Sorting.{length-sort_by, All-sort_by}
unfoldable pub use Texts.{starts_with, contains}
pub use Texts.{
  same_text-eq, same_text_refl, text_leb_total, same_text, text_leb, to_ascii_lowercase,
}
pub use Prim.Native.Nat.{ℕ, zero, suc, ◌+◌, ◌-◌, ◌*◌, ◌/◌, ◌%◌, ◌^◌, ◌≤◌, ◌<◌, min, max}
pub use Prim.Native.String.{String}
pub use mathlib.Core.Path.{◌≡◌, refl, sym, ap, ap₂, subst, ◌∙◌}
pub use mathlib.Core.Logic.{◌≢◌, ◌↔◌, ◌⊎◌, inl, inr}
pub use mathlib.Core.Bool.{Bool, true, false, ◌&&◌, ◌||◌, not}
pub use mathlib.Core.Option.{Option, none, some}
pub use mathlib.Core.List.{List, [], ◌∷◌, ◌++◌, map}
pub use native.Mathlib.Omega.{arith}
unfoldable pub use native.Mathlib.Decide.{dec_lt, dec_le, ℕ_discrete}

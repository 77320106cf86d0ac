-- ===== src/Prelude.antt =====
-- The names that the other modules share: the libraries', passed on, and those of the children.
pub mod Tests
pub mod Lists
pub mod Strings
pub mod Words
pub mod Maps
pub use Tests.*
pub use Lists.*
pub use Strings.{Text, codes, text_eq_iff, is_space, trim_left, lower_rune, upper_rune}
unfoldable pub use Strings.{
  text_eq, has_prefix, trim_prefix, contains, trim_space, to_lower, to_upper,
}
pub use Words.{inc_lt, dec_lt_int64, dec-inc, add_int64-inc, int64_mod}
unfoldable pub use Words.{inc, dec, add_int64}
pub use Maps.*
pub use Prim.Native.Nat.{ℕ, zero, suc, ◌+◌, ◌-◌, ◌*◌, ◌/◌, ◌%◌, ◌^◌, ◌≤◌, ◌<◌}
pub use mathlib.Core.Path.{◌≡◌, refl, sym, ap, ap₂, subst, ◌∙◌}
pub use mathlib.Core.Logic.{◌≢◌, ◌↔◌, ◌⊎◌, inl, inr}
pub use mathlib.Core.Bool.{Bool, true, false, not, ◌&&◌, ◌||◌}
pub use mathlib.Core.Option.{Option, none, some}
pub use mathlib.Core.List.{List, [], ◌∷◌, ◌++◌, map}
pub use native.Mathlib.Omega.{arith}

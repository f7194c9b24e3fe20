-- ===== src/Base.antt =====
-- The names that every module shares: those of the libraries, and helpers for what Python's
-- language and standard library give the program (comparisons, text, integers, sorting).
mod Tests
mod Strings
mod Int
mod Lists
mod Dict
pub use Tests.*
pub use Strings.{Text, codes, text_eq_iff, text_eq_self, text_eq_sym, strip-solid}
unfoldable pub use Strings.{
  text_eq, is_space, drop_while, strip_by, strip, join, text_le, starts_with,
}
pub use Int.*
pub use Lists.*
pub use Dict.*
unfoldable pub use Dict.{dict_get, dict_set, dict_pop, dict_pop_all}
unfoldable pub use Lists.{sorted, insert_by}
pub use Prim.Native.Nat.{ℕ, zero, suc, ◌+◌, ◌-◌, ◌*◌, ◌/◌, ◌%◌, ◌≤◌, ◌<◌, min, max}
pub use mathlib.Core.Path.{◌≡◌, refl, sym, ap, ap₂, subst, ◌∙◌}
pub use mathlib.Core.Logic.{◌≢◌, ◌↔◌, ◌⊎◌, inl, inr}
pub use mathlib.Core.Bool.{Bool, true, false, not, ◌&&◌, ◌||◌, false≢true}
pub use mathlib.Core.Option.{Option, none, some}
pub use mathlib.Core.List.{
  List, [], ◌∷◌, ◌++◌, map, reverse, reverse-append, append_assoc, append-nil,
}
pub use native.Mathlib.Omega.{arith}

-- ===== src/Prelude.antt =====
-- The names that the other modules share: the libraries', passed on, and those of the children.
pub mod Tests
pub mod Lists
pub mod Integers
pub use Tests.{
  ltb, eqb, if◌then◌else◌, eqb_iff, eqb_refl, Bool-cases, Option-cases, or-true, or-false,
  and-false,
}
pub use Lists.{
  length, length-append, any-append, All, All-append, All-get, All-set, Assoc, lookup-without,
  lookup-put, dict_laws, get_elem?, set, push_back, get_elem?-append, get_elem?-set_self,
  get_elem?-set_other, set-set, set_same,
}
unfoldable pub use Lists.{any, select, contains, lookup, without, put}
pub use Prim.Native.Nat.{ℕ, zero, suc, ◌+◌, ◌-◌, ◌*◌, ◌/◌, ◌%◌, ◌≤◌, ◌<◌}
pub use Prim.Native.String.{String}
pub use mathlib.Core.Path.{◌≡◌, refl, sym, ap, ◌∙◌}
pub use mathlib.Core.Logic.{◌≢◌, ◌↔◌, ◌⊎◌, inl, inr}
pub use mathlib.Core.Bool.{Bool, true, false, not, ◌&&◌, ◌||◌}
pub use mathlib.Core.Option.{Option, none, some}
pub use mathlib.Core.List.{List, [], ◌∷◌, ◌++◌, map}
pub use native.Mathlib.Omega.{arith}
pub use text.Mathlib.Text.{◌==◌}
pub use text.Mathlib.TextEquality.{eq_iff}
pub use text.Mathlib.TextPositions.{eq_refl}

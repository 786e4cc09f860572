-- ===== src/Prelude.antt =====
-- The names that the other modules share.
mod Tests
mod Lists
mod Assoc
pub use Tests.*
pub use Lists.{
  length, take, pop_back, last?, first?, is_empty, All, length-append, any-append, length-pop_back,
  length-pop_back-le, All-append, All-member, All-retain, All-imp, All-map, last?-snoc,
  pop_back-snoc,
}
unfoldable pub use Lists.{retain, any}
unfoldable pub use Assoc.{lookup, insert, remove}
pub use Assoc.{
  Distinct, Distinct-insert, Distinct-remove, contains_key, lookup-insert, lookup-remove,
  All-insert, All-remove, All-lookup,
}
pub use Prim.Native.Nat.{ℕ, zero, suc, ◌+◌, ◌-◌, ◌*◌, ◌/◌, ◌%◌, ◌^◌, ◌≤◌, ◌<◌, max}
pub use Prim.Native.String.{String}
pub use mathlib.Core.Path.{◌≡◌, refl, sym, ap, ◌∙◌, subst}
pub use mathlib.Core.Logic.{◌≢◌, ◌↔◌, ◌⊎◌, inl, inr, ite, if_pos, if_neg}
pub use mathlib.Core.Bool.{Bool, true, false, not, ◌&&◌, ◌||◌}
pub use mathlib.Core.Option.{Option, none, some}
pub use mathlib.Core.List.{List, [], ◌∷◌, ◌++◌, map}
pub use native.Mathlib.Omega.{arith}
unfoldable pub use native.Mathlib.Decide.{dec_lt, dec_le, ℕ_discrete}

-- ===== src/Common.antt =====
-- What the modules share: the libraries' names, passed on, Boolean tests, lists, texts and
-- the hash maps of Qt as association lists.
mod Tests
mod Lists
pub mod Maps
pub mod Decimals
pub use Tests.*
pub use Lists.*
unfoldable pub use Maps.{text_discrete, lookup, insert, remove}
pub use Maps.{
  Key, ◌≟◌, text_key, nat_key, has, value_or, lookup-remove, lookup-insert, remove-remove,
  insert-insert, map_laws, Unique, remove_absent, remove-Unique, insert-Unique,
}
pub use Prim.Native.Nat.{ℕ, zero, suc, ◌+◌, ◌-◌, ◌*◌, ◌/◌, ◌%◌, ◌^◌, ◌≤◌, ◌<◌, min, max}
pub use mathlib.Core.Path.{◌≡◌, refl, sym, ap, ◌∙◌, subst}
pub use mathlib.Core.Logic.{◌≢◌, ◌↔◌, ◌⊎◌, inl, inr, ite}
pub use mathlib.Core.Bool.{Bool, true, false, not, ◌&&◌, ◌||◌}
pub use mathlib.Core.Option.{Option, none, some}
pub use mathlib.Core.List.{List, [], ◌∷◌, ◌++◌, map, reverse}
pub use native.Mathlib.Omega.{arith}
unfoldable pub use native.Mathlib.Decide.{dec_lt, dec_le, ℕ_discrete}

-- ===== src/Base.antt =====
-- What the other modules share: library names, Boolean tests, results, lists over the native numbers.
mod Bools
mod Outcome
mod Lists
mod Sets
pub use Bools.*
pub use Outcome.*
pub use Lists.*
pub use Sets.{same→eq, eq→same, ne→same, contains→Memᴰ, Memᴰ→contains, same_set_refl}
pub use Sets.{
  Memᴰ-cons, Memᴰ-keep_of, of_Memᴰ-keep, Memᴰ-append_left, Memᴰ-append_right, of_Memᴰ-append,
}
unfoldable pub use Sets.{same, contains, same_set}
pub use mathlib.Core.List.{Memᴰ}
pub use Prim.Native.Nat.{ℕ, zero, suc, ◌+◌, ◌-◌, ◌*◌, ◌/◌, ◌%◌, ◌≤◌, ◌<◌}
pub use mathlib.Core.Path.{◌≡◌, refl, sym, ap, subst, ◌∙◌, ◌≡⟨◌⟩◌, ◌∎}
pub use mathlib.Core.Logic.{◌≢◌, ◌↔◌, ◌⊎◌, inl, inr, ite, dite, if_pos, if_neg}
pub use mathlib.Core.Bool.{Bool, true, false, not, ◌&&◌, ◌||◌}
pub use mathlib.Core.Option.{Option, none, some}
pub use mathlib.Core.List.{List, [], ◌∷◌, ◌++◌, map}
pub use mathlib.Core.List.{append-nil, append_assoc, map-append}
pub use native.Mathlib.Omega.{arith}
unfoldable pub use native.Mathlib.Decide.{dec_lt, dec_le, ℕ_discrete}

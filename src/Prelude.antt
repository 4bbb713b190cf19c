-- ===== src/Prelude.antt =====
-- The names that the other modules share: the libraries', passed on, and those of the children.
pub mod Tests
pub mod Int
pub mod Maps
pub mod Strings
pub mod Time
pub mod Number
pub mod Lists
pub mod TextSets
pub mod Results
pub use Tests.*
pub use Int.{ℤ, pos, negsuc, ◌+ℤ◌, ◌-ℤ◌, ◌≤ℤ◌, ◌<ℤ◌, ltb_ℤ, leb_ℤ, min_ℤ, max_ℤ, pos_part, neg_part}
pub use Maps.{Eq, ◌==◌, ==-refl, int_eq, nat_eq, is_some, is_some-value, get_or}
unfoldable pub use Maps.{contains, lookup, insert, delete}
unfoldable pub use Int.{beq_ℤ}
pub use Strings.{Text, text_eq, text_beq_iff, codes, is_empty, cut_prefix_iff, cut_prefix-append}
unfoldable pub use Strings.{text_beq, cut_prefix, has_prefix, trim_prefix}
pub use Prim.Native.Nat.{ℕ, zero, suc, ◌+◌, ◌-◌, ◌*◌, ◌/◌, ◌%◌, ◌^◌, ◌≤◌, ◌<◌}
pub use mathlib.Core.Path.{◌≡◌, refl, sym, ap, ◌∙◌, subst}
pub use mathlib.Core.Logic.{◌≢◌, ◌↔◌, ◌⊎◌, inl, inr}
pub use mathlib.Core.Bool.{Bool, true, false, ◌&&◌, ◌||◌, not}
pub use mathlib.Core.Option.{Option, none, some}
pub use mathlib.Core.List.{List, [], ◌∷◌, ◌++◌, map}
pub use native.Mathlib.Omega.{arith}

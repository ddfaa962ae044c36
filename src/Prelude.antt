-- ===== src/Prelude.antt =====
-- The names that the other modules share: the libraries', passed on, and those of the children.
pub mod Tests
pub mod Lists
pub mod Int
pub mod Strings
pub mod Maps
pub use Tests.*
pub use Lists.*
pub use Int.{
  ℤ, pos, negsuc, pos_part, neg_part, ◌≤ℤ◌, ltb_ℤ, leb_ℤ, eqb_ℤ, +ℤ_parts, +ℤ_assoc, parts_of_eq,
  -ℤ_parts, neg_parts, eq_of_parts, eqb_ℤ→eq, int_laws, max_int64, min_int64, IsInt64, add64_lem,
  sub64_lem, neg64_lem, sub64-nonneg, neg64-nonneg,
}
unfoldable pub use Int.{◌+ℤ◌, ◌-ℤ◌, ◌*ℤ◌, neg, wrap64, add64, sub64, mul64, neg64}
pub use Strings.{Text, codes, text_eq_refl, text_eq→eq, is_empty, itoa-injective, trim_space_idem}
unfoldable pub use Strings.{
  text_eq, is_space, trim_left, trim_space, byte_len, to_upper, contains_any, itoa,
}
pub use Prim.Native.Nat.{ℕ, zero, suc, ◌+◌, ◌-◌, ◌*◌, ◌/◌, ◌%◌, ◌^◌, ◌≤◌, ◌<◌}
pub use mathlib.Core.Path.{◌≡◌, refl, sym, ap, subst, ◌∙◌}
pub use mathlib.Core.Logic.{◌≢◌, ◌↔◌, ◌⊎◌, inl, inr}
pub use mathlib.Core.Bool.{Bool, true, false, not, ◌&&◌, ◌||◌}
pub use mathlib.Core.Option.{Option, none, some}
pub use mathlib.Core.List.{List, [], ◌∷◌, ◌++◌, map, reverse}
pub use native.Mathlib.Omega.{arith}

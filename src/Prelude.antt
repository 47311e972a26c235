-- ===== src/Prelude.antt =====
-- The names that the other modules share: the libraries', passed on, and those of the children.
mod Tests
mod Lists
mod Search
mod Strings
mod Decimal
mod Sorting
mod Membership
pub use Tests.*
pub use Lists.*
pub use Search.*
pub use Strings.*
pub use Decimal.*
pub use Sorting.*
pub use Membership.*
unfoldable pub use Search.{find_from}
unfoldable pub use Lists.{list_beq}
unfoldable pub use Strings.{strip, drop_spaces, contains_text, split_words, split_lines}
unfoldable pub use Decimal.{decimal, zero_pad}
unfoldable pub use Sorting.{sort_by}
pub use Prim.Native.Nat.{ℕ, zero, suc, ◌+◌, ◌-◌, ◌*◌, ◌/◌, ◌%◌, ◌^◌, ◌≤◌, ◌<◌, min, max}
pub use mathlib.Core.Path.{◌≡◌, refl, sym, ap, ◌∙◌, subst}
pub use mathlib.Core.Logic.{◌≢◌, ◌↔◌, ◌⊎◌, inl, inr}
pub use mathlib.Core.Bool.{Bool, true, false, not, ◌&&◌, ◌||◌}
pub use mathlib.Core.Option.{Option, none, some}
pub use mathlib.Core.List.{List, [], ◌∷◌, ◌++◌, map, append-nil, append_assoc}
pub use native.Mathlib.Omega.{arith}

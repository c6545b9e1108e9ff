-- ===== src/Prelude.antt =====
-- Names that every module shares: the libraries', passed on, and those of its children.
pub mod Tests
pub mod Lists
pub mod Bytes
pub mod Int
pub mod Decimal
pub mod Results
pub use Tests.*
pub use Lists.*
unfoldable pub use Bytes.{Text, bytes, same, starts_with, contains, split_on, text_lt}
pub use Bytes.{same_iff, same_refl, same_sym}
pub use Results.*
pub use Prim.Native.Nat.{ℕ, zero, suc, ◌+◌, ◌-◌, ◌*◌, ◌/◌, ◌%◌, ◌^◌, ◌≤◌, ◌<◌}
pub use Prim.Native.String.{String}
pub use mathlib.Core.Path.{◌≡◌, refl, sym, ap, ap₂, subst, ◌∙◌}
pub use mathlib.Core.Logic.{◌≢◌, ◌↔◌, ◌⊎◌, inl, inr}
pub use mathlib.Core.Bool.{Bool, true, false, not, ◌&&◌, ◌||◌}
pub use mathlib.Core.Option.{Option, none, some}
pub use mathlib.Core.List.{List, [], ◌∷◌, ◌++◌, append_assoc, append-nil}
pub use native.Mathlib.Omega.{arith}

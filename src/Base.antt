-- ===== src/Base.antt =====
-- The names that the other modules share: the libraries', passed on, with tests and lists over the
-- native numbers, byte strings, and the monad of a call that may fail.
mod Tests
mod Lists
mod ByteString
mod Members
mod Int
mod Call
pub use Members.*
pub use Int.*
pub use Tests.*
pub use Lists.*
unfoldable pub use ByteString.{bytes_eq}
pub use ByteString.{Bytes, bytes_eq_iff, bytes_eq_refl, bytes_eq_ne}
unfoldable pub use Call.{pure, raise, lift, gets, or_raise, raise_if, modify, ◌>>=◌, for_each}
pub use Call.*
pub use Prim.Native.Nat.{ℕ, zero, suc, ◌+◌, ◌-◌, ◌*◌, ◌/◌, ◌%◌, ◌^◌, ◌≤◌, ◌<◌}
pub use mathlib.Core.Path.{◌≡◌, refl, sym, ap, ◌∙◌, subst}
pub use mathlib.Core.Logic.{◌≢◌, ◌↔◌, ◌⊎◌, inl, inr}
pub use mathlib.Core.Bool.{Bool, true, false, not, ◌&&◌, ◌||◌}
pub use mathlib.Core.Option.{Option, none, some}
pub use mathlib.Core.List.{List, [], ◌∷◌, ◌++◌, map}
pub use native.Mathlib.Omega.{arith}

-- ===== src/Base.antt =====
-- The names that the other modules share: the library's, passed on, and the children's.
mod Tests
mod Lists
mod Results
mod Words
mod Text
mod Decimal
pub use Tests.*
pub use Lists.*
unfoldable pub use Lists.{replicate, overwrite}
pub use Results.*
unfoldable pub use Words.{htons, ntohs, le16, holds_below}
pub use Words.{ntohs-htons, htons-lt, htons-htons, holds_below-at, length-le16}
unfoldable pub use Decimal.{digits, decimal, stoi}
pub use Decimal.{
  ℤ, pos, negsuc, StoiFailure, invalid_argument, out_of_range, stoi-digits, digits-avoid,
  digits-avoid_above, length-digits,
}
unfoldable pub use Text.{ascii, c_string, bytes_eq, bytes_lt, strnlen, strncpy}
pub use Text.{
  NoNul, c_string-append, c_string-stop, c_string-zeros, NoNul-take, bytes_eq_iff, bytes_eq_refl,
  strnlen_text, strnlen-append, strncpy-strnlen, length-take-strnlen,
}
pub use Prim.Native.Nat.{ℕ, zero, suc, ◌+◌, ◌-◌, ◌*◌, ◌/◌, ◌%◌, ◌^◌, ◌≤◌, ◌<◌, min, bit_and, bit_or}
pub use Prim.Native.String.{String}
pub use mathlib.Core.Path.{◌≡◌, refl, sym, ap, ap₂, ◌∙◌, subst}
pub use mathlib.Core.Logic.{◌≢◌, ◌↔◌, ◌⊎◌, inl, inr}
pub use mathlib.Core.Bool.{Bool, true, false, not, ◌&&◌, ◌||◌}
pub use mathlib.Core.Option.{Option, none, some}
pub use mathlib.Core.List.{List, [], ◌∷◌, ◌++◌, map, append-nil, append_assoc}
pub use native.Mathlib.Omega.{arith}

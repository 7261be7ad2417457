-- ===== src/Sbcp/Header.antt =====
-- `struct header` of libsbcp/include/sbcp/sbcp.hpp: nine bits of version, seven of type, and the
-- length in network order.
pub mod Bits
pub mod Laws
use computer_networking_tamu.Base.{ℕ, ◌*◌, ◌/◌, ◌%◌, ◌<◌, bit_and, bit_or, htons, ntohs}

pub record Header : Type 0 where
  pub version_and_type_upper : ℕ
  pub version_and_type_lower : ℕ
  pub length : ℕ

-- A field holds a byte, or the two bytes of the length.
pub record IsHeader (h : Header) : Type 0 where
  pub upper : h.version_and_type_upper < 256
  pub lower : h.version_and_type_lower < 256
  pub length : h.length < 65536

-- The constructor; each initialiser is narrowed to its byte.
unfoldable pub make_header : ℕ → ℕ → ℕ → Header
make_header version type length = record {
  version_and_type_upper = version / 2 % 256;
  version_and_type_lower = bit_or (bit_and version 0x1 * 128) type % 256;
  length = htons length;
}

unfoldable pub get_type : Header → ℕ
get_type h = bit_and h.version_and_type_lower 0x7F

unfoldable pub get_version : Header → ℕ
get_version h = bit_or (h.version_and_type_upper * 2) (h.version_and_type_lower / 128)

unfoldable pub get_length : Header → ℕ
get_length h = ntohs h.length

unfoldable pub set_type : ℕ → Header → Header
set_type type h = record h {
  version_and_type_lower = bit_or (bit_and h.version_and_type_lower 0x80) type;
}

unfoldable pub set_version : ℕ → Header → Header
set_version version h = record h {
  version_and_type_upper = version / 2 % 256;
  version_and_type_lower =
      bit_or (bit_and h.version_and_type_lower 0x7F) (bit_and version 0x1 * 128);
}

unfoldable pub set_length : ℕ → Header → Header
set_length length h = record h { length = htons length }

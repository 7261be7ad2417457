-- ===== src/Http/Uri.antt =====
-- `class URI` of libhttp/include/http/uri.hpp and libhttp/src/uri.cpp. A `size_t` has 64 bits.
pub mod Printing
pub mod Encoding
use computer_networking_tamu.Base.{
  ℕ, zero, suc, ◌+◌, ◌-◌, ◌*◌, ◌/◌, ◌%◌, List, [], ◌∷◌, ◌++◌, Option, none, some, take, drop, ◌==◌,
  leb, ◌&&◌, ◌||◌, Bool, if◌then◌else◌,
}
use computer_networking_tamu.Http.Search.{index_of, last_index_of, position}

pub data Target : Type 0 where
  absolute : List ℕ → List ℕ → Target
  relative : List ℕ → Target

pub record Uri : Type 0 where
  pub target : Target
  pub fragment : Option (List ℕ)

abbrev pub colon : ℕ
colon = 58

abbrev pub octothorpe : ℕ
octothorpe = 35

unfoldable pub fragment_of : Option ℕ → List ℕ → Option (List ℕ)
fragment_of none s = none
fragment_of (some i) s = some (drop (suc i) s)

-- The two branches on `pos`, the position of the first colon. The count of the path's bytes is
-- computed in `size_t`.
unfoldable pub target_of : Option ℕ → Option ℕ → List ℕ → Target
target_of none hash s = relative (take (position hash) s)
target_of (some pos) hash s =
    let count = (position hash + 18446744073709551616 - pos - 1) % 18446744073709551616 in
    absolute (take pos s) (take count (drop (suc pos) s))

-- URI::URI
unfoldable pub parse : List ℕ → Uri
unfolding fragment_of target_of index_of last_index_of
parse s = record {
  target = target_of (index_of colon s) (last_index_of octothorpe s) s;
  fragment = fragment_of (last_index_of octothorpe s) s;
}

unfoldable pub target_string : Target → List ℕ
target_string (absolute scheme path) = scheme ++ (colon ∷ path)
target_string (relative path) = path

unfoldable pub fragment_string : Option (List ℕ) → List ℕ
fragment_string none = []
fragment_string (some fragment) = octothorpe ∷ fragment

unfoldable pub to_string : Uri → List ℕ
unfolding target_string fragment_string
to_string uri = target_string uri.target ++ fragment_string uri.fragment

unfoldable pub get_path : Uri → List ℕ
get_path uri = elim uri.target [ absolute scheme path ↦ path | relative path ↦ path ]

-- isalnum in the C locale, and the four other characters that stand for themselves.
abbrev pub between : ℕ → ℕ → ℕ → Bool
between low high c = leb low c && leb c high

unfoldable pub unreserved : ℕ → Bool
unreserved c =
    between 48 57 c
    || between 65 90 c
    || between 97 122 c
    || c == 45
    || c == 95
    || c == 46
    || c == 126

abbrev pub percent : ℕ
percent = 37

-- hex[n], for n below 16
unfoldable pub hex : ℕ → ℕ
hex n = if leb n 9 then 48 + n else 55 + n

-- URI::encode
unfoldable pub encode : List ℕ → List ℕ
unfolding unreserved hex
encode [] = []
encode (c ∷ s) =
    let rest = encode s in
    if unreserved c then c ∷ rest else percent ∷ hex (c / 16 % 16) ∷ hex (c % 16) ∷ rest

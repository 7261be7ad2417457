-- ===== src/Http/Version.antt =====
-- `class HTTPVersion` of libhttp/include/http/typedef.hpp and libhttp/src/request-line.cpp, and the
-- `substr` of std::string.
pub mod Printing
use computer_networking_tamu.Base.{
  ℕ, ◌+◌, ◌-◌, ◌%◌, List, ◌∷◌, ◌++◌, ok, err, ◌>>=◌, Result, length, take, drop, ltb, if◌then◌else◌,
  ascii, ℤ, StoiFailure, out_of_range, stoi, decimal,
}
use computer_networking_tamu.Http.Search.{index_of, position, npos}

-- Sums and differences of `size_t`.
abbrev pub size_add : ℕ → ℕ → ℕ
size_add a b = (a + b) % 18446744073709551616

abbrev pub size_sub : ℕ → ℕ → ℕ
size_sub a b = (a + 18446744073709551616 - b) % 18446744073709551616

-- A position behind the end throws std::out_of_range.
unfoldable pub substr : ℕ → ℕ → List ℕ → Result StoiFailure (List ℕ)
substr pos count s = if ltb (length s) pos then err out_of_range else ok (take count (drop pos s))

pub record HttpVersion : Type 0 where
  pub major : ℤ
  pub minor : ℤ

-- HTTPVersion::HTTPVersion
unfoldable pub parse_version : List ℕ → Result StoiFailure HttpVersion
unfolding index_of substr stoi
parse_version version = do
  let slash = position (index_of 47 version)
  let dot = position (index_of 46 version)
  before ← substr (size_add slash 1) (size_sub (size_sub dot slash) 1) version
  major ← stoi before
  after ← substr (size_add dot 1) npos version
  minor ← stoi after
  ok (record { major = major; minor = minor })

-- HTTPVersion::to_string
unfoldable pub version_string : HttpVersion → List ℕ
unfolding decimal
version_string v = ascii "HTTP/" ++ (decimal v.major ++ (46 ∷ decimal v.minor))

-- ===== src/Http/StatusLine.antt =====
-- `class StatusLine` of libhttp/include/http/status-line.hpp and libhttp/src/status-line.cpp.
pub mod Printing
use mathlib.Core.Option
use computer_networking_tamu.Base.{
  ℕ, suc, ◌+◌, List, [], ◌∷◌, ◌++◌, Option, none, some, ok, ◌>>=◌, Result, take, drop, ltb, ◌==◌,
  ◌&&◌, Bool, false, if◌then◌else◌, StoiFailure,
}
use computer_networking_tamu.Http.Search.{index_of, position, npos}
use computer_networking_tamu.Http.StatusCode
use computer_networking_tamu.Http.StatusCode.{StatusCode, parse_code}
use computer_networking_tamu.Http.Version.{
  HttpVersion, size_add, size_sub, substr, parse_version, version_string,
}
use computer_networking_tamu.Http.RequestLine.{space, find_from}

pub record StatusLine : Type 0 where
  pub version : HttpVersion
  pub code : StatusCode
  pub reason : Option (List ℕ)

abbrev pub starts_lf : List ℕ → Bool
starts_lf [] = false
starts_lf (b ∷ s) = b == 10

-- `find` of CRLF, and from a position on.
unfoldable pub index_of_crlf : List ℕ → Option ℕ
index_of_crlf [] = none
index_of_crlf (b ∷ s) =
    let rest = Option.map suc (index_of_crlf s) in if (b == 13) && starts_lf s then some 0 else rest

unfoldable pub find_crlf : ℕ → List ℕ → Option ℕ
unfolding index_of_crlf
find_crlf from s = Option.map (λ i. from + i) (index_of_crlf (drop from s))

-- The reason behind the second space, up to a CRLF; none if that stands there at once.
unfoldable pub reason_of : ℕ → ℕ → List ℕ → Result StoiFailure (Option (List ℕ))
unfolding substr
reason_of second crlf line =
    if ltb 1 (size_sub crlf second)
    then (substr (size_add second 1) (size_sub (size_sub crlf second) 1) line >>= λ r. ok (some r))
    else ok none

-- StatusLine::StatusLine
unfoldable pub parse_status : List ℕ → Result StoiFailure StatusLine
unfolding index_of find_from find_crlf substr parse_version parse_code reason_of
parse_status line = do
  let first = position (index_of space line)
  version ← parse_version (take first line)
  let second = position (find_from space (size_add first 1) line)
  text ← substr (size_add first 1) (size_sub (size_sub second first) 1) line
  code ← parse_code text
  reason ← reason_of second (position (find_crlf (size_add second 1) line)) line
  ok (record { version = version; code = code; reason = reason })

abbrev pub reason_string : Option (List ℕ) → List ℕ
reason_string none = []
reason_string (some reason) = reason

-- StatusLine::to_string
unfoldable pub status_string : StatusLine → Option (List ℕ)
unfolding version_string StatusCode.to_string
status_string s =
    Option.map
      (λ code. version_string s.version ++ (space ∷ (code ++ (space ∷ reason_string s.reason))))
      (StatusCode.to_string s.code)

-- ===== src/Http/RequestLine.antt =====
-- `class RequestLine` of libhttp/include/http/request-line.hpp and libhttp/src/request-line.cpp.
pub mod Printing
use mathlib.Core.Option
use computer_networking_tamu.Base.{
  ℕ, ◌+◌, List, ◌∷◌, ◌++◌, Option, ok, ◌>>=◌, Result, take, drop, ascii, StoiFailure,
}
use computer_networking_tamu.Http.Search.{index_of, position, npos}
use computer_networking_tamu.Http.Uri
use computer_networking_tamu.Http.Method.{Method, MethodType, parse_method, method_string}
use computer_networking_tamu.Http.Version.{
  HttpVersion, size_add, size_sub, substr, parse_version, version_string,
}

pub record RequestLine : Type 0 where
  pub method : Method
  pub uri : Uri.Uri
  pub version : HttpVersion

abbrev pub space : ℕ
space = 32

-- `find` from a position on.
unfoldable pub find_from : ℕ → ℕ → List ℕ → Option ℕ
unfolding index_of
find_from c from s = Option.map (λ i. from + i) (index_of c (drop from s))

-- RequestLine::RequestLine
unfoldable pub parse_request : List ℕ → Result StoiFailure RequestLine
unfolding index_of find_from substr parse_method Uri.parse parse_version
parse_request line = do
  let first = position (index_of space line)
  let second = position (find_from space (size_add first 1) line)
  target ← substr (size_add first 1) (size_sub (size_sub second first) 1) line
  text ← substr (size_add second 1) npos line
  version ← parse_version text
  ok (record { method = parse_method (take first line); uri = Uri.parse target; version = version })

-- RequestLine::to_string
unfoldable pub line_string : RequestLine → Option (List ℕ)
unfolding method_string Uri.to_string version_string
line_string r =
    Option.map (λ m. m ++ (space ∷ (Uri.to_string r.uri ++ (space ∷ version_string r.version))))
      (method_string r.method)

unfoldable pub get_uri : RequestLine → List ℕ
unfolding Uri.to_string
get_uri r = Uri.to_string r.uri

-- RequestLine::GET
unfoldable pub make_get : List ℕ → Result StoiFailure RequestLine
unfolding parse_request
make_get uri = parse_request (ascii "GET " ++ (uri ++ ascii " HTTP/1.0"))

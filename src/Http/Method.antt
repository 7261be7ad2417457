-- ===== src/Http/Method.antt =====
-- `class Method` of libhttp/include/http/typedef.hpp and libhttp/src/request-line.cpp.
use computer_networking_tamu.Base.{
  ◌≡◌, ℕ, List, Option, none, some, ascii, bytes_eq, bytes_eq_iff, if◌then◌else◌, arith,
}

pub data MethodType : Type 0 where
  get head post extension : MethodType

pub record Method : Type 0 where
  pub type : MethodType
  pub extension_method : Option (List ℕ)

unfoldable pub get_method_type : List ℕ → MethodType
get_method_type method =
    if bytes_eq method (ascii "GET")
    then get
    else if bytes_eq method (ascii "HEAD")
    then head
    else if bytes_eq method (ascii "POST")
    then post
    else extension

-- An extension keeps its name.
abbrev pub name_kept : MethodType → List ℕ → Option (List ℕ)
name_kept extension method = some method
name_kept get method = none
name_kept head method = none
name_kept post method = none

-- Method::Method
unfoldable pub parse_method : List ℕ → Method
unfolding get_method_type
parse_method method = record {
  type = get_method_type method;
  extension_method = name_kept (get_method_type method) method;
}

-- `none`: the `value()` of an empty optional throws.
unfoldable pub method_string : Method → Option (List ℕ)
method_string m = elim m.type [
  | get ↦ some (ascii "GET")
  | head ↦ some (ascii "HEAD")
  | post ↦ some (ascii "POST")
  | extension ↦ m.extension_method
]

-- A method read from any text prints as that text, without an exception.
pub method_string-parse_method : (text : List ℕ) → method_string (parse_method text) ≡ some text
unfolding method_string parse_method get_method_type
method_string-parse_method text = ground (
  arith,
  bytes_eq_iff text (ascii "GET"),
  bytes_eq_iff text (ascii "HEAD"),
  bytes_eq_iff text (ascii "POST"),
)

-- ===== src/Http/StatusCode.antt =====
-- `class StatusCode` of libhttp/include/http/status-line.hpp and libhttp/src/status-line.cpp.
pub mod Printing
use mathlib.Core.Option
use computer_networking_tamu.Base.{
  ◌≡◌, ◌<◌, refl, ℕ, List, Option, none, some, Result, ok, err, ◌>>=◌, ascii, bytes_eq,
  bytes_eq_iff, bytes_eq_refl, if◌then◌else◌, ℤ, pos, StoiFailure, invalid_argument, stoi, decimal,
  stoi-digits, Bool-cases, inl, inr, arith,
}

-- `OK` is `success`.
pub data StatusCodeEnum : Type 0 where
  success created accepted no_content moved_permanently moved_temporarily : StatusCodeEnum
  not_modified bad_request unauthorized forbidden not_found internal_server_error : StatusCodeEnum
  not_implemented bad_gateway service_unavailable extension : StatusCodeEnum

pub record StatusCode : Type 0 where
  pub code : StatusCodeEnum
  pub extension_code : Option ℤ

-- The text of a code that the switch of `to_string` lists; an extension has none.
abbrev pub code_string : StatusCodeEnum → List ℕ
code_string success = ascii "200"
code_string created = ascii "201"
code_string accepted = ascii "202"
code_string no_content = ascii "204"
code_string moved_permanently = ascii "301"
code_string moved_temporarily = ascii "302"
code_string not_modified = ascii "304"
code_string bad_request = ascii "400"
code_string unauthorized = ascii "401"
code_string forbidden = ascii "403"
code_string not_found = ascii "404"
code_string internal_server_error = ascii "500"
code_string not_implemented = ascii "501"
code_string bad_gateway = ascii "502"
code_string service_unavailable = ascii "503"
code_string extension = ascii ""

unfoldable pub get_status_code : List ℕ → StatusCodeEnum
get_status_code code =
    if bytes_eq code (ascii "200")
    then success
    else if bytes_eq code (ascii "201")
    then created
    else if bytes_eq code (ascii "202")
    then accepted
    else if bytes_eq code (ascii "204")
    then no_content
    else if bytes_eq code (ascii "301")
    then moved_permanently
    else if bytes_eq code (ascii "302")
    then moved_temporarily
    else if bytes_eq code (ascii "304")
    then not_modified
    else if bytes_eq code (ascii "400")
    then bad_request
    else if bytes_eq code (ascii "401")
    then unauthorized
    else if bytes_eq code (ascii "403")
    then forbidden
    else if bytes_eq code (ascii "404")
    then not_found
    else if bytes_eq code (ascii "500")
    then internal_server_error
    else if bytes_eq code (ascii "501")
    then not_implemented
    else if bytes_eq code (ascii "502")
    then bad_gateway
    else if bytes_eq code (ascii "503")
    then service_unavailable
    else extension

-- StatusCode(const std::string&): an extension is read by std::stoi, which may throw.
unfoldable pub with_code : StatusCodeEnum → List ℕ → Result StoiFailure StatusCode
unfolding stoi
with_code extension text = do
  n ← stoi text
  ok (record { code = extension; extension_code = some n })
with_code code text = ok (record { code = code; extension_code = none })

unfoldable pub parse_code : List ℕ → Result StoiFailure StatusCode
unfolding get_status_code with_code
parse_code text = with_code (get_status_code text) text

-- StatusCode(StatusCodeEnum): an extension throws `HTTPError`.
unfoldable pub make_code : StatusCodeEnum → Option StatusCode
make_code extension = none
make_code code = some (record { code = code; extension_code = none })

-- StatusCode::to_string; the extension of a code without one is not looked at by any constructor.
unfoldable pub to_string : StatusCode → Option (List ℕ)
unfolding decimal
to_string s = elim s.code [
  | extension ↦ Option.map decimal s.extension_code
  | other ↦ some (code_string other)
]

unfoldable pub get_reason : StatusCode → List ℕ
get_reason s = elim s.code [
  | success ↦ ascii "OK"
  | created ↦ ascii "Created"
  | accepted ↦ ascii "Accepted"
  | no_content ↦ ascii "No Content"
  | moved_permanently ↦ ascii "Moved Permanently"
  | moved_temporarily ↦ ascii "Moved Temporarily"
  | not_modified ↦ ascii "Not Modified"
  | bad_request ↦ ascii "Bad Request"
  | unauthorized ↦ ascii "Unauthorized"
  | forbidden ↦ ascii "Forbidden"
  | not_found ↦ ascii "Not Found"
  | internal_server_error ↦ ascii "Internal Server Error"
  | not_implemented ↦ ascii "Not Implemented"
  | bad_gateway ↦ ascii "Bad Gateway"
  | service_unavailable ↦ ascii "Service Unavailable"
  | extension ↦ ascii "Extension"
]

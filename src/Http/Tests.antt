-- ===== src/Http/Tests.antt =====
-- Runs of libhttp at fixed inputs.
use computer_networking_tamu.Base.{
  ℕ, suc, ◌≡◌, refl, List, ◌∷◌, ◌++◌, some, pos, ok, ◌>>=◌, ascii, digits, drop, arith,
}
use computer_networking_tamu.Http.Search.{index_of, last_index_of}
use computer_networking_tamu.Http.Uri
use computer_networking_tamu.Http.Uri.{octothorpe}
use computer_networking_tamu.Http.Uri.Printing.{to_string-parse, to_string-parse_fragment}
use computer_networking_tamu.Http.Version.{version_string}
use computer_networking_tamu.Http.RequestLine.{parse_request, line_string}
use computer_networking_tamu.Http.RequestLine.Printing.{line_of, line_string-parse_request}
use computer_networking_tamu.Http.StatusLine.{parse_status, status_string, index_of_crlf}
use computer_networking_tamu.Http.StatusLine.Printing.{status_string-parse_status}
use computer_networking_tamu.Http.StatusCode
use computer_networking_tamu.Http.StatusCode.Printing.{to_string-parse_code}

abbrev page : List ℕ
page = ascii "http://a.b/c#top"

to_string-parse_example : Uri.to_string (Uri.parse page) ≡ page
unfolding index_of last_index_of
to_string-parse_example = to_string-parse page (omega arith) (omega arith)

abbrev doubled : List ℕ
doubled = ascii "/p#a:b"

doubled_lem : Uri.to_string (Uri.parse doubled) ≡ ascii "/p#a:b#a:b"
unfolding Uri.to_string Uri.parse
doubled_lem = refl

to_string-parse_fragment_example :
    Uri.to_string (Uri.parse doubled) ≡ doubled ++ (octothorpe ∷ drop (suc 2) doubled)
unfolding index_of last_index_of
to_string-parse_fragment_example =
    to_string-parse_fragment doubled 4 2 (omega arith) refl refl (omega arith)

to_string-parse_code_example :
    (StatusCode.parse_code (digits 418) >>= λ s. ok (StatusCode.to_string s))
    ≡ ok (some (digits 418))
to_string-parse_code_example = to_string-parse_code 418 (omega arith)

abbrev request : List ℕ
request = line_of (ascii "GET") page (version_string (record { major = pos 1; minor = pos 0 }))

line_string-parse_request_example :
    (parse_request request >>= λ r. ok (line_string r)) ≡ ok (some request)
unfolding index_of last_index_of version_string
line_string-parse_request_example =
    line_string-parse_request (ascii "GET") page 1 0 (omega arith) (omega arith) (omega arith)
      (omega arith) (omega arith) (omega arith)

abbrev ok_line : List ℕ
ok_line =
    line_of (version_string (record { major = pos 1; minor = pos 0 })) (digits 200) (ascii "OK")

status_string-parse_status_example :
    (parse_status ok_line >>= λ s. ok (status_string s)) ≡ ok (some ok_line)
unfolding index_of_crlf
status_string-parse_status_example =
    status_string-parse_status 1 0 200 (ascii "OK") (omega arith) (omega arith) (omega arith) refl
      (omega arith)

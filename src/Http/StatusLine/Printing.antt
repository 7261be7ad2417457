-- ===== src/Http/StatusLine/Printing.antt =====
-- Status lines that are printed and read.
use computer_networking_tamu.Base.{
  ℕ, pos, ◌+◌, ◌<◌, ◌≡◌, ◌≢◌, refl, ap, ◌∙◌, List, [], ◌∷◌, ◌++◌, append_assoc, Option, none, some,
  ok, ◌>>=◌, Result, All, All-append, length, length-append, drop, take-append_length,
  drop-append_length, take-of_le, arith, ascii, digits, digits-avoid, length-digits, bind_ok,
  lt→ltb, le→not_ltb, StoiFailure,
}
use computer_networking_tamu.Http.Search.{npos, index_of-append}
use computer_networking_tamu.Http.StatusCode
use computer_networking_tamu.Http.StatusCode.{parse_code}
use computer_networking_tamu.Http.StatusCode.Printing.{to_string-parse_code}
use computer_networking_tamu.Http.Version.{
  size_add, size_sub, substr, HttpVersion, parse_version, version_string,
}
use computer_networking_tamu.Http.Version.Printing.{parse_version-version_string}
use computer_networking_tamu.Http.RequestLine.{space}
use computer_networking_tamu.Http.RequestLine.Printing.{line_of, second_space, target_part}
use computer_networking_tamu.Http.StatusLine.{
  index_of_crlf, find_crlf, reason_of, parse_status, status_string,
}

version_string-avoid :
    (major minor : ℕ)
    → All (λ b. b ≢ space) (version_string (record { major = pos major; minor = pos minor }))
unfolding version_string
version_string-avoid major minor =
    All-append (λ b. b ≢ space) (ascii "HTTP/") (digits major ++ (46 ∷ digits minor)) (omega arith)
      (All-append (λ b. b ≢ space) (digits major) (46 ∷ digits minor)
        (digits-avoid space major (omega arith))
        ((λ e. omega arith), digits-avoid space minor (omega arith)))

abbrev front_of : List ℕ → List ℕ → List ℕ
front_of version code = version ++ (space ∷ (code ++ (space ∷ [])))

front_length :
    (version code : List ℕ) → length version + 1 + length code + 1 ≡ length (front_of version code)
front_length version code =
    omega (
      arith,
      length-append version (space ∷ (code ++ (space ∷ []))),
      length-append code (space ∷ []),
    )

line_front :
    (version code reason : List ℕ) → line_of version code reason ≡ front_of version code ++ reason
line_front version code reason = simp append_assoc refl

drop_front :
    (version code reason : List ℕ)
    → drop (length version + 1 + length code + 1) (line_of version code reason) ≡ reason
drop_front version code reason = rw (front_length version code) (
    ap (drop (length (front_of version code))) (line_front version code reason)
    ∙ drop-append_length (front_of version code) reason)

line_length :
    (version code reason : List ℕ)
    → length (line_of version code reason) ≡ length version + 1 + length code + 1 + length reason
line_length version code reason = omega (
  arith,
  length-append version (space ∷ (code ++ (space ∷ reason))),
  length-append code (space ∷ reason),
)

-- The reason of a line without a CRLF is all that stands behind the second space.
reason_rest :
    (version code reason : List ℕ)
    → length (line_of version code reason) < 9223372036854775808
    → reason_of (length version + 1 + length code) npos (line_of version code reason)
      ≡ ok (some reason)
unfolding reason_of substr
reason_rest version code reason small =
    let l = line_length version code reason in
    let second : ℕ = length version + 1 + length code in
    let line = line_of version code reason in
    let next : size_add second 1 ≡ second + 1 = omega arith in
    rw (lt→ltb 1 (size_sub npos second) (omega arith)) (
      rw next (
        rw (le→not_ltb (length line) (second + 1) (omega arith)) (
          rw (drop_front version code reason)
            (rw (take-of_le (size_sub (size_sub npos second) 1) reason (omega arith)) refl))))

no_crlf :
    (version code reason : List ℕ)
    → index_of_crlf reason ≡ none
    → length (line_of version code reason) < 9223372036854775808
    → find_crlf (size_add (length version + 1 + length code) 1) (line_of version code reason) ≡ none
unfolding find_crlf
no_crlf version code reason free small =
    let l = line_length version code reason in
    let two : size_add (length version + 1 + length code) 1 ≡ length version + 1 + length code + 1 =
      omega arith in
    rw two (rw (drop_front version code reason) (rw free refl))

status_line_read :
    (version code reason : List ℕ) (v : HttpVersion) (c : StatusCode.StatusCode)
    → All (λ b. b ≢ space) version
    → All (λ b. b ≢ space) code
    → index_of_crlf reason ≡ none
    → length (line_of version code reason) < 9223372036854775808
    → parse_version version ≡ ok v
    → parse_code code ≡ ok c
    → parse_status (line_of version code reason)
      ≡ ok (record { version = v; code = c; reason = some reason })
unfolding parse_status
status_line_read version code reason v c hv hc free small ev ec =
    let l = line_length version code reason in
    let one : size_add (length version) 1 ≡ length version + 1 = omega arith in
    let count : size_sub (size_sub (length version + 1 + length code) (length version)) 1
        ≡ length code =
      omega arith in
    rw (index_of-append space version (code ++ (space ∷ reason)) hv) (
      rw (take-append_length version (space ∷ (code ++ (space ∷ reason)))) (
        rw ev (
          rw one (
            rw (second_space version code reason hc) (
              rw count (
                rw (target_part version code reason) (
                  rw ec (
                    rw (no_crlf version code reason free small)
                      (rw (reason_rest version code reason small) refl)))))))))

ok_injective :
    (o o' : Option (List ℕ))
    → ◌≡◌ {A = Result StoiFailure (Option (List ℕ))} (ok o) (ok o')
    → o ≡ o'
ok_injective o o' e = cc

line_short :
    (major minor code : ℕ) (reason : List ℕ)
    → major < 2147483648
    → minor < 2147483648
    → code < 2147483648
    → length reason < 4611686018427387904
    → length (
        line_of
          (version_string (record { major = pos major; minor = pos minor }))
          (digits code)
          reason)
      < 9223372036854775808
unfolding version_string
line_short major minor code reason ha hb hc small =
    let whole = ascii "HTTP/" ++ (digits major ++ (46 ∷ digits minor)) in
    let l = line_length whole (digits code) reason in
    let v = length-append (digits major) (46 ∷ digits minor) in
    omega (arith, length-digits major, length-digits minor, length-digits code)

-- A status line of a version of two numbers and of a status code, each from 0 to 2^31 - 1, and of
-- a reason without a CRLF and of less than 2^62 bytes, is read without an exception and prints as it
-- was read.
pub status_string-parse_status :
    (major minor code : ℕ) (reason : List ℕ)
    → major < 2147483648
    → minor < 2147483648
    → code < 2147483648
    → index_of_crlf reason ≡ none
    → length reason < 4611686018427387904
    → (parse_status (
          line_of
            (version_string (record { major = pos major; minor = pos minor }))
            (digits code)
            reason)
        >>= λ s. ok (status_string s))
      ≡ ok (
          some (
            line_of
              (version_string (record { major = pos major; minor = pos minor }))
              (digits code)
              reason))
unfolding status_string
status_string-parse_status major minor code reason ha hb hc free small =
    let v : HttpVersion = record { major = pos major; minor = pos minor } in
    let (c, ec, printed) =
      bind_ok (parse_code (digits code)) (λ s. ok (StatusCode.to_string s))
        (to_string-parse_code code hc) in
    rw
      (status_line_read (version_string v) (digits code) reason v c
        (version_string-avoid major minor) (digits-avoid space code (omega arith)) free
        (line_short major minor code reason ha hb hc small)
        (parse_version-version_string major minor ha hb) ec)
      (rw (ok_injective (StatusCode.to_string c) (some (digits code)) printed) refl)

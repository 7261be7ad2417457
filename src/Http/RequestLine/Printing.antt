-- ===== src/Http/RequestLine/Printing.antt =====
-- Request lines that are printed and read.
use computer_networking_tamu.Base.{
  ℕ, pos, ◌+◌, ◌<◌, ◌≡◌, ◌≢◌, refl, ap, sym, ◌∙◌, List, [], ◌∷◌, ◌++◌, append_assoc, some, ok,
  ◌>>=◌, All, length, length-append, take-append_length, drop-append_add, arith,
}
use computer_networking_tamu.Http.Search.{index_of, last_index_of, npos, index_of-append}
use computer_networking_tamu.Http.Uri
use computer_networking_tamu.Http.Uri.{colon, octothorpe}
use computer_networking_tamu.Http.Uri.Printing.{Ordered, to_string-parse}
use computer_networking_tamu.Http.Method.{parse_method, method_string-parse_method}
use computer_networking_tamu.Http.Version.{
  size_add, size_sub, substr, HttpVersion, parse_version, version_string,
}
use computer_networking_tamu.Http.Version.Printing.{
  substr-append, substr-rest, parse_version-version_string,
}
use computer_networking_tamu.Http.RequestLine.{space, find_from, parse_request, line_string}

abbrev pub line_of : List ℕ → List ℕ → List ℕ → List ℕ
line_of method target text = method ++ (space ∷ (target ++ (space ∷ text)))

pub second_space :
    (method target text : List ℕ)
    → All (λ b. b ≢ space) target
    → find_from space (length method + 1) (line_of method target text)
      ≡ some (length method + 1 + length target)
unfolding find_from
second_space method target text h =
    rw (drop-append_add 1 method (space ∷ (target ++ (space ∷ text))))
      (rw (index_of-append space target text h) refl)

pub target_part :
    (method target text : List ℕ)
    → substr (length method + 1) (length target) (line_of method target text) ≡ ok target
target_part method target text =
    let e : length method + 1 ≡ length (method ++ (space ∷ [])) =
      omega (arith, length-append method (space ∷ [])) in
    ap (λ k. substr k (length target) (line_of method target text)) e
    ∙ ap (substr (length (method ++ (space ∷ []))) (length target))
        (sym (append_assoc method (space ∷ []) (target ++ (space ∷ text))))
    ∙ substr-append (method ++ (space ∷ [])) target (space ∷ text)

text_part :
    (method target text : List ℕ)
    → length text < 9223372036854775808
    → substr (length method + 1 + length target + 1) npos (line_of method target text) ≡ ok text
text_part method target text small =
    let front = method ++ (space ∷ (target ++ (space ∷ []))) in
    let e : length method + 1 + length target + 1 ≡ length front = omega (
      arith,
      length-append method (space ∷ (target ++ (space ∷ []))),
      length-append target (space ∷ []),
    ) in
    let regrouped : line_of method target text ≡ front ++ text = simp append_assoc refl in
    ap (λ k. substr k npos (line_of method target text)) e
    ∙ ap (substr (length front) npos) regrouped
    ∙ substr-rest front text small

-- A request line is read as the method, the target and the version that its two spaces separate.
pub parse_request_line :
    (method target text : List ℕ) (v : HttpVersion)
    → All (λ b. b ≢ space) method
    → All (λ b. b ≢ space) target
    → length (line_of method target text) < 9223372036854775808
    → parse_version text ≡ ok v
    → parse_request (line_of method target text)
      ≡ ok (record { method = parse_method method; uri = Uri.parse target; version = v })
unfolding parse_request
parse_request_line method target text v hm ht small hv =
    let n = length-append method (space ∷ (target ++ (space ∷ text))) in
    let l = length-append target (space ∷ text) in
    let one : size_add (length method) 1 ≡ length method + 1 = omega arith in
    let count : size_sub (size_sub (length method + 1 + length target) (length method)) 1
        ≡ length target =
      omega arith in
    let two : size_add (length method + 1 + length target) 1
        ≡ length method + 1 + length target + 1 =
      omega arith in
    rw (index_of-append space method (target ++ (space ∷ text)) hm) (
      rw one (
        rw (second_space method target text ht) (
          rw count (
            rw two (
              rw (target_part method target text) (
                rw (text_part method target text (omega arith)) (
                  rw hv (
                    rw (take-append_length method (space ∷ (target ++ (space ∷ text)))) refl))))))))

-- A request line of a method and a target without spaces, the target's first colon before its last
-- octothorpe, and a version of two numbers from 0 to 2^31 - 1, of less than 2^63 bytes in all, is
-- read without an exception and prints as it was read.
pub line_string-parse_request :
    (method target : List ℕ) (major minor : ℕ)
    → All (λ b. b ≢ space) method
    → All (λ b. b ≢ space) target
    → Ordered (index_of colon target) (last_index_of octothorpe target)
    → major < 2147483648
    → minor < 2147483648
    → length
        (line_of method target (version_string (record { major = pos major; minor = pos minor })))
      < 9223372036854775808
    → (parse_request
          (line_of method target (version_string (record { major = pos major; minor = pos minor })))
        >>= λ r. ok (line_string r))
      ≡ ok (
          some (
            line_of method target
              (version_string (record { major = pos major; minor = pos minor }))))
unfolding line_string
line_string-parse_request method target major minor hm ht ordered ha hb small =
    let v : HttpVersion = record { major = pos major; minor = pos minor } in
    let text = version_string v in
    let n = length-append method (space ∷ (target ++ (space ∷ text))) in
    let l = length-append target (space ∷ text) in
    rw
      (parse_request_line method target text v hm ht small
        (parse_version-version_string major minor ha hb))
      (rw (method_string-parse_method method)
        (rw (to_string-parse target (omega arith) ordered) refl))

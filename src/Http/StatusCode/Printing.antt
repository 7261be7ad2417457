-- ===== src/Http/StatusCode/Printing.antt =====
-- Status codes that are printed and read.
use computer_networking_tamu.Base.{
  ◌≡◌, ◌≢◌, ◌<◌, ◌⊎◌, refl, sym, ℕ, List, none, some, ok, ◌>>=◌, bytes_eq, bytes_eq_iff,
  if◌then◌else◌, decimal, digits, stoi-digits, Bool-cases, inl, inr,
}
use computer_networking_tamu.Http.StatusCode.{
  StatusCodeEnum, success, created, accepted, no_content, moved_permanently, moved_temporarily,
  not_modified, bad_request, unauthorized, forbidden, not_found, internal_server_error,
  not_implemented, bad_gateway, service_unavailable, extension, StatusCode, code_string,
  get_status_code, with_code, parse_code, to_string,
}

-- What is known of the code that a text is found to be.
abbrev Found : List ℕ → StatusCodeEnum → Type 0
Found text code = (code ≡ extension) ⊎ ((code ≢ extension) × (code_string code ≡ text))

found :
    (text : List ℕ) (code rest : StatusCodeEnum)
    → code ≢ extension
    → Found text rest
    → Found text (if bytes_eq text (code_string code) then code else rest)
found text code rest known other = elim (Bool-cases (bytes_eq text (code_string code))) [
  | inl e ↦ rw e (inr (known, sym ((bytes_eq_iff text (code_string code)).0 e)))
  | inr e ↦ rw e other
]

get_status_code-Found : (text : List ℕ) → Found text (get_status_code text)
unfolding get_status_code
get_status_code-Found text =
    found text success _ (λ e. cc)
      (found text created _ (λ e. cc)
        (found text accepted _ (λ e. cc)
          (found text no_content _ (λ e. cc)
            (found text moved_permanently _ (λ e. cc)
              (found text moved_temporarily _ (λ e. cc)
                (found text not_modified _ (λ e. cc)
                  (found text bad_request _ (λ e. cc)
                    (found text unauthorized _ (λ e. cc)
                      (found text forbidden _ (λ e. cc)
                        (found text not_found _ (λ e. cc)
                          (found text internal_server_error _ (λ e. cc)
                            (found text not_implemented _ (λ e. cc)
                              (found text bad_gateway _ (λ e. cc)
                                (found text service_unavailable _ (λ e. cc) (inl refl)))))))))))))))

-- The code of the enumeration alone.
abbrev plain : StatusCodeEnum → StatusCode
plain code = record { code = code; extension_code = none }

with_code-plain :
    (code : StatusCodeEnum) (text : List ℕ)
    → code ≢ extension
    → with_code code text ≡ ok (plain code)
unfolding with_code
with_code-plain success text h = refl
with_code-plain created text h = refl
with_code-plain accepted text h = refl
with_code-plain no_content text h = refl
with_code-plain moved_permanently text h = refl
with_code-plain moved_temporarily text h = refl
with_code-plain not_modified text h = refl
with_code-plain bad_request text h = refl
with_code-plain unauthorized text h = refl
with_code-plain forbidden text h = refl
with_code-plain not_found text h = refl
with_code-plain internal_server_error text h = refl
with_code-plain not_implemented text h = refl
with_code-plain bad_gateway text h = refl
with_code-plain service_unavailable text h = refl
with_code-plain extension text h = absurd (h refl)

to_string-plain :
    (code : StatusCodeEnum) → code ≢ extension → to_string (plain code) ≡ some (code_string code)
unfolding to_string
to_string-plain success h = refl
to_string-plain created h = refl
to_string-plain accepted h = refl
to_string-plain no_content h = refl
to_string-plain moved_permanently h = refl
to_string-plain moved_temporarily h = refl
to_string-plain not_modified h = refl
to_string-plain bad_request h = refl
to_string-plain unauthorized h = refl
to_string-plain forbidden h = refl
to_string-plain not_found h = refl
to_string-plain internal_server_error h = refl
to_string-plain not_implemented h = refl
to_string-plain bad_gateway h = refl
to_string-plain service_unavailable h = refl
to_string-plain extension h = absurd (h refl)

to_string-extension :
    (n : ℕ)
    → n < 2147483648
    → (with_code extension (digits n) >>= λ s. ok (to_string s)) ≡ ok (some (digits n))
unfolding with_code to_string decimal
to_string-extension n small = rw (stoi-digits n small) refl

-- A status code read from the digits of a number below 2^31, whether the enumeration lists it or
-- not, is read without an exception and prints as these digits.
pub to_string-parse_code :
    (n : ℕ)
    → n < 2147483648
    → (parse_code (digits n) >>= λ s. ok (to_string s)) ≡ ok (some (digits n))
unfolding parse_code
to_string-parse_code n small = elim (get_status_code-Found (digits n)) [
  | inl e ↦ rw e (to_string-extension n small)
  | inr (known, e) ↦
      rw (with_code-plain (get_status_code (digits n)) (digits n) known)
        (rw (to_string-plain (get_status_code (digits n)) known) (rw e refl))
]

-- ===== src/Http/Version/Printing.antt =====
-- HTTP versions that are printed and read.
use computer_networking_tamu.Base.{
  ℕ, ℤ, append_assoc, length-digits, ◌<◌, ◌≡◌, ◌≢◌, refl, ap, sym, ◌∙◌, List, [], ◌∷◌, ◌++◌, ok,
  All, All-append, length, length-append, take-append_length, drop-append_length, take-of_le, ascii,
  digits, pos, stoi, stoi-digits, digits-avoid, arith, le→not_ltb,
}
use computer_networking_tamu.Http.Search.{npos, index_of-append}
use computer_networking_tamu.Http.Version.{
  size_add, size_sub, substr, parse_version, version_string,
}

-- The part of a text behind `skipped`, whole or up to what follows it.
pub substr-append :
    (skipped part rest : List ℕ)
    → substr (length skipped) (length part) (skipped ++ (part ++ rest)) ≡ ok part
unfolding substr
substr-append skipped part rest =
    rw
      (le→not_ltb (length (skipped ++ (part ++ rest))) (length skipped)
        (omega (arith, length-append skipped (part ++ rest))))
      (rw (drop-append_length skipped (part ++ rest)) (rw (take-append_length part rest) refl))

pub substr-rest :
    (skipped part : List ℕ)
    → length part < 9223372036854775808
    → substr (length skipped) npos (skipped ++ part) ≡ ok part
unfolding substr
substr-rest skipped part small =
    rw
      (le→not_ltb (length (skipped ++ part)) (length skipped)
        (omega (arith, length-append skipped part)))
      (rw (drop-append_length skipped part) (rw (take-of_le npos part (omega arith)) refl))

-- A version text of two numbers, whatever their digits are.
parse_version-parts :
    (d e : List ℕ) (v w : ℤ)
    → All (λ b. b ≢ 46) d
    → stoi d ≡ ok v
    → stoi e ≡ ok w
    → length d < 9223372036854775800
    → length e < 9223372036854775800
    → parse_version (ascii "HTTP/" ++ (d ++ (46 ∷ e))) ≡ ok (record { major = v; minor = w })
unfolding parse_version
parse_version-parts d e v w free hd he fd fe =
    let front = ascii "HTTP/" ++ d in
    let slash = index_of-append 47 (ascii "HTTP") (d ++ (46 ∷ e)) (omega arith) in
    let dot =
      index_of-append 46 front e (All-append (λ b. b ≢ 46) (ascii "HTTP/") d (omega arith) free) in
    let count : size_sub (size_sub (length front) 4) 1 ≡ length d = omega arith in
    let behind : size_add (length front) 1 ≡ length (front ++ (46 ∷ [])) =
      omega (arith, length-append front (46 ∷ [])) in
    let before = substr-append (ascii "HTTP/") d (46 ∷ e) in
    let after : substr (size_add (length front) 1) npos (front ++ (46 ∷ e)) ≡ ok e =
      ap (λ k. substr k npos (front ++ (46 ∷ e))) behind
      ∙ ap (substr (length (front ++ (46 ∷ []))) npos) (sym (append_assoc front (46 ∷ []) e))
      ∙ substr-rest (front ++ (46 ∷ [])) e (omega arith) in
    rw slash (rw dot (rw count (rw before (rw hd (rw after (rw he refl))))))

-- A version of two numbers from 0 to 2^31 - 1 is read back from what is printed of it.
pub parse_version-version_string :
    (major minor : ℕ)
    → major < 2147483648
    → minor < 2147483648
    → parse_version (version_string (record { major = pos major; minor = pos minor }))
      ≡ ok (record { major = pos major; minor = pos minor })
unfolding version_string
parse_version-version_string major minor hm hn =
    parse_version-parts (digits major) (digits minor) (pos major) (pos minor)
      (digits-avoid 46 major (omega arith)) (stoi-digits major hm) (stoi-digits minor hn)
      (omega (arith, length-digits major)) (omega (arith, length-digits minor))

-- ===== src/Http/Uri/Encoding.antt =====
-- Percent encoding in libhttp/src/uri.cpp, and a decoder for it.
use computer_networking_tamu.Base.{
  ℕ, ◌+◌, ◌-◌, ◌*◌, ◌/◌, ◌%◌, ◌<◌, ◌≡◌, refl, ap, ap₂, ◌∙◌, true, false, List, [], ◌∷◌, All, ◌==◌,
  leb, if◌then◌else◌, arith, Bool-cases, inl, inr,
}
use computer_networking_tamu.Http.Uri.{percent, unreserved, hex, encode}

abbrev pub unhex : ℕ → ℕ
unhex c = if leb c 57 then c - 48 else c - 55

-- A text with each percent sign and its two digits replaced by the byte they stand for.
unfoldable pub decode : List ℕ → List ℕ
decode [] = []
decode (c ∷ []) = c ∷ []
decode (c ∷ d ∷ []) = c ∷ d ∷ []
decode (c ∷ d ∷ e ∷ s) =
    if c == percent then (unhex d * 16 + unhex e) ∷ decode s else c ∷ decode (d ∷ e ∷ s)

decode-plain : (c : ℕ) (s : List ℕ) → (c == percent) ≡ false → decode (c ∷ s) ≡ c ∷ decode s
unfolding decode
decode-plain c [] h = refl
decode-plain c (d ∷ []) h = refl
decode-plain c (d ∷ e ∷ s) h = rw h refl

-- The tables of digits, by evaluation.
unhex-hex : (n : ℕ) → n < 16 → unhex (hex n) ≡ n
unfolding hex
unhex-hex n h = ground arith

unreserved-percent : (c : ℕ) → unreserved c ≡ true → (c == percent) ≡ false
unfolding unreserved
unreserved-percent c h = ground arith

decode-percent :
    (high low : ℕ) (s : List ℕ)
    → high < 16
    → low < 16
    → decode (percent ∷ hex high ∷ hex low ∷ s) ≡ (high * 16 + low) ∷ decode s
unfolding decode
decode-percent high low s h l = rw (unhex-hex high h) (rw (unhex-hex low l) refl)

-- Every text of bytes is what the decoder gives of its encoding.
pub decode-encode_uri : (s : List ℕ) → All (λ c. c < 256) s → decode (encode s) ≡ s
unfolding encode decode
decode-encode_uri [] h = refl
decode-encode_uri (c ∷ s) h = elim (Bool-cases (unreserved c)) [
  | inl e ↦
      rw e
        (decode-plain c (encode s) (unreserved-percent c e) ∙ ap (◌∷◌ c) (decode-encode_uri s h.1))
  | inr e ↦
      let byte = h.0 in
      let sum : c / 16 % 16 * 16 + c % 16 ≡ c = omega arith in
      rw e (
        decode-percent (c / 16 % 16) (c % 16) (encode s) (omega arith) (omega arith)
        ∙ ap₂ ◌∷◌ sum (decode-encode_uri s h.1))
]

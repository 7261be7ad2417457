-- ===== src/Netascii/RoundTrip.antt =====
-- Netascii and back.
use computer_networking_tamu.Base.{
  ℕ, none, zero, suc, ◌*◌, ◌≤◌, ◌≡◌, refl, sym, ◌∙◌, List, [], ◌∷◌, length, ◌==◌, Bool, true, false,
  not, ◌||◌, ◌&&◌, if◌then◌else◌, arith,
}
use computer_networking_tamu.Netascii.{
  lf, cr, Underflow, peeked, to_netascii, after_cr, to_unix, drained, encode, decode,
}

abbrev pub starts_lf : List ℕ → Bool
starts_lf [] = false
starts_lf (b ∷ s) = b == lf

-- A text with each CR that stands before a LF dropped.
unfoldable pub collapsed : List ℕ → List ℕ
collapsed [] = []
collapsed (b ∷ s) = let rest = collapsed s in if (b == cr) && starts_lf s then rest else b ∷ rest

-- The netascii form of a text: CR LF for LF and for CR LF, CR NUL for any other CR.
unfoldable pub netascii_of : List ℕ → List ℕ
netascii_of [] = []
netascii_of (b ∷ s) =
    let rest = netascii_of s in
    if b == lf
    then cr ∷ lf ∷ rest
    else if not (b == cr)
    then b ∷ rest
    else if starts_lf s
    then rest
    else cr ∷ 0 ∷ rest

-- Netascii: a CR stands before a LF or a NUL, and a LF nowhere else. The flag says whether a CR
-- stands before the text.
unfoldable pub is_netascii : Bool → List ℕ → Bool
is_netascii after_cr [] = not after_cr
is_netascii after_cr (b ∷ s) =
    (if after_cr then (b == lf) || (b == 0) else not (b == lf))
    && is_netascii (not after_cr && (b == cr)) s

-- The steps of the two streams.
drained_nil :
    (underflow : Underflow) (fuel : ℕ) → underflow [] ≡ none → drained underflow fuel [] ≡ []
unfolding drained
drained_nil underflow zero e = refl
drained_nil underflow (suc fuel) e = rw (e, drained) refl

-- Any fuel from the file's length on gives the same stream.
encode-drained :
    (fuel fuel' : ℕ) (s : List ℕ)
    → length s ≤ fuel
    → length s ≤ fuel'
    → drained to_netascii fuel s ≡ drained to_netascii fuel' s
unfolding drained to_netascii peeked
encode-drained fuel fuel' [] h h' =
    drained_nil to_netascii fuel refl ∙ sym (drained_nil to_netascii fuel' refl)
encode-drained zero fuel' (b ∷ s) h h' = absurd (omega arith)
encode-drained (suc fuel) zero (b ∷ s) h h' = absurd (omega arith)
encode-drained (suc fuel) (suc fuel') (b ∷ []) h h' = ground (arith, encode-drained fuel fuel' [])
encode-drained (suc fuel) (suc fuel') (b ∷ c ∷ s) h h' =
    ground (arith, encode-drained fuel fuel' (c ∷ s), encode-drained fuel fuel' s)

decode-drained :
    (fuel fuel' : ℕ) (s : List ℕ)
    → length s ≤ fuel
    → length s ≤ fuel'
    → drained to_unix fuel s ≡ drained to_unix fuel' s
unfolding drained to_unix after_cr
decode-drained fuel fuel' [] h h' =
    drained_nil to_unix fuel refl ∙ sym (drained_nil to_unix fuel' refl)
decode-drained zero fuel' (b ∷ s) h h' = absurd (omega arith)
decode-drained (suc fuel) zero (b ∷ s) h h' = absurd (omega arith)
decode-drained (suc fuel) (suc fuel') (b ∷ []) h h' = ground (arith, decode-drained fuel fuel' [])
decode-drained (suc fuel) (suc fuel') (b ∷ c ∷ s) h h' =
    ground (arith, decode-drained fuel fuel' (c ∷ s), decode-drained fuel fuel' s)

round_trip :
    (fuel fuel' : ℕ) (s : List ℕ)
    → length s ≤ fuel
    → 2 * length s ≤ fuel'
    → drained to_unix fuel' (drained to_netascii fuel s) ≡ collapsed s
unfolding drained to_netascii to_unix peeked after_cr collapsed
round_trip fuel fuel' [] h h' =
    rw (drained_nil to_netascii fuel refl) (drained_nil to_unix fuel' refl)
round_trip zero fuel' (b ∷ s) h h' = absurd (omega arith)
round_trip (suc fuel) zero (b ∷ s) h h' = absurd (omega arith)
round_trip (suc fuel) (suc fuel') (b ∷ []) h h' =
    ground (arith, drained_nil to_netascii fuel refl, drained_nil to_unix fuel' refl)
round_trip (suc fuel) (suc fuel') (b ∷ c ∷ s) h h' =
    ground (arith, round_trip fuel fuel' (c ∷ s), round_trip fuel fuel' s)

length-encoded : (fuel : ℕ) (s : List ℕ) → length (drained to_netascii fuel s) ≤ 2 * length s
unfolding drained to_netascii peeked
length-encoded zero s = omega arith
length-encoded (suc fuel) [] = omega arith
length-encoded (suc fuel) (b ∷ []) = ground (arith, drained_nil to_netascii fuel refl)
length-encoded (suc fuel) (b ∷ c ∷ s) =
    ground (arith, length-encoded fuel (c ∷ s), length-encoded fuel s)

encoded_netascii : (fuel : ℕ) (s : List ℕ) → is_netascii false (drained to_netascii fuel s) ≡ true
unfolding drained to_netascii peeked is_netascii
encoded_netascii zero s = refl
encoded_netascii (suc fuel) [] = refl
encoded_netascii (suc fuel) (b ∷ []) = ground (arith, drained_nil to_netascii fuel refl)
encoded_netascii (suc fuel) (b ∷ c ∷ s) =
    ground (arith, encoded_netascii fuel (c ∷ s), encoded_netascii fuel s)

drained-netascii_of :
    (fuel : ℕ) (s : List ℕ) → length s ≤ fuel → drained to_netascii fuel s ≡ netascii_of s
unfolding drained to_netascii peeked netascii_of
drained-netascii_of fuel [] h = drained_nil to_netascii fuel refl
drained-netascii_of zero (b ∷ s) h = absurd (omega arith)
drained-netascii_of (suc fuel) (b ∷ []) h = ground (arith, drained_nil to_netascii fuel refl)
drained-netascii_of (suc fuel) (b ∷ c ∷ s) h =
    ground (arith, drained-netascii_of fuel (c ∷ s), drained-netascii_of fuel s)

-- The stream that UNIXtoNetasciiStream gives of a text is its netascii form.
pub encode-netascii_of : (s : List ℕ) → encode s ≡ netascii_of s
unfolding encode
encode-netascii_of s = drained-netascii_of (length s) s (omega arith)

-- The stream that UNIXtoNetasciiStream gives of a file is netascii, where each CR stands before a
-- LF or a NUL and each LF behind a CR, and is at most twice as long as the file.
pub is_netascii-encode :
    (s : List ℕ) → (is_netascii false (encode s) ≡ true) × (length (encode s) ≤ 2 * length s)
unfolding encode
is_netascii-encode s = (encoded_netascii (length s) s, length-encoded (length s) s)

-- A file sent through UNIXtoNetasciiStream and read through NetasciitoUNIXStream comes back with
-- each CR that stands before a LF dropped, and is otherwise the same.
pub decode-encode : (s : List ℕ) → decode (encode s) ≡ collapsed s
unfolding decode encode
decode-encode s =
    decode-drained _ (2 * length s) (drained to_netascii (length s) s) (omega arith)
      (length-encoded (length s) s)
    ∙ round_trip (length s) (2 * length s) s (omega arith) (omega arith)

-- The fuel of the model is enough: with more calls of `underflow` the streams give nothing more.
pub drained-enough :
    (fuel : ℕ) (s : List ℕ)
    → length s ≤ fuel
    → (drained to_netascii fuel s ≡ encode s) × (drained to_unix fuel s ≡ decode s)
unfolding decode encode
drained-enough fuel s h = (
  encode-drained fuel (length s) s h (omega arith),
  decode-drained fuel (length s) s h (omega arith),
)

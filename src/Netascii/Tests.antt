-- ===== src/Netascii/Tests.antt =====
-- Runs of the streams of MP3/src/netascii.hpp at fixed inputs.
use computer_networking_tamu.Base.{ℕ, ◌≡◌, refl, List, [], ◌∷◌}
use computer_networking_tamu.Netascii.{encode, decode}
use computer_networking_tamu.Netascii.RoundTrip.{collapsed, decode-encode}

-- A line end, a CR before one, and a CR alone.
abbrev text : List ℕ
text = 97 ∷ 10 ∷ 13 ∷ 10 ∷ 13 ∷ 98 ∷ []

encode-text : encode text ≡ 97 ∷ 13 ∷ 10 ∷ 13 ∷ 10 ∷ 13 ∷ 0 ∷ 98 ∷ []
unfolding encode
encode-text = refl

collapsed-text : collapsed text ≡ 97 ∷ 10 ∷ 10 ∷ 13 ∷ 98 ∷ []
unfolding collapsed
collapsed-text = refl

decode-encode_example : decode (encode text) ≡ collapsed text
decode-encode_example = decode-encode text

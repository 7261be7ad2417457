-- ===== src/Proxy/Address.antt =====
-- The server and the path that a URI names, in MP4/src/http_proxy.cpp.
pub mod Parsing
use computer_networking_tamu.Base.{
  ℕ, suc, ◌+◌, List, [], ◌∷◌, Option, none, some, Bool, true, false, ◌&&◌, Result, ok, err, ◌>>=◌,
  take, drop, ◌==◌, if◌then◌else◌, ascii, ℤ, pos, StoiFailure, stoi,
}
use computer_networking_tamu.Http.Search.{index_of, last_index_of}

unfoldable pub starts_with : List ℕ → List ℕ → Bool
starts_with [] s = true
starts_with (c ∷ text) [] = false
starts_with (c ∷ text) (b ∷ s) = (b == c) && starts_with text s

-- `find` of std::string for a text: what follows its first occurrence.
unfoldable pub behind : ℕ → List ℕ → List ℕ → Option (List ℕ)
unfolding starts_with
behind size text [] = none
behind size text (b ∷ s) =
    let rest = behind size text s in
    if starts_with text (b ∷ s) then some (drop size (b ∷ s)) else rest

abbrev pub or_else {ℓ} : {A : Type ℓ} → A → Option A → A
or_else a none = a
or_else a (some b) = b

abbrev pub cut_at : List ℕ → Option ℕ → List ℕ × List ℕ
cut_at host none = (host, ascii "/")
cut_at host (some i) = (take i host, drop i host)

unfoldable pub get_host_and_path_from_uri : List ℕ → List ℕ × List ℕ
unfolding behind index_of
get_host_and_path_from_uri uri =
    let host = or_else uri (behind 3 (ascii "://") uri) in cut_at host (index_of 47 host)

abbrev pub port_at : List ℕ → Option ℕ → Result StoiFailure (List ℕ × ℤ)
port_at host none = ok (host, pos 80)
port_at host (some i) = stoi (drop (suc i) host) >>= λ port. ok (take i host, port)

-- The host without its port, and the port.
unfoldable pub split_port : List ℕ → Result StoiFailure (List ℕ × ℤ)
unfolding last_index_of stoi
split_port host = port_at host (last_index_of 58 host)

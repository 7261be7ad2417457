-- ===== src/Proxy/Address/Parsing.antt =====
-- Which server and path the proxy reads from a URI.
use computer_networking_tamu.Base.{
  ℕ, suc, ◌<◌, ◌≡◌, ◌≢◌, refl, ap, ap₂, ◌∙◌, List, [], ◌∷◌, ◌++◌, none, some, ok, length, drop,
  take-append_length, drop-append_length, All, All-append, ascii, pos, digits, stoi-digits,
  digits-avoid, digits-avoid_above, arith, ==-refl, ==-false,
}
use computer_networking_tamu.Http.Search.{last_index_of, index_of-append}
use computer_networking_tamu.Proxy.Address.{
  starts_with, behind, cut_at, get_host_and_path_from_uri, port_at, split_port,
}

last_index_of-avoid : (c : ℕ) (s : List ℕ) → All (λ b. b ≢ c) s → last_index_of c s ≡ none
unfolding last_index_of
last_index_of-avoid c [] h = refl
last_index_of-avoid c (b ∷ s) h = rw (last_index_of-avoid c s h.1) (rw (==-false b c h.0) refl)

last_index_of-append :
    (c : ℕ) (before s : List ℕ)
    → All (λ b. b ≢ c) s
    → last_index_of c (before ++ (c ∷ s)) ≡ some (length before)
unfolding last_index_of
last_index_of-append c [] s h = rw (last_index_of-avoid c s h) (rw (==-refl c) refl)
last_index_of-append c (b ∷ before) s h = rw (last_index_of-append c before s h) refl

drop-after : (c : ℕ) (s t : List ℕ) → drop (suc (length s)) (s ++ (c ∷ t)) ≡ t
drop-after c [] t = refl
drop-after c (b ∷ s) t = drop-after c s t

-- The authority, and the path behind it from its slash on.
cut-http :
    (authority path : List ℕ)
    → All (λ b. b ≢ 47) authority
    → get_host_and_path_from_uri (ascii "http://" ++ (authority ++ (47 ∷ path)))
      ≡ (authority, 47 ∷ path)
unfolding get_host_and_path_from_uri behind starts_with
cut-http authority path h =
    ap (cut_at (authority ++ (47 ∷ path))) (index_of-append 47 authority path h)
    ∙ ap₂ (λ a p. (a, p)) (take-append_length authority (47 ∷ path))
        (drop-append_length authority (47 ∷ path))

port-read :
    (host : List ℕ) (port : ℕ)
    → port < 2147483648
    → port_at (host ++ (58 ∷ digits port)) (some (length host)) ≡ ok (host, pos port)
port-read host port small = rw (drop-after 58 host (digits port)) (
    rw (stoi-digits port small)
      (ap (λ h. ok (h, pos port)) (take-append_length host (58 ∷ digits port))))

-- http://HOST:PORT/PATH, where the host has no slash and the port is a number below 2 ^ 31 in
-- decimal: the host is asked at that port for the path, its slash included.
pub address-port :
    (host path : List ℕ) (port : ℕ)
    → All (λ b. b ≢ 47) host
    → port < 2147483648
    → (split_port
          (get_host_and_path_from_uri
            (ascii "http://" ++ ((host ++ (58 ∷ digits port)) ++ (47 ∷ path)))).0
        ≡ ok (host, pos port))
      × ((get_host_and_path_from_uri
            (ascii "http://" ++ ((host ++ (58 ∷ digits port)) ++ (47 ∷ path)))).1
          ≡ 47 ∷ path)
unfolding split_port
address-port host path port h small =
    let authority = host ++ (58 ∷ digits port) in
    let plain : All (λ b. b ≢ 47) authority =
      All-append (λ b. b ≢ 47) host (58 ∷ digits port) h
        (omega arith, digits-avoid 47 port (omega arith)) in
    rw (cut-http authority path plain) (
      ap (port_at authority)
            (last_index_of-append 58 host (digits port) (digits-avoid_above 58 port (omega arith)))
          ∙ port-read host port small,
      refl,
    )

-- http://HOST/PATH, where the host has neither a slash nor a colon: the host is asked at port 80 for
-- the path, its slash included.
pub address-default :
    (host path : List ℕ)
    → All (λ b. b ≢ 47) host
    → All (λ b. b ≢ 58) host
    → (split_port (get_host_and_path_from_uri (ascii "http://" ++ (host ++ (47 ∷ path)))).0
        ≡ ok (host, pos 80))
      × ((get_host_and_path_from_uri (ascii "http://" ++ (host ++ (47 ∷ path)))).1 ≡ 47 ∷ path)
unfolding split_port
address-default host path h h' =
    rw (cut-http host path h) (ap (port_at host) (last_index_of-avoid 58 host h'), refl)

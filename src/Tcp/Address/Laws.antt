-- ===== src/Tcp/Address/Laws.antt =====
-- Where libtcp's client connects to.
use computer_networking_tamu.Base.{
  ℕ, ◌%◌, ◌≤◌, ◌<◌, ◌≡◌, refl, ap, subst, List, ◌++◌, Option, some, Bool, true, not, ◌&&◌, ok,
  guard, or_throw, take, length, length-take, replicate, arith, ascii, htons, bind_ok, ok-injective,
  Bool-cases, inl, inr,
}
use computer_networking_tamu.Tcp.Address.{
  is_ipv6, has_letter, map_to_ipv6, address_text, Lookup, not_found, ipv4, unsupported_family, Pton,
  no_address, Connection, named, peer_address, target, connect_to,
}

address_text-fits : (ip : List ℕ) → length (address_text ip) ≤ 45
unfolding address_text map_to_ipv6
address_text-fits ip = elim (Bool-cases (is_ipv6 ip)) [
  | inl e ↦ rw e (omega (arith, length-take 45 ip))
  | inr e ↦ rw e (omega (arith, length-take 45 (ascii "::ffff:" ++ ip)))
]

named-fits : (found : Lookup) (peer : List ℕ) → named found ≡ ok peer → length peer ≤ 45
unfolding named map_to_ipv6
named-fits not_found peer e = absurd cc
named-fits unsupported_family peer e = absurd cc
named-fits (ipv4 name) peer e = omega (
  arith,
  length-take 45 (ascii "::ffff:" ++ name),
  ap length (ok-injective (take 45 (ascii "::ffff:" ++ name)) peer e),
)

peer_address-fits :
    (lookup : List ℕ → Lookup) (server peer : List ℕ)
    → peer_address lookup server ≡ ok peer
    → length peer ≤ 45
unfolding peer_address
peer_address-fits lookup server peer e =
    elim (Bool-cases (not (is_ipv6 server) && has_letter server)) [
      | inl name ↦ named-fits (lookup server) peer (rw name at e)
      | inr ip ↦ omega (
        arith,
        address_text-fits server,
        ap length (ok-injective (address_text server) peer (rw ip at e)),
      )
    ]

-- A client that is connected: its peer's address and a NUL fit the buffer of 46 bytes, and the
-- address that it is connected to is what inet_pton gave for that text, or zero when that was no
-- address.
pub connect_to-fits :
    (lookup : List ℕ → Lookup) (pton : List ℕ → Pton) (socket : Option ℕ) (connects : Bool)
    (server : Option (List ℕ)) (port_no : ℕ) (c : Connection)
    → connect_to lookup pton socket connects server port_no ≡ ok c
    → (length c.peer_ip < 46) × (target (pton c.peer_ip) ≡ ok c.sin6_addr)
unfolding connect_to
connect_to-fits lookup pton socket connects server port_no c e =
    let (name, e1, f1) = bind_ok (or_throw server _) _ e in
    let (peer, e2, f2) = bind_ok (peer_address lookup name) _ f1 in
    let (fd, e3, f3) = bind_ok (or_throw socket _) _ f2 in
    let (bytes, e4, f4) = bind_ok (target (pton peer)) _ f3 in
    let (u, e5, f5) = bind_ok (guard connects _) _ f4 in
    let made = ok-injective _ c f5 in
    let fits = peer_address-fits lookup name peer e2 in
    subst (λ c. (length c.peer_ip < 46) × (target (pton c.peer_ip) ≡ ok c.sin6_addr)) made
      (omega arith, e4)

-- A text that is no address: the client connects all the same, to the address zero.
pub connect_to-no_address :
    (lookup : List ℕ → Lookup) (pton : List ℕ → Pton) (fd : ℕ) (server peer : List ℕ) (port_no : ℕ)
    → peer_address lookup server ≡ ok peer
    → pton peer ≡ no_address
    → connect_to lookup pton (some fd) true (some server) port_no
      ≡ ok (record {
        sockfd = fd;
        peer_ip = peer;
        sin6_addr = replicate 16 0;
        sin6_port = htons (port_no % 65536);
      })
unfolding connect_to target
connect_to-no_address lookup pton fd server peer port_no e h = rw e (rw h refl)

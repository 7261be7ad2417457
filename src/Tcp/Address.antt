-- ===== src/Tcp/Address.antt =====
-- Addresses as text in libtcp/src/server.cpp and libtcp/src/client.cpp, and the constructor of a
-- client that connects to a server. Name lookup, inet_pton and the system calls are outside: they
-- are arguments.
pub mod Laws
use computer_networking_tamu.Base.{
  ℕ, ◌%◌, List, [], ◌∷◌, ◌++◌, Option, Bool, true, false, ◌&&◌, ◌||◌, not, Result, ok, err, ◌>>=◌,
  guard, or_throw, take, replicate, leb, ◌==◌, if◌then◌else◌, htons, ascii,
}

-- The search for a colon, and that for a letter.
unfoldable pub is_ipv6 : List ℕ → Bool
is_ipv6 [] = false
is_ipv6 (c ∷ s) = if c == 58 then true else is_ipv6 s

abbrev pub is_letter : ℕ → Bool
is_letter c = (leb 65 c && leb c 90) || (leb 97 c && leb c 122)

unfoldable pub has_letter : List ℕ → Bool
has_letter [] = false
has_letter (c ∷ s) = if is_letter c then true else has_letter s

-- INET6_ADDRSTRLEN
abbrev pub address_size : ℕ
address_size = 46

-- snprintf of "::ffff:%s" into an address buffer, which keeps the last byte for the NUL.
unfoldable pub map_to_ipv6 : List ℕ → List ℕ
map_to_ipv6 ip = take 45 (ascii "::ffff:" ++ ip)

-- The text that the buffer holds after set_ip_addr; strncpy is cut by the NUL that follows it.
unfoldable pub address_text : List ℕ → List ℕ
unfolding map_to_ipv6 is_ipv6
address_text ip = if not (is_ipv6 ip) then map_to_ipv6 ip else take 45 ip

-- What getaddrinfo finds for a name: an error, an IPv4 address as inet_ntop prints it, or another
-- family.
pub data Lookup : Type 0 where
  not_found : Lookup
  ipv4 : List ℕ → Lookup
  unsupported_family : Lookup

-- inet_pton: 1 and the address, 0 for a text that is no address, -1 for an unknown family.
pub data Pton : Type 0 where
  address : List ℕ → Pton
  no_address : Pton
  unknown_family : Pton

-- Each exit(EXIT_FAILURE) of the constructor.
pub data Exit : Type 0 where
  no_server lookup_failed family_failed socket_failed pton_failed connect_failed : Exit

pub record Connection : Type 0 where
  pub sockfd : ℕ
  pub peer_ip : List ℕ
  pub sin6_addr : List ℕ
  pub sin6_port : ℕ

unfoldable pub named : Lookup → Result Exit (List ℕ)
unfolding map_to_ipv6
named not_found = err lookup_failed
named (ipv4 name) = ok (map_to_ipv6 name)
named unsupported_family = err family_failed

-- The constructor's part up to the socket: a text with a letter and no colon is a name.
unfoldable pub peer_address : (List ℕ → Lookup) → List ℕ → Result Exit (List ℕ)
unfolding named address_text is_ipv6 has_letter
peer_address lookup server =
    if not (is_ipv6 server) && has_letter server
    then named (lookup server)
    else ok (address_text server)

-- `inet_pton(...) < 0` ends the program; a text that is no address leaves the zeros of `memset`.
unfoldable pub target : Pton → Result Exit (List ℕ)
unfolding replicate
target (address bytes) = ok bytes
target no_address = ok (replicate 16 0)
target unknown_family = err pton_failed

-- Client(const char*, int). `socket` is the descriptor or an error, `connects` says whether connect
-- succeeds.
unfoldable pub connect_to :
    (List ℕ → Lookup)
    → (List ℕ → Pton)
    → Option ℕ
    → Bool
    → Option (List ℕ)
    → ℕ
    → Result Exit Connection
unfolding peer_address target htons
connect_to lookup pton socket connects server port_no = do
  name ← or_throw server no_server
  peer ← peer_address lookup name
  fd ← or_throw socket socket_failed
  bytes ← target (pton peer)
  _ ← guard connects connect_failed
  ok (record {
    sockfd = fd;
    peer_ip = peer;
    sin6_addr = bytes;
    sin6_port = htons (port_no % 65536);
  })

-- ===== src/Tcp/Setup.antt =====
-- The start of run_server in libtcp/src/server.cpp, up to its loop. The system calls' results are
-- arguments.
use computer_networking_tamu.Base.{
  ℕ, ◌%◌, ◌≡◌, refl, List, [], ◌∷◌, Option, none, some, Bool, true, false, Result, ok, err, ◌>>=◌,
  ◌>>◌, guard, or_throw, replicate, htons,
}
use computer_networking_tamu.Tcp.Address.{Pton, address, no_address, unknown_family}
use computer_networking_tamu.Tcp.Configuration.{Server}

-- Each exit(EXIT_FAILURE).
pub data Cause : Type 0 where
  no_socket invalid_address no_family bind_failed listen_failed : Cause

-- An exit, and the descriptor that is closed before it.
pub record SetupExit : Type 0 where
  pub cause : Cause
  pub closed : Option ℕ

pub record Listening : Type 0 where
  pub fd : ℕ
  pub sin6_addr : List ℕ
  pub sin6_port : ℕ

-- in6addr_any, or the configured address.
unfoldable pub parsed : ℕ → Pton → Result SetupExit (List ℕ)
parsed fd (address bytes) = ok bytes
parsed fd no_address = err (record { cause = invalid_address; closed = some fd })
parsed fd unknown_family = err (record { cause = no_family; closed = some fd })

unfoldable pub bind_address : (List ℕ → Pton) → ℕ → List ℕ → Result SetupExit (List ℕ)
unfolding parsed replicate
bind_address pton fd [] = ok (replicate 16 0)
bind_address pton fd (c ∷ ip) = parsed fd (pton (c ∷ ip))

unfoldable pub bound : Bool → Bool → ℕ → List ℕ → ℕ → Result SetupExit Listening
bound binds listens fd bytes port = do
  guard binds (record { cause = bind_failed; closed = some fd })
  guard listens (record { cause = listen_failed; closed = some fd })
  ok (record { fd = fd; sin6_addr = bytes; sin6_port = port })

unfoldable pub set_up :
    (List ℕ → Pton) → Option ℕ → Bool → Bool → Server → Result SetupExit Listening
unfolding bind_address bound htons
set_up pton socket binds listens s = do
  fd ← or_throw socket (record { cause = no_socket; closed = none })
  bytes ← bind_address pton fd s.server_ip_addr
  bound binds listens fd bytes (htons (s.port_no % 65536))

-- What becomes of the socket: it is listened to, or closed.
abbrev pub IsSettled : Option ℕ → Result SetupExit Listening → Type 0
IsSettled socket (ok l) = socket ≡ some l.fd
IsSettled socket (err e) = e.closed ≡ socket

bound-IsSettled :
    (binds listens : Bool) (fd : ℕ) (bytes : List ℕ) (port : ℕ)
    → IsSettled (some fd) (bound binds listens fd bytes port)
unfolding bound
bound-IsSettled false listens fd bytes port = refl
bound-IsSettled true false fd bytes port = refl
bound-IsSettled true true fd bytes port = refl

parsed-IsSettled :
    (result : Pton) (binds listens : Bool) (fd port : ℕ)
    → IsSettled (some fd) (parsed fd result >>= λ bytes. bound binds listens fd bytes port)
unfolding parsed
parsed-IsSettled (address bytes) binds listens fd port = bound-IsSettled binds listens fd bytes port
parsed-IsSettled no_address binds listens fd port = refl
parsed-IsSettled unknown_family binds listens fd port = refl

bind_address-IsSettled :
    (pton : List ℕ → Pton) (ip : List ℕ) (binds listens : Bool) (fd port : ℕ)
    → IsSettled (some fd) (bind_address pton fd ip >>= λ bytes. bound binds listens fd bytes port)
unfolding bind_address
bind_address-IsSettled pton [] binds listens fd port =
    bound-IsSettled binds listens fd (replicate 16 0) port
bind_address-IsSettled pton (c ∷ ip) binds listens fd port =
    parsed-IsSettled (pton (c ∷ ip)) binds listens fd port

-- However the calls end, a socket that was opened is the one that the server listens to, or it is
-- closed before the exit.
pub set_up-IsSettled :
    (pton : List ℕ → Pton) (socket : Option ℕ) (binds listens : Bool) (s : Server)
    → IsSettled socket (set_up pton socket binds listens s)
unfolding set_up
set_up-IsSettled pton none binds listens s = refl
set_up-IsSettled pton (some fd) binds listens s =
    bind_address-IsSettled pton s.server_ip_addr binds listens fd (htons (s.port_no % 65536))

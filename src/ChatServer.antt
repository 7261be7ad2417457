-- ===== src/ChatServer.antt =====
-- The main process of MP2/src/sbcp_server.cpp: it learns of users from their handlers, and passes
-- messages between them over two FIFOs for each handler.
-- What the process is given from outside is an argument of each round: whether a handler has sent
-- its bootstrap message and the descriptors that `open` returned, which FIFOs `select` found
-- readable, and what a read of each yields. A write or a close is an action; neither is awaited.
pub mod Fifos
pub mod Invariant
pub mod Delivery
mod Tests
use computer_networking_tamu.Base.{
  ℕ, suc, Bool, true, false, not, List, [], ◌∷◌, ◌++◌, Option, none, some, ok, err, ◌>>=◌, length,
  ◌==◌, if◌then◌else◌, ascii, bytes_eq, c_string, take,
}
use computer_networking_tamu.Sbcp.Types.{
  Outcome, MessageType, join, send, fwd, ack, nak, online, offline, idle, message_type,
}
use computer_networking_tamu.Sbcp.Message.{Message, change_to_fwd, add_username}
use computer_networking_tamu.Sbcp.Message
use computer_networking_tamu.Sbcp.Reading.{attributes}
use computer_networking_tamu.Sbcp.Messages.{make_ack, make_nak, make_online, make_offline}
use Fifos.{FifoMap, lookup, insert, erase}

-- The variables of `main` that live across rounds.
pub record Server : Type 0 where
  pub max_clients : ℕ
  pub rd_fifos : FifoMap
  pub wr_fifos : FifoMap
  pub online_users : List (List ℕ)

unfoldable pub init : ℕ → Server
init max = record { max_clients = max; rd_fifos = []; wr_fifos = []; online_users = [] }

pub data Action : Type 0 where
  write : ℕ → Message → Action
  close : ℕ → Action

-- write_all
unfoldable pub write_all : FifoMap → Message → List Action
write_all [] m = []
write_all ((name, fd) ∷ fifos) m = write fd m ∷ write_all fifos m

-- write_all_except
unfoldable pub write_all_except : FifoMap → Message → List ℕ → List Action
write_all_except [] m username = []
write_all_except ((name, fd) ∷ fifos) m username =
    let rest = write_all_except fifos m username in
    if bytes_eq name username then rest else write fd m ∷ rest

-- `std::remove` and `erase` on the online users.
unfoldable pub remove_user : List ℕ → List (List ℕ) → List (List ℕ)
remove_user u [] = []
remove_user u (v ∷ vs) = let rest = remove_user u vs in if bytes_eq v u then rest else v ∷ rest

-- A bootstrap message, and the descriptors opened for its handler.
pub record Bootstrap : Type 0 where
  pub username : List ℕ
  pub main_fd : ℕ
  pub handler_fd : ℕ

-- The answer to a handler that may not join: a NAK, and both FIFOs closed.
unfoldable pub refuse : List ℕ → Bootstrap → Server → Outcome (Server × List Action)
refuse reason b s = do
  m ← make_nak reason
  ok (s, write b.main_fd m ∷ close b.handler_fd ∷ close b.main_fd ∷ [])

-- The state with one more user.
unfoldable pub admitted : Bootstrap → Server → Server
admitted b s = record s {
  rd_fifos = insert b.username b.handler_fd s.rd_fifos;
  wr_fifos = insert b.username b.main_fd s.wr_fifos;
  online_users = s.online_users ++ b.username ∷ [];
}

-- A user who may join.
unfoldable pub admit : Bootstrap → Server → Outcome (Server × List Action)
admit b s = do
  a ← make_ack (suc (length s.online_users)) s.online_users
  o ← make_online b.username
  ok (
    admitted b s,
    write b.main_fd a ∷ write_all_except (insert b.username b.main_fd s.wr_fifos) o b.username,
  )

unfoldable pub is_taken : Option ℕ → Bool
is_taken none = false
is_taken (some fd) = true

unfoldable pub handle_join : Bootstrap → Server → Outcome (Server × List Action)
unfolding is_taken
handle_join b s =
    if is_taken (lookup b.username s.rd_fifos)
    then refuse (ascii "Username already exists") b s
    else if length s.online_users == s.max_clients
    then refuse (ascii "Maximum clients limit") b s
    else admit b s

-- What `read_message` yields: the end of the file, or a message.
pub data Incoming : Type 0 where
  eof : Incoming
  got : Message → Incoming

-- `wr_fifos[username]`, which is 0 for a name that is not there.
unfoldable pub fd_of : Option ℕ → ℕ
fd_of none = 0
fd_of (some fd) = fd

-- The state without a user.
unfoldable pub departed : List ℕ → Server → Server
departed username s = record s {
  rd_fifos = erase username s.rd_fifos;
  wr_fifos = erase username s.wr_fifos;
  online_users = remove_user username s.online_users;
}

-- The handler of `username` has closed its FIFO.
unfoldable pub handle_disconnect : List ℕ → ℕ → Server → Outcome (Server × List Action)
unfolding fd_of
handle_disconnect username fd s = do
  m ← make_offline username
  ok (
    departed username s,
    close fd ∷ close (fd_of (lookup username s.wr_fifos)) ∷ write_all (erase username s.wr_fifos) m,
  )

-- `std::string::c_str` passed as a C string: the bytes before the first NUL.
unfoldable pub as_c_string : List ℕ → List ℕ
as_c_string name = elim (c_string (name ++ 0 ∷ [])) [ none ↦ name | some s ↦ s ]

-- The switch on the type of a message from an established user.
unfoldable pub forward :
    Option MessageType → List ℕ → Message → Server → Outcome (Server × List Action)
unfolding as_c_string
forward (some send) username m s = do
  m' ← change_to_fwd username m
  ok (s, write_all_except s.wr_fifos m' username)
forward (some idle) username m s = do
  m' ← add_username (as_c_string username) m
  ok (s, write_all_except s.wr_fifos m' username)
forward _ username m s = ok (s, [])

-- The message is printed, which visits all its attributes, before the switch.
unfoldable pub handle_message : List ℕ → Message → Server → Outcome (Server × List Action)
handle_message username m s = do
  printed ← attributes m
  forward (message_type (Message.get_type m)) username m s

unfoldable pub handle_incoming : List ℕ → ℕ → Incoming → Server → Outcome (Server × List Action)
handle_incoming username fd eof s = handle_disconnect username fd s
handle_incoming username fd (got m) s = handle_message username m s

-- One return of `select`.
pub record Round : Type 0 where
  pub bootstrap : Option Bootstrap
  pub is_ready : ℕ → Bool
  pub incoming : ℕ → Incoming

-- The loop over `rd_fifos`: the first FIFO that is ready is served, and the loop ends.
unfoldable pub serve_first : FifoMap → Round → Server → Outcome (Server × List Action)
serve_first [] r s = ok (s, [])
serve_first ((name, fd) ∷ fifos) r s =
    if r.is_ready fd then handle_incoming name fd (r.incoming fd) s else serve_first fifos r s

unfoldable pub step : Round → Server → Outcome (Server × List Action)
step r s = elim r.bootstrap [ none ↦ serve_first s.rd_fifos r s | some b ↦ handle_join b s ]

-- The loop of `main`, over any rounds; an exception ends it.
unfoldable pub run : List Round → Server → Outcome (Server × List Action)
run [] s = ok (s, [])
run (r ∷ rs) s = do (s', out) ← step r s; (s'', rest) ← run rs s'; ok (s'', out ++ rest)

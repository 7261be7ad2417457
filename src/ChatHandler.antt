-- ===== src/ChatHandler.antt =====
-- The process of MP2/src/sbcp_server.cpp that serves one client: read_message and client_handler.
-- What select, read, mkfifo, write and open return is given with each round; a write, a close, a
-- FIFO that is made or unlinked is an action.
pub mod Forwarding
pub mod Joining
mod Tests
use computer_networking_tamu.Base.{
  ℕ, suc, ◌==◌, ltb, Bool, true, false, not, ◌&&◌, List, [], ◌∷◌, ◌++◌, Option, none, some, Result,
  ok, err, ◌>>=◌, ◌>>◌, guard, length, overwrite, replicate, if◌then◌else◌,
}
use computer_networking_tamu.Sbcp.Types.{
  Failure, assertion_failed, memory_fault, Outcome, MessageType, join, send, fwd, ack, nak, online,
  offline, idle, message_type, max_payload_length,
}
use computer_networking_tamu.Sbcp.Header.{Header}
use computer_networking_tamu.Sbcp.Message.{Message}
use computer_networking_tamu.Sbcp.Message
use computer_networking_tamu.Sbcp.Reading.{attributes, get_username}

-- The first read of read_message: nothing, fewer bytes than a header, or a header.
pub data HeaderRead : Type 0 where
  end_of_file partial : HeaderRead
  whole : Header → HeaderRead

-- What read_message returns: 0, -1 with the message as far as it was read, or the size.
pub data Reading : Type 0 where
  closed : Reading
  rejected got : Message → Reading

abbrev pub validated : Outcome (Unit {0}) → Message → List ℕ → Outcome Reading
validated (err e) m body = ok (rejected m)
validated (ok u) m body = do
  guard (length body == Message.get_length m) assertion_failed
  ok (got (record m { payload = overwrite 0 body m.payload }))

-- read_message into a new message, whose payload is zero, for what the two reads yield.
unfoldable pub read_message : HeaderRead → List ℕ → Outcome Reading
read_message end_of_file body = ok closed
read_message partial body = err assertion_failed
read_message (whole header) body =
    let m : Message = record { header = header; payload = replicate max_payload_length 0 } in
    validated (Message.validate m) m body

-- The variables of client_handler that live across rounds; `none` is -1.
pub record Handler : Type 0 where
  pub handler_fd : Option ℕ
  pub main_fd : Option ℕ
  pub fifos_created : Bool

unfoldable pub init : Handler
init = record { handler_fd = none; main_fd = none; fifos_created = false }

pub data Action : Type 0 where
  make_main_fifo make_handler_fifo unlink_main_fifo unlink_handler_fifo close_bootstrap : Action
  write_bootstrap : List ℕ → Action
  write : ℕ → Message → Action
  write_to_client : Message → Action
  close : ℕ → Action

-- Whether the loop goes on, is left by a break, or the function returns.
pub data Next : Type 0 where
  continues leaves returns : Next

-- What the calls of a JOIN return: whether mkfifo succeeds for a name that is free, whether the
-- bootstrap message is written whole, what open returns, whether close succeeds.
pub record Calls : Type 0 where
  pub makes_main : Bool
  pub makes_handler : Bool
  pub writes : Bool
  pub opens_main : Option ℕ
  pub opens_handler : Option ℕ
  pub closes : Bool

abbrev pub Turn : Type 0
Turn = Handler × List Action × Next

-- Once both FIFOs are open: the write end of the pipe is closed.
abbrev pub joined : Bool → ℕ → ℕ → Turn
joined true main handler = (
  record { handler_fd = some handler; main_fd = some main; fifos_created = true },
  close_bootstrap ∷ [],
  continues,
)
joined false main handler = (
  record { handler_fd = some handler; main_fd = some main; fifos_created = true },
  close main ∷ close handler ∷ unlink_main_fifo ∷ unlink_handler_fifo ∷ [],
  returns,
)

abbrev pub open_fifos : Option ℕ → Option ℕ → Bool → Handler → Turn
open_fifos none handler closes s = (s, unlink_main_fifo ∷ unlink_handler_fifo ∷ [], returns)
open_fifos (some main) none closes s = (
  record s { main_fd = some main },
  close main ∷ unlink_main_fifo ∷ unlink_handler_fifo ∷ [],
  returns,
)
open_fifos (some main) (some handler) closes s = joined closes main handler

abbrev pub after : List Action → Turn → Turn
after actions (s, actions', next) = (s, actions ++ actions', next)

-- From get_username on. strcpy writes the name and its NUL to an array of 16 bytes.
unfoldable pub bootstrap : Calls → Message → Handler → Outcome Turn
unfolding get_username
bootstrap calls m s = do
  name ← get_username m
  guard (ltb (length name) 16) memory_fault
  ok (
      if calls.writes
      then after (make_main_fifo ∷ make_handler_fifo ∷ write_bootstrap name ∷ []) (
          open_fifos calls.opens_main calls.opens_handler calls.closes
            (record s { fifos_created = true }))
      else (record s { fifos_created = true }, make_main_fifo ∷ make_handler_fifo ∷ [], returns))

-- The case of a JOIN. A FIFO that exists cannot be made again. When the second FIFO cannot be made,
-- the code unlinks that one.
unfoldable pub handle_join : Calls → Message → Handler → Outcome Turn
unfolding bootstrap
handle_join calls m s =
    if not (calls.makes_main && not s.fifos_created)
    then ok (s, [], returns)
    else if not calls.makes_handler
    then ok (s, make_main_fifo ∷ unlink_handler_fifo ∷ [], returns)
    else bootstrap calls m s

-- write(handler_fd, ...), which fails for -1; a failed write changes nothing here.
abbrev pub write_to : Option ℕ → Message → List Action
write_to none m = []
write_to (some fd) m = write fd m ∷ []

unfoldable pub forward : Message → Handler → Turn
forward m s = (s, if s.fifos_created then write_to s.handler_fd m else [], continues)

-- The switch on the type of a message from the client.
unfoldable pub dispatch : Option MessageType → Calls → Message → Handler → Outcome Turn
unfolding handle_join forward
dispatch (some join) calls m s = handle_join calls m s
dispatch (some send) calls m s = ok (forward m s)
dispatch (some idle) calls m s = ok (forward m s)
dispatch _ calls m s = ok (s, [], continues)

-- A message from the client, printed before the switch, whether read_message rejects it or not.
unfoldable pub from_client : Calls → Reading → Handler → Outcome Turn
unfolding dispatch
from_client calls closed s = ok (s, [], leaves)
from_client calls (rejected m) s = do
  printed ← attributes m
  dispatch (message_type (Message.get_type m)) calls m s
from_client calls (got m) s = do
  printed ← attributes m
  dispatch (message_type (Message.get_type m)) calls m s

-- A message from the main process.
unfoldable pub from_main : Reading → Handler → Outcome Turn
from_main closed s = ok (s, [], leaves)
from_main (rejected m) s = ok (s, [], continues)
from_main (got m) s = do printed ← attributes m; ok (s, write_to_client m ∷ [], continues)

-- How select returns. The main process is listened to once its FIFO is open, and the client goes
-- first.
pub data Round : Type 0 where
  select_interrupted select_failed none_ready : Round
  client_ready : Calls → Outcome Reading → Round
  main_ready : Outcome Reading → Round

abbrev pub listening : Option ℕ → Outcome Reading → Handler → Outcome Turn
listening none reading s = err assertion_failed
listening (some fd) reading s = reading >>= λ r. from_main r s

unfoldable pub step : Round → Handler → Outcome Turn
unfolding from_client from_main
step select_interrupted s = ok (s, [], continues)
step select_failed s = ok (s, [], leaves)
step none_ready s = ok (s, [], continues)
step (client_ready calls reading) s = reading >>= λ r. from_client calls r s
step (main_ready reading) s = listening s.main_fd reading s

abbrev pub close_of : Option ℕ → List Action
close_of none = []
close_of (some fd) = close fd ∷ []

-- What stands behind the loop.
unfoldable pub cleanup : Handler → List Action
cleanup s =
    close_of s.handler_fd
    ++ close_of s.main_fd
    ++ (if s.fifos_created then unlink_main_fifo ∷ unlink_handler_fifo ∷ [] else [])

abbrev pub resume : (Handler → Outcome (List Action)) → Turn → Outcome (List Action)
resume rest (s, actions, continues) = rest s >>= λ later. ok (actions ++ later)
resume rest (s, actions, leaves) = ok (actions ++ cleanup s)
resume rest (s, actions, returns) = ok actions

-- The loop, over any rounds: its actions. An exception or a failed assertion ends the process.
unfoldable pub run : List Round → Handler → Outcome (List Action)
unfolding step cleanup
run [] s = ok []
run (r ∷ rounds) s = step r s >>= resume (λ s'. run rounds s')

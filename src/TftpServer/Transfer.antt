-- ===== src/TftpServer/Transfer.antt =====
-- The loop of MP3/src/tftp_server.cpp that sends a file: its state between two waits, and what it
-- does when `select` returns.
use computer_networking_tamu.Base.{
  ℕ, ◌+◌, ◌%◌, List, [], ◌∷◌, ◌++◌, Bool, true, false, not, ◌&&◌, length, take, drop, ◌==◌, leb,
  if◌then◌else◌, ntohs,
}
use computer_networking_tamu.Tftp.Types.{opcode_code, ack, max_data_length}
use computer_networking_tamu.Tftp.Packet.{bytes}
use computer_networking_tamu.Tftp.Packets.{make_block}

abbrev pub max_timeouts : ℕ
max_timeouts = 5

-- How a wait ends: `select` fails with EINTR or otherwise, times out, or a packet comes. Of the
-- packet the loop looks at two words of its 516-byte buffer: the opcode and the block number.
pub data Event : Type 0 where
  interrupted failed timed_out : Event
  received : ℕ → ℕ → Event

-- The variables of the loop: what is left of `file`, `data` with `data_length`, `block`,
-- `timeouts`, and `max_data`.
pub record Transfer : Type 0 where
  pub stream : List ℕ
  pub content : List ℕ
  pub number : ℕ
  pub timeouts : ℕ
  pub full : Bool

pub data Status : Type 0 where
  waiting finished : Transfer → Status

-- The bytes of a data packet that are sent.
unfoldable pub data_wire : List ℕ → ℕ → List ℕ → List ℕ
unfolding bytes make_block
data_wire memory number content =
    take (4 + length content) (bytes (make_block memory number content))

abbrev pub send_content : List ℕ → Transfer → List (List ℕ) × Status
send_content memory t = (data_wire memory t.number t.content ∷ [], waiting t)

-- The next chunk of the file, or the end of the loop.
unfoldable pub read_chunk : List ℕ → Transfer → List (List ℕ) × Status
read_chunk memory t =
    let content = take max_data_length t.stream in
    if (length content == 0) && not t.full
    then ([], finished t)
    else send_content memory (record t {
      stream = drop max_data_length t.stream;
      content = content;
      full = length content == max_data_length;
    })

-- The loop from its test to the next wait.
unfoldable pub turn : List ℕ → Bool → Transfer → List (List ℕ) × Status
unfolding read_chunk
turn memory retry t =
    if leb max_timeouts t.timeouts
    then ([], finished t)
    else if retry
    then send_content memory t
    else read_chunk memory t

-- A packet that comes: `timeouts` starts again, and an ACK of the block ends the wait for it. An
-- ACK of another block is passed over.
unfoldable pub receive : List ℕ → ℕ → ℕ → Transfer → List (List ℕ) × Status
unfolding turn
receive memory opcode word t =
    let t = record t { timeouts = 0 } in
    if not (opcode == opcode_code ack)
    then ([], finished t)
    else if not (ntohs word == t.number)
    then ([], waiting t)
    else turn memory false (record t { number = (t.number + 1) % 65536 })

-- From one wait to the next.
unfoldable pub step : List ℕ → Event → Status → List (List ℕ) × Status
unfolding turn receive
step memory event (finished t) = ([], finished t)
step memory interrupted (waiting t) = turn memory false t
step memory failed (waiting t) = ([], finished t)
step memory timed_out (waiting t) = turn memory true (record t { timeouts = t.timeouts + 1 })
step memory (received opcode word) (waiting t) = receive memory opcode word t

unfoldable pub run : List ℕ → List Event → Status → List (List ℕ) × Status
unfolding step
run memory [] status = ([], status)
run memory (event ∷ events) status =
    let (writes, status') = step memory event status in
    let (writes', status'') = run memory events status' in (writes ++ writes', status'')

unfoldable pub start : List ℕ → List ℕ → List (List ℕ) × Status
unfolding turn
start memory stream =
    turn memory false
      (record { stream = stream; content = []; number = 1; timeouts = 0; full = false })

-- What the loop has not read of its file.
abbrev pub left : Status → List ℕ
left (waiting t) = t.stream
left (finished t) = t.stream

-- A transfer from its start, through the waits that the list says.
unfoldable pub serve : List ℕ → List ℕ → List Event → List (List ℕ) × Status
unfolding start run
serve memory stream events =
    let (writes, status) = start memory stream in
    let (writes', status') = run memory events status in (writes ++ writes', status')

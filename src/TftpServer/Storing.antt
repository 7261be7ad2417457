-- ===== src/TftpServer/Storing.antt =====
-- The case WRQ of MP3/src/tftp_server.cpp for a file that does not exist: the loop that stores what
-- a client sends. A packet that comes has an opcode and a block number at least; of an ACK that is
-- sent the model keeps the number.
pub mod Waiting
pub mod Octet
pub mod Netascii
use computer_networking_tamu.Base.{
  ℕ, zero, suc, ◌+◌, ◌-◌, ◌%◌, ◌/◌, List, [], ◌∷◌, ◌++◌, Option, none, some, Bool, true, false, not,
  ◌&&◌, length, take, drop, ◌==◌, leb, ltb, if◌then◌else◌, ntohs,
}
use computer_networking_tamu.Netascii.{cr, to_unix, decode}
use computer_networking_tamu.Tftp.Types.{Mode, netascii, octet, opcode_code, block, max_data_length}
use computer_networking_tamu.TftpServer.Transfer.{max_timeouts}

-- How a wait ends: select fails with EINTR or otherwise, times out, or a packet comes, with its
-- opcode, its number as it lies in memory, and what follows these.
pub data Arrival : Type 0 where
  interrupted failed timed_out : Arrival
  received : ℕ → ℕ → List ℕ → Arrival

-- The variables of the loop: what the string stream holds unread, and what the file holds.
pub record Upload : Type 0 where
  pub pending : List ℕ
  pub written : List ℕ
  pub number : ℕ
  pub timeouts : ℕ

-- The loop waits, it has ended with the file, or it has read its stream to the end: then
-- the file gets bytes of the packet's buffer for those that were missing, and no operation on the
-- stream succeeds any more.
pub data Progress : Type 0 where
  storing : Upload → Progress
  stored spoiled : List ℕ → Progress

-- A CR that is the last byte: the stream below is at its end once the byte behind it is peeked at.
abbrev pub is_lone_cr : List ℕ → Bool
is_lone_cr [] = false
is_lone_cr (b ∷ []) = b == cr
is_lone_cr (b ∷ c ∷ s) = false

-- Characters read from NetasciitoUNIXStream, of which each call of underflow gives one: what is
-- read, what the string stream still holds, and whether that was never at its end.
unfoldable pub pulled : ℕ → List ℕ → List ℕ × List ℕ × Bool
unfolding to_unix
pulled zero s = ([], s, true)
pulled (suc n) s = elim (to_unix s) [
  | none ↦ ([], s, false)
  | some (buffer, rest) ↦
      (buffer ++ (pulled n rest).0, (pulled n rest).1, not (is_lone_cr s) && (pulled n rest).2)
]

-- buf->read
unfoldable pub pull : Mode → ℕ → List ℕ → List ℕ × List ℕ × Bool
unfolding pulled
pull octet n s = (take n s, drop n s, leb n (length s))
pull netascii n s = pulled n s

-- `file << buf->rdbuf()`
unfoldable pub remaining : Mode → List ℕ → List ℕ
unfolding decode
remaining octet s = s
remaining netascii s = decode s

unfoldable pub close : Mode → Upload → Progress
unfolding remaining
close mode u = stored (u.written ++ remaining mode u.pending)

-- All but 257 bytes of the string stream go to the file, through the buffer `data`.
unfoldable pub flush : Mode → List ℕ → Upload → Progress
unfolding pull
flush mode data_ u =
    let n = length u.pending - 257 in
    let out = pull mode n u.pending in
    if out.2
    then storing (record u { pending = out.1; written = u.written ++ out.0 })
    else spoiled (u.written ++ (out.0 ++ take (n - length out.0) (drop (length out.0) data_)))

-- The bytes of the buffer that a packet was read into.
abbrev pub packet_bytes : ℕ → ℕ → List ℕ → List ℕ
packet_bytes opcode word content = opcode % 256 ∷ opcode / 256 ∷ word % 256 ∷ word / 256 ∷ content

-- A data packet with the number that is waited for. A short one is the last.
unfoldable pub accept : Mode → ℕ → ℕ → List ℕ → Upload → Progress
unfolding close flush
accept mode opcode word content u =
    let u' = record u { pending = u.pending ++ content } in
    if ltb (length content) max_data_length
    then close mode u'
    else flush mode (packet_bytes opcode word content)
        (record u' { number = (u.number + 1) % 65536 })

-- block - 1
abbrev pub previous : ℕ → ℕ
previous number = (number + 65535) % 65536

unfoldable pub receive : Mode → ℕ → ℕ → List ℕ → Upload → List ℕ × Progress
unfolding accept close
receive mode opcode word content u =
    let u' = record u { timeouts = 0 } in
    if not (opcode == opcode_code block)
    then ([], close mode u')
    else if not (ntohs word == u.number)
    then (previous u.number ∷ [], storing u')
    else (u.number ∷ [], accept mode opcode word content u')

unfoldable pub time_out : Mode → Upload → List ℕ × Progress
unfolding close
time_out mode u =
    let u' = record u { timeouts = u.timeouts + 1 } in
    (
      previous u.number ∷ [],
      if leb max_timeouts (u.timeouts + 1) then close mode u' else storing u',
    )

-- From one wait to the next: the numbers that are acknowledged. A read takes 512 bytes of data at
-- most.
unfoldable pub step : Mode → Arrival → Progress → List ℕ × Progress
unfolding receive time_out close
step mode arrival (stored file) = ([], stored file)
step mode arrival (spoiled file) = ([], spoiled file)
step mode interrupted (storing u) = ([], storing u)
step mode failed (storing u) = ([], close mode u)
step mode timed_out (storing u) = time_out mode u
step mode (received opcode word content) (storing u) =
    receive mode opcode word (take max_data_length content) u

unfoldable pub run : Mode → List Arrival → Progress → List ℕ × Progress
unfolding step
run mode [] p = ([], p)
run mode (a ∷ arrivals) p =
    let (acks, p') = step mode a p in
    let (acks', p'') = run mode arrivals p' in (acks ++ acks', p'')

-- ACK(0), and the waits that the list says.
unfoldable pub store : Mode → List Arrival → List ℕ × Progress
unfolding run
store mode arrivals =
    let (acks, p) =
      run mode arrivals
        (storing (record { pending = []; written = []; number = 1; timeouts = 0 })) in
    (0 ∷ acks, p)

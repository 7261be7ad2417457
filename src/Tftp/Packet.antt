-- ===== src/Tftp/Packet.antt =====
-- `class Packet` of libtftp/include/tftp/tftp.hpp and libtftp/src/tftp.cpp.
-- A packet is its opcode and the bytes that stand from its union to the end of the memory around
-- it: the object that a constructor fills, or the buffer that a packet was read into. A constructor
-- is given the bytes that the uninitialised object holds before it.
use computer_networking_tamu.Base.{
  ℕ, ◌+◌, ◌*◌, List, [], ◌∷◌, ◌++◌, none, some, ok, err, ◌>>=◌, or_throw, take, drop, overwrite,
  htons, ntohs, le16, c_string, strnlen, strncpy,
}
use computer_networking_tamu.Tftp.Types.{
  Outcome, memory_fault, unsized_data, unknown_opcode, rrq, wrq, block, ack, error, opcode_of,
  ErrorCode, error_code, max_mode_length, max_filename_length, max_error_message_length,
  max_data_length,
}

-- A `uint16_t` at the start of a piece of memory.
unfoldable pub first_word : List ℕ → Outcome ℕ
first_word (lo ∷ hi ∷ _) = ok (lo + hi * 256)
first_word _ = err memory_fault

unfoldable pub c_str : List ℕ → Outcome (List ℕ)
c_str memory = or_throw (c_string memory) memory_fault

-- Packet::RQ. The two texts are C strings.
unfoldable pub make_request : List ℕ → List ℕ → List ℕ → List ℕ
make_request before filename mode =
    let filename_length = strnlen max_filename_length filename in
    let mode_length = strnlen max_mode_length mode in
    let named = overwrite 0 (strncpy filename_length filename) before in
    let ended = overwrite filename_length (0 ∷ []) named in
    let moded = overwrite (filename_length + 1) (strncpy mode_length mode) ended in
    overwrite (filename_length + mode_length + 1) (0 ∷ []) moded

unfoldable pub filename : List ℕ → Outcome (List ℕ)
unfolding c_str
filename memory = c_str memory

unfoldable pub mode : List ℕ → Outcome (List ℕ)
unfolding c_str
mode memory = c_str (drop (strnlen max_filename_length memory + 1) memory)

unfoldable pub request_size : List ℕ → ℕ
request_size memory =
    let filename_length = strnlen max_filename_length memory + 1 in
    filename_length + (strnlen max_mode_length (drop filename_length memory) + 1)

-- Packet::DATA
unfoldable pub make_data : List ℕ → ℕ → List ℕ → List ℕ
make_data before number content =
    overwrite 2 (take max_data_length content) (overwrite 0 (le16 (htons number)) before)

unfoldable pub get_block : List ℕ → Outcome ℕ
unfolding first_word
get_block memory = do number ← first_word memory; ok (ntohs number)

unfoldable pub get_data : List ℕ → List ℕ
get_data memory = drop 2 memory

-- Packet::ACK
unfoldable pub make_ack : List ℕ → ℕ → List ℕ
make_ack before number = overwrite 0 (le16 (htons number)) before

-- Packet::ERROR; the constructor without a text copies the empty one.
unfoldable pub make_error : List ℕ → ErrorCode → List ℕ → List ℕ
make_error before code text =
    let coded = overwrite 0 (le16 (error_code code)) before in
    let copied = overwrite 2 (strncpy max_error_message_length text) coded in
    overwrite (2 + max_error_message_length) (0 ∷ []) copied

unfoldable pub get_error_code : List ℕ → Outcome ℕ
unfolding first_word
get_error_code memory = first_word memory

unfoldable pub get_error_message : List ℕ → Outcome (List ℕ)
unfolding c_str
get_error_message memory = c_str (drop 2 memory)

unfoldable pub error_size : List ℕ → ℕ
error_size memory = 2 + (strnlen max_error_message_length (drop 2 memory) + 1)

pub record Packet : Type 0 where
  pub opcode : ℕ
  pub payload : List ℕ

-- Packet::size
unfoldable pub size : Packet → Outcome ℕ
unfolding request_size error_size
size p = elim (opcode_of p.opcode) [
  | none ↦ err unknown_opcode
  | some rrq ↦ ok (2 + request_size p.payload)
  | some wrq ↦ ok (2 + request_size p.payload)
  | some block ↦ err unsized_data
  | some ack ↦ ok 4
  | some error ↦ ok (2 + error_size p.payload)
]

-- The object's bytes, as `write` sends the first of them.
unfoldable pub bytes : Packet → List ℕ
bytes p = le16 p.opcode ++ p.payload

-- A buffer read as a packet.
unfoldable pub packet_of : List ℕ → Outcome Packet
unfolding first_word
packet_of buffer = do
  code ← first_word buffer
  ok (record { opcode = code; payload = drop 2 buffer })

-- ===== src/TftpServer/Handler.antt =====
-- The handler of the server in MP3/src/tftp_server.cpp, up to the first wait of a transfer.
-- What the outside supplies is the data of a run: the files, and for each wait in `select` how it
-- ends. A write is the list of the bytes that the client is sent. `memory` is what an uninitialised
-- packet holds.
use computer_networking_tamu.Base.{ℕ, List, [], Option, none, some, ok, ◌>>=◌}
use computer_networking_tamu.Netascii.{encode}
use computer_networking_tamu.Tftp.Types.{
  Outcome, Mode, netascii, octet, mode_from_string, Opcode, rrq, wrq, block, ack, error, opcode_of,
  ErrorCode, file_not_found, file_already_exists, illegal_operation,
}
use computer_networking_tamu.Tftp.Packet.{Packet, packet_of, filename, mode}
use computer_networking_tamu.Tftp.Packets.{make_failure, sent}
use computer_networking_tamu.TftpServer.Transfer.{Status, start}

-- The stream that a read request is answered from.
unfoldable pub stream_of : Mode → List ℕ → List ℕ
unfolding encode
stream_of netascii content = encode content
stream_of octet content = content

-- What a request leads to: an error packet and nothing more, a transfer, or the storing of a file,
-- whose loop is that of TftpServer.Storing.
pub data Reply : Type 0 where
  refused : List ℕ → Reply
  transfer : List (List ℕ) → Status → Reply
  storing : List ℕ → Mode → Reply

unfoldable pub refuse : List ℕ → ErrorCode → Outcome Reply
unfolding sent make_failure
refuse memory code = do wire ← sent (make_failure memory code []); ok (refused wire)

-- The case RRQ for a file that could be opened, up to the first wait.
unfoldable pub begin : List ℕ → List ℕ → List ℕ → Outcome Reply
unfolding mode_from_string stream_of start
begin memory text content = do
  kind ← mode_from_string text
  let (writes, status) = start memory (stream_of kind content)
  ok (transfer writes status)

unfoldable pub found : List ℕ → Option (List ℕ) → Packet → Outcome Reply
unfolding refuse mode begin
found memory none p = refuse memory file_not_found
found memory (some content) p = do text ← mode p.payload; begin memory text content

unfoldable pub handle_rrq : (List ℕ → Option (List ℕ)) → List ℕ → Packet → Outcome Reply
unfolding filename found
handle_rrq files memory p = do name ← filename p.payload; found memory (files name) p

-- The case WRQ, up to the first wait: the file must not exist.
unfoldable pub unless_found : List ℕ → List ℕ → Option (List ℕ) → Packet → Outcome Reply
unfolding refuse mode mode_from_string
unless_found memory name (some content) p = refuse memory file_already_exists
unless_found memory name none p = do
  text ← mode p.payload
  kind ← mode_from_string text
  ok (storing name kind)

unfoldable pub handle_wrq : (List ℕ → Option (List ℕ)) → List ℕ → Packet → Outcome Reply
unfolding filename unless_found
handle_wrq files memory p = do name ← filename p.payload; unless_found memory name (files name) p

-- The switch on the opcode.
unfoldable pub dispatch :
    (List ℕ → Option (List ℕ)) → List ℕ → Packet → Option Opcode → Outcome Reply
unfolding handle_rrq handle_wrq refuse
dispatch files memory p (some rrq) = handle_rrq files memory p
dispatch files memory p (some wrq) = handle_wrq files memory p
dispatch files memory p (some block) = refuse memory illegal_operation
dispatch files memory p (some ack) = refuse memory illegal_operation
dispatch files memory p (some error) = refuse memory illegal_operation
dispatch files memory p none = refuse memory illegal_operation

-- The handler, on the buffer that a message was read into.
unfoldable pub handle : (List ℕ → Option (List ℕ)) → List ℕ → List ℕ → Outcome Reply
unfolding dispatch packet_of opcode_of
handle files memory buffer = do p ← packet_of buffer; dispatch files memory p (opcode_of p.opcode)

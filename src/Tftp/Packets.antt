-- ===== src/Tftp/Packets.antt =====
-- libtftp/src/packets.cpp: a packet of each kind.
use computer_networking_tamu.Base.{ℕ, List, ok, err, ◌>>=◌, ◌==◌, if◌then◌else◌, take}
use computer_networking_tamu.Tftp.Types.{
  Outcome, not_data, rrq, wrq, block, ack, error, opcode_code, ErrorCode,
}
use computer_networking_tamu.Tftp.Packet.{
  Packet, make_request, make_data, make_ack, make_error, get_block, size, bytes,
}

unfoldable pub make_rrq : List ℕ → List ℕ → List ℕ → Packet
unfolding make_request
make_rrq before filename mode = record {
  opcode = opcode_code rrq;
  payload = make_request before filename mode;
}

unfoldable pub make_wrq : List ℕ → List ℕ → List ℕ → Packet
unfolding make_request
make_wrq before filename mode = record {
  opcode = opcode_code wrq;
  payload = make_request before filename mode;
}

unfoldable pub make_block : List ℕ → ℕ → List ℕ → Packet
unfolding make_data
make_block before number content = record {
  opcode = opcode_code block;
  payload = make_data before number content;
}

unfoldable pub make_acknowledgment : List ℕ → ℕ → Packet
unfolding make_ack
make_acknowledgment before number = record {
  opcode = opcode_code ack;
  payload = make_ack before number;
}

unfoldable pub make_failure : List ℕ → ErrorCode → List ℕ → Packet
unfolding make_error
make_failure before code text = record {
  opcode = opcode_code error;
  payload = make_error before code text;
}

-- ACK_from
unfoldable pub ack_from : List ℕ → Packet → Outcome Packet
unfolding get_block make_acknowledgment
ack_from before p =
    if p.opcode == opcode_code block
    then (get_block p.payload >>= λ number. ok (make_acknowledgment before number))
    else err not_data

-- What `client->write(&packet, packet.size())` sends.
unfoldable pub sent : Packet → Outcome (List ℕ)
unfolding size bytes
sent p = do n ← size p; ok (take n (bytes p))

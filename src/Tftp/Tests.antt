-- ===== src/Tftp/Tests.antt =====
-- Runs of libtftp at fixed inputs.
use computer_networking_tamu.Base.{◌≡◌, [], ◌∷◌, ◌++◌, ok, ◌>>=◌, ascii, arith}
use computer_networking_tamu.Tftp.Packet.{Packet}
use computer_networking_tamu.Tftp.Packets.{make_rrq, make_wrq, sent}
use computer_networking_tamu.Tftp.Wire.{read_request, read_request-sent}

read_request-sent_example :
    ((sent (make_rrq [] (ascii "a.txt") (ascii "netascii mode")) >>= λ wire.
    read_request (wire ++ 7 ∷ []))
      ≡ ok (256, ascii "a.txt", ascii "netascii"))
    × ((sent (make_wrq [] (ascii "a.txt") (ascii "netascii mode")) >>= λ wire.
          read_request (wire ++ 7 ∷ []))
        ≡ ok (512, ascii "a.txt", ascii "netascii"))
read_request-sent_example =
    read_request-sent [] (7 ∷ []) (ascii "a.txt") (ascii "netascii mode") (omega arith)
      (omega arith)

abbrev request : Packet
request = record { opcode = 256; payload = ascii "a.txt" }

-- ===== src/TftpServer/Requests.antt =====
-- What the server of MP3/src/tftp_server.cpp answers to a request that libtftp builds.
use computer_networking_tamu.Base.{
  ℕ, suc, ◌+◌, ◌≤◌, ◌≡◌, refl, sym, ◌∙◌, List, [], ◌∷◌, ◌++◌, Option, none, some, ok, err, ◌>>=◌,
  length, take, length-take, append-nil, arith, NoNul, NoNul-take, le16, bind_ok, ap, ◌≢◌, ◌<◌,
}
use computer_networking_tamu.Tftp.Types.{
  Outcome, not_data, Mode, netascii, octet, mode_string, mode_from_string_lem, ErrorCode,
  error_code, file_not_found, file_already_exists, illegal_operation, Opcode, rrq, wrq, block, ack,
  error, opcode_of,
}
use computer_networking_tamu.Tftp.Packet.{
  Packet, packet_of, first_word, mode, make_request, request_size, size, bytes,
}
use computer_networking_tamu.Tftp.Packets.{make_rrq, make_wrq, make_failure, sent}
use computer_networking_tamu.Tftp.Wire.{request_payload, filename_layout, mode_layout}
use computer_networking_tamu.Tftp.Replies.{read_error, read_error-sent, first_word_stored}
use computer_networking_tamu.TftpServer.Handler.{
  Reply, refused, transfer, storing, refuse, begin, stream_of, found, handle_rrq, unless_found,
  handle_wrq, dispatch, handle,
}
use computer_networking_tamu.TftpServer.Transfer.{start}
use computer_networking_tamu.Netascii.RoundTrip.{netascii_of, encode-netascii_of}

-- The bytes that a client is to get of a file.
abbrev pub in_form : Mode → List ℕ → List ℕ
in_form netascii content = netascii_of content
in_form octet content = content

stream_of-in_form : (m : Mode) (content : List ℕ) → stream_of m content ≡ in_form m content
unfolding stream_of
stream_of-in_form netascii content = encode-netascii_of content
stream_of-in_form octet content = refl

-- The reply to a read request for a file that is there, or not.
abbrev pub answer : List ℕ → Mode → Option (List ℕ) → Outcome Reply
answer memory m none = refuse memory file_not_found
answer memory m (some content) =
    let (writes, status) = start memory (in_form m content) in ok (transfer writes status)

mode_string-NoNul : (m : Mode) → NoNul (mode_string m)
mode_string-NoNul netascii = omega arith
mode_string-NoNul octet = omega arith

take-mode_string : (m : Mode) → take 8 (mode_string m) ≡ mode_string m
take-mode_string netascii = refl
take-mode_string octet = refl

found-answer :
    (memory : List ℕ) (m : Mode) (p : Packet) (file : Option (List ℕ))
    → mode p.payload ≡ ok (mode_string m)
    → found memory file p ≡ answer memory m file
unfolding found begin
found-answer memory m p none e = refl
found-answer memory m p (some content) e = rw e (
    rw ((mode_from_string_lem (mode_string m) m).0.1 refl)
      (ap (λ s. ok (transfer (start memory s).0 (start memory s).1)) (stream_of-in_form m content)))

handle_layout :
    (files : List ℕ → Option (List ℕ)) (memory behind name : List ℕ) (m : Mode)
    → NoNul name
    → length name ≤ 128
    → handle files memory (0 ∷ 1 ∷ (name ++ (0 ∷ (mode_string m ++ (0 ∷ behind)))))
      ≡ answer memory m (files name)
unfolding handle dispatch handle_rrq packet_of first_word opcode_of
handle_layout files memory behind name m h fits =
    let p : Packet = record {
      opcode = 256;
      payload = name ++ (0 ∷ (mode_string m ++ (0 ∷ behind)));
    } in
    rw (filename_layout name (mode_string m ++ (0 ∷ behind)) h) (
      found-answer memory m p (files name)
        (mode_layout name (mode_string m) behind h (mode_string-NoNul m) fits))

-- A read request of libtftp for a name without NUL, in either mode, is answered, whatever follows
-- it in the server's buffer, by the transfer of the file of that name, cut to 128 bytes, with
-- CR LF for each LF and CR LF and CR NUL for each other CR if the mode is netascii, as it is if the
-- mode is octet, and by the error FILE_NOT_FOUND if there is none.
pub handle-rrq :
    (files : List ℕ → Option (List ℕ)) (memory before behind name : List ℕ) (m : Mode)
    → NoNul name
    → (sent (make_rrq before name (mode_string m)) >>= λ wire. handle files memory (wire ++ behind))
      ≡ answer memory m (files (take 128 name))
unfolding sent size bytes make_rrq le16 opcode_of
handle-rrq files memory before behind name m h =
    let payload = make_request before name (mode_string m) in
    let e : 2 + request_size payload ≡ suc (suc (request_size payload)) = omega arith in
    let p = request_payload before behind name (mode_string m) h (mode_string-NoNul m) in
    rw e (
      rw p (
        rw (take-mode_string m) (
          handle_layout files memory behind (take 128 name) m (NoNul-take 128 name h)
            (omega (arith, length-take 128 name)))))

-- The reply to a write request for a file that is there, or not.
abbrev pub permission : List ℕ → List ℕ → Mode → Option (List ℕ) → Outcome Reply
permission memory name m none = ok (storing name m)
permission memory name m (some content) = refuse memory file_already_exists

unless_found-permission :
    (memory name : List ℕ) (m : Mode) (p : Packet) (file : Option (List ℕ))
    → mode p.payload ≡ ok (mode_string m)
    → unless_found memory name file p ≡ permission memory name m file
unfolding unless_found
unless_found-permission memory name m p none e =
    rw e (rw ((mode_from_string_lem (mode_string m) m).0.1 refl) refl)
unless_found-permission memory name m p (some content) e = refl

handle-wrq_layout :
    (files : List ℕ → Option (List ℕ)) (memory behind name : List ℕ) (m : Mode)
    → NoNul name
    → length name ≤ 128
    → handle files memory (0 ∷ 2 ∷ (name ++ (0 ∷ (mode_string m ++ (0 ∷ behind)))))
      ≡ permission memory name m (files name)
unfolding handle dispatch handle_wrq packet_of first_word opcode_of
handle-wrq_layout files memory behind name m h fits =
    let p : Packet = record {
      opcode = 512;
      payload = name ++ (0 ∷ (mode_string m ++ (0 ∷ behind)));
    } in
    rw (filename_layout name (mode_string m ++ (0 ∷ behind)) h) (
      unless_found-permission memory name m p (files name)
        (mode_layout name (mode_string m) behind h (mode_string-NoNul m) fits))

-- A write request of libtftp for a name without NUL, in either mode, leads, whatever follows it in
-- the server's buffer, to the storing of a file of that name, cut to 128 bytes, in that mode, and to
-- the error FILE_ALREADY_EXISTS if there is one.
pub handle-wrq :
    (files : List ℕ → Option (List ℕ)) (memory before behind name : List ℕ) (m : Mode)
    → NoNul name
    → (sent (make_wrq before name (mode_string m)) >>= λ wire. handle files memory (wire ++ behind))
      ≡ permission memory (take 128 name) m (files (take 128 name))
unfolding sent size bytes make_wrq le16 opcode_of
handle-wrq files memory before behind name m h =
    let payload = make_request before name (mode_string m) in
    let e : 2 + request_size payload ≡ suc (suc (request_size payload)) = omega arith in
    let p = request_payload before behind name (mode_string m) h (mode_string-NoNul m) in
    rw e (
      rw p (
        rw (take-mode_string m) (
          handle-wrq_layout files memory behind (take 128 name) m (NoNul-take 128 name h)
            (omega (arith, length-take 128 name)))))

-- The error that a reply holds, as its receiver reads it.
unfoldable pub error_of : Reply → Outcome (ℕ × ℕ × List ℕ)
unfolding read_error
error_of (refused wire) = read_error wire
error_of (transfer writes status) = err not_data
error_of (storing name kind) = err not_data

-- An error packet of the server is read by its client as that error, with an empty text.
error_of-refuse :
    (memory : List ℕ) (code : ErrorCode)
    → (refuse memory code >>= error_of) ≡ ok (1280, error_code code, [])
unfolding refuse error_of
error_of-refuse memory code =
    let (wire, e, r) =
      bind_ok (sent (make_failure memory code [])) (λ wire. read_error (wire ++ []))
        (read_error-sent memory [] [] code tt) in
    let r' : read_error wire ≡ ok (1280, error_code code, []) =
      ap read_error (sym (append-nil wire)) ∙ r in
    rw e r'

dispatch-illegal :
    (files : List ℕ → Option (List ℕ)) (memory : List ℕ) (p : Packet) (o : Option Opcode)
    → o ≢ some rrq
    → o ≢ some wrq
    → dispatch files memory p o ≡ refuse memory illegal_operation
unfolding dispatch
dispatch-illegal files memory p (some rrq) a b = absurd (a refl)
dispatch-illegal files memory p (some wrq) a b = absurd (b refl)
dispatch-illegal files memory p (some block) a b = refl
dispatch-illegal files memory p (some ack) a b = refl
dispatch-illegal files memory p (some error) a b = refl
dispatch-illegal files memory p none a b = refl

opcode_of-rrq : (code : ℕ) → opcode_of code ≡ some rrq → code ≡ 256
unfolding opcode_of
opcode_of-rrq code e = ground arith

opcode_of-wrq : (code : ℕ) → opcode_of code ≡ some wrq → code ≡ 512
unfolding opcode_of
opcode_of-wrq code e = ground arith

handle-other :
    (files : List ℕ → Option (List ℕ)) (memory rest : List ℕ) (code : ℕ)
    → code < 65536
    → code ≢ 256
    → code ≢ 512
    → handle files memory (le16 code ++ rest) ≡ refuse memory illegal_operation
unfolding handle packet_of
handle-other files memory rest code small a b = rw (first_word_stored code rest small) (
    dispatch-illegal files memory _ (opcode_of code) (λ e. a (opcode_of-rrq code e))
      (λ e. b (opcode_of-wrq code e)))

-- A client that sends a read request for a file that is not there reads from the reply the error
-- FILE_NOT_FOUND, and one that sends a packet that is no request the error ILLEGAL_OPERATION.
pub error_of-handle :
    (files : List ℕ → Option (List ℕ)) (memory before behind name rest : List ℕ) (m : Mode)
    (code : ℕ)
    → NoNul name
    → files (take 128 name) ≡ none
    → code < 65536
    → code ≢ 256
    → code ≢ 512
    → ((sent (make_rrq before name (mode_string m)) >>= λ wire.
            handle files memory (wire ++ behind))
          >>= error_of)
        ≡ ok (1280, 256, [])
      × ((handle files memory (le16 code ++ rest) >>= error_of) ≡ ok (1280, 1024, []))
error_of-handle files memory before behind name rest m code h missing small a b = (
  rw (handle-rrq files memory before behind name m h)
      (rw missing (error_of-refuse memory file_not_found)),
  rw (handle-other files memory rest code small a b) (error_of-refuse memory illegal_operation),
)

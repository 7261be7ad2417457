-- ===== src/Tftp/Types.antt =====
-- The enumerations of libtftp/include/tftp/tftp.hpp and the functions of libtftp/src/tftp.cpp on
-- them. The codes are those of the source: RFC 1350's numbers with their bytes already swapped.
use computer_networking_tamu.Base.{
  ℕ, ◌≡◌, refl, List, Result, ok, err, ascii, bytes_eq, bytes_eq_iff, ◌↔◌, ◌≢◌, arith,
  if◌then◌else◌, ◌==◌, Option, none, some,
}

-- `TFTPError`, by the place that throws it; an access outside an object; and a switch on an
-- enumeration that meets a value it does not list.
pub data Failure : Type 0 where
  unknown_mode unsized_data unknown_opcode not_data memory_fault : Failure

abbrev pub Outcome {ℓ} : Type ℓ → Type ℓ
Outcome = Result Failure

pub data Mode : Type 0 where
  netascii octet : Mode

abbrev pub mode_string : Mode → List ℕ
mode_string netascii = ascii "netascii"
mode_string octet = ascii "octet"

-- Mode::from_string
unfoldable pub mode_from_string : List ℕ → Outcome Mode
mode_from_string s =
    if bytes_eq s (mode_string netascii)
    then ok netascii
    else if bytes_eq s (mode_string octet)
    then ok octet
    else err unknown_mode

unknown :
    (s : List ℕ)
    → (mode_from_string s ≡ err unknown_mode)
      ↔ ((s ≢ mode_string netascii) × (s ≢ mode_string octet))
unfolding mode_from_string
unknown s = (
  λ e. (
    λ p. ground (arith, bytes_eq_iff s (mode_string netascii), p),
    λ p.
        ground
          (arith, bytes_eq_iff s (mode_string netascii), bytes_eq_iff s (mode_string octet), p),
  ),
  λ h. ground (arith, bytes_eq_iff s (mode_string netascii), bytes_eq_iff s (mode_string octet), h),
)

-- Mode::from_string gives a mode for exactly the text that `to_string` prints of it, and throws on
-- every other text.
pub mode_from_string_lem :
    (s : List ℕ) (m : Mode)
    → ((mode_from_string s ≡ ok m) ↔ (s ≡ mode_string m))
      × ((mode_from_string s ≡ err unknown_mode)
          ↔ ((s ≢ mode_string netascii) × (s ≢ mode_string octet)))
unfolding mode_from_string bytes_eq
mode_from_string_lem s netascii = (
  (
    λ e. ground (arith, bytes_eq_iff s (mode_string netascii), bytes_eq_iff s (mode_string octet)),
    λ e. ground (arith, bytes_eq_iff s (mode_string netascii)),
  ),
  unknown s,
)
mode_from_string_lem s octet = (
  (
    λ e. ground (arith, bytes_eq_iff s (mode_string netascii), bytes_eq_iff s (mode_string octet)),
    λ e. rw e refl,
  ),
  unknown s,
)

pub data Opcode : Type 0 where
  rrq wrq block ack error : Opcode

abbrev pub opcode_code : Opcode → ℕ
opcode_code rrq = 256
opcode_code wrq = 512
opcode_code block = 768
opcode_code ack = 1024
opcode_code error = 1280

-- The case that a `switch` on an opcode read from memory takes; `none` is its `default`.
unfoldable pub opcode_of : ℕ → Option Opcode
opcode_of code =
    if code == 256
    then some rrq
    else if code == 512
    then some wrq
    else if code == 768
    then some block
    else if code == 1024
    then some ack
    else if code == 1280
    then some error
    else none

pub opcode_of-opcode_code : (o : Opcode) → opcode_of (opcode_code o) ≡ some o
unfolding opcode_of
opcode_of-opcode_code rrq = refl
opcode_of-opcode_code wrq = refl
opcode_of-opcode_code block = refl
opcode_of-opcode_code ack = refl
opcode_of-opcode_code error = refl

pub data ErrorCode : Type 0 where
  not_defined file_not_found access_violation disk_full : ErrorCode
  illegal_operation unknown_transfer_id file_already_exists no_such_user : ErrorCode

abbrev pub error_code : ErrorCode → ℕ
error_code not_defined = 0
error_code file_not_found = 256
error_code access_violation = 512
error_code disk_full = 768
error_code illegal_operation = 1024
error_code unknown_transfer_id = 1280
error_code file_already_exists = 1536
error_code no_such_user = 1792

-- ErrorCode::to_string, on the value that an error packet holds.
unfoldable pub error_string : ℕ → List ℕ
error_string code =
    if code == 0
    then ascii "Not defined, see error message (if any)"
    else if code == 256
    then ascii "File not found"
    else if code == 512
    then ascii "Access violation"
    else if code == 768
    then ascii "Disk full or allocation exceeded"
    else if code == 1024
    then ascii "Illegal TFTP operation"
    else if code == 1280
    then ascii "Unknown transfer ID"
    else if code == 1536
    then ascii "File already exists"
    else if code == 1792
    then ascii "No such user"
    else ascii "UNKNOWN"

-- Opcode::to_string
unfoldable pub opcode_string : ℕ → List ℕ
opcode_string code =
    if code == 256
    then ascii "Read Request (RRQ)"
    else if code == 512
    then ascii "Write Request (WRQ)"
    else if code == 768
    then ascii "Data (DATA)"
    else if code == 1024
    then ascii "Acknowledgment (ACK)"
    else if code == 1280
    then ascii "Error (ERROR)"
    else ascii "UNKNOWN"

abbrev pub max_mode_length : ℕ
max_mode_length = 8

abbrev pub max_filename_length : ℕ
max_filename_length = 128

abbrev pub max_error_message_length : ℕ
max_error_message_length = 128

abbrev pub max_data_length : ℕ
max_data_length = 512

abbrev pub max_packet_length : ℕ
max_packet_length = 516

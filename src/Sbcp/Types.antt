-- ===== src/Sbcp/Types.antt =====
-- The enumerations of libsbcp/include/sbcp/sbcp.hpp, and the ways in which its operations fail.
use computer_networking_tamu.Base.{
  ℕ, ◌≡◌, refl, Option, none, some, Result, ◌==◌, if◌then◌else◌, arith, ◌<◌,
}

-- What ends an operation: a `MessageException` for each `throw`, a failed `assert`, an access
-- outside the object, or, of the model alone, the end of a loop's fuel.
pub data Failure : Type 0 where
  invalid_version invalid_message_type invalid_attribute_type : Failure
  username_too_long message_too_long reason_too_long invalid_client_count_length : Failure
  join_overflow send_overflow fwd_overflow idle_overflow ack_overflow nak_overflow : Failure
  online_overflow offline_overflow payload_too_long : Failure
  username_not_found message_not_found reason_not_found client_count_not_found : Failure
  index_out_of_range assertion_failed memory_fault out_of_fuel : Failure

abbrev pub Outcome {ℓ} : Type ℓ → Type ℓ
Outcome = Result Failure

-- Attribute::Type
pub data AttributeType : Type 0 where
  username message reason client_count : AttributeType

abbrev pub attribute_code : AttributeType → ℕ
attribute_code username = 2
attribute_code message = 4
attribute_code reason = 1
attribute_code client_count = 3

-- A `type_t` read from memory may hold any value; `none` is what a `switch` leaves to `default`.
unfoldable pub attribute_type : ℕ → Option AttributeType
attribute_type c =
    if c == 2
    then some username
    else if c == 4
    then some message
    else if c == 1
    then some reason
    else if c == 3
    then some client_count
    else none

pub attribute_type-code : (t : AttributeType) → attribute_type (attribute_code t) ≡ some t
unfolding attribute_type
attribute_type-code username = refl
attribute_type-code message = refl
attribute_type-code reason = refl
attribute_type-code client_count = refl

-- Message::Type
pub data MessageType : Type 0 where
  join send fwd ack nak online offline idle : MessageType

abbrev pub message_code : MessageType → ℕ
message_code join = 2
message_code send = 4
message_code fwd = 3
message_code ack = 7
message_code nak = 5
message_code online = 8
message_code offline = 6
message_code idle = 9

unfoldable pub message_type : ℕ → Option MessageType
message_type c =
    if c == 2
    then some join
    else if c == 4
    then some send
    else if c == 3
    then some fwd
    else if c == 7
    then some ack
    else if c == 5
    then some nak
    else if c == 8
    then some online
    else if c == 6
    then some offline
    else if c == 9
    then some idle
    else none

pub message_type-code : (t : MessageType) → message_type (message_code t) ≡ some t
unfolding message_type
message_type-code join = refl
message_type-code send = refl
message_type-code fwd = refl
message_type-code ack = refl
message_type-code nak = refl
message_type-code online = refl
message_type-code offline = refl
message_type-code idle = refl

pub message_code-lt : (t : MessageType) → message_code t < 128
message_code-lt join = omega arith
message_code-lt send = omega arith
message_code-lt fwd = omega arith
message_code-lt ack = omega arith
message_code-lt nak = omega arith
message_code-lt online = omega arith
message_code-lt offline = omega arith
message_code-lt idle = omega arith

-- The macros of the header.
abbrev pub sbcp_version : ℕ
sbcp_version = 3

abbrev pub max_payload_length : ℕ
max_payload_length = 1024

abbrev pub max_username_length : ℕ
max_username_length = 16

abbrev pub max_message_length : ℕ
max_message_length = 512

abbrev pub max_reason_length : ℕ
max_reason_length = 32

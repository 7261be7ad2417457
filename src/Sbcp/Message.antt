-- ===== src/Sbcp/Message.antt =====
-- `class Message` of libsbcp/include/sbcp/sbcp.hpp and libsbcp/src/sbcp.cpp: a header and 1024
-- bytes, in which the attributes stand one after another.
use computer_networking_tamu.Base.{
  ℕ, ◌+◌, ◌*◌, ◌||◌, List, ◌++◌, ok, ◌>>=◌, ◌>>◌, guard, or_throw, length, take, drop, replicate,
  leb, ◌==◌,
}
use computer_networking_tamu.Sbcp.Types.{
  Failure, invalid_version, invalid_message_type, join_overflow, send_overflow, fwd_overflow,
  idle_overflow, ack_overflow, nak_overflow, online_overflow, offline_overflow, payload_too_long,
  assertion_failed, Outcome, AttributeType, username, message, reason, client_count, attribute_code,
  MessageType, join, send, fwd, ack, nak, online, offline, idle, message_code, message_type,
  sbcp_version, max_payload_length, max_username_length, max_message_length, max_reason_length,
}
use computer_networking_tamu.Sbcp.Header.{Header, make_header}
use computer_networking_tamu.Sbcp.Header
use computer_networking_tamu.Sbcp.Attribute.{Attribute, make_text, make_count}
use computer_networking_tamu.Sbcp.Attribute

pub record Message : Type 0 where
  pub header : Header
  pub payload : List ℕ

-- Message(type_t)
unfoldable pub make_message : MessageType → Message
make_message t = record {
  header = make_header sbcp_version (message_code t) 0;
  payload = replicate max_payload_length 0;
}

unfoldable pub get_type : Message → ℕ
get_type m = Header.get_type m.header

unfoldable pub get_length : Message → ℕ
get_length m = Header.get_length m.header

unfoldable pub size : Message → ℕ
unfolding get_length
size m = 4 + get_length m

-- sizeof(Attribute::type_t) + sizeof(Attribute::length_t)
abbrev attribute_header_size : ℕ
attribute_header_size = 4

unfoldable pub validate_version : Message → Outcome (Unit {0})
validate_version m = guard (Header.get_version m.header == sbcp_version) invalid_version

-- The longest payload that `validate` lets a type have.
abbrev pub length_limit : MessageType → ℕ
length_limit join = attribute_header_size + max_username_length
length_limit send = attribute_header_size + max_message_length
length_limit fwd = 2 * attribute_header_size + max_username_length + max_message_length
length_limit idle = attribute_header_size + max_username_length
length_limit ack = max_payload_length
length_limit nak = attribute_header_size + max_reason_length
length_limit online = max_payload_length
length_limit offline = max_payload_length

-- The exception that `validate` throws for a type past its limit.
abbrev pub overflow_of : MessageType → Failure
overflow_of join = join_overflow
overflow_of send = send_overflow
overflow_of fwd = fwd_overflow
overflow_of idle = idle_overflow
overflow_of ack = ack_overflow
overflow_of nak = nak_overflow
overflow_of online = online_overflow
overflow_of offline = offline_overflow

unfoldable pub validate : Message → Outcome (Unit {0})
unfolding validate_version get_type get_length
validate m = do
  validate_version m
  t ← or_throw (message_type (get_type m)) invalid_message_type
  guard (leb (get_length m) (length_limit t)) (overflow_of t)

-- memcpy(payload + offset, src, ...), inside the payload.
unfoldable pub write_at : ℕ → List ℕ → List ℕ → List ℕ
write_at offset src payload = take offset payload ++ src ++ drop (offset + length src) payload

-- add_attribute(const attribute_t&)
unfoldable pub add_attribute : Attribute → Message → Outcome Message
unfolding get_length
add_attribute a m = do
  validate m
  guard (leb (get_length m + Attribute.size a) max_payload_length) payload_too_long
  ok (record {
    header = Header.set_length (get_length m + Attribute.size a) m.header;
    payload = write_at (get_length m) (take (Attribute.size a) (Attribute.bytes a)) m.payload;
  })

-- add_attribute(type_t, const char*, size_t)
unfoldable pub add_text : AttributeType → List ℕ → Message → Outcome Message
add_text t value m = do
  guard
      (attribute_code t == attribute_code username
        || attribute_code t == attribute_code message
        || attribute_code t == attribute_code reason)
      assertion_failed
  a ← make_text t value
  add_attribute a m

unfoldable pub add_username : List ℕ → Message → Outcome Message
unfolding add_text
add_username value m = add_text username value m

unfoldable pub add_message : List ℕ → Message → Outcome Message
unfolding add_text
add_message value m = add_text message value m

unfoldable pub add_reason : List ℕ → Message → Outcome Message
unfolding add_text
add_reason value m = add_text reason value m

-- add_attribute(type_t, client_count_t) and add_client_count
unfoldable pub add_client_count : ℕ → Message → Outcome Message
add_client_count value m = do
  guard (attribute_code client_count == attribute_code client_count) assertion_failed
  a ← make_count client_count value
  add_attribute a m

unfoldable pub change_to_fwd : List ℕ → Message → Outcome Message
unfolding get_type add_username
change_to_fwd name m = do
  guard (get_type m == message_code send) assertion_failed
  add_username name (record m { header = Header.set_type (message_code fwd) m.header })

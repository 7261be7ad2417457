-- ===== src/Sbcp/Attribute.antt =====
-- `class Attribute` of libsbcp/include/sbcp/sbcp.hpp and libsbcp/src/sbcp.cpp.
-- An attribute is a type, a length in network order and a union of 512 bytes. The type is stored
-- in host order. A pair (const char*, size_t) is the list of the bytes that it spans.
use computer_networking_tamu.Base.{
  ℕ, ◌+◌, ◌*◌, ◌%◌, List, ◌∷◌, ◌++◌, ok, err, ◌>>=◌, ◌>>◌, guard, or_throw, length, drop, replicate,
  ltb, leb, ◌==◌, if◌then◌else◌, htons, ntohs, le16, c_string,
}
use computer_networking_tamu.Sbcp.Types.{
  invalid_attribute_type, username_too_long, message_too_long, reason_too_long,
  invalid_client_count_length, assertion_failed, memory_fault, Outcome, AttributeType, username,
  message, reason, client_count, attribute_code, attribute_type, max_username_length,
  max_message_length, max_reason_length,
}

-- In a message's memory `payload` is what stands from the attribute's union to the message's end.
pub record Attribute : Type 0 where
  pub type : ℕ
  pub length : ℕ
  pub payload : List ℕ

unfoldable pub get_length : Attribute → ℕ
get_length a = ntohs a.length

-- sizeof(type) + sizeof(length) + get_length()
unfoldable pub size : Attribute → ℕ
unfolding get_length
size a = 4 + get_length a

abbrev pub union_size : ℕ
union_size = 512

-- Attribute(type_t): an empty union, filled with zeros.
unfoldable pub blank : AttributeType → Attribute
unfolding replicate
blank t = record { type = attribute_code t; length = htons 0; payload = replicate union_size 0 }

-- memcpy into the union: the whole value is copied, which must fit the union.
unfoldable pub copy_into_union : List ℕ → List ℕ → Outcome (List ℕ)
copy_into_union value union =
    if leb (length value) union_size
    then ok (value ++ drop (length value) union)
    else err memory_fault

-- `this->length = htons(length); if (length > cap) this->length = htons(cap); memcpy(...)`.
-- The length is clamped to the cap; the copy is not.
unfoldable pub set_clamped : ℕ → List ℕ → Attribute → Outcome Attribute
unfolding copy_into_union
set_clamped cap value a = do
  union ← copy_into_union value a.payload
  ok (record a {
    length = if ltb cap (length value) then htons cap else htons (length value % 65536);
    payload = union;
  })

unfoldable pub set_username : List ℕ → Attribute → Outcome Attribute
unfolding set_clamped
set_username value a = do
  guard (a.type == attribute_code username) assertion_failed
  set_clamped max_username_length value a

unfoldable pub set_message : List ℕ → Attribute → Outcome Attribute
unfolding set_clamped
set_message value a = do
  guard (a.type == attribute_code message) assertion_failed
  set_clamped max_message_length value a

unfoldable pub set_reason : List ℕ → Attribute → Outcome Attribute
unfolding set_clamped
set_reason value a = do
  guard (a.type == attribute_code reason) assertion_failed
  set_clamped max_reason_length value a

unfoldable pub set_client_count : ℕ → Attribute → Outcome Attribute
unfolding copy_into_union
set_client_count value a = do
  guard (a.type == attribute_code client_count) assertion_failed
  union ← copy_into_union (le16 (htons value)) a.payload
  ok (record a { length = htons 2; payload = union })

-- Attribute(type_t, const char*, size_t)
unfoldable pub make_text : AttributeType → List ℕ → Outcome Attribute
unfolding set_username set_message set_reason blank
make_text username value = set_username value (blank username)
make_text message value = set_message value (blank message)
make_text reason value = set_reason value (blank reason)
make_text client_count value = err invalid_attribute_type

-- Attribute(type_t, client_count_t)
unfoldable pub make_count : AttributeType → ℕ → Outcome Attribute
unfolding set_client_count blank
make_count t value = do
  guard (attribute_code t == attribute_code client_count) assertion_failed
  set_client_count value (record (blank t) { length = htons 2 })

-- The check of a length against the type it comes with.
unfoldable pub validate_length : AttributeType → ℕ → Outcome (Unit {0})
validate_length username n = guard (leb n max_username_length) username_too_long
validate_length message n = guard (leb n max_message_length) message_too_long
validate_length reason n = guard (leb n max_reason_length) reason_too_long
validate_length client_count n = guard (n == 2) invalid_client_count_length

unfoldable pub validate : Attribute → Outcome (Unit {0})
unfolding validate_length get_length
validate a = do
  t ← or_throw (attribute_type a.type) invalid_attribute_type
  validate_length t (get_length a)

-- A `std::string` from the `const char*` that the getter returns.
unfoldable pub text_of : AttributeType → Attribute → Outcome (List ℕ)
text_of t a = do
  guard (a.type == attribute_code t) assertion_failed
  or_throw (c_string a.payload) memory_fault

unfoldable pub get_username : Attribute → Outcome (List ℕ)
unfolding text_of
get_username a = text_of username a

unfoldable pub get_message : Attribute → Outcome (List ℕ)
unfolding text_of
get_message a = text_of message a

unfoldable pub get_reason : Attribute → Outcome (List ℕ)
unfolding text_of
get_reason a = text_of reason a

-- The first two bytes of the union, as a word in host order.
unfoldable pub first_word : List ℕ → Outcome ℕ
first_word (lo ∷ hi ∷ _) = ok (lo + hi * 256)
first_word _ = err memory_fault

unfoldable pub get_client_count : Attribute → Outcome ℕ
unfolding first_word
get_client_count a = do
  guard (a.type == attribute_code client_count) assertion_failed
  w ← first_word a.payload
  ok (ntohs w)

-- The object's bytes in memory.
unfoldable pub bytes : Attribute → List ℕ
bytes a = le16 a.type ++ le16 a.length ++ a.payload

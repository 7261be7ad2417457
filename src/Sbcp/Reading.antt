-- ===== src/Sbcp/Reading.antt =====
-- The iterator of `class Message` in libsbcp/include/sbcp/sbcp.hpp, the getters that loop over it
-- and `operator[]`, in libsbcp/src/sbcp.cpp.
pub mod Termination
use computer_networking_tamu.Base.{
  ℕ, zero, suc, ◌+◌, ◌*◌, true, false, List, [], ◌∷◌, Option, none, some, ok, err, ◌>>=◌, ◌>>◌,
  or_throw, drop, ltb, ◌==◌,
}
use computer_networking_tamu.Sbcp.Types.{
  username_not_found, message_not_found, reason_not_found, client_count_not_found,
  index_out_of_range, memory_fault, out_of_fuel, Outcome, AttributeType, username, message, reason,
  client_count, attribute_code,
}
use computer_networking_tamu.Sbcp.Attribute.{Attribute}
use computer_networking_tamu.Sbcp.Attribute
use computer_networking_tamu.Sbcp.Message.{Message}
use computer_networking_tamu.Sbcp.Message

-- An `attribute_t*` into memory: two words in host order, and what follows them. The payload is the
-- end of the message, so an attribute whose words lie behind it is outside the object: what the
-- program does from there on is undefined in C++, and the model ends.
unfoldable pub read_attribute : List ℕ → Outcome Attribute
read_attribute (t ∷ t' ∷ l ∷ l' ∷ rest) =
    ok (record { type = t + t' * 256; length = l + l' * 256; payload = rest })
read_attribute _ = err memory_fault

-- `operator*`: the attribute at an offset, validated.
unfoldable pub deref : Message → ℕ → Outcome Attribute
deref m offset = do a ← read_attribute (drop offset m.payload); Attribute.validate a; ok a

-- An attribute has at least four bytes, so 257 rounds pass the end of any payload.
abbrev pub iterator_fuel : ℕ
iterator_fuel = 257

-- The loop `for (attr : *this) if (attr.get_type() == t) return attr`. The iterator stops where
-- its offset is the length, and not past it.
unfoldable pub find_from : ℕ → Message → AttributeType → ℕ → Outcome (Option Attribute)
find_from zero m t offset = err out_of_fuel
find_from (suc fuel) m t offset = elim (offset == Message.get_length m) [
  | true ↦ ok none
  | false ↦ do
    a ← deref m offset
    elim (a.type == attribute_code t) [
      | true ↦ ok (some a)
      | false ↦ find_from fuel m t (offset + Attribute.size a)
    ]
]

-- The loop of `get_usernames`, which collects the text of every user name.
unfoldable pub usernames_from : ℕ → Message → ℕ → Outcome (List (List ℕ))
usernames_from zero m offset = err out_of_fuel
usernames_from (suc fuel) m offset = elim (offset == Message.get_length m) [
  | true ↦ ok []
  | false ↦ do
    a ← deref m offset
    elim (a.type == attribute_code username) [
      | true ↦ do
        name ← Attribute.get_username a
        rest ← usernames_from fuel m (offset + Attribute.size a)
        ok (name ∷ rest)
      | false ↦ usernames_from fuel m (offset + Attribute.size a)
    ]
]

-- `begin()` and `end()` validate the message before the loop.
unfoldable pub find : AttributeType → Message → Outcome (Option Attribute)
find t m = do Message.validate m; find_from iterator_fuel m t 0

unfoldable pub front : List (List ℕ) → Outcome (List ℕ)
front [] = err username_not_found
front (name ∷ rest) = ok name

unfoldable pub get_usernames : Message → Outcome (List (List ℕ))
get_usernames m = do
  Message.validate m
  names ← usernames_from iterator_fuel m 0
  first ← front names
  ok names

unfoldable pub get_username : Message → Outcome (List ℕ)
get_username m = do names ← get_usernames m; front names

unfoldable pub get_message : Message → Outcome (List ℕ)
get_message m = do
  found ← find message m
  a ← or_throw found message_not_found
  Attribute.get_message a

unfoldable pub get_reason : Message → Outcome (List ℕ)
get_reason m = do found ← find reason m; a ← or_throw found reason_not_found; Attribute.get_reason a

unfoldable pub get_client_count : Message → Outcome ℕ
get_client_count m = do
  found ← find client_count m
  a ← or_throw found client_count_not_found
  Attribute.get_client_count a

-- The loop of `operator[]`.
unfoldable pub index_from : ℕ → Message → ℕ → Outcome Attribute
index_from zero m offset = deref m offset
index_from (suc idx) m offset = do
  a ← deref m offset
  elim (ltb (offset + Attribute.size a) (Message.get_length m)) [
    | true ↦ index_from idx m (offset + Attribute.size a)
    | false ↦ err index_out_of_range
  ]

unfoldable pub index : ℕ → Message → Outcome Attribute
index idx m = index_from idx m 0

-- The loop of `operator<<`: every attribute is visited, and printed by its type.
unfoldable pub attributes_from : ℕ → Message → ℕ → Outcome (List Attribute)
attributes_from zero m offset = err out_of_fuel
attributes_from (suc fuel) m offset = elim (offset == Message.get_length m) [
  | true ↦ ok []
  | false ↦ do
    a ← deref m offset
    rest ← attributes_from fuel m (offset + Attribute.size a)
    ok (a ∷ rest)
]

unfoldable pub attributes : Message → Outcome (List Attribute)
attributes m = do Message.validate m; attributes_from iterator_fuel m 0

-- ===== src/Sbcp/Spec.antt =====
-- What a message of libsbcp stands for: a type and a sequence of attributes, each a kind and the
-- bytes of its value.
pub mod Building
pub mod Adding
pub mod Decoding
pub mod Getters
use computer_networking_tamu.Base.{
  ℕ, suc, ◌+◌, ◌-◌, ◌/◌, ◌%◌, ◌≤◌, ◌≡◌, refl, ap, ◌∙◌, List, [], ◌∷◌, ◌++◌, append_assoc, ok,
  length, replicate, length-append, All, htons, arith,
}
use computer_networking_tamu.Sbcp.Types.{
  AttributeType, attribute_code, MessageType, message_code, max_payload_length,
}
use computer_networking_tamu.Sbcp.Header.{IsHeader}
use computer_networking_tamu.Sbcp.Header
use computer_networking_tamu.Sbcp.Attribute.{Attribute, validate_length}
use computer_networking_tamu.Sbcp.Message.{Message}

pub record Item : Type 0 where
  pub kind : AttributeType
  pub body : List ℕ

-- The item on the wire: type in host order, length in network order, value.
abbrev pub wire : Item → List ℕ
wire i = attribute_code i.kind ∷ 0 ∷ length i.body / 256 ∷ length i.body % 256 ∷ i.body

abbrev pub wires : List Item → List ℕ
wires [] = []
wires (i ∷ is) = wire i ++ wires is

-- The value has a length that `Attribute::validate` accepts for its kind.
abbrev pub IsItem : Item → Type 0
IsItem i = validate_length i.kind (length i.body) ≡ ok tt

-- An attribute in memory holds an item: the union begins with the value.
pub record Carries (a : Attribute) (i : Item) (junk : List ℕ) : Type 0 where
  pub has_type : a.type ≡ attribute_code i.kind
  pub has_length : a.length ≡ htons (length i.body)
  pub has_payload : a.payload ≡ i.body ++ junk
  pub valid : IsItem i

-- A message holds a version-3 header with its type, and exactly these items, with zeros behind.
pub record Represents (m : Message) (t : MessageType) (is : List Item) : Type 0 where
  pub has_header : IsHeader m.header
  pub has_version : Header.get_version m.header ≡ 3
  pub has_type : Header.get_type m.header ≡ message_code t
  pub has_length : Header.get_length m.header ≡ length (wires is)
  pub fits : length (wires is) ≤ max_payload_length
  pub has_payload : m.payload ≡ wires is ++ replicate (max_payload_length - length (wires is)) 0
  pub valid : All IsItem is

pub wires-append : (is js : List Item) → wires (is ++ js) ≡ wires is ++ wires js
wires-append [] js = refl
wires-append (i ∷ is) js = simp (append_assoc, wires-append is js)

-- ===== src/Sbcp/Spec/Getters.antt =====
-- The getters of `class Message` on a message that represents a sequence of items.
use computer_networking_tamu.Base.{
  ℕ, ◌-◌, ◌*◌, ◌≤◌, ◌<◌, ◌≡◌, refl, List, [], ◌∷◌, ok, length, length-append, replicate, arith, ◌∙◌,
}
use computer_networking_tamu.Sbcp.Types.{
  AttributeType, MessageType, message_code, message_code-lt, max_payload_length,
}
use computer_networking_tamu.Sbcp.Header
use computer_networking_tamu.Sbcp.Header.Laws.{reads_set_type, set_type-IsHeader}
use computer_networking_tamu.Sbcp.Message
use computer_networking_tamu.Sbcp.Message.{Message, length_limit}
use computer_networking_tamu.Sbcp.Reading.{find, attributes, get_usernames, front, iterator_fuel}
use computer_networking_tamu.Sbcp.Spec.{Item, wire, wires, Represents}
use computer_networking_tamu.Sbcp.Spec.Building.{Represents-validate}
use computer_networking_tamu.Sbcp.Spec.Decoding.{
  Ahead, find_item, find_from-Ahead, names_of, usernames_from-Ahead, seen_all,
  attributes_from-Ahead,
}

pub length-wires : (is : List Item) → 4 * length is ≤ length (wires is)
length-wires [] = omega arith
length-wires (i ∷ is) = omega (arith, length-wires is, length-append (wire i) (wires is))

-- The zeros behind the items.
abbrev pub zeros_behind : List Item → List ℕ
zeros_behind is = replicate (max_payload_length - length (wires is)) 0

module _ (m : Message) (mt : MessageType) (is : List Item) (r : Represents m mt is) where
  Represents-Ahead : Ahead m [] is (zeros_behind is)
  unfolding Message.get_length
  Represents-Ahead = record {
    payload = r.has_payload;
    stop = r.has_length ∙ (omega arith);
    valid = r.valid;
  }

  fuel_suffices : length is < iterator_fuel
  fuel_suffices = let f = r.fits in omega (arith, length-wires is)

  pub find-Represents :
      (t : AttributeType)
      → length (wires is) ≤ length_limit mt
      → find t m ≡ ok (find_item t is (zeros_behind is))
  unfolding find
  find-Represents t limit =
      rw (Represents-validate m mt is r limit)
        (find_from-Ahead iterator_fuel m t [] is (zeros_behind is) Represents-Ahead fuel_suffices)

  pub usernames-Represents :
      (n : List ℕ) (ns : List (List ℕ))
      → length (wires is) ≤ length_limit mt
      → names_of is (zeros_behind is) ≡ ok (n ∷ ns)
      → get_usernames m ≡ ok (n ∷ ns)
  unfolding get_usernames front
  usernames-Represents n ns limit e =
      let u =
        usernames_from-Ahead iterator_fuel m [] is (zeros_behind is) Represents-Ahead
          fuel_suffices in
      rw (Represents-validate m mt is r limit, u ∙ e) refl

  -- A change of type leaves the items.
  pub set_type-Represents :
      (mt' : MessageType)
      → Represents (record m { header = Header.set_type (message_code mt') m.header }) mt' is
  set_type-Represents mt' =
      let (a, b, c) =
        reads_set_type (message_code mt') m.header r.has_header (message_code-lt mt') in
      record {
        has_header =
            set_type-IsHeader (message_code mt') m.header r.has_header (message_code-lt mt');
        has_version = a ∙ r.has_version;
        has_type = b;
        has_length = c ∙ r.has_length;
        fits = r.fits;
        has_payload = r.has_payload;
        valid = r.valid;
      }

  pub attributes-Represents :
      length (wires is) ≤ length_limit mt → attributes m ≡ ok (seen_all is (zeros_behind is))
  unfolding attributes
  attributes-Represents limit =
      rw (Represents-validate m mt is r limit) (
        attributes_from-Ahead iterator_fuel m [] is (zeros_behind is) Represents-Ahead
          fuel_suffices)

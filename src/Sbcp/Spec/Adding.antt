-- ===== src/Sbcp/Spec/Adding.antt =====
-- What `add_username`, `add_message`, `add_reason` and `add_client_count` add to a message.
use computer_networking_tamu.Base.{
  ℕ, ◌+◌, ◌%◌, ◌≤◌, ◌≡◌, refl, List, [], ◌∷◌, ◌++◌, append_assoc, ok, ◌>>=◌, true, length,
  replicate, take, drop, htons, arith, leb, ltb, le→leb, take-append-drop, length-take, min,
  if◌then◌else◌, Bool-cases, inl, inr, ltb→lt, not_ltb→le,
}
use computer_networking_tamu.Sbcp.Types.{
  AttributeType, username, message, reason, client_count, attribute_code, MessageType,
  max_payload_length, max_username_length, max_message_length, max_reason_length,
}
use computer_networking_tamu.Sbcp.Attribute.{Attribute, make_text, validate_length}
use computer_networking_tamu.Sbcp.Message.{Message, length_limit, add_text, add_attribute}
use computer_networking_tamu.Sbcp.Spec.{Item, wire, wires, IsItem, Carries, Represents}
use computer_networking_tamu.Sbcp.Spec.Building.{
  add_attribute-extended, extended-Represents, extended,
}

-- The longest text that an attribute of a kind keeps; a count has no text.
abbrev pub cap : AttributeType → ℕ
cap username = max_username_length
cap message = max_message_length
cap reason = max_reason_length
cap client_count = 0

abbrev pub IsText : AttributeType → Type 0
IsText client_count = ⊥
IsText _ = Unit {0}

-- The item that a text leaves: its bytes up to the cap of the kind.
abbrev pub text_item : AttributeType → List ℕ → Item
text_item t value = record { kind = t; body = take (cap t) value }

take_fits : (c : ℕ) (value : List ℕ) → leb (length (take c value)) c ≡ true
take_fits c value = le→leb _ _ (rw (length-take c value) (omega arith))

text_item-IsItem : (t : AttributeType) (value : List ℕ) → IsText t → IsItem (text_item t value)
unfolding validate_length
text_item-IsItem username value h = rw (take_fits 16 value) refl
text_item-IsItem message value h = rw (take_fits 512 value) refl
text_item-IsItem reason value h = rw (take_fits 32 value) refl
text_item-IsItem client_count value h = absurd h

-- The attribute that `set_clamped` makes of a blank one.
abbrev clamped : AttributeType → List ℕ → Attribute
clamped t value = record {
  type = attribute_code t;
  length = if ltb (cap t) (length value) then htons (cap t) else htons (length value % 65536);
  payload = value ++ drop (length value) (replicate 512 0);
}

make_text-clamped :
    (t : AttributeType) (value : List ℕ)
    → IsText t
    → length value ≤ 512
    → make_text t value ≡ ok (clamped t value)
unfolding make_text
make_text-clamped username value h fits = rw (le→leb _ _ fits) refl
make_text-clamped message value h fits = rw (le→leb _ _ fits) refl
make_text-clamped reason value h fits = rw (le→leb _ _ fits) refl
make_text-clamped client_count value h fits = absurd h

clamped_length :
    (c n : ℕ) → n ≤ 512 → (if ltb c n then htons c else htons (n % 65536)) ≡ htons (min c n)
clamped_length c n h = elim (Bool-cases (ltb c n)) [
  | inl over ↦ let lt = ltb→lt c n over in let e : min c n ≡ c = omega arith in rw (over, e)
  | inr fits ↦
      let le = not_ltb→le c n fits in
      let e : min c n ≡ n = omega arith in let f : n % 65536 ≡ n = omega arith in rw (fits, e, f)
]

clamped-Carries :
    (t : AttributeType) (value : List ℕ)
    → IsText t
    → length value ≤ 512
    → Carries
        (clamped t value)
        (text_item t value)
        (drop (cap t) value ++ drop (length value) (replicate 512 0))
clamped-Carries t value h fits = record {
  has_type = refl;
  has_length = rw (length-take (cap t) value) (clamped_length (cap t) (length value) fits);
  has_payload = rw (
    ← append_assoc (take (cap t) value) (drop (cap t) value)
        (drop (length value) (replicate 512 0)),
    take-append-drop (cap t) value,
  );
  valid = text_item-IsItem t value h;
}

text_guard :
    (t : AttributeType)
    → IsText t
    → (add_text t ≡ λ value m. make_text t value >>= λ a. add_attribute a m)
unfolding add_text
text_guard username h = refl
text_guard message h = refl
text_guard reason h = refl
text_guard client_count h = absurd h

-- A text of at most 512 bytes that has room is added: the call succeeds, and the new message holds
-- one more item, the text cut to the cap of its kind.
pub add_text-Represents :
    (t : AttributeType) (value : List ℕ) (m : Message) (mt : MessageType) (is : List Item)
    → IsText t
    → length value ≤ 512
    → Represents m mt is
    → length (wires is) ≤ length_limit mt
    → length (wires is) + length (wire (text_item t value)) ≤ max_payload_length
    → (m' : Message) × (add_text t value m ≡ ok m')
      × Represents m' mt (is ++ text_item t value ∷ [])
add_text-Represents t value m mt is h fits r limit room = (
  extended m is (text_item t value),
  rw (text_guard t h, make_text-clamped t value h fits)
      (add_attribute-extended m is r (clamped-Carries t value h fits) limit room),
  extended-Represents m mt is (text_item t value) r (text_item-IsItem t value h) room,
)

-- ===== src/Sbcp/RoundTrip.antt =====
-- What a receiver reads from the messages of libsbcp/src/messages.cpp.
use computer_networking_tamu.Base.{
  ℕ, ◌+◌, ◌-◌, ◌≤◌, ◌<◌, ◌≡◌, refl, ap, ◌∙◌, List, [], ◌∷◌, ◌++◌, append-nil, ok, some, err, ◌>>=◌,
  length, replicate, arith, take, length-take, take-of_le, min, NoNul, NoNul-take, c_string,
  c_string-zeros, c_string-append, length-append, leb, false, ◌↔◌, Bool-cases, inl, inr,
}
use computer_networking_tamu.Sbcp.Types.{
  AttributeType, username, message, reason, client_count, MessageType, join, send, fwd, nak,
  memory_fault, max_payload_length,
}
use computer_networking_tamu.Sbcp.Attribute
use computer_networking_tamu.Sbcp.Attribute.{make_text}
use computer_networking_tamu.Sbcp.Message
use computer_networking_tamu.Sbcp.Message.{
  Message, make_message, length_limit, add_text, change_to_fwd, add_message,
}
use computer_networking_tamu.Sbcp.Reading
use computer_networking_tamu.Sbcp.Messages.{make_join, make_send, make_nak}
use computer_networking_tamu.Sbcp.Spec.{Item, wire, wires, Represents}
use computer_networking_tamu.Sbcp.Spec.Building.{make_message-Represents}
use computer_networking_tamu.Sbcp.Spec.Adding.{cap, IsText, text_item, add_text-Represents}
use computer_networking_tamu.Sbcp.Spec.Decoding.{find_item, names_of}
use computer_networking_tamu.Sbcp.Spec.Getters.{
  zeros_behind, find-Represents, usernames-Represents, set_type-Represents,
}

-- A message with one text, of at most 512 bytes, on a type whose limit the text's item meets.
pub single :
    (t : AttributeType) (value : List ℕ) (mt : MessageType)
    → IsText t
    → length value ≤ 512
    → (m : Message) × (add_text t value (make_message mt) ≡ ok m)
      × Represents m mt (text_item t value ∷ [])
single t value mt h fits =
    add_text-Represents t value (make_message mt) mt [] h fits (make_message-Represents mt)
      (omega arith) (omega (arith, length-take (cap t) value))

pub single-length :
    (t : AttributeType) (value : List ℕ)
    → length (wires (text_item t value ∷ [])) ≡ 4 + min (cap t) (length value)
single-length t value =
    ap length (append-nil (wire (text_item t value))) ∙ omega (arith, length-take (cap t) value)

-- The text at the end of a message that is not full is read whole.
last_text :
    (t : AttributeType) (value : List ℕ) (k : ℕ)
    → NoNul value
    → 0 < k
    → c_string (take (cap t) value ++ ([] ++ replicate k 0)) ≡ some (take (cap t) value)
last_text t value k h p = c_string-zeros (take (cap t) value) k (NoNul-take (cap t) value h) p

-- The one text of a message, as its getter finds it.
single-find :
    (t : AttributeType) (value : List ℕ) (mt : MessageType) (m : Message)
    → Represents m mt (text_item t value ∷ [])
    → 4 + cap t ≤ length_limit mt
    → Reading.find t m
      ≡ ok (find_item t (text_item t value ∷ []) (zeros_behind (text_item t value ∷ [])))
single-find t value mt m r limit =
    find-Represents m mt (text_item t value ∷ []) r t (omega (arith, single-length t value))

single_text :
    (t : AttributeType) (value : List ℕ)
    → cap t ≤ 512
    → NoNul value
    → c_string (take (cap t) value ++ ([] ++ zeros_behind (text_item t value ∷ [])))
      ≡ some (take (cap t) value)
single_text t value small h = last_text t value _ h (omega (arith, single-length t value))

-- A SEND message with a text of at most 512 bytes and no NUL among them is built without an error,
-- and `get_message` reads that text from it.
pub get_message-send :
    (text : List ℕ)
    → length text ≤ 512
    → NoNul text
    → (make_send text >>= Reading.get_message) ≡ ok text
unfolding make_send Message.add_message Reading.get_message Attribute.get_message find_item
get_message-send text fits h =
    let (m, e, r) = single message text send tt fits in
    rw e (
      rw (single-find message text send m r (omega arith))
        (rw (single_text message text (omega arith) h, take-of_le 512 text fits) refl))

-- A JOIN message with a name of at most 512 bytes and no NUL is built without an error, and
-- `get_username` reads the first 16 bytes of the name from it.
pub get_username-join :
    (name : List ℕ)
    → length name ≤ 512
    → NoNul name
    → (make_join name >>= Reading.get_username) ≡ ok (take 16 name)
unfolding make_join Message.add_username Reading.get_username Reading.front names_of
get_username-join name fits h =
    let (m, e, r) = single username name join tt fits in
    let n = single_text username name (omega arith) h in
    rw e (
      rw
        (usernames-Represents m join (text_item username name ∷ []) r (take 16 name) []
          (omega (arith, single-length username name)) (rw (n, names_of) refl))
        refl)

-- A NAK message with a reason of at most 512 bytes and no NUL is built without an error, and
-- `get_reason` reads the first 32 bytes of the reason from it.
pub get_reason-nak :
    (text : List ℕ)
    → length text ≤ 512
    → NoNul text
    → (make_nak text >>= Reading.get_reason) ≡ ok (take 32 text)
unfolding make_nak Message.add_reason Reading.get_reason Attribute.get_reason find_item
get_reason-nak text fits h =
    let (m, e, r) = single reason text nak tt fits in
    rw e (
      rw (single-find reason text nak m r (omega arith))
        (rw (single_text reason text (omega arith) h) refl))

-- The items of a SEND message that was changed to FWD.
abbrev pub fwd_items : List ℕ → List ℕ → List Item
fwd_items name text = text_item message text ∷ text_item username name ∷ []

fwd_items-length :
    (name text : List ℕ)
    → length (wires (fwd_items name text)) ≡ 8 + min 512 (length text) + min 16 (length name)
fwd_items-length name text =
    length-append (wire (text_item message text)) (wires (text_item username name ∷ []))
    ∙ omega (arith, single-length username name, length-take 512 text)

-- `change_to_fwd` appends the user name to the message's items.
pub changed :
    (name text : List ℕ)
    → length text ≤ 512
    → length name ≤ 512
    → (m : Message) × ((make_send text >>= change_to_fwd name) ≡ ok m)
      × Represents m fwd (fwd_items name text)
unfolding make_send Message.add_message change_to_fwd
changed name text ft fn =
    let (m, e, r) = single message text send tt ft in
    let l = single-length message text in
    let (m', e', r') =
      add_text-Represents username name _ fwd (text_item message text ∷ []) tt fn
        (set_type-Represents m send (text_item message text ∷ []) r fwd) (omega arith)
        (omega (arith, length-take 16 name)) in
    (m', rw e (rw r.has_type e'), r')

-- `get_message` reads from a forwarded message, for a text and a name of at most 512 bytes and no
-- NUL, the text with one byte more: the type of the attribute that follows it.
pub get_message-change_to_fwd :
    (name text : List ℕ)
    → length text ≤ 512
    → length name ≤ 512
    → NoNul text
    → (make_send text >>= change_to_fwd name >>= Reading.get_message) ≡ ok (text ++ 2 ∷ [])
unfolding Reading.get_message Attribute.get_message find_item c_string
get_message-change_to_fwd name text ft fn ht =
    let (m, e, r) = changed name text ft fn in
    let l = fwd_items-length name text in
    let next = wires (text_item username name ∷ []) ++ zeros_behind (fwd_items name text) in
    let s = c_string-append (take 512 text) next (2 ∷ []) (NoNul-take 512 text ht) refl in
    rw e (
      rw (find-Represents m fwd (fwd_items name text) r message (omega arith))
        (rw s (rw (take-of_le 512 text ft) refl)))

-- `get_username` reads the first 16 bytes of the name from that message.
pub get_username-change_to_fwd :
    (name text : List ℕ)
    → length text ≤ 512
    → length name ≤ 512
    → NoNul name
    → (make_send text >>= change_to_fwd name >>= Reading.get_username) ≡ ok (take 16 name)
unfolding Reading.get_username Reading.front names_of
get_username-change_to_fwd name text ft fn hn =
    let (m, e, r) = changed name text ft fn in
    let l = fwd_items-length name text in
    let n =
      last_text username name (max_payload_length - length (wires (fwd_items name text))) hn
        (omega arith) in
    rw e (
      rw
        (usernames-Represents m fwd (fwd_items name text) r (take 16 name) [] (omega arith)
          (rw (n, names_of) refl))
        refl)

-- The setters clamp the length that they store but copy the whole value: past 512 bytes they write
-- past the attribute's union.
overflow :
    (t : AttributeType) (value : List ℕ) (m : Message)
    → IsText t
    → 512 < length value
    → add_text t value m ≡ err memory_fault
unfolding add_text make_text Attribute.set_username Attribute.set_message Attribute.set_reason
    Attribute.set_clamped Attribute.copy_into_union
overflow username value m text h =
    let e : leb (length value) 512 ≡ false = ground arith in rw e refl
overflow message value m text h = let e : leb (length value) 512 ≡ false = ground arith in rw e refl
overflow reason value m text h = let e : leb (length value) 512 ≡ false = ground arith in rw e refl
overflow client_count value m text h = absurd text

-- A message of one text is built exactly for a text that fits the union, not the text's own cap.
single-fits :
    (t : AttributeType) (value : List ℕ) (mt : MessageType)
    → IsText t
    → ((m : Message) × (add_text t value (make_message mt) ≡ ok m)
        × Represents m mt (text_item t value ∷ []))
      ↔ (length value ≤ 512)
single-fits t value mt text = (
  (λ (m, e, r). elim (Bool-cases (leb (length value) 512)) [
    | inl fits ↦ ground arith
    | inr long ↦ let fault = overflow t value (make_message mt) text (ground arith) in absurd cc
  ]),
  (λ fits. single t value mt text fits),
)

-- A JOIN, a SEND and a NAK are each built without an error, as a message with its text cut to 16,
-- 512 and 32 bytes, exactly when the text has at most 512 bytes: a longer one is copied past the
-- attribute's union.
pub text_messages-fit :
    (text : List ℕ)
    → (((m : Message) × (make_join text ≡ ok m) × Represents m join (text_item username text ∷ []))
        ↔ (length text ≤ 512))
      × (((m : Message) × (make_send text ≡ ok m) × Represents m send (text_item message text ∷ []))
          ↔ (length text ≤ 512))
      × (((m : Message) × (make_nak text ≡ ok m) × Represents m nak (text_item reason text ∷ []))
          ↔ (length text ≤ 512))
unfolding make_join make_send make_nak Message.add_username Message.add_message Message.add_reason
text_messages-fit text = (
  single-fits username text join tt,
  single-fits message text send tt,
  single-fits reason text nak tt,
)

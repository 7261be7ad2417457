-- ===== src/Sbcp/Spec/Building.antt =====
-- Building a message attribute by attribute extends the sequence that it stands for.
use computer_networking_tamu.Base.{
  ℕ, ◌+◌, ◌-◌, ◌*◌, ◌/◌, ◌%◌, ◌≤◌, ◌<◌, ◌≡◌, refl, ap, sym, ◌∙◌, List, [], ◌∷◌, ◌++◌, ok,
  append-nil, length, replicate, length-append, take, htons, ntohs-htons, le16, arith, le→leb,
  All-append, take-append_length, drop-append_add, drop-replicate,
}
use computer_networking_tamu.Sbcp.Types.{
  AttributeType, username, message, reason, client_count, attribute_code, MessageType, message_code,
  message_type-code, message_code-lt, max_payload_length,
}
use computer_networking_tamu.Sbcp.Header.{set_length}
use computer_networking_tamu.Sbcp.Header.Laws.{
  make_header-IsHeader, reads_make_header, set_length-IsHeader, reads_set_length,
}
use computer_networking_tamu.Sbcp.Attribute
use computer_networking_tamu.Sbcp.Attribute.{Attribute, make_text, blank, validate_length}
use computer_networking_tamu.Sbcp.Message
use computer_networking_tamu.Sbcp.Message.{
  Message, make_message, length_limit, add_attribute, write_at,
}
use computer_networking_tamu.Sbcp.Spec.{
  Item, wire, wires, IsItem, Carries, Represents, wires-append,
}

pub length-body : (i : Item) → IsItem i → length i.body ≤ 512
unfolding validate_length
length-body i v = by_kind i.kind i.body v
  where
    by_kind :
        (k : AttributeType) (b : List ℕ) → validate_length k (length b) ≡ ok tt → length b ≤ 512
    by_kind username b h = ground arith
    by_kind message b h = ground arith
    by_kind reason b h = ground arith
    by_kind client_count b h = ground arith

pub make_message-Represents : (t : MessageType) → Represents (make_message t) t []
unfolding make_message
make_message-Represents t =
    let lt = message_code-lt t in
    let (v, c, n) = reads_make_header 3 (message_code t) 0 (omega arith) lt (omega arith) in
    record {
      has_header = make_header-IsHeader 3 (message_code t) 0 (omega arith) lt;
      has_version = v;
      has_type = c;
      has_length = n;
      fits = omega arith;
      has_payload = refl;
      valid = tt;
    }

pub Represents-validate :
    (m : Message) (t : MessageType) (is : List Item)
    → Represents m t is
    → length (wires is) ≤ length_limit t
    → Message.validate m ≡ ok tt
unfolding Message.validate
Represents-validate m t is r h =
    rw (r.has_version, r.has_type, message_type-code t, r.has_length) (ground arith)

length-wire : (i : Item) → length (wire i) ≡ 4 + length i.body
length-wire i = omega arith

attribute_code-lt : (t : AttributeType) → attribute_code t < 256
attribute_code-lt username = omega arith
attribute_code-lt message = omega arith
attribute_code-lt reason = omega arith
attribute_code-lt client_count = omega arith

Carries-bytes :
    {a : Attribute} {i : Item} {junk : List ℕ}
    → Carries a i junk
    → Attribute.bytes a ≡ wire i ++ junk
unfolding Attribute.bytes le16 htons
Carries-bytes {a} {i} {junk} c =
    let lt = attribute_code-lt i.kind in
    let fits = length-body i c.valid in
    let e0 : attribute_code i.kind % 256 ≡ attribute_code i.kind = omega arith in
    let e1 : attribute_code i.kind / 256 % 256 ≡ 0 = omega arith in
    let n = length i.body in
    let e2 : (n % 256 * 256 + n / 256 % 256) % 256 ≡ n / 256 = omega arith in
    let e3 : (n % 256 * 256 + n / 256 % 256) / 256 % 256 ≡ n % 256 = omega arith in
    rw (c.has_type, c.has_length, c.has_payload, e0, e1, e2, e3) refl

pub Carries-size :
    {a : Attribute} {i : Item} {junk : List ℕ}
    → Carries a i junk
    → Attribute.size a ≡ length (wire i)
unfolding Attribute.size
Carries-size {a} {i} {junk} c =
    let fits = length-body i c.valid in rw c.has_length (omega (arith, ntohs-htons (length i.body)))

-- What `add_attribute` copies is the item on the wire.
pub Carries-wire :
    {a : Attribute} {i : Item} {junk : List ℕ}
    → Carries a i junk
    → take (Attribute.size a) (Attribute.bytes a) ≡ wire i
Carries-wire {a} {i} {junk} c =
    rw (Carries-bytes c, Carries-size c) (take-append_length (wire i) junk)

-- A copy behind the bytes in use takes the place of as many zeros.
write_at_zeros :
    (ws src : List ℕ) (k : ℕ)
    → write_at (length ws) src (ws ++ replicate k 0) ≡ ws ++ src ++ replicate (k - length src) 0
unfolding write_at
write_at_zeros ws src k =
    rw
      (
        take-append_length ws (replicate k 0),
        drop-append_add (length src) ws (replicate k 0),
        drop-replicate {A = ℕ} (length src) k 0,
      )
      refl

-- The message that an attribute with this item leaves.
abbrev pub extended : Message → List Item → Item → Message
extended m is i = record {
  header = set_length (length (wires is) + length (wire i)) m.header;
  payload =
      wires is ++ wire i ++ replicate (max_payload_length - length (wires is) - length (wire i)) 0;
}

pub add_attribute-extended :
    {t : MessageType} {a : Attribute} {i : Item} {junk : List ℕ} (m : Message) (is : List Item)
    → Represents m t is
    → Carries a i junk
    → length (wires is) ≤ length_limit t
    → length (wires is) + length (wire i) ≤ max_payload_length
    → add_attribute a m ≡ ok (extended m is i)
unfolding add_attribute
add_attribute-extended {t} {a} {i} {junk} m is r c limit room =
    rw
      (
        Represents-validate m t is r limit,
        r.has_length,
        Carries-wire c,
        Carries-size c,
        r.has_payload,
        write_at_zeros (wires is) (wire i) (max_payload_length - length (wires is)),
        le→leb _ _ room,
      )
      refl

wires-snoc : (is : List Item) (i : Item) → wires (is ++ i ∷ []) ≡ wires is ++ wire i
wires-snoc is i = wires-append is (i ∷ []) ∙ ap (λ ws. wires is ++ ws) (append-nil (wire i))

length-wires-snoc :
    (is : List Item) (i : Item)
    → length (wires (is ++ i ∷ [])) ≡ length (wires is) + length (wire i)
length-wires-snoc is i = rw (wires-snoc is i) (length-append (wires is) (wire i))

-- The zeros left behind two parts.
zeros_left : (n a b : ℕ) → replicate {A = ℕ} (n - a - b) 0 ≡ replicate (n - (a + b)) 0
zeros_left n a b = ap (λ k. replicate k 0) (let e : n - a - b ≡ n - (a + b) = omega arith in e)

pub extended-Represents :
    (m : Message) (t : MessageType) (is : List Item) (i : Item)
    → Represents m t is
    → IsItem i
    → length (wires is) + length (wire i) ≤ max_payload_length
    → Represents (extended m is i) t (is ++ i ∷ [])
extended-Represents m t is i r v room =
    let n = length (wires is) + length (wire i) in
    let (a, b, c) = reads_set_length n m.header (omega arith) in
    record {
      has_header = set_length-IsHeader n m.header r.has_header;
      has_version = a ∙ r.has_version;
      has_type = b ∙ r.has_type;
      has_length = c ∙ sym (length-wires-snoc is i);
      fits = rw (length-wires-snoc is i) room;
      has_payload =
          rw (length-wires-snoc is i, wires-snoc is i)
            (ap (λ z. wires is ++ wire i ++ z)
              (zeros_left max_payload_length (length (wires is)) (length (wire i))));
      valid = All-append IsItem is (i ∷ []) r.valid (v, tt);
    }

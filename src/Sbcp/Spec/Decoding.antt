-- ===== src/Sbcp/Spec/Decoding.antt =====
-- The iterator of `class Message` visits the items that a message stands for.
use computer_networking_tamu.Base.{
  ℕ, zero, suc, ◌+◌, ◌*◌, ◌/◌, ◌%◌, ◌<◌, ◌≡◌, refl, ap, ◌∙◌, List, [], ◌∷◌, ◌++◌, append_assoc, ok,
  ◌>>=◌, or_throw, true, false, Option, none, some, length, length-append, drop-append_length, All,
  htons, ntohs-htons, arith, ◌==◌, ==_iff, Bool-cases, inl, inr, c_string,
}
use computer_networking_tamu.Sbcp.Types.{
  AttributeType, username, attribute_code, attribute_type-code, Outcome, memory_fault,
}
use computer_networking_tamu.Sbcp.Attribute
use computer_networking_tamu.Sbcp.Attribute.{Attribute}
use computer_networking_tamu.Sbcp.Message
use computer_networking_tamu.Sbcp.Message.{Message}
use computer_networking_tamu.Sbcp.Reading.{
  attributes_from, deref, find_from, usernames_from, read_attribute,
}
use computer_networking_tamu.Sbcp.Spec.{Item, wire, wires, IsItem}
use computer_networking_tamu.Sbcp.Spec.Building.{length-body}

-- The attribute that the iterator finds where an item stands before other memory.
abbrev pub seen : Item → List ℕ → Attribute
seen i rest = record {
  type = attribute_code i.kind;
  length = htons (length i.body);
  payload = i.body ++ rest;
}

seen-size : (i : Item) (rest : List ℕ) → IsItem i → Attribute.size (seen i rest) ≡ length (wire i)
unfolding Attribute.size
seen-size i rest v = let fits = length-body i v in omega (arith, ntohs-htons (length i.body))

seen-validate : (i : Item) (rest : List ℕ) → IsItem i → Attribute.validate (seen i rest) ≡ ok tt
unfolding Attribute.validate
seen-validate i rest v =
    let fits = length-body i v in
    rw (attribute_type-code i.kind, ntohs-htons (length i.body) (omega arith)) v

read_attribute-wire :
    (i : Item) (rest : List ℕ) → IsItem i → read_attribute (wire i ++ rest) ≡ ok (seen i rest)
unfolding read_attribute htons
read_attribute-wire i rest v =
    let fits = length-body i v in
    let n = length i.body in
    let e : attribute_code i.kind + 0 * 256 ≡ attribute_code i.kind = omega arith in
    let f : n / 256 + n % 256 * 256 ≡ n % 256 * 256 + n / 256 % 256 = omega arith in rw (e, f) refl

deref-wire :
    (m : Message) (pre : List ℕ) (i : Item) (rest : List ℕ)
    → m.payload ≡ pre ++ (wire i ++ rest)
    → IsItem i
    → deref m (length pre) ≡ ok (seen i rest)
unfolding deref
deref-wire m pre i rest e v =
    rw
      (
        e,
        drop-append_length pre (wire i ++ rest),
        read_attribute-wire i rest v,
        seen-validate i rest v,
      )
      refl

-- The position of the iterator: `is` and `tail` are still ahead of it.
pub record Ahead (m : Message) (pre : List ℕ) (is : List Item) (tail : List ℕ) : Type 0 where
  pub payload : m.payload ≡ pre ++ (wires is ++ tail)
  pub stop : Message.get_length m ≡ length pre + length (wires is)
  pub valid : All IsItem is

Ahead-stop :
    {m : Message} {pre tail : List ℕ}
    → Ahead m pre [] tail
    → (length pre == Message.get_length m) ≡ true
Ahead-stop {m} {pre} a = let e = a.stop in (==_iff _ _).1 (omega arith)

Ahead-more :
    {m : Message} {pre tail : List ℕ} {i : Item} {is : List Item}
    → Ahead m pre (i ∷ is) tail
    → (length pre == Message.get_length m) ≡ false
Ahead-more {m} {pre} {tail} {i} {is} a =
    let e = a.stop in let f = length-append (wire i) (wires is) in ground arith

Ahead-deref :
    {m : Message} {pre tail : List ℕ} {i : Item} {is : List Item}
    → Ahead m pre (i ∷ is) tail
    → deref m (length pre) ≡ ok (seen i (wires is ++ tail))
Ahead-deref {m} {pre} {tail} {i} {is} a =
    deref-wire m pre i (wires is ++ tail)
      (a.payload ∙ ap (◌++◌ pre) (append_assoc (wire i) (wires is) tail)) a.valid.0

Ahead-next :
    {m : Message} {pre tail : List ℕ} {i : Item} {is : List Item}
    → Ahead m pre (i ∷ is) tail
    → Ahead m (pre ++ wire i) is tail
Ahead-next {m} {pre} {tail} {i} {is} a = record {
  payload = a.payload ∙ simp append_assoc;
  stop =
      let e = a.stop in
      omega (arith, length-append (wire i) (wires is), length-append pre (wire i));
  valid = a.valid.1;
}

-- The first item of a kind, as the iterator sees it.
unfoldable pub find_item : AttributeType → List Item → List ℕ → Option Attribute
find_item t [] tail = none
find_item t (i ∷ is) tail = elim (attribute_code i.kind == attribute_code t) [
  | true ↦ some (seen i (wires is ++ tail))
  | false ↦ find_item t is tail
]

pub find_from-Ahead :
    (fuel : ℕ) (m : Message) (t : AttributeType) (pre : List ℕ) (is : List Item) (tail : List ℕ)
    → Ahead m pre is tail
    → length is < fuel
    → find_from fuel m t (length pre) ≡ ok (find_item t is tail)
unfolding find_from find_item
find_from-Ahead zero m t pre is tail a h = absurd (omega arith)
find_from-Ahead (suc fuel) m t pre [] tail a h = rw (Ahead-stop a, find_from) refl
find_from-Ahead (suc fuel) m t pre (i ∷ is) tail a h =
    elim (Bool-cases (attribute_code i.kind == attribute_code t)) [
      | inl hit ↦ rw (Ahead-more a, find_from, Ahead-deref a) (rw (hit, find_item, ◌>>=◌) refl)
      | inr miss ↦
          let e : length pre + Attribute.size (seen i (wires is ++ tail)) ≡ length (pre ++ wire i) =
            omega (arith, seen-size i (wires is ++ tail) a.valid.0, length-append pre (wire i)) in
          rw (Ahead-more a, find_from, Ahead-deref a)
            (rw (miss, find_item, ◌>>=◌, e)
              (find_from-Ahead fuel m t (pre ++ wire i) is tail (Ahead-next a) (omega arith)))
    ]

-- The texts of the user names, as the iterator sees them: each is a C string that begins at the
-- item's value and runs on into what follows it.
unfoldable pub names_of : List Item → List ℕ → Outcome (List (List ℕ))
names_of [] tail = ok []
names_of (i ∷ is) tail =
    let rest = names_of is tail in
    elim (attribute_code i.kind == attribute_code username) [
      | true ↦ do
        name ← or_throw (c_string (i.body ++ (wires is ++ tail))) memory_fault
        names ← rest
        ok (name ∷ names)
      | false ↦ rest
    ]

seen-get_username :
    (i : Item) (rest : List ℕ)
    → (attribute_code i.kind == attribute_code username) ≡ true
    → Attribute.get_username (seen i rest) ≡ or_throw (c_string (i.body ++ rest)) memory_fault
unfolding Attribute.get_username
seen-get_username i rest hit = rw hit refl

pub usernames_from-Ahead :
    (fuel : ℕ) (m : Message) (pre : List ℕ) (is : List Item) (tail : List ℕ)
    → Ahead m pre is tail
    → length is < fuel
    → usernames_from fuel m (length pre) ≡ names_of is tail
unfolding usernames_from names_of
usernames_from-Ahead zero m pre is tail a h = absurd (omega arith)
usernames_from-Ahead (suc fuel) m pre [] tail a h = rw (Ahead-stop a, usernames_from) refl
usernames_from-Ahead (suc fuel) m pre (i ∷ is) tail a h =
    let e : length pre + Attribute.size (seen i (wires is ++ tail)) ≡ length (pre ++ wire i) =
      omega (arith, seen-size i (wires is ++ tail) a.valid.0, length-append pre (wire i)) in
    let ih = usernames_from-Ahead fuel m (pre ++ wire i) is tail (Ahead-next a) (omega arith) in
    elim (Bool-cases (attribute_code i.kind == attribute_code username)) [
      | inl hit ↦
          rw (Ahead-more a, usernames_from, Ahead-deref a)
            (rw (hit, names_of, ◌>>=◌)
              (rw (seen-get_username i (wires is ++ tail) hit, e, ih) refl))
      | inr miss ↦
          rw (Ahead-more a, usernames_from, Ahead-deref a) (rw (miss, names_of, ◌>>=◌, e, ih) refl)
    ]

-- All attributes, as the iterator sees them.
unfoldable pub seen_all : List Item → List ℕ → List Attribute
seen_all [] tail = []
seen_all (i ∷ is) tail = seen i (wires is ++ tail) ∷ seen_all is tail

pub attributes_from-Ahead :
    (fuel : ℕ) (m : Message) (pre : List ℕ) (is : List Item) (tail : List ℕ)
    → Ahead m pre is tail
    → length is < fuel
    → attributes_from fuel m (length pre) ≡ ok (seen_all is tail)
unfolding attributes_from seen_all
attributes_from-Ahead zero m pre is tail a h = absurd (omega arith)
attributes_from-Ahead (suc fuel) m pre [] tail a h = rw (Ahead-stop a, attributes_from) refl
attributes_from-Ahead (suc fuel) m pre (i ∷ is) tail a h =
    let e : length pre + Attribute.size (seen i (wires is ++ tail)) ≡ length (pre ++ wire i) =
      omega (arith, seen-size i (wires is ++ tail) a.valid.0, length-append pre (wire i)) in
    let ih = attributes_from-Ahead fuel m (pre ++ wire i) is tail (Ahead-next a) (omega arith) in
    rw (Ahead-more a, attributes_from, Ahead-deref a) (rw (◌>>=◌, e, ih) refl)

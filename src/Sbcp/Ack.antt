-- ===== src/Sbcp/Ack.antt =====
-- ACK messages of libsbcp/src/messages.cpp: a client count and the names of the other users.
use computer_networking_tamu.Base.{
  ℕ, suc, ◌+◌, ◌-◌, ◌*◌, ◌/◌, ◌%◌, ◌≤◌, ◌<◌, ◌≡◌, refl, ap, sym, ◌∙◌, List, [], ◌∷◌, ◌++◌,
  append-nil, append_assoc, ok, ◌>>=◌, length, replicate, arith, map, All, take, NoNul, NoNul-take,
  c_string, c_string-zeros, c_string-append, length-append, htons, htons-lt, ntohs, ntohs-htons,
  le16, drop, ==-refl,
}
use computer_networking_tamu.Sbcp.Types.{username, client_count, ack}
use computer_networking_tamu.Sbcp.Attribute
use computer_networking_tamu.Sbcp.Attribute.{Attribute, make_count}
use computer_networking_tamu.Sbcp.Message
use computer_networking_tamu.Sbcp.Message.{Message, make_message, add_client_count}
use computer_networking_tamu.Sbcp.Reading
use computer_networking_tamu.Sbcp.Messages.{make_ack, add_usernames}
use computer_networking_tamu.Sbcp.Spec.{Item, wire, wires, Carries, Represents, wires-append}
use computer_networking_tamu.Sbcp.Spec.Building.{
  make_message-Represents, add_attribute-extended, extended-Represents, extended,
}
use computer_networking_tamu.Sbcp.Spec.Adding.{text_item, add_text-Represents}
use computer_networking_tamu.Sbcp.Spec.Decoding.{find_item, names_of}
use computer_networking_tamu.Sbcp.Spec.Getters.{
  zeros_behind, length-wires, find-Represents, usernames-Represents,
}

-- A count in network order, as an item.
abbrev pub count_item : ℕ → Item
count_item n = record { kind = client_count; body = le16 (htons n) }

-- The attribute that `set_client_count` makes of a blank one.
abbrev counted : ℕ → Attribute
counted n = record {
  type = 3;
  length = htons 2;
  payload = le16 (htons n) ++ drop 2 (replicate 512 0);
}

counted-Carries : (n : ℕ) → Carries (counted n) (count_item n) (drop 2 (replicate 512 0))
unfolding le16 Attribute.validate_length
counted-Carries n = record { has_type = refl; has_length = refl; has_payload = refl; valid = refl }

add_client_count-counted :
    (n : ℕ) (m : Message) → add_client_count n m ≡ Message.add_attribute (counted n) m
unfolding add_client_count make_count le16
add_client_count-counted n m = refl

-- The names as items, each cut to 16 bytes.
abbrev pub name_items : List (List ℕ) → List Item
name_items = map (text_item username)

abbrev AreShort : List (List ℕ) → Type 0
AreShort = All (λ name. length name ≤ 512)

add_usernames-Represents :
    (names : List (List ℕ)) (m : Message) (is : List Item)
    → AreShort names
    → Represents m ack is
    → length (wires (is ++ name_items names)) ≤ 1024
    → (m' : Message) × (add_usernames names m ≡ ok m') × Represents m' ack (is ++ name_items names)
unfolding add_usernames Message.add_username
add_usernames-Represents [] m is short r fits = (m, refl, rw (append-nil is) r)
add_usernames-Represents (name ∷ names) m is short r fits =
    let i = text_item username name in
    let assoc = append_assoc is (i ∷ []) (name_items names) in
    let l = length-append (wires is) (wires (i ∷ name_items names)) in
    let k = length-append (wire i) (wires (name_items names)) in
    let w = ap length (wires-append is (i ∷ name_items names)) in
    let (m', e, r') =
      add_text-Represents username name m ack is tt short.0 r (omega arith) (omega arith) in
    let (m'', e', r'') =
      add_usernames-Represents names m' (is ++ i ∷ []) short.1 r' (rw assoc fits) in
    (m'', rw e e', rw assoc at r'')

-- An ACK whose attributes fit the payload holds the count and the names.
make_ack-Represents :
    (names : List (List ℕ))
    → AreShort names
    → length (wires (count_item (suc (length names)) ∷ name_items names)) ≤ 1024
    → (m : Message) × (make_ack (suc (length names)) names ≡ ok m)
      × Represents m ack (count_item (suc (length names)) ∷ name_items names)
unfolding make_ack
make_ack-Represents names short fits =
    let n = suc (length names) in
    let m0 = make_message ack in
    let r0 = make_message-Represents ack in
    let room : 0 + length (wire (count_item n)) ≤ 1024 = unfold le16 in omega arith in
    let e0 =
      add_client_count-counted n m0
      ∙ add_attribute-extended m0 [] r0 (counted-Carries n) (omega arith) room in
    let r1 =
      extended-Represents m0 ack [] (count_item n) r0
        (unfold le16 Attribute.validate_length in refl) room in
    let (m, e, r) =
      add_usernames-Represents names (extended m0 [] (count_item n)) (count_item n ∷ []) short r1
        fits in
    (m, rw (==-refl n, e0) e, r)

-- A word in network order is read back through its two bytes.
first_word-le16 :
    (n : ℕ) (rest : List ℕ)
    → n < 65536
    → (Attribute.first_word (le16 (htons n) ++ rest) >>= λ w. ok (ntohs w)) ≡ ok n
unfolding Attribute.first_word le16
first_word-le16 n rest h =
    let lt = htons-lt n in
    let e : htons n % 256 + htons n / 256 % 256 * 256 ≡ htons n = omega arith in
    rw (e, ntohs-htons n h) refl

length-names : (names : List (List ℕ)) → length (name_items names) ≡ length names
length-names [] = refl
length-names (name ∷ names) = ap suc (length-names names)

-- An ACK for any users, itself counted, whose names have at most 512 bytes each and whose
-- attributes fit the payload, is built without an error, and its count is read back.
pub get_client_count-ack :
    (names : List (List ℕ))
    → AreShort names
    → length (wires (count_item (suc (length names)) ∷ name_items names)) ≤ 1024
    → (make_ack (suc (length names)) names >>= Reading.get_client_count) ≡ ok (suc (length names))
unfolding Reading.get_client_count Attribute.get_client_count find_item
get_client_count-ack names short fits =
    let (m, e, r) = make_ack-Represents names short fits in
    let is = count_item (suc (length names)) ∷ name_items names in
    let l = length-wires is in
    let k = length-names names in
    let w = wires (name_items names) ++ zeros_behind is in
    rw e (
      rw (find-Represents m ack is r client_count fits)
        (first_word-le16 (suc (length names)) w (omega arith)))

-- The names as the reader of an ACK sees them: each but the last is followed by the type byte of
-- the attribute behind it.
unfoldable pub marked : List (List ℕ) → List (List ℕ)
marked [] = []
marked (name ∷ []) = take 16 name ∷ []
marked (name ∷ next ∷ names) = (take 16 name ++ 2 ∷ []) ∷ marked (next ∷ names)

names_of-marked :
    (names : List (List ℕ)) (k : ℕ)
    → All NoNul names
    → 0 < k
    → names_of (name_items names) (replicate k 0) ≡ ok (marked names)
unfolding names_of marked
names_of-marked [] k h p = refl
names_of-marked (name ∷ []) k h p =
    rw (c_string-zeros (take 16 name) k (NoNul-take 16 name h.0) p) refl
names_of-marked (name ∷ next ∷ names) k h p =
    let i = text_item username next in
    let rest = wires (i ∷ name_items names) ++ replicate k 0 in
    let s =
      c_string-append (take 16 name) rest (2 ∷ []) (NoNul-take 16 name h.0)
        (unfold c_string in refl) in
    rw (s, names_of-marked (next ∷ names) k h.1 p) refl

marked_cons :
    (name : List ℕ) (names : List (List ℕ))
    → (x : List ℕ) × (xs : List (List ℕ)) × (marked (name ∷ names) ≡ x ∷ xs)
unfolding marked
marked_cons name [] = (take 16 name, [], refl)
marked_cons name (next ∷ names) = (take 16 name ++ 2 ∷ [], marked (next ∷ names), refl)

-- `get_usernames` reads from an ACK for at least one other user, with names of at most 512 bytes
-- and no NUL whose attributes leave the payload a byte, each name cut to 16 bytes, and behind each
-- name but the last one byte more, 2: the type of the attribute that follows it.
pub get_usernames-ack :
    (name : List ℕ) (names : List (List ℕ))
    → AreShort (name ∷ names)
    → All NoNul (name ∷ names)
    → length (wires (count_item (suc (length (name ∷ names))) ∷ name_items (name ∷ names))) < 1024
    → (make_ack (suc (length (name ∷ names))) (name ∷ names) >>= Reading.get_usernames)
      ≡ ok (marked (name ∷ names))
get_usernames-ack name names short h fits =
    let (m, e, r) = make_ack-Represents (name ∷ names) short (omega arith) in
    let is = count_item (suc (length (name ∷ names))) ∷ name_items (name ∷ names) in
    let n = names_of-marked (name ∷ names) (1024 - length (wires is)) h (omega arith) in
    let (x, xs, c) = marked_cons name names in
    let n' : names_of is (zeros_behind is) ≡ ok (x ∷ xs) = unfold names_of in n ∙ ap ok c in
    rw e (usernames-Represents m ack is r x xs (omega arith) n' ∙ ap ok (sym c))

-- ===== src/Sbcp/Reading/Termination.antt =====
-- The fuel of the iterator's loops, on any message, also on one with arbitrary bytes.
use computer_networking_tamu.Base.{
  ℕ, zero, suc, ◌+◌, ◌*◌, ◌≤◌, ◌<◌, ◌≡◌, ◌≢◌, inl, inr, refl, List, [], ◌∷◌, Bool, true, false,
  Option, none, some, ok, err, ◌>>=◌, ◌>>◌, length, length-drop, drop, Bool-cases, arith, ◌==◌,
  guard, or_throw, c_string, bind_ok,
}
use computer_networking_tamu.Sbcp.Types.{
  AttributeType, username, message, reason, client_count, attribute_code, attribute_type, Outcome,
  out_of_fuel, Failure, MessageType, join, send, fwd, ack, nak, online, offline, idle, message_type,
}
use computer_networking_tamu.Sbcp.Attribute
use computer_networking_tamu.Sbcp.Attribute.{Attribute}
use computer_networking_tamu.Sbcp.Message
use computer_networking_tamu.Sbcp.Message.{Message}
use computer_networking_tamu.Sbcp.Reading
use computer_networking_tamu.Sbcp.Reading.{
  read_attribute, deref, find_from, find, front, usernames_from, iterator_fuel,
}

-- The result is not the end of the fuel.
abbrev pub Ends {ℓ} : {A : Type ℓ} → Outcome A → Type 0
Ends (ok a) = Unit {0}
Ends (err e) = e ≢ out_of_fuel

module _ {A B : Type 0} where
  Ends-bind :
      (x : Outcome A) (f : A → Outcome B)
      → Ends x
      → ((a : A) → x ≡ ok a → Ends (f a))
      → Ends (x >>= f)
  Ends-bind (ok a) f h k = k a refl
  Ends-bind (err e) f h k = h

Ends-then : {B : Type 0} (x : Outcome (Unit {0})) (y : Outcome B) → Ends x → Ends y → Ends (x >> y)
Ends-then (ok a) y h k = k
Ends-then (err e) y h k = h

guard-Ends : (b : Bool) (e : Failure) → e ≢ out_of_fuel → Ends (guard b e)
guard-Ends true e h = tt
guard-Ends false e h = h

or_throw-Ends : {A : Type 0} (o : Option A) (e : Failure) → e ≢ out_of_fuel → Ends (or_throw o e)
or_throw-Ends none e h = h
or_throw-Ends (some a) e h = tt

validate_length-Ends : (t : AttributeType) (n : ℕ) → Ends (Attribute.validate_length t n)
unfolding Attribute.validate_length
validate_length-Ends username n = guard-Ends _ _ (λ e. cc)
validate_length-Ends message n = guard-Ends _ _ (λ e. cc)
validate_length-Ends reason n = guard-Ends _ _ (λ e. cc)
validate_length-Ends client_count n = guard-Ends _ _ (λ e. cc)

validate-Ends : (a : Attribute) → Ends (Attribute.validate a)
unfolding Attribute.validate
validate-Ends a =
    Ends-bind _ _ (or_throw-Ends (attribute_type a.type) _ (λ e. cc))
      (λ t _. validate_length-Ends t _)

-- A read succeeds only where four bytes are left.
read_attribute-Ends : (bs : List ℕ) → Ends (read_attribute bs)
unfolding read_attribute
read_attribute-Ends [] = λ e. cc
read_attribute-Ends (a ∷ []) = λ e. cc
read_attribute-Ends (a ∷ b ∷ []) = λ e. cc
read_attribute-Ends (a ∷ b ∷ c ∷ []) = λ e. cc
read_attribute-Ends (a ∷ b ∷ c ∷ d ∷ rest) = tt

read_attribute_bound : (bs : List ℕ) (a : Attribute) → read_attribute bs ≡ ok a → 4 ≤ length bs
unfolding read_attribute
read_attribute_bound [] x h = cc
read_attribute_bound (a ∷ []) x h = cc
read_attribute_bound (a ∷ b ∷ []) x h = cc
read_attribute_bound (a ∷ b ∷ c ∷ []) x h = cc
read_attribute_bound (a ∷ b ∷ c ∷ d ∷ rest) x h = omega arith

deref-Ends : (m : Message) (offset : ℕ) → Ends (deref m offset)
unfolding deref
deref-Ends m offset =
    Ends-bind _ _ (read_attribute-Ends (drop offset m.payload))
      (λ a _. Ends-then _ (ok a) (validate-Ends a) tt)

deref_bound :
    (m : Message) (offset : ℕ) (a : Attribute)
    → deref m offset ≡ ok a
    → offset + 4 ≤ length m.payload
unfolding deref
deref_bound m offset a h =
    let (b, e, rest) = bind_ok (read_attribute (drop offset m.payload)) _ h in
    omega (arith, read_attribute_bound (drop offset m.payload) b e, length-drop offset m.payload)

get_username-Ends : (a : Attribute) → Ends (Attribute.get_username a)
unfolding Attribute.get_username
get_username-Ends a =
    Ends-then _ _ (guard-Ends _ _ (λ e. cc)) (or_throw-Ends (c_string a.payload) _ (λ e. cc))

module _ (m : Message) (small : length m.payload ≤ 1024) where
  -- The fuel left and the offset together pass the end of the payload.
  find_from-Ends :
      (fuel : ℕ) (t : AttributeType) (offset : ℕ)
      → 1024 < offset + 4 * fuel
      → 0 < fuel
      → Ends (find_from fuel m t offset)
  unfolding find_from Attribute.size
  find_from-Ends zero t offset far h = absurd (omega arith)
  find_from-Ends (suc fuel) t offset far h = elim (Bool-cases (offset == Message.get_length m)) [
    | inl stop ↦ rw (stop, find_from) tt
    | inr more ↦
        rw (more, find_from)
          (Ends-bind (deref m offset) _ (deref-Ends m offset) λ a e.
            let b = deref_bound m offset a e in
            elim (Bool-cases (a.type == attribute_code t)) [
              | inl hit ↦ rw hit tt
              | inr miss ↦
                  rw miss
                    (find_from-Ends fuel t (offset + Attribute.size a) (omega arith) (omega arith))
            ])
  ]

  usernames_from-Ends :
      (fuel : ℕ) (offset : ℕ)
      → 1024 < offset + 4 * fuel
      → 0 < fuel
      → Ends (usernames_from fuel m offset)
  unfolding usernames_from Attribute.size
  usernames_from-Ends zero offset far h = absurd (omega arith)
  usernames_from-Ends (suc fuel) offset far h = elim (Bool-cases (offset == Message.get_length m)) [
    | inl stop ↦ rw (stop, usernames_from) tt
    | inr more ↦
        rw (more, usernames_from)
          (Ends-bind (deref m offset) _ (deref-Ends m offset) λ a e.
            let b = deref_bound m offset a e in
            let rest =
              usernames_from-Ends fuel (offset + Attribute.size a) (omega arith) (omega arith) in
            elim (Bool-cases (a.type == attribute_code username)) [
              | inl hit ↦
                  rw hit
                    (Ends-bind _ _ (get_username-Ends a) λ name _. Ends-bind _ _ rest λ names _. tt)
              | inr miss ↦ rw miss rest
            ])
  ]

guard_overflow : (t : MessageType) → Message.overflow_of t ≢ out_of_fuel
guard_overflow join e = cc
guard_overflow send e = cc
guard_overflow fwd e = cc
guard_overflow ack e = cc
guard_overflow nak e = cc
guard_overflow online e = cc
guard_overflow offline e = cc
guard_overflow idle e = cc

message_validate-Ends : (m : Message) → Ends (Message.validate m)
unfolding Message.validate
message_validate-Ends m = Ends-then _ _ (guard-Ends _ _ (λ e. cc)) (
    Ends-bind _ _ (or_throw-Ends (message_type (Message.get_type m)) _ (λ e. cc))
      (λ t _. guard-Ends _ _ (guard_overflow t)))

find-Ends : (t : AttributeType) (m : Message) → length m.payload ≤ 1024 → Ends (find t m)
unfolding find
find-Ends t m small =
    Ends-then _ _ (message_validate-Ends m)
      (find_from-Ends m small iterator_fuel t 0 (omega arith) (omega arith))

front-Ends : (names : List (List ℕ)) → Ends (front names)
unfolding front
front-Ends [] = λ e. cc
front-Ends (name ∷ names) = tt

first_word-Ends : (bs : List ℕ) → Ends (Attribute.first_word bs)
unfolding Attribute.first_word
first_word-Ends [] = λ e. cc
first_word-Ends (a ∷ []) = λ e. cc
first_word-Ends (a ∷ b ∷ rest) = tt

usernames-Ends : (m : Message) → length m.payload ≤ 1024 → Ends (Reading.get_usernames m)
unfolding Reading.get_usernames
usernames-Ends m small = Ends-then _ _ (message_validate-Ends m) (
    Ends-bind _ _ (usernames_from-Ends m small iterator_fuel 0 (omega arith) (omega arith))
      λ names _. Ends-bind _ _ (front-Ends names) λ first _. tt)

-- On any message whose payload has at most 1024 bytes, whatever they are, none of the five getters
-- runs out of the 257 rounds of its loop: each returns a value, throws, fails an assertion, or comes
-- to a read outside the payload, where the model ends.
pub getters-Ends :
    (m : Message)
    → length m.payload ≤ 1024
    → Ends (Reading.get_usernames m)
      × Ends (Reading.get_username m)
      × Ends (Reading.get_message m)
      × Ends (Reading.get_reason m)
      × Ends (Reading.get_client_count m)
unfolding Reading.get_username Reading.get_message Reading.get_reason Reading.get_client_count
    Attribute.get_message Attribute.get_reason Attribute.get_client_count
getters-Ends m small = (
  usernames-Ends m small,
  Ends-bind _ _ (usernames-Ends m small) (λ names _. front-Ends names),
  Ends-bind _ _ (find-Ends message m small) (λ found _.
      Ends-bind _ _ (or_throw-Ends found _ (λ e. cc)) (λ a _.
        Ends-then _ _ (guard-Ends _ _ (λ e. cc)) (or_throw-Ends (c_string a.payload) _ (λ e. cc)))),
  Ends-bind _ _ (find-Ends reason m small) (λ found _.
      Ends-bind _ _ (or_throw-Ends found _ (λ e. cc)) (λ a _.
        Ends-then _ _ (guard-Ends _ _ (λ e. cc)) (or_throw-Ends (c_string a.payload) _ (λ e. cc)))),
  Ends-bind _ _ (find-Ends client_count m small) (λ found _.
      Ends-bind _ _ (or_throw-Ends found _ (λ e. cc)) (λ a _.
        Ends-then _ _ (guard-Ends _ _ (λ e. cc))
          (Ends-bind _ _ (first_word-Ends a.payload) (λ w _. tt)))),
)

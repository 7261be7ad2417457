-- ===== src/Base/Decimal.antt =====
-- std::stoi and std::to_string of an `int`, in base ten.
use Prim.Native.Nat.{◌≤◌, ℕ, zero, suc, ◌+◌, ◌-◌, ◌*◌, ◌/◌, ◌%◌, ◌<◌}
use mathlib.Core.Path.{◌≡◌, refl, ap, ◌∙◌}
use mathlib.Core.Logic.{◌≢◌, inl, inr}
use mathlib.Core.Bool.{Bool, true, false, ◌&&◌, ◌||◌}
use mathlib.Core.List.{List, [], ◌∷◌, ◌++◌}
use native.Mathlib.Omega.{arith}
use computer_networking_tamu.Base.Tests.{
  ltb, leb, ◌==◌, if◌then◌else◌, Bool-cases, ltb→lt, not_ltb→le, le→leb,
}
use computer_networking_tamu.Base.Lists.{length, All, All-append, length-append}
use computer_networking_tamu.Base.Results.{Result, ok, err}

pub data ℤ : Type 0 where
  pos negsuc : ℕ → ℤ

-- std::to_string of a number from 0 on: with fuel above the number, all its digits.
unfoldable pub digits_from : ℕ → ℕ → List ℕ
digits_from zero n = []
digits_from (suc fuel) n =
    let rest = digits_from fuel (n / 10) in
    if ltb n 10 then (48 + n) ∷ [] else rest ++ (48 + n % 10) ∷ []

unfoldable pub digits : ℕ → List ℕ
unfolding digits_from
digits n = digits_from (suc n) n

unfoldable pub decimal : ℤ → List ℕ
unfolding digits
decimal (pos n) = digits n
decimal (negsuc n) = 45 ∷ digits (suc n)

abbrev pub is_digit : ℕ → Bool
is_digit c = leb 48 c && leb c 57

abbrev pub is_space : ℕ → Bool
is_space c = c == 32 || (leb 9 c && leb c 13)

unfoldable pub skip_spaces : List ℕ → List ℕ
skip_spaces [] = []
skip_spaces (c ∷ s) = if is_space c then skip_spaces s else c ∷ s

-- The number that the digits at the front stand for, behind those already read.
unfoldable pub value : ℕ → List ℕ → ℕ
value n [] = n
value n (c ∷ s) = if is_digit c then value (n * 10 + (c - 48)) s else n

-- What std::stoi throws.
pub data StoiFailure : Type 0 where
  invalid_argument out_of_range : StoiFailure

unfoldable pub signed : Bool → List ℕ → Result StoiFailure ℤ
unfolding value
signed negative [] = err invalid_argument
signed negative (c ∷ s) =
    let n = value 0 (c ∷ s) in
    if is_digit c
    then (if negative
        then (if leb n 2147483648
            then ok (if n == 0 then pos 0 else negsuc (n - 1))
            else err out_of_range)
        else if leb n 2147483647
        then ok (pos n)
        else err out_of_range)
    else err invalid_argument

unfoldable pub after_spaces : List ℕ → Result StoiFailure ℤ
unfolding signed
after_spaces [] = err invalid_argument
after_spaces (c ∷ s) =
    if c == 45 then signed true s else if c == 43 then signed false s else signed false (c ∷ s)

unfoldable pub stoi : List ℕ → Result StoiFailure ℤ
unfolding skip_spaces after_spaces
stoi s = after_spaces (skip_spaces s)

abbrev Digits : List ℕ → Type 0
Digits = All (λ c. is_digit c ≡ true)

value-append :
    (n d : ℕ) (s : List ℕ) → Digits s → d < 10 → value n (s ++ (48 + d) ∷ []) ≡ value n s * 10 + d
unfolding value
value-append n d [] h small = ground arith
value-append n d (c ∷ s) h small = rw (h.0) (value-append (n * 10 + (c - 48)) d s h.1 small)

digit-add : (d : ℕ) → d < 10 → is_digit (48 + d) ≡ true
digit-add d h = ground arith

value_digit : (d : ℕ) → d < 10 → value 0 ((48 + d) ∷ []) ≡ d
unfolding value
value_digit d h = rw (digit-add d h) (omega arith)

digits_from-Digits : (fuel n : ℕ) → Digits (digits_from fuel n)
unfolding digits_from
digits_from-Digits zero n = tt
digits_from-Digits (suc fuel) n = elim (Bool-cases (ltb n 10)) [
  | inl e ↦ rw e (digit-add n (ltb→lt n 10 e), tt)
  | inr e ↦ rw e (
      All-append (λ c. is_digit c ≡ true) (digits_from fuel (n / 10)) ((48 + n % 10) ∷ [])
        (digits_from-Digits fuel (n / 10)) (digit-add (n % 10) (omega arith), tt))
]

value-digits_from : (fuel n : ℕ) → n < fuel → value 0 (digits_from fuel n) ≡ n
unfolding digits_from
value-digits_from zero n h = absurd (omega arith)
value-digits_from (suc fuel) n h = elim (Bool-cases (ltb n 10)) [
  | inl e ↦ rw e (value_digit n (ltb→lt n 10 e))
  | inr e ↦
      let big = not_ltb→le n 10 e in
      let ih = value-digits_from fuel (n / 10) (omega arith) in
      rw e (
        value-append 0 (n % 10) (digits_from fuel (n / 10)) (digits_from-Digits fuel (n / 10))
          (omega arith)
        ∙ omega (arith, ih))
]

-- A text of digits that starts with one is read as its value.
stoi-Digits :
    (s : List ℕ) → Digits s → 0 < length s → value 0 s < 2147483648 → stoi s ≡ ok (pos (value 0 s))
unfolding stoi skip_spaces after_spaces signed
stoi-Digits [] h p small = absurd (omega arith)
stoi-Digits (c ∷ s) h p small =
    let d = h.0 in
    let not_space : is_space c ≡ false = ground arith in
    let not_minus : (c == 45) ≡ false = ground arith in
    let not_plus : (c == 43) ≡ false = ground arith in
    let fits : leb (value 0 (c ∷ s)) 2147483647 ≡ true =
      le→leb (value 0 (c ∷ s)) 2147483647 (omega arith) in
    rw not_space (rw not_minus (rw not_plus (rw fits (rw d refl))))

length-digits_from : (fuel n : ℕ) → 0 < length (digits_from (suc fuel) n)
unfolding digits_from
length-digits_from fuel n = elim (Bool-cases (ltb n 10)) [
  | inl e ↦ rw e (omega arith)
  | inr e ↦ rw e (omega (arith, length-append (digits_from fuel (n / 10)) ((48 + n % 10) ∷ [])))
]

-- An `int` from 0 on is read back from what is printed of it.
pub stoi-digits : (n : ℕ) → n < 2147483648 → stoi (digits n) ≡ ok (pos n)
unfolding digits
stoi-digits n small =
    let v = value-digits_from (suc n) n (omega arith) in
    stoi-Digits (digits_from (suc n) n) (digits_from-Digits (suc n) n) (length-digits_from n n)
      (omega (arith, v))
    ∙ ap (λ m. ok (pos m)) v

digit_differs : (b c : ℕ) → is_digit b ≡ true → is_digit c ≡ false → b ≢ c
digit_differs b c h h' = ground arith

Digits-avoid : (c : ℕ) (s : List ℕ) → is_digit c ≡ false → Digits s → All (λ b. b ≢ c) s
Digits-avoid c [] other h = tt
Digits-avoid c (b ∷ s) other h = (digit_differs b c h.0 other, Digits-avoid c s other h.1)

below_digits : (c : ℕ) → c < 48 → is_digit c ≡ false
below_digits c small = ground arith

above_digits : (c : ℕ) → 57 < c → is_digit c ≡ false
above_digits c large = ground arith

-- No character below '0' stands in what is printed of a number from 0 on, and none above '9'.
pub digits-avoid : (c n : ℕ) → c < 48 → All (λ b. b ≢ c) (digits n)
unfolding digits
digits-avoid c n small =
    Digits-avoid c (digits_from (suc n) n) (below_digits c small) (digits_from-Digits (suc n) n)

pub digits-avoid_above : (c n : ℕ) → 57 < c → All (λ b. b ≢ c) (digits n)
unfolding digits
digits-avoid_above c n large =
    Digits-avoid c (digits_from (suc n) n) (above_digits c large) (digits_from-Digits (suc n) n)

length-fuel : (fuel n : ℕ) → length (digits_from fuel n) ≤ fuel
unfolding digits_from
length-fuel zero n = omega arith
length-fuel (suc fuel) n =
    let ih = length-fuel fuel (n / 10) in
    elim (Bool-cases (ltb n 10)) [
      | inl e ↦ rw e (omega arith)
      | inr e ↦
          rw e (omega (arith, ih, length-append (digits_from fuel (n / 10)) ((48 + n % 10) ∷ [])))
    ]

pub length-digits : (n : ℕ) → length (digits n) ≤ suc n
unfolding digits
length-digits n = length-fuel (suc n) n

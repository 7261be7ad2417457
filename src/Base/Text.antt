-- ===== src/Base/Text.antt =====
-- Text as bytes: literals, and C strings in memory.
use Prim.Native.Nat.{ℕ, zero, suc, ◌-◌, ◌<◌, ◌≤◌, min}
use Prim.Native.Char.{code}
use Prim.Native.String.{String}
use mathlib.Core.Path.{◌≡◌, refl, ap, ◌∙◌}
use mathlib.Core.Logic.{◌≢◌, ◌↔◌}
use mathlib.Core.Bool.{Bool, true, false, ◌&&◌}
use mathlib.Core.List.{List, [], ◌∷◌, ◌++◌, append-nil}
use mathlib.Core.Option
use mathlib.Core.Option.{Option, none, some}
use native.Mathlib.Omega.{arith}
use computer_networking_tamu.Base.Tests.{◌==◌, ltb, if◌then◌else◌}
use computer_networking_tamu.Base.Lists.{All, replicate, take, length, length-take, take-min}

-- The bytes of an ASCII literal.
abbrev pub ascii : String → List ℕ
ascii = elim [ String.[] ↦ [] | String.◌∷◌ letter (rest → later) ↦ code letter ∷ later ]

-- The string that a `const char*` into this memory stands for: the bytes up to the first NUL.
-- `none`: there is no NUL, and `strlen` reads past the object.
unfoldable pub c_string : List ℕ → Option (List ℕ)
c_string [] = none
c_string (zero ∷ bs) = some []
c_string (suc b ∷ bs) = Option.map (◌∷◌ (suc b)) (c_string bs)

abbrev pub NoNul : List ℕ → Type 0
NoNul = All (λ b. b ≢ 0)

-- Text before other memory only lengthens the string found there.
pub c_string-append :
    (t rest s : List ℕ) → NoNul t → c_string rest ≡ some s → c_string (t ++ rest) ≡ some (t ++ s)
unfolding c_string
c_string-append [] rest s h e = e
c_string-append (zero ∷ t) rest s h e = absurd (h.0 refl)
c_string-append (suc b ∷ t) rest s h e = ground (arith, c_string-append t rest s h.1 e)

pub c_string-stop : (rest : List ℕ) → c_string (0 ∷ rest) ≡ some []
unfolding c_string
c_string-stop rest = refl

-- Zeros behind a text end the string.
pub c_string-zeros : (t : List ℕ) (k : ℕ) → NoNul t → 0 < k → c_string (t ++ replicate k 0) ≡ some t
unfolding replicate
c_string-zeros t zero h p = absurd (omega arith)
c_string-zeros t (suc k) h p =
    c_string-append t (0 ∷ replicate k 0) [] h (c_string-stop (replicate k 0))
    ∙ ap some (append-nil t)

pub NoNul-take : (n : ℕ) (t : List ℕ) → NoNul t → NoNul (take n t)
NoNul-take zero t h = tt
NoNul-take (suc n) [] h = tt
NoNul-take (suc n) (b ∷ t) h = (h.0, NoNul-take n t h.1)

-- operator== and operator< of std::string.
unfoldable pub bytes_eq : List ℕ → List ℕ → Bool
bytes_eq [] [] = true
bytes_eq [] (b ∷ bs) = false
bytes_eq (a ∷ cs) [] = false
bytes_eq (a ∷ cs) (b ∷ bs) = a == b && bytes_eq cs bs

pub bytes_eq_iff : (s t : List ℕ) → (bytes_eq s t ≡ true) ↔ (s ≡ t)
unfolding bytes_eq
bytes_eq_iff [] [] = (λ _. refl, λ _. refl)
bytes_eq_iff [] (b ∷ bs) = (λ e. cc, λ e. cc)
bytes_eq_iff (a ∷ cs) [] = (λ e. cc, λ e. cc)
bytes_eq_iff (a ∷ cs) (b ∷ bs) =
    (λ e. ground (arith, bytes_eq_iff cs bs), λ e. ground (arith, bytes_eq_iff cs bs))

pub bytes_eq_refl : (s : List ℕ) → bytes_eq s s ≡ true
bytes_eq_refl s = (bytes_eq_iff s s).1 refl

unfoldable pub bytes_lt : List ℕ → List ℕ → Bool
bytes_lt s [] = false
bytes_lt [] (b ∷ bs) = true
bytes_lt (a ∷ cs) (b ∷ bs) = if ltb a b then true else if a == b then bytes_lt cs bs else false

-- strnlen: the bytes before the first NUL, at most `cap` of them. The end of the list stands for
-- the NUL that ends a text.
unfoldable pub strnlen : ℕ → List ℕ → ℕ
strnlen zero bs = 0
strnlen (suc cap) [] = 0
strnlen (suc cap) (zero ∷ bs) = 0
strnlen (suc cap) (suc b ∷ bs) = suc (strnlen cap bs)

pub strnlen_text : (cap : ℕ) (t : List ℕ) → NoNul t → strnlen cap t ≡ min cap (length t)
unfolding strnlen
strnlen_text zero t h = omega arith
strnlen_text (suc cap) [] h = omega arith
strnlen_text (suc cap) (zero ∷ t) h = absurd (h.0 refl)
strnlen_text (suc cap) (suc b ∷ t) h = omega (arith, strnlen_text cap t h.1)

pub strnlen-append :
    (cap : ℕ) (t rest : List ℕ) → NoNul t → length t ≤ cap → strnlen cap (t ++ 0 ∷ rest) ≡ length t
unfolding strnlen
strnlen-append zero [] rest h fits = refl
strnlen-append zero (b ∷ t) rest h fits = absurd (omega arith)
strnlen-append (suc cap) [] rest h fits = refl
strnlen-append (suc cap) (zero ∷ t) rest h fits = absurd (h.0 refl)
strnlen-append (suc cap) (suc b ∷ t) rest h fits =
    omega (arith, strnlen-append cap t rest h.1 (omega arith))

-- strncpy: the first `n` bytes of a text, filled up with zeros.
unfoldable pub strncpy : ℕ → List ℕ → List ℕ
strncpy n t = take n t ++ replicate (n - length t) 0

-- A text copied by its bounded length is cut there.
pub strncpy-strnlen : (cap : ℕ) (t : List ℕ) → NoNul t → strncpy (strnlen cap t) t ≡ take cap t
unfolding strncpy replicate
strncpy-strnlen cap t h =
    let n = strnlen_text cap t h in
    let z : strnlen cap t - length t ≡ 0 = omega arith in
    rw z (rw (append-nil (take (strnlen cap t) t)) (rw n (take-min cap t)))

pub length-take-strnlen : (cap : ℕ) (t : List ℕ) → NoNul t → strnlen cap t ≡ length (take cap t)
length-take-strnlen cap t h = omega (arith, strnlen_text cap t h, length-take cap t)

-- ===== src/Http/Search.antt =====
-- `find` and `find_last_of` of std::string for one character, and what stands around a position.
-- `none` is `npos`.
use computer_networking_tamu.Base.{
  ℕ, zero, suc, ◌+◌, ◌<◌, ◌≡◌, refl, ap, List, [], ◌∷◌, ◌++◌, Option, none, some, length, get_elem?,
  take, drop, ◌==◌, if◌then◌else◌, arith, All, Option-cases, inl, inr, ==-refl, ==-false, ◌≢◌,
}

unfoldable pub index_of : ℕ → List ℕ → Option ℕ
index_of c [] = none
index_of c (b ∷ s) = elim (index_of c s) [
  | none ↦ if b == c then some 0 else none
  | some i ↦ if b == c then some 0 else some (suc i)
]

unfoldable pub last_index_of : ℕ → List ℕ → Option ℕ
last_index_of c [] = none
last_index_of c (b ∷ s) = elim (last_index_of c s) [
  | none ↦ if b == c then some 0 else none
  | some i ↦ some (suc i)
]

-- `npos`, and the position of a match as a number.
abbrev pub npos : ℕ
npos = 18446744073709551615

abbrev pub position : Option ℕ → ℕ
position none = npos
position (some i) = i

pub index_of-at : (c : ℕ) (s : List ℕ) (i : ℕ) → index_of c s ≡ some i → get_elem? s i ≡ some c
unfolding index_of
index_of-at c [] i e = cc
index_of-at c (b ∷ s) zero e = ground (arith, index_of-at c s)
index_of-at c (b ∷ s) (suc i) e = ground (arith, index_of-at c s i)

pub last_index_of-at :
    (c : ℕ) (s : List ℕ) (i : ℕ) → last_index_of c s ≡ some i → get_elem? s i ≡ some c
unfolding last_index_of
last_index_of-at c [] i e = cc
last_index_of-at c (b ∷ s) zero e = ground (arith, last_index_of-at c s)
last_index_of-at c (b ∷ s) (suc i) e = ground (arith, last_index_of-at c s i)

pub split_at :
    (c : ℕ) (s : List ℕ) (i : ℕ) → get_elem? s i ≡ some c → take i s ++ (c ∷ drop (suc i) s) ≡ s
split_at c [] i e = cc
split_at c (b ∷ s) zero e = cc
split_at c (b ∷ s) (suc i) e = ap (◌∷◌ b) (split_at c s i e)

pub get_elem?-length : (c : ℕ) (s : List ℕ) (i : ℕ) → get_elem? s i ≡ some c → i < length s
get_elem?-length c [] i e = cc
get_elem?-length c (b ∷ s) zero e = omega arith
get_elem?-length c (b ∷ s) (suc i) e = omega (arith, get_elem?-length c s i e)

pub get_elem?-drop : (n i : ℕ) (s : List ℕ) → get_elem? (drop n s) i ≡ get_elem? s (n + i)
get_elem?-drop zero i s = ap (get_elem? s) (omega arith)
get_elem?-drop (suc n) i [] = refl
get_elem?-drop (suc n) i (b ∷ s) =
    let e : suc n + i ≡ suc (n + i) = omega arith in rw e (get_elem?-drop n i s)

-- A character that a text does not hold is found where it first stands behind the text.
pub index_of-append :
    (c : ℕ) (before behind : List ℕ)
    → All (λ b. b ≢ c) before
    → index_of c (before ++ (c ∷ behind)) ≡ some (length before)
unfolding index_of
index_of-append c [] behind h = elim (Option-cases (index_of c behind)) [
  | inl e ↦ rw e (rw (==-refl c) refl)
  | inr (j, e) ↦ rw e (rw (==-refl c) refl)
]
index_of-append c (b ∷ before) behind h =
    rw (index_of-append c before behind h.1) (rw (==-false b c h.0) refl)

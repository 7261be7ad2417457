-- ===== src/ChatServer/Fifos.antt =====
-- The std::map from user names to file descriptors of MP2/src/sbcp_server.cpp: entries in the
-- order of their keys.
use computer_networking_tamu.Base.{
  ℕ, ◌≡◌, refl, List, [], ◌∷◌, Option, none, some, if◌then◌else◌, bytes_eq, bytes_eq_iff, bytes_lt,
  arith,
}

abbrev pub FifoMap : Type 0
FifoMap = List (List ℕ × ℕ)

-- find
unfoldable pub lookup : List ℕ → FifoMap → Option ℕ
lookup k [] = none
lookup k ((j, v) ∷ m) = if bytes_eq j k then some v else lookup k m

-- m[k] = v
unfoldable pub insert : List ℕ → ℕ → FifoMap → FifoMap
insert k v [] = (k, v) ∷ []
insert k v ((j, w) ∷ m) =
    let rest = insert k v m in
    if bytes_eq j k then (j, v) ∷ m else if bytes_lt k j then (k, v) ∷ (j, w) ∷ m else (j, w) ∷ rest

-- erase
unfoldable pub erase : List ℕ → FifoMap → FifoMap
erase k [] = []
erase k ((j, w) ∷ m) = let rest = erase k m in if bytes_eq j k then rest else (j, w) ∷ rest

pub lookup-insert :
    (k j : List ℕ) (v : ℕ) (m : FifoMap)
    → lookup j (insert k v m) ≡ (if bytes_eq k j then some v else lookup j m)
unfolding lookup insert
lookup-insert k j v [] = refl
lookup-insert k j v ((i, w) ∷ m) =
    ground (arith, bytes_eq_iff k j, bytes_eq_iff i k, bytes_eq_iff i j, lookup-insert k j v m)

pub lookup-erase :
    (k j : List ℕ) (m : FifoMap)
    → lookup j (erase k m) ≡ (if bytes_eq k j then none else lookup j m)
unfolding lookup erase
lookup-erase k j [] = ground arith
lookup-erase k j ((i, w) ∷ m) =
    ground (arith, bytes_eq_iff k j, bytes_eq_iff i k, bytes_eq_iff i j, lookup-erase k j m)

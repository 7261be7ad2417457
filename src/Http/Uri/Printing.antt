-- ===== src/Http/Uri/Printing.antt =====
-- Which URIs libhttp/src/uri.cpp prints as they were read.
use computer_networking_tamu.Base.{
  ℕ, suc, ◌+◌, ◌-◌, ◌%◌, ◌<◌, ◌≡◌, refl, ap, sym, ◌∙◌, List, ◌∷◌, ◌++◌, append-nil, append_assoc,
  Option, none, some, length, get_elem?, take, drop, take-of_le, length-drop, drop-drop, arith,
}
use computer_networking_tamu.Http.Search.{
  index_of, last_index_of, npos, index_of-at, last_index_of-at, split_at, get_elem?-length,
  get_elem?-drop,
}
use computer_networking_tamu.Http.Uri.{
  colon, octothorpe, target_of, fragment_of, target_string, fragment_string, parse, to_string,
}

-- The first colon does not stand behind the last octothorpe.
abbrev pub Ordered : Option ℕ → Option ℕ → Type 0
Ordered (some pos) (some hash) = pos < hash
Ordered (some pos) none = Unit
Ordered none hash = Unit

path_and_fragment :
    (s : List ℕ) (pos hash : ℕ)
    → last_index_of octothorpe s ≡ some hash
    → length s < 9223372036854775808
    → pos < hash
    → take ((hash + 18446744073709551616 - pos - 1) % 18446744073709551616) (drop (suc pos) s)
        ++ (octothorpe ∷ drop (suc hash) s)
      ≡ drop (suc pos) s
path_and_fragment s pos hash h small o =
    let at = last_index_of-at octothorpe s hash h in
    let bound = get_elem?-length octothorpe s hash at in
    let k : ℕ = hash - suc pos in
    let e : (hash + 18446744073709551616 - pos - 1) % 18446744073709551616 ≡ k = omega arith in
    let f : suc pos + k ≡ hash = omega arith in
    let g : suc pos + suc k ≡ suc hash = omega arith in
    let there = get_elem?-drop (suc pos) k s ∙ ap (get_elem? s) f ∙ at in
    let behind = drop-drop (suc pos) (suc k) s ∙ ap (λ n. drop n s) g in
    ap (λ n. take n (drop (suc pos) s) ++ (octothorpe ∷ drop (suc hash) s)) e
    ∙ ap (λ w. take k (drop (suc pos) s) ++ (octothorpe ∷ w)) (sym behind)
    ∙ split_at octothorpe (drop (suc pos) s) k there

print_parts :
    (s : List ℕ) (pos hash : Option ℕ)
    → length s < 9223372036854775808
    → index_of colon s ≡ pos
    → last_index_of octothorpe s ≡ hash
    → Ordered pos hash
    → target_string (target_of pos hash s) ++ fragment_string (fragment_of hash s) ≡ s
unfolding target_of fragment_of target_string fragment_string
print_parts s none none small p h o = append-nil (take npos s) ∙ take-of_le npos s (omega arith)
print_parts s none (some hash) small p h o =
    split_at octothorpe s hash (last_index_of-at octothorpe s hash h)
print_parts s (some pos) none small p h o =
    let count : ℕ = (36893488147419103231 - pos - 1) % 18446744073709551616 in
    let at = index_of-at colon s pos p in
    let bound = get_elem?-length colon s pos at in
    append-nil _
    ∙ ap (λ w. take pos s ++ (colon ∷ w))
        (take-of_le count (drop (suc pos) s) (omega (arith, length-drop (suc pos) s)))
    ∙ split_at colon s pos at
print_parts s (some pos) (some hash) small p h o =
    let at = index_of-at colon s pos p in
    let count : ℕ = (hash + 18446744073709551616 - pos - 1) % 18446744073709551616 in
    append_assoc (take pos s) (colon ∷ take count (drop (suc pos) s))
      (octothorpe ∷ drop (suc hash) s)
    ∙ ap (λ w. take pos s ++ (colon ∷ w)) (path_and_fragment s pos hash h small o)
    ∙ split_at colon s pos at

-- A URI that the class prints is the one that it was read from, if its length is below 2^63 and its
-- first colon, if there are a colon and an octothorpe, stands before its last octothorpe.
pub to_string-parse :
    (s : List ℕ)
    → length s < 9223372036854775808
    → Ordered (index_of colon s) (last_index_of octothorpe s)
    → to_string (parse s) ≡ s
unfolding to_string parse
to_string-parse s small o = print_parts s _ _ small refl refl o

-- A URI of less than 2^63 bytes whose first colon stands behind its last octothorpe, in the
-- fragment, is printed with the fragment twice: it is not the URI that was read.
pub to_string-parse_fragment :
    (s : List ℕ) (pos hash : ℕ)
    → length s < 9223372036854775808
    → index_of colon s ≡ some pos
    → last_index_of octothorpe s ≡ some hash
    → hash < pos
    → to_string (parse s) ≡ s ++ (octothorpe ∷ drop (suc hash) s)
unfolding to_string parse target_of fragment_of target_string fragment_string
to_string-parse_fragment s pos hash small p h o =
    let at = index_of-at colon s pos p in
    let bound = get_elem?-length colon s pos at in
    let count : ℕ = (hash + 18446744073709551616 - pos - 1) % 18446744073709551616 in
    rw (p, h)
      (ap (λ w. (take pos s ++ (colon ∷ w)) ++ (octothorpe ∷ drop (suc hash) s))
          (take-of_le count (drop (suc pos) s) (omega (arith, length-drop (suc pos) s)))
        ∙ ap (λ w. w ++ (octothorpe ∷ drop (suc hash) s)) (split_at colon s pos at))

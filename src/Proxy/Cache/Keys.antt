-- ===== src/Proxy/Cache/Keys.antt =====
-- The proxy's cache as a map: what is found after each operation.
use computer_networking_tamu.Base.{
  ℕ, suc, ◌≡◌, ◌≢◌, refl, ap, subst, ◌⊎◌, [], ◌∷◌, none, some, length, ◌==◌, Bool-cases, inl, inr,
  ==_iff, ==-refl, ==-false, arith,
}
use computer_networking_tamu.Proxy.Cache.{CacheEntry, used, Cache, find, set_last_used, erase}

-- Each key once.
unfoldable pub HasDistinctKeys : Cache → Type 0
HasDistinctKeys [] = Unit
HasDistinctKeys ((k, entry) ∷ cache) = (find k cache ≡ none) × HasDistinctKeys cache

pub find-head :
    (k : ℕ) (entry : CacheEntry) (cache : Cache) → find k ((k, entry) ∷ cache) ≡ some entry
unfolding find
find-head k entry cache = rw (==-refl k) refl

pub find-tail :
    (j k : ℕ) (entry : CacheEntry) (cache : Cache)
    → k ≢ j
    → find j ((k, entry) ∷ cache) ≡ find j cache
unfolding find
find-tail j k entry cache h = rw (==-false k j h) refl

-- Another key, or a key with its first entry.
pub found_in :
    (j k : ℕ) (entry : CacheEntry) (cache : Cache) (e : CacheEntry)
    → find j ((k, entry) ∷ cache) ≡ some e
    → ((k ≡ j) × (entry ≡ e)) ⊎ ((k ≢ j) × (find j cache ≡ some e))
unfolding find
found_in j k entry cache e h = elim (Bool-cases (k == j)) [
  | inl same ↦ inl ((==_iff k j).0 same, ground arith)
  | inr other ↦ inr (λ s. ground arith, ground arith)
]

pub find-set_last_used :
    (key now j : ℕ) (cache : Cache) → j ≢ key → find j (set_last_used key now cache) ≡ find j cache
unfolding find set_last_used
find-set_last_used key now j [] h = refl
find-set_last_used key now j ((k, entry) ∷ cache) h =
    ground (arith, find-set_last_used key now j cache h)

pub find-set_last_used_same :
    (key now : ℕ) (cache : Cache) (e : CacheEntry)
    → find key cache ≡ some e
    → find key (set_last_used key now cache) ≡ some (used now e)
unfolding find set_last_used
find-set_last_used_same key now [] e h = cc
find-set_last_used_same key now ((k, entry) ∷ cache) e h = elim (found_in key k entry cache e h) [
  | inl (same, e') ↦ let t = (==_iff k key).1 same in rw t (rw t (ap (λ x. some (used now x)) e'))
  | inr (other, there) ↦
      let f = ==-false k key other in rw f (rw f (find-set_last_used_same key now cache e there))
]

pub find-set_last_used-none :
    (key now j : ℕ) (cache : Cache)
    → find j cache ≡ none
    → find j (set_last_used key now cache) ≡ none
unfolding find set_last_used
find-set_last_used-none key now j [] h = refl
find-set_last_used-none key now j ((k, entry) ∷ cache) h =
    ground (arith, find-set_last_used-none key now j cache)

pub length-set_last_used :
    (key now : ℕ) (cache : Cache) → length (set_last_used key now cache) ≡ length cache
unfolding set_last_used
length-set_last_used key now [] = refl
length-set_last_used key now ((k, entry) ∷ cache) =
    ground (arith, length-set_last_used key now cache)

pub find-erase : (key j : ℕ) (cache : Cache) → j ≢ key → find j (erase key cache) ≡ find j cache
unfolding find erase
find-erase key j [] h = refl
find-erase key j ((k, entry) ∷ cache) h = ground (arith, find-erase key j cache h)

pub find-erase-none :
    (key j : ℕ) (cache : Cache) → find j cache ≡ none → find j (erase key cache) ≡ none
unfolding find erase
find-erase-none key j [] h = refl
find-erase-none key j ((k, entry) ∷ cache) h = ground (arith, find-erase-none key j cache)

pub length-erase :
    (key : ℕ) (cache : Cache) (e : CacheEntry)
    → find key cache ≡ some e
    → suc (length (erase key cache)) ≡ length cache
unfolding find erase
length-erase key [] e h = cc
length-erase key ((k, entry) ∷ cache) e h = ground (arith, length-erase key cache e)

pub set_last_used-HasDistinctKeys :
    (key now : ℕ) (cache : Cache)
    → HasDistinctKeys cache
    → HasDistinctKeys (set_last_used key now cache)
unfolding set_last_used HasDistinctKeys
set_last_used-HasDistinctKeys key now [] d = tt
set_last_used-HasDistinctKeys key now ((k, entry) ∷ cache) d = elim (Bool-cases (k == key)) [
  | inl same ↦ rw same d
  | inr other ↦
      rw other (
        find-set_last_used-none key now k cache d.0,
        set_last_used-HasDistinctKeys key now cache d.1,
      )
]

pub erase-HasDistinctKeys :
    (key : ℕ) (cache : Cache) → HasDistinctKeys cache → HasDistinctKeys (erase key cache)
unfolding erase HasDistinctKeys
erase-HasDistinctKeys key [] d = tt
erase-HasDistinctKeys key ((k, entry) ∷ cache) d = elim (Bool-cases (k == key)) [
  | inl same ↦ rw same d.1
  | inr other ↦ rw other (find-erase-none key k cache d.0, erase-HasDistinctKeys key cache d.1)
]

-- An erased key is not found.
pub find-erase_same :
    (key : ℕ) (cache : Cache) → HasDistinctKeys cache → find key (erase key cache) ≡ none
unfolding find erase HasDistinctKeys
find-erase_same key [] d = refl
find-erase_same key ((k, entry) ∷ cache) d = elim (Bool-cases (k == key)) [
  | inl same ↦ rw same (subst (λ j. find j cache ≡ none) ((==_iff k key).0 same) d.0)
  | inr other ↦ rw other (rw other (find-erase_same key cache d.1))
]

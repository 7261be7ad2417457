-- ===== src/Proxy/Cache/Adding.antt =====
-- The proxy's cache before and after a response is added.
use computer_networking_tamu.Base.{
  ℕ, ◌≤◌, ◌<◌, ◌≡◌, ◌≢◌, refl, ap, ◌∙◌, subst, sym, ◌⊎◌, ◌∷◌, Option, none, some, false, length,
  leb, Bool-cases, inl, inr, arith, Option-cases, same_or_not,
}
use computer_networking_tamu.Proxy.Cache.{
  Response, CacheEntry, used, Cache, find, set_last_used, make_room, emplace_behind, emplace,
  new_entry, add,
}
use computer_networking_tamu.Proxy.Cache.Keys.{
  HasDistinctKeys, find-head, find-tail, find-set_last_used, find-set_last_used_same,
  find-set_last_used-none, found_in, length-set_last_used, set_last_used-HasDistinctKeys,
}
use computer_networking_tamu.Proxy.Cache.Eviction.{IsOldest, Evicts, evict-Evicts}

-- Each key once, and at most ten.
pub record IsValid (cache : Cache) : Type 0 where
  pub distinct : HasDistinctKeys cache
  pub bounded : length cache ≤ 10

-- Either the cache had room, or it lost one entry.
make_room-cases :
    (cache : Cache)
    → HasDistinctKeys cache
    → ((make_room cache ≡ cache) × (length cache < 10))
      ⊎ (Evicts cache (make_room cache) × (10 ≤ length cache))
unfolding make_room
make_room-cases cache d = elim (Bool-cases (leb 10 (length cache))) [
  | inl full ↦
      let size : 10 ≤ length cache = ground arith in
      inr (rw full (evict-Evicts cache d (omega arith), size))
  | inr free ↦ inl (rw free refl, ground arith)
]

make_room-free :
    (cache : Cache)
    → IsValid cache
    → HasDistinctKeys (make_room cache) × (length (make_room cache) < 10)
make_room-free cache v = elim (make_room-cases cache v.distinct) [
  | inl (e, h) ↦ rw e (v.distinct, h)
  | inr (g, h) ↦ (g.distinct, omega (arith, g.smaller, v.bounded))
]

emplace-IsValid :
    (key : ℕ) (entry : CacheEntry) (cache : Cache)
    → HasDistinctKeys cache
    → length cache < 10
    → IsValid (emplace key entry cache)
unfolding emplace HasDistinctKeys
emplace-IsValid key entry cache d h = elim (Option-cases (find key cache)) [
  | inl e ↦ rw e (record { distinct = (e, d); bounded = omega arith })
  | inr (old, e) ↦ rw e (record { distinct = d; bounded = omega arith })
]

pub add-IsValid :
    (key now : ℕ) (r : Response) (cache : Cache) → IsValid cache → IsValid (add key now r cache)
unfolding add
add-IsValid key now r cache v =
    let (d, h) = make_room-free cache v in
    emplace-IsValid key (new_entry now r) (make_room cache) d h

pub set_last_used-IsValid :
    (key now : ℕ) (cache : Cache) → IsValid cache → IsValid (set_last_used key now cache)
set_last_used-IsValid key now cache v = record {
  distinct = set_last_used-HasDistinctKeys key now cache v.distinct;
  bounded = omega (arith, length-set_last_used key now cache, v.bounded);
}

-- A key that is not in the cache is not in it when there is room.
make_room-missing :
    (key : ℕ) (cache : Cache)
    → HasDistinctKeys cache
    → find key cache ≡ none
    → find key (make_room cache) ≡ none
make_room-missing key cache d h = elim (make_room-cases cache d) [
  | inl (e, h') ↦ rw e h
  | inr (g, h') ↦
      g.others key (λ same.
        let there : find key cache ≡ some g.gone.1 =
          subst (λ k. find k cache ≡ some g.gone.1) (sym same) g.oldest.there in
        cc)
      ∙ h
]

-- What is found for another key: the same as before, or nothing, where the cache was full and no
-- entry was used before its entry.
pub Kept : Cache → ℕ → Cache → Type 0
Kept cache j cache' =
    (find j cache' ≡ find j cache)
    ⊎ ((10 ≤ length cache) × (find j cache' ≡ none) × ((e : CacheEntry) × IsOldest cache (j, e)))

make_room-Kept : (cache : Cache) → HasDistinctKeys cache → (j : ℕ) → Kept cache j (make_room cache)
unfolding Kept
make_room-Kept cache d j = elim (make_room-cases cache d) [
  | inl (e, h) ↦ inl (rw e refl)
  | inr (g, h) ↦ elim (same_or_not j g.gone.0) [
    | inl same ↦ inr (
      h,
      subst (λ k. find k (make_room cache) ≡ none) (sym same) g.missing,
      (g.gone.1, subst (λ k. IsOldest cache (k, g.gone.1)) (sym same) g.oldest),
    )
    | inr other ↦ inl (g.others j other)
  ]
]

-- A response added under a key that is not there: its entry is found, and each other key is as it
-- was or was the one to go.
pub add-new :
    (key now : ℕ) (r : Response) (cache : Cache)
    → IsValid cache
    → find key cache ≡ none
    → (find key (add key now r cache) ≡ some (new_entry now r))
      × ((j : ℕ) → j ≢ key → Kept cache j (add key now r cache))
unfolding add emplace Kept
add-new key now r cache v h =
    let missing = make_room-missing key cache v.distinct h in
    let e : add key now r cache ≡ (key, new_entry now r) ∷ make_room cache =
      ap (λ found. emplace_behind found key (new_entry now r) (make_room cache)) missing in
    (
      ap (find key) e ∙ find-head key (new_entry now r) (make_room cache),
      λ j other.
          let tail : find j (add key now r cache) ≡ find j (make_room cache) =
            ap (find j) e
            ∙ find-tail j key (new_entry now r) (make_room cache) (λ s. other (sym s)) in
          rw tail (make_room-Kept cache v.distinct j),
    )

-- An entry that is there stays when the cache has room.
pub add-there :
    (key now : ℕ) (r : Response) (cache : Cache) (e : CacheEntry)
    → find key cache ≡ some e
    → length cache < 10
    → add key now r cache ≡ cache
unfolding add make_room emplace
add-there key now r cache e h l =
    let free : leb 10 (length cache) ≡ false = ground arith in rw free (rw h refl)

some-injective : (a b : CacheEntry) → ◌≡◌ {A = Option CacheEntry} (some a) (some b) → a ≡ b
some-injective a b h = cc

-- What is found in a cache whose entry was used: an entry with a response that was found before.
pub found_used :
    (key now j : ℕ) (cache : Cache) (e : CacheEntry)
    → find j (set_last_used key now cache) ≡ some e
    → (old : CacheEntry) × (find j cache ≡ some old) × (old.response ≡ e.response)
found_used key now j cache e h = elim (same_or_not j key) [
  | inr other ↦ (e, sym (find-set_last_used key now j cache other) ∙ h, refl)
  | inl same ↦ elim (Option-cases (find j cache)) [
    | inl missing ↦
        let gone : find j (set_last_used key now cache) ≡ none =
          find-set_last_used-none key now j cache missing in
        absurd cc
    | inr (old, there) ↦
        let there' : find key cache ≡ some old = subst (λ k. find k cache ≡ some old) same there in
        let now_ : find j (set_last_used key now cache) ≡ some (used now old) =
          subst (λ k. find k (set_last_used key now cache) ≡ some (used now old)) (sym same)
            (find-set_last_used_same key now cache old there') in
        (old, there, ap (λ x. x.response) (some-injective _ _ (sym now_ ∙ h)))
  ]
]

room_found :
    (cache : Cache)
    → IsValid cache
    → (j : ℕ) (e : CacheEntry) → find j (make_room cache) ≡ some e
    → find j cache ≡ some e
unfolding Kept
room_found cache v j e h = elim (make_room-Kept cache v.distinct j) [
  | inl same ↦ sym same ∙ h
  | inr (full, gone, _) ↦ absurd cc
]

-- What is found in a cache that a response was added to: the response, or what was found before.
pub found_added :
    (key now : ℕ) (r : Response) (j : ℕ) (cache : Cache) (e : CacheEntry)
    → IsValid cache
    → find j (add key now r cache) ≡ some e
    → ((j ≡ key) × (e.response ≡ r)) ⊎ (find j cache ≡ some e)
unfolding add emplace new_entry
found_added key now r j cache e v h = elim (Option-cases (find key (make_room cache))) [
  | inr (old, there) ↦ inr (
      room_found cache v j e (
        sym (ap (λ f. find j (emplace_behind f key (new_entry now r) (make_room cache))) there)
        ∙ h))
  | inl missing ↦
      elim (found_in j key (new_entry now r) (make_room cache) e (
        sym (ap (λ f. find j (emplace_behind f key (new_entry now r) (make_room cache))) missing)
        ∙ h)) [
          | inl (same, new) ↦ inl (sym same, sym (ap (λ x. x.response) new))
          | inr (other, there) ↦ inr (room_found cache v j e there)
        ]
]

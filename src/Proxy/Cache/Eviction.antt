-- ===== src/Proxy/Cache/Eviction.antt =====
-- What the proxy's cache holds when a response is added: the entry that goes is one that was used
-- first.
use computer_networking_tamu.Base.{
  ℕ, suc, ◌≤◌, ◌<◌, ◌≡◌, ◌≢◌, refl, ap, ◌∙◌, subst, sym, ◌⊎◌, [], ◌∷◌, none, some, length, ltb,
  Bool-cases, inl, inr, arith,
}
use computer_networking_tamu.Proxy.Cache.{CacheEntry, Cache, find, older, oldest, evict}
use computer_networking_tamu.Proxy.Cache.Keys.{
  HasDistinctKeys, find-head, find-tail, found_in, find-erase, find-erase_same, length-erase,
  erase-HasDistinctKeys,
}

-- An entry of the cache that no entry was used before.
pub record IsOldest (cache : Cache) (p : ℕ × CacheEntry) : Type 0 where
  pub there : find p.0 cache ≡ some p.1
  pub first : (j : ℕ) (e : CacheEntry) → find j cache ≡ some e → p.1.last_used ≤ e.last_used

older-cases :
    (p q : ℕ × CacheEntry)
    → ((older p q ≡ q) × (q.1.last_used ≤ p.1.last_used))
      ⊎ ((older p q ≡ p) × (p.1.last_used ≤ q.1.last_used))
unfolding older
older-cases p q = elim (Bool-cases (ltb q.1.last_used p.1.last_used)) [
  | inl less ↦ inl (rw less refl, ground arith)
  | inr more ↦ inr (rw more refl, ground arith)
]

older-le :
    (p q : ℕ × CacheEntry)
    → ((older p q).1.last_used ≤ p.1.last_used) × ((older p q).1.last_used ≤ q.1.last_used)
older-le p q = elim (older-cases p q) [
  | inl (e, h) ↦ rw e (h, omega arith)
  | inr (e, h) ↦ rw e (omega arith, h)
]

oldest-first :
    (p : ℕ × CacheEntry) (cache : Cache)
    → ((oldest p cache).1.last_used ≤ p.1.last_used)
      × ((j : ℕ) (e : CacheEntry)
          → find j cache ≡ some e
          → (oldest p cache).1.last_used ≤ e.last_used)
unfolding oldest find
oldest-first p [] = (omega arith, λ j e h. absurd cc)
oldest-first p (q ∷ cache) =
    let (a, b) = oldest-first (older p q) cache in
    let (l, l') = older-le p q in
    (
      omega (arith, a, l),
      λ j e h. elim (found_in j q.0 q.1 cache e h) [
        | inl (k, same) ↦ omega (arith, a, l', ap (λ x. x.last_used) same)
        | inr (k, there) ↦ b j e there
      ],
    )

found-different :
    (j k : ℕ) (cache : Cache) (e : CacheEntry) → find k cache ≡ none → find j cache ≡ some e → k ≢ j
found-different j k cache e h h' same =
    let h'' : find j cache ≡ none = subst (λ i. find i cache ≡ none) same h in cc

oldest-there :
    (p : ℕ × CacheEntry) (cache : Cache)
    → HasDistinctKeys cache
    → (oldest p cache ≡ p) ⊎ (find (oldest p cache).0 cache ≡ some (oldest p cache).1)
unfolding oldest HasDistinctKeys
oldest-there p [] d = inl refl
oldest-there p (q ∷ cache) d = elim (oldest-there (older p q) cache d.1) [
  | inl first ↦ elim (older-cases p q) [
    | inl (e, h) ↦
        inr
          (subst (λ o. find o.0 (q ∷ cache) ≡ some o.1) (sym (first ∙ e)) (find-head q.0 q.1 cache))
    | inr (e, h) ↦ inl (first ∙ e)
  ]
  | inr there ↦ inr (
      find-tail (oldest (older p q) cache).0 q.0 q.1 cache (
        found-different (oldest (older p q) cache).0 q.0 cache (oldest (older p q) cache).1 d.0
          there)
      ∙ there)
]

oldest-IsOldest :
    (p : ℕ × CacheEntry) (cache : Cache)
    → HasDistinctKeys (p ∷ cache)
    → IsOldest (p ∷ cache) (oldest p cache)
unfolding HasDistinctKeys
oldest-IsOldest p cache d =
    let (a, b) = oldest-first p cache in
    record {
      there = elim (oldest-there p cache d.1) [
        | inl e ↦ subst (λ o. find o.0 (p ∷ cache) ≡ some o.1) (sym e) (find-head p.0 p.1 cache)
        | inr there ↦
            find-tail (oldest p cache).0 p.0 p.1 cache
              (found-different (oldest p cache).0 p.0 cache (oldest p cache).1 d.0 there)
            ∙ there
      ];
      first = λ j e h. elim (found_in j p.0 p.1 cache e h) [
        | inl (k, same) ↦ omega (arith, a, ap (λ x. x.last_used) same)
        | inr (k, there) ↦ b j e there
      ];
    }

-- A cache that eviction takes one entry from, one that was used first.
pub record Evicts (cache cache' : Cache) : Type 0 where
  pub gone : ℕ × CacheEntry
  pub oldest : IsOldest cache gone
  pub missing : find gone.0 cache' ≡ none
  pub others : (j : ℕ) → j ≢ gone.0 → find j cache' ≡ find j cache
  pub smaller : suc (length cache') ≡ length cache
  pub distinct : HasDistinctKeys cache'

pub evict-Evicts :
    (cache : Cache) → HasDistinctKeys cache → 0 < length cache → Evicts cache (evict cache)
unfolding evict
evict-Evicts [] d h = absurd (omega arith)
evict-Evicts (p ∷ cache) d h =
    let o = oldest-IsOldest p cache d in
    let key = (oldest p cache).0 in
    record {
      gone = oldest p cache;
      oldest = o;
      missing = find-erase_same key (p ∷ cache) d;
      others = λ j different. find-erase key j (p ∷ cache) different;
      smaller = length-erase key (p ∷ cache) (oldest p cache).1 o.there;
      distinct = erase-HasDistinctKeys key (p ∷ cache) d;
    }

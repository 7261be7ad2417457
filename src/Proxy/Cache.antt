-- ===== src/Proxy/Cache.antt =====
-- The cache of MP4/src/http_proxy.cpp: a map from the hash of a URI to an entry. The list stands in
-- the order in which the map is iterated, and a new entry in front. Times are seconds.
pub mod Keys
pub mod Eviction
pub mod Adding
use computer_networking_tamu.Base.{
  ℕ, List, [], ◌∷◌, Option, none, some, Bool, true, false, length, ltb, leb, ◌==◌, if◌then◌else◌,
}
use computer_networking_tamu.Http.StatusCode.{StatusCode}

-- What the proxy asks of a response: its status code, the times in its headers, its text.
pub record Response : Type 0 where
  pub status_code : StatusCode
  pub expires : Option ℕ
  pub last_modified : Option ℕ
  pub date : Option ℕ
  pub text : List ℕ

pub record CacheEntry : Type 0 where
  pub last_used : ℕ
  pub expiration : ℕ
  pub response : Response

abbrev pub Cache : Type 0
Cache = List (ℕ × CacheEntry)

unfoldable pub find : ℕ → Cache → Option CacheEntry
find key [] = none
find key ((k, entry) ∷ cache) = let rest = find key cache in if k == key then some entry else rest

-- std::get<0>(entry) = now
abbrev pub used : ℕ → CacheEntry → CacheEntry
used now entry = record entry { last_used = now }

unfoldable pub set_last_used : ℕ → ℕ → Cache → Cache
set_last_used key now [] = []
set_last_used key now ((k, entry) ∷ cache) =
    let rest = set_last_used key now cache in
    if k == key then (k, used now entry) ∷ cache else (k, entry) ∷ rest

unfoldable pub older : ℕ × CacheEntry → ℕ × CacheEntry → ℕ × CacheEntry
older p q = if ltb q.1.last_used p.1.last_used then q else p

-- The loop that looks for the entry that was used first.
unfoldable pub oldest : ℕ × CacheEntry → Cache → ℕ × CacheEntry
unfolding older
oldest p [] = p
oldest p (q ∷ cache) = oldest (older p q) cache

unfoldable pub erase : ℕ → Cache → Cache
erase key [] = []
erase key ((k, entry) ∷ cache) =
    let rest = erase key cache in if k == key then cache else (k, entry) ∷ rest

unfoldable pub evict : Cache → Cache
unfolding oldest erase
evict [] = []
evict (p ∷ cache) = erase (oldest p cache).0 (p ∷ cache)

abbrev pub emplace_behind : Option CacheEntry → ℕ → CacheEntry → Cache → Cache
emplace_behind none key entry cache = (key, entry) ∷ cache
emplace_behind (some old) key entry cache = cache

-- `emplace` leaves an entry that is there.
unfoldable pub emplace : ℕ → CacheEntry → Cache → Cache
unfolding find
emplace key entry cache = emplace_behind (find key cache) key entry cache

abbrev pub first_of : ℕ → List (Option ℕ) → ℕ
first_of default [] = default
first_of default (none ∷ times) = first_of default times
first_of default (some time ∷ times) = time

-- Expires, Last-Modified or Date, or else the present.
unfoldable pub expiration_of : ℕ → Response → ℕ
expiration_of now r = first_of now (r.expires ∷ r.last_modified ∷ r.date ∷ [])

-- In a full cache the oldest entry goes.
unfoldable pub make_room : Cache → Cache
unfolding evict
make_room cache = if leb 10 (length cache) then evict cache else cache

unfoldable pub new_entry : ℕ → Response → CacheEntry
unfolding expiration_of
new_entry now r = record { last_used = now; expiration = expiration_of now r; response = r }

-- A response that the server sent goes in.
unfoldable pub add : ℕ → ℕ → Response → Cache → Cache
unfolding make_room emplace new_entry
add key now r cache = emplace key (new_entry now r) (make_room cache)

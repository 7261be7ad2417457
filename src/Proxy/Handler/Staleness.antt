-- ===== src/Proxy/Handler/Staleness.antt =====
-- What the proxy does with a stale entry, and with an answer that it did not ask for.
use computer_networking_tamu.Base.{
  ℕ, ◌≤◌, ◌<◌, ◌≡◌, refl, List, [], ◌∷◌, none, some, true, false, length, ok, err, ℤ, le→not_ltb,
  All, map,
}
use computer_networking_tamu.Proxy.Cache.{Response, CacheEntry, Cache, find}
use computer_networking_tamu.Proxy.Cache.Adding.{add-there}
use computer_networking_tamu.Proxy.Handler.{
  no_entry, Request, is_not_modified, on_response, ask, handle, run,
}
use computer_networking_tamu.Proxy.Handler.Answers.{Names, question}

-- A stale entry in a cache with room, and a new response from the server: the response is sent, and
-- the cache stays as it is, with the stale entry.
pub handle-stale :
    (hash : List ℕ → ℕ) (q : Request) (cache : Cache) (host : List ℕ) (port : ℤ) (e : CacheEntry)
    (r : Response)
    → Names q.uri host port
    → find (hash q.uri) cache ≡ some e
    → e.expiration ≤ q.now
    → length cache < 10
    → q.answer ≡ some r
    → is_not_modified r ≡ false
    → handle hash q cache
      ≡ ok (record {
        cache = cache;
        sent = r.text;
        asked = some (question q.uri host port (some e.expiration));
      })
unfolding handle Names question ask on_response
handle-stale hash q cache host port e r names found stale room answers modified = rw names (
    rw found (
      rw (le→not_ltb q.now e.expiration stale)
        (rw answers (rw modified (rw (add-there (hash q.uri) q.now r cache e found room) refl)))))

-- A 304 from the server for a URI that is not in the cache: `at` throws, and nothing is sent.
pub handle-no_entry :
    (hash : List ℕ → ℕ) (q : Request) (cache : Cache) (host : List ℕ) (port : ℤ) (r : Response)
    → Names q.uri host port
    → find (hash q.uri) cache ≡ none
    → q.answer ≡ some r
    → is_not_modified r ≡ true
    → handle hash q cache ≡ err no_entry
unfolding handle Names ask on_response
handle-no_entry hash q cache host port r names missing answers modified =
    rw names (rw missing (rw answers (rw modified (rw missing refl))))

-- A request of a URI, with the time of it and the server's answer.
abbrev pub visit : List ℕ → ℕ × Response → Request
visit uri (now, r) = record { uri = uri; now = now; answer = some r }

-- From a cache with room, of fewer than ten entries, that holds a stale entry for a URI that names a
-- server and a port: however often the URI is requested and
-- the server sends a response that is not a 304, the server is asked each time, with the entry's time
-- in If-Modified-Since, each response is sent on, and the cache stays as it is, with the stale entry.
pub run-stale :
    (hash : List ℕ → ℕ) (uri : List ℕ) (visits : List (ℕ × Response)) (cache : Cache)
    (host : List ℕ) (port : ℤ) (e : CacheEntry)
    → Names uri host port
    → find (hash uri) cache ≡ some e
    → length cache < 10
    → All (λ v. (e.expiration ≤ v.0) × (is_not_modified v.1 ≡ false)) visits
    → run hash (map (visit uri) visits) cache
      ≡ ok (cache, map (λ v. (v.1.text, some (question uri host port (some e.expiration)))) visits)
unfolding run
run-stale hash uri [] cache host port e names found room late = refl
run-stale hash uri (v ∷ visits) cache host port e names found room late =
    rw
      (handle-stale hash (visit uri v) cache host port e v.1 names found late.0.0 room refl
        late.0.1)
      (rw (run-stale hash uri visits cache host port e names found room late.1) refl)

-- ===== src/Proxy/Handler/Answers.antt =====
-- What the proxy answers, and that its cache stays small.
use computer_networking_tamu.Base.{
  ℕ, ◌<◌, ◌≡◌, refl, ap, ◌∙◌, subst, sym, List, [], ◌∷◌, Option, none, some, false, Result, ok, err,
  ◌>>=◌, or_throw, ltb, Bool-cases, inl, inr, bind_ok, ok-injective, ℤ, lt→ltb,
}
use computer_networking_tamu.Proxy.Address.{get_host_and_path_from_uri, split_port}
use computer_networking_tamu.Proxy.Cache.{
  Response, CacheEntry, Cache, find, set_last_used, expiration_of, new_entry, add,
}
use computer_networking_tamu.Proxy.Cache.Adding.{
  IsValid, add-IsValid, set_last_used-IsValid, add-new,
}
use computer_networking_tamu.Proxy.Handler.{
  Failure, Exchange, no_answer, Request, Question, Handled, is_not_modified, as_port,
  serve_from_cache, on_response, ask, look_up, handle, run,
}

-- The cache behind a request that is handled is valid.
abbrev pub LeavesValid : Result Failure Handled → Type 0
LeavesValid (err e) = Unit
LeavesValid (ok h) = IsValid h.cache

serve_from_cache-LeavesValid :
    (found : Option CacheEntry) (key now : ℕ) (question : Question) (cache : Cache)
    → IsValid cache
    → LeavesValid (serve_from_cache found key now question cache)
serve_from_cache-LeavesValid none key now question cache v = tt
serve_from_cache-LeavesValid (some entry) key now question cache v =
    set_last_used-IsValid key now cache v

on_response-LeavesValid :
    (key now : ℕ) (question : Question) (cache : Cache) (r : Response)
    → IsValid cache
    → LeavesValid (on_response key now question cache r)
unfolding on_response
on_response-LeavesValid key now question cache r v = elim (Bool-cases (is_not_modified r)) [
  | inl e ↦ rw e (serve_from_cache-LeavesValid (find key cache) key now question cache v)
  | inr e ↦ rw e (add-IsValid key now r cache v)
]

answer-LeavesValid :
    (answer : Option Response) (key now : ℕ) (question : Question) (cache : Cache)
    → IsValid cache
    → LeavesValid (or_throw answer no_answer >>= on_response key now question cache)
answer-LeavesValid none key now question cache v = tt
answer-LeavesValid (some r) key now question cache v =
    on_response-LeavesValid key now question cache r v

look_up-LeavesValid :
    (found : Option CacheEntry) (key : ℕ) (q : Request) (host : List ℕ) (port : ℤ) (path : List ℕ)
    (cache : Cache)
    → IsValid cache
    → LeavesValid (look_up found key q host port path cache)
unfolding ask
look_up-LeavesValid none key q host port path cache v =
    answer-LeavesValid q.answer key q.now _ cache v
look_up-LeavesValid (some entry) key q host port path cache v =
    elim (Bool-cases (ltb q.now entry.expiration)) [
      | inl e ↦ rw e (set_last_used-IsValid key q.now cache v)
      | inr e ↦ rw e (answer-LeavesValid q.answer key q.now _ cache v)
    ]

with_address :
    (address : Result Failure (List ℕ × ℤ)) (rest : List ℕ × ℤ → Result Failure Handled)
    → ((a : List ℕ × ℤ) → LeavesValid (rest a))
    → LeavesValid (address >>= rest)
with_address (err e) rest h = tt
with_address (ok a) rest h = h a

handle-LeavesValid :
    (hash : List ℕ → ℕ) (q : Request) (cache : Cache)
    → IsValid cache
    → LeavesValid (handle hash q cache)
unfolding handle
handle-LeavesValid hash q cache v =
    with_address (as_port (split_port (get_host_and_path_from_uri q.uri).0)) _
      (λ a. look_up-LeavesValid (find (hash q.uri) cache) (hash q.uri) q a.0 a.1 _ cache v)

-- Whatever is requested and answered, from a cache that has each key once and at most ten, the
-- proxy's cache has each key once and at most ten, as long as no exception ends the program.
pub run-IsValid :
    (hash : List ℕ → ℕ) (requests : List Request) (cache cache' : Cache) (sent : List Exchange)
    → IsValid cache
    → run hash requests cache ≡ ok (cache', sent)
    → IsValid cache'
unfolding run
run-IsValid hash [] cache cache' sent v e =
    subst IsValid (ap (λ o. o.0) (ok-injective (cache, []) (cache', sent) e)) v
run-IsValid hash (q ∷ requests) cache cache' sent v e =
    let (h, e1, e2) = bind_ok (handle hash q cache) _ e in
    let ((c, s), e3, e4) = bind_ok (run hash requests h.cache) _ e2 in
    let v' =
      run-IsValid hash requests h.cache c s
        (subst LeavesValid e1 (handle-LeavesValid hash q cache v)) e3 in
    subst IsValid (ap (λ o. o.0) (ok-injective (c, (h.sent, h.asked) ∷ s) (cache', sent) e4)) v'

-- The server that a URI names, and its port.
unfoldable pub Names : List ℕ → List ℕ → ℤ → Type 0
unfolding get_host_and_path_from_uri split_port
Names uri host port = as_port (split_port (get_host_and_path_from_uri uri).0) ≡ ok (host, port)

unfoldable pub question : List ℕ → List ℕ → ℤ → Option ℕ → Question
unfolding get_host_and_path_from_uri
question uri host port since = record {
  host = host;
  port = port;
  path = (get_host_and_path_from_uri uri).1;
  since = since;
}

-- A URI that is not in the cache: the server is asked, and what it answers is sent and added.
handle-miss :
    (hash : List ℕ → ℕ) (q : Request) (cache : Cache) (host : List ℕ) (port : ℤ) (r : Response)
    → Names q.uri host port
    → find (hash q.uri) cache ≡ none
    → q.answer ≡ some r
    → is_not_modified r ≡ false
    → handle hash q cache
      ≡ ok (record {
        cache = add (hash q.uri) q.now r cache;
        sent = r.text;
        asked = some (question q.uri host port none);
      })
unfolding handle Names question ask on_response
handle-miss hash q cache host port r names missing answers modified =
    rw names (rw missing (rw answers (rw modified refl)))

-- A fresh entry: its text is sent, and the server is not asked.
handle-hit :
    (hash : List ℕ → ℕ) (q : Request) (cache : Cache) (host : List ℕ) (port : ℤ) (e : CacheEntry)
    → Names q.uri host port
    → find (hash q.uri) cache ≡ some e
    → q.now < e.expiration
    → handle hash q cache
      ≡ ok (record {
        cache = set_last_used (hash q.uri) q.now cache;
        sent = e.response.text;
        asked = none;
      })
unfolding handle Names
handle-hit hash q cache host port e names found fresh =
    rw names (rw found (rw (lt→ltb q.now e.expiration fresh) refl))

-- What is sent for a request, and what the server was asked for.
abbrev pub answered : Result Failure Handled → Option (List ℕ × Option Question)
answered (err e) = none
answered (ok h) = some (h.sent, h.asked)

abbrev pub cache_after : Cache → Result Failure Handled → Cache
cache_after cache (err e) = cache
cache_after cache (ok h) = h.cache

-- When a response that comes at the time `now` expires: at the time of its Expires, without one at
-- that of its Last-Modified, without these at that of its Date, and at once without any of them.
pub data ExpiresAt (now : ℕ) (r : Response) : ℕ → Type 0 where
  by_expires : (t : ℕ) → r.expires ≡ some t → ExpiresAt now r t
  by_last_modified : (t : ℕ) → r.expires ≡ none → r.last_modified ≡ some t → ExpiresAt now r t
  by_date :
      (t : ℕ) → r.expires ≡ none → r.last_modified ≡ none → r.date ≡ some t → ExpiresAt now r t
  at_once : r.expires ≡ none → r.last_modified ≡ none → r.date ≡ none → ExpiresAt now r now

expiration_of-ExpiresAt :
    (now : ℕ) (r : Response) (t : ℕ) → ExpiresAt now r t → expiration_of now r ≡ t
unfolding expiration_of
expiration_of-ExpiresAt now r t (by_expires u e) = rw e refl
expiration_of-ExpiresAt now r t (by_last_modified u e m) = rw (e, m) refl
expiration_of-ExpiresAt now r t (by_date u e m d) = rw (e, m, d) refl
expiration_of-ExpiresAt now r t (at_once e m d) = rw (e, m, d) refl

-- Two requests in a row of one URI that names a server and a port, from a cache that has each key
-- once and at most ten, of which the first finds no entry and gets a response that is not a 304, and the second comes before the time that ExpiresAt gives for it: the server is asked once, without an
-- If-Modified-Since header, and both are sent the response.
pub handle-again :
    (hash : List ℕ → ℕ) (q q' : Request) (cache : Cache) (host : List ℕ) (port : ℤ) (r : Response)
    (t : ℕ)
    → Names q.uri host port
    → q'.uri ≡ q.uri
    → IsValid cache
    → find (hash q.uri) cache ≡ none
    → q.answer ≡ some r
    → is_not_modified r ≡ false
    → ExpiresAt q.now r t
    → q'.now < t
    → (answered (handle hash q cache) ≡ some (r.text, some (question q.uri host port none)))
      × (answered (handle hash q' (cache_after cache (handle hash q cache))) ≡ some (r.text, none))
unfolding new_entry Names
handle-again hash q q' cache host port r t names same v missing answers modified expires fresh =
    let at : expiration_of q.now r ≡ t = expiration_of-ExpiresAt q.now r t expires in
    let first = handle-miss hash q cache host port r names missing answers modified in
    let found = (add-new (hash q.uri) q.now r cache v missing).0 in
    let names' : Names q'.uri host port = subst (λ u. Names u host port) (sym same) names in
    let found' : find (hash q'.uri) (add (hash q.uri) q.now r cache) ≡ some (new_entry q.now r) =
      subst (λ u. find (hash u) (add (hash q.uri) q.now r cache) ≡ some (new_entry q.now r))
        (sym same) found in
    (
      ap answered first,
      ap (λ h. answered (handle hash q' (cache_after cache h))) first
          ∙ ap answered (
              handle-hit hash q' (add (hash q.uri) q.now r cache) host port (new_entry q.now r)
                names' found' (subst (λ u. q'.now < u) (sym at) fresh)),
    )

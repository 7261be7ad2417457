-- ===== src/Proxy/Handler.antt =====
-- The handler of MP4/src/http_proxy.cpp from the request's URI on. The hash of a text is an
-- argument, and so is what the server of a request answers; an exception ends the program.
pub mod Answers
pub mod Staleness
pub mod Sources
use computer_networking_tamu.Base.{
  ℕ, List, [], ◌∷◌, Option, none, some, Bool, true, false, Result, ok, err, ◌>>=◌, or_throw, ltb,
  if◌then◌else◌, ℤ, StoiFailure,
}
use computer_networking_tamu.Http.StatusCode.{
  StatusCode, StatusCodeEnum, not_modified, success, created, accepted, no_content,
  moved_permanently, moved_temporarily, bad_request, unauthorized, forbidden, not_found,
  internal_server_error, not_implemented, bad_gateway, service_unavailable, extension,
}
use computer_networking_tamu.Proxy.Address.{get_host_and_path_from_uri, split_port}
use computer_networking_tamu.Proxy.Cache.{Response, CacheEntry, Cache, find, set_last_used, add}

-- What ends the handler: std::stoi, the client that asks the server, and `at`.
pub data Failure : Type 0 where
  bad_port : StoiFailure → Failure
  no_answer no_entry : Failure

-- A request: its URI, when it comes, and what the server answers if it is asked.
pub record Request : Type 0 where
  pub uri : List ℕ
  pub now : ℕ
  pub answer : Option Response

-- What http::Client is asked for; `since` is the time in an If-Modified-Since header.
pub record Question : Type 0 where
  pub host : List ℕ
  pub port : ℤ
  pub path : List ℕ
  pub since : Option ℕ

pub record Handled : Type 0 where
  pub cache : Cache
  pub sent : List ℕ
  pub asked : Option Question

unfoldable pub is_not_modified : Response → Bool
is_not_modified r = elim r.status_code.code [ not_modified ↦ true | _ ↦ false ]

abbrev pub as_port {ℓ} : {A : Type ℓ} → Result StoiFailure A → Result Failure A
as_port (ok a) = ok a
as_port (err e) = err (bad_port e)

-- A 304: the entry is used again.
abbrev pub serve_from_cache : Option CacheEntry → ℕ → ℕ → Question → Cache → Result Failure Handled
serve_from_cache none key now question cache = err no_entry
serve_from_cache (some entry) key now question cache = ok (record {
  cache = set_last_used key now cache;
  sent = entry.response.text;
  asked = some question;
})

-- What follows the answer of the server.
unfoldable pub on_response : ℕ → ℕ → Question → Cache → Response → Result Failure Handled
unfolding is_not_modified find set_last_used add
on_response key now question cache r =
    if is_not_modified r
    then serve_from_cache (find key cache) key now question cache
    else ok (record { cache = add key now r cache; sent = r.text; asked = some question })

unfoldable pub ask : ℕ → Request → List ℕ → ℤ → List ℕ → Option ℕ → Cache → Result Failure Handled
unfolding on_response
ask key q host port path since cache =
    or_throw q.answer no_answer
    >>= on_response key q.now (record { host = host; port = port; path = path; since = since })
        cache

-- The three cases of the entry: there and fresh, there and stale, missing.
abbrev pub look_up :
    Option CacheEntry → ℕ → Request → List ℕ → ℤ → List ℕ → Cache → Result Failure Handled
look_up none key q host port path cache = ask key q host port path none cache
look_up (some entry) key q host port path cache =
    if ltb q.now entry.expiration
    then ok
        (record { cache = set_last_used key q.now cache; sent = entry.response.text; asked = none })
    else ask key q host port path (some entry.expiration) cache

unfoldable pub handle : (List ℕ → ℕ) → Request → Cache → Result Failure Handled
unfolding get_host_and_path_from_uri split_port find ask
handle hash q cache = do
  (host, port) ← as_port (split_port (get_host_and_path_from_uri q.uri).0)
  look_up (find (hash q.uri) cache) (hash q.uri) q host port (get_host_and_path_from_uri q.uri).1
      cache

-- What was sent for a request, and what its server was asked for.
abbrev pub Exchange : Type 0
Exchange = List ℕ × Option Question

-- Requests in a row: the cache behind them, and the exchange of each.
unfoldable pub run : (List ℕ → ℕ) → List Request → Cache → Result Failure (Cache × List Exchange)
unfolding handle
run hash [] cache = ok (cache, [])
run hash (q ∷ requests) cache = do
  handled ← handle hash q cache
  (cache', sent) ← run hash requests handled.cache
  ok (cache', (handled.sent, handled.asked) ∷ sent)

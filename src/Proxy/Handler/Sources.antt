-- ===== src/Proxy/Handler/Sources.antt =====
-- Where the texts that the proxy sends come from.
use mathlib.Core.List.{Mem, mem-cons_self, mem-cons_of_mem}
use computer_networking_tamu.Base.{
  ℕ, ◌≡◌, refl, ap, subst, sym, List, [], ◌∷◌, Option, none, some, arith, Result, ok, err, ◌>>=◌,
  or_throw, ltb, Bool-cases, inl, inr, bind_ok, ok-injective, ℤ,
}
use computer_networking_tamu.Proxy.Address.{get_host_and_path_from_uri, split_port}
use computer_networking_tamu.Proxy.Cache.{Response, CacheEntry, Cache, find, set_last_used, add}
use computer_networking_tamu.Proxy.Cache.Keys.{HasDistinctKeys}
use computer_networking_tamu.Proxy.Cache.Adding.{
  IsValid, found_used, found_added, add-IsValid, set_last_used-IsValid,
}
use computer_networking_tamu.Proxy.Handler.{
  Failure, no_answer, Exchange, Request, Question, Handled, is_not_modified, as_port,
  serve_from_cache, on_response, ask, look_up, handle, run,
}

-- The requests for which a server was asked, `seen`, once a request `q` is handled too.
abbrev pub asked_for : Request → Option Question → List Request → List Request
asked_for q none seen = seen
asked_for q (some question) seen = q ∷ seen

-- A response that a server gave for one of the requests that it was asked for, one whose URI has the
-- hash `key`.
pub record Given (hash : List ℕ → ℕ) (seen : List Request) (key : ℕ) (r : Response) : Type 0 where
  pub request : Request
  pub listed : Mem request seen
  pub same_hash : hash request.uri ≡ key
  pub answer : request.answer ≡ some r

-- Every entry of the cache holds such a response.
pub record IsSourced (hash : List ℕ → ℕ) (seen : List Request) (cache : Cache) : Type 0 where
  pub valid : IsValid cache
  pub source : (j : ℕ) (e : CacheEntry) → find j cache ≡ some e → Given hash seen j e.response

-- A request that was handled: the cache behind it, and the text that was sent.
pub record IsAnswer (hash : List ℕ → ℕ) (seen : List Request) (key : ℕ) (text : List ℕ)
    : Type 0 where
  pub response : Response
  pub given : Given hash seen key response
  pub sends : response.text ≡ text

-- What is sent and kept comes from servers that were asked, for this request or before it.
abbrev Handles : (List ℕ → ℕ) → List Request → Request → Result Failure Handled → Type 0
Handles hash seen q (err e) = Unit
Handles hash seen q (ok h) =
    IsSourced hash (asked_for q h.asked seen) h.cache
    × IsAnswer hash (asked_for q h.asked seen) (hash q.uri) h.sent

used-IsSourced :
    (hash : List ℕ → ℕ) (seen : List Request) (key now : ℕ) (cache : Cache)
    → IsSourced hash seen cache
    → IsSourced hash seen (set_last_used key now cache)
used-IsSourced hash seen key now cache s = record {
  valid = set_last_used-IsValid key now cache s.valid;
  source = λ j e h.
      let (old, there, same) = found_used key now j cache e h in
      subst (Given hash seen j) same (s.source j old there);
}

added-IsSourced :
    (hash : List ℕ → ℕ) (seen : List Request) (key now : ℕ) (r : Response) (cache : Cache)
    → Given hash seen key r
    → IsSourced hash seen cache
    → IsSourced hash seen (add key now r cache)
added-IsSourced hash seen key now r cache g s = record {
  valid = add-IsValid key now r cache s.valid;
  source = λ j e h. elim (found_added key now r j cache e s.valid h) [
    | inl (k, same) ↦
        subst (Given hash seen j) (sym same) (subst (λ i. Given hash seen i r) (sym k) g)
    | inr there ↦ s.source j e there
  ];
}

-- What is sent from an entry, whichever branch sends it.
entry-Handles :
    (hash : List ℕ → ℕ) (seen : List Request) (q : Request) (asked : Option Question)
    (cache : Cache) (e : CacheEntry)
    → IsSourced hash (asked_for q asked seen) cache
    → find (hash q.uri) cache ≡ some e
    → Handles hash seen q (
        ok (record {
          cache = set_last_used (hash q.uri) q.now cache;
          sent = e.response.text;
          asked = asked;
        }))
entry-Handles hash seen q asked cache e s found = (
  used-IsSourced hash (asked_for q asked seen) (hash q.uri) q.now cache s,
  record { response = e.response; given = s.source (hash q.uri) e found; sends = refl },
)

from_cache-Handles :
    (hash : List ℕ → ℕ) (seen : List Request) (found : Option CacheEntry) (q : Request)
    (question : Question) (cache : Cache)
    → IsSourced hash (q ∷ seen) cache
    → find (hash q.uri) cache ≡ found
    → Handles hash seen q (serve_from_cache found (hash q.uri) q.now question cache)
from_cache-Handles hash seen none q question cache s e = tt
from_cache-Handles hash seen (some entry) q question cache s e =
    entry-Handles hash seen q (some question) cache entry s e

on_response-Handles :
    (hash : List ℕ → ℕ) (seen : List Request) (q : Request) (question : Question) (cache : Cache)
    (r : Response)
    → q.answer ≡ some r
    → IsSourced hash (q ∷ seen) cache
    → Handles hash seen q (on_response (hash q.uri) q.now question cache r)
unfolding on_response
on_response-Handles hash seen q question cache r a s =
    let g : Given hash (q ∷ seen) (hash q.uri) r = record {
      request = q;
      listed = mem-cons_self;
      same_hash = refl;
      answer = a;
    } in
    elim (Bool-cases (is_not_modified r)) [
      | inl e ↦
          rw e (from_cache-Handles hash seen (find (hash q.uri) cache) q question cache s refl)
      | inr e ↦ rw e (
        added-IsSourced hash (q ∷ seen) (hash q.uri) q.now r cache g s,
        record { response = r; given = g; sends = refl },
      )
    ]

one_more :
    (hash : List ℕ → ℕ) (seen : List Request) (q : Request) (cache : Cache)
    → IsSourced hash seen cache
    → IsSourced hash (q ∷ seen) cache
one_more hash seen q cache s = record {
  valid = s.valid;
  source = λ j e h.
      let g = s.source j e h in
      record {
        request = g.request;
        listed = mem-cons_of_mem q g.listed;
        same_hash = g.same_hash;
        answer = g.answer;
      };
}

answer-Handles :
    (hash : List ℕ → ℕ) (seen : List Request) (answer : Option Response) (q : Request)
    (question : Question) (cache : Cache)
    → q.answer ≡ answer
    → IsSourced hash seen cache
    → Handles hash seen q
        (or_throw answer no_answer >>= on_response (hash q.uri) q.now question cache)
answer-Handles hash seen none q question cache a s = tt
answer-Handles hash seen (some r) q question cache a s =
    on_response-Handles hash seen q question cache r a (one_more hash seen q cache s)

look_up-Handles :
    (hash : List ℕ → ℕ) (seen : List Request) (found : Option CacheEntry) (q : Request)
    (host : List ℕ) (port : ℤ) (path : List ℕ) (cache : Cache)
    → IsSourced hash seen cache
    → find (hash q.uri) cache ≡ found
    → Handles hash seen q (look_up found (hash q.uri) q host port path cache)
unfolding ask
look_up-Handles hash seen none q host port path cache s e =
    answer-Handles hash seen q.answer q _ cache refl s
look_up-Handles hash seen (some entry) q host port path cache s e =
    elim (Bool-cases (ltb q.now entry.expiration)) [
      | inl fresh ↦ rw fresh (entry-Handles hash seen q none cache entry s e)
      | inr stale ↦ rw stale (answer-Handles hash seen q.answer q _ cache refl s)
    ]

with_address :
    (hash : List ℕ → ℕ) (seen : List Request) (q : Request) (address : Result Failure (List ℕ × ℤ))
    (rest : List ℕ × ℤ → Result Failure Handled)
    → ((a : List ℕ × ℤ) → Handles hash seen q (rest a))
    → Handles hash seen q (address >>= rest)
with_address hash seen q (err e) rest h = tt
with_address hash seen q (ok a) rest h = h a

handle-Handles :
    (hash : List ℕ → ℕ) (seen : List Request) (q : Request) (cache : Cache)
    → IsSourced hash seen cache
    → Handles hash seen q (handle hash q cache)
unfolding handle
handle-Handles hash seen q cache s =
    with_address hash seen q (as_port (split_port (get_host_and_path_from_uri q.uri).0)) _
      (λ a. look_up-Handles hash seen (find (hash q.uri) cache) q a.0 a.1 _ cache s refl)

-- Each text was the text of a response that a server gave: it was asked for this request or for an
-- earlier one, whose URI has the same hash. `seen` holds the requests for which a server was asked.
pub data AreAnswers (hash : List ℕ → ℕ) : List Request → List Request → List Exchange → Type 0 where
  no_more : (seen : List Request) → AreAnswers hash seen [] []
  answer_of :
      (seen : List Request) (q : Request) (requests : List Request) (text : List ℕ)
      (asked : Option Question) (sent : List Exchange)
      → IsAnswer hash (asked_for q asked seen) (hash q.uri) text
      → AreAnswers hash (asked_for q asked seen) requests sent
      → AreAnswers hash seen (q ∷ requests) ((text, asked) ∷ sent)

run-AreAnswers :
    (hash : List ℕ → ℕ) (seen requests : List Request) (cache cache' : Cache) (sent : List Exchange)
    → IsSourced hash seen cache
    → run hash requests cache ≡ ok (cache', sent)
    → AreAnswers hash seen requests sent
unfolding run
run-AreAnswers hash seen [] cache cache' sent s e =
    subst (AreAnswers hash seen []) (ap (λ o. o.1) (ok-injective (cache, []) (cache', sent) e))
      (no_more seen)
run-AreAnswers hash seen (q ∷ requests) cache cache' sent s e =
    let (h, e1, e2) = bind_ok (handle hash q cache) _ e in
    let ((c, texts), e3, e4) = bind_ok (run hash requests h.cache) _ e2 in
    let (s', a) = subst (Handles hash seen q) e1 (handle-Handles hash seen q cache s) in
    subst (AreAnswers hash seen (q ∷ requests))
      (ap (λ o. o.1) (ok-injective (c, (h.sent, h.asked) ∷ texts) (cache', sent) e4))
      (answer_of seen q requests h.sent h.asked texts a
        (run-AreAnswers hash (asked_for q h.asked seen) requests h.cache c texts s' e3))

empty-IsSourced : (hash : List ℕ → ℕ) → IsSourced hash [] []
unfolding HasDistinctKeys find
empty-IsSourced hash = record {
  valid = record { distinct = tt; bounded = omega arith };
  source = λ j e h. absurd cc;
}

-- From an empty cache, as long as no exception ends the program: each text that the proxy sends,
-- from the cache or not, is the text of a response that a server gave when it was asked, for this
-- request or an earlier one, whose URI has the same hash; a request that the cache answers asks no
-- server, and counts for nothing here.
pub run-sources :
    (hash : List ℕ → ℕ) (requests : List Request) (cache : Cache) (sent : List Exchange)
    → run hash requests [] ≡ ok (cache, sent)
    → AreAnswers hash [] requests sent
run-sources hash requests cache sent e =
    run-AreAnswers hash [] requests [] cache sent (empty-IsSourced hash) e

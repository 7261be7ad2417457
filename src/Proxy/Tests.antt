-- ===== src/Proxy/Tests.antt =====
-- Runs of the proxy at fixed inputs.
use computer_networking_tamu.Base.{
  ℕ, ◌≡◌, ◌++◌, refl, List, [], ◌∷◌, none, some, false, ok, ascii, arith, length, pos, digits,
}
use computer_networking_tamu.Http.StatusCode.{StatusCode, success}
use computer_networking_tamu.Proxy.Address.{get_host_and_path_from_uri, split_port}
use computer_networking_tamu.Proxy.Address.Parsing.{address-port}
use computer_networking_tamu.Proxy.Cache.{Response, Cache, find}
use computer_networking_tamu.Proxy.Cache.Keys.{HasDistinctKeys}
use computer_networking_tamu.Proxy.Cache.Adding.{IsValid}
use computer_networking_tamu.Proxy.Handler.{Exchange, Request, is_not_modified, handle, run}
use computer_networking_tamu.Proxy.Handler.Answers.{
  by_expires, Names, question, answered, cache_after, handle-again, run-IsValid,
}
use computer_networking_tamu.Proxy.Handler.Staleness.{visit, run-stale}
use computer_networking_tamu.Proxy.Handler.Sources.{AreAnswers, run-sources}

address-port_example :
    (split_port
        (get_host_and_path_from_uri
          (ascii "http://" ++ ((ascii "tamu.edu" ++ (58 ∷ digits 8080)) ++ (47 ∷ ascii "a")))).0
      ≡ ok (ascii "tamu.edu", pos 8080))
    × ((get_host_and_path_from_uri
          (ascii "http://" ++ ((ascii "tamu.edu" ++ (58 ∷ digits 8080)) ++ (47 ∷ ascii "a")))).1
        ≡ 47 ∷ ascii "a")
address-port_example =
    address-port (ascii "tamu.edu") (ascii "a") 8080
      (
        (λ e. omega arith),
        (
          (λ e. omega arith),
          (
            (λ e. omega arith),
            (
              (λ e. omega arith),
              (
                (λ e. omega arith),
                ((λ e. omega arith), ((λ e. omega arith), ((λ e. omega arith), tt))),
              ),
            ),
          ),
        ),
      )
      (omega arith)

abbrev uri : List ℕ
uri = ascii "http://a.b/c"

abbrev ok_code : StatusCode
ok_code = record { code = success; extension_code = none }

abbrev page : Response
page = record {
  status_code = ok_code;
  expires = some 50;
  last_modified = none;
  date = none;
  text = ascii "page";
}

abbrev first : Request
first = record { uri = uri; now = 10; answer = some page }

abbrev again : Request
again = record { uri = uri; now = 20; answer = none }

-- Any hash.
abbrev hash : List ℕ → ℕ
hash s = length s

names : Names uri (ascii "a.b") (pos 80)
unfolding Names
names = refl

empty-IsValid : IsValid []
unfolding HasDistinctKeys
empty-IsValid = record { distinct = tt; bounded = omega arith }

missing : find 12 [] ≡ none
unfolding find
missing = refl

modified : is_not_modified page ≡ false
unfolding is_not_modified
modified = refl

handle-again_example :
    (answered (handle hash first [])
      ≡ some (ascii "page", some (question uri (ascii "a.b") (pos 80) none)))
    × (answered (handle hash again (cache_after [] (handle hash first [])))
        ≡ some (ascii "page", none))
handle-again_example =
    handle-again hash first again [] (ascii "a.b") (pos 80) page 50 names refl empty-IsValid missing
      refl modified (by_expires 50 refl) (omega arith)

abbrev kept : Cache
kept = (12, record { last_used = 20; expiration = 50; response = page }) ∷ []

abbrev exchanges : List Exchange
exchanges =
    (ascii "page", some (question uri (ascii "a.b") (pos 80) none)) ∷ (ascii "page", none) ∷ []

ran : run hash (first ∷ again ∷ []) [] ≡ ok (kept, exchanges)
unfolding run handle question
ran = refl

run-IsValid_example : IsValid kept
run-IsValid_example = run-IsValid hash (first ∷ again ∷ []) [] kept exchanges empty-IsValid ran

run-sources_example : AreAnswers hash [] (first ∷ again ∷ []) exchanges
run-sources_example = run-sources hash (first ∷ again ∷ []) kept exchanges ran

found : find 12 kept ≡ some (record { last_used = 20; expiration = 50; response = page })
unfolding find
found = refl

run-stale_example :
    run hash (visit uri (60, page) ∷ visit uri (70, page) ∷ []) kept
    ≡ ok (
      kept,
      (ascii "page", some (question uri (ascii "a.b") (pos 80) (some 50)))
          ∷ (ascii "page", some (question uri (ascii "a.b") (pos 80) (some 50)))
          ∷ [],
    )
run-stale_example =
    run-stale hash uri ((60, page) ∷ (70, page) ∷ []) kept (ascii "a.b") (pos 80)
      (record { last_used = 20; expiration = 50; response = page }) names found (omega arith)
      ((omega arith, modified), ((omega arith, modified), tt))

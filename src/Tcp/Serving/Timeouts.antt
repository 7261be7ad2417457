-- ===== src/Tcp/Serving/Timeouts.antt =====
-- When the server of libtcp gives up waiting.
use computer_networking_tamu.Base.{
  ℕ, ◌<◌, ◌≡◌, refl, List, [], ◌∷◌, map, Option, none, some, Bool, true, false, All, if◌then◌else◌,
  ◌∙◌,
}
use computer_networking_tamu.Tcp.Configuration.{Server}
use computer_networking_tamu.Tcp.Serving.{
  Action, Next, goes_on, stops, Selected, Round, step, preceded, resume, run,
}
use computer_networking_tamu.Tcp.Serving.Invariant.{IsServing}
use computer_networking_tamu.Tcp.Serving.Counting.{
  counted, Continues, Counts, Follows, step-Follows,
}

abbrev pub next_of : Option (Server × List Action × Next) → Option Next
next_of none = none
next_of (some (s, actions, next)) = some next

next_of-preceded :
    (actions : List Action) (r : Option (Server × List Action × Next))
    → next_of (preceded actions r) ≡ next_of r
next_of-preceded actions none = refl
next_of-preceded actions (some r) = refl

abbrev pub ends_with : Option ℕ → (ℕ → Bool) → Bool
ends_with none later = true
ends_with (some count) later = later count

-- Whether the loop ends: select fails, or `limit` timeouts come in a row, where an interruption
-- does not count and a connection starts the row again.
abbrev pub gives_up : ℕ → ℕ → List Selected → Bool
gives_up limit count [] = false
gives_up limit count (selected ∷ rest) =
    ends_with (counted limit selected count) (λ n. gives_up limit n rest)

module _ (max : ℕ) (handlers : List ℕ) (threads : Bool) (limit timeout : ℕ)
    (small : limit < 4294967296) where
  -- What the rest of the loop does, behind a round.
  abbrev Goes : (Server → Option (Server × List Action × Next)) → List Selected → Type 0
  Goes rest selecteds =
      (s : Server) (count : ℕ)
      → count < limit
      → Counts max handlers threads limit timeout count s
      → next_of (rest s) ≡ some (if gives_up limit count selecteds then stops else goes_on)

  resume-Follows :
      (fd : ℕ) (o : Option ℕ) (selecteds : List Selected)
      (result : Option (Server × List Action × Next))
      (rest : Server → Option (Server × List Action × Next))
      → Follows max handlers threads limit timeout small o result
      → Goes rest selecteds
      → next_of (resume fd rest result)
        ≡ some (if ends_with o (λ n. gives_up limit n selecteds) then stops else goes_on)
  unfolding resume
  resume-Follows fd o selecteds none rest f g = absurd f
  resume-Follows fd none selecteds (some (s, actions, next)) rest f g = rw f refl
  resume-Follows fd (some count) selecteds (some (s, actions, next)) rest f g =
      rw f.0 (next_of-preceded actions (rest s) ∙ g s count f.1.0 f.1.1)

  run-Goes :
      (fd : ℕ) (rounds : List Round)
      → 0 < timeout
      → All (λ r. Continues threads r.incoming.fork) rounds
      → Goes (run fd rounds) (map (λ r. r.selected) rounds)
  unfolding run
  run-Goes fd [] waits h s count room c = refl
  run-Goes fd (r ∷ rounds) waits h s count room c =
      resume-Follows fd (counted limit r.selected count) (map (λ r. r.selected) rounds)
        (step fd r s) (run fd rounds)
        (step-Follows max handlers threads limit timeout small fd r s count waits h.0 room c)
        (run-Goes fd rounds waits h.1)

-- A server with clients within its limit, a handler to call next, a timeout and a limit on timeouts,
-- of 32 bits, that has counted fewer than the limit, in the parent's process and without an exception
-- from the creation of a thread. Over any rounds its loop ends exactly when select fails or the
-- limit's number of timeouts comes in a row, on from its count, where an interruption neither counts
-- nor breaks the row and a connection breaks it.
pub run-timeouts :
    (max : ℕ) (handlers : List ℕ) (fd : ℕ) (rounds : List Round) (s : Server)
    → IsServing max handlers s.client_handler
    → All (λ r. Continues s.client_handler.use_thread r.incoming.fork) rounds
    → 0 < s.timeout
    → s.timeout_count < s.max_timeouts
    → s.max_timeouts < 4294967296
    → next_of (run fd rounds s)
      ≡ some (
          if gives_up s.max_timeouts s.timeout_count (map (λ r. r.selected) rounds)
          then stops
          else goes_on)
run-timeouts max handlers fd rounds s v h waits room small =
    run-Goes max handlers s.client_handler.use_thread s.max_timeouts s.timeout small fd rounds waits
      h s s.timeout_count room
      (record {
        handles = record { serving = v; threading = refl };
        limited = refl;
        timed = refl;
        has_count = refl;
      })

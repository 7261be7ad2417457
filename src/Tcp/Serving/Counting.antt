-- ===== src/Tcp/Serving/Counting.antt =====
-- One round of the server of libtcp: what it does to the count of timeouts.
use computer_networking_tamu.Base.{
  ℕ, ◌+◌, ◌%◌, ◌<◌, ◌≡◌, refl, List, Option, none, some, Bool, false, leb, Bool-cases, inl, inr,
  arith, if◌then◌else◌, lt→ltb, ◌∙◌, subst, sym,
}
use computer_networking_tamu.Tcp.Processes.{
  Fork, fork_failed, in_child, in_parent, HandleMode, round_robin, random,
}
use computer_networking_tamu.Tcp.Configuration.{ClientHandler, Server}
use computer_networking_tamu.Tcp.Serving.{
  Action, Next, goes_on, stops, Incoming, Selected, select_interrupted, select_failed, timed_out,
  ready, Round, reap, advance, advance_in, connected, accept_with, accept, with_handler, on_ready,
  on_timeout, on_selected, step,
}
use computer_networking_tamu.Tcp.Serving.Invariant.{
  IsServing, reap-IsServing, advance-IsServing, connected-IsServing, pick-some,
}

-- The timeouts in a row behind a call of select; `none` is the end of the loop.
abbrev pub counted : ℕ → Selected → ℕ → Option ℕ
counted limit select_interrupted count = some count
counted limit select_failed count = none
counted limit timed_out count = if leb limit (count + 1) then none else some (count + 1)
counted limit ready count = some 0

-- The process is the parent, and if it is a thread that is created, that succeeds.
abbrev pub Continues : Bool → Fork → Type 0
Continues threads fork_failed = threads ≡ false
Continues threads in_child = ⊥
Continues threads (in_parent pid) = Unit

less : (limit count : ℕ) → leb limit (count + 1) ≡ false → count + 1 < limit
less limit count e = ground arith

-- Clients within their limit and a handler to call next, in threads or in processes.
pub record Handles (max : ℕ) (handlers : List ℕ) (threads : Bool) (h : ClientHandler) : Type 0 where
  pub serving : IsServing max handlers h
  pub threading : h.use_thread ≡ threads

-- A server between two rounds, with its limit, its timeout and its count.
pub record Counts (max : ℕ) (handlers : List ℕ) (threads : Bool) (limit timeout count : ℕ)
    (s : Server) : Type 0 where
  pub handles : Handles max handlers threads s.client_handler
  pub limited : s.max_timeouts ≡ limit
  pub timed : s.timeout ≡ timeout
  pub has_count : s.timeout_count ≡ count

advance_in_threading :
    (mode : HandleMode) (h : ClientHandler) → (advance_in mode h).use_thread ≡ h.use_thread
advance_in_threading round_robin h = refl
advance_in_threading random h = refl

connected_threading :
    (fd : ℕ) (fork : Fork) (f client : ℕ) (h : ClientHandler)
    → (connected fd fork f client h).0.use_thread ≡ h.use_thread
unfolding connected
connected_threading fd fork_failed f client h = ground arith
connected_threading fd in_child f client h = ground arith
connected_threading fd (in_parent pid) f client h = ground arith

connected-goes_on :
    (fd : ℕ) (fork : Fork) (f client : ℕ) (h : ClientHandler)
    → Continues h.use_thread fork
    → (connected fd fork f client h).2 ≡ goes_on
unfolding connected
connected-goes_on fd fork_failed f client h e = ground arith
connected-goes_on fd in_child f client h e = absurd e
connected-goes_on fd (in_parent pid) f client h e = ground arith

module _ (max : ℕ) (handlers : List ℕ) (threads : Bool) where
  advance-Handles :
      (h : ClientHandler)
      → Handles max handlers threads h
      → Handles max handlers threads (advance h)
  unfolding advance
  advance-Handles h v = record {
    serving = advance-IsServing max handlers h v.serving;
    threading = advance_in_threading h.mode h ∙ v.threading;
  }

module _ (max : ℕ) (handlers : List ℕ) (threads : Bool) (limit timeout : ℕ)
    (small : limit < 4294967296) where
  -- A result of a round that leaves the count, or ends the loop.
  abbrev pub Follows : Option ℕ → Option (Server × List Action × Next) → Type 0
  Follows o none = ⊥
  Follows none (some (s, actions, next)) = next ≡ stops
  Follows (some count) (some (s, actions, next)) =
      (next ≡ goes_on) × ((count < limit) × Counts max handlers threads limit timeout count s)

  abbrev Accepts : Option (ClientHandler × List Action × Next) → Type 0
  Accepts none = ⊥
  Accepts (some (h, actions, next)) = (next ≡ goes_on) × Handles max handlers threads h

  accept_with-Accepts :
      (fd : ℕ) (fork : Fork) (f : ℕ) (connection : Option ℕ) (h : ClientHandler)
      → Continues threads fork
      → Handles max handlers threads h
      → Accepts (accept_with fd fork (some f) connection h)
  unfolding accept_with
  accept_with-Accepts fd fork f none h go v = (refl, advance-Handles max handlers threads h v)
  accept_with-Accepts fd fork f (some client) h go v =
      let w = advance-Handles max handlers threads h v in
      (
        connected-goes_on fd fork f client (advance h)
            (subst (λ t. Continues t fork) (sym w.threading) go),
        record {
          serving = connected-IsServing max handlers fd fork f client (advance h) w.serving;
          threading = connected_threading fd fork f client (advance h) ∙ w.threading;
        },
      )

  accept-Accepts :
      (fd : ℕ) (incoming : Incoming) (h : ClientHandler)
      → Continues threads incoming.fork
      → Handles max handlers threads h
      → Accepts (accept fd incoming h)
  unfolding accept
  accept-Accepts fd incoming h ok_ v =
      let reaped = reap incoming.waits h in
      let w = reap-IsServing max handlers incoming.waits h v.serving in
      let (f, picked) = pick-some max handlers incoming.random_number reaped w in
      subst (λ o. Accepts (accept_with fd incoming.fork o incoming.connection reaped)) (sym picked)
        (accept_with-Accepts fd incoming.fork f incoming.connection reaped ok_
          (record { serving = w; threading = v.threading }))

  with_handler-Follows :
      (s : Server) (count : ℕ) (result : Option (ClientHandler × List Action × Next))
      → Accepts result
      → 0 < limit
      → Counts max handlers threads limit timeout count s
      → Follows (some 0) (with_handler s result)
  with_handler-Follows s count none a room c = a
  with_handler-Follows s count (some (h, actions, next)) (e, v) room c =
      (e, (room, record { handles = v; limited = c.limited; timed = c.timed; has_count = refl }))

  on_timeout-Follows :
      (s : Server) (count : ℕ)
      → count < limit
      → Counts max handlers threads limit timeout count s
      → Follows (counted limit timed_out count) (some (on_timeout s))
  unfolding on_timeout
  on_timeout-Follows s count room c =
      let n : (s.timeout_count + 1) % 4294967296 ≡ count + 1 = omega (arith, c.has_count) in
      let positive = lt→ltb 0 limit (omega arith) in
      elim (Bool-cases (leb limit (count + 1))) [
        | inl full ↦ rw full (rw c.limited (rw n (rw positive (rw full refl))))
        | inr open_ ↦ rw open_ (
          (rw c.limited (rw n (rw positive (rw open_ refl)))),
          (
            less limit count open_,
            record { handles = c.handles; limited = c.limited; timed = c.timed; has_count = n },
          ),
        )
      ]

  on_selected-Follows :
      (fd : ℕ) (selected : Selected) (incoming : Incoming) (s : Server) (count : ℕ)
      → Continues threads incoming.fork
      → count < limit
      → Counts max handlers threads limit timeout count s
      → Follows (counted limit selected count) (on_selected fd selected incoming s)
  unfolding on_selected on_ready
  on_selected-Follows fd select_interrupted incoming s count ok_ room c = (refl, (room, c))
  on_selected-Follows fd select_failed incoming s count ok_ room c = refl
  on_selected-Follows fd timed_out incoming s count ok_ room c = on_timeout-Follows s count room c
  on_selected-Follows fd ready incoming s count ok_ room c =
      with_handler-Follows s count (accept fd incoming s.client_handler)
        (accept-Accepts fd incoming s.client_handler ok_ c.handles) (omega arith) c

  pub step-Follows :
      (fd : ℕ) (r : Round) (s : Server) (count : ℕ)
      → 0 < timeout
      → Continues threads r.incoming.fork
      → count < limit
      → Counts max handlers threads limit timeout count s
      → Follows (counted limit r.selected count) (step fd r s)
  unfolding step
  step-Follows fd r s count waits ok_ room c =
      let time : 0 < s.timeout = subst (λ t. 0 < t) (sym c.timed) waits in
      rw (lt→ltb 0 s.timeout time) (
        on_selected-Follows fd r.selected r.incoming
          (record s { client_handler = reap r.waits s.client_handler }) count ok_ room
          (record {
            handles = record {
              serving = reap-IsServing max handlers r.waits s.client_handler c.handles.serving;
              threading = c.handles.threading;
            };
            limited = c.limited;
            timed = c.timed;
            has_count = c.has_count;
          }))

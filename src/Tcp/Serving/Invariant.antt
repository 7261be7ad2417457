-- ===== src/Tcp/Serving/Invariant.antt =====
-- What holds of a server between two rounds of its loop.
use native.Mathlib.Nat.{mod-lt}
use computer_networking_tamu.Base.{
  get_elem?-some, ℕ, ◌%◌, ◌≤◌, ◌<◌, ◌≡◌, List, [], ◌∷◌, Option, none, some, length, length-append,
  ltb, Bool-cases, subst, sym, inl, inr, arith,
}
use computer_networking_tamu.Tcp.Processes.{
  Fork, fork_failed, in_child, in_parent, Wait, HandleMode, round_robin, random,
}
use computer_networking_tamu.Tcp.Processes.Laws.{length-reap_clients}
use computer_networking_tamu.Tcp.Configuration.{ClientHandler, Server}
use computer_networking_tamu.Tcp.Serving.{
  Action, Next, goes_on, stops, exits, aborts, Incoming, reap, pick, pick_in, advance, advance_in,
  connected, accept, accept_with, with_handler, preceded, Selected, select_interrupted,
  select_failed, timed_out, ready, Round, on_timeout, on_ready, on_selected, step, finish, run,
  resume,
}

-- At most `max_clients` client processes, and a handler to call next.
pub record IsServing (max : ℕ) (handlers : List ℕ) (h : ClientHandler) : Type 0 where
  pub limit : h.max_clients ≡ max
  pub same : h.handlers ≡ handlers
  pub bounded : length h.clients ≤ h.max_clients
  pub current : h.current_handler < length h.handlers

module _ (max : ℕ) (handlers : List ℕ) where
  pub reap-IsServing :
      (waits : List Wait) (h : ClientHandler)
      → IsServing max handlers h
      → IsServing max handlers (reap waits h)
  reap-IsServing waits h v = record {
    limit = v.limit;
    same = v.same;
    bounded = omega (arith, length-reap_clients waits h.clients, v.bounded);
    current = v.current;
  }

  advance_in-IsServing :
      (mode : HandleMode) (h : ClientHandler)
      → IsServing max handlers h
      → IsServing max handlers (advance_in mode h)
  advance_in-IsServing round_robin h v = record {
    limit = v.limit;
    same = v.same;
    bounded = v.bounded;
    current = mod-lt _ (omega arith);
  }
  advance_in-IsServing random h v = v

  pub advance-IsServing :
      (h : ClientHandler) → IsServing max handlers h → IsServing max handlers (advance h)
  unfolding advance
  advance-IsServing h v = advance_in-IsServing h.mode h v

  pub connected-IsServing :
      (fd : ℕ) (fork : Fork) (handler client : ℕ) (h : ClientHandler)
      → IsServing max handlers h
      → IsServing max handlers (connected fd fork handler client h).0
  unfolding connected
  connected-IsServing fd fork_failed handler client h v = ground arith
  connected-IsServing fd in_child handler client h v = ground arith
  connected-IsServing fd (in_parent pid) handler client h v =
      ground (arith, length-append h.clients (pid ∷ []))

  pick_in-some :
      (mode : HandleMode) (number : ℕ) (h : ClientHandler)
      → IsServing max handlers h
      → (f : ℕ) × (pick_in mode number h ≡ some f)
  pick_in-some round_robin number h v = get_elem?-some h.handlers h.current_handler v.current
  pick_in-some random number h v =
      get_elem?-some h.handlers (number % length h.handlers) (mod-lt number (omega arith))

  pub pick-some :
      (number : ℕ) (h : ClientHandler)
      → IsServing max handlers h
      → (f : ℕ) × (pick number h ≡ some f)
  unfolding pick
  pick-some number h v = pick_in-some h.mode number h v

  -- A result of accept, and one of the loop's parts, of a server that goes on as it should.
  abbrev Accepts : Option (ClientHandler × List Action × Next) → Type 0
  Accepts none = ⊥
  Accepts (some result) = IsServing max handlers result.0

  abbrev pub Serves : Option (Server × List Action × Next) → Type 0
  Serves none = ⊥
  Serves (some result) = IsServing max handlers result.0.client_handler

  accept_with-Accepts :
      (fd : ℕ) (fork : Fork) (f : ℕ) (connection : Option ℕ) (h : ClientHandler)
      → IsServing max handlers h
      → Accepts (accept_with fd fork (some f) connection h)
  unfolding accept_with
  accept_with-Accepts fd fork f none h v = advance-IsServing h v
  accept_with-Accepts fd fork f (some client) h v =
      connected-IsServing fd fork f client (advance h) (advance-IsServing h v)

  accept-Accepts :
      (fd : ℕ) (incoming : Incoming) (h : ClientHandler)
      → IsServing max handlers h
      → Accepts (accept fd incoming h)
  unfolding accept
  accept-Accepts fd incoming h v =
      let reaped = reap incoming.waits h in
      let w = reap-IsServing incoming.waits h v in
      let (f, picked) = pick-some incoming.random_number reaped w in
      subst (λ o. Accepts (accept_with fd incoming.fork o incoming.connection reaped)) (sym picked)
        (accept_with-Accepts fd incoming.fork f incoming.connection reaped w)

  with_handler-Serves :
      (s : Server) (result : Option (ClientHandler × List Action × Next))
      → Accepts result
      → Serves (with_handler s result)
  with_handler-Serves s none v = v
  with_handler-Serves s (some result) v = v

  on_ready-Serves :
      (fd : ℕ) (incoming : Incoming) (s : Server)
      → IsServing max handlers s.client_handler
      → Serves (on_ready fd incoming s)
  unfolding on_ready
  on_ready-Serves fd incoming s v =
      with_handler-Serves s (accept fd incoming s.client_handler)
        (accept-Accepts fd incoming s.client_handler v)

  on_selected-Serves :
      (fd : ℕ) (selected : Selected) (incoming : Incoming) (s : Server)
      → IsServing max handlers s.client_handler
      → Serves (on_selected fd selected incoming s)
  unfolding on_selected on_timeout
  on_selected-Serves fd select_interrupted incoming s v = v
  on_selected-Serves fd select_failed incoming s v = v
  on_selected-Serves fd timed_out incoming s v = v
  on_selected-Serves fd ready incoming s v = on_ready-Serves fd incoming s v

  step-Serves :
      (fd : ℕ) (r : Round) (s : Server)
      → IsServing max handlers s.client_handler
      → Serves (step fd r s)
  unfolding step
  step-Serves fd r s v =
      let s' = record s { client_handler = reap r.waits s.client_handler } in
      let w = reap-IsServing r.waits s.client_handler v in
      elim (Bool-cases (ltb 0 s.timeout)) [
        | inl e ↦ rw e (on_selected-Serves fd r.selected r.incoming s' w)
        | inr e ↦ rw e (on_ready-Serves fd r.incoming s' w)
      ]

  finish-IsServing :
      (fd : ℕ) (s : Server)
      → IsServing max handlers s.client_handler
      → IsServing max handlers (finish fd s).0.client_handler
  unfolding finish
  finish-IsServing fd s v = record {
    limit = v.limit;
    same = v.same;
    bounded = omega arith;
    current = v.current;
  }

  preceded-Serves :
      (actions : List Action) (result : Option (Server × List Action × Next))
      → Serves result
      → Serves (preceded actions result)
  preceded-Serves actions none v = v
  preceded-Serves actions (some result) v = v

  resume-Serves :
      (fd : ℕ) (rest : Server → Option (Server × List Action × Next))
      (result : Option (Server × List Action × Next))
      → ((s : Server) → IsServing max handlers s.client_handler → Serves (rest s))
      → Serves result
      → Serves (resume fd rest result)
  unfolding resume
  resume-Serves fd rest none later v = v
  resume-Serves fd rest (some (s, actions, goes_on)) later v =
      preceded-Serves actions (rest s) (later s v)
  resume-Serves fd rest (some (s, actions, stops)) later v = finish-IsServing fd s v
  resume-Serves fd rest (some (s, actions, exits)) later v = v
  resume-Serves fd rest (some (s, actions, aborts)) later v = v

  -- Over any rounds the loop of a server with a handler reads no handler outside the vector, and
  -- ends with at most `max_clients` client processes and a next handler in the vector, whatever the
  -- system calls return.
  pub run-Serves :
      (fd : ℕ) (rounds : List Round) (s : Server)
      → IsServing max handlers s.client_handler
      → Serves (run fd rounds s)
  unfolding run
  run-Serves fd [] s v = v
  run-Serves fd (r ∷ rounds) s v =
      resume-Serves fd (run fd rounds) (step fd r s) (λ s' w. run-Serves fd rounds s' w)
        (step-Serves fd r s v)

-- ===== src/Tcp/Serving/Threads.antt =====
-- How many clients the server of libtcp serves at once in threads.
use native.Mathlib.Nat.{mod-lt}
use computer_networking_tamu.Base.{
  ℕ, suc, ◌%◌, ◌<◌, ◌≡◌, ◌≢◌, refl, ap, ◌∙◌, List, [], ◌∷◌, some, true, false, length, All, leb,
  ltb, get_elem?-some, Bool-cases, inl, inr, arith,
}
use computer_networking_tamu.Tcp.Processes.{
  Fork, fork_failed, in_child, in_parent, HandleMode, round_robin, random, Wait, reap_clients,
}
use computer_networking_tamu.Tcp.Processes.Laws.{reap_clients-nil}
use computer_networking_tamu.Tcp.Configuration.{ClientHandler, Server}
use computer_networking_tamu.Tcp.Serving.{
  Action, goes_on, close, wait_for, serve, serve_in_process, call_timeout_handler, serve_in_thread,
  Incoming, ready, Round, reap, advance, advance_in, pick, pick_in, accept, accept_with, connected,
  on_ready, on_selected, step, resume, run,
}

-- The threads that a list of actions starts.
unfoldable pub threads : List Action → ℕ
threads [] = 0
threads (serve_in_thread f fd ∷ actions) = suc (threads actions)
threads (serve f fd ∷ actions) = threads actions
threads (serve_in_process pid f fd ∷ actions) = threads actions
threads (close fd ∷ actions) = threads actions
threads (wait_for pid ∷ actions) = threads actions
threads (call_timeout_handler f ∷ actions) = threads actions

-- A server that uses threads: it has no client processes.
pub record Threaded (h : ClientHandler) : Type 0 where
  pub threading : h.use_thread ≡ true
  pub alone : h.clients ≡ []
  pub room : 0 < h.max_clients
  pub current : h.current_handler < length h.handlers

-- A connection is there, and a thread can be created.
abbrev pub Connects : Round → Type 0
Connects r =
    (r.selected ≡ ready)
    × ((r.incoming.fork ≢ fork_failed) × ((fd : ℕ) × (r.incoming.connection ≡ some fd)))

reap-Threaded : (waits : List Wait) (h : ClientHandler) → Threaded h → Threaded (reap waits h)
reap-Threaded waits h t = record {
  threading = t.threading;
  alone = ap (reap_clients waits) t.alone ∙ reap_clients-nil waits;
  room = t.room;
  current = t.current;
}

advance_in-Threaded :
    (mode : HandleMode) (h : ClientHandler) → Threaded h → Threaded (advance_in mode h)
advance_in-Threaded random h t = t
advance_in-Threaded round_robin h t = record {
  threading = t.threading;
  alone = t.alone;
  room = t.room;
  current = mod-lt _ (omega arith);
}

pick_in-Threaded :
    (mode : HandleMode) (number : ℕ) (h : ClientHandler)
    → Threaded h
    → (f : ℕ) × (pick_in mode number h ≡ some f)
pick_in-Threaded round_robin number h t = get_elem?-some h.handlers h.current_handler t.current
pick_in-Threaded random number h t =
    get_elem?-some h.handlers (number % length h.handlers) (mod-lt number (omega arith))

has_room : (h : ClientHandler) → Threaded h → leb h.max_clients (length h.clients) ≡ false
has_room h t = ground (arith, ap length t.alone)

connected-Threaded :
    (fd : ℕ) (fork : Fork) (f client : ℕ) (h : ClientHandler)
    → fork ≢ fork_failed
    → Threaded h
    → connected fd fork f client h ≡ (h, serve_in_thread f client ∷ [], goes_on)
unfolding connected
connected-Threaded fd fork_failed f client h runs t = absurd (runs refl)
connected-Threaded fd in_child f client h runs t = rw (has_room h t) (rw t.threading refl)
connected-Threaded fd (in_parent pid) f client h runs t = rw (has_room h t) (rw t.threading refl)

accept-Threaded :
    (fd : ℕ) (i : Incoming) (client : ℕ) (h : ClientHandler)
    → i.connection ≡ some client
    → i.fork ≢ fork_failed
    → Threaded h
    → (h' : ClientHandler) × (f : ℕ) × (accept fd i h
        ≡ some (h', serve_in_thread f client ∷ [], goes_on))
      × Threaded h'
unfolding accept accept_with pick advance
accept-Threaded fd i client h there runs t =
    let reaped = reap i.waits h in
    let r = reap-Threaded i.waits h t in
    let a = advance_in-Threaded reaped.mode reaped r in
    let (f, picked) = pick_in-Threaded reaped.mode i.random_number reaped r in
    (
      advance_in reaped.mode reaped,
      f,
      rw there (
          rw picked (
            rw (connected-Threaded fd i.fork f client (advance_in reaped.mode reaped) runs a)
              refl)),
      a,
    )

step-Threaded :
    (fd : ℕ) (r : Round) (s : Server)
    → Connects r
    → Threaded s.client_handler
    → (s' : Server) × (f client : ℕ) × (step fd r s
        ≡ some (s', serve_in_thread f client ∷ [], goes_on))
      × Threaded s'.client_handler
unfolding step on_selected on_ready
step-Threaded fd r s (chosen, (runs, (client, there))) t =
    let reaped = reap r.waits s.client_handler in
    let (h, f, e, t') =
      accept-Threaded fd r.incoming client reaped there runs
        (reap-Threaded r.waits s.client_handler t) in
    elim (Bool-cases (ltb 0 s.timeout)) [
      | inl p ↦ (
        record s { timeout_count = 0; client_handler = h },
        f,
        client,
        rw p (rw chosen (rw e refl)),
        t',
      )
      | inr p ↦
          (record s { timeout_count = 0; client_handler = h }, f, client, rw p (rw e refl), t')
    ]

-- A server that uses threads counts no clients: however many connections come, and whatever its
-- `max_clients`, it goes on and starts a thread for each, as long as threads can be created.
pub threads-run :
    (fd : ℕ) (rounds : List Round) (s : Server)
    → All Connects rounds
    → Threaded s.client_handler
    → (s' : Server) × (actions : List Action) × (run fd rounds s ≡ some (s', actions, goes_on))
      × (threads actions ≡ length rounds)
unfolding run resume threads
threads-run fd [] s h t = (s, [], refl, refl)
threads-run fd (r ∷ rounds) s h t =
    let (s1, f, client, e, t1) = step-Threaded fd r s h.0 t in
    let (s2, actions, e2, n) = threads-run fd rounds s1 h.1 t1 in
    (s2, serve_in_thread f client ∷ actions, rw e (rw e2 refl), ap suc n)

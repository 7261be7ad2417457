-- ===== src/Tcp/Serving.antt =====
-- The server's loop in libtcp/src/server.cpp, run_server, and ClientHandler::accept. What the
-- system calls return is the data of a round; a descriptor that is closed, a handler that is called
-- and a process that is waited for are the actions of a round.
pub mod Invariant
pub mod Counting
pub mod Timeouts
pub mod Turns
pub mod Threads
pub mod Started
use computer_networking_tamu.Base.{
  ℕ, suc, ◌+◌, ◌%◌, List, [], ◌∷◌, ◌++◌, map, Option, none, some, Bool, true, false, not, ◌&&◌,
  Result, ok, err, ◌>>=◌, or_throw, guard, length, get_elem?, ltb, leb, ◌==◌, if◌then◌else◌,
}
use computer_networking_tamu.Tcp.Processes.{
  Fork, fork_failed, in_child, in_parent, Wait, reap_clients, HandleMode, round_robin, random,
}
use computer_networking_tamu.Tcp.Configuration.{ClientHandler, Server}

pub data Action : Type 0 where
  close wait_for : ℕ → Action
  -- A handler is called on a descriptor: in the process that accept runs in, in the process that is
  -- named, or in a thread.
  serve serve_in_thread : ℕ → ℕ → Action
  serve_in_process : ℕ → ℕ → ℕ → Action
  call_timeout_handler : ℕ → Action

-- Whether the process goes on with the loop, leaves it, exits in accept, or is ended by an exception
-- that nothing catches.
pub data Next : Type 0 where
  goes_on stops exits aborts : Next

-- What the calls of `accept` return: the handler processes that have finished, rand(), the
-- connection's descriptor or an error, and fork.
pub record Incoming : Type 0 where
  pub waits : List Wait
  pub random_number : ℕ
  pub connection : Option ℕ
  pub fork : Fork

abbrev pub reap : List Wait → ClientHandler → ClientHandler
reap waits h = record h { clients = reap_clients waits h.clients }

-- The handler for the next connection; `none` is a read outside the vector.
abbrev pub pick_in : HandleMode → ℕ → ClientHandler → Option ℕ
pick_in round_robin number h = get_elem? h.handlers h.current_handler
pick_in random number h = get_elem? h.handlers (number % length h.handlers)

unfoldable pub pick : ℕ → ClientHandler → Option ℕ
pick number h = pick_in h.mode number h

abbrev pub advance_in : HandleMode → ClientHandler → ClientHandler
advance_in round_robin h = record h {
  current_handler = (h.current_handler + 1) % 4294967296 % length h.handlers;
}
advance_in random h = h

unfoldable pub advance : ClientHandler → ClientHandler
advance h = advance_in h.mode h

-- What accept does once there is a connection.
unfoldable pub connected : ℕ → Fork → ℕ → ℕ → ClientHandler → ClientHandler × List Action × Next
connected server_fd fork handler fd h =
    if leb h.max_clients (length h.clients)
    then (h, close fd ∷ [], goes_on)
    else if h.use_thread
    then elim fork [
      | fork_failed ↦ (h, [], aborts)
      | in_child ↦ (h, serve_in_thread handler fd ∷ [], goes_on)
      | in_parent pid ↦ (h, serve_in_thread handler fd ∷ [], goes_on)
    ]
    else elim fork [
      | fork_failed ↦ (h, close fd ∷ [], goes_on)
      | in_child ↦ (h, close server_fd ∷ serve handler fd ∷ [], exits)
      | in_parent pid ↦ (
        record h { clients = h.clients ++ (pid ∷ []) },
        serve_in_process pid handler fd ∷ close fd ∷ [],
        goes_on,
      )
    ]

-- The part of accept behind the choice of a handler, for the handler and the connection.
unfoldable pub accept_with :
    ℕ → Fork → Option ℕ → Option ℕ → ClientHandler → Option (ClientHandler × List Action × Next)
unfolding advance connected
accept_with server_fd fork none connection h = none
accept_with server_fd fork (some handler) none h = some (advance h, [], goes_on)
accept_with server_fd fork (some handler) (some fd) h =
    some (connected server_fd fork handler fd (advance h))

-- ClientHandler::accept
unfoldable pub accept : ℕ → Incoming → ClientHandler → Option (ClientHandler × List Action × Next)
unfolding pick accept_with
accept server_fd incoming h =
    let reaped = reap incoming.waits h in
    accept_with server_fd incoming.fork (pick incoming.random_number reaped) incoming.connection
      reaped

pub data Selected : Type 0 where
  select_interrupted select_failed timed_out ready : Selected

pub record Round : Type 0 where
  pub waits : List Wait
  pub selected : Selected
  pub incoming : Incoming

abbrev pub timeout_actions : Option ℕ → List Action
timeout_actions none = []
timeout_actions (some handler) = call_timeout_handler handler ∷ []

unfoldable pub on_timeout : Server → Server × List Action × Next
on_timeout s =
    let count = (s.timeout_count + 1) % 4294967296 in
    (
      record s { timeout_count = count },
      timeout_actions s.timeout_handler,
      if ltb 0 s.max_timeouts && leb s.max_timeouts count then stops else goes_on,
    )

-- A connection is there: the count of timeouts starts again.
abbrev pub with_handler :
    Server → Option (ClientHandler × List Action × Next) → Option (Server × List Action × Next)
with_handler s none = none
with_handler s (some (h, actions, next)) =
    some (record s { timeout_count = 0; client_handler = h }, actions, next)

unfoldable pub on_ready : ℕ → Incoming → Server → Option (Server × List Action × Next)
unfolding accept
on_ready fd incoming s = with_handler s (accept fd incoming s.client_handler)

unfoldable pub on_selected : ℕ → Selected → Incoming → Server → Option (Server × List Action × Next)
unfolding on_timeout on_ready
on_selected fd select_interrupted incoming s = some (s, [], goes_on)
on_selected fd select_failed incoming s = some (s, [], stops)
on_selected fd timed_out incoming s = some (on_timeout s)
on_selected fd ready incoming s = on_ready fd incoming s

-- One round of the loop of run_server. Without a timeout there is no select.
unfoldable pub step : ℕ → Round → Server → Option (Server × List Action × Next)
unfolding on_selected on_ready
step fd r s =
    let s' = record s { client_handler = reap r.waits s.client_handler } in
    if ltb 0 s.timeout then on_selected fd r.selected r.incoming s' else on_ready fd r.incoming s'

-- Behind the loop: the socket is closed, and join_clients waits for each client.
unfoldable pub finish : ℕ → Server → Server × List Action
finish fd s = (
  record s { client_handler = record s.client_handler { clients = [] } },
  close fd ∷ map wait_for s.client_handler.clients,
)

abbrev pub preceded :
    List Action → Option (Server × List Action × Next) → Option (Server × List Action × Next)
preceded actions none = none
preceded actions (some (s, actions', next)) = some (s, actions ++ actions', next)

-- What follows a round: the rest of the loop, what stands behind it, or the end of the process.
unfoldable pub resume :
    ℕ
    → (Server → Option (Server × List Action × Next))
    → Option (Server × List Action × Next)
    → Option (Server × List Action × Next)
unfolding finish
resume fd rest none = none
resume fd rest (some (s, actions, goes_on)) = preceded actions (rest s)
resume fd rest (some (s, actions, stops)) =
    preceded actions (some ((finish fd s).0, (finish fd s).1, stops))
resume fd rest (some (s, actions, exits)) = some (s, actions, exits)
resume fd rest (some (s, actions, aborts)) = some (s, actions, aborts)

-- The loop over the rounds that are given.
unfoldable pub run : ℕ → List Round → Server → Option (Server × List Action × Next)
unfolding step resume
run fd [] s = some (s, [], goes_on)
run fd (r ∷ rounds) s = resume fd (run fd rounds) (step fd r s)

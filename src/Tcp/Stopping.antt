-- ===== src/Tcp/Stopping.antt =====
-- How servers of libtcp and their clients' processes end: exec, stop, terminate_clients and
-- kill_clients of libtcp/src/server.cpp.
use computer_networking_tamu.Base.{
  ℕ, ◌≡◌, refl, sym, subst, List, [], ◌∷◌, ◌++◌, map, none, some, Bool, false, Result, ok, err,
  ◌>>=◌, if◌then◌else◌,
}
use computer_networking_tamu.Tcp.Processes.{Fork, fork_failed, in_child, in_parent}
use computer_networking_tamu.Tcp.Configuration.{
  ClientHandler, Server, ConfigurationError, set_while_running, already_running, Setting, configure,
  Role, start_failed, server_process, server_thread, caller, fork_server, start, stop,
}
use computer_networking_tamu.Tcp.Configuration.Laws.{CanStart, start-forked, configure-running}

pub data Call : Type 0 where
  terminate kill wait_for : ℕ → Call

-- terminate_clients, kill_clients: a signal to each, and join_clients.
unfoldable pub signal_clients : (ℕ → Call) → ClientHandler → ClientHandler × List Call
signal_clients signal h =
    (record h { clients = [] }, map signal h.clients ++ map wait_for h.clients)

unfoldable pub terminate_clients : ClientHandler → ClientHandler × List Call
unfolding signal_clients
terminate_clients h = signal_clients terminate h

unfoldable pub kill_clients : ClientHandler → ClientHandler × List Call
unfolding signal_clients
kill_clients h = signal_clients kill h

-- The calls of stop.
unfoldable pub stop_calls : Bool → Server → List Call
stop_calls force s = elim s.server_pid [
  | none ↦ []
  | some pid ↦ (if force then kill pid else terminate pid) ∷ wait_for pid ∷ []
]

-- What exec does once start returns: it sleeps for good, fails, or waits for the server's process.
-- In that process start does not return.
pub data ExecEnd : Type 0 where
  sleeps fails serves : ExecEnd
  waits : ℕ → ExecEnd

abbrev pub exec_end : Role → ExecEnd
exec_end server_thread = sleeps
exec_end start_failed = fails
exec_end server_process = serves
exec_end (caller pid) = waits pid

unfoldable pub exec : Fork → Server → Result ConfigurationError ExecEnd
unfolding start
exec fork s = start fork s >>= λ out. ok (exec_end out.1)

stopped-CanStart :
    (s : Server) (pid : ℕ) → CanStart s → CanStart (stop (record s { server_pid = some pid }))
unfolding stop
stopped-CanStart s pid c = record {
  idle = refl;
  port = c.port;
  queue = c.queue;
  handler = c.handler;
  room = c.room;
}

-- What start leads to for each return of fork: a failure that leaves the server as it was able to
-- start, the process of the server, or a caller whose server is known to run. A server that runs
-- takes no setting and no second start, and can start again once it is stopped.
abbrev pub Leads : Setting → Fork → Fork → Result ConfigurationError (Server × Role) → Type 0
Leads setting again fork (err e) = ⊥
Leads setting again fork_failed (ok (s, role)) = (role ≡ start_failed) × CanStart s
Leads setting again in_child (ok (s, role)) =
    (role ≡ server_process)
    × ((configure setting s ≡ err set_while_running) × (start again s ≡ err already_running))
Leads setting again (in_parent pid) (ok (s, role)) =
    (role ≡ caller pid)
    × ((configure setting s ≡ err set_while_running)
        × ((start again s ≡ err already_running) × CanStart (stop s)))

fork_server-Leads :
    (setting : Setting) (again fork : Fork) (s : Server)
    → CanStart s
    → Leads setting again fork (ok (fork_server fork s))
unfolding fork_server
fork_server-Leads setting again fork_failed s c = (
  refl,
  record { idle = refl; port = c.port; queue = c.queue; handler = c.handler; room = c.room },
)
fork_server-Leads setting again in_child s c =
    (refl, configure-running setting again (record s { server_pid = some 0 }) 0 refl)
fork_server-Leads setting again (in_parent pid) s c =
    let (a, b) = configure-running setting again (record s { server_pid = some pid }) pid refl in
    (refl, (a, (b, stopped-CanStart s pid c)))

-- An idle server with a port, a backlog, a handler and a limit above zero, that uses no threads.
-- When fork fails, start says so and the server can still start; in the child it is the server's
-- process; in the parent it gives the process's number. Where fork succeeds, any configuring call
-- and another start throw; and in the parent the server can start again once it is stopped.
pub start-Leads :
    (setting : Setting) (again fork : Fork) (s : Server)
    → CanStart s
    → s.use_thread ≡ false
    → Leads setting again fork (start fork s)
start-Leads setting again fork s c process =
    subst (Leads setting again fork) (sym (start-forked fork s c process))
      (fork_server-Leads setting again fork s c)

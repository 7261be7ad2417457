-- ===== src/Tcp/Configuration.antt =====
-- `class Server` of libtcp/include/tcp/server.hpp and its configuration in libtcp/src/server.cpp.
-- A handler function and a pointer are numbers; `unsigned int` has 32 bits.
pub mod Laws
use computer_networking_tamu.Base.{
  ℕ, ◌%◌, List, [], ◌∷◌, ◌++◌, Option, none, some, Bool, true, false, not, Result, ok, err, ◌>>=◌,
  ◌>>◌, guard, length, ◌==◌, if◌then◌else◌,
}
use computer_networking_tamu.Tcp.Address.{address_text}
use computer_networking_tamu.Tcp.Processes.{
  Fork, fork_failed, in_child, in_parent, HandleMode, round_robin,
}

-- Server::ClientHandler
pub record ClientHandler : Type 0 where
  pub current_handler : ℕ
  pub clients : List ℕ
  pub max_clients : ℕ
  pub handlers : List ℕ
  pub mode : HandleMode
  pub debug_mode : Bool
  pub extra_data : Option ℕ
  pub use_thread : Bool

-- `server_pid` is none where it is negative.
pub record Server : Type 0 where
  pub client_handler : ClientHandler
  pub server_pid : Option ℕ
  pub timeout_count : ℕ
  pub server_ip_addr : List ℕ
  pub port_no : ℕ
  pub timeout : ℕ
  pub max_timeouts : ℕ
  pub backlog : ℕ
  pub debug_mode : Bool
  pub use_thread : Bool
  pub timeout_handler : Option ℕ

unfoldable pub make_server : Server
make_server = record {
  client_handler = record {
    current_handler = 0;
    clients = [];
    max_clients = 5;
    handlers = [];
    mode = round_robin;
    debug_mode = false;
    extra_data = none;
    use_thread = false;
  };
  server_pid = none;
  timeout_count = 0;
  server_ip_addr = [];
  port_no = 0;
  timeout = 1;
  max_timeouts = 0;
  backlog = 5;
  debug_mode = false;
  use_thread = false;
  timeout_handler = none;
}

-- What a ConfigurationError says, and, last, the std::system_error of a thread that cannot start.
pub data ConfigurationError : Type 0 where
  set_while_running already_running no_port no_backlog no_handlers no_max_clients thread_failed :
      ConfigurationError

-- server_pid >= 0
abbrev pub is_running : Server → Bool
is_running s = elim s.server_pid [ none ↦ false | some pid ↦ true ]

-- A call that configures the server.
pub data Setting : Type 0 where
  set_port set_timeout set_max_timeouts set_backlog set_max_clients : ℕ → Setting
  set_ip_addr : List ℕ → Setting
  debug : Bool → Setting
  set_timeout_handler add_handler_extra_data : Option ℕ → Setting
  use_threads : Setting
  add_handler : ℕ → Setting
  set_handler_mode : HandleMode → Setting

-- What each call does behind its guard.
unfoldable pub apply : Setting → Server → Server
unfolding address_text
apply (set_port n) s = record s { port_no = n }
apply (set_ip_addr ip) s = record s { server_ip_addr = address_text ip }
apply (set_timeout n) s = record s { timeout = n }
apply (set_max_timeouts n) s = record s { max_timeouts = n }
apply (set_backlog n) s = record s { backlog = n }
apply (debug m) s = record s {
  debug_mode = m;
  client_handler = record s.client_handler { debug_mode = m };
}
apply (set_timeout_handler h) s = record s { timeout_handler = h }
apply use_threads s = record s {
  client_handler = record s.client_handler { use_thread = true };
  use_thread = true;
}
apply (add_handler h) s = record s {
  client_handler = record s.client_handler { handlers = s.client_handler.handlers ++ (h ∷ []) };
}
apply (set_handler_mode m) s = record s { client_handler = record s.client_handler { mode = m } }
apply (set_max_clients n) s = record s {
  client_handler = record s.client_handler { max_clients = n };
}
apply (add_handler_extra_data d) s = record s {
  client_handler = record s.client_handler { extra_data = d };
}

-- The calls themselves: each throws while the server runs.
unfoldable pub configure : Setting → Server → Result ConfigurationError Server
unfolding apply
configure setting s = do guard (not (is_running s)) set_while_running; ok (apply setting s)

-- Who goes on after start: the caller alone because fork failed, the caller and a server process,
-- that process itself, or the caller and a thread.
pub data Role : Type 0 where
  start_failed server_process server_thread : Role
  caller : ℕ → Role

unfoldable pub validate : Server → Result ConfigurationError (Unit {0})
validate s = do
  guard (not (is_running s)) already_running
  guard (not (s.port_no == 0)) no_port
  guard (not (s.backlog == 0)) no_backlog
  guard (not (length s.client_handler.handlers == 0)) no_handlers
  guard (not (s.client_handler.max_clients == 0)) no_max_clients

-- The fork of a server that uses no threads. In the child fork returns 0, and 0 >= 0.
unfoldable pub fork_server : Fork → Server → Server × Role
fork_server fork_failed s = (record s { server_pid = none }, start_failed)
fork_server in_child s = (record s { server_pid = some 0 }, server_process)
fork_server (in_parent pid) s = (record s { server_pid = some pid }, caller pid)

-- The thread of a server that uses threads; server_pid stays negative.
unfoldable pub start_thread : Fork → Server → Result ConfigurationError (Server × Role)
start_thread fork_failed s = err thread_failed
start_thread in_child s = ok (s, server_thread)
start_thread (in_parent pid) s = ok (s, server_thread)

-- Server::start
unfoldable pub start : Fork → Server → Result ConfigurationError (Server × Role)
unfolding validate fork_server start_thread
start fork s = do
  validate s
  if not s.use_thread then ok (fork_server fork s) else start_thread fork s

-- Server::stop: the process is killed and waited for.
unfoldable pub stop : Server → Server
stop s = elim s.server_pid [ none ↦ s | some pid ↦ record s { server_pid = none } ]

-- ===== src/Tcp/Serving/Started.antt =====
-- A server of libtcp from its constructor on: configured, started, and in its loop.
use computer_networking_tamu.Base.{
  ℕ, ◌<◌, ◌≡◌, refl, List, [], ◌∷◌, Bool, true, false, not, Result, ok, err, ◌>>=◌, length, arith,
  bind_ok, if◌then◌else◌, guard_ok, ok-injective, subst, sym, ap, ◌∙◌, ◌≢◌,
}
use computer_networking_tamu.Tcp.Processes.{Fork, fork_failed, in_child, in_parent}
use computer_networking_tamu.Tcp.Configuration.{
  Server, make_server, ConfigurationError, set_while_running, is_running, Setting, apply, configure,
  Role, fork_server, start_thread, start,
}
use computer_networking_tamu.Tcp.Configuration.Laws.{start-ok, start-chosen}
use computer_networking_tamu.Tcp.Serving.{Round, run}
use computer_networking_tamu.Tcp.Serving.Invariant.{IsServing, Serves, run-Serves}

-- Calls of the configuration in a row.
unfoldable pub configure_all : List Setting → Server → Result ConfigurationError Server
unfolding configure
configure_all [] s = ok s
configure_all (setting ∷ settings) s = configure setting s >>= configure_all settings

-- A server that has served nobody.
record IsFresh (s : Server) : Type 0 where
  alone : s.client_handler.clients ≡ []
  first : s.client_handler.current_handler ≡ 0

apply-IsFresh : (setting : Setting) (s : Server) → IsFresh s → IsFresh (apply setting s)
unfolding apply
apply-IsFresh setting s f = ground arith

configure_all-IsFresh :
    (settings : List Setting) (s s' : Server)
    → IsFresh s
    → configure_all settings s ≡ ok s'
    → IsFresh s'
unfolding configure_all configure
configure_all-IsFresh [] s s' f e = subst IsFresh (ok-injective s s' e) f
configure_all-IsFresh (setting ∷ settings) s s' f e =
    let (t, e1, e2) = bind_ok (configure setting s) (configure_all settings) e in
    let (idle, e3) = guard_ok (not (is_running s)) set_while_running (ok (apply setting s)) e1 in
    configure_all-IsFresh settings t s'
      (subst IsFresh (ok-injective (apply setting s) t e3) (apply-IsFresh setting s f)) e2

forked : (fork : Fork) (s : Server) → (fork_server fork s).0.client_handler ≡ s.client_handler
unfolding fork_server
forked fork_failed s = refl
forked in_child s = refl
forked (in_parent pid) s = refl

-- A server and the one that start leaves have the same clients and handlers.
abbrev SameClients : Server → Result ConfigurationError (Server × Role) → Type 0
SameClients s (err e) = Unit
SameClients s (ok out) = out.0.client_handler ≡ s.client_handler

threaded : (fork : Fork) (s : Server) → SameClients s (start_thread fork s)
unfolding start_thread
threaded fork_failed s = tt
threaded in_child s = refl
threaded (in_parent pid) s = refl

chosen :
    (fork : Fork) (s : Server) (threads : Bool)
    → SameClients s (if not threads then ok (fork_server fork s) else start_thread fork s)
chosen fork s true = threaded fork s
chosen fork s false = forked fork s

start-same :
    (fork : Fork) (s s' : Server) (role : Role)
    → start fork s ≡ ok (s', role)
    → s'.client_handler ≡ s.client_handler
start-same fork s s' role e =
    subst (SameClients s) (sym (start-chosen fork s (start-ok fork s (s', role) e)) ∙ e)
      (chosen fork s s.use_thread)

make_server-IsFresh : IsFresh make_server
unfolding make_server
make_server-IsFresh = record { alone = refl; first = refl }

positive : (n c : ℕ) → n ≢ 0 → c ≡ 0 → c < n
positive n c h e = omega arith

-- Whatever calls configure a new server, if they and start throw nothing, its loop keeps within its
-- limits over any rounds: it reads no handler outside the vector and has at most `max_clients`
-- client processes.
pub run-started :
    (settings : List Setting) (fork : Fork) (s s' : Server) (role : Role) (fd : ℕ)
    (rounds : List Round)
    → configure_all settings make_server ≡ ok s
    → start fork s ≡ ok (s', role)
    → Serves s.client_handler.max_clients s.client_handler.handlers (run fd rounds s')
run-started settings fork s s' role fd rounds configured started =
    let same = start-same fork s s' role started in
    let can = start-ok fork s (s', role) started in
    let fresh = configure_all-IsFresh settings make_server s make_server-IsFresh configured in
    let h = s.client_handler in
    let serving : IsServing h.max_clients h.handlers h = record {
      limit = refl;
      same = refl;
      bounded = omega (arith, ap length fresh.alone);
      current = positive (length h.handlers) h.current_handler can.handler fresh.first;
    } in
    run-Serves h.max_clients h.handlers fd rounds s'
      (subst (IsServing h.max_clients h.handlers) (sym same) serving)

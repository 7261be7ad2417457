-- ===== src/Tcp/Configuration/Laws.antt =====
-- When libtcp's server may be configured and started.
use computer_networking_tamu.Base.{
  ℕ, ◌≡◌, ◌≢◌, refl, ap, ◌∙◌, some, Bool, true, false, not, Result, ok, err, ◌>>◌, guard, length,
  ◌==◌, if◌then◌else◌, arith, guard_ok, seq_ok,
}
use computer_networking_tamu.Tcp.Processes.{Fork, fork_failed, in_child, in_parent}
use computer_networking_tamu.Tcp.Configuration.{
  Server, ConfigurationError, set_while_running, already_running, no_port, no_backlog, no_handlers,
  no_max_clients, is_running, Setting, apply, configure, Role, server_thread, validate, fork_server,
  start_thread, start,
}

-- While the server process runs, every call that configures the server and a second start throw.
pub configure-running :
    (setting : Setting) (fork : Fork) (s : Server) (pid : ℕ)
    → s.server_pid ≡ some pid
    → (configure setting s ≡ err set_while_running) × (start fork s ≡ err already_running)
unfolding configure start validate
configure-running setting fork s pid running = (rw running refl, rw running refl)

-- What start asks of a server.
pub record CanStart (s : Server) : Type 0 where
  pub idle : is_running s ≡ false
  pub port : s.port_no ≢ 0
  pub queue : s.backlog ≢ 0
  pub handler : length s.client_handler.handlers ≢ 0
  pub room : s.client_handler.max_clients ≢ 0

zero_test : (n : ℕ) → n ≢ 0 → (n == 0) ≡ false
zero_test n h = ground arith

nonzero : (n : ℕ) → not (n == 0) ≡ true → n ≢ 0
nonzero n h = ground arith

not-true : (b : Bool) → not b ≡ true → b ≡ false
not-true b h = ground arith

guard-unit :
    (b : Bool) (e : ConfigurationError)
    → ◌≡◌ {A = Result ConfigurationError (Unit {0})} (guard b e) (ok tt)
    → ◌≡◌ {A = Result ConfigurationError (Unit {0})} (guard b e >> ok tt) (ok tt)
guard-unit true e h = refl
guard-unit false e h = cc

validate-CanStart : (s : Server) → validate s ≡ ok tt → CanStart s
unfolding validate
validate-CanStart s h =
    let (a, h1) = guard_ok (not (is_running s)) already_running _ h in
    let (b, h2) = guard_ok (not (s.port_no == 0)) no_port _ h1 in
    let (c, h3) = guard_ok (not (s.backlog == 0)) no_backlog _ h2 in
    let (d, e) = guard_ok (not (length s.client_handler.handlers == 0)) no_handlers _ h3 in
    let (e', u) =
      guard_ok (not (s.client_handler.max_clients == 0)) no_max_clients (ok tt)
        (guard-unit _ _ e) in
    record {
      idle = not-true (is_running s) a;
      port = nonzero s.port_no b;
      queue = nonzero s.backlog c;
      handler = nonzero (length s.client_handler.handlers) d;
      room = nonzero s.client_handler.max_clients e';
    }

CanStart-validate : (s : Server) → CanStart s → validate s ≡ ok tt
unfolding validate
CanStart-validate s c = rw c.idle (
    rw (zero_test s.port_no c.port) (
      rw (zero_test s.backlog c.queue) (
        rw (zero_test (length s.client_handler.handlers) c.handler)
          (rw (zero_test s.client_handler.max_clients c.room) refl))))

thread-runs :
    (fork : Fork) (s : Server) → fork ≢ fork_failed → start_thread fork s ≡ ok (s, server_thread)
unfolding start_thread
thread-runs fork_failed s runs = absurd (runs refl)
thread-runs in_child s runs = refl
thread-runs (in_parent pid) s runs = refl

-- A start that throws nothing was of a server that can start.
pub start-ok : (fork : Fork) (s : Server) (out : Server × Role) → start fork s ≡ ok out → CanStart s
unfolding start
start-ok fork s out e = validate-CanStart s (seq_ok (validate s) _ e).0

-- Of a server that can start, start goes on to the fork or the thread.
pub start-chosen :
    (fork : Fork) (s : Server)
    → CanStart s
    → start fork s ≡ (if not s.use_thread then ok (fork_server fork s) else start_thread fork s)
unfolding start
start-chosen fork s c = rw (CanStart-validate s c) refl

pub start-forked :
    (fork : Fork) (s : Server)
    → CanStart s
    → s.use_thread ≡ false
    → start fork s ≡ ok (fork_server fork s)
start-forked fork s c process =
    start-chosen fork s c
    ∙ ap (λ b. if not b then ok (fork_server fork s) else start_thread fork s) process

start-threaded :
    (fork : Fork) (s : Server)
    → CanStart s
    → s.use_thread ≡ true
    → start fork s ≡ start_thread fork s
start-threaded fork s c threads =
    start-chosen fork s c
    ∙ ap (λ b. if not b then ok (fork_server fork s) else start_thread fork s) threads

-- A server in threads is not known to run: `server_pid` stays negative, so after it has started,
-- every configuring call goes through, and so does a second start.
pub start-threads :
    (setting : Setting) (fork fork' : Fork) (s : Server)
    → CanStart s
    → s.use_thread ≡ true
    → fork ≢ fork_failed
    → fork' ≢ fork_failed
    → (start fork s ≡ ok (s, server_thread))
      × (configure setting s ≡ ok (apply setting s))
      × (start fork' s ≡ ok (s, server_thread))
unfolding configure
start-threads setting fork fork' s c threads runs runs' = (
  start-threaded fork s c threads ∙ thread-runs fork s runs,
  rw c.idle refl,
  start-threaded fork' s c threads ∙ thread-runs fork' s runs',
)

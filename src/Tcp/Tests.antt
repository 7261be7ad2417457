-- ===== src/Tcp/Tests.antt =====
-- Runs of libtcp at fixed inputs.
use computer_networking_tamu.Base.{
  All, ℕ, ◌≡◌, ◌≢◌, ◌≤◌, refl, List, [], ◌∷◌, none, some, true, false, ok, ascii, length, arith,
}
use computer_networking_tamu.Tcp.Processes.{in_parent, round_robin}
use computer_networking_tamu.Tcp.Configuration.{
  Server, make_server, Setting, set_port, set_max_timeouts, add_handler, apply, configure, start,
  caller,
}
use computer_networking_tamu.Tcp.Configuration.Laws.{CanStart}
use computer_networking_tamu.Tcp.Stopping.{Leads, start-Leads}
use computer_networking_tamu.Tcp.Serving.{
  Action, goes_on, stops, Incoming, Round, ready, timed_out, run,
}
use computer_networking_tamu.Tcp.Serving.Started.{configure_all, run-started}
use computer_networking_tamu.Tcp.Serving.Invariant.{IsServing, Serves}
use computer_networking_tamu.Tcp.Serving.Timeouts.{next_of, run-timeouts}
use computer_networking_tamu.Tcp.Serving.Threads.{threads, threads-run}
use computer_networking_tamu.Tcp.Client.{
  Write, write_failed, read_failed, write_interrupted, accepts, Read, read_interrupted, arrives,
  writen, readn, readline, line_buffer,
}
use computer_networking_tamu.Tcp.Client.Sending.{progress, Delivered, writen-enough}
use computer_networking_tamu.Tcp.Client.Receiving.{arrivals, readn-writen, readn-enough}
use computer_networking_tamu.Tcp.Client.Lines.{IsLine, readline-enough}

abbrev settings : List Setting
settings = set_port 7 ∷ add_handler 1 ∷ add_handler 2 ∷ set_max_timeouts 2 ∷ []

abbrev echo_server : Server
echo_server = record {
  client_handler = record {
    current_handler = 0;
    clients = [];
    max_clients = 5;
    handlers = 1 ∷ 2 ∷ [];
    mode = round_robin;
    debug_mode = false;
    extra_data = none;
    use_thread = false;
  };
  server_pid = none;
  timeout_count = 0;
  server_ip_addr = [];
  port_no = 7;
  timeout = 1;
  max_timeouts = 2;
  backlog = 5;
  debug_mode = false;
  use_thread = false;
  timeout_handler = none;
}

abbrev running : Server
running = record echo_server { server_pid = some 99 }

abbrev incoming : Incoming
incoming = record { waits = []; random_number = 3; connection = some 8; fork = in_parent 100 }

abbrev connects : Round
connects = record { waits = []; selected = ready; incoming = incoming }

abbrev silent : Round
silent = record { waits = []; selected = timed_out; incoming = incoming }

configured : configure_all settings make_server ≡ ok echo_server
unfolding configure_all configure apply make_server
configured = refl

started : start (in_parent 99) echo_server ≡ ok (running, caller 99)
unfolding start
started = refl

run-started_example : Serves 5 (1 ∷ 2 ∷ []) (run 4 (connects ∷ silent ∷ connects ∷ []) running)
run-started_example =
    run-started settings (in_parent 99) echo_server running (caller 99) 4
      (connects ∷ silent ∷ connects ∷ []) configured started

echo_server-CanStart : CanStart echo_server
echo_server-CanStart = record {
  idle = refl;
  port = λ e. omega arith;
  queue = λ e. omega arith;
  handler = λ e. omega arith;
  room = λ e. omega arith;
}

start-Leads_example :
    Leads (set_port 80) (in_parent 7) (in_parent 99) (start (in_parent 99) echo_server)
start-Leads_example =
    start-Leads (set_port 80) (in_parent 7) (in_parent 99) echo_server echo_server-CanStart refl

running-IsServing : IsServing 5 (1 ∷ 2 ∷ []) running.client_handler
running-IsServing = record {
  limit = refl;
  same = refl;
  bounded = omega arith;
  current = omega arith;
}

-- Two timeouts in a row end the loop, and two with a connection between them do not.
run-timeouts_example :
    next_of (run 4 (silent ∷ connects ∷ silent ∷ silent ∷ []) running) ≡ some stops
run-timeouts_example =
    run-timeouts 5 (1 ∷ 2 ∷ []) 4 (silent ∷ connects ∷ silent ∷ silent ∷ []) running
      running-IsServing (tt, (tt, (tt, (tt, tt)))) (omega arith) (omega arith) (omega arith)

abbrev crowd : List Round
crowd = connects ∷ connects ∷ connects ∷ connects ∷ connects ∷ connects ∷ []

abbrev small : Server
small = record echo_server {
  client_handler = record echo_server.client_handler { max_clients = 1; use_thread = true };
}

threads-run_example :
    (s' : Server) × (actions : List Action) × (run 4 crowd small ≡ some (s', actions, goes_on))
    × (threads actions ≡ 6)
threads-run_example =
    threads-run 4 crowd small
      (
        (refl, ((λ e. cc), (8, refl))),
        (
          (refl, ((λ e. cc), (8, refl))),
          (
            (refl, ((λ e. cc), (8, refl))),
            (
              (refl, ((λ e. cc), (8, refl))),
              ((refl, ((λ e. cc), (8, refl))), ((refl, ((λ e. cc), (8, refl))), tt)),
            ),
          ),
        ),
      )
      (record { threading = refl; alone = refl; room = omega arith; current = omega arith })

abbrev writes : List Write
writes =
    accepts 2 ∷ write_interrupted ∷ accepts 0 ∷ accepts 100 ∷ accepts 1 ∷ accepts 1 ∷ accepts 1 ∷ []

abbrev reads : List Read
reads =
    arrives 0 ∷ read_interrupted ∷ arrives 1 ∷ arrives 1 ∷ arrives 9 ∷ arrives 9 ∷ arrives 9 ∷ []

writes_sound : All (λ c. c ≢ write_failed) writes
writes_sound =
    ((λ e. cc), ((λ e. cc), ((λ e. cc), ((λ e. cc), ((λ e. cc), ((λ e. cc), ((λ e. cc), tt)))))))

reads_sound : All (λ c. c ≢ read_failed) reads
reads_sound =
    ((λ e. cc), ((λ e. cc), ((λ e. cc), ((λ e. cc), ((λ e. cc), ((λ e. cc), ((λ e. cc), tt)))))))

writen-enough_example : Delivered writes (ascii "hello") 0 (writen writes (ascii "hello"))
unfolding progress
writen-enough_example = writen-enough writes (ascii "hello") writes_sound (omega arith)

readn-enough_example :
    (calls : List Read) × (readn reads (ascii "hello you") 5
      ≡ some (ok (ascii "hello", ascii " you", calls)))
unfolding arrivals
readn-enough_example =
    readn-enough reads (ascii "hello you") 5 reads_sound (omega arith) (omega arith)

sent_hello :
    writen writes (ascii "hello")
    ≡ some (some 5, ascii "hello", accepts 1 ∷ accepts 1 ∷ accepts 1 ∷ [])
unfolding writen
sent_hello = refl

read_hello :
    readn reads (ascii "hello") 5
    ≡ some (ok (ascii "hello", [], arrives 9 ∷ arrives 9 ∷ arrives 9 ∷ []))
unfolding readn
read_hello = refl

readn-writen_example : (ascii "hello" ≡ ascii "hello") × (◌≡◌ {A = List ℕ} [] [])
readn-writen_example =
    readn-writen writes (accepts 1 ∷ accepts 1 ∷ accepts 1 ∷ []) reads
      (arrives 9 ∷ arrives 9 ∷ arrives 9 ∷ []) (ascii "hello") (ascii "hello") (ascii "hello") [] 5
      sent_hello read_hello

readline-enough_example :
    (line rest : List ℕ) × (calls : List Read) × (readline reads (104 ∷ 105 ∷ 10 ∷ 104 ∷ []) 6
      ≡ some (ok (line, rest, calls)))
    × IsLine (104 ∷ 105 ∷ 10 ∷ 104 ∷ []) 5 line rest
    × (length (line_buffer line) ≤ 6)
unfolding arrivals
readline-enough_example =
    readline-enough reads (104 ∷ 105 ∷ 10 ∷ 104 ∷ []) 6 (omega arith) (omega arith) reads_sound
      (omega arith)

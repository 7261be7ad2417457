-- ===== src/ChatServer/Tests.antt =====
-- Runs of the chat server, and its theorems at concrete inputs.
use computer_networking_tamu.Base.{
  ◌≡◌, refl, ℕ, List, [], ◌∷◌, ok, err, ◌>>=◌, ascii, none, some, arith, false, All, bytes_eq,
  bytes_lt, ◌==◌,
}
use computer_networking_tamu.Sbcp.Types.{Outcome, fwd}
use computer_networking_tamu.Sbcp.Message.{Message}
use computer_networking_tamu.Sbcp.Messages.{make_send}
use computer_networking_tamu.Sbcp.Evaluation.{evaluated}
use computer_networking_tamu.Sbcp.Spec.{Represents}
use computer_networking_tamu.Sbcp.RoundTrip.{fwd_items}
use computer_networking_tamu.ChatServer.Fifos.{lookup, insert}
use computer_networking_tamu.ChatServer.{
  Server, Action, Bootstrap, Round, eof, init, is_taken, handle_join, admit, admitted,
  handle_message, step, run, write_all_except,
}
use computer_networking_tamu.ChatServer.Invariant.{IsConsistent, run-init-IsConsistent}
use computer_networking_tamu.ChatServer.Delivery.{ReachesOthers, WritesToOther, handle_message-send}

abbrev bob : Bootstrap
bob = record { username = ascii "bob"; main_fd = 10; handler_fd = 11 }

abbrev eve : Bootstrap
eve = record { username = ascii "eve"; main_fd = 20; handler_fd = 21 }

-- A server for two with bob and eve online.
abbrev two : Server
two = record {
  max_clients = 2;
  rd_fifos = (ascii "bob", 11) ∷ (ascii "eve", 21) ∷ [];
  wr_fifos = (ascii "bob", 10) ∷ (ascii "eve", 20) ∷ [];
  online_users = ascii "bob" ∷ ascii "eve" ∷ [];
}

abbrev joining : Bootstrap → Round
joining b = record { bootstrap = some b; is_ready = λ fd. false; incoming = λ fd. eof }

abbrev leaving : ℕ → Round
leaving fd = record { bootstrap = none; is_ready = λ f. f == fd; incoming = λ f. eof }

-- What a round that succeeds leaves, and a server that nobody reads where it throws.
abbrev state_of : Outcome (Server × List Action) → Server
state_of (ok (s, out)) = s
state_of (err e) = init 0

abbrev out_of : Outcome (Server × List Action) → List Action
out_of (ok (s, out)) = out
out_of (err e) = []

-- What a test has to unfold to run the server.
served : Unit {0}
unfolding evaluated run step handle_join admit admitted init is_taken lookup insert write_all_except
    bytes_eq bytes_lt
served = tt

abbrev rounds : List Round
rounds = joining bob ∷ joining eve ∷ []

both_join : (state_of (run rounds (init 2))).online_users ≡ ascii "bob" ∷ ascii "eve" ∷ []
unfolding served
both_join = refl

run-init-IsConsistent_example : IsConsistent (state_of (run rounds (init 2)))
unfolding served
run-init-IsConsistent_example =
    run-init-IsConsistent 2 rounds (state_of (run rounds (init 2))) (out_of (run rounds (init 2)))
      refl

abbrev joe : Bootstrap
joe = record { username = ascii "joe"; main_fd = 30; handler_fd = 31 }

handle_message-send_example :
    (m : Message) × (out : List Action) × ((make_send (ascii "hi") >>= λ sent.
    handle_message (ascii "bob") sent two)
      ≡ ok (two, out))
    × Represents m fwd (fwd_items (ascii "bob") (ascii "hi"))
    × ReachesOthers two.wr_fifos m (ascii "bob") out
    × All (WritesToOther two.wr_fifos m (ascii "bob")) out
handle_message-send_example =
    handle_message-send (ascii "bob") (ascii "hi") two (omega arith) (omega arith)

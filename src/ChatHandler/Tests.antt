-- ===== src/ChatHandler/Tests.antt =====
-- Runs of a client's handler at fixed inputs.
use computer_networking_tamu.Base.{
  ℕ, ◌≡◌, refl, List, [], ◌∷◌, ◌++◌, map, ok, err, ◌>>=◌, All, NoNul, ascii, arith, replicate,
  ntohs, ◌≢◌, zero, suc,
}
use computer_networking_tamu.Sbcp.Types.{
  memory_fault, invalid_version, idle, message_type, max_payload_length,
}
use computer_networking_tamu.Sbcp.Header.{Header, make_header}
use computer_networking_tamu.Sbcp.Header
use computer_networking_tamu.Sbcp.Message.{Message, make_message}
use computer_networking_tamu.Sbcp.Message
use computer_networking_tamu.Sbcp.Messages.{make_join}
use computer_networking_tamu.Sbcp.Reading.{attributes, attributes_from}
use computer_networking_tamu.ChatHandler.{
  whole, closed, got, read_message, init, make_main_fifo, make_handler_fifo, write_bootstrap,
  close_bootstrap, continues, client_ready, main_ready, step, run, select_interrupted,
}
use computer_networking_tamu.ChatHandler.Forwarding.{
  Traffic, from_user, to_user, round_of, IsPrinted, IsProper, all_passed_on, in_chat, goodbye,
}
use computer_networking_tamu.ChatHandler.Joining.{
  succeed, run-session, join-long, join-again, run-rejected,
}

abbrev quiet : Message
quiet = make_message idle

quiet-IsPrinted : IsPrinted quiet
unfolding attributes make_message Message.validate Header.get_version make_header message_type
    Header.get_type Header.get_length ntohs attributes_from
quiet-IsPrinted = ([], refl)

abbrev traffic : List Traffic
traffic = from_user quiet ∷ to_user quiet ∷ from_user quiet ∷ []

traffic-IsProper : All IsProper traffic
unfolding make_message Message.get_type message_type Header.get_type make_header
traffic-IsProper = ((quiet-IsPrinted, λ e. cc), (quiet-IsPrinted, ((quiet-IsPrinted, λ e. cc), tt)))

bob-NoNul : NoNul (ascii "bob")
bob-NoNul = ((λ e. omega arith), ((λ e. omega arith), ((λ e. omega arith), tt)))

run-session_example :
    (make_join (ascii "bob") >>= λ m.
    run
      (client_ready (succeed 5 6) (ok (got m))
        ∷ (map (round_of (succeed 5 6)) traffic ++ (client_ready (succeed 5 6) (ok closed) ∷ [])))
      init)
    ≡ ok (
        (make_main_fifo ∷ make_handler_fifo ∷ write_bootstrap (ascii "bob") ∷ close_bootstrap ∷ [])
        ++ (all_passed_on 6 traffic ++ goodbye 5 6))
run-session_example = run-session 5 6 (ascii "bob") traffic (omega arith) bob-NoNul traffic-IsProper

abbrev long_name : List ℕ
long_name = replicate 16 97

replicate-NoNul : (n b : ℕ) → b ≢ 0 → NoNul (replicate n b)
unfolding replicate
replicate-NoNul zero b h = tt
replicate-NoNul (suc n) b h = (h, replicate-NoNul n b h)

long_name-NoNul : NoNul long_name
long_name-NoNul = replicate-NoNul 16 97 (λ e. omega arith)

join-long_example :
    (make_join long_name >>= λ m. run (client_ready (succeed 5 6) (ok (got m)) ∷ []) init)
    ≡ err memory_fault
unfolding replicate
join-long_example = join-long 5 6 long_name [] (omega arith) (omega arith) long_name-NoNul

join-again_example :
    (make_join (ascii "bob") >>= λ m.
    run (client_ready (succeed 7 8) (ok (got m)) ∷ select_interrupted ∷ []) (in_chat 5 6))
    ≡ ok []
join-again_example =
    join-again (succeed 7 8) 5 6 (ascii "bob") (select_interrupted ∷ []) (omega arith) bob-NoNul

abbrev wrong : Header
wrong = make_header 4 2 0

wrong-refused :
    Message.validate (record { header = wrong; payload = replicate max_payload_length 0 })
    ≡ err invalid_version
unfolding Message.validate make_header Header.get_version
wrong-refused = refl

run-rejected_example :
    (run (client_ready (succeed 5 6) (read_message (whole wrong) []) ∷ []) (in_chat 5 6)
      ≡ err invalid_version)
    × (step (main_ready (read_message (whole wrong) [])) (in_chat 5 6)
        ≡ ok (in_chat 5 6, [], continues))
run-rejected_example = run-rejected (succeed 5 6) wrong [] [] 5 6 invalid_version wrong-refused

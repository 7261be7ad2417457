-- ===== src/Echo/Tests.antt =====
-- Runs of the echo server at fixed inputs.
use computer_networking_tamu.Base.{◌≡◌, List, [], ◌∷◌, some, ascii, arith}
use computer_networking_tamu.Tcp.Client.{
  Write, accepts, write_interrupted, arrives, read_interrupted,
}
use computer_networking_tamu.Tcp.Client.Sending.{progress}
use computer_networking_tamu.Echo.{closed, echo_handler}
use computer_networking_tamu.Echo.Delivery.{Echoes, echo_handler-Echoes, echo_handler-enough}

abbrev writes : List Write
writes = accepts 0 ∷ accepts 1 ∷ write_interrupted ∷ accepts 5 ∷ accepts 5 ∷ []

echo_handler-Echoes_example :
    Echoes
      (ascii "hey")
      (echo_handler (arrives 0 ∷ arrives 9 ∷ read_interrupted ∷ []) writes (ascii "hey"))
echo_handler-Echoes_example =
    echo_handler-Echoes (arrives 0 ∷ arrives 9 ∷ read_interrupted ∷ []) writes (ascii "hey")

echo_handler-enough_example :
    echo_handler (arrives 0 ∷ arrives 9 ∷ arrives 9 ∷ arrives 9 ∷ []) writes (ascii "hey")
    ≡ some (ascii "hey", closed)
unfolding progress
echo_handler-enough_example =
    echo_handler-enough (arrives 0 ∷ arrives 9 ∷ arrives 9 ∷ arrives 9 ∷ []) writes (ascii "hey")
      (tt, (tt, (tt, (tt, tt)))) (omega arith)
      ((λ e. cc), ((λ e. cc), ((λ e. cc), ((λ e. cc), ((λ e. cc), tt))))) (omega arith)

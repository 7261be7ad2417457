-- ===== src/TftpServer/Tests.antt =====
-- Runs of the server of MP3/src/tftp_server.cpp at fixed inputs.
use computer_networking_tamu.Base.{
  ℕ, Bool, true, false, zero, suc, ntohs, ◌≡◌, ◌≢◌, ◌+◌, ◌/◌, refl, List, [], ◌∷◌, ◌++◌, Option,
  none, some, ok, ◌>>=◌, ascii, replicate, length, length-replicate, arith, le16,
}
use computer_networking_tamu.Tftp.Types.{netascii, octet, mode_string}
use computer_networking_tamu.Tftp.Packets.{make_rrq, make_wrq, sent}
use computer_networking_tamu.TftpServer.Transfer.{interrupted, timed_out, received, serve, left}
use computer_networking_tamu.TftpServer.Handler.{handle}
use computer_networking_tamu.TftpServer.Storing
use computer_networking_tamu.TftpServer.Storing.{Arrival, Progress, storing, stored, spoiled, store}
use computer_networking_tamu.TftpServer.Storing.Octet.{AreNoises, sends, store-octet}
use computer_networking_tamu.TftpServer.Receiver.{collect}
use computer_networking_tamu.TftpServer.Delivery.{collect-serve}
use computer_networking_tamu.TftpServer.Completion.{acks, Complete}
use computer_networking_tamu.TftpServer.Results.{collect-acks, collect-interrupted}
use computer_networking_tamu.TftpServer.Requests.{
  answer, error_of, handle-rrq, permission, handle-wrq, error_of-handle,
}

abbrev hello : List ℕ
hello = ascii "hello"

collect-serve_example :
    collect 1 (serve [] hello (timed_out ∷ received 1024 256 ∷ [])).0
      ++ left (serve [] hello (timed_out ∷ received 1024 256 ∷ [])).1
    ≡ hello
collect-serve_example =
    collect-serve [] hello (timed_out ∷ received 1024 256 ∷ []) ((λ e. cc), ((λ e. cc), tt))

collect-acks_example :
    Complete (serve [] hello (acks (length hello / 512 + 1) 1)).1
    × (collect 1 (serve [] hello (acks (length hello / 512 + 1) 1)).0 ≡ hello)
collect-acks_example = collect-acks [] hello (omega arith)

abbrev large : List ℕ
large = replicate 513 65

collect-interrupted_example :
    collect 1 (serve [] large (interrupted ∷ received 1024 256 ∷ [])).0
      ++ left (serve [] large (interrupted ∷ received 1024 256 ∷ [])).1
    ≢ large
collect-interrupted_example =
    collect-interrupted [] large (received 1024 256 ∷ [])
      (rw (length-replicate {A = ℕ} 513 65) (omega arith)) ((λ e. cc), tt)

abbrev no_files : List ℕ → Option (List ℕ)
no_files name = none

abbrev one_file : List ℕ → Option (List ℕ)
one_file name = some hello

handle-rrq_example :
    (sent (make_rrq [] (ascii "a") (mode_string octet)) >>= λ wire. handle one_file [] (wire ++ []))
    ≡ answer [] octet (one_file (ascii "a"))
handle-rrq_example = handle-rrq one_file [] [] [] (ascii "a") octet (omega arith)

error_of-handle_example :
    ((sent (make_rrq [] (ascii "a") (mode_string octet)) >>= λ wire.
    handle no_files [] (wire ++ []))
        >>= error_of)
      ≡ ok (1280, 256, [])
    × ((handle no_files [] (le16 768 ++ []) >>= error_of) ≡ ok (1280, 1024, []))
error_of-handle_example =
    error_of-handle no_files [] [] [] (ascii "a") [] octet 768 (omega arith) refl (omega arith)
      (omega arith) (omega arith)

abbrev quiet : List (List Arrival)
quiet =
    (Storing.timed_out
      ∷ Storing.received 768 1792 []
      ∷ Storing.interrupted
      ∷ Storing.timed_out
      ∷ Storing.timed_out
      ∷ Storing.timed_out
      ∷ Storing.timed_out
      ∷ [])
    ∷ []

quiet-AreNoises : AreNoises 1 quiet
unfolding AreNoises ntohs
quiet-AreNoises = (
  (
    tt,
    (
      omega arith,
      (
        (refl, λ e. omega arith),
        (
          omega arith,
          (
            tt,
            (
              omega arith,
              (
                tt,
                (omega arith, (tt, (omega arith, (tt, (omega arith, (tt, (omega arith, tt))))))),
              ),
            ),
          ),
        ),
      ),
    ),
  ),
  tt,
)

store-octet_example : (store octet (sends quiet 1 hello)).1 ≡ stored hello
store-octet_example = store-octet quiet hello quiet-AreNoises (omega arith)

handle-wrq_example :
    (sent (make_wrq [] hello (mode_string octet)) >>= λ wire. handle no_files [] (wire ++ []))
    ≡ permission [] hello octet none
handle-wrq_example = handle-wrq no_files [] [] [] hello octet (omega arith)

-- An upload in netascii mode of 768 line ends behind 256 letters.
abbrev is_spoiled : Progress → Bool
is_spoiled (spoiled file) = true
is_spoiled (stored file) = false
is_spoiled (storing u) = false

lines : ℕ → List ℕ
lines zero = []
lines (suc n) = 13 ∷ 10 ∷ lines n

spoiled_test :
    is_spoiled
      (store netascii (
        Storing.received 768 256 (replicate 256 97 ++ lines 128)
        ∷ Storing.received 768 512 (lines 256)
        ∷ [])).1
    ≡ true
unfolding store lines replicate ntohs
spoiled_test = refl

-- ===== src/Echo.antt =====
-- The echo server MP1/src/echo_server.cpp: what its handler does with a connection, over libtcp's
-- client. `none` says that a call of read or write is still waiting.
mod Delivery
mod Tests
use computer_networking_tamu.Base.{
  ℕ, List, [], ◌∷◌, ◌++◌, Option, none, some, length, take, drop, min,
}
use computer_networking_tamu.Tcp.Client.{
  Write, Read, read_interrupted, read_failed, arrives, Sent, writen,
}

-- Each break of the loop: a read that fails, the end of the stream, a write that fails.
pub data Ended : Type 0 where
  read_ended closed write_ended : Ended

abbrev pub appended : List ℕ → Option (List ℕ × Ended) → Option (List ℕ × Ended)
appended bytes none = none
appended bytes (some (sent, ended)) = some (bytes ++ sent, ended)

-- What follows a call of writen: the next round with the calls of write to come, or the end.
abbrev pub echoed : (List Write → Option (List ℕ × Ended)) → Option Sent → Option (List ℕ × Ended)
echoed rest none = none
echoed rest (some (none, sent, writes)) = some (sent, write_ended)
echoed rest (some (some n, sent, writes)) = appended sent (rest writes)

-- echo_handler for what comes in: the bytes it sends, and how it ends. A read asks for 256 bytes,
-- and one that is interrupted ends the loop like any that fails.
unfoldable pub echo_handler : List Read → List Write → List ℕ → Option (List ℕ × Ended)
unfolding writen
echo_handler [] writes stream = none
echo_handler (read_interrupted ∷ reads) writes stream = some ([], read_ended)
echo_handler (read_failed ∷ reads) writes stream = some ([], read_ended)
echo_handler (arrives more ∷ reads) writes [] = some ([], closed)
echo_handler (arrives more ∷ reads) writes (b ∷ stream) =
    echoed (λ rest. echo_handler reads rest (drop (min more 255) stream))
      (writen writes (b ∷ take (min more 255) stream))

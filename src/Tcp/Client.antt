-- ===== src/Tcp/Client.antt =====
-- What a client of libtcp sends and reads, libtcp/src/client.cpp. How the calls of write and read
-- end is given, one after the other; `none` says that a call is still waiting. The bytes that come
-- in are a list that ends where the peer closes the connection.
pub mod Sending
pub mod Receiving
pub mod Lines
use computer_networking_tamu.Base.{
  ℕ, zero, suc, ◌+◌, ◌-◌, ◌%◌, min, List, [], ◌∷◌, ◌++◌, Option, none, some, Result, ok, err,
  length, take, drop, ◌==◌, if◌then◌else◌,
}

-- ::write: EINTR, another error, or the number of bytes that the system has room for.
pub data Write : Type 0 where
  write_interrupted write_failed : Write
  accepts : ℕ → Write

-- ::read: EINTR, another error, or the number of bytes behind the first that are there.
pub data Read : Type 0 where
  read_interrupted read_failed : Read
  arrives : ℕ → Read

pub data ReadExit : Type 0 where
  read_error early_end : ReadExit

abbrev pub Sent : Type 0
Sent = Option ℕ × List ℕ × List Write

abbrev pub passed : List ℕ → Option Sent → Option Sent
passed bytes none = none
passed bytes (some (returned, sent, calls)) = some (returned, bytes ++ sent, calls)

-- The loop of writen for what is left of the buffer, with n bytes written. It returns `some n`, or
-- `none` for a negative number.
unfoldable pub writen_from : List Write → List ℕ → ℕ → Option Sent
writen_from calls [] n = some (some n, [], calls)
writen_from [] (b ∷ buffer) n = none
writen_from (write_interrupted ∷ calls) (b ∷ buffer) n = writen_from calls (b ∷ buffer) n
writen_from (write_failed ∷ calls) (b ∷ buffer) n = some (none, [], calls)
writen_from (accepts room ∷ calls) (b ∷ buffer) n =
    passed (take room (b ∷ buffer))
      (writen_from calls (drop room (b ∷ buffer)) (n + min room (length (b ∷ buffer))))

unfoldable pub writen : List Write → List ℕ → Option Sent
unfolding writen_from
writen calls buffer = writen_from calls buffer 0

-- What a read takes, what it leaves of the stream, and the calls to come.
abbrev pub Taken : Type 0
Taken = List ℕ × List ℕ × List Read

abbrev pub filled : List ℕ → Option (Result ReadExit Taken) → Option (Result ReadExit Taken)
filled bytes none = none
filled bytes (some (err e)) = some (err e)
filled bytes (some (ok (taken, stream, calls))) = some (ok (bytes ++ taken, stream, calls))

-- readn, for the bytes that are still to be read.
unfoldable pub readn : List Read → List ℕ → ℕ → Option (Result ReadExit Taken)
readn calls stream zero = some (ok ([], stream, calls))
readn [] stream (suc len) = none
readn (read_interrupted ∷ calls) stream (suc len) = readn calls stream (suc len)
readn (read_failed ∷ calls) stream (suc len) = some (err read_error)
readn (arrives more ∷ calls) [] (suc len) = some (err early_end)
readn (arrives more ∷ calls) (b ∷ stream) (suc len) =
    let k = min (min more len) (length stream) in
    filled (b ∷ take k stream) (readn calls (drop k stream) (len - k))

-- The loop of readline, for the bytes that there is still room for.
unfoldable pub line_from : List Read → List ℕ → ℕ → Option (Result ReadExit Taken)
line_from calls stream zero = some (ok ([], stream, calls))
line_from [] stream (suc room) = none
line_from (read_interrupted ∷ calls) stream (suc room) = line_from calls stream (suc room)
line_from (read_failed ∷ calls) stream (suc room) = some (err read_error)
line_from (arrives more ∷ calls) [] (suc room) = some (ok ([], [], calls))
line_from (arrives more ∷ calls) (b ∷ stream) (suc room) =
    let rest = line_from calls stream room in
    if b == 10 then some (ok (b ∷ [], stream, calls)) else filled (b ∷ []) rest

-- readline: `maxlen - 1` wraps. It returns the number of the bytes taken.
unfoldable pub readline : List Read → List ℕ → ℕ → Option (Result ReadExit Taken)
unfolding line_from
readline calls stream maxlen =
    line_from calls stream ((maxlen + 18446744073709551615) % 18446744073709551616)

-- What readline writes to the buffer for the bytes that it took.
unfoldable pub line_buffer : List ℕ → List ℕ
line_buffer [] = []
line_buffer (b ∷ bytes) = b ∷ bytes ++ 0 ∷ []

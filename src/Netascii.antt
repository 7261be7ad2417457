-- ===== src/Netascii.antt =====
-- The two stream buffers of MP3/src/netascii.hpp. A call of `underflow` takes bytes from the file
-- below and gives those that the buffer then holds, or `none` at the end of the file; a reader of
-- the stream gets the buffers one behind the other.
pub mod RoundTrip
mod Tests
use computer_networking_tamu.Base.{
  ℕ, zero, suc, ◌≤◌, ◌<◌, ◌≡◌, refl, ap, List, [], ◌∷◌, ◌++◌, Option, none, some, length, ◌==◌,
  if◌then◌else◌, arith, drop,
}

abbrev pub lf : ℕ
lf = 10

abbrev pub cr : ℕ
cr = 13

abbrev pub Underflow : Type 0
Underflow = List ℕ → Option (List ℕ × List ℕ)

-- What UNIXtoNetasciiStreamBuf does on a CR: it peeks at the next byte, which the end of the file
-- gives as EOF, the char 0xFF.
unfoldable pub peeked : List ℕ → List ℕ × List ℕ
peeked [] = (cr ∷ 0 ∷ [], [])
peeked (next ∷ file) = if next == lf then (cr ∷ lf ∷ [], file) else (cr ∷ 0 ∷ [], next ∷ file)

-- UNIXtoNetasciiStreamBuf::underflow
unfoldable pub to_netascii : Underflow
unfolding peeked
to_netascii [] = none
to_netascii (b ∷ file) =
    if b == lf
    then some (cr ∷ lf ∷ [], file)
    else if b == cr
    then some (peeked file)
    else some (b ∷ [], file)

-- What NetasciitoUNIXStreamBuf does on a CR.
unfoldable pub after_cr : List ℕ → List ℕ × List ℕ
after_cr [] = (cr ∷ [], [])
after_cr (next ∷ file) =
    if next == lf
    then (lf ∷ [], file)
    else if next == 0
    then (cr ∷ [], file)
    else (cr ∷ [], next ∷ file)

-- NetasciitoUNIXStreamBuf::underflow
unfoldable pub to_unix : Underflow
unfolding after_cr
to_unix [] = none
to_unix (b ∷ file) = if b == cr then some (after_cr file) else some (b ∷ [], file)

-- The bytes that a reader gets from at most so many calls of `underflow`.
unfoldable pub drained : Underflow → ℕ → List ℕ → List ℕ
drained underflow zero file = []
drained underflow (suc fuel) file = elim (underflow file) [
  | none ↦ []
  | some (buffer, rest) ↦ buffer ++ drained underflow fuel rest
]

-- The whole stream: a call takes one byte at least, so the file's length is fuel enough.
unfoldable pub encode : List ℕ → List ℕ
unfolding drained to_netascii
encode file = drained to_netascii (length file) file

unfoldable pub decode : List ℕ → List ℕ
unfolding drained to_unix
decode file = drained to_unix (length file) file

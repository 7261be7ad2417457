-- ===== src/Tcp/Client/Receiving.antt =====
-- What readn of libtcp's client has read when it returns.
use computer_networking_tamu.Base.{
  ℕ, zero, suc, ◌+◌, ◌-◌, ◌≤◌, ◌<◌, ◌≡◌, ◌≢◌, refl, min, List, [], ◌∷◌, ◌++◌, Option, none, some,
  Result, ok, err, length, take, drop, arith, ap, sym, ◌∙◌, subst, take-append-drop, length-take,
  length-drop, append_assoc, length-append, All, append-nil, length-zero, take-append_length,
  drop-append_length,
}
use computer_networking_tamu.Tcp.Client.{
  Write, Read, read_interrupted, read_failed, arrives, ReadExit, read_error, early_end, Taken,
  filled, readn, writen,
}
use computer_networking_tamu.Tcp.Client.Sending.{Delivers, writen-Delivers}

-- `len` bytes taken from the front of the stream, or a stream that is shorter.
abbrev pub Fills : List ℕ → ℕ → Option (Result ReadExit Taken) → Type 0
Fills stream len none = Unit
Fills stream len (some (ok (taken, rest, calls))) = (taken ++ rest ≡ stream) × (length taken ≡ len)
Fills stream len (some (err read_error)) = Unit
Fills stream len (some (err early_end)) = length stream < len

filled-Fills :
    (bytes stream : List ℕ) (len : ℕ) (r : Option (Result ReadExit Taken))
    → Fills stream len r
    → Fills (bytes ++ stream) (length bytes + len) (filled bytes r)
filled-Fills bytes stream len none f = tt
filled-Fills bytes stream len (some (ok (taken, rest, calls))) (e, l) = (
  append_assoc bytes taken rest ∙ ap (λ s. bytes ++ s) e,
  omega (arith, length-append bytes taken),
)
filled-Fills bytes stream len (some (err read_error)) f = tt
filled-Fills bytes stream len (some (err early_end)) f = omega (arith, length-append bytes stream)

-- A read of 1 + k bytes, of those that are there and asked for.
taken-Fills :
    (b : ℕ) (stream : List ℕ) (k len : ℕ) (r : Option (Result ReadExit Taken))
    → k ≤ length stream
    → k ≤ len
    → Fills (drop k stream) (len - k) r
    → Fills (b ∷ stream) (suc len) (filled (b ∷ take k stream) r)
taken-Fills b stream k len r h h' f =
    let size : suc (length (take k stream)) + (len - k) ≡ suc len =
      omega (arith, length-take k stream) in
    subst (λ n. Fills (b ∷ stream) n (filled (b ∷ take k stream) r)) size
      (subst
        (λ s.
          Fills (b ∷ s) (suc (length (take k stream)) + (len - k)) (filled (b ∷ take k stream) r))
        (take-append-drop k stream)
        (filled-Fills (b ∷ take k stream) (drop k stream) (len - k) r f))

-- However the calls of read end: when readn returns it has taken the first `len` bytes of the
-- stream, in order and none beyond; it exits with "EOF before finished" only on a stream that is
-- shorter.
pub readn-Fills :
    (calls : List Read) (stream : List ℕ) (len : ℕ) → Fills stream len (readn calls stream len)
unfolding readn
readn-Fills calls stream zero = (refl, refl)
readn-Fills [] stream (suc len) = tt
readn-Fills (read_interrupted ∷ calls) stream (suc len) = readn-Fills calls stream (suc len)
readn-Fills (read_failed ∷ calls) stream (suc len) = tt
readn-Fills (arrives more ∷ calls) [] (suc len) = omega arith
readn-Fills (arrives more ∷ calls) (b ∷ stream) (suc len) =
    let k = min (min more len) (length stream) in
    taken-Fills b stream k len _ (omega arith) (omega arith)
      (readn-Fills calls (drop k stream) (len - k))

-- What writen sends on one side of a connection, when it returns a number, readn of that many bytes
-- takes from it on the other side, when it returns, however both sides are split into calls.
pub readn-writen :
    (writes writes' : List Write) (reads reads' : List Read) (buffer sent taken rest : List ℕ)
    (n : ℕ)
    → writen writes buffer ≡ some (some n, sent, writes')
    → readn reads sent n ≡ some (ok (taken, rest, reads'))
    → (taken ≡ buffer) × (rest ≡ [])
readn-writen writes writes' reads reads' buffer sent taken rest n e e' =
    let (same, size) = subst (Delivers buffer 0) e (writen-Delivers writes buffer) in
    let (split, filled_) = subst (Fills sent n) e' (readn-Fills reads sent n) in
    let size' : length rest ≡ 0 =
      omega (arith, length-append taken rest, ap length split, ap length same) in
    let none_left = length-zero rest size' in
    (sym (append-nil taken) ∙ ap (λ r. taken ++ r) (sym none_left) ∙ split ∙ same, none_left)

-- The calls that do not wait and do not fail.
unfoldable pub arrivals : List Read → ℕ
arrivals [] = 0
arrivals (read_interrupted ∷ calls) = arrivals calls
arrivals (read_failed ∷ calls) = arrivals calls
arrivals (arrives more ∷ calls) = suc (arrivals calls)

-- The call returns.
abbrev pub Returns : Option (Result ReadExit Taken) → Type 0
Returns r = (out : Taken) × (r ≡ some (ok out))

pub filled-Returns :
    (bytes : List ℕ) (r : Option (Result ReadExit Taken)) → Returns r → Returns (filled bytes r)
filled-Returns bytes r ((taken, rest, calls), e) = ((bytes ++ taken, rest, calls), rw e refl)

readn-Returns :
    (calls : List Read) (stream : List ℕ) (len : ℕ)
    → All (λ c. c ≢ read_failed) calls
    → len ≤ arrivals calls
    → len ≤ length stream
    → Returns (readn calls stream len)
unfolding readn arrivals
readn-Returns calls stream zero ok_ h h' = (([], stream, calls), refl)
readn-Returns [] stream (suc len) ok_ h h' = absurd (omega arith)
readn-Returns (read_interrupted ∷ calls) stream (suc len) ok_ h h' =
    readn-Returns calls stream (suc len) ok_.1 h h'
readn-Returns (read_failed ∷ calls) stream (suc len) ok_ h h' = absurd (ok_.0 refl)
readn-Returns (arrives more ∷ calls) [] (suc len) ok_ h h' = absurd (omega arith)
readn-Returns (arrives more ∷ calls) (b ∷ stream) (suc len) ok_ h h' =
    let k = min (min more len) (length stream) in
    filled-Returns (b ∷ take k stream) _ (
      readn-Returns calls (drop k stream) (len - k) ok_.1 (omega arith)
        (omega (arith, length-drop k stream)))

-- When no call of read fails and as many as are asked for find a byte, readn returns the first
-- `len` bytes of a stream that has them, and leaves the others.
pub readn-enough :
    (calls : List Read) (stream : List ℕ) (len : ℕ)
    → All (λ c. c ≢ read_failed) calls
    → len ≤ arrivals calls
    → len ≤ length stream
    → (calls' : List Read) × (readn calls stream len
        ≡ some (ok (take len stream, drop len stream, calls')))
readn-enough calls stream len ok_ h h' =
    let ((taken, rest, calls'), e) = readn-Returns calls stream len ok_ h h' in
    let (split, size) = subst (Fills stream len) e (readn-Fills calls stream len) in
    let front : take len stream ≡ taken =
      ap (λ s. take len s) (sym split)
      ∙ ap (λ n. take n (taken ++ rest)) (sym size)
      ∙ take-append_length taken rest in
    let back : drop len stream ≡ rest =
      ap (λ s. drop len s) (sym split)
      ∙ ap (λ n. drop n (taken ++ rest)) (sym size)
      ∙ drop-append_length taken rest in
    (calls', rw (front, back, e) refl)

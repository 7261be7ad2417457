-- ===== src/Tcp/Client/Lines.antt =====
-- What readline of libtcp's client has read when it returns.
use computer_networking_tamu.Base.{
  ℕ, zero, suc, ◌+◌, ◌-◌, ◌%◌, ◌≤◌, ◌<◌, ◌≡◌, ◌≢◌, refl, List, [], ◌∷◌, ◌++◌, Option, none, some,
  Result, ok, err, length, arith, ap, subst, ◌==◌, Bool-cases, inl, inr, ◌⊎◌, All, min,
  length-append, ==_iff,
}
use computer_networking_tamu.Tcp.Client.{
  Read, read_interrupted, read_failed, arrives, ReadExit, read_error, Taken, filled, line_from,
  readline, line_buffer,
}
use computer_networking_tamu.Tcp.Client.Receiving.{Returns, filled-Returns, arrivals}

-- The line at the front of a stream, of at most `room` bytes: its only newline is its last byte, and
-- without one it fills the room or the stream ends with it.
pub record IsLine (stream : List ℕ) (room : ℕ) (line rest : List ℕ) : Type 0 where
  pub split : line ++ rest ≡ stream
  pub fits : length line ≤ room
  pub body : List ℕ
  pub tail : List ℕ
  pub parts : body ++ tail ≡ line
  pub plain : All (λ b. b ≢ 10) body
  pub ends : (tail ≡ 10 ∷ []) ⊎ ((tail ≡ []) × ((length line ≡ room) ⊎ (rest ≡ [])))

abbrev pub TakesLine : List ℕ → ℕ → Option (Result ReadExit Taken) → Type 0
TakesLine stream room none = Unit
TakesLine stream room (some (err e)) = e ≡ read_error
TakesLine stream room (some (ok (line, rest, calls))) = IsLine stream room line rest

longer :
    (b : ℕ) (stream : List ℕ) (room : ℕ) (line rest : List ℕ)
    → b ≢ 10
    → IsLine stream room line rest
    → IsLine (b ∷ stream) (suc room) (b ∷ line) rest
longer b stream room line rest h l = record {
  split = ap (◌∷◌ b) l.split;
  fits = omega (arith, l.fits);
  body = b ∷ l.body;
  tail = l.tail;
  parts = ap (◌∷◌ b) l.parts;
  plain = (h, l.plain);
  ends = elim l.ends [
    | inl e ↦ inl e
    | inr (e, inl full) ↦ inr (e, inl (ap suc full))
    | inr (e, inr end_) ↦ inr (e, inr end_)
  ];
}

filled-TakesLine :
    (b : ℕ) (stream : List ℕ) (room : ℕ) (r : Option (Result ReadExit Taken))
    → b ≢ 10
    → TakesLine stream room r
    → TakesLine (b ∷ stream) (suc room) (filled (b ∷ []) r)
filled-TakesLine b stream room none h t = tt
filled-TakesLine b stream room (some (err e)) h t = t
filled-TakesLine b stream room (some (ok (line, rest, calls))) h t =
    longer b stream room line rest h t

line_from-TakesLine :
    (calls : List Read) (stream : List ℕ) (room : ℕ)
    → TakesLine stream room (line_from calls stream room)
unfolding line_from
line_from-TakesLine calls stream zero = record {
  split = refl;
  fits = omega arith;
  body = [];
  tail = [];
  parts = refl;
  plain = tt;
  ends = inr (refl, inl refl);
}
line_from-TakesLine [] stream (suc room) = tt
line_from-TakesLine (read_interrupted ∷ calls) stream (suc room) =
    line_from-TakesLine calls stream (suc room)
line_from-TakesLine (read_failed ∷ calls) stream (suc room) = refl
line_from-TakesLine (arrives more ∷ calls) [] (suc room) = record {
  split = refl;
  fits = omega arith;
  body = [];
  tail = [];
  parts = refl;
  plain = tt;
  ends = inr (refl, inr refl);
}
line_from-TakesLine (arrives more ∷ calls) (b ∷ stream) (suc room) = elim (Bool-cases (b == 10)) [
  | inl e ↦ rw e (record {
    split = refl;
    fits = omega arith;
    body = [];
    tail = b ∷ [];
    parts = refl;
    plain = tt;
    ends = inl (ap (λ c. c ∷ []) ((==_iff b 10).0 e));
  })
  | inr e ↦
      rw e (
        filled-TakesLine b stream room _ (λ h. ground arith)
          (line_from-TakesLine calls stream room))
]

wrapped :
    (maxlen : ℕ)
    → 0 < maxlen
    → maxlen < 18446744073709551616
    → (maxlen + 18446744073709551615) % 18446744073709551616 ≡ maxlen - 1
wrapped maxlen h h' = omega arith

-- For a buffer of at least one byte, however the calls of read end: when readline returns it has
-- taken the line at the front of the stream, of at most `maxlen - 1` bytes.
pub readline-TakesLine :
    (calls : List Read) (stream : List ℕ) (maxlen : ℕ)
    → 0 < maxlen
    → maxlen < 18446744073709551616
    → TakesLine stream (maxlen - 1) (readline calls stream maxlen)
unfolding readline
readline-TakesLine calls stream maxlen h h' =
    rw (wrapped maxlen h h') (line_from-TakesLine calls stream (maxlen - 1))

abbrev pub Bounded : ℕ → Option (Result ReadExit Taken) → Type 0
Bounded maxlen none = Unit
Bounded maxlen (some (err e)) = Unit
Bounded maxlen (some (ok (line, rest, calls))) = length (line_buffer line) ≤ maxlen

line_buffer-length : (line : List ℕ) (n : ℕ) → length line < n → length (line_buffer line) ≤ n
unfolding line_buffer
line_buffer-length [] n h = omega arith
line_buffer-length (b ∷ line) n h = omega (arith, length-append line (0 ∷ []))

TakesLine-Bounded :
    (stream : List ℕ) (maxlen : ℕ) (r : Option (Result ReadExit Taken))
    → 0 < maxlen
    → TakesLine stream (maxlen - 1) r
    → Bounded maxlen r
TakesLine-Bounded stream maxlen none h t = tt
TakesLine-Bounded stream maxlen (some (err e)) h t = tt
TakesLine-Bounded stream maxlen (some (ok (line, rest, calls))) h t =
    line_buffer-length line maxlen (omega (arith, t.fits))

-- readline writes, the NUL behind the line included, at most `maxlen` bytes to a buffer of at least
-- one byte.
pub readline-Bounded :
    (calls : List Read) (stream : List ℕ) (maxlen : ℕ)
    → 0 < maxlen
    → maxlen < 18446744073709551616
    → Bounded maxlen (readline calls stream maxlen)
readline-Bounded calls stream maxlen h h' =
    TakesLine-Bounded stream maxlen _ h (readline-TakesLine calls stream maxlen h h')

line_from-Returns :
    (calls : List Read) (stream : List ℕ) (room : ℕ)
    → All (λ c. c ≢ read_failed) calls
    → min room (suc (length stream)) ≤ arrivals calls
    → Returns (line_from calls stream room)
unfolding line_from arrivals
line_from-Returns calls stream zero ok_ h = (([], stream, calls), refl)
line_from-Returns [] stream (suc room) ok_ h = absurd (omega arith)
line_from-Returns (read_interrupted ∷ calls) stream (suc room) ok_ h =
    line_from-Returns calls stream (suc room) ok_.1 h
line_from-Returns (read_failed ∷ calls) stream (suc room) ok_ h = absurd (ok_.0 refl)
line_from-Returns (arrives more ∷ calls) [] (suc room) ok_ h = (([], [], calls), refl)
line_from-Returns (arrives more ∷ calls) (b ∷ stream) (suc room) ok_ h =
    elim (Bool-cases (b == 10)) [
      | inl e ↦ rw e ((b ∷ [], stream, calls), refl)
      | inr e ↦
          rw e (filled-Returns (b ∷ []) _ (line_from-Returns calls stream room ok_.1 (omega arith)))
    ]

-- For a buffer of 1 to 2 ^ 64 - 1 bytes, when no call of read fails and enough find a byte or the
-- end of the stream, readline returns the line at the front of the stream, of at most `maxlen - 1`
-- bytes, leaves the rest, and writes at most `maxlen` bytes to the buffer, the NUL included.
pub readline-enough :
    (calls : List Read) (stream : List ℕ) (maxlen : ℕ)
    → 0 < maxlen
    → maxlen < 18446744073709551616
    → All (λ c. c ≢ read_failed) calls
    → min (maxlen - 1) (suc (length stream)) ≤ arrivals calls
    → (line rest : List ℕ) × (calls' : List Read) × (readline calls stream maxlen
        ≡ some (ok (line, rest, calls')))
      × IsLine stream (maxlen - 1) line rest
      × (length (line_buffer line) ≤ maxlen)
unfolding readline
readline-enough calls stream maxlen h h' ok_ enough =
    let ((line, rest, calls'), e) = line_from-Returns calls stream (maxlen - 1) ok_ enough in
    let e' : readline calls stream maxlen ≡ some (ok (line, rest, calls')) =
      rw (wrapped maxlen h h') e in
    let l =
      subst (TakesLine stream (maxlen - 1)) e' (readline-TakesLine calls stream maxlen h h') in
    (line, rest, calls', e', l, line_buffer-length line maxlen (omega (arith, l.fits)))

-- ===== src/TftpServer/Completion.antt =====
-- The transfers of MP3/src/tftp_server.cpp that end.
use computer_networking_tamu.Base.{
  length-zero, ℕ, zero, suc, ◌+◌, ◌/◌, ◌-◌, ◌%◌, ◌≤◌, ◌<◌, ◌≡◌, ◌≢◌, refl, ap, sym, subst, List, [],
  ◌∷◌, length, take, drop, length-take, length-drop, Bool, true, false, not, ◌&&◌, ◌==◌,
  if◌then◌else◌, htons, ntohs-htons, arith, Bool-cases, inl, inr, ==-refl, ==_iff, min,
}
use computer_networking_tamu.TftpServer.Transfer.{
  Event, received, Transfer, Status, waiting, finished, send_content, read_chunk, turn, receive,
  step, run, start, serve, left,
}

-- The acknowledgments of so many blocks from a number on.
unfoldable pub acks : ℕ → ℕ → List Event
acks zero number = []
acks (suc k) number = received 1024 (htons number) ∷ acks k ((number + 1) % 65536)

abbrev pub Complete : Status → Type 0
Complete (waiting t) = ⊥
Complete (finished t) = t.stream ≡ []

pub run-finished :
    (memory : List ℕ) (events : List Event) (t : Transfer)
    → run memory events (finished t) ≡ ([], finished t)
unfolding run step
run-finished memory [] t = refl
run-finished memory (event ∷ events) t = rw (run-finished memory events t) refl

-- An acknowledgment of the last block goes on to the next chunk.
step-ack :
    (memory : List ℕ) (t : Transfer)
    → t.number < 65536
    → step memory (received 1024 (htons t.number)) (waiting t)
      ≡ read_chunk memory (record t { timeouts = 0; number = (t.number + 1) % 65536 })
unfolding step receive turn
step-ack memory t small = rw (ntohs-htons t.number small) (rw (==-refl t.number) refl)

-- How many acknowledgments a transfer waits for.
abbrev needed : Transfer → ℕ
needed t = if t.full then length t.stream / 512 + 2 else 1

-- The test by which the loop ends.
abbrev pub at_end : Transfer → Bool
at_end t = (length (take 512 t.stream) == 0) && not t.full

abbrev pub sent_chunk : Transfer → Transfer
sent_chunk t = record t {
  stream = drop 512 t.stream;
  content = take 512 t.stream;
  full = length (take 512 t.stream) == 512;
}

==-false : (a b : ℕ) → (a == b) ≡ false → a ≢ b
==-false a b h = ground arith

-- A chunk of less than 512 bytes is the last.
short_last : (t : Transfer) → (sent_chunk t).full ≡ false → (sent_chunk t).stream ≡ []
short_last t h =
    let p = ==-false (length (take 512 t.stream)) 512 h in
    length-zero (drop 512 t.stream)
      (omega (arith, length-take 512 t.stream, length-drop 512 t.stream))

not_and : (b : Bool) → (b && true) ≡ false → b ≡ false
not_and true e = e
not_and false e = e

needed-positive : (full : Bool) (n : ℕ) → (if full then n / 512 + 2 else 1) ≤ 0 → ⊥
needed-positive true n h = omega arith
needed-positive false n h = omega arith

count_step :
    (full : Bool) (n m d k : ℕ)
    → m ≡ min 512 n
    → d ≡ n - 512
    → (full ≡ false → n ≡ 0)
    → ((m == 0) && not full) ≡ false
    → (if full then n / 512 + 2 else 1) ≤ suc k
    → (if m == 512 then d / 512 + 2 else 1) ≤ k
count_step true n m d k em ed last e enough = elim (Bool-cases (m == 512)) [
  | inl p ↦ let q = (==_iff m 512).0 p in rw p (omega arith)
  | inr p ↦ rw p (omega arith)
]
count_step false n m d k em ed last e enough =
    let z = last refl in let p : m ≡ 0 = omega arith in absurd (==-false m 0 (not_and (m == 0) e) p)

needed-sent :
    (k : ℕ) (t : Transfer)
    → (t.full ≡ false → t.stream ≡ [])
    → at_end t ≡ false
    → needed t ≤ suc k
    → needed (sent_chunk t) ≤ k
needed-sent k t last e h =
    count_step t.full (length t.stream) (length (take 512 t.stream)) (length (drop 512 t.stream)) k
      (length-take 512 t.stream) (length-drop 512 t.stream) (λ p. ap length (last p)) e h

read_chunk-end :
    (memory : List ℕ) (t : Transfer) → at_end t ≡ true → (read_chunk memory t).1 ≡ finished t
unfolding read_chunk
read_chunk-end memory t e = rw e refl

pub read_chunk-more :
    (memory : List ℕ) (t : Transfer)
    → at_end t ≡ false
    → read_chunk memory t ≡ send_content memory (sent_chunk t)
unfolding read_chunk
read_chunk-more memory t e = rw e refl

at_end-empty : (t : Transfer) → at_end t ≡ true → t.stream ≡ []
at_end-empty t e =
    let p : length (take 512 t.stream) ≡ 0 = ground arith in
    length-zero t.stream (omega (arith, length-take 512 t.stream))

completes :
    (memory : List ℕ) (k : ℕ) (t : Transfer)
    → t.number < 65536
    → (t.full ≡ false → t.stream ≡ [])
    → needed t ≤ k
    → Complete (run memory (acks k t.number) (waiting t)).1
unfolding run acks
completes memory zero t small last enough = absurd (needed-positive t.full (length t.stream) enough)
completes memory (suc k) t small last enough =
    let n : ℕ = (t.number + 1) % 65536 in
    let u : Transfer = record t { timeouts = 0; number = n } in
    let after = λ (status : Status). Complete (run memory (acks k n) status).1 in
    subst (λ r. after r.1) (sym (step-ack memory t small))
      (elim (Bool-cases (at_end t)) [
        | inl e ↦
            subst after (sym (read_chunk-end memory u e)) (
              subst (λ r. Complete r.1) (sym (run-finished memory (acks k n) u)) (at_end-empty t e))
        | inr e ↦
            subst (λ r. after r.1) (sym (read_chunk-more memory u e))
              (completes memory k (sent_chunk u) (omega arith) (short_last t)
                (needed-sent k t last e enough))
      ])

-- The state in which a transfer starts.
abbrev pub first : List ℕ → Transfer
first stream = record { stream = stream; content = []; number = 1; timeouts = 0; full = false }

positive : (m : ℕ) (b : Bool) → 0 < m → ((m == 0) && b) ≡ false
positive m b h = ground arith

pub at_end-more : (t : Transfer) → 0 < length t.stream → at_end t ≡ false
at_end-more t h =
    positive (length (take 512 t.stream)) (not t.full) (omega (arith, length-take 512 t.stream))

pub at_end-first : (stream : List ℕ) → 0 < length stream → at_end (first stream) ≡ false
at_end-first stream h = at_end-more (first stream) h

pub Complete-serve :
    (memory stream : List ℕ)
    → 0 < length stream
    → Complete (serve memory stream (acks (length stream / 512 + 1) 1)).1
unfolding serve start turn
Complete-serve memory stream h =
    let t = sent_chunk (first stream) in
    let k : ℕ = length stream / 512 + 1 in
    subst (λ r. Complete (run memory (acks k 1) r.1).1)
      (sym (read_chunk-more memory (first stream) (at_end-first stream h)))
      (completes memory k t (omega arith) (short_last (first stream)) (
        count_step true (length stream) (length (take 512 stream)) (length (drop 512 stream)) k
          (length-take 512 stream) (length-drop 512 stream) (λ e. cc) (ground arith) (omega arith)))

pub left-Complete : (status : Status) → Complete status → left status ≡ []
left-Complete (waiting t) h = absurd h
left-Complete (finished t) h = h

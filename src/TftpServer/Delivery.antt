-- ===== src/TftpServer/Delivery.antt =====
-- What a client receives of a file that the server sends.
use computer_networking_tamu.Base.{
  ℕ, ◌+◌, ◌%◌, ◌≤◌, ◌<◌, ◌≡◌, ◌≢◌, refl, ap, sym, ◌∙◌, List, [], ◌∷◌, ◌++◌, append_assoc, length,
  take, take-append-drop, length-take, All, true, false, not, ◌&&◌, ◌==◌, leb, ntohs, arith,
  Bool-cases, inl, inr, ==-refl, subst,
}
use computer_networking_tamu.TftpServer.Transfer.{
  Event, interrupted, failed, timed_out, received, Transfer, Status, waiting, finished,
  send_content, read_chunk, turn, receive, step, run, start, serve, left,
}
use computer_networking_tamu.TftpServer.Receiver.{accept-data_wire, collect}

-- A transfer whose last packet a client that waits for block `expected` already has.
pub record Sent (expected : ℕ) (t : Transfer) : Type 0 where
  pub small : t.number < 65536
  pub fits : length t.content ≤ 512
  pub next : expected ≡ (t.number + 1) % 65536

-- A transfer whose next chunk is the block that the client waits for.
record Ready (expected : ℕ) (t : Transfer) : Type 0 where
  small : t.number < 65536
  next : expected ≡ t.number

abbrev pub Good : ℕ → Status → Type 0
Good expected (waiting t) = Sent expected t
Good expected (finished t) = Unit

-- The writes of one step give the client what the step takes from the file.
record Gives (expected : ℕ) (stream : List ℕ) (result : List (List ℕ) × Status) : Type 0 where
  expected' : ℕ
  bytes : List ℕ
  good : Good expected' result.1
  taken : bytes ++ left result.1 ≡ stream
  given :
      (wires : List (List ℕ))
      → collect expected (result.0 ++ wires) ≡ bytes ++ collect expected' wires

quiet :
    (expected : ℕ) (status : Status)
    → Good expected status
    → Gives expected (left status) ([], status)
quiet expected status good = record {
  expected' = expected;
  bytes = [];
  good = good;
  taken = refl;
  given = λ wires. refl;
}

pub not_== : (a b : ℕ) → a ≢ b → (a == b) ≡ false
not_== a b h = ground arith

-- A block that is sent again is passed over.
again :
    (memory : List ℕ) (expected : ℕ) (t : Transfer)
    → Sent expected t
    → Gives expected t.stream (send_content memory t)
unfolding collect
again memory expected t h = record {
  expected' = expected;
  bytes = [];
  good = h;
  taken = refl;
  given = λ wires.
      let a = accept-data_wire memory t.content t.number expected h.small h.fits in
      let e : (t.number == expected) ≡ false = not_== t.number expected (omega arith) in
      rw a (rw e refl);
}

-- A chunk that is sent for the first time is taken.
fresh :
    (memory : List ℕ) (expected : ℕ) (t : Transfer) (stream : List ℕ)
    → t.number < 65536
    → expected ≡ t.number
    → length t.content ≤ 512
    → t.content ++ t.stream ≡ stream
    → Gives expected stream (send_content memory t)
unfolding collect
fresh memory expected t stream small next fits taken = record {
  expected' = (expected + 1) % 65536;
  bytes = t.content;
  good = record { small = small; fits = fits; next = ap (λ n. (n + 1) % 65536) next };
  taken = taken;
  given = λ wires.
      let a = accept-data_wire memory t.content t.number expected small fits in
      let e : (t.number == expected) ≡ true =
        subst (λ n. (t.number == n) ≡ true) (sym next) (==-refl t.number) in
      rw a (rw e refl);
}

chunk :
    (memory : List ℕ) (expected : ℕ) (t : Transfer)
    → Ready expected t
    → Gives expected t.stream (read_chunk memory t)
unfolding read_chunk
chunk memory expected t h = elim (Bool-cases ((length (take 512 t.stream) == 0) && not t.full)) [
  | inl e ↦ rw e (quiet expected (finished t) tt)
  | inr e ↦ rw e (
      fresh memory expected _ t.stream h.small h.next (omega (arith, length-take 512 t.stream))
        (take-append-drop 512 t.stream))
]

turn-Sent :
    (memory : List ℕ) (expected : ℕ) (t : Transfer)
    → Sent expected t
    → Gives expected t.stream (turn memory true t)
unfolding turn
turn-Sent memory expected t h = elim (Bool-cases (leb 5 t.timeouts)) [
  | inl e ↦ rw e (quiet expected (finished t) tt)
  | inr e ↦ rw e (again memory expected t h)
]

turn-Ready :
    (memory : List ℕ) (expected : ℕ) (t : Transfer)
    → Ready expected t
    → Gives expected t.stream (turn memory false t)
unfolding turn
turn-Ready memory expected t h = elim (Bool-cases (leb 5 t.timeouts)) [
  | inl e ↦ rw e (quiet expected (finished t) tt)
  | inr e ↦ rw e (chunk memory expected t h)
]

receive-Gives :
    (memory : List ℕ) (opcode word expected : ℕ) (t : Transfer)
    → Sent expected t
    → Gives expected t.stream (receive memory opcode word t)
unfolding receive
receive-Gives memory opcode word expected t h = elim (Bool-cases (not (opcode == 1024))) [
  | inl e ↦ rw e (quiet expected (finished _) tt)
  | inr e ↦ rw e (elim (Bool-cases (not (ntohs word == t.number))) [
    | inl d ↦
        rw d (quiet expected (waiting _) (record { small = h.small; fits = h.fits; next = h.next }))
    | inr d ↦ rw d (
        turn-Ready memory expected (record t { timeouts = 0; number = (t.number + 1) % 65536 })
          (record { small = omega arith; next = h.next }))
  ])
]

step-Gives :
    (memory : List ℕ) (event : Event) (expected : ℕ) (status : Status)
    → event ≢ interrupted
    → Good expected status
    → Gives expected (left status) (step memory event status)
unfolding step
step-Gives memory interrupted expected (waiting t) h g = absurd (h refl)
step-Gives memory failed expected (waiting t) h g = quiet expected (finished t) tt
step-Gives memory timed_out expected (waiting t) h g =
    turn-Sent memory expected _ (record { small = g.small; fits = g.fits; next = g.next })
step-Gives memory (received opcode word) expected (waiting t) h g =
    receive-Gives memory opcode word expected t g
step-Gives memory event expected (finished t) h g = quiet expected (finished t) tt

pub run-collect :
    (memory : List ℕ) (events : List Event) (expected : ℕ) (status : Status)
    → All (λ event. event ≢ interrupted) events
    → Good expected status
    → collect expected (run memory events status).0 ++ left (run memory events status).1
      ≡ left status
unfolding run collect
run-collect memory [] expected status h g = refl
run-collect memory (event ∷ events) expected status h g =
    let s = step-Gives memory event expected status h.0 g in
    rw (s.given (run memory events (step memory event status).1).0) (
      append_assoc s.bytes _ _
      ∙ ap (◌++◌ s.bytes)
          (run-collect memory events s.expected' (step memory event status).1 h.1 s.good)
      ∙ s.taken)

-- At any point of a transfer of which no wait was interrupted by a signal, what a client collects
-- from the server's packets, by their block numbers and each block once, and what the server has
-- not yet read are together the file: nothing is lost, doubled or out of order, whatever times out
-- and whatever acknowledgments come, for a file of any length (the block numbers wrap at 65536).
pub collect-serve :
    (memory stream : List ℕ) (events : List Event)
    → All (λ event. event ≢ interrupted) events
    → collect 1 (serve memory stream events).0 ++ left (serve memory stream events).1 ≡ stream
unfolding serve start
collect-serve memory stream events h =
    let t : Transfer = record {
      stream = stream;
      content = [];
      number = 1;
      timeouts = 0;
      full = false;
    } in
    let s = turn-Ready memory 1 t (record { small = omega arith; next = refl }) in
    rw (s.given (run memory events (turn memory false t).1).0) (
      append_assoc s.bytes _ _
      ∙ ap (◌++◌ s.bytes) (run-collect memory events s.expected' (turn memory false t).1 h s.good)
      ∙ s.taken)

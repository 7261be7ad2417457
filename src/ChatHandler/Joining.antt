-- ===== src/ChatHandler/Joining.antt =====
-- How a client joins through its handler, and how that fails.
use computer_networking_tamu.Base.{
  ℕ, ◌≤◌, ◌<◌, ◌≡◌, refl, ap, sym, ◌∙◌, Bool, true, false, not, ◌&&◌, List, [], ◌∷◌, ◌++◌, map,
  some, ok, err, ◌>>=◌, All, length, lt→ltb, le→not_ltb, take, take-of_le, length-take, NoNul,
  replicate, arith,
}
use computer_networking_tamu.Sbcp.Types.{
  Failure, memory_fault, join, username, message_type, message_type-code, max_payload_length,
}
use computer_networking_tamu.Sbcp.Header.{Header}
use computer_networking_tamu.Sbcp.Message.{Message}
use computer_networking_tamu.Sbcp.Message
use computer_networking_tamu.Sbcp.Messages.{make_join}
use computer_networking_tamu.Sbcp.Reading.{attributes, get_username}
use computer_networking_tamu.Sbcp.Spec.Adding.{text_item}
use computer_networking_tamu.Sbcp.Spec.Getters.{attributes-Represents}
use computer_networking_tamu.Sbcp.RoundTrip.{single, single-length, get_username-join}
use computer_networking_tamu.ChatHandler.{
  whole, closed, got, read_message, init, make_main_fifo, make_handler_fifo, close_bootstrap,
  write_bootstrap, continues, Calls, bootstrap, handle_join, dispatch, from_client, from_main,
  Round, client_ready, main_ready, step, run,
}
use computer_networking_tamu.ChatHandler.Forwarding.{
  Traffic, round_of, IsPrinted, IsProper, all_passed_on, in_chat, goodbye, run-traffic,
}

-- The JOIN that libsbcp makes of a name.
record IsJoinOf (name : List ℕ) (m : Message) : Type 0 where
  made : make_join name ≡ ok m
  printed : IsPrinted m
  typed : message_type (Message.get_type m) ≡ some join
  named : get_username m ≡ ok (take 16 name)

make_join-IsJoinOf :
    (name : List ℕ) → length name ≤ 512 → NoNul name → (m : Message) × IsJoinOf name m
unfolding make_join Message.add_username Message.get_type
make_join-IsJoinOf name fits h =
    let (m, e, r) = single username name join tt fits in
    let limit = single-length username name in
    let shown = attributes-Represents m join (text_item username name ∷ []) r (omega arith) in
    (
      m,
      record {
        made = e;
        printed = (_, shown);
        typed = ap message_type r.has_type ∙ message_type-code join;
        named = ap (λ o. o >>= get_username) (sym e) ∙ get_username-join name fits h;
      },
    )

-- Calls that all succeed.
abbrev pub succeed : ℕ → ℕ → Calls
succeed main handler = record {
  makes_main = true;
  makes_handler = true;
  writes = true;
  opens_main = some main;
  opens_handler = some handler;
  closes = true;
}

step-join :
    (main handler : ℕ) (name : List ℕ) (m : Message)
    → length name < 16
    → IsJoinOf name m
    → step (client_ready (succeed main handler) (ok (got m))) init
      ≡ ok (
        in_chat main handler,
        make_main_fifo ∷ make_handler_fifo ∷ write_bootstrap name ∷ close_bootstrap ∷ [],
        continues,
      )
unfolding step from_client dispatch handle_join bootstrap init
step-join main handler name m short j =
    let whole_ : take 16 name ≡ name = take-of_le 16 name (omega arith) in
    rw j.printed.1 (rw j.typed (rw j.named (rw whole_ (rw (lt→ltb (length name) 16 short) refl))))

-- A client that joins with a name of fewer than 16 bytes and no NUL, when all calls succeed: the
-- handler makes both FIFOs and tells the main process the name. Then, while the client sends no
-- second JOIN and every message can be printed, each SEND and IDLE of the client is written to the
-- main process and its other messages go nowhere, each message of the main process is written to the
-- client, all in order; and when the client closes its connection both FIFOs are closed and unlinked.
pub run-session :
    (main handler : ℕ) (name : List ℕ) (traffic : List Traffic)
    → length name < 16
    → NoNul name
    → All IsProper traffic
    → (make_join name >>= λ m.
        run
          (client_ready (succeed main handler) (ok (got m))
            ∷ (map (round_of (succeed main handler)) traffic
                ++ (client_ready (succeed main handler) (ok closed) ∷ [])))
          init)
      ≡ ok (
          (make_main_fifo ∷ make_handler_fifo ∷ write_bootstrap name ∷ close_bootstrap ∷ [])
          ++ (all_passed_on handler traffic ++ goodbye main handler))
unfolding run
run-session main handler name traffic short h proper =
    let (m, j) = make_join-IsJoinOf name (omega arith) h in
    rw j.made (
      rw (step-join main handler name m short j)
        (rw (run-traffic (succeed main handler) main handler traffic proper) refl))

-- A client whose name has 16 bytes at least, of which a JOIN carries 16: strcpy writes the NUL past
-- the name's array.
pub join-long :
    (main handler : ℕ) (name : List ℕ) (rounds : List Round)
    → 16 ≤ length name
    → length name ≤ 512
    → NoNul name
    → (make_join name >>= λ m. run (client_ready (succeed main handler) (ok (got m)) ∷ rounds) init)
      ≡ err memory_fault
unfolding run step from_client dispatch handle_join bootstrap init
join-long main handler name rounds long fits h =
    let (m, j) = make_join-IsJoinOf name fits h in
    let size : 16 ≤ length (take 16 name) = omega (arith, length-take 16 name) in
    rw j.made (
      rw j.printed.1
        (rw j.typed (rw j.named (rw (le→not_ltb (length (take 16 name)) 16 size) refl))))

-- mkfifo fails for a FIFO that exists.
exists_already : (b : Bool) → not (b && false) ≡ true
exists_already true = refl
exists_already false = refl

-- A second JOIN of a client that has joined ends its handler at once, whatever the calls return and
-- whatever would come behind: it closes nothing and leaves both FIFOs in the directory.
pub join-again :
    (calls : Calls) (main handler : ℕ) (name : List ℕ) (rounds : List Round)
    → length name ≤ 512
    → NoNul name
    → (make_join name >>= λ m.
        run (client_ready calls (ok (got m)) ∷ rounds) (in_chat main handler))
      ≡ ok []
unfolding run step from_client dispatch handle_join
join-again calls main handler name rounds fits h =
    let (m, j) = make_join-IsJoinOf name fits h in
    rw j.made (rw j.printed.1 (rw j.typed (rw (exists_already calls.makes_main) refl)))

-- A header that validate rejects: from the client, printing the message throws the exception that
-- read_message caught, and the handler ends without closing or unlinking anything; from the main
-- process, it is passed over.
pub run-rejected :
    (calls : Calls) (header : Header) (body : List ℕ) (rounds : List Round) (main handler : ℕ)
    (e : Failure)
    → Message.validate (record { header = header; payload = replicate max_payload_length 0 })
      ≡ err e
    → (run (client_ready calls (read_message (whole header) body) ∷ rounds) (in_chat main handler)
        ≡ err e)
      × (step (main_ready (read_message (whole header) body)) (in_chat main handler)
          ≡ ok (in_chat main handler, [], continues))
unfolding run step from_client from_main read_message attributes
run-rejected calls header body rounds main handler e h = (rw h (rw h refl), rw h refl)

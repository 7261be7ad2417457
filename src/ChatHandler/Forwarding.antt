-- ===== src/ChatHandler/Forwarding.antt =====
-- What the handler of one client passes on, and what it leaves behind.
use computer_networking_tamu.Base.{
  ℕ, ◌≡◌, refl, ap, ◌∙◌, true, List, [], ◌∷◌, ◌++◌, map, some, ok, ◌>>=◌, All, ◌≢◌, sym,
  append_assoc, Bool, false, none, Option, if◌then◌else◌,
}
use computer_networking_tamu.Sbcp.Types.{
  MessageType, join, send, fwd, ack, nak, online, offline, idle, message_type,
}
use computer_networking_tamu.Sbcp.Message.{Message}
use computer_networking_tamu.Sbcp.Message
use computer_networking_tamu.Sbcp.Attribute.{Attribute}
use computer_networking_tamu.Sbcp.Reading.{attributes}
use computer_networking_tamu.ChatHandler.{
  closed, got, Handler, Action, unlink_main_fifo, unlink_handler_fifo, write, write_to_client,
  close, continues, Calls, forward, dispatch, from_client, from_main, Round, client_ready,
  main_ready, step, cleanup, resume, run,
}

-- A message that the client sends, and one that the main process sends.
pub data Traffic : Type 0 where
  from_user to_user : Message → Traffic

abbrev pub round_of : Calls → Traffic → Round
round_of calls (from_user m) = client_ready calls (ok (got m))
round_of calls (to_user m) = main_ready (ok (got m))

-- The handler's attributes can be printed.
abbrev pub IsPrinted : Message → Type 0
IsPrinted m = (printed : List Attribute) × (attributes m ≡ ok printed)

-- Any message but a JOIN from the client, and any from the main process, that can be printed.
abbrev pub IsProper : Traffic → Type 0
IsProper (from_user m) = IsPrinted m × (message_type (Message.get_type m) ≢ some join)
IsProper (to_user m) = IsPrinted m

-- The types of the messages that a client may send once it has joined.
abbrev pub is_chat : Option MessageType → Bool
is_chat none = false
is_chat (some join) = false
is_chat (some send) = true
is_chat (some fwd) = false
is_chat (some ack) = false
is_chat (some nak) = false
is_chat (some online) = false
is_chat (some offline) = false
is_chat (some idle) = true

abbrev pub passed_on : ℕ → Traffic → List Action
passed_on handler (from_user m) =
    if is_chat (message_type (Message.get_type m)) then write handler m ∷ [] else []
passed_on handler (to_user m) = write_to_client m ∷ []

abbrev pub all_passed_on : ℕ → List Traffic → List Action
all_passed_on handler [] = []
all_passed_on handler (t ∷ traffic) = passed_on handler t ++ all_passed_on handler traffic

-- A handler that has joined, with its two descriptors.
abbrev pub in_chat : ℕ → ℕ → Handler
in_chat main handler = record {
  handler_fd = some handler;
  main_fd = some main;
  fifos_created = true;
}

dispatch-passed_on :
    (o : Option MessageType) (calls : Calls) (m : Message) (main handler : ℕ)
    → o ≢ some join
    → dispatch o calls m (in_chat main handler)
      ≡ ok (in_chat main handler, if is_chat o then write handler m ∷ [] else [], continues)
unfolding dispatch forward
dispatch-passed_on none calls m main handler h = refl
dispatch-passed_on (some join) calls m main handler h = absurd (h refl)
dispatch-passed_on (some send) calls m main handler h = refl
dispatch-passed_on (some fwd) calls m main handler h = refl
dispatch-passed_on (some ack) calls m main handler h = refl
dispatch-passed_on (some nak) calls m main handler h = refl
dispatch-passed_on (some online) calls m main handler h = refl
dispatch-passed_on (some offline) calls m main handler h = refl
dispatch-passed_on (some idle) calls m main handler h = refl

step-traffic :
    (calls : Calls) (main handler : ℕ) (t : Traffic)
    → IsProper t
    → step (round_of calls t) (in_chat main handler)
      ≡ ok (in_chat main handler, passed_on handler t, continues)
unfolding step from_client from_main
step-traffic calls main handler (from_user m) ((printed, e), no_join) =
    rw e (dispatch-passed_on (message_type (Message.get_type m)) calls m main handler no_join)
step-traffic calls main handler (to_user m) (printed, e) = rw e refl

-- What the end of the client's connection leaves to do.
abbrev pub goodbye : ℕ → ℕ → List Action
goodbye main handler = close handler ∷ close main ∷ unlink_main_fifo ∷ unlink_handler_fifo ∷ []

-- For a handler that has joined, while the client sends no JOIN and every message can be printed:
-- each SEND and IDLE of the client goes to the main process and its other messages go nowhere, each
-- message of the main process goes to the client, as they are and in the order in which they come;
-- and when the client closes its connection, both FIFOs are closed and unlinked.
pub run-traffic :
    (calls : Calls) (main handler : ℕ) (traffic : List Traffic)
    → All IsProper traffic
    → run
        (map (round_of calls) traffic ++ (client_ready calls (ok closed) ∷ []))
        (in_chat main handler)
      ≡ ok (all_passed_on handler traffic ++ goodbye main handler)
unfolding run step from_client cleanup
run-traffic calls main handler [] h = refl
run-traffic calls main handler (t ∷ traffic) h =
    let ih = run-traffic calls main handler traffic h.1 in
    let e = step-traffic calls main handler t h.0 in
    ap
      (λ r.
        r
        >>= resume
            (λ s. run (map (round_of calls) traffic ++ (client_ready calls (ok closed) ∷ [])) s))
      e
    ∙ ap (λ r. r >>= λ later. ok (passed_on handler t ++ later)) ih
    ∙ ap ok (
        sym (
          append_assoc (passed_on handler t) (all_passed_on handler traffic)
            (goodbye main handler)))

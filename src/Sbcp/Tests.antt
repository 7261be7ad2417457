-- ===== src/Sbcp/Tests.antt =====
-- Runs of libsbcp at fixed inputs.
use computer_networking_tamu.Base.{
  ◌↔◌, ◌≤◌, length, ◌≡◌, refl, ℕ, List, [], ◌∷◌, ◌++◌, ok, ◌>>=◌, ascii, le16, arith,
}
use computer_networking_tamu.Sbcp.Types.{Outcome, username, message, reason, join, send, nak}
use computer_networking_tamu.Sbcp.Header.{Header, make_header}
use computer_networking_tamu.Sbcp.Message.{Message, make_message, add_text, change_to_fwd}
use computer_networking_tamu.Sbcp.Reading.{get_usernames, get_message}
use computer_networking_tamu.Sbcp.Messages.{make_join, make_send, make_nak, make_ack}
use computer_networking_tamu.Sbcp.Spec.{Represents}
use computer_networking_tamu.Sbcp.Spec.Building.{make_message-Represents}
use computer_networking_tamu.Sbcp.Spec.Adding.{text_item, add_text-Represents}
use computer_networking_tamu.Sbcp.RoundTrip.{
  get_message-send, get_message-change_to_fwd, text_messages-fit,
}
use computer_networking_tamu.Sbcp.Evaluation.{evaluated}
use computer_networking_tamu.Sbcp.Ack.{get_usernames-ack, marked}

forwarded : Outcome (List ℕ)
forwarded = do m ← make_send (ascii "hi"); m' ← change_to_fwd (ascii "bob") m; get_message m'

forwarded_text : forwarded ≡ ok (ascii "hi" ++ 2 ∷ [])
unfolding forwarded evaluated
forwarded_text = refl

abbrev sample : Header
sample = make_header 3 4 20

abbrev name : List ℕ
name = ascii "bob"

get_message-send_example : (make_send (ascii "hi") >>= get_message) ≡ ok (ascii "hi")
get_message-send_example = get_message-send (ascii "hi") (omega arith) (omega arith)

get_message-change_to_fwd_example :
    (make_send (ascii "hi") >>= change_to_fwd (ascii "bob") >>= get_message)
    ≡ ok (ascii "hi" ++ 2 ∷ [])
get_message-change_to_fwd_example =
    get_message-change_to_fwd (ascii "bob") (ascii "hi") (omega arith) (omega arith) (omega arith)

abbrev users : List (List ℕ)
users = ascii "bob" ∷ ascii "eve" ∷ []

get_usernames-ack_example :
    (make_ack 3 users >>= get_usernames) ≡ ok ((ascii "bob" ++ 2 ∷ []) ∷ ascii "eve" ∷ [])
unfolding marked
get_usernames-ack_example =
    get_usernames-ack (ascii "bob") (ascii "eve" ∷ []) (omega arith) (omega arith)
      (unfold le16 in omega arith)

text_messages-fit_example :
    (((m : Message) × (make_join name ≡ ok m) × Represents m join (text_item username name ∷ []))
      ↔ (length name ≤ 512))
    × (((m : Message) × (make_send name ≡ ok m) × Represents m send (text_item message name ∷ []))
        ↔ (length name ≤ 512))
    × (((m : Message) × (make_nak name ≡ ok m) × Represents m nak (text_item reason name ∷ []))
        ↔ (length name ≤ 512))
text_messages-fit_example = text_messages-fit name

add_text-Represents_example :
    (m : Message) × (add_text username (ascii "bob") (make_message join) ≡ ok m)
    × Represents m join (text_item username (ascii "bob") ∷ [])
add_text-Represents_example =
    add_text-Represents username (ascii "bob") (make_message join) join [] tt (omega arith)
      (make_message-Represents join) (omega arith) (omega arith)

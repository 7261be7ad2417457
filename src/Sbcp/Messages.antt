-- ===== src/Sbcp/Messages.antt =====
-- libsbcp/src/messages.cpp: a function for each kind of message.
use computer_networking_tamu.Base.{ℕ, suc, List, [], ◌∷◌, ok, ◌>>=◌, ◌>>◌, guard, length, ◌==◌}
use computer_networking_tamu.Sbcp.Types.{
  assertion_failed, Outcome, join, send, fwd, ack, nak, online, offline, idle,
}
use computer_networking_tamu.Sbcp.Message.{
  Message, make_message, add_username, add_message, add_reason, add_client_count,
}

unfoldable pub make_join : List ℕ → Outcome Message
make_join name = add_username name (make_message join)

unfoldable pub make_send : List ℕ → Outcome Message
make_send text = add_message text (make_message send)

unfoldable pub make_fwd : List ℕ → List ℕ → Outcome Message
make_fwd name text = do m ← add_username name (make_message fwd); add_message text m

unfoldable pub add_usernames : List (List ℕ) → Message → Outcome Message
add_usernames [] m = ok m
add_usernames (name ∷ names) m = do m' ← add_username name m; add_usernames names m'

unfoldable pub make_ack : ℕ → List (List ℕ) → Outcome Message
unfolding add_usernames
make_ack count names = do
  guard (suc (length names) == count) assertion_failed
  m ← add_client_count count (make_message ack)
  add_usernames names m

unfoldable pub make_nak : List ℕ → Outcome Message
make_nak text = add_reason text (make_message nak)

unfoldable pub make_online : List ℕ → Outcome Message
make_online name = add_username name (make_message online)

unfoldable pub make_offline : List ℕ → Outcome Message
make_offline name = add_username name (make_message offline)

unfoldable pub make_idle : List ℕ → Outcome Message
make_idle name = add_username name (make_message idle)

-- IDLE()
unfoldable pub empty_idle : Message
empty_idle = make_message idle

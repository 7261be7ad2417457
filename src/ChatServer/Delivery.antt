-- ===== src/ChatServer/Delivery.antt =====
-- Who receives what from the chat server.
use computer_networking_tamu.Base.{
  ℕ, ◌≤◌, ◌≡◌, refl, true, false, List, [], ◌∷◌, ok, ◌>>=◌, length, ◌⊎◌, inl, inr, ap, ◌∙◌, sym,
  subst, All, ◌==◌, bytes_eq, Bool-cases, arith, bind_ok, ascii, NoNul, take-of_le,
}
use computer_networking_tamu.Sbcp.Types.{Outcome, message, send, fwd, message_type-code}
use computer_networking_tamu.Sbcp.Reading
use computer_networking_tamu.Sbcp.Message.{Message, change_to_fwd}
use computer_networking_tamu.Sbcp.Message
use computer_networking_tamu.Sbcp.Messages.{make_send, make_nak}
use computer_networking_tamu.Sbcp.RoundTrip.{
  get_reason-nak, single, single-length, changed, fwd_items,
}
use computer_networking_tamu.Sbcp.Spec.{Represents}
use computer_networking_tamu.Sbcp.Spec.Adding.{text_item}
use computer_networking_tamu.Sbcp.Spec.Getters.{attributes-Represents}
use computer_networking_tamu.ChatServer.Fifos.{FifoMap, lookup}
use computer_networking_tamu.ChatServer.{
  Server, Action, write, close, Bootstrap, is_taken, refuse, handle_join, handle_message, forward,
  write_all_except,
}

-- Some element has the property.
abbrev pub Any : {A : Type 0} → (A → Type 0) → List A → Type 0
Any P [] = ⊥
Any P (x ∷ xs) = P x ⊎ Any P xs

-- The user has this descriptor in the map.
abbrev pub HasEntry : List ℕ → ℕ → FifoMap → Type 0
HasEntry v fd = Any (λ e. e ≡ (v, fd))

-- A refused handler is sent the reason and loses both FIFOs, and the server's state stays.
abbrev pub Refused : List ℕ → Bootstrap → Server → Outcome (Server × List Action) → Type 0
Refused reason b s r =
    (m : Message) × (r ≡ ok (s, write b.main_fd m ∷ close b.handler_fd ∷ close b.main_fd ∷ []))
    × (Reading.get_reason m ≡ ok reason)

refuse-Refused :
    (reason : List ℕ) (b : Bootstrap) (s : Server)
    → length reason ≤ 32
    → NoNul reason
    → Refused reason b s (refuse reason b s)
unfolding refuse
refuse-Refused reason b s short clean =
    let (m, e, g) =
      bind_ok (make_nak reason) Reading.get_reason
        (get_reason-nak reason (omega arith) clean ∙ ap ok (take-of_le 32 reason short)) in
    (m, rw e refl, g)

-- A user whose name is taken is refused with the reason "Username already exists": the NAK and the
-- closing of the handler's two FIFOs are the only actions, and the state does not change.
pub handle_join-taken :
    (b : Bootstrap) (s : Server)
    → is_taken (lookup b.username s.rd_fifos) ≡ true
    → Refused (ascii "Username already exists") b s (handle_join b s)
unfolding handle_join
handle_join-taken b s taken =
    rw (taken, handle_join) (refuse-Refused _ b s (omega arith) (ground arith))

-- A user with a free name is refused with the reason "Maximum clients limit" if as many users as
-- the limit are online, again with no other action and no change of the state.
pub handle_join-full :
    (b : Bootstrap) (s : Server)
    → is_taken (lookup b.username s.rd_fifos) ≡ false
    → length s.online_users ≡ s.max_clients
    → Refused (ascii "Maximum clients limit") b s (handle_join b s)
unfolding handle_join
handle_join-full b s free full =
    let e : (length s.online_users == s.max_clients) ≡ true = ground arith in
    rw (free, e, handle_join) (refuse-Refused _ b s (omega arith) (ground arith))

All-mono :
    {A : Type 0} (P Q : A → Type 0) (xs : List A) → ((a : A) → P a → Q a) → All P xs → All Q xs
All-mono P Q [] f h = tt
All-mono P Q (x ∷ xs) f h = (f x h.0, All-mono P Q xs f h.1)

-- Every user of the map is `u` or is written to.
abbrev pub ReachesOthers : FifoMap → Message → List ℕ → List Action → Type 0
ReachesOthers fifos m u out =
    All (λ e. (bytes_eq e.0 u ≡ true) ⊎ Any (λ a. a ≡ write e.1 m) out) fifos

except_same :
    (n u : List ℕ) (f : ℕ) (fifos : FifoMap) (m : Message)
    → bytes_eq n u ≡ true
    → write_all_except ((n, f) ∷ fifos) m u ≡ write_all_except fifos m u
unfolding write_all_except
except_same n u f fifos m h = rw (h, write_all_except) refl

except_other :
    (n u : List ℕ) (f : ℕ) (fifos : FifoMap) (m : Message)
    → bytes_eq n u ≡ false
    → write_all_except ((n, f) ∷ fifos) m u ≡ write f m ∷ write_all_except fifos m u
unfolding write_all_except
except_other n u f fifos m h = rw (h, write_all_except) refl

write_all_except-reaches :
    (fifos : FifoMap) (m : Message) (u : List ℕ)
    → ReachesOthers fifos m u (write_all_except fifos m u)
write_all_except-reaches [] m u = tt
write_all_except-reaches ((n, f) ∷ fifos) m u =
    let ih = write_all_except-reaches fifos m u in
    let P = ReachesOthers ((n, f) ∷ fifos) m u in
    elim (Bool-cases (bytes_eq n u)) [
      | inl same ↦ subst P (sym (except_same n u f fifos m same)) (inl same, ih)
      | inr differs ↦ subst P (sym (except_other n u f fifos m differs)) (
        inr (inl refl),
        All-mono _ _ fifos (λ e h. elim h [ inl x ↦ inl x | inr y ↦ inr (inr y) ]) ih,
      )
    ]

-- An action that writes `m` to the descriptor of some other user than `u`.
abbrev pub WritesToOther : FifoMap → Message → List ℕ → Action → Type 0
WritesToOther fifos m u a =
    (v : List ℕ) × (fd : ℕ) × (a ≡ write fd m) × (bytes_eq v u ≡ false) × HasEntry v fd fifos

-- And nobody else, nor with another message.
write_all_except-only :
    (fifos : FifoMap) (m : Message) (u : List ℕ)
    → All (WritesToOther fifos m u) (write_all_except fifos m u)
unfolding write_all_except
write_all_except-only [] m u = tt
write_all_except-only ((n, f) ∷ fifos) m u =
    let later =
      All-mono (WritesToOther fifos m u) (WritesToOther ((n, f) ∷ fifos) m u)
        (write_all_except fifos m u) (λ a w. (w.0, w.1, w.2, w.3, inr w.4))
        (write_all_except-only fifos m u) in
    elim (Bool-cases (bytes_eq n u)) [
      | inl same ↦ rw (same, write_all_except) later
      | inr differs ↦ rw (differs, write_all_except) ((n, f, refl, differs, inl refl), later)
    ]

-- A SEND message with a text of at most 512 bytes from a user whose name has at most 512 leaves
-- the state as it is. The message that goes out is a FWD that holds the text and the first 16 bytes
-- of the name. It is written to every other user of `wr_fifos`, and each action writes it to one.
pub handle_message-send :
    (u text : List ℕ) (s : Server)
    → length text ≤ 512
    → length u ≤ 512
    → (m : Message) × (out : List Action) × ((make_send text >>= λ sent. handle_message u sent s)
        ≡ ok (s, out))
      × Represents m fwd (fwd_items u text)
      × ReachesOthers s.wr_fifos m u out
      × All (WritesToOther s.wr_fifos m u) out
unfolding handle_message make_send Message.add_message forward Message.get_type
handle_message-send u text s ft fu =
    let (sent, e, r) = single message text send tt ft in
    let l = single-length message text in
    let shown = attributes-Represents sent send (text_item message text ∷ []) r (omega arith) in
    let (m, f, q) = changed u text ft fu in
    let g : change_to_fwd u sent ≡ ok m = (unfold make_send Message.add_message in rw e at f) in
    (
      m,
      write_all_except s.wr_fifos m u,
      rw e (rw (shown, r.has_type, message_type-code send) (rw (forward, g) refl)),
      q,
      write_all_except-reaches s.wr_fifos m u,
      write_all_except-only s.wr_fifos m u,
    )

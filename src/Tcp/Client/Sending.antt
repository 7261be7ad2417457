-- ===== src/Tcp/Client/Sending.antt =====
-- What writen of libtcp's client has sent when it returns.
use computer_networking_tamu.Base.{
  ℕ, zero, suc, ◌+◌, ◌≤◌, ◌≡◌, ◌≢◌, refl, List, [], ◌∷◌, ◌++◌, Option, none, some, length, take,
  drop, arith, ap, ap₂, sym, ◌∙◌, subst, take-append-drop, length-take, length-drop, append_assoc,
  length-append, min, All,
}
use computer_networking_tamu.Tcp.Client.{
  Write, write_interrupted, write_failed, accepts, Sent, passed, writen_from, writen,
}

-- A buffer sent from its byte n on: all of it, or a part and a negative number.
abbrev pub Delivers : List ℕ → ℕ → Option Sent → Type 0
Delivers buffer n none = Unit
Delivers buffer n (some (some returned, sent, calls)) =
    (sent ≡ buffer) × (returned ≡ n + length buffer)
Delivers buffer n (some (none, sent, calls)) = (rest : List ℕ) × (sent ++ rest ≡ buffer)

passed-Delivers :
    (bytes rest : List ℕ) (n : ℕ) (r : Option Sent)
    → Delivers rest (n + length bytes) r
    → Delivers (bytes ++ rest) n (passed bytes r)
passed-Delivers bytes rest n none d = tt
passed-Delivers bytes rest n (some (some k, sent, calls)) (e, f) =
    (ap (λ s. bytes ++ s) e, f ∙ omega (arith, length-append bytes rest))
passed-Delivers bytes rest n (some (none, sent, calls)) (tail, e) =
    (tail, append_assoc bytes sent tail ∙ ap (λ s. bytes ++ s) e)

taken-Delivers :
    (room : ℕ) (buffer : List ℕ) (n : ℕ) (r : Option Sent)
    → Delivers (drop room buffer) (n + min room (length buffer)) r
    → Delivers buffer n (passed (take room buffer) r)
taken-Delivers room buffer n r d =
    subst (λ b. Delivers b n (passed (take room buffer) r)) (take-append-drop room buffer)
      (passed-Delivers (take room buffer) (drop room buffer) n r
        (subst (λ k. Delivers (drop room buffer) (n + k) r) (sym (length-take room buffer)) d))

writen_from-Delivers :
    (calls : List Write) (buffer : List ℕ) (n : ℕ) → Delivers buffer n (writen_from calls buffer n)
unfolding writen_from
writen_from-Delivers calls [] n = (refl, omega arith)
writen_from-Delivers [] (b ∷ buffer) n = tt
writen_from-Delivers (write_interrupted ∷ calls) (b ∷ buffer) n =
    writen_from-Delivers calls (b ∷ buffer) n
writen_from-Delivers (write_failed ∷ calls) (b ∷ buffer) n = (b ∷ buffer, refl)
writen_from-Delivers (accepts room ∷ calls) (b ∷ buffer) n =
    taken-Delivers room (b ∷ buffer) n _
      (writen_from-Delivers calls (drop room (b ∷ buffer)) (n + min room (length (b ∷ buffer))))

-- However the calls of write end: when writen returns a number it has sent the buffer, each byte
-- once and in order, and the number is the buffer's length; when it returns a negative number it
-- has sent a prefix.
pub writen-Delivers :
    (calls : List Write) (buffer : List ℕ) → Delivers buffer 0 (writen calls buffer)
unfolding writen
writen-Delivers calls buffer = writen_from-Delivers calls buffer 0

-- The calls that take a byte at least.
unfoldable pub progress : List Write → ℕ
progress [] = 0
progress (write_interrupted ∷ calls) = progress calls
progress (write_failed ∷ calls) = progress calls
progress (accepts zero ∷ calls) = progress calls
progress (accepts (suc room) ∷ calls) = suc (progress calls)

-- The calls that a writen which succeeds leaves: the buffer costs at most one of progress a byte.
pub record Delivered (calls : List Write) (buffer : List ℕ) (n : ℕ) (r : Option Sent) : Type 0 where
  pub left : List Write
  pub returns : r ≡ some (some (n + length buffer), buffer, left)
  pub sound : All (λ c. c ≢ write_failed) left
  pub cost : progress calls ≤ progress left + length buffer

passed-Delivered :
    (calls calls' : List Write) (bytes rest buffer : List ℕ) (n : ℕ) (r : Option Sent)
    → Delivered calls rest (n + length bytes) r
    → bytes ++ rest ≡ buffer
    → progress calls' ≤ progress calls + length bytes
    → Delivered calls' buffer n (passed bytes r)
passed-Delivered calls calls' bytes rest buffer n r d e h =
    let size : length buffer ≡ length bytes + length rest =
      ap length (sym e) ∙ length-append bytes rest in
    let count : n + length bytes + length rest ≡ n + length buffer = omega arith in
    record {
      left = d.left;
      returns = ap (passed bytes) d.returns ∙ ap₂ (λ k s. some (some k, s, d.left)) count e;
      sound = d.sound;
      cost = omega (arith, d.cost);
    }

room-progress :
    (room : ℕ) (calls : List Write) (b : ℕ) (buffer : List ℕ)
    → progress (accepts room ∷ calls) ≤ progress calls + length (take room (b ∷ buffer))
unfolding progress
room-progress zero calls b buffer = omega arith
room-progress (suc room) calls b buffer = omega arith

room-left :
    (room : ℕ) (calls : List Write) (b : ℕ) (buffer : List ℕ)
    → suc (length buffer) ≤ progress (accepts room ∷ calls)
    → length (drop room (b ∷ buffer)) ≤ progress calls
unfolding progress
room-left zero calls b buffer h = h
room-left (suc room) calls b buffer h = omega (arith, length-drop room buffer)

writen_from-enough :
    (calls : List Write) (buffer : List ℕ) (n : ℕ)
    → All (λ c. c ≢ write_failed) calls
    → length buffer ≤ progress calls
    → Delivered calls buffer n (writen_from calls buffer n)
unfolding writen_from progress
writen_from-enough calls [] n ok_ h = record {
  left = calls;
  returns = ap (λ k. some (some k, [], calls)) (omega arith);
  sound = ok_;
  cost = omega arith;
}
writen_from-enough [] (b ∷ buffer) n ok_ h = absurd (omega arith)
writen_from-enough (write_interrupted ∷ calls) (b ∷ buffer) n ok_ h =
    let d = writen_from-enough calls (b ∷ buffer) n ok_.1 h in
    record { left = d.left; returns = d.returns; sound = d.sound; cost = d.cost }
writen_from-enough (write_failed ∷ calls) (b ∷ buffer) n ok_ h = absurd (ok_.0 refl)
writen_from-enough (accepts room ∷ calls) (b ∷ buffer) n ok_ h =
    passed-Delivered calls (accepts room ∷ calls) (take room (b ∷ buffer)) (drop room (b ∷ buffer))
      (b ∷ buffer) n _
      (subst
        (λ k.
          Delivered calls (drop room (b ∷ buffer)) (n + k)
            (writen_from calls (drop room (b ∷ buffer)) (n + min room (suc (length buffer)))))
        (sym (length-take room (b ∷ buffer)))
        (writen_from-enough calls (drop room (b ∷ buffer)) (n + min room (suc (length buffer)))
          ok_.1 (room-left room calls b buffer h)))
      (take-append-drop room (b ∷ buffer)) (room-progress room calls b buffer)

-- When no call of write fails and as many as the buffer has bytes take a byte at least, writen
-- sends the buffer and returns its length; each byte costs at most one of these calls.
pub writen-enough :
    (calls : List Write) (buffer : List ℕ)
    → All (λ c. c ≢ write_failed) calls
    → length buffer ≤ progress calls
    → Delivered calls buffer 0 (writen calls buffer)
unfolding writen
writen-enough calls buffer ok_ h = writen_from-enough calls buffer 0 ok_ h

-- ===== src/Tcp/Serving/Turns.antt =====
-- Which handler the server of libtcp calls, and how many at once.
use native.Mathlib.Nat.{mod-lt, mod-eq_of_lt, mod-add-mod}
use computer_networking_tamu.Base.{
  ℕ, suc, ◌+◌, ◌%◌, ◌<◌, ◌≡◌, refl, ap, ap₂, subst, sym, ◌∙◌, List, [], ◌∷◌, Option, none, some,
  length, get_elem?, get_elem?-some, arith,
}
use computer_networking_tamu.Tcp.Processes.{Fork, round_robin}
use computer_networking_tamu.Tcp.Configuration.{ClientHandler}
use computer_networking_tamu.Tcp.Serving.{
  Action, Next, Incoming, reap, advance, advance_in, pick, pick_in, accept, accept_with, connected,
}

-- The state that a result of accept leaves.
abbrev pub left_by : Option (ClientHandler × List Action × Next) → Option ClientHandler
left_by none = none
left_by (some (h, actions, next)) = some h

-- Accepts in a row.
abbrev pub after :
    (ClientHandler → Option ClientHandler) → Option ClientHandler → Option ClientHandler
after f none = none
after f (some h) = f h

unfoldable pub accepts : ℕ → List Incoming → ClientHandler → Option ClientHandler
unfolding accept
accepts fd [] h = some h
accepts fd (i ∷ incomings) h = after (accepts fd incomings) (left_by (accept fd i h))

-- What an accept does not change, and its turn of the round robin.
record Turned (handlers : List ℕ) (next : ℕ) (h : ClientHandler) : Type 0 where
  same : h.handlers ≡ handlers
  turning : h.mode ≡ round_robin
  current : h.current_handler ≡ next

connected-Turned :
    (fd : ℕ) (fork : Fork) (handler client : ℕ) (handlers : List ℕ) (next : ℕ) (h : ClientHandler)
    → Turned handlers next h
    → Turned handlers next (connected fd fork handler client h).0
unfolding connected
connected-Turned fd fork handler client handlers next h t = ground arith

advance_round :
    (h : ClientHandler)
    → h.mode ≡ round_robin
    → advance h
      ≡ record h { current_handler = (h.current_handler + 1) % 4294967296 % length h.handlers }
unfolding advance
advance_round h e = ap (λ m. advance_in m h) e

pick_round :
    (number : ℕ) (h : ClientHandler)
    → h.mode ≡ round_robin
    → pick number h ≡ get_elem? h.handlers h.current_handler
unfolding pick
pick_round number h e = ap (λ m. pick_in m number h) e

advance-Turned :
    (handlers : List ℕ) (c : ℕ) (h : ClientHandler)
    → c < length handlers
    → length handlers < 4294967296
    → Turned handlers c h
    → Turned handlers ((c + 1) % length handlers) (advance h)
unfolding advance
advance-Turned handlers c h bound small t =
    let e = advance_round h t.turning in
    let w : (h.current_handler + 1) % 4294967296 ≡ c + 1 = omega arith in
    subst (Turned handlers ((c + 1) % length handlers)) (sym e)
      (record { same = t.same; turning = t.turning; current = ap₂ ◌%◌ w (ap length t.same) })

accept_with-Turned :
    (fd : ℕ) (fork : Fork) (f : ℕ) (connection : Option ℕ) (handlers : List ℕ) (c : ℕ)
    (h : ClientHandler) (picked : Option ℕ)
    → picked ≡ some f
    → Turned handlers ((c + 1) % length handlers) (advance h)
    → (h' : ClientHandler) × (left_by (accept_with fd fork picked connection h) ≡ some h')
      × Turned handlers ((c + 1) % length handlers) h'
unfolding accept_with
accept_with-Turned fd fork f none handlers c h none e t = cc
accept_with-Turned fd fork f (some client) handlers c h none e t = cc
accept_with-Turned fd fork f none handlers c h (some g) e t = (advance h, refl, t)
accept_with-Turned fd fork f (some client) handlers c h (some g) e t =
    (_, refl, connected-Turned fd fork g client handlers _ (advance h) t)

accept-Turned :
    (fd : ℕ) (i : Incoming) (handlers : List ℕ) (c : ℕ) (h : ClientHandler)
    → c < length handlers
    → length handlers < 4294967296
    → Turned handlers c h
    → (h' : ClientHandler) × (left_by (accept fd i h) ≡ some h')
      × Turned handlers ((c + 1) % length handlers) h'
unfolding accept accept_with pick
accept-Turned fd i handlers c h bound small t =
    let reaped = reap i.waits h in
    let r : Turned handlers c reaped = record {
      same = t.same;
      turning = t.turning;
      current = t.current;
    } in
    let a = advance-Turned handlers c reaped bound small r in
    let l = ap length t.same in
    let (f, there) = get_elem?-some h.handlers h.current_handler (omega arith) in
    let picked = pick_round i.random_number reaped t.turning ∙ there in
    accept_with-Turned fd i.fork f i.connection handlers c reaped (pick i.random_number reaped)
      picked a

accepts-Turned :
    (fd : ℕ) (incomings : List Incoming) (handlers : List ℕ) (c : ℕ) (h : ClientHandler)
    → c < length handlers
    → length handlers < 4294967296
    → Turned handlers c h
    → (h' : ClientHandler) × (accepts fd incomings h ≡ some h')
      × Turned handlers ((c + length incomings) % length handlers) h'
unfolding accepts
accepts-Turned fd [] handlers c h bound small t = (
  h,
  refl,
  record {
    same = t.same;
    turning = t.turning;
    current = t.current ∙ sym (ap (λ n. n % length handlers) (omega arith) ∙ mod-eq_of_lt bound);
  },
)
accepts-Turned fd (i ∷ incomings) handlers c h bound small t =
    let n = length handlers in
    let (h1, e1, t1) = accept-Turned fd i handlers c h bound small t in
    let (h2, e2, t2) =
      accepts-Turned fd incomings handlers ((c + 1) % n) h1 (mod-lt (c + 1) (omega arith)) small
        t1 in
    let e : ((c + 1) % n + length incomings) % n ≡ (c + suc (length incomings)) % n =
      mod-add-mod (c + 1) n (length incomings) ∙ ap (λ k. k % n) (omega arith) in
    (h2, ap (after (accepts fd incomings)) e1 ∙ e2, subst (λ k. Turned handlers k h2) e t2)

-- In round robin mode, after any number of accepts, whether connections came, failed or were
-- dropped, the next handler is the one as many places on, around the end of the vector: every
-- accept takes the next handler's turn, and none skips one.
pub pick-accepts :
    (fd number : ℕ) (incomings : List Incoming) (h : ClientHandler)
    → h.mode ≡ round_robin
    → h.current_handler < length h.handlers
    → length h.handlers < 4294967296
    → (h' : ClientHandler) × (accepts fd incomings h ≡ some h')
      × (pick number h'
          ≡ get_elem? h.handlers ((h.current_handler + length incomings) % length h.handlers))
pick-accepts fd number incomings h turning bound small =
    let (h', e, t) =
      accepts-Turned fd incomings h.handlers h.current_handler h bound small
        (record { same = refl; turning = turning; current = refl }) in
    (h', e, pick_round number h' t.turning ∙ ap₂ get_elem? t.same t.current)

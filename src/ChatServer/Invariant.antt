-- ===== src/ChatServer/Invariant.antt =====
-- The three views that the chat server keeps of its users agree after every round.
use computer_networking_tamu.Base.{
  ℕ, ◌≤◌, ◌≡◌, ◌≢◌, refl, Bool, true, false, ◌||◌, List, [], ◌∷◌, ◌++◌, Option, none, some, ok,
  length, length-append, inl, inr, ◌∙◌, sym, ◌==◌, if◌then◌else◌, bytes_eq, bytes_eq_iff,
  Bool-cases, arith, bind_ok, subst,
}
use computer_networking_tamu.Sbcp.Types.{Outcome, MessageType, send, idle, message_type}
use computer_networking_tamu.Sbcp.Reading.{attributes}
use computer_networking_tamu.Sbcp.Message
use computer_networking_tamu.Sbcp.Message.{Message}
use computer_networking_tamu.ChatServer.Fifos.{FifoMap, lookup, lookup-insert, lookup-erase}
use computer_networking_tamu.ChatServer.{
  Server, init, Action, Bootstrap, Round, Incoming, eof, got, is_taken, refuse, admit, admitted,
  departed, remove_user, handle_join, handle_disconnect, forward, handle_message, handle_incoming,
  serve_first, step, run,
}

-- A name is among the online users.
unfoldable pub contains : List ℕ → List (List ℕ) → Bool
contains u [] = false
contains u (v ∷ vs) = bytes_eq v u || contains u vs

abbrev pub Unique : List (List ℕ) → Type 0
Unique [] = Unit {0}
Unique (v ∷ vs) = (contains v vs ≡ false) × Unique vs

contains-append :
    (n u : List ℕ) (vs : List (List ℕ))
    → contains n (vs ++ u ∷ []) ≡ (if bytes_eq u n then true else contains n vs)
unfolding contains
contains-append n u [] = ground arith
contains-append n u (v ∷ vs) = ground (arith, contains-append n u vs)

contains-remove :
    (n u : List ℕ) (vs : List (List ℕ))
    → contains n (remove_user u vs) ≡ (if bytes_eq u n then false else contains n vs)
unfolding contains remove_user
contains-remove n u [] = ground arith
contains-remove n u (v ∷ vs) =
    ground (arith, contains-remove n u vs, bytes_eq_iff v u, bytes_eq_iff v n, bytes_eq_iff u n)

append-Unique :
    (u : List ℕ) (vs : List (List ℕ)) → contains u vs ≡ false → Unique vs → Unique (vs ++ u ∷ [])
unfolding contains
append-Unique u [] h q = (refl, tt)
append-Unique u (v ∷ vs) h q =
    ground (arith, append-Unique u vs, contains-append v u vs, bytes_eq_iff u v, bytes_eq_iff v u)

remove-Unique : (u : List ℕ) (vs : List (List ℕ)) → Unique vs → Unique (remove_user u vs)
unfolding remove_user
remove-Unique u [] q = tt
remove-Unique u (v ∷ vs) q = ground (arith, remove-Unique u vs q.1, contains-remove v u vs)

length-remove-le : (u : List ℕ) (vs : List (List ℕ)) → length (remove_user u vs) ≤ length vs
unfolding remove_user
length-remove-le u [] = omega arith
length-remove-le u (v ∷ vs) = ground (arith, length-remove-le u vs)

-- Both maps have exactly the online users for keys, no user is online twice, and there are at most
-- `max_clients` of them.
pub record IsConsistent (s : Server) : Type 0 where
  pub readers : (n : List ℕ) → is_taken (lookup n s.rd_fifos) ≡ contains n s.online_users
  pub writers : (n : List ℕ) → is_taken (lookup n s.wr_fifos) ≡ contains n s.online_users
  pub unique : Unique s.online_users
  pub bounded : length s.online_users ≤ s.max_clients

pub init-IsConsistent : (max : ℕ) → IsConsistent (init max)
unfolding init lookup is_taken contains
init-IsConsistent max = record {
  readers = λ n. refl;
  writers = λ n. refl;
  unique = tt;
  bounded = omega arith;
}

admitted-IsConsistent :
    (b : Bootstrap) (s : Server)
    → is_taken (lookup b.username s.rd_fifos) ≡ false
    → length s.online_users ≢ s.max_clients
    → IsConsistent s
    → IsConsistent (admitted b s)
unfolding admitted is_taken
admitted-IsConsistent b s free room v = record {
  readers = λ n. ground (
    arith,
    lookup-insert b.username n b.handler_fd s.rd_fifos,
    contains-append n b.username s.online_users,
    v.readers n,
  );
  writers = λ n. ground (
    arith,
    lookup-insert b.username n b.main_fd s.wr_fifos,
    contains-append n b.username s.online_users,
    v.writers n,
  );
  unique = append-Unique b.username s.online_users (sym (v.readers b.username) ∙ free) v.unique;
  bounded = let h = v.bounded in omega (arith, length-append s.online_users (b.username ∷ []));
}

departed-IsConsistent : (u : List ℕ) (s : Server) → IsConsistent s → IsConsistent (departed u s)
unfolding departed is_taken
departed-IsConsistent u s v = record {
  readers = λ n.
      ground (arith, lookup-erase u n s.rd_fifos, contains-remove n u s.online_users, v.readers n);
  writers = λ n.
      ground (arith, lookup-erase u n s.wr_fifos, contains-remove n u s.online_users, v.writers n);
  unique = remove-Unique u s.online_users v.unique;
  bounded = let h = v.bounded in omega (arith, length-remove-le u s.online_users);
}

-- What each part of a round makes of the state, if it returns.
abbrev Makes : Outcome (Server × List Action) → (Server → Type 0) → Type 0
Makes x P = (s' : Server) (out : List Action) → x ≡ ok (s', out) → P s'

refuse-Makes :
    (reason : List ℕ) (b : Bootstrap) (s : Server) → Makes (refuse reason b s) (λ s'. s' ≡ s)
unfolding refuse
refuse-Makes reason b s s' out h = ground arith

admit-Makes : (b : Bootstrap) (s : Server) → Makes (admit b s) (λ s'. s' ≡ admitted b s)
unfolding admit
admit-Makes b s s' out h = ground arith

handle_disconnect-Makes :
    (u : List ℕ) (fd : ℕ) (s : Server) → Makes (handle_disconnect u fd s) (λ s'. s' ≡ departed u s)
unfolding handle_disconnect
handle_disconnect-Makes u fd s s' out h = ground arith

forward-Makes :
    (t : Option MessageType) (u : List ℕ) (m : Message) (s : Server)
    → Makes (forward t u m s) (λ s'. s' ≡ s)
unfolding forward
forward-Makes (some send) u m s s' out h = ground arith
forward-Makes (some idle) u m s s' out h = ground arith
forward-Makes _ u m s s' out h = ground arith

handle_message-Makes :
    (u : List ℕ) (m : Message) (s : Server) → Makes (handle_message u m s) (λ s'. s' ≡ s)
unfolding handle_message
handle_message-Makes u m s s' out h =
    let (a, e, f) = bind_ok (attributes m) _ h in
    forward-Makes (message_type (Message.get_type m)) u m s s' out f

handle_join-IsConsistent :
    (b : Bootstrap) (s : Server) → IsConsistent s → Makes (handle_join b s) IsConsistent
unfolding handle_join
handle_join-IsConsistent b s v s' out h =
    elim (Bool-cases (is_taken (lookup b.username s.rd_fifos))) [
      | inl taken ↦
          subst IsConsistent (sym (refuse-Makes _ b s s' out (rw (taken, handle_join) at h))) v
      | inr free ↦ elim (Bool-cases (length s.online_users == s.max_clients)) [
        | inl full ↦
            subst IsConsistent (sym (refuse-Makes _ b s s' out (rw (free, full, handle_join) at h)))
              v
        | inr room ↦
            subst IsConsistent (sym (admit-Makes b s s' out (rw (free, room, handle_join) at h)))
              (admitted-IsConsistent b s free (ground arith) v)
      ]
    ]

handle_incoming-IsConsistent :
    (u : List ℕ) (fd : ℕ) (i : Incoming) (s : Server)
    → IsConsistent s
    → Makes (handle_incoming u fd i s) IsConsistent
unfolding handle_incoming
handle_incoming-IsConsistent u fd eof s v s' out h =
    subst IsConsistent (sym (handle_disconnect-Makes u fd s s' out h)) (departed-IsConsistent u s v)
handle_incoming-IsConsistent u fd (got m) s v s' out h =
    subst IsConsistent (sym (handle_message-Makes u m s s' out h)) v

serve_first-IsConsistent :
    (fifos : FifoMap) (r : Round) (s : Server)
    → IsConsistent s
    → Makes (serve_first fifos r s) IsConsistent
unfolding serve_first
serve_first-IsConsistent [] r s v s' out h = let e : s ≡ s' = cc in subst IsConsistent e v
serve_first-IsConsistent ((name, fd) ∷ fifos) r s v s' out h = elim (Bool-cases (r.is_ready fd)) [
  | inl ready ↦
      handle_incoming-IsConsistent name fd (r.incoming fd) s v s' out (rw (ready, serve_first) at h)
  | inr waits ↦ serve_first-IsConsistent fifos r s v s' out (rw (waits, serve_first) at h)
]

by_bootstrap :
    (o : Option Bootstrap) (r : Round) (s : Server)
    → IsConsistent s
    → Makes (elim o [ none ↦ serve_first s.rd_fifos r s | some b ↦ handle_join b s ]) IsConsistent
by_bootstrap none r s v = serve_first-IsConsistent s.rd_fifos r s v
by_bootstrap (some b) r s v = handle_join-IsConsistent b s v

-- A round that ends without an exception, whatever the handlers sent and `select` found, leaves a
-- consistent state consistent.
pub step-IsConsistent :
    (r : Round) (s s' : Server) (out : List Action)
    → IsConsistent s
    → step r s ≡ ok (s', out)
    → IsConsistent s'
unfolding step
step-IsConsistent r s s' out v h = by_bootstrap r.bootstrap r s v s' out h

run-IsConsistent : (rs : List Round) (s : Server) → IsConsistent s → Makes (run rs s) IsConsistent
unfolding run
run-IsConsistent [] s v s' out h = let e : s ≡ s' = cc in subst IsConsistent e v
run-IsConsistent (r ∷ rs) s v s' out h =
    let (p, e, f) = bind_ok (step r s) _ h in
    let (q, e', f') = bind_ok (run rs p.0) _ f in
    let w : q.0 ≡ s' = cc in
    subst IsConsistent w (run-IsConsistent rs p.0 (step-IsConsistent r s p.0 p.1 v e) q.0 q.1 e')

-- After any rounds from the start that end without an exception the views of the users agree, no
-- user is online twice, and at most `max` are online.
pub run-init-IsConsistent :
    (max : ℕ) (rs : List Round) (s : Server) (out : List Action)
    → run rs (init max) ≡ ok (s, out)
    → IsConsistent s
run-init-IsConsistent max rs s out h =
    run-IsConsistent rs (init max) (init-IsConsistent max) s out h

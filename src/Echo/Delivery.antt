-- ===== src/Echo/Delivery.antt =====
-- What the echo server sends of what comes in.
use computer_networking_tamu.Base.{
  ℕ, ◌≤◌, ◌<◌, ◌≡◌, ◌≢◌, refl, List, [], ◌∷◌, ◌++◌, Option, none, some, length, take, drop, min, ap,
  sym, ◌∙◌, subst, All, arith, append_assoc, take-append-drop, length-drop, length-take,
}
use computer_networking_tamu.Tcp.Client.{
  Write, write_failed, Read, read_interrupted, read_failed, arrives, Sent, writen,
}
use computer_networking_tamu.Tcp.Client.Sending.{Delivers, writen-Delivers, progress, writen-enough}
use computer_networking_tamu.Echo.{
  Ended, read_ended, closed, write_ended, appended, echoed, echo_handler,
}

-- The bytes that are sent are a prefix of those that come in: all of them, when the loop ends at the
-- end of the stream.
abbrev pub Echoes : List ℕ → Option (List ℕ × Ended) → Type 0
Echoes stream none = Unit
Echoes stream (some (sent, closed)) = sent ≡ stream
Echoes stream (some (sent, read_ended)) = (rest : List ℕ) × (sent ++ rest ≡ stream)
Echoes stream (some (sent, write_ended)) = (rest : List ℕ) × (sent ++ rest ≡ stream)

appended-Echoes :
    (bytes stream : List ℕ) (r : Option (List ℕ × Ended))
    → Echoes stream r
    → Echoes (bytes ++ stream) (appended bytes r)
appended-Echoes bytes stream none e = tt
appended-Echoes bytes stream (some (sent, closed)) e = ap (λ s. bytes ++ s) e
appended-Echoes bytes stream (some (sent, read_ended)) (rest, e) =
    (rest, append_assoc bytes sent rest ∙ ap (λ s. bytes ++ s) e)
appended-Echoes bytes stream (some (sent, write_ended)) (rest, e) =
    (rest, append_assoc bytes sent rest ∙ ap (λ s. bytes ++ s) e)

echoed-Echoes :
    (bytes stream : List ℕ) (rest : List Write → Option (List ℕ × Ended)) (r : Option Sent)
    → ((writes : List Write) → Echoes stream (rest writes))
    → Delivers bytes 0 r
    → Echoes (bytes ++ stream) (echoed rest r)
echoed-Echoes bytes stream rest none h d = tt
echoed-Echoes bytes stream rest (some (none, sent, writes)) h (tail, e) =
    (tail ++ stream, sym (append_assoc sent tail stream) ∙ ap (λ s. s ++ stream) e)
echoed-Echoes bytes stream rest (some (some n, sent, writes)) h (e, size) =
    subst (λ s. Echoes (s ++ stream) (appended sent (rest writes))) e
      (appended-Echoes sent stream (rest writes) (h writes))

-- However the calls of read and write end, when the handler ends it has sent a prefix of what came
-- in, each byte once and in order, and all of it when it ends at the end of the stream.
pub echo_handler-Echoes :
    (reads : List Read) (writes : List Write) (stream : List ℕ)
    → Echoes stream (echo_handler reads writes stream)
unfolding echo_handler
echo_handler-Echoes [] writes stream = tt
echo_handler-Echoes (read_interrupted ∷ reads) writes stream = (stream, refl)
echo_handler-Echoes (read_failed ∷ reads) writes stream = (stream, refl)
echo_handler-Echoes (arrives more ∷ reads) writes [] = refl
echo_handler-Echoes (arrives more ∷ reads) writes (b ∷ stream) =
    let k = min more 255 in
    subst
      (λ s. Echoes (b ∷ s) (
        echoed (λ rest. echo_handler reads rest (drop k stream))
          (writen writes (b ∷ take k stream))))
      (take-append-drop k stream)
      (echoed-Echoes (b ∷ take k stream) (drop k stream) _ _
        (λ rest. echo_handler-Echoes reads rest (drop k stream))
        (writen-Delivers writes (b ∷ take k stream)))

-- A read that finds a byte, or the end of the stream.
abbrev pub Arrives : Read → Type 0
Arrives (arrives more) = Unit
Arrives read_interrupted = ⊥
Arrives read_failed = ⊥

-- When every read finds bytes or the end of the stream, more often than the stream has bytes, no
-- write fails, and as many as there are bytes take a byte at least, the handler sends back the whole
-- stream and ends at its end.
pub echo_handler-enough :
    (reads : List Read) (writes : List Write) (stream : List ℕ)
    → All Arrives reads
    → length stream < length reads
    → All (λ c. c ≢ write_failed) writes
    → length stream ≤ progress writes
    → echo_handler reads writes stream ≡ some (stream, closed)
unfolding echo_handler
echo_handler-enough [] writes stream h l h' l' = absurd (omega arith)
echo_handler-enough (read_interrupted ∷ reads) writes stream h l h' l' = absurd h.0
echo_handler-enough (read_failed ∷ reads) writes stream h l h' l' = absurd h.0
echo_handler-enough (arrives more ∷ reads) writes [] h l h' l' = refl
echo_handler-enough (arrives more ∷ reads) writes (b ∷ stream) h l h' l' =
    let k = min more 255 in
    let sizes = length-take k stream in
    let left = length-drop k stream in
    let d = writen-enough writes (b ∷ take k stream) h' (omega arith) in
    ap (echoed (λ rest. echo_handler reads rest (drop k stream))) d.returns
    ∙ ap (appended (b ∷ take k stream)) (
        echo_handler-enough reads d.left (drop k stream) h.1 (omega arith) d.sound
          (omega (arith, d.cost)))
    ∙ ap (λ s. some (b ∷ s, closed)) (take-append-drop k stream)

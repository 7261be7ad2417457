-- ===== src/TftpServer/Results.antt =====
-- Whole transfers of MP3/src/tftp_server.cpp: complete ones, empty files, and interrupted waits.
use computer_networking_tamu.Base.{
  ℕ, zero, suc, ◌+◌, ◌/◌, ◌%◌, ◌≤◌, ◌<◌, ◌≡◌, ◌≢◌, refl, ap, sym, ◌∙◌, subst, List, [], ◌∷◌, ◌++◌,
  append-nil, append_assoc, length, take, drop, length-take, length-drop, length-append, All, false,
  arith,
}
use computer_networking_tamu.TftpServer.Transfer.{
  Event, interrupted, Transfer, waiting, data_wire, read_chunk, turn, step, run, start, serve, left,
}
use computer_networking_tamu.TftpServer.Receiver.{collect, accept-data_wire}
use computer_networking_tamu.TftpServer.Delivery.{Sent, run-collect, collect-serve}
use computer_networking_tamu.TftpServer.Completion.{
  acks, Complete, run-finished, at_end, sent_chunk, read_chunk-more, first, at_end-first,
  at_end-more, Complete-serve, left-Complete,
}

acks-uninterrupted : (k number : ℕ) → All (λ event. event ≢ interrupted) (acks k number)
unfolding acks
acks-uninterrupted zero number = tt
acks-uninterrupted (suc k) number = (λ e. cc, acks-uninterrupted k ((number + 1) % 65536))

-- When the client acknowledges each block of a file that is not empty, the transfer ends and the
-- client has collected the file: the blocks 1 to length / 512 + 1, with their numbers modulo 65536,
-- are acknowledgments enough.
pub collect-acks :
    (memory stream : List ℕ)
    → 0 < length stream
    → Complete (serve memory stream (acks (length stream / 512 + 1) 1)).1
      × (collect 1 (serve memory stream (acks (length stream / 512 + 1) 1)).0 ≡ stream)
collect-acks memory stream h =
    let events = acks (length stream / 512 + 1) 1 in
    let done = Complete-serve memory stream h in
    let whole =
      collect-serve memory stream events (acks-uninterrupted (length stream / 512 + 1) 1) in
    let none_left = left-Complete (serve memory stream events).1 done in
    (
      done,
      sym (append-nil (collect 1 (serve memory stream events).0))
          ∙ ap (◌++◌ (collect 1 (serve memory stream events).0)) (sym none_left)
          ∙ whole,
    )

-- An empty file is never announced: the loop ends before it sends a packet.
pub serve-empty : (memory : List ℕ) (events : List Event) → (serve memory [] events).0 ≡ []
unfolding serve start turn read_chunk
serve-empty memory events = rw (run-finished memory events (first [])) refl

-- The two packets of block 1 that an interrupted wait leads to.
abbrev second : List ℕ → Transfer
second stream = sent_chunk (sent_chunk (first stream))

serve-interrupted :
    (memory stream : List ℕ) (events : List Event)
    → 512 < length stream
    → serve memory stream (interrupted ∷ events) ≡ (
      data_wire memory 1 (take 512 stream)
          ∷ data_wire memory 1 (take 512 (drop 512 stream))
          ∷ (run memory events (waiting (second stream))).0,
      (run memory events (waiting (second stream))).1,
    )
unfolding serve start turn run step
serve-interrupted memory stream events long =
    let e : at_end (sent_chunk (first stream)) ≡ false =
      at_end-more (sent_chunk (first stream)) (omega (arith, length-drop 512 stream)) in
    rw (read_chunk-more memory (first stream) (at_end-first stream (omega arith)))
      (rw (read_chunk-more memory (sent_chunk (first stream)) e) refl)

-- A client takes one of two packets with the same number.
collect-twice :
    (memory content content' : List ℕ) (wires : List (List ℕ))
    → length content ≤ 512
    → length content' ≤ 512
    → collect 1 (data_wire memory 1 content ∷ data_wire memory 1 content' ∷ wires)
      ≡ content ++ collect 2 wires
unfolding collect
collect-twice memory content content' wires fits fits' =
    rw (accept-data_wire memory content 1 1 (omega arith) fits)
      (rw (accept-data_wire memory content' 1 2 (omega arith) fits') refl)

-- A signal that interrupts the wait for the first acknowledgment of a file of more than 512 bytes
-- makes the server send the next chunk under the first one's number: whatever comes after it,
-- unless another signal, the client's file and what the server has still to read are not the file.
pub collect-interrupted :
    (memory stream : List ℕ) (events : List Event)
    → 512 < length stream
    → All (λ event. event ≢ interrupted) events
    → collect 1 (serve memory stream (interrupted ∷ events)).0
        ++ left (serve memory stream (interrupted ∷ events)).1
      ≢ stream
collect-interrupted memory stream events long h e =
    let rest = run memory events (waiting (second stream)) in
    let good : Sent 2 (second stream) = record {
      small = omega arith;
      fits = omega (arith, length-take 512 (drop 512 stream));
      next = refl;
    } in
    let c = run-collect memory events 2 (waiting (second stream)) h good in
    let both =
      collect-twice memory (take 512 stream) (take 512 (drop 512 stream)) rest.0
        (omega (arith, length-take 512 stream))
        (omega (arith, length-take 512 (drop 512 stream))) in
    let lost =
      subst (λ r. collect 1 r.0 ++ left r.1 ≡ stream) (serve-interrupted memory stream events long)
        e in
    let n = ap length (
      sym (
        append_assoc (take 512 stream) (collect 2 rest.0) (left rest.1)
        ∙ ap (◌++◌ (take 512 stream)) c)
      ∙ ap (λ w. w ++ left rest.1) (sym both)
      ∙ lost) in
    omega (
      arith,
      length-append (take 512 stream) (drop 512 (drop 512 stream)),
      length-take 512 stream,
      length-drop 512 (drop 512 stream),
      length-drop 512 stream,
    )

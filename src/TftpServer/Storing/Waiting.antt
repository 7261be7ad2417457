-- ===== src/TftpServer/Storing/Waiting.antt =====
-- The loop that stores a file, while nothing new comes.
use computer_networking_tamu.Base.{
  ℕ, ◌+◌, ◌<◌, ◌≡◌, ◌≢◌, refl, sym, ◌∙◌, subst, List, [], ◌∷◌, ◌++◌, arith, ntohs, ==-false, leb,
  ◌==◌, true, false,
}
use computer_networking_tamu.Tftp.Types.{Mode, octet, opcode_code, block}
use computer_networking_tamu.TftpServer.Storing.{
  Arrival, interrupted, failed, timed_out, received, Upload, Progress, storing, receive, time_out,
  step, run,
}

-- What has come: the bytes of the file and of the stream, and the number that is waited for.
pub record Holds (n : ℕ) (bytes : List ℕ) (u : Upload) : Type 0 where
  pub waits : u.number ≡ n
  pub has : u.written ++ u.pending ≡ bytes

-- A loop that still waits, with its count of timeouts.
pub record Waits (n count : ℕ) (bytes : List ℕ) (p : Progress) : Type 0 where
  pub state : Upload
  pub is_storing : p ≡ storing state
  pub holds : Holds n bytes state
  pub counted : state.timeouts ≡ count

-- An arrival that brings nothing new, while the number n is waited for.
abbrev pub IsNoise : ℕ → Arrival → Type 0
IsNoise n interrupted = Unit
IsNoise n failed = ⊥
IsNoise n timed_out = Unit
IsNoise n (received opcode word content) = (opcode ≡ opcode_code block) × (ntohs word ≢ n)

-- The timeouts in a row behind an arrival.
abbrev pub timeouts_behind : Arrival → ℕ → ℕ
timeouts_behind interrupted k = k
timeouts_behind failed k = k
timeouts_behind timed_out k = k + 1
timeouts_behind (received opcode word content) k = 0

-- Arrivals that bring nothing new, behind k timeouts, without five timeouts in a row.
abbrev pub IsQuiet : ℕ → ℕ → List Arrival → Type 0
IsQuiet n k [] = Unit
IsQuiet n k (a ∷ noise) =
    IsNoise n a × ((timeouts_behind a k < 5) × IsQuiet n (timeouts_behind a k) noise)

noise-Waits :
    (a : Arrival) (n k : ℕ) (bytes : List ℕ) (u : Upload)
    → IsNoise n a
    → Holds n bytes u
    → u.timeouts ≡ k
    → timeouts_behind a k < 5
    → Waits n (timeouts_behind a k) bytes (step octet a (storing u)).1
unfolding step time_out receive
noise-Waits interrupted n k bytes u h held b l = record {
  state = u;
  is_storing = refl;
  holds = held;
  counted = b;
}
noise-Waits failed n k bytes u h held b l = absurd h
noise-Waits timed_out n k bytes u h held b l =
    let free : leb 5 (u.timeouts + 1) ≡ false = ground arith in
    rw free (record {
      state = record u { timeouts = u.timeouts + 1 };
      is_storing = refl;
      holds = record { waits = held.waits; has = held.has };
      counted = omega arith;
    })
noise-Waits (received opcode word content) n k bytes u (is_data, other) held b l =
    let e : (opcode == 768) ≡ true = ground arith in
    let d : (ntohs word == u.number) ≡ false =
      ==-false (ntohs word) u.number (λ s. other (s ∙ held.waits)) in
    rw e (
      rw d (record {
        state = record u { timeouts = 0 };
        is_storing = refl;
        holds = record { waits = held.waits; has = held.has };
        counted = refl;
      }))

pub run-append :
    (mode : Mode) (xs ys : List Arrival) (p : Progress)
    → (run mode (xs ++ ys) p).1 ≡ (run mode ys (run mode xs p).1).1
unfolding run
run-append mode [] ys p = refl
run-append mode (x ∷ xs) ys p = run-append mode xs ys (step mode x p).1

pub noises-Waits :
    (noise : List Arrival) (n k : ℕ) (bytes : List ℕ) (p : Progress)
    → IsQuiet n k noise
    → Waits n k bytes p
    → (last : ℕ) × Waits n last bytes (run octet noise p).1
unfolding run
noises-Waits [] n k bytes p h w = (k, w)
noises-Waits (a ∷ noise) n k bytes p h w =
    noises-Waits noise n (timeouts_behind a k) bytes (step octet a p).1 h.1.1 (
      subst (λ q. Waits n (timeouts_behind a k) bytes (step octet a q).1) (sym w.is_storing)
        (noise-Waits a n k bytes w.state h.0 w.holds w.counted h.1.0))

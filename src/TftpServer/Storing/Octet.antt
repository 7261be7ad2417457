-- ===== src/TftpServer/Storing/Octet.antt =====
-- What the server stores of a file that a client sends in octet mode.
use computer_networking_tamu.Base.{
  ℕ, ◌+◌, ◌-◌, ◌/◌, ◌%◌, ◌<◌, ◌≤◌, ◌≡◌, refl, sym, ap, ap₂, ◌∙◌, List, [], ◌∷◌, ◌++◌, append_assoc,
  length, take, drop, arith, take-append-drop, take-of_le, length-take, length-drop, htons, ntohs,
  ntohs-htons, ==-refl, le→not_ltb, le→leb, lt→ltb, ltb→lt, not_ltb→le, leb, ltb, ◌==◌, true, inl,
  inr, Bool-cases,
}
use native.Mathlib.Nat.{mod-lt}
use computer_networking_tamu.Tftp.Types.{Mode, octet, opcode_code, block}
use computer_networking_tamu.TftpServer.Storing.{
  Arrival, received, Upload, Progress, storing, stored, pull, remaining, close, flush, accept,
  receive, step, run, store,
}
use computer_networking_tamu.TftpServer.Storing.Waiting.{
  Holds, Waits, IsQuiet, run-append, noises-Waits,
}

flush-octet :
    (data_ : List ℕ) (u : Upload) (n : ℕ) (bytes : List ℕ)
    → Holds n bytes u
    → u.timeouts ≡ 0
    → Waits n 0 bytes (flush octet data_ u)
unfolding flush pull
flush-octet data_ u n bytes held z =
    let k = length u.pending - 257 in
    let e : leb k (length u.pending) ≡ true = le→leb k (length u.pending) (omega arith) in
    rw e (record {
      state = record u { pending = drop k u.pending; written = u.written ++ take k u.pending };
      is_storing = refl;
      holds = record {
        waits = held.waits;
        has =
            append_assoc u.written (take k u.pending) (drop k u.pending)
            ∙ ap (λ s. u.written ++ s) (take-append-drop k u.pending)
            ∙ held.has;
      };
      counted = z;
    })

-- A client that sends a file in blocks of 512 bytes with their numbers: between two blocks, `noises`
-- says what comes besides.
unfoldable pub sends : List (List Arrival) → ℕ → List ℕ → List Arrival
sends [] n file = []
sends (noise ∷ noises) n file =
    noise
    ++ (received (opcode_code block) (htons n) (take 512 file)
        ∷ sends noises ((n + 1) % 65536) (drop 512 file))

-- Before each block come any waits that are interrupted, time out or end with a data packet of
-- another number, without five timeouts in a row, not counting the interruptions among them.
unfoldable pub AreNoises : ℕ → List (List Arrival) → Type 0
AreNoises n [] = Unit
AreNoises n (noise ∷ noises) = IsQuiet n 0 noise × AreNoises ((n + 1) % 65536) noises

block-received :
    (n : ℕ) (file bytes : List ℕ) (u : Upload)
    → n < 65536
    → Holds n bytes u
    → (step octet (received (opcode_code block) (htons n) (take 512 file)) (storing u)).1
      ≡ accept octet (opcode_code block) (htons n) (take 512 file) (record u { timeouts = 0 })
unfolding step receive
block-received n file bytes u small held =
    let e : (ntohs (htons n) == u.number) ≡ true =
      ap₂ ◌==◌ (ntohs-htons n small) held.waits ∙ ==-refl n in
    let once : take 512 (take 512 file) ≡ take 512 file =
      take-of_le 512 (take 512 file) (omega (arith, length-take 512 file)) in
    rw e (ap (λ c. accept octet (opcode_code block) (htons n) c (record u { timeouts = 0 })) once)

run-stored :
    (mode : Mode) (arrivals : List Arrival) (file : List ℕ)
    → (run mode arrivals (stored file)).1 ≡ stored file
unfolding run step
run-stored mode [] file = refl
run-stored mode (a ∷ arrivals) file = run-stored mode arrivals file

accept-last :
    (opcode word : ℕ) (content bytes : List ℕ) (n : ℕ) (u : Upload)
    → Holds n bytes u
    → length content < 512
    → accept octet opcode word content u ≡ stored (bytes ++ content)
unfolding accept close remaining
accept-last opcode word content bytes n u held short =
    rw (lt→ltb (length content) 512 short)
      (ap stored (sym (append_assoc u.written u.pending content) ∙ ap (λ s. s ++ content) held.has))

accept-full :
    (opcode word : ℕ) (content bytes : List ℕ) (n : ℕ) (u : Upload)
    → Holds n bytes u
    → u.timeouts ≡ 0
    → length content ≡ 512
    → Waits ((n + 1) % 65536) 0 (bytes ++ content) (accept octet opcode word content u)
unfolding accept
accept-full opcode word content bytes n u held z size =
    rw (le→not_ltb (length content) 512 (omega arith)) (
      flush-octet _ _ _ _
        (record {
          waits = ap (λ k. (k + 1) % 65536) held.waits;
          has = sym (append_assoc u.written u.pending content) ∙ ap (λ s. s ++ content) held.has;
        })
        z)

sends-stored :
    (noises : List (List Arrival)) (n : ℕ) (file bytes : List ℕ) (p : Progress)
    → n < 65536
    → AreNoises n noises
    → length noises ≡ length file / 512 + 1
    → Waits n 0 bytes p
    → (run octet (sends noises n file) p).1 ≡ stored (bytes ++ file)
unfolding sends AreNoises run
sends-stored [] n file bytes p small h l w = absurd (omega arith)
sends-stored (noise ∷ noises) n file bytes p small h l w =
    let (count, w1) = noises-Waits noise n 0 bytes p h.0 w in
    let u = w1.state in
    let rest = sends noises ((n + 1) % 65536) (drop 512 file) in
    let held : Holds n bytes (record u { timeouts = 0 }) = record {
      waits = w1.holds.waits;
      has = w1.holds.has;
    } in
    let taken =
      run-append octet noise (received (opcode_code block) (htons n) (take 512 file) ∷ rest) p
      ∙ ap
          (λ q.
            (run octet rest
              (step octet (received (opcode_code block) (htons n) (take 512 file)) q).1).1)
          w1.is_storing
      ∙ ap (λ q. (run octet rest q).1) (block-received n file bytes u small w1.holds) in
    let size = length-take 512 file in
    elim (Bool-cases (ltb (length file) 512)) [
      | inl short ↦
          let less : length file < 512 = ltb→lt (length file) 512 short in
          taken
          ∙ ap (λ q. (run octet rest q).1)
              (accept-last (opcode_code block) (htons n) (take 512 file) bytes n _ held
                (omega arith))
          ∙ run-stored octet rest (bytes ++ take 512 file)
          ∙ ap (λ s. stored (bytes ++ s)) (take-of_le 512 file (omega arith))
      | inr long ↦
          let more : 512 ≤ length file = not_ltb→le (length file) 512 long in
          let left = length-drop 512 file in
          taken
          ∙ sends-stored noises ((n + 1) % 65536) (drop 512 file) (bytes ++ take 512 file) _
              (mod-lt (n + 1) (omega arith)) h.1 (omega arith)
              (accept-full (opcode_code block) (htons n) (take 512 file) bytes n _ held refl
                (omega arith))
          ∙ ap stored (
              append_assoc bytes (take 512 file) (drop 512 file)
              ∙ ap (λ s. bytes ++ s) (take-append-drop 512 file))
    ]

-- A client sends a file of any length in octet mode, in one block more than the file has full ones,
-- with the numbers from 1 on modulo 65536, and before each block come any waits that are
-- interrupted, time out or end with a data packet of another number, of which no five in a row time
-- out, not counting interruptions among them: the server stores the file.
pub store-octet :
    (noises : List (List Arrival)) (file : List ℕ)
    → AreNoises 1 noises
    → length noises ≡ length file / 512 + 1
    → (store octet (sends noises 1 file)).1 ≡ stored file
unfolding store
store-octet noises file h l = sends-stored noises 1 file [] _ (omega arith) h l (record {
  state = record { pending = []; written = []; number = 1; timeouts = 0 };
  is_storing = refl;
  holds = record { waits = refl; has = refl };
  counted = refl;
})

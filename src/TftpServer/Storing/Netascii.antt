-- ===== src/TftpServer/Storing/Netascii.antt =====
-- An upload in netascii mode: the loop counts encoded bytes and reads decoded characters.
use computer_networking_tamu.Base.{
  ℕ, zero, suc, ◌+◌, ◌-◌, ◌≤◌, ◌<◌, ◌≡◌, refl, List, [], ◌∷◌, some, Bool, true, false, not, ◌&&◌,
  length, length-append, ◌==◌, arith, Bool-cases, inl, inr, if◌then◌else◌,
}
use computer_networking_tamu.Netascii.{lf, cr, to_unix, after_cr, drained, decode}
use computer_networking_tamu.Tftp.Types.{netascii}
use computer_networking_tamu.TftpServer.Storing.{
  Upload, Progress, spoiled, is_lone_cr, pulled, pull, flush,
}

-- A call of underflow gives one character, and takes a byte at least.
to_unix-cons :
    (b : ℕ) (s : List ℕ)
    → (buffer rest : List ℕ) × (to_unix (b ∷ s) ≡ some (buffer, rest))
      × (length buffer ≡ 1)
      × (length rest ≤ length s)
unfolding to_unix after_cr
to_unix-cons b [] = elim (Bool-cases (b == cr)) [
  | inl e ↦ (cr ∷ [], [], rw e refl, refl, omega arith)
  | inr e ↦ (b ∷ [], [], rw e refl, refl, omega arith)
]
to_unix-cons b (c ∷ s) = elim (Bool-cases (b == cr)) [
  | inr e ↦ (b ∷ [], c ∷ s, rw e refl, refl, omega arith)
  | inl e ↦ elim (Bool-cases (c == lf)) [
    | inl e' ↦ (lf ∷ [], s, rw e (rw e' refl), refl, omega arith)
    | inr e' ↦ elim (Bool-cases (c == 0)) [
      | inl z ↦ (cr ∷ [], s, rw e (rw e' (rw z refl)), refl, omega arith)
      | inr z ↦ (cr ∷ [], c ∷ s, rw e (rw e' (rw z refl)), refl, omega arith)
    ]
  ]
]

both_true : (a b : Bool) → (a && b) ≡ true → b ≡ true
both_true true b h = h
both_true false b h = cc

pulled_nil : (n : ℕ) → (pulled (suc n) []).2 ≡ false
unfolding pulled to_unix
pulled_nil n = refl

-- Reading that does not meet the end of the stream finds the characters that it asks for.
pulled-drained :
    (n fuel : ℕ) (s : List ℕ)
    → length s ≤ fuel
    → (pulled n s).2 ≡ true
    → n ≤ length (drained to_unix fuel s)
unfolding pulled drained
pulled-drained zero fuel s h e = omega arith
pulled-drained (suc n) fuel [] h e = let f = pulled_nil n in absurd cc
pulled-drained (suc n) zero (b ∷ s) h e = absurd (omega arith)
pulled-drained (suc n) (suc fuel) (b ∷ s) h e =
    let (buffer, rest, given, size, less) = to_unix-cons b s in
    let e' : (not (is_lone_cr (b ∷ s)) && (pulled n rest).2) ≡ true = (rw (given, pulled) at e) in
    let ih : n ≤ length (drained to_unix fuel rest) =
      pulled-drained n fuel rest (omega arith) (both_true _ _ e') in
    rw (given, drained) (omega (arith, length-append buffer (drained to_unix fuel rest)))

else_spoils :
    (b : Bool) (p : Progress) (file : List ℕ)
    → b ≡ false
    → (f : List ℕ) × ((if b then p else spoiled file) ≡ spoiled f)
else_spoils b p file e = (file, rw e refl)

-- A full block in netascii mode, when the bytes that the stream holds then are over 257 more than
-- the characters that they stand for: the loop reads its stream to the end, and the upload is
-- spoiled.
pub flush-spoils :
    (data_ : List ℕ) (u : Upload)
    → length (decode u.pending) + 257 < length u.pending
    → (file : List ℕ) × (flush netascii data_ u ≡ spoiled file)
unfolding flush pull decode
flush-spoils data_ u h =
    let n = length u.pending - 257 in
    elim (Bool-cases (pulled n u.pending).2) [
      | inl good ↦
          let enough = pulled-drained n (length u.pending) u.pending (omega arith) good in
          absurd (omega arith)
      | inr bad ↦ else_spoils _ _ _ bad
    ]

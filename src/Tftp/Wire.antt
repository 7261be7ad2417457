-- ===== src/Tftp/Wire.antt =====
-- What a receiver reads from the bytes that are sent for a packet of libtftp.
use computer_networking_tamu.Base.{
  ℕ, suc, ◌*◌, ◌+◌, ◌≤◌, ◌≡◌, refl, sym, List, [], ◌∷◌, ◌++◌, append-nil, append_assoc, ok, ◌>>=◌,
  length, take, drop, overwrite, overwrite-append, overwrite-append_add, take-append_length,
  length-append, drop-append_add, length-take, arith, NoNul, NoNul-take, c_string-append,
  c_string-stop, strnlen-append, strncpy-strnlen, length-take-strnlen, le16,
}
use computer_networking_tamu.Tftp.Types.{opcode_of, Outcome, max_filename_length, max_mode_length}
use computer_networking_tamu.Tftp.Packet.{
  make_request, filename, mode, request_size, size, bytes, packet_of, c_str, first_word,
}
use computer_networking_tamu.Tftp.Packets.{make_rrq, make_wrq, sent}

abbrev pub request_text : List ℕ → List ℕ → List ℕ
request_text name kind = name ++ (0 ∷ (kind ++ (0 ∷ [])))

-- A request is laid out as its two texts, each with a NUL behind it.
request_writes :
    (name kind old : List ℕ)
    → overwrite
        (length name + length kind + 1)
        (0 ∷ [])
        (overwrite (length name + 1) kind (overwrite (length name) (0 ∷ []) (name ++ old)))
      ≡ name ++ (0 ∷ (kind ++ (0 ∷ drop 1 (drop (length kind) (drop 1 old)))))
request_writes name kind old =
    let rest = drop 1 old in
    let a = overwrite-append name (0 ∷ []) old in
    let b = overwrite-append_add name 1 kind (0 ∷ rest) in
    let c = overwrite-append (0 ∷ []) kind rest in
    let d =
      overwrite-append_add name (1 + length kind) (0 ∷ [])
        (0 ∷ (kind ++ drop (length kind) rest)) in
    let e = overwrite-append (0 ∷ kind) (0 ∷ []) (drop (length kind) rest) in
    let f : length name + length kind + 1 ≡ length name + (1 + length kind) = omega arith in
    let g : 1 + length kind ≡ suc (length kind) = omega arith in
    rw a (rw b (rw c (rw f (rw d (rw g (rw e refl))))))

pub make_request_layout :
    (before name kind : List ℕ)
    → NoNul name
    → NoNul kind
    → (rest : List ℕ) × (make_request before name kind
        ≡ take max_filename_length name ++ (0 ∷ (take max_mode_length kind ++ (0 ∷ rest))))
unfolding make_request
make_request_layout before name kind hn hk =
    let n = take max_filename_length name in
    let k = take max_mode_length kind in
    (
      drop 1 (drop (length k) (drop 1 (drop (length n) before))),
      rw (strncpy-strnlen max_filename_length name hn, strncpy-strnlen max_mode_length kind hk)
          (rw
            (
              length-take-strnlen max_filename_length name hn,
              length-take-strnlen max_mode_length kind hk,
            )
            (rw (overwrite-append [] n before) (request_writes n k (drop (length n) before)))),
    )

-- The texts as the accessors find them.
pub filename_layout : (name rest : List ℕ) → NoNul name → filename (name ++ 0 ∷ rest) ≡ ok name
unfolding filename c_str
filename_layout name rest h =
    rw (c_string-append name (0 ∷ rest) [] h (c_string-stop rest)) (rw (append-nil name) refl)

pub mode_layout :
    (name kind rest : List ℕ)
    → NoNul name
    → NoNul kind
    → length name ≤ max_filename_length
    → mode (name ++ (0 ∷ (kind ++ (0 ∷ rest)))) ≡ ok kind
unfolding mode c_str
mode_layout name kind rest hn hk fits =
    rw (strnlen-append max_filename_length name (kind ++ (0 ∷ rest)) hn fits) (
      rw (drop-append_add 1 name (0 ∷ (kind ++ (0 ∷ rest)))) (
        rw (c_string-append kind (0 ∷ rest) [] hk (c_string-stop rest))
          (rw (append-nil kind) refl)))

pub request_size_layout :
    (name kind rest : List ℕ)
    → NoNul name
    → NoNul kind
    → length name ≤ max_filename_length
    → length kind ≤ max_mode_length
    → request_size (name ++ (0 ∷ (kind ++ (0 ∷ rest)))) ≡ length (request_text name kind)
unfolding request_size
request_size_layout name kind rest hn hk fn fk =
    rw (strnlen-append max_filename_length name (kind ++ (0 ∷ rest)) hn fn) (
      rw (drop-append_add 1 name (0 ∷ (kind ++ (0 ∷ rest)))) (
        rw (strnlen-append max_mode_length kind rest hk fk) (
          omega (arith, length-append name (0 ∷ (kind ++ (0 ∷ []))), length-append kind (0 ∷ [])))))

-- What a receiver finds in a buffer: the opcode and the two texts of a request.
unfoldable pub read_request : List ℕ → Outcome (ℕ × List ℕ × List ℕ)
unfolding packet_of
read_request buffer = do
  p ← packet_of buffer
  f ← filename p.payload
  m ← mode p.payload
  ok (p.opcode, f, m)

regroup :
    (name kind rest : List ℕ) → request_text name kind ++ rest ≡ name ++ (0 ∷ (kind ++ (0 ∷ rest)))
regroup name kind rest = simp append_assoc refl

pub request_payload :
    (before behind name kind : List ℕ)
    → NoNul name
    → NoNul kind
    → take (request_size (make_request before name kind)) (make_request before name kind) ++ behind
      ≡ take max_filename_length name ++ (0 ∷ (take max_mode_length kind ++ (0 ∷ behind)))
request_payload before behind name kind hn hk =
    let n = take max_filename_length name in
    let k = take max_mode_length kind in
    let (rest, e) = make_request_layout before name kind hn hk in
    let s =
      request_size_layout n k rest (NoNul-take max_filename_length name hn)
        (NoNul-take max_mode_length kind hk) (omega (arith, length-take max_filename_length name))
        (omega (arith, length-take max_mode_length kind)) in
    rw e (
      rw s (
        rw (sym (regroup n k rest))
          (rw (take-append_length (request_text n k) rest) (regroup n k behind))))

read_request_layout :
    (code : ℕ) (low high : ℕ) (name kind behind memory : List ℕ)
    → NoNul name
    → NoNul kind
    → memory ≡ take max_filename_length name ++ (0 ∷ (take max_mode_length kind ++ (0 ∷ behind)))
    → low + high * 256 ≡ code
    → read_request (low ∷ high ∷ memory)
      ≡ ok (code, take max_filename_length name, take max_mode_length kind)
unfolding read_request packet_of first_word
read_request_layout code low high name kind behind memory hn hk laid coded =
    let n = take max_filename_length name in
    let k = take max_mode_length kind in
    let f = NoNul-take max_filename_length name hn in
    let g = NoNul-take max_mode_length kind hk in
    rw (laid, coded)
      (rw (filename_layout n (k ++ (0 ∷ behind)) f) (
        rw (mode_layout n k behind f g (omega (arith, length-take max_filename_length name))) refl))

-- A receiver of the bytes that are sent for a read or a write request reads the request's opcode,
-- its filename cut to 128 bytes and its mode cut to 8, whatever the sender's memory held before and
-- whatever follows in the receiver's buffer; the name and the mode hold no NUL.
pub read_request-sent :
    (before behind name kind : List ℕ)
    → NoNul name
    → NoNul kind
    → ((sent (make_rrq before name kind) >>= λ wire. read_request (wire ++ behind))
        ≡ ok (256, take 128 name, take 8 kind))
      × ((sent (make_wrq before name kind) >>= λ wire. read_request (wire ++ behind))
          ≡ ok (512, take 128 name, take 8 kind))
unfolding sent size bytes make_rrq make_wrq le16 opcode_of
read_request-sent before behind name kind hn hk =
    let memory = make_request before name kind in
    let e : 2 + request_size memory ≡ suc (suc (request_size memory)) = omega arith in
    let p = request_payload before behind name kind hn hk in
    (
      rw e (
          read_request_layout 256 0 1 name kind behind (take (request_size memory) memory ++ behind)
            hn hk p refl),
      rw e (
          read_request_layout 512 0 2 name kind behind (take (request_size memory) memory ++ behind)
            hn hk p refl),
    )

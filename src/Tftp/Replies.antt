-- ===== src/Tftp/Replies.antt =====
-- What a receiver reads from the data, acknowledgments and errors of libtftp.
use computer_networking_tamu.Base.{
  ℕ, suc, ◌*◌, ◌+◌, ◌-◌, ◌/◌, ◌%◌, ◌≤◌, ◌<◌, ◌≡◌, refl, ap, ◌∙◌, sym, zero, List, [], ◌∷◌, ◌++◌,
  append-nil, append_assoc, ok, ◌>>=◌, length, take, drop, overwrite, overwrite-append,
  overwrite-append_add, take-append_length, take-of_le, length-append, length-take, replicate,
  length-replicate, arith, NoNul, NoNul-take, c_string-append, c_string-stop, strnlen-append,
  strncpy, le16, htons, htons-lt, ntohs-htons, ◌≢◌, err,
}
use computer_networking_tamu.Tftp.Types.{
  Outcome, opcode_of, error_code, ErrorCode, max_error_message_length, max_data_length, not_data,
}
use computer_networking_tamu.Tftp.Packet.{
  Packet, size, bytes, packet_of, get_block, get_data, make_data, make_ack, make_error, error_size,
  get_error_code, get_error_message, c_str, first_word,
}
use computer_networking_tamu.Tftp.Packets.{
  make_block, make_acknowledgment, make_failure, ack_from, sent,
}

-- The opcode and the block number in a buffer, and the bytes behind them.
unfoldable pub read_block : List ℕ → Outcome (ℕ × ℕ × List ℕ)
unfolding packet_of
read_block buffer = do
  p ← packet_of buffer
  number ← get_block p.payload
  ok (p.opcode, number, get_data p.payload)

-- The opcode, the code and the text of an error in a buffer.
unfoldable pub read_error : List ℕ → Outcome (ℕ × ℕ × List ℕ)
unfolding packet_of
read_error buffer = do
  p ← packet_of buffer
  code ← get_error_code p.payload
  text ← get_error_message p.payload
  ok (p.opcode, code, text)

-- A word in memory is read as the word that was stored.
pub first_word_stored :
    (word : ℕ) (rest : List ℕ) → word < 65536 → first_word (le16 word ++ rest) ≡ ok word
unfolding first_word le16
first_word_stored word rest small =
    let e : word % 256 + word / 256 % 256 * 256 ≡ word = omega arith in rw e refl

get_block_stored :
    (number : ℕ) (rest : List ℕ)
    → number < 65536
    → get_block (le16 (htons number) ++ rest) ≡ ok number
unfolding get_block
get_block_stored number rest small =
    rw (first_word_stored (htons number) rest (htons-lt number))
      (rw (ntohs-htons number small) refl)

word_written :
    (word : ℕ) (before : List ℕ) → overwrite 0 (le16 word) before ≡ le16 word ++ drop 2 before
unfolding overwrite le16
word_written word before = refl

make_data_layout :
    (before content : List ℕ) (number : ℕ)
    → make_data before number content
      ≡ le16 (htons number)
        ++ (take max_data_length content
            ++ drop (length (take max_data_length content)) (drop 2 before))
unfolding make_data le16
make_data_layout before content number =
    rw (word_written (htons number) before)
      (overwrite-append (le16 (htons number)) (take max_data_length content) (drop 2 before))

-- Zeros up to the terminator are a terminator and what follows it.
padding : (k : ℕ) (rest : List ℕ) → (rest' : List ℕ) × (replicate k 0 ++ (0 ∷ rest) ≡ 0 ∷ rest')
unfolding replicate
padding zero rest = (rest, refl)
padding (suc k) rest = (replicate k 0 ++ (0 ∷ rest), refl)

length-strncpy : (n : ℕ) (text : List ℕ) → length (strncpy n text) ≡ n
unfolding strncpy
length-strncpy n text = omega (
  arith,
  length-append (take n text) (replicate (n - length text) 0),
  length-take n text,
  length-replicate {A = ℕ} (n - length text) 0,
)

make_error_layout :
    (before text : List ℕ) (code : ErrorCode)
    → (rest : List ℕ) × (make_error before code text
        ≡ le16 (error_code code) ++ (take max_error_message_length text ++ (0 ∷ rest)))
unfolding make_error le16 strncpy
make_error_layout before text code =
    let word = le16 (error_code code) in
    let copied = strncpy max_error_message_length text in
    let old = drop (length copied) (drop 2 before) in
    let (rest, e) = padding (max_error_message_length - length text) (drop 1 old) in
    let at : overwrite 128 (0 ∷ []) (copied ++ old) ≡ copied ++ (0 ∷ drop 1 old) =
      ap (λ k. overwrite k (0 ∷ []) (copied ++ old))
        (sym (length-strncpy max_error_message_length text))
      ∙ overwrite-append copied (0 ∷ []) old in
    let split : copied ++ (0 ∷ drop 1 old) ≡ take max_error_message_length text ++ (0 ∷ rest) =
      append_assoc (take max_error_message_length text)
        (replicate (max_error_message_length - length text) 0) (0 ∷ drop 1 old)
      ∙ ap (◌++◌ (take max_error_message_length text)) e in
    (
      rest,
      rw (word_written (error_code code) before) (
          rw (overwrite-append word copied (drop 2 before))
            (overwrite-append_add word 128 (0 ∷ []) (copied ++ old) ∙ ap (◌++◌ word) (at ∙ split))),
    )

-- A receiver of the bytes that the server sends for a data packet, of at most 512 bytes of
-- content, reads its block number and that content.
pub read_block-data :
    (before behind content : List ℕ) (number : ℕ)
    → number < 65536
    → length content ≤ 512
    → read_block (take (4 + length content) (bytes (make_block before number content)) ++ behind)
      ≡ ok (768, number, content ++ behind)
unfolding read_block packet_of first_word get_data bytes make_block le16
read_block-data before behind content number small fits =
    let old = drop (length content) (drop 2 before) in
    let e : 4 + length content ≡ suc (suc (suc (suc (length content)))) = omega arith in
    rw (make_data_layout before content number) (
      rw (take-of_le 512 content fits) (
        rw e (
          rw (take-append_length content old)
            (rw (get_block_stored number (content ++ behind) small) refl))))

-- A receiver of the bytes that are sent for an acknowledgment reads its block number.
pub read_block-sent :
    (before behind : List ℕ) (number : ℕ)
    → number < 65536
    → (sent (make_acknowledgment before number) >>= λ wire. read_block (wire ++ behind))
      ≡ ok (1024, number, behind)
unfolding read_block packet_of first_word get_data sent size bytes make_acknowledgment le16 make_ack
    opcode_of
read_block-sent before behind number small =
    rw (word_written (htons number) before) (rw (get_block_stored number behind small) refl)

error_code-lt : (code : ErrorCode) → error_code code < 65536
error_code-lt code = ground arith

read_error_layout :
    (code : ErrorCode) (t behind : List ℕ)
    → NoNul t
    → read_error (0 ∷ 5 ∷ (le16 (error_code code) ++ (t ++ (0 ∷ behind))))
      ≡ ok (1280, error_code code, t)
unfolding read_error packet_of first_word get_error_code get_error_message c_str le16
read_error_layout code t behind h =
    let small = error_code-lt code in
    let e : error_code code % 256 + error_code code / 256 % 256 * 256 ≡ error_code code =
      omega arith in
    rw e (rw (c_string-append t (0 ∷ behind) [] h (c_string-stop behind)) (rw (append-nil t) refl))

-- A receiver of the bytes that are sent for an error reads its code, and its text cut to 128 bytes;
-- the text holds no NUL.
pub read_error-sent :
    (before behind text : List ℕ) (code : ErrorCode)
    → NoNul text
    → (sent (make_failure before code text) >>= λ wire. read_error (wire ++ behind))
      ≡ ok (1280, error_code code, take 128 text)
unfolding read_error packet_of get_error_code get_error_message c_str sent size bytes make_failure
    error_size le16 opcode_of
read_error-sent before behind text code h =
    let t = take max_error_message_length text in
    let f = NoNul-take max_error_message_length text h in
    let (rest, laid) = make_error_layout before text code in
    let e : 2 + (2 + (length t + 1)) ≡ suc (suc (suc (suc (length (t ++ 0 ∷ []))))) =
      omega (arith, length-append t (0 ∷ [])) in
    rw laid (
      rw
        (strnlen-append max_error_message_length t rest f
          (omega (arith, length-take max_error_message_length text)))
        (rw e (
          rw (sym (append_assoc t (0 ∷ []) rest)) (
            rw (take-append_length (t ++ 0 ∷ []) rest)
              (rw (append_assoc t (0 ∷ []) behind) (read_error_layout code t behind f))))))

-- ACK_from answers a data packet by the acknowledgment of its block number, and throws on a packet
-- with any other opcode.
pub ack_from_lem :
    (before memory content : List ℕ) (number : ℕ) (p : Packet)
    → number < 65536
    → p.opcode ≢ 768
    → (ack_from before (make_block memory number content) ≡ ok (make_acknowledgment before number))
      × (ack_from before p ≡ err not_data)
unfolding ack_from make_block
ack_from_lem before memory content number p small other = (
  rw (make_data_layout memory content number) (
      rw
        (get_block_stored number
          (take max_data_length content
            ++ drop (length (take max_data_length content)) (drop 2 memory))
          small)
        refl),
  ground arith,
)

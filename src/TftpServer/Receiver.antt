-- ===== src/TftpServer/Receiver.antt =====
-- A client that collects a file: it takes the blocks in the order of their numbers, each once.
use computer_networking_tamu.Base.{
  ℕ, ◌+◌, ◌%◌, ◌≤◌, ◌<◌, ◌≡◌, refl, List, [], ◌∷◌, ◌++◌, append-nil, ap, sym, ◌∙◌, take, length, ok,
  err, ◌==◌, if◌then◌else◌,
}
use computer_networking_tamu.Tftp.Replies.{read_block, read_block-data}
use computer_networking_tamu.Tftp.Packet.{bytes}
use computer_networking_tamu.Tftp.Packets.{make_block}
use computer_networking_tamu.TftpServer.Transfer.{data_wire}

-- The bytes that a packet adds, and the number of the block that is expected next.
unfoldable pub accept : ℕ → List ℕ → List ℕ × ℕ
unfolding read_block
accept expected wire = elim (read_block wire) [
  | err e ↦ ([], expected)
  | ok (_, number, content) ↦
      if number == expected then (content, (expected + 1) % 65536) else ([], expected)
]

unfoldable pub collect : ℕ → List (List ℕ) → List ℕ
unfolding accept
collect expected [] = []
collect expected (wire ∷ wires) =
    let (content, expected') = accept expected wire in content ++ collect expected' wires

pub accept-data_wire :
    (memory content : List ℕ) (number expected : ℕ)
    → number < 65536
    → length content ≤ 512
    → accept expected (data_wire memory number content)
      ≡ (if number == expected then (content, (expected + 1) % 65536) else ([], expected))
unfolding accept data_wire
accept-data_wire memory content number expected small fits =
    let wire = take (4 + length content) (bytes (make_block memory number content)) in
    let e : read_block wire ≡ ok (768, number, content) =
      ap read_block (sym (append-nil wire))
      ∙ read_block-data memory [] content number small fits
      ∙ ap (λ (c : List ℕ). ok (768, number, c)) (append-nil content) in
    rw (e, accept) refl

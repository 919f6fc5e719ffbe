-- ===== src/Tcp/Tests.antt =====
-- The theorems about the network library at concrete reads, and runs of its operations.
use udaq.Base.{ℕ, ◌≡◌, refl, true, none, some, List, [], ◌∷◌, ◌++◌, ◌==◌, arith, pos}
use udaq.Tcp.{bytes, Net, tcp_get_buf, tcp_open, copy_addr}
use udaq.Tcp.Blocks.{pieces, joined, tcp_get_buf-pieces}

abbrev three : List (List ℕ)
three = (1 ∷ 2 ∷ []) ∷ (3 ∷ []) ∷ (4 ∷ 5 ∷ []) ∷ []

-- A block of four bytes, the next one beginning in its last piece.
tcp_get_buf-pieces_example :
    (ds : List (List ℕ)) × (tcp_get_buf true 4 (pieces three ++ bytes (6 ∷ []) ∷ [])
      ≡ some (pos 0, 1 ∷ 2 ∷ 3 ∷ 4 ∷ [], pieces ds ++ bytes (6 ∷ []) ∷ []))
    × (joined ds ≡ 5 ∷ [])
tcp_get_buf-pieces_example =
    tcp_get_buf-pieces three (bytes (6 ∷ []) ∷ []) (1 ∷ 2 ∷ 3 ∷ 4 ∷ []) (5 ∷ []) (ground arith)
      (ground arith) refl

-- The result 0 and the block size 32768.
abbrev front : List ℕ
front = 0 ∷ 0 ∷ 0 ∷ 0 ∷ 0 ∷ 0 ∷ 128 ∷ 0 ∷ []

abbrev back : List ℕ
back = 0 ∷ 0 ∷ 0 ∷ 1 ∷ 0 ∷ 0 ∷ 0 ∷ 0 ∷ []

abbrev net : Net
net = record {
  s_port = none;
  h_addr = some (192 ∷ 168 ∷ 1 ∷ 7 ∷ []);
  has_socket = true;
  accepts = λ a p. p == 1128;
}

opened : tcp_open net [] 0 (bytes (front ++ back) ∷ []) ≡ some (pos 0, 32768, [])
unfolding tcp_open
opened = refl

-- An address with a byte 0 loses what is behind it.
cut_addr : copy_addr (10 ∷ 0 ∷ 0 ∷ 1 ∷ []) ≡ 10 ∷ 0 ∷ 0 ∷ 0 ∷ []
unfolding copy_addr
cut_addr = refl

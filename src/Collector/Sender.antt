-- ===== src/Collector/Sender.antt =====
-- The sending of the blocks of the collector over the network: src/gr/collect_tcp.c. Messages and the name of the client
-- are left out, and so are the threads around it.
pub mod Scaler
pub mod Blocks
use udaq.Base.{
  ℕ, zero, suc, ◌+◌, ◌-◌, ◌*◌, ◌/◌, ◌%◌, Bool, true, false, ◌&&◌, Option, none, some, List, [], ◌∷◌,
  ◌++◌, length, ltb, ◌==◌, if◌then◌else◌, pos,
}
use udaq.Tcp.{Read, ntohl}
use udaq.Transfer.{take, drop, zeros, htonl, Received, got, failed, waiting, read_all, read_request}
use udaq.Transfer.Server.{
  Version, router_inet_version_1, router_inet_version_2, Act, write, Ending, returned, waits, after,
  info3,
}
use udaq.Transfer.Request.{version_of, e_version}

-- `scl_blk_header_offset` words in front of the data of the scaler, with the number of the block.
abbrev pub scaler_header : ℕ → List ℕ
scaler_header cnt =
    65535 ∷ 6 ∷ 3584 ∷ 148 ∷ cnt ∷ 1 ∷ 65503 ∷ 6 ∷ 1 ∷ 140 ∷ 331 ∷ 1 ∷ 65487 ∷ 4 ∷ 0 ∷ 136 ∷ 8193
    ∷ 32768 ∷ []

abbrev pub scaler_trailer : ℕ → List ℕ
scaler_trailer sum = 61441 ∷ sum ∷ 65519 ∷ 2 ∷ []

-- `sum += buf[i];` on an `unsigned short`.
unfoldable pub sum_words : ℕ → List ℕ → ℕ
sum_words sum [] = sum
sum_words sum (w ∷ ws) = sum_words ((sum + w) % 65536) ws

-- `encode_scl_blk`, in a buffer of more words than the block of the scaler takes.
unfoldable pub encode_scl_blk : List ℕ → ℕ → List ℕ
encode_scl_blk buf cnt =
    scaler_header cnt
    ++ (take 132 buf ++ (scaler_trailer (sum_words 0 (take 132 buf)) ++ drop 154 buf))

abbrev pub buf_word : ℕ → List ℕ → ℕ
buf_word i [] = 0
buf_word zero (w ∷ ws) = w
buf_word (suc i) (w ∷ ws) = buf_word i ws

-- A block from the ring, and `block_scaler_count` after it: a block of the scaler is encoded, and the block at the end of
-- a run starts the count anew.
unfoldable pub prepare : ℕ → List ℕ → List ℕ × ℕ
prepare block_scaler_count buf =
    if ltb (buf_word 0 buf) 32768
    then (encode_scl_blk buf block_scaler_count, (block_scaler_count + 1) % 65536)
    else if buf_word 0 buf == 65535 && buf_word 2 buf == 3842
    then (buf, 0)
    else (buf, block_scaler_count)

-- The words as they stand in the memory, the low byte first.
abbrev pub bytes_of : List ℕ → List ℕ
bytes_of [] = []
bytes_of (w ∷ ws) = (w % 256) ∷ (w / 256 % 256) ∷ bytes_of ws

-- A reply is only reported, whatever it is.
abbrev pub go_on : Received → (List Read → List Act × Ending) → List Act × Ending
go_on (got b rs) next = next rs
go_on (failed b rs) next = next rs
go_on waiting next = ([], waits)

module _ (version : Version) (blk_buf_size blk_size : ℕ) (res : List ℕ) where
  -- What is written for a block. In version 1 `blk_size` is never set, and the bytes behind the block come from a null
  -- pointer, so that `write` fails.
  abbrev pub block_acts : ℕ → ℕ → List ℕ → List Act
  block_acts i size buf = elim version [
    | router_inet_version_1 ↦ write (take size (bytes_of buf)) ∷ []
    | router_inet_version_2 ↦ write (info3 res i size) ∷ write (take size (bytes_of buf)) ∷ []
  ]

  abbrev pub size_of : ℕ → ℕ
  size_of size = elim version [
    | router_inet_version_1 ↦ if ltb blk_size blk_buf_size then blk_size else size
    | router_inet_version_2 ↦ size
  ]

  -- The main routine: the blocks that `get_rb_data` gives, one after the other, with what is read from the connection.
  unfoldable pub collect_tcp : ℕ → ℕ → ℕ → List (List ℕ) → List Read → List Act × Ending
  collect_tcp i size block_scaler_count [] rs = ([], waits)
  collect_tcp i size block_scaler_count (buf ∷ bufs) rs =
      let next = λ (ts : List Read).
        collect_tcp (i + 1) (size_of size) (prepare block_scaler_count buf).1 bufs ts in
      after (block_acts i (size_of size) (prepare block_scaler_count buf).0)
        (go_on (read_all 4 rs) next)

-- What comes before the main routine: the request is read and answered; the flag says whether the reply can be written.
abbrev pub main_routine :
    ℕ → ℕ → List ℕ → List (List ℕ) → Bool → Version → List Read → List Act × Ending
main_routine blk_buf_size blk_size res bufs ok version rs =
    let told : ℕ = elim version [ router_inet_version_1 ↦ blk_size | router_inet_version_2 ↦ 0 ] in
    if ok
    then after (write (htonl 0 ++ (htonl told ++ zeros 8)) ∷ [])
        (collect_tcp version blk_buf_size blk_size res 0 (2 * blk_buf_size) 0 bufs rs)
    else ([], returned (pos 0))

abbrev pub answer_request :
    ℕ → ℕ → List ℕ → List ℕ → List (List ℕ) → Bool → Received → List Act × Ending
answer_request blk_buf_size blk_size info2_rest res bufs ok (got info1 rs) =
    elim (version_of (ntohl info1)) [
      | none ↦ (write (htonl e_version ++ info2_rest) ∷ [], returned (pos 0))
      | some version ↦ main_routine blk_buf_size blk_size res bufs ok version rs
    ]
answer_request blk_buf_size blk_size info2_rest res bufs ok (failed b rs) = ([], returned (pos 0))
answer_request blk_buf_size blk_size info2_rest res bufs ok waiting = ([], waits)

unfoldable pub collect_tcp_thread :
    ℕ → ℕ → List ℕ → List ℕ → List (List ℕ) → Bool → List Read → List Act × Ending
collect_tcp_thread blk_buf_size blk_size info2_rest res bufs ok rs =
    answer_request blk_buf_size blk_size info2_rest res bufs ok (read_request 64 rs)

-- ===== src/Transfer/Files.antt =====
-- The sending of a file of blocks in src/router/tools/router_tcp.c: send_data_from_file.
pub mod Blocks
use udaq.Base.{
  ℕ, zero, suc, ◌+◌, Bool, true, false, List, [], ◌∷◌, ◌++◌, length, ltb, ◌==◌, if◌then◌else◌, pos,
  negsuc,
}
use udaq.Tcp.{Read, ntohl}
use udaq.Transfer.{take, drop, htonl, Received, got, failed, waiting, read_all}
use udaq.Transfer.Server.{Act, write, Ending, returned, waits, after, overlay, swap_bytes, info3}

-- `MAX_BUF_SIZE` and `sizeof(bld1_header_t)`
abbrev pub max_buf_size : ℕ
max_buf_size = 16777216

abbrev pub header_size : ℕ
header_size = 32

-- `bsize`, the third word of a header.
abbrev pub bsize_of : List ℕ → ℕ
bsize_of header = ntohl (drop 8 header)

abbrev pub file_reply :
    List ℕ → Received → (List ℕ → List Read → List Act × Ending) → List Act × Ending
file_reply reply (got b rs) next =
    if ntohl b == 0 then next (swap_bytes b) rs else ([], returned (negsuc 0))
file_reply reply (failed b rs) next =
    let r = overlay b reply in
    if ntohl r == 0 then next (swap_bytes r) rs else ([], returned (negsuc 0))
file_reply reply waiting next = ([], waits)

module _ (res : List ℕ) where
  -- What is written for a block: the header of the transfer, the header of the block, and its data.
  abbrev pub file_frame : ℕ → List ℕ → List ℕ → List Act
  file_frame i header buf =
      write (info3 res i (header_size + length buf)) ∷ write header ∷ write buf ∷ []

  -- The loop, for `fuel` rounds; `file` is what is left of the file.
  unfoldable pub send_file : ℕ → ℕ → List ℕ → List ℕ → List Read → List Act × Ending
  send_file zero i reply file rs = ([], waits)
  send_file (suc fuel) i reply file rs =
      let header = take header_size file in
      let body = drop header_size file in
      let buf = take (bsize_of header) body in
      let next = λ (r : List ℕ) (ts : List Read).
        send_file fuel (i + 1) r (drop (bsize_of header) body) ts in
      if length header == 0
      then ([], returned (pos 0))
      else if length header == header_size
      then if ltb max_buf_size (bsize_of header)
        then ([], returned (negsuc 0))
        else if length buf == bsize_of header
        then after (file_frame i header buf) (file_reply reply (read_all 4 rs) next)
        else ([], returned (negsuc 0))
      else ([], returned (negsuc 0))

  -- `send_data_from_file`, for a machine where `malloc` gives memory.
  unfoldable pub send_data_from_file : List ℕ → List ℕ → List Read → List Act × Ending
  send_data_from_file reply file rs = send_file (suc (length file)) 0 reply file rs

-- ===== src/Transfer/Client.antt =====
-- The receiving of blocks in src/router/tools/tcp_router.c: the loop of main, from the response on.
use udaq.Base.{ℕ, zero, suc, Bool, Option, none, some, List, [], ◌∷◌, ◌++◌, ltb, if◌then◌else◌}
use udaq.Tcp.{Read, ntohl, after_four}
use udaq.Transfer.{zeros, Received, got, failed, waiting, read_all}

-- What main does: a buffer that it puts into the router, a `write` to the socket.
pub data ClientAct : Type 0 where
  put_block write : List ℕ → ClientAct

-- How the loop ends: the process exits, the loop breaks, or it wants more turns or reads than are given.
pub data Ending : Type 0 where
  exits breaks waits : Ending

-- What the router and the socket answer in a round: the size of the buffer that is got, none for an error of
-- `router_request_buf` or `router_get_buf`, and whether the acknowledge can be written.
pub record Turn : Type 0 where
  pub room : Option ℕ
  pub write_ok : Bool

abbrev pub after : List ClientAct → List ClientAct × Ending → List ClientAct × Ending
after ss r = (ss ++ r.0, r.1)

-- `reply = ntohl(0);` and its four bytes.
abbrev pub acknowledge : Turn → List ClientAct × Ending → List ClientAct × Ending
acknowledge turn next = if turn.write_ok then after (write (zeros 4) ∷ []) next else ([], exits)

-- `bufsize`, of the header that was read.
abbrev pub bufsize_of : List ℕ → ℕ
bufsize_of info3 = let n = ntohl (after_four info3) in if ltb 1048576 n then 16384 else n

abbrev pub read_block :
    Turn → Received → (List Read → List ClientAct × Ending) → List ClientAct × Ending
read_block turn (got b rs) next = after (put_block b ∷ []) (acknowledge turn (next rs))
read_block turn (failed b rs) next = ([], exits)
read_block turn waiting next = ([], waits)

abbrev pub get_buffer :
    Turn → ℕ → List Read → (List Read → List ClientAct × Ending) → List ClientAct × Ending
get_buffer turn bufsize rs next = elim turn.room [
  | none ↦ ([], breaks)
  | some size ↦
      if ltb size bufsize then ([], breaks) else read_block turn (read_all bufsize rs) next
]

abbrev pub read_header :
    Turn → Received → (List Read → List ClientAct × Ending) → List ClientAct × Ending
read_header turn (got info3 rs) next =
    let bufsize = bufsize_of info3 in
    if ltb 0 bufsize then get_buffer turn bufsize rs next else acknowledge turn (next rs)
read_header turn (failed b rs) next = ([], exits)
read_header turn waiting next = ([], waits)

-- The loop, for as many rounds as there are turns.
unfoldable pub receive_blocks : List Turn → List Read → List ClientAct × Ending
receive_blocks [] rs = ([], waits)
receive_blocks (turn ∷ turns) rs =
    let next = λ (ts : List Read). receive_blocks turns ts in read_header turn (read_all 64 rs) next

-- `PRE_ACKNOWLEDGE`: acknowledges before the first block, with which of them can be written.
abbrev pub pre_acknowledge : ℕ → (ℕ → Bool) → List ClientAct × Ending → List ClientAct × Ending
pre_acknowledge zero oks next = next
pre_acknowledge (suc n) oks next =
    let rest = pre_acknowledge n oks next in
    if oks n then after (write (zeros 4) ∷ []) rest else ([], exits)

unfoldable pub transfer : (ℕ → Bool) → List Turn → List Read → List ClientAct × Ending
transfer oks turns rs = pre_acknowledge 20 oks (receive_blocks turns rs)

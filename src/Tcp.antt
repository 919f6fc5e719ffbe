-- ===== src/Tcp.antt =====
-- The library that reads the blocks of a router over the network: src/router/tools/tcplib.c. Messages to
-- the user and the names in `info1` are left out. What the name service and the sockets answer is
-- a parameter.
pub mod Pieces
pub mod Blocks
mod Tests
use udaq.Base.{
  ℕ, zero, suc, ◌+◌, ◌-◌, ◌*◌, ◌%◌, Bool, true, false, Option, none, some, List, [], ◌∷◌, ◌++◌,
  ◌==◌, leb, if◌then◌else◌, ℤ, pos, negsuc, length,
}

-- What one call of `read` gives: bytes, the end of the connection, or an error.
pub data Read : Type 0 where
  bytes : List ℕ → Read
  ended broken : Read

-- How the loop of `tcp_get_buf` ends: with the bytes that are in the buffer, or with an error.
pub data Filled : Type 0 where
  filled : List ℕ → List Read → Filled
  failed : Filled

abbrev pub take : ℕ → List ℕ → List ℕ
take zero xs = []
take (suc n) [] = []
take (suc n) (x ∷ xs) = x ∷ take n xs

abbrev pub drop : ℕ → List ℕ → List ℕ
drop zero xs = xs
drop (suc n) [] = []
drop (suc n) (x ∷ xs) = drop n xs

-- What a read of some of the bytes leaves.
abbrev pub leftover : List ℕ → List Read → List Read
leftover [] rs = rs
leftover (b ∷ bs) rs = bytes (b ∷ bs) ∷ rs

-- The loop of reads, each of at most the bytes that the block wants still; none is a wait that does not end.
unfoldable pub fill : ℕ → List ℕ → List Read → Option Filled
fill bufsize buf [] = none
fill bufsize buf (broken ∷ rs) = some failed
fill bufsize buf (ended ∷ rs) = some (filled buf rs)
fill bufsize buf (bytes [] ∷ rs) = some (filled buf rs)
fill bufsize buf (bytes (c ∷ cs) ∷ rs) =
    let want = bufsize - length buf in
    let rest = fill bufsize (buf ++ (c ∷ cs)) rs in
    if leb want (length (c ∷ cs))
    then some (filled (buf ++ take want (c ∷ cs)) (leftover (drop want (c ∷ cs)) rs))
    else rest

-- The end of `tcp_get_buf`; the flag says whether the reply can be written.
abbrev pub reply_to : Bool → Filled → ℤ × List ℕ × List Read
reply_to ok failed = (negsuc 0, [], [])
reply_to ok (filled [] rs) = (pos 1, [], rs)
reply_to ok (filled (b ∷ bs) rs) = (if ok then pos 0 else negsuc 0, b ∷ bs, rs)

-- `tcp_get_buf`: the result, the bytes that were put in the buffer, and what is left to read.
unfoldable pub tcp_get_buf : Bool → ℕ → List Read → Option (ℤ × List ℕ × List Read)
unfolding fill
tcp_get_buf ok bufsize rs = elim (fill bufsize [] rs) [
  | none ↦ none
  | some f ↦ some (reply_to ok f)
]

-- `memcpy` to the front of a list.
abbrev pub over : List ℕ → List ℕ → List ℕ
over [] old = old
over (c ∷ cs) [] = c ∷ cs
over (c ∷ cs) (o ∷ old) = c ∷ over cs old

-- `sizeof(info2)`
abbrev pub info2_size : ℕ
info2_size = 16

-- The loop of `tcp_open` that waits for the response; every call reads to the front of `info2`.
unfoldable pub get_reply : ℕ → List ℕ → List Read → Option (Option (List ℕ × List Read))
get_reply count info2 [] = if leb info2_size count then some (some (info2, [])) else none
get_reply count info2 (bytes c ∷ rs) =
    let rest = get_reply (count + length c) (over c info2) rs in
    if leb info2_size count then some (some (info2, bytes c ∷ rs)) else rest
get_reply count info2 (r ∷ rs) =
    if leb info2_size count then some (some (info2, r ∷ rs)) else some none

-- `strncpy((char*)&name.sin_addr.s_addr, hp->h_addr, hp->h_length)`: from the first 0 on all bytes are 0.
unfoldable pub copy_addr : List ℕ → List ℕ
copy_addr [] = []
copy_addr (zero ∷ cs) = 0 ∷ zeros cs
  where
    zeros : List ℕ → List ℕ
    zeros [] = []
    zeros (d ∷ ds) = 0 ∷ zeros ds
copy_addr (suc c ∷ cs) = suc c ∷ copy_addr cs

-- The name service, where a port comes in network order, and the ports at an address that accept a connection.
pub record Net : Type 0 where
  pub s_port : Option ℕ
  pub h_addr : Option (List ℕ)
  pub has_socket : Bool
  pub accepts : List ℕ → ℕ → Bool

-- `ROUTER_DAQDATA_PORT`
abbrev pub default_port : ℕ
default_port = 1126

-- The first of `n` ports from `port` on that accepts, `port` being a 16-bit number.
unfoldable pub try_ports : (ℕ → Bool) → ℕ → ℕ → Option ℕ
try_ports accepts zero port = none
try_ports accepts (suc n) port =
    let rest = try_ports accepts n ((port + 1) % 65536) in if accepts port then some port else rest

abbrev pub port_of : Net → ℕ → ℕ
port_of net port =
    if port == 0
    then (elim net.s_port [ none ↦ default_port | some p ↦ p ]) % 65536
    else port % 65536

-- `ntohl` of four bytes.
abbrev pub ntohl : List ℕ → ℕ
ntohl (a ∷ b ∷ c ∷ d ∷ ds) = 16777216 * a + 65536 * b + 256 * c + d
ntohl _ = 0

abbrev pub after_four : List ℕ → List ℕ
after_four (a ∷ b ∷ c ∷ d ∷ ds) = ds
after_four _ = []

-- From the reply on: the result, the block size, and what is left to read.
abbrev pub check_reply : Option (List ℕ × List Read) → ℤ × ℕ × List Read
check_reply none = (negsuc 0, 0, [])
check_reply (some (info2, rs)) =
    if ntohl info2 == 0 then (pos 0, ntohl (after_four info2), rs) else (negsuc 0, 0, rs)

abbrev pub ask : List ℕ → List Read → Option ℕ → Option (ℤ × ℕ × List Read)
ask info2 rs none = some (negsuc 0, 0, rs)
ask info2 rs (some p) = elim (get_reply 0 info2 rs) [ none ↦ none | some t ↦ some (check_reply t) ]

-- `tcp_open`. `info2` is what the variable holds at first; an error of `write` is reported only.
unfoldable pub tcp_open : Net → List ℕ → ℕ → List Read → Option (ℤ × ℕ × List Read)
unfolding get_reply try_ports copy_addr
tcp_open net info2 port rs = elim net.h_addr [
  | none ↦ some (negsuc 0, 0, rs)
  | some a ↦
      if net.has_socket
      then ask info2 rs (try_ports (net.accepts (copy_addr a)) 5 (port_of net port))
      else some (negsuc 0, 0, rs)
]

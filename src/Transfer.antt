-- ===== src/Transfer.antt =====
-- The transfer of blocks over the network: router_tcp.c, which sends the buffers of a router or of a file, and
-- tcp_router.c, which puts what it reads into another router, of src/router/tools. Messages and the log are
-- left out. The numbers are those of a machine with 32-bit `int` and 64-bit `long`.
pub mod Streams
pub mod Server
pub mod Client
pub mod Files
pub mod Request
pub mod Closed
mod Tests
use udaq.Base.{
  Bool, true, false, ℕ, zero, suc, ◌-◌, ◌/◌, ◌%◌, List, [], ◌∷◌, ◌++◌, length, leb, if◌then◌else◌,
}
use udaq.Tcp.{Read, bytes, ended, broken}
pub use udaq.Tcp.{take, drop, leftover}

abbrev pub zeros : ℕ → List ℕ
zeros zero = []
zeros (suc n) = 0 ∷ zeros n

-- `htonl`, as bytes.
abbrev pub htonl : ℕ → List ℕ
htonl n = (n / 16777216 % 256) ∷ (n / 65536 % 256) ∷ (n / 256 % 256) ∷ (n % 256) ∷ []

-- How a loop of reads ends, with the bytes so far: all have come, or `read` gives what breaks the loop; or it wants
-- more than the reads that are given.
pub data Received : Type 0 where
  got failed : List ℕ → List Read → Received
  waiting : Received

abbrev pub in_front : List ℕ → Received → Received
in_front c (got b rs) = got (c ++ b) rs
in_front c (failed b rs) = failed (c ++ b) rs
in_front c waiting = waiting

-- `while(count<size) count += read(sd, &buf[count], size-count);` with a size above 0. An error breaks the loop; a read
-- that gives 0, as at the end of a connection, breaks it where the flag says so, and otherwise it reads again.
unfoldable pub read_loop : Bool → ℕ → List Read → Received
read_loop stops size [] = waiting
read_loop stops size (broken ∷ rs) = failed [] rs
read_loop stops size (ended ∷ rs) =
    let rest = read_loop stops size rs in if stops then failed [] rs else rest
read_loop stops size (bytes c ∷ rs) =
    let rest = read_loop stops (size - length c) rs in
    if leb size (length c) then got (take size c) (leftover (drop size c) rs) else in_front c rest

-- The loops that look at nothing but an error, and those for a request, which a read of 0 breaks too.
abbrev pub read_all : ℕ → List Read → Received
read_all size rs = read_loop false size rs

abbrev pub read_request : ℕ → List Read → Received
read_request size rs = read_loop true size rs

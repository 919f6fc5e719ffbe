-- ===== src/Transfer/Request.antt =====
-- The answer to a request in src/router/tools/router_tcp.c: send_data. The name that the server makes of the user and
-- the program of the client is left out. The request has the fields of `rtr_inet_info1_t` in their order.
pub mod Streams
use udaq.Base.{
  ℕ, zero, suc, ◌+◌, ◌*◌, Bool, true, false, ◌&&◌, ◌||◌, Option, none, some, List, [], ◌∷◌, ◌++◌,
  ltb, ◌==◌, if◌then◌else◌, pos, negsuc,
}
use udaq.Tcp.{Read, ntohl}
use udaq.Transfer.{take, drop, zeros, htonl, Received, got, failed, waiting, read_request}
use udaq.Transfer.Server.{
  Version, router_inet_version_1, router_inet_version_2, Act, write, router_disconnect, Ending,
  returned, waits, after, send_data_from_router,
}
use udaq.Transfer.Files.{send_data_from_file}

-- What the server finds: its own user, the users that it knows, the routers that can be connected to with the
-- buffers that they give, the files of the runs, whether the reply can be written and `malloc` gives memory, and
-- what the variables of the functions hold at first.
pub record Host : Type 0 where
  pub getuid : ℕ
  pub getpwnam : List ℕ → Option ℕ
  pub router_connect : List ℕ → ℕ → ℕ → Option (List (Option (List ℕ × Bool)))
  pub run_file : ℕ → Option (List ℕ)
  pub write_ok : Bool
  pub malloc : Bool
  pub info2_rest : List ℕ
  pub info3_res : List ℕ
  pub reply : List ℕ

-- `ntohs` of two bytes.
abbrev pub ntohs : List ℕ → ℕ
ntohs (a ∷ b ∷ cs) = 256 * a + b
ntohs _ = 0

-- A `short` in the order of the machine, the low byte first, as a bit pattern.
abbrev pub short_at : List ℕ → ℕ
short_at (a ∷ b ∷ cs) = a + 256 * b
short_at _ = 0

-- The characters up to the first 0.
unfoldable pub c_string : List ℕ → List ℕ
c_string [] = []
c_string (zero ∷ cs) = []
c_string (suc c ∷ cs) = suc c ∷ c_string cs

abbrev pub same_bytes : List ℕ → List ℕ → Bool
same_bytes [] [] = true
same_bytes (a ∷ as') (b ∷ bs) = a == b && same_bytes as' bs
same_bytes _ _ = false

-- `E_VERSION` and `E_NODEV`
abbrev pub e_version : ℕ
e_version = 1

abbrev pub e_nodev : ℕ
e_nodev = 3

-- `client_ver`; none where it is too high. The version is a signed number.
abbrev pub version_of : ℕ → Option Version
version_of n =
    if ltb 512 n && ltb n 2147483648
    then none
    else if n == 512
    then some router_inet_version_2
    else some router_inet_version_1

-- `router_names` and `def_blk_size`; none is a read behind the arrays.
unfoldable pub router_name : ℕ → Option (List ℕ × ℕ)
router_name n =
    if n == 0
    then some ([], 32768)
    else if n == 1
    then some (66 ∷ 76 ∷ 68 ∷ 71 ∷ [], 1048576)
    else if n == 2
    then some (71 ∷ 82 ∷ 32 ∷ 32 ∷ [], 16384)
    else if n == 3
    then some (76 ∷ 65 ∷ 83 ∷ 32 ∷ [], 16384)
    else if n == 4
    then some (66 ∷ 76 ∷ 80 ∷ 32 ∷ [], 16384)
    else if n == 5
    then some (66 ∷ 76 ∷ 68 ∷ 76 ∷ [], 1048576)
    else none

-- `unit==0 && 0<stream || stream<num_router_names`
abbrev pub has_stream : ℕ → ℕ → Bool
has_stream unit stream = (unit == 0 && ltb 0 stream) || ltb stream 6

module _ (host : Host) where
  -- A reply that refuses.
  abbrev pub refuse : ℕ → List Act × Ending
  refuse result = (write (htonl result ++ host.info2_rest) ∷ [], returned (pos 0))

  -- `info2` where the connection is made; if it cannot be written the function returns.
  abbrev pub accept : ℕ → List Act × Ending → List Act × Ending
  accept blk_size rest =
      if host.write_ok
      then after (write (htonl 0 ++ (htonl blk_size ++ zeros 8)) ∷ []) rest
      else ([], returned (pos 0))

  -- `send_data_from_router` and `router_disconnect`.
  abbrev pub from_router :
      Version → ℕ → List (Option (List ℕ × Bool)) → List Read → List Act × Ending
  from_router version blk_size bufs rs =
      let r =
        send_data_from_router version blk_size host.info3_res host.malloc host.reply bufs rs in
      elim r.1 [ returned n ↦ (r.0 ++ router_disconnect ∷ [], returned (pos 0)) | other ↦ r ]

  abbrev pub or_refuse :
      (List (Option (List ℕ × Bool)) → List Act × Ending)
      → Option (List (Option (List ℕ × Bool)))
      → List Act × Ending
  or_refuse served none = refuse e_nodev
  or_refuse served (some bufs) = served bufs

  -- `case ROUTER_INET_VERSION_1`: the name of the stream, with its fourth character cut off.
  unfoldable pub serve_stream : List ℕ → List Read → Option (List Act × Ending)
  serve_stream info1 rs =
      let stream = ntohs (drop 6 info1) in
      if has_stream (ntohs (drop 4 info1)) stream
      then elim (router_name stream) [
        | none ↦ none
        | some (name, blk_size) ↦ some (
            or_refuse (λ bufs. accept blk_size (from_router router_inet_version_1 blk_size bufs rs))
              (host.router_connect (c_string (take 3 name)) host.getuid (ntohl (drop 8 info1))))
      ]
      else some (refuse e_nodev)

  -- `case ROUTER_INET_VERSION_2`: a run file, or a router of a user. The name of the router has no end mark, and
  -- the characters behind it are those of the user.
  unfoldable pub serve_name : List ℕ → List Read → List Act × Ending
  serve_name info1 rs =
      if same_bytes (take 4 (drop 12 info1)) (46 ∷ 98 ∷ 108 ∷ 100 ∷ [])
      then accept 0 (elim (host.run_file (short_at (drop 6 info1))) [
        | none ↦ ([], returned (pos 0))
        | some file ↦
            let r = send_data_from_file host.info3_res host.reply file rs in
            elim r.1 [ returned n ↦ (r.0, returned (pos 0)) | other ↦ r ]
      ])
      else elim (host.getpwnam (c_string (take 15 (drop 48 info1)))) [
        | none ↦ refuse e_nodev
        | some uid ↦
            or_refuse (λ bufs. accept 0 (from_router router_inet_version_2 0 bufs rs))
              (host.router_connect (c_string (drop 12 info1)) uid (ntohl (drop 8 info1)))
      ]

  abbrev pub serve_version : Option Version → List ℕ → List Read → Option (List Act × Ending)
  serve_version none info1 rs = some (refuse e_version)
  serve_version (some router_inet_version_1) info1 rs = serve_stream info1 rs
  serve_version (some router_inet_version_2) info1 rs = some (serve_name info1 rs)

  abbrev pub serve_request : Received → Option (List Act × Ending)
  serve_request (got info1 rs) = serve_version (version_of (ntohl info1)) info1 rs
  serve_request (failed b rs) = some ([], returned (pos 0))
  serve_request waiting = some ([], waits)

  -- `send_data`; none where it reads behind an array.
  unfoldable pub send_data : List Read → Option (List Act × Ending)
  send_data rs = serve_request (read_request 64 rs)

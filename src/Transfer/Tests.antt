-- ===== src/Transfer/Tests.antt =====
-- The theorems about the transfer at concrete blocks and requests.
use udaq.Base.{
  ℕ, ◌≡◌, ◌≢◌, refl, inl, pos, true, some, none, List, [], ◌∷◌, ◌++◌, ◌==◌, if◌then◌else◌, arith,
}
use udaq.Client.Key.{get_key}
use udaq.Tcp.Blocks.{pieces}
use udaq.Transfer.{zeros, read_loop}
use udaq.Transfer.Streams.{ends}
use udaq.Transfer.Server.{
  send_data_from_router, send_blocks, waits, returned, router_inet_version_2,
}
use udaq.Transfer.Server.Acts.{sent, released, held, send_data_from_router-ends}
use udaq.Transfer.Client.{Turn, receive_blocks, transfer}
use udaq.Transfer.Closed.{blocks_put, transfer-blocks}
use udaq.Transfer.Files.{send_data_from_file}
use udaq.Transfer.Files.Blocks.{Bld, file_of, buffers_of, send_data_from_file-send_data_from_router}
use udaq.Transfer.Request.{Host, send_data, refuse, e_nodev}
use udaq.Transfer.Request.Streams.{bldg, send_data-builder}

abbrev two : List (List ℕ)
two = (7 ∷ 8 ∷ 9 ∷ []) ∷ [] ∷ []

abbrev turns : List Turn
turns = record { room = some 16; write_ok = true } ∷ record { room = some 16; write_ok = true } ∷ []

-- The bytes of both blocks, in two pieces.
abbrev stream : List (List ℕ)
stream =
    (0 ∷ 0 ∷ 0 ∷ 0 ∷ 0 ∷ 0 ∷ []) ∷ (0 ∷ 3 ∷ (zeros 56 ++ 7 ∷ 8 ∷ 9 ∷ 0 ∷ 0 ∷ 0 ∷ 1 ∷ zeros 60)) ∷ []

abbrev acknowledges : List (List ℕ)
acknowledges = zeros 81 ∷ zeros 7 ∷ []

transfer-blocks_example :
    (blocks_put (transfer (λ j. true) turns (pieces stream)).0 ≡ (7 ∷ 8 ∷ 9 ∷ []) ∷ [])
    × (released
          (send_data_from_router router_inet_version_2 0
            (zeros 56)
            true
            []
            (held two)
            (pieces acknowledges)).0
        ≡ 3 ∷ 0 ∷ [])
unfolding send_data_from_router send_blocks transfer receive_blocks read_loop
transfer-blocks_example =
    transfer-blocks 0 (zeros 56) two (λ j. true) turns [] stream acknowledges refl (λ j. refl)
      ((
        omega arith,
        (16, refl, omega arith),
        refl,
        (omega arith, (16, refl, omega arith), refl, tt),
      ))
      refl refl

send_data_from_router-ends_example :
    (released
        (send_data_from_router router_inet_version_2 0
          (zeros 56)
          true
          []
          (held two ++ some (5 ∷ [], true) ∷ [])
          (pieces (zeros 8 ∷ (0 ∷ []) ∷ []) ++ ends 9)).0
      ≡ 3 ∷ 0 ∷ [])
    × ((send_data_from_router router_inet_version_2 0
          (zeros 56)
          true
          []
          (held two ++ some (5 ∷ [], true) ∷ [])
          (pieces (zeros 8 ∷ (0 ∷ []) ∷ []) ++ ends 9)).1
        ≡ waits)
send_data_from_router-ends_example =
    send_data_from_router-ends 0 (zeros 56) two (5 ∷ []) [] [] (0 ∷ []) (zeros 8 ∷ (0 ∷ []) ∷ []) 9
      refl (omega arith)

abbrev one_bld : List Bld
one_bld =
    record {
      front = 66 ∷ 76 ∷ 68 ∷ 49 ∷ zeros 4;
      back = 0 ∷ 0 ∷ 0 ∷ 32 ∷ zeros 16;
      content = 1 ∷ 2 ∷ [];
    }
    ∷ []

send_data_from_file-send_data_from_router_example :
    (sent (send_data_from_file (zeros 56) [] (file_of one_bld) (pieces (zeros 6 ∷ []))).0
      ≡ sent
          (send_data_from_router router_inet_version_2 0
            (zeros 56)
            true
            []
            (held (buffers_of one_bld))
            (pieces (zeros 6 ∷ []))).0)
    × ((send_data_from_file (zeros 56) [] (file_of one_bld) (pieces (zeros 6 ∷ []))).1
        ≡ returned (pos 0))
send_data_from_file-send_data_from_router_example =
    send_data_from_file-send_data_from_router 0 (zeros 56) one_bld [] (zeros 6 ∷ []) (0 ∷ 0 ∷ [])
      ((refl, refl, omega arith), tt) refl

-- A host where only the router BLDG is there.
abbrev host : Host
host = record {
  getuid = 500;
  getpwnam = λ n. some 500;
  router_connect = λ n uid mode. if get_key n uid == get_key bldg 500 then some [] else none;
  run_file = λ n. none;
  write_ok = true;
  malloc = true;
  info2_rest = zeros 12;
  info3_res = zeros 56;
  reply = zeros 4;
}

abbrev request : ℕ → List ℕ
request n = 0 ∷ 0 ∷ 1 ∷ 0 ∷ 0 ∷ 0 ∷ 0 ∷ n ∷ zeros 56

only_bldg :
    (n : List ℕ) (mode : ℕ)
    → get_key n 500 ≢ get_key bldg 500
    → host.router_connect n 500 mode ≡ none
only_bldg n mode h = ground (arith, h)

send_data-builder_example : send_data host (pieces (request 1 ∷ [])) ≡ some (refuse host e_nodev)
send_data-builder_example =
    send_data-builder host (request 1) 1 bldg (request 1 ∷ []) [] (refl, refl, refl, refl)
      (inl (refl, refl)) only_bldg refl

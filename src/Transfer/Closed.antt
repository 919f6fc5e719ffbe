-- ===== src/Transfer/Closed.antt =====
-- The two ends of the transfer, router_tcp.c and tcp_router.c of src/router/tools, on one connection.
use udaq.Base.{
  ℕ, zero, suc, ◌+◌, ◌*◌, ◌≤◌, ◌≡◌, refl, sym, ap, ◌∙◌, Bool, true, false, some, List, [], ◌∷◌,
  ◌++◌, length, ltb, arith,
}
use mathlib.Core.Path.{subst}
use mathlib.Core.List.{append-nil, append_assoc}
use udaq.Tcp.{Read}
use udaq.Tcp.Blocks.{pieces, joined}
use udaq.Transfer.{zeros, got, read_all}
use udaq.Transfer.Streams.{read_all-joined, read_all-nothing, ntohl-htonl, zeros-append}
use udaq.Transfer.Server.Acts.{sent, released, lengths, held, zeros_more, serve-releases}
use udaq.Transfer.Server.{
  send_blocks, send_data_from_router, info3, Act, await_reply, router_inet_version_2,
}
use udaq.Transfer.Client as Client
use udaq.Transfer.Client.{
  ClientAct, put_block, Turn, receive_blocks, transfer, pre_acknowledge, bufsize_of, read_header,
}

-- The bytes that tcp_router writes, and the blocks that it puts into its router.
abbrev pub written : List ClientAct → List ℕ
written [] = []
written (ClientAct.write b ∷ ss) = b ++ written ss
written (put_block b ∷ ss) = written ss

abbrev pub blocks_put : List ClientAct → List (List ℕ)
blocks_put [] = []
blocks_put (put_block b ∷ ss) = b ∷ blocks_put ss
blocks_put (ClientAct.write b ∷ ss) = blocks_put ss

-- The blocks that have a byte.
abbrev pub non_empty : List (List ℕ) → List (List ℕ)
non_empty [] = []
non_empty ([] ∷ bs) = non_empty bs
non_empty ((b ∷ c) ∷ bs) = (b ∷ c) ∷ non_empty bs

-- No block is larger than tcp_router takes, and the other router has room for each.
abbrev pub Fits : List (List ℕ) → List Turn → Type 0
Fits [] turns = Unit {0}
Fits (b ∷ bs) [] = ⊥
Fits (b ∷ bs) (turn ∷ turns) =
    (length b ≤ 1048576)
    × ((size : ℕ) × (turn.room ≡ some size) × (length b ≤ size))
    × (turn.write_ok ≡ true)
    × Fits bs turns

zeros-swap : (n : ℕ) (r : List ℕ) → zeros n ++ (zeros 4 ++ r) ≡ zeros 4 ++ (zeros n ++ r)
zeros-swap n r =
    let same : n + 4 ≡ 4 + n = omega arith in
    sym (append_assoc (zeros n) (zeros 4) r)
    ∙ ap (λ u. u ++ r) (zeros-append n 4 ∙ ap zeros same ∙ sym (zeros-append 4 n))
    ∙ append_assoc (zeros 4) (zeros n) r

non_empty-cons :
    (b : List ℕ) (bs : List (List ℕ)) → non_empty (b ∷ []) ++ non_empty bs ≡ non_empty (b ∷ bs)
non_empty-cons [] bs = refl
non_empty-cons (c ∷ b) bs = refl

pre_acknowledge_lem :
    (n : ℕ) (oks : ℕ → Bool) (next : List ClientAct × Client.Ending)
    → ((j : ℕ) → oks j ≡ true)
    → (written (pre_acknowledge n oks next).0 ≡ zeros (4 * n) ++ written next.0)
      × (blocks_put (pre_acknowledge n oks next).0 ≡ blocks_put next.0)
pre_acknowledge_lem zero oks next h = (refl, refl)
pre_acknowledge_lem (suc n) oks next h =
    let (a, b) = pre_acknowledge_lem n oks next h in
    (
      rw (h n) (
          ap (λ u. zeros 4 ++ u) a
          ∙ sym (append_assoc (zeros 4) (zeros (4 * n)) (written next.0))
          ∙ ap (λ u. u ++ written next.0) (zeros_more n)),
      rw (h n) b,
    )

module _ (blk_size : ℕ) (res : List ℕ) where
  abbrev serve : ℕ → List ℕ → List (List ℕ) → List Read → List Act
  serve i reply bs rs = (send_blocks router_inet_version_2 blk_size res i reply (held bs) rs).0

  -- A block is written whatever comes back.
  abbrev answered : ℕ → List ℕ → List ℕ → List (List ℕ) → List Read → List ℕ
  answered i reply b bs rs =
      sent
        (await_reply router_inet_version_2 (length b) true reply (read_all 4 rs)
          (λ r ts. send_blocks router_inet_version_2 blk_size res (i + 1) r (held bs) ts)).0

  serve-writes :
      (i : ℕ) (reply b : List ℕ) (bs : List (List ℕ)) (rs : List Read)
      → sent (serve i reply (b ∷ bs) rs) ≡ info3 res i (length b) ++ (b ++ answered i reply b bs rs)
  unfolding send_blocks
  serve-writes i reply [] bs rs = refl
  serve-writes i reply (c ∷ b) bs rs =
      let some_bytes : ltb 0 (suc (length b)) ≡ true = ground arith in rw some_bytes refl

  -- With an acknowledge the next block follows.
  serve-continues :
      (i : ℕ) (reply b : List ℕ) (bs : List (List ℕ)) (ds : List (List ℕ)) (y : List ℕ)
      → joined ds ≡ zeros 4 ++ y
      → (es : List (List ℕ)) × (answered i reply b bs (pieces ds)
          ≡ sent (serve (i + 1) (zeros 4) bs (pieces es)))
        × (joined es ≡ y)
  serve-continues i reply b bs ds y e =
      let (es, f, g) = read_all-joined ds (zeros 4) y e (omega arith) in (es, rw f refl, g)

  bufsize-info3 :
      (i : ℕ) (b : List ℕ) → length b ≤ 1048576 → bufsize_of (info3 res i (length b)) ≡ length b
  bufsize-info3 i b l =
      let n = ntohl-htonl (length b) (omega (arith, l)) in
      let small : ltb 1048576 (length b) ≡ false = ground (arith, l) in rw n (rw small refl)

  receive-got :
      (c : ℕ) (b : List ℕ) (turn : Turn) (header : List ℕ) (rs ts : List Read) (size : ℕ)
      (next : List Read → List ClientAct × Client.Ending)
      → bufsize_of header ≡ length (c ∷ b)
      → read_all (length (c ∷ b)) rs ≡ got (c ∷ b) ts
      → turn.room ≡ some size
      → length (c ∷ b) ≤ size
      → turn.write_ok ≡ true
      → read_header turn (got header rs) next
        ≡ Client.after (put_block (c ∷ b) ∷ ClientAct.write (zeros 4) ∷ []) (next ts)
  receive-got c b turn header rs ts size next n f r m w =
      let some_bytes : ltb 0 (suc (length b)) ≡ true = ground arith in
      let fits : ltb size (suc (length b)) ≡ false = ground (arith, m) in
      rw n (rw some_bytes (rw r (rw fits (rw f (rw w refl)))))

  receive-body :
      (b y : List ℕ) (turn : Turn) (turns : List Turn) (header : List ℕ) (es : List (List ℕ))
      (size : ℕ)
      → bufsize_of header ≡ length b
      → joined es ≡ b ++ y
      → turn.room ≡ some size
      → length b ≤ size
      → turn.write_ok ≡ true
      → (fs : List (List ℕ)) × (written
            (read_header turn (got header (pieces es)) (λ ts. receive_blocks turns ts)).0
          ≡ zeros 4 ++ written (receive_blocks turns (pieces fs)).0)
        × (blocks_put (read_header turn (got header (pieces es)) (λ ts. receive_blocks turns ts)).0
            ≡ non_empty (b ∷ []) ++ blocks_put (receive_blocks turns (pieces fs)).0)
        × (joined fs ≡ y)
  receive-body [] y turn turns header es size n g r m w =
      (es, rw n (rw w refl), rw n (rw w refl), g)
  receive-body (c ∷ b) y turn turns header es size n g r m w =
      let (fs, f, k) = read_all-joined es (c ∷ b) y g (omega arith) in
      let next = λ (ts : List Read). receive_blocks turns ts in
      let got = receive-got c b turn header (pieces es) (pieces fs) size next n f r m w in
      (fs, ap (λ u. written u.0) got, ap (λ u. blocks_put u.0) got, k)

  receive-block :
      (i : ℕ) (b y : List ℕ) (turn : Turn) (turns : List Turn) (cs : List (List ℕ)) (size : ℕ)
      → length res ≡ 56
      → joined cs ≡ info3 res i (length b) ++ (b ++ y)
      → length b ≤ 1048576
      → turn.room ≡ some size
      → length b ≤ size
      → turn.write_ok ≡ true
      → (es : List (List ℕ)) × (written (receive_blocks (turn ∷ turns) (pieces cs)).0
          ≡ zeros 4 ++ written (receive_blocks turns (pieces es)).0)
        × (blocks_put (receive_blocks (turn ∷ turns) (pieces cs)).0
            ≡ non_empty (b ∷ []) ++ blocks_put (receive_blocks turns (pieces es)).0)
        × (joined es ≡ y)
  unfolding receive_blocks
  receive-block i b y turn turns cs size h e l r m w =
      let header = info3 res i (length b) in
      let long : length header ≡ 64 = omega (arith, h) in
      let (es, f, g) = read_all-joined cs header (b ++ y) e (omega (arith, long)) in
      let f' : read_all 64 (pieces cs) ≡ got header (pieces es) =
        subst (λ k. read_all k (pieces cs) ≡ got header (pieces es)) long f in
      let (fs, n, o, k) =
        receive-body b y turn turns header es size (bufsize-info3 i b l) g r m w in
      (fs, rw (f', receive_blocks) n, rw (f', receive_blocks) o, k)

  no_more :
      (turns : List Turn) (cs : List (List ℕ))
      → joined cs ≡ []
      → receive_blocks turns (pieces cs) ≡ ([], Client.Ending.waits)
  unfolding receive_blocks
  no_more [] cs e = refl
  no_more (turn ∷ turns) cs e = rw (read_all-nothing 64 cs (omega arith) e, receive_blocks) refl

  -- The rest of the transfer, after any number of acknowledges that come before their blocks.
  closed_lem :
      (bs : List (List ℕ)) (turns : List Turn) (i k : ℕ) (reply : List ℕ) (cs ds : List (List ℕ))
      → length res ≡ 56
      → Fits bs turns
      → joined cs ≡ sent (serve i reply bs (pieces ds))
      → joined ds ≡ zeros (4 * k) ++ written (receive_blocks turns (pieces cs)).0
      → (blocks_put (receive_blocks turns (pieces cs)).0 ≡ non_empty bs)
        × (written (receive_blocks turns (pieces cs)).0 ≡ zeros (4 * length bs))
  unfolding send_blocks
  closed_lem [] turns i k reply cs ds h v e f =
      let end = no_more turns cs e in (ap (λ u. blocks_put u.0) end, ap (λ u. written u.0) end)
  closed_lem (b ∷ bs) [] i k reply cs ds h v e f = elim v [ ]
  closed_lem (b ∷ bs) (turn ∷ turns) i k reply cs ds h (l, (size, r, m), w, v) e f =
      let (fs, n, o, p) =
        receive-block i b (answered i reply b bs (pieces ds)) turn turns cs size h
          (e ∙ serve-writes i reply b bs (pieces ds)) l r m w in
      let rest = written (receive_blocks turns (pieces fs)).0 in
      let (es, q, s) =
        serve-continues i reply b bs ds (zeros (4 * k) ++ rest)
          (f ∙ ap (λ u. zeros (4 * k) ++ u) n ∙ zeros-swap (4 * k) rest) in
      let (t, u) = closed_lem bs turns (i + 1) k (zeros 4) fs es h v (p ∙ q) s in
      (
        o ∙ ap (λ x. non_empty (b ∷ []) ++ x) t ∙ non_empty-cons b bs,
        n ∙ ap (λ x. zeros 4 ++ x) u ∙ zeros_more (length bs),
      )

  -- A connection between the two ends, where what each reads is what the other writes, in pieces of any sizes:
  -- where all acknowledges can be written, the blocks of at least a byte that one router gives, each at most what tcp_router takes and the other router
  -- has room for, arrive there whole, in their order and nothing else; and every buffer is released.
  pub transfer-blocks :
      (bs : List (List ℕ)) (oks : ℕ → Bool) (turns : List Turn) (reply : List ℕ)
      (cs ds : List (List ℕ))
      → length res ≡ 56
      → ((j : ℕ) → oks j ≡ true)
      → Fits bs turns
      → joined cs
        ≡ sent
            (send_data_from_router router_inet_version_2 blk_size res true reply
              (held bs)
              (pieces ds)).0
      → joined ds ≡ written (transfer oks turns (pieces cs)).0
      → (blocks_put (transfer oks turns (pieces cs)).0 ≡ non_empty bs)
        × (released
              (send_data_from_router router_inet_version_2 blk_size res true reply
                (held bs)
                (pieces ds)).0
            ≡ lengths bs)
  unfolding send_data_from_router transfer send_blocks
  transfer-blocks bs oks turns reply cs ds h w v e f =
      let (before, put) = pre_acknowledge_lem 20 oks (receive_blocks turns (pieces cs)) w in
      let (t, u) = closed_lem bs turns 0 20 reply cs ds h v e (f ∙ before) in
      let n = 4 * length bs in
      let same : 80 + n ≡ n + 80 = omega arith in
      let acks =
        (f ∙ before)
        ∙ ap (λ x. zeros 80 ++ x) u
        ∙ zeros-append 80 n
        ∙ ap zeros same
        ∙ sym (zeros-append n 80) in
      let (es, last, g, g', k) = serve-releases blk_size res [] [] bs 0 reply ds (zeros 80) acks in
      let all = rw (append-nil (held bs), append-nil (pieces ds)) at g in
      (put ∙ t, all ∙ append-nil (lengths bs))

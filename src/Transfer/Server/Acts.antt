-- ===== src/Transfer/Server/Acts.antt =====
-- What send_data_from_router of src/router/tools/router_tcp.c writes and releases, and how it ends without a client.
use udaq.Base.{
  ℕ, suc, ◌+◌, ◌*◌, ◌<◌, ◌≡◌, refl, sym, ap, ◌∙◌, true, Bool, Option, some, List, [], ◌∷◌, ◌++◌,
  length, ltb, arith,
}
use mathlib.Core.List.{append_assoc, append-nil}
use udaq.Tcp.{Read}
use udaq.Tcp.Blocks.{pieces, joined}
use udaq.Transfer.{zeros, got, read_all}
use udaq.Transfer.Streams.{read_all-joined_rest, ends, read_all-ends, zeros-append}
use udaq.Transfer.Server.{
  send_blocks, send_data_from_router, Act, Ending, info3, waits, router_inet_version_2,
}

-- The bytes that one end writes to the connection.
abbrev pub sent : List Act → List ℕ
sent [] = []
sent (Act.write b ∷ as') = b ++ sent as'
sent (_ ∷ as') = sent as'

abbrev pub released : List Act → List ℕ
released [] = []
released (Act.router_release_buf n ∷ as') = n ∷ released as'
released (_ ∷ as') = released as'

abbrev pub lengths : List (List ℕ) → List ℕ
lengths [] = []
lengths (b ∷ bs) = length b ∷ lengths bs

-- Buffers that all can be released.
abbrev pub held : List (List ℕ) → List (Option (List ℕ × Bool))
held [] = []
held (b ∷ bs) = some (b, true) ∷ held bs

pub sent-append : (xs ys : List Act) → sent (xs ++ ys) ≡ sent xs ++ sent ys
sent-append [] ys = refl
sent-append (Act.write b ∷ xs) ys =
    ap (λ u. b ++ u) (sent-append xs ys) ∙ sym (append_assoc b (sent xs) (sent ys))
sent-append (Act.router_release_buf n ∷ xs) ys = sent-append xs ys
sent-append (Act.router_disconnect ∷ xs) ys = sent-append xs ys

pub zeros_more : (n : ℕ) → zeros 4 ++ zeros (4 * n) ≡ zeros (4 * suc n)
zeros_more n =
    let same : 4 + 4 * n ≡ 4 * suc n = omega arith in zeros-append 4 (4 * n) ∙ ap zeros same

module _ (blk_size : ℕ) (res : List ℕ) where
  abbrev pub serve : ℕ → List ℕ → List (Option (List ℕ × Bool)) → List Read → List Act × Ending
  serve i reply bufs rs = send_blocks router_inet_version_2 blk_size res i reply bufs rs

  -- What is written for a block with an acknowledge.
  pub serve-sent :
      (bufs : List (Option (List ℕ × Bool))) (i : ℕ) (reply b : List ℕ) (rs ts : List Read)
      → read_all 4 rs ≡ got (zeros 4) ts
      → sent (serve i reply (some (b, true) ∷ bufs) rs).0
        ≡ info3 res i (length b) ++ (b ++ sent (serve (i + 1) (zeros 4) bufs ts).0)
  unfolding send_blocks
  serve-sent bufs i reply [] rs ts f = rw f refl
  serve-sent bufs i reply (c ∷ b) rs ts f =
      let some_bytes : ltb 0 (suc (length b)) ≡ true = ground arith in rw f (rw some_bytes refl)

  -- With an acknowledge the buffer is released and the next round follows.
  serve-continues :
      (rs : List Read) (bufs : List (Option (List ℕ × Bool))) (i : ℕ) (reply b : List ℕ)
      (ds : List (List ℕ)) (y : List ℕ)
      → joined ds ≡ zeros 4 ++ y
      → (es : List (List ℕ)) × (released (serve i reply (some (b, true) ∷ bufs) (pieces ds ++ rs)).0
          ≡ length b ∷ released (serve (i + 1) (zeros 4) bufs (pieces es ++ rs)).0)
        × ((serve i reply (some (b, true) ∷ bufs) (pieces ds ++ rs)).1
            ≡ (serve (i + 1) (zeros 4) bufs (pieces es ++ rs)).1)
        × (joined es ≡ y)
  unfolding send_blocks
  serve-continues rs bufs i reply [] ds y e =
      let (es, f, g) = read_all-joined_rest rs ds (zeros 4) y e (omega arith) in
      (es, rw f refl, rw f refl, g)
  serve-continues rs bufs i reply (c ∷ b) ds y e =
      let (es, f, g) = read_all-joined_rest rs ds (zeros 4) y e (omega arith) in
      let some_bytes : ltb 0 (suc (length b)) ≡ true = ground arith in
      (es, rw f (rw some_bytes refl), rw f refl, g)

  -- The rounds for buffers that all are acknowledged.
  pub serve-releases :
      (rs : List Read) (more : List (Option (List ℕ × Bool))) (bs : List (List ℕ)) (i : ℕ)
      (reply : List ℕ) (ds : List (List ℕ)) (y : List ℕ)
      → joined ds ≡ zeros (4 * length bs) ++ y
      → (es : List (List ℕ)) × (last : List ℕ) × (released
            (serve i reply (held bs ++ more) (pieces ds ++ rs)).0
          ≡ lengths bs ++ released (serve (i + length bs) last more (pieces es ++ rs)).0)
        × ((serve i reply (held bs ++ more) (pieces ds ++ rs)).1
            ≡ (serve (i + length bs) last more (pieces es ++ rs)).1)
        × (joined es ≡ y)
  serve-releases rs more [] i reply ds y e =
      let same : i + 0 ≡ i = omega arith in (ds, reply, rw same refl, rw same refl, e)
  serve-releases rs more (b ∷ bs) i reply ds y e =
      let (es, f, f', g) =
        serve-continues rs (held bs ++ more) i reply b ds (zeros (4 * length bs) ++ y)
          (e ∙ ap (λ u. u ++ y) (sym (zeros_more (length bs)))) in
      let (fs, last, k, k', l) = serve-releases rs more bs (i + 1) (zeros 4) es y g in
      let same : i + 1 + length bs ≡ i + suc (length bs) = omega arith in
      (
        fs,
        last,
        f
            ∙ ap (λ u. length b ∷ u) k
            ∙ ap (λ n. length b ∷ (lengths bs ++ released (serve n last more (pieces fs ++ rs)).0))
                same,
        f' ∙ k' ∙ ap (λ n. (serve n last more (pieces fs ++ rs)).1) same,
        l,
      )

  serve-ends :
      (i : ℕ) (reply b : List ℕ) (more : List (Option (List ℕ × Bool))) (es : List (List ℕ)) (n : ℕ)
      → length (joined es) < 4
      → (released (serve i reply (some (b, true) ∷ more) (pieces es ++ ends n)).0 ≡ [])
        × ((serve i reply (some (b, true) ∷ more) (pieces es ++ ends n)).1 ≡ waits)
  unfolding send_blocks
  serve-ends i reply [] more es n h = let f = read_all-ends n es 4 h in (rw f refl, rw f refl)
  serve-ends i reply (c ∷ b) more es n h =
      let f = read_all-ends n es 4 h in
      let some_bytes : ltb 0 (suc (length b)) ≡ true = ground arith in
      (rw f (rw some_bytes refl), rw f refl)

  -- Where the client acknowledged some blocks and then closed the connection, between two acknowledges or within one:
  -- with the next block the process reads on, however often `read` gives 0. All the reads are used up,
  -- it has not returned, and it has released the buffers of the acknowledged blocks and no other.
  pub send_data_from_router-ends :
      (bs : List (List ℕ)) (b : List ℕ) (more : List (Option (List ℕ × Bool))) (reply part : List ℕ)
      (ds : List (List ℕ)) (n : ℕ)
      → joined ds ≡ zeros (4 * length bs) ++ part
      → length part < 4
      → (released
            (send_data_from_router router_inet_version_2 blk_size res true reply
              (held bs ++ some (b, true) ∷ more)
              (pieces ds ++ ends n)).0
          ≡ lengths bs)
        × ((send_data_from_router router_inet_version_2 blk_size res true reply
              (held bs ++ some (b, true) ∷ more)
              (pieces ds ++ ends n)).1
            ≡ waits)
  unfolding send_data_from_router
  send_data_from_router-ends bs b more reply part ds n e h =
      let (es, last, f, g, k) =
        serve-releases (ends n) (some (b, true) ∷ more) bs 0 reply ds part e in
      let (m, o) = serve-ends (0 + length bs) last b more es n (omega (arith, ap length k, h)) in
      (f ∙ ap (λ u. lengths bs ++ u) m ∙ append-nil (lengths bs), g ∙ o)

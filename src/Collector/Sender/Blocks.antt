-- ===== src/Collector/Sender/Blocks.antt =====
-- What src/gr/collect_tcp.c sends to a client of version 2, against src/router/tools/router_tcp.c.
use udaq.Base.{
  ℕ, ◌+◌, ◌*◌, ◌≤◌, ◌≡◌, refl, sym, ap, ◌∙◌, List, [], ◌∷◌, ◌++◌, length, length-append, ltb, ◌==◌,
  ◌&&◌, Bool-cases, inl, inr, arith,
}
use mathlib.Core.Path.{subst}
use udaq.Tcp.Blocks.{pieces, joined}
use udaq.Transfer.{take, drop, zeros}
use udaq.Transfer.Streams.{read_all-joined, take-length, length-take, length-drop}
use udaq.Transfer.Server.{send_blocks, info3, router_inet_version_2}
use udaq.Transfer.Server.Acts.{sent, held, zeros_more, serve-sent}
use udaq.Collector.Sender.{
  collect_tcp, prepare, bytes_of, encode_scl_blk, scaler_trailer, sum_words, buf_word,
}

-- The blocks as they are sent.
abbrev pub prepared : ℕ → List (List ℕ) → List (List ℕ)
prepared count [] = []
prepared count (buf ∷ bufs) = bytes_of (prepare count buf).0 ∷ prepared (prepare count buf).1 bufs

abbrev pub AllLong : ℕ → List (List ℕ) → Type 0
AllLong n [] = Unit {0}
AllLong n (b ∷ bs) = (length b ≡ n) × AllLong n bs

length-bytes_of : (ws : List ℕ) → length (bytes_of ws) ≡ 2 * length ws
length-bytes_of [] = refl
length-bytes_of (w ∷ ws) = omega (arith, length-bytes_of ws)

length-encode_scl_blk :
    (buf : List ℕ) (cnt : ℕ) → 154 ≤ length buf → length (encode_scl_blk buf cnt) ≡ length buf
unfolding encode_scl_blk
length-encode_scl_blk buf cnt h =
    let front = take 132 buf in
    let tail = scaler_trailer (sum_words 0 front) ++ drop 154 buf in
    omega (
      arith,
      length-append front tail,
      length-take 132 buf (omega (arith, h)),
      length-drop 154 buf,
      h,
    )

length-prepare :
    (count : ℕ) (buf : List ℕ) → 154 ≤ length buf → length (prepare count buf).0 ≡ length buf
unfolding prepare
length-prepare count buf h = elim (Bool-cases (ltb (buf_word 0 buf) 32768)) [
  | inl e ↦ rw (e, prepare) (length-encode_scl_blk buf count h)
  | inr e ↦ elim (Bool-cases (buf_word 0 buf == 65535 && buf_word 2 buf == 3842)) [
    | inl f ↦ rw (e, f, prepare) refl
    | inr f ↦ rw (e, f, prepare) refl
  ]
]

module _ (n blk_size : ℕ) (res : List ℕ) where
  -- To a client of version 2 that acknowledges every block, the collector writes the bytes that router_tcp writes for a
  -- router with the same blocks, those of the scaler encoded and numbered; every block of the ring has `n` words, which
  -- are at least the 154 of a block of the scaler.
  pub collect_tcp-send_blocks :
      (bufs : List (List ℕ)) (i count : ℕ) (reply : List ℕ) (ds : List (List ℕ)) (y : List ℕ)
      → AllLong n bufs
      → 154 ≤ n
      → joined ds ≡ zeros (4 * length bufs) ++ y
      → sent (collect_tcp router_inet_version_2 n blk_size res i (2 * n) count bufs (pieces ds)).0
        ≡ sent
            (send_blocks router_inet_version_2 blk_size res i reply
              (held (prepared count bufs))
              (pieces ds)).0
  unfolding collect_tcp send_blocks
  collect_tcp-send_blocks [] i count reply ds y v h e = refl
  collect_tcp-send_blocks (buf ∷ bufs) i count reply ds y (l, v) h e =
      let (es, f, g) =
        read_all-joined ds (zeros 4) (zeros (4 * length bufs) ++ y)
          (e ∙ ap (λ u. u ++ y) (sym (zeros_more (length bufs)))) (omega arith) in
      let out = bytes_of (prepare count buf).0 in
      let count' = (prepare count buf).1 in
      let size : length out ≡ 2 * n = omega (
        arith,
        length-bytes_of (prepare count buf).0,
        length-prepare count buf (omega (arith, h, l)),
        l,
      ) in
      let whole : take (2 * n) out ≡ out = subst (λ k. take k out ≡ out) size (take-length out) in
      let rest =
        sent
          (collect_tcp router_inet_version_2 n blk_size res (i + 1) (2 * n) count' bufs
            (pieces es)).0 in
      rw (f, whole, collect_tcp) refl
      ∙ ap (λ k. info3 res i k ++ (out ++ rest)) (sym size)
      ∙ ap (λ u. info3 res i (length out) ++ (out ++ u))
          (collect_tcp-send_blocks bufs (i + 1) count' (zeros 4) es y v h g)
      ∙ sym (
          serve-sent blk_size res (held (prepared count' bufs)) i reply out (pieces ds) (pieces es)
            f)

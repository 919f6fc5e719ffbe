-- ===== src/Transfer/Files/Blocks.antt =====
-- A file of blocks that src/router/tools/router_tcp.c sends, against the buffers of a router.
use udaq.Base.{
  ℕ, zero, suc, ◌+◌, ◌*◌, ◌≤◌, ◌<◌, ◌≡◌, refl, sym, ap, ◌∙◌, true, false, List, [], ◌∷◌, ◌++◌,
  length, length-append, ltb, ◌==◌, pos, arith,
}
use mathlib.Core.Path.{subst}
use mathlib.Core.List.{append_assoc}
use udaq.Tcp.{Read, ntohl}
use udaq.Tcp.Blocks.{pieces, joined}
use udaq.Transfer.{take, drop, zeros, htonl, read_all}
use udaq.Transfer.Streams.{read_all-joined, ntohl-htonl, take-append, drop-append}
use udaq.Transfer.Server.{
  send_blocks, send_data_from_router, returned, after, info3, router_inet_version_2,
}
use udaq.Transfer.Server.Acts.{sent, held, zeros_more, serve, serve-sent}
use udaq.Transfer.Files.{
  send_file, send_data_from_file, bsize_of, max_buf_size, file_frame, file_reply,
}

-- A block of a file: its header but for the size, which stands between `front` and `back`, and its data.
pub record Bld : Type 0 where
  pub front : List ℕ
  pub back : List ℕ
  pub content : List ℕ

abbrev pub header_of : Bld → List ℕ
header_of b = b.front ++ (htonl (length b.content) ++ b.back)

abbrev pub bld_bytes : Bld → List ℕ
bld_bytes b = header_of b ++ b.content

abbrev pub IsBld : Bld → Type 0
IsBld b = (length b.front ≡ 8) × (length b.back ≡ 20) × (length b.content ≤ max_buf_size)

abbrev pub AreBlds : List Bld → Type 0
AreBlds [] = Unit {0}
AreBlds (b ∷ bs) = IsBld b × AreBlds bs

abbrev pub file_of : List Bld → List ℕ
file_of [] = []
file_of (b ∷ bs) = bld_bytes b ++ file_of bs

abbrev pub buffers_of : List Bld → List (List ℕ)
buffers_of [] = []
buffers_of (b ∷ bs) = bld_bytes b ∷ buffers_of bs

-- A file has more bytes than blocks.
enough : (bs : List Bld) → AreBlds bs → length bs ≤ length (file_of bs)
enough [] v = omega arith
enough (b ∷ bs) ((f, g, h), vs) = omega (
  arith,
  enough bs vs,
  length-append (bld_bytes b) (file_of bs),
  length-append (header_of b) b.content,
  length-append b.front (htonl (length b.content) ++ b.back),
  f,
)

module _ (blk_size : ℕ) (res : List ℕ) where
  header-length : (b : Bld) → IsBld b → length (header_of b) ≡ 32
  header-length b (f, g, h) =
      omega (arith, length-append b.front (htonl (length b.content) ++ b.back), f, g)

  bsize-header : (b : Bld) → IsBld b → bsize_of (header_of b) ≡ length b.content
  bsize-header b (f, g, h) =
      let rest = htonl (length b.content) ++ b.back in
      let behind : drop 8 (b.front ++ rest) ≡ rest =
        subst (λ k. drop k (b.front ++ rest) ≡ rest) f (drop-append b.front rest) in
      ap ntohl behind ∙ ntohl-htonl (length b.content) (omega (arith, h))

  -- A round of the file, for a whole block.
  file-round :
      (fuel i : ℕ) (reply header buf more : List ℕ) (rs : List Read)
      → length header ≡ 32
      → bsize_of header ≡ length buf
      → length buf ≤ max_buf_size
      → send_file res (suc fuel) i reply (header ++ (buf ++ more)) rs
        ≡ after
            (file_frame res i header buf)
            (file_reply reply (read_all 4 rs) (λ r ts. send_file res fuel (i + 1) r more ts))
  unfolding send_file
  file-round fuel i reply header buf more rs h n l =
      let rest = buf ++ more in
      let front : take 32 (header ++ rest) ≡ header =
        subst (λ k. take k (header ++ rest) ≡ header) h (take-append header rest) in
      let behind : drop 32 (header ++ rest) ≡ rest =
        subst (λ k. drop k (header ++ rest) ≡ rest) h (drop-append header rest) in
      let small : ltb max_buf_size (length buf) ≡ false = ground (arith, l) in
      let whole : (length buf == length buf) ≡ true = ground arith in
      rw (front, behind, send_file)
        (rw (h, n) (rw (small, take-append buf more, drop-append buf more) (rw whole refl)))

  file_lem :
      (bs : List Bld) (fuel i : ℕ) (reply : List ℕ) (ds : List (List ℕ)) (y : List ℕ)
      → AreBlds bs
      → length bs < fuel
      → joined ds ≡ zeros (4 * length bs) ++ y
      → (sent (send_file res fuel i reply (file_of bs) (pieces ds)).0
          ≡ sent (serve blk_size res i reply (held (buffers_of bs)) (pieces ds)).0)
        × ((send_file res fuel i reply (file_of bs) (pieces ds)).1 ≡ returned (pos 0))
  unfolding send_file send_blocks
  file_lem bs zero i reply ds y v l e = elim l [ ]
  file_lem [] (suc fuel) i reply ds y v l e = (refl, refl)
  file_lem (b ∷ bs) (suc fuel) i reply ds y (v, vs) l e =
      let (es, f, g) =
        read_all-joined ds (zeros 4) (zeros (4 * length bs) ++ y)
          (e ∙ ap (λ u. u ++ y) (sym (zeros_more (length bs)))) (omega arith) in
      let (t, u) = file_lem bs fuel (i + 1) (zeros 4) es y vs (omega (arith, l)) g in
      let round =
        file-round fuel i reply (header_of b) b.content (file_of bs) (pieces ds) (header-length b v)
          (bsize-header b v) v.2 in
      let rest = sent (send_file res fuel (i + 1) (zeros 4) (file_of bs) (pieces es)).0 in
      let size : 32 + length b.content ≡ length (bld_bytes b) =
        omega (arith, length-append (header_of b) b.content, header-length b v) in
      let start =
        ap (λ (fs : List ℕ). send_file res (suc fuel) i reply fs (pieces ds))
          (append_assoc (header_of b) b.content (file_of bs))
        ∙ round in
      (
        ap (λ r. sent r.0) start
            ∙ rw f refl
            ∙ ap (λ n. info3 res i n ++ (header_of b ++ (b.content ++ rest))) size
            ∙ ap (λ w. info3 res i (length (bld_bytes b)) ++ w)
                (sym (append_assoc (header_of b) b.content rest))
            ∙ ap (λ w. info3 res i (length (bld_bytes b)) ++ (bld_bytes b ++ w)) t
            ∙ sym (
                serve-sent blk_size res (held (buffers_of bs)) i reply (bld_bytes b) (pieces ds)
                  (pieces es) f),
        ap (λ r. r.1) start ∙ rw f u,
      )

  -- A file of whole blocks, none with more data than the buffer holds, is sent to the end, with an acknowledge for
  -- each block, and the bytes that are written are the same as for a router that gives the blocks of the
  -- file with their headers.
  pub send_data_from_file-send_data_from_router :
      (bs : List Bld) (reply : List ℕ) (ds : List (List ℕ)) (y : List ℕ)
      → AreBlds bs
      → joined ds ≡ zeros (4 * length bs) ++ y
      → (sent (send_data_from_file res reply (file_of bs) (pieces ds)).0
          ≡ sent
              (send_data_from_router router_inet_version_2 blk_size res true reply
                (held (buffers_of bs))
                (pieces ds)).0)
        × ((send_data_from_file res reply (file_of bs) (pieces ds)).1 ≡ returned (pos 0))
  unfolding send_data_from_file send_data_from_router
  send_data_from_file-send_data_from_router bs reply ds y v e =
      file_lem bs (suc (length (file_of bs))) 0 reply ds y v (omega (arith, enough bs v)) e

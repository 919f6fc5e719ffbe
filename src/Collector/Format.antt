-- ===== src/Collector/Format.antt =====
-- The blocks that src/gr/grlib.c makes at the start and the end of a run, before the check of the format in
-- src/router/tools/check_format_lib.c.
use udaq.Base.{
  ℕ, ◌+◌, ◌-◌, ◌%◌, ◌≤◌, ◌<◌, ◌≡◌, ◌⊎◌, refl, sym, ap, ◌∙◌, true, Option, none, some, List, ◌∷◌,
  ◌==◌, ltb, inl, inr, Option-cases, Bool-cases, not, arith,
}
use mathlib.Core.Path.{subst}
use udaq.Format.{Memory}
use udaq.Format.Counters.{cnt_num_blks, cnt_err_blks, cnt_err_blk_header, cnt_err_blk_size}
use udaq.Format.State.{Layout, Checker, tick, tick_if}
use udaq.Format.Ticks.{tick-counter, tick_some}
use udaq.Format.Encode.{Holds, hits}
use udaq.Format.Block.{
  check_buf, check_com, check_blk_header, blk_header_err, bad_block_size, is_information, size_less,
}
use udaq.Collector.RunBlocks.{
  CmdMsgbuf, encode_run, comment_words, blk_header_start, blk_header_end,
}

-- What the words of a block at the start or the end of a run begin with.
encode_run-begins :
    (id size time : ℕ) (mb : CmdMsgbuf) (ws : List ℕ)
    → encode_run id size time mb ≡ some ws
    → (rest : List ℕ) × (ws ≡ 65535 ∷ 6 ∷ id ∷ ((size - 6) % 65536) ∷ rest)
unfolding encode_run
encode_run-begins id size time mb ws e = elim (Option-cases (comment_words mb.comment)) [
  | inl f ↦ let g = rw (f, encode_run) at e in absurd (ground (arith, g))
  | inr (cs, f) ↦ let g = rw (f, encode_run) at e in (_, sym (ap (or_words ws) g))
]
  where
    or_words : List ℕ → Option (List ℕ) → List ℕ
    or_words us none = us
    or_words us (some vs) = vs

module _ (layout : Layout) (show_itvl : ℕ) (mem : Memory) where
  com_error : (p size e : ℕ) → (check_com layout show_itvl mem p size e).1 ≡ e
  unfolding check_com
  com_error p size e = elim (Bool-cases (ltb size 70)) [
    | inl f ↦ rw (f, check_com) refl
    | inr f ↦ rw (f, check_com) refl
  ]

  -- The globals after a header with an error in its size.
  bad_header-counter :
      (p size : ℕ) (s : Checker) (j : ℕ)
      → not (blk_header_err layout show_itvl mem p size s.blk_num == 0) ≡ true
      → bad_block_size layout show_itvl mem p size ≡ true
      → (check_blk_header layout show_itvl mem p size s).counter j
        ≡ s.counter j + (hits cnt_num_blks j + hits cnt_err_blk_size j + hits cnt_err_blk_header j)
  unfolding check_blk_header
  bad_header-counter p size s j e f =
      let sized = tick_if true cnt_err_blk_size (tick cnt_num_blks s) in
      rw (e, f, check_blk_header)
        (omega (
          arith,
          tick_some cnt_err_blk_header (record sized { blk_num = _ }) j,
          tick_some cnt_err_blk_size (tick cnt_num_blks s) j,
          tick-counter cnt_num_blks s j,
        ))

  -- A header of 6 words with the size of all words behind it.
  old_header :
      (p size n : ℕ)
      → mem (p + 1) ≡ 6
      → mem (p + 3) ≡ (size - 6) % 65536
      → 8 ≤ size
      → size < 65542
      → (bad_block_size layout show_itvl mem p size ≡ true)
        × (not (blk_header_err layout show_itvl mem p size n == 0) ≡ true)
  unfolding bad_block_size blk_header_err
  old_header p size n a b l m =
      let less : size_less size 8 ≡ size - 8 = omega (arith, l, m) in
      let fits : (size - 6) % 65536 ≡ size - 6 = omega (arith, l, m) in
      let big : ltb (size - 8) (size - 6) ≡ true = ground (arith, l) in
      (rw (a, b, fits, less, big) refl, rw a (ground arith))

  -- The check of a block that the collector makes at the start or at the end of a run, given with its own size of at
  -- least 8 and less than 65542 words, counts two errors in block headers and one in a block size, as the
  -- header has the 6 words of the old format, and no error in a block.
  pub check_buf-encode_run :
      (id size time fuel buf : ℕ) (mb : CmdMsgbuf) (ws : List ℕ) (s : Checker)
      → (id ≡ blk_header_start) ⊎ (id ≡ blk_header_end)
      → encode_run id size time mb ≡ some ws
      → Holds mem buf ws
      → 8 ≤ size
      → size < 65542
      → (t : Checker) × (check_buf layout show_itvl mem fuel buf size s ≡ some t)
        × (t.counter cnt_num_blks ≡ s.counter cnt_num_blks + 1)
        × (t.counter cnt_err_blk_header ≡ s.counter cnt_err_blk_header + 2)
        × (t.counter cnt_err_blk_size ≡ s.counter cnt_err_blk_size + 1)
        × (t.counter cnt_err_blks ≡ s.counter cnt_err_blks)
  unfolding check_buf
  check_buf-encode_run id size time fuel buf mb ws s d e h l m =
      let (rest, begins) = encode_run-begins id size time mb ws e in
      let (h0, h1) = subst (Holds mem buf) begins h in
      let (six, h2) = h1 in
      let (named, h3) = h2 in
      let two : buf + 2 ≡ buf + 1 + 1 = omega arith in
      let three : buf + 3 ≡ buf + 1 + 1 + 1 = omega arith in
      let (bad, err) = old_header buf size s.blk_num six (ap mem three ∙ h3.0) l m in
      let info : is_information layout show_itvl mem (mem (buf + 2)) ≡ true =
        information (mem (buf + 2)) id (ap mem two ∙ named) d in
      let header = check_blk_header layout show_itvl mem buf size s in
      let count = λ (j : ℕ). bad_header-counter buf size s j err bad in
      let again = λ (j : ℕ). tick_some cnt_err_blk_header header j in
      (
        tick_if true cnt_err_blk_header header,
        rw (info, check_buf)
            (rw
              (com_error (buf + 8) (size_less size 8)
                (blk_header_err layout show_itvl mem buf size s.blk_num))
              (rw err refl)),
        omega (arith, count cnt_num_blks, again cnt_num_blks),
        omega (arith, count cnt_err_blk_header, again cnt_err_blk_header),
        omega (arith, count cnt_err_blk_size, again cnt_err_blk_size),
        omega (arith, count cnt_err_blks, again cnt_err_blks),
      )
    where
      information :
          (w id : ℕ)
          → w ≡ id
          → (id ≡ blk_header_start) ⊎ (id ≡ blk_header_end)
          → is_information layout show_itvl mem w ≡ true
      information w id e (inl a) = rw (e, a) refl
      information w id e (inr a) = rw (e, a) refl

-- ===== src/Format/Block/Encoded.antt =====
-- check_buf on the words of a block: src/router/tools/check_format_lib.c.
use udaq.Base.{
  ℕ, ◌+◌, ◌-◌, ◌/◌, ◌^◌, ◌<◌, ◌≡◌, refl, sym, ap, ◌∙◌, [], ◌∷◌, ◌++◌, length, length-append, some,
  arith, ◌==◌, ltb, true, false,
}
use udaq.Format.{Memory}
use udaq.Format.Counters.{cnt_num_blks, cnt_err_blks, cnt_err_blk_trailer, cnt_err_blk_cont}
use udaq.Format.State.{
  Layout, Checker, Checked, tick_if, blk_header_id, blk_header_size, blk_trailer_id,
  blk_trailer_size,
}
use udaq.Format.Ticks.{tick-counter, tick_none}
use udaq.Format.Encode.{
  Block, IsBlock, Holds, Holds-append, Holds-at, events_words, block_words, block_size, block_tally,
  hits,
}
use udaq.Format.Events.Sequence.{block_events-counted}
use udaq.Format.Block.{
  block_size_at, bad_block_size, blk_header_err, check_blk_header, trailer_at, trl_err,
  after_events, check_buf, size_less, is_information,
}

module _ (layout : Layout) (show_itvl : ℕ) (mem : Memory) where
  -- The words of the header, and what stands behind them.
  HeaderOf : (b : Block) (p : ℕ) → Type 0
  HeaderOf b p =
      (mem p ≡ blk_header_id)
      × (mem (p + 1) ≡ 8)
      × (mem (p + 2) ≡ b.block_id)
      × (mem (p + 4) ≡ b.block_number)
      × (mem (p + 5) ≡ length b.events)
      × (block_size_at layout show_itvl mem p ≡ block_size b)
      × Holds mem (p + 8) (events_words 0 b.events)
      × (mem (p + (8 + length (events_words 0 b.events))) ≡ blk_trailer_id)
      × (mem (p + (8 + length (events_words 0 b.events)) + 1) ≡ blk_trailer_size)

  block_read :
      (b : Block) (p : ℕ) → block_size b < 2147483648 → Holds mem p (block_words b) → HeaderOf b p
  unfolding HeaderOf
  block_read b p l h =
      let two : p + 2 ≡ p + 1 + 1 = omega arith in
      let four : p + 4 ≡ p + 1 + 1 + 1 + 1 = omega arith in
      let five : p + 5 ≡ p + 1 + 1 + 1 + 1 + 1 = omega arith in
      let six : p + 6 ≡ p + 1 + 1 + 1 + 1 + 1 + 1 = omega arith in
      let seven : p + 7 ≡ p + 1 + 1 + 1 + 1 + 1 + 1 + 1 = omega arith in
      let eight : p + 1 + 1 + 1 + 1 + 1 + 1 + 1 + 1 ≡ p + 8 = omega arith in
      let (h0, t0) = h in
      let (h1, t1) = t0 in
      let (h2, t2) = t1 in
      let (h3, t3) = t2 in
      let (h4, t4) = t3 in
      let (h5, t5) = t4 in
      let (h6, t6) = t5 in
      let (h7, body) = t6 in
      let (inside, trailer) = Holds-append mem (p + 8) (events_words 0 b.events) (65519 ∷ 2 ∷ []) (
        Holds-at mem (events_words 0 b.events ++ 65519 ∷ 2 ∷ []) (p + 1 + 1 + 1 + 1 + 1 + 1 + 1 + 1)
          (p + 8) eight body) in
      let at : p + (8 + length (events_words 0 b.events))
          ≡ p + 8 + length (events_words 0 b.events) =
        omega arith in
      let low = ap mem six ∙ h6 in
      let high = ap mem seven ∙ h7 in
      let small : ltb (mem (p + 7)) 32768 ≡ true = ground (arith, high, l) in
      (
        h0,
        h1,
        ap mem two ∙ h2,
        ap mem four ∙ h4,
        ap mem five ∙ h5,
        rw (h1, small) (omega (arith, low, high)),
        inside,
        ap mem at ∙ trailer.0,
        ap (λ k. mem (k + 1)) at ∙ (trailer.1).0,
      )

  no_size_err :
      (b : Block) (p size : ℕ)
      → HeaderOf b p
      → size ≡ length (block_words b)
      → p + size < 2 ^ 63
      → bad_block_size layout show_itvl mem p size ≡ false
  unfolding HeaderOf bad_block_size
  no_size_err b p size h e l =
      let total = length-append (events_words 0 b.events) (65519 ∷ 2 ∷ []) in
      let (_, h1, _, _, _, h5, _, _, _) = h in
      let less : size_less size blk_header_size ≡ block_size b = omega (arith, e, total, l) in
      let big : ltb (block_size b) (block_size b) ≡ false = ground arith in
      rw (h5, less, h1, big) refl

  no_header_err :
      (b : Block) (p size : ℕ)
      → b.block_id < 8
      → HeaderOf b p
      → bad_block_size layout show_itvl mem p size ≡ false
      → blk_header_err layout show_itvl mem p size b.block_number ≡ 0
  unfolding HeaderOf blk_header_err
  no_header_err b p size v h e =
      let (h0, h1, h2, h3, _, _, _, _, _) = h in
      let crate : b.block_id / 8 ≡ 0 = omega (arith, v) in
      let number : b.block_number == b.block_number ≡ true = ground arith in
      rw (e, h0, h1, h2, h3, blk_header_err) (rw (crate, number) refl)

  no_trailer_err :
      (b : Block) (p size : ℕ)
      → HeaderOf b p
      → size ≡ length (block_words b)
      → p + size < 2 ^ 63
      → trl_err layout show_itvl mem p size ≡ 0
  unfolding HeaderOf trl_err
  no_trailer_err b p size h e l =
      let total = length-append (events_words 0 b.events) (65519 ∷ 2 ∷ []) in
      let (_, h1, _, _, _, h5, _, t, t') = h in
      let at : trailer_at layout show_itvl mem p ≡ p + (8 + length (events_words 0 b.events)) =
        omega (arith, e, total, l, h5) in
      let room : ltb (p + size) (p + (8 + length (events_words 0 b.events)) + blk_trailer_size)
          ≡ false =
        ground (arith, e, total) in
      rw (at, trl_err) (rw (room, t, t') refl)

  header-counter :
      (b : Block) (p size : ℕ) (s : Checker) (j : ℕ)
      → blk_header_err layout show_itvl mem p size s.blk_num ≡ 0
      → bad_block_size layout show_itvl mem p size ≡ false
      → (check_blk_header layout show_itvl mem p size s).counter j
        ≡ s.counter j + hits cnt_num_blks j
  unfolding check_blk_header tick_if
  header-counter b p size s j e f = rw (e, f, check_blk_header) (tick-counter cnt_num_blks s j)

  events-kept :
      (p size : ℕ) (c : Checked)
      → c.errors ≡ 0
      → mem (p + 5) ≡ c.num
      → trl_err layout show_itvl mem p size ≡ 0
      → (j : ℕ) → (after_events layout show_itvl mem p size 0 c).counter j ≡ c.state.counter j
  unfolding after_events
  events-kept p size c e n t j =
      let number : mem (p + 5) == c.num ≡ true = ground (arith, n) in
      rw (e, number, t, after_events)
        (tick_none cnt_err_blks
            (tick_if false cnt_err_blk_trailer (tick_if false cnt_err_blk_cont c.state)) j
          ∙ tick_none cnt_err_blk_trailer (tick_if false cnt_err_blk_cont c.state) j
          ∙ tick_none cnt_err_blk_cont c.state j)

  -- A data block that is written by the rules of the format, with its events numbered from 0 and with the
  -- number that the check expects, is checked to its end with enough rounds: no error is counted, and the
  -- counters of the blocks, events, fields, regions and kinds of regions go up by what the block contains.
  pub check_buf-encoded :
      (b : Block) (fuel buf : ℕ) (s : Checker)
      → IsBlock b
      → Holds mem buf (block_words b)
      → buf + length (block_words b) < 2 ^ 63
      → s.blk_num ≡ b.block_number
      → length (block_words b) < fuel
      → (t : Checker) × (check_buf layout show_itvl mem fuel buf (length (block_words b)) s
          ≡ some t)
        × ((j : ℕ) → t.counter j ≡ s.counter j + block_tally b j)
  unfolding check_buf HeaderOf
  check_buf-encoded b fuel buf s v h l n f =
      let (crate, small, events) = v in
      let size = length (block_words b) in
      let header = block_read b buf small h in
      let (h0, h1, h2, h3, h4, h5, inside, t, t') = header in
      let fits = no_size_err b buf size header refl l in
      let err : blk_header_err layout show_itvl mem buf size s.blk_num ≡ 0 =
        rw n (no_header_err b buf size crate header fits) in
      let trailer = no_trailer_err b buf size header refl l in
      let start = check_blk_header layout show_itvl mem buf size s in
      let total = length-append (events_words 0 b.events) (65519 ∷ 2 ∷ []) in
      let at : buf + 8 + length (events_words 0 b.events)
          ≡ buf + (8 + length (events_words 0 b.events)) =
        omega arith in
      let (c, run, num, errs, counts) =
        block_events-counted layout show_itvl mem b.events fuel (buf + 8) start events inside
          (ap mem at ∙ t) (omega (arith, f, total)) in
      let data_block : is_information layout show_itvl mem (mem (buf + 2)) ≡ false =
        ground (arith, h2, crate) in
      let end : buf + size - 2 ≡ buf + 8 + length (events_words 0 b.events) =
        omega (arith, total) in
      (
        after_events layout show_itvl mem buf size 0 c,
        rw (data_block, check_buf) (rw (end, run, err) refl),
        λ j.
            events-kept buf size c errs (h4 ∙ sym num) trailer j
            ∙ omega (arith, counts j, header-counter b buf size s j err fits),
      )

-- ===== src/Format/Block/Accepts.antt =====
-- What check_buf of src/router/tools/check_format_lib.c has seen where it counts no block with an error.
use udaq.Base.{
  ℕ, ◌+◌, ◌-◌, ◌≤◌, ◌<◌, ◌≡◌, ◌⊎◌, refl, ap, Bool, true, false, ◌&&◌, ◌||◌, not, Option, none, some,
  ◌==◌, inl, inr, Bool-cases, Option-cases, if-either, arith,
}
use udaq.Format.{Memory, count_if}
use udaq.Format.Counters.{
  cnt_num_blks, cnt_err_blks, cnt_err_blk_cont, cnt_err_blk_size, cnt_err_blk_header,
  cnt_err_blk_trailer,
}
use udaq.Format.State.{Layout, Checker, Checked, tick, tick_if, blk_header_id, blk_trailer_id}
use udaq.Format.Ticks.{tick-counter, tick_some}
use udaq.Format.Regions.Loop.{keep_data-counter}
use udaq.Format.Fields.{clear_modules}
use udaq.Format.Events.{check_evts}
use udaq.Format.Keeps.{check_evts-keeps, Kept}
use udaq.Format.Block.{
  is_data, is_information, scaler_block_id, bad_block_size, blk_header_err, check_blk_header,
  trailer_at, trl_err, after_events, check_buf,
}

-- No counter of `t` is below that of `s`.
abbrev Grows : Checker → Checker → Type 0
Grows s t = (j : ℕ) → s.counter j ≤ t.counter j

tick-Grows : (r : Checker) (i : ℕ) (s : Checker) → Grows r s → Grows r (tick i s)
tick-Grows r i s h j = omega (arith, h j, tick-counter i s j)

tick_if-Grows : (r : Checker) (b : Bool) (i : ℕ) (s : Checker) → Grows r s → Grows r (tick_if b i s)
unfolding tick_if
tick_if-Grows r b i s h = if-either (Grows r) b (tick-Grows r i s h) h

none_counted : (b : Bool) → count_if b ≡ 0 → b ≡ false
none_counted true e = absurd (ground (arith, e))
none_counted false e = refl

not-false : (b : Bool) → not b ≡ false → b ≡ true
not-false true e = refl
not-false false e = cc

-- The globals of a check, with others where it has no end.
abbrev pub or_else : Checker → Option Checker → Checker
or_else s none = s
or_else s (some t) = t

module _ (layout : Layout) (show_itvl : ℕ) (mem : Memory) where
  header-Grows :
      (p size : ℕ) (s : Checker) → Grows s (check_blk_header layout show_itvl mem p size s)
  unfolding check_blk_header
  header-Grows p size s =
      let start : Grows s s = λ j. omega arith in
      tick_if-Grows s _ cnt_err_blk_header _
        (tick_if-Grows s _ cnt_err_blk_size _ (tick-Grows s cnt_num_blks s start))

  check_evts-Grows :
      (r : Checker) (fuel p te : ℕ) (s : Checker)
      → Grows r s
      → Kept (Grows r) (check_evts layout show_itvl mem fuel p te s)
  unfolding clear_modules
  check_evts-Grows r fuel p te s h =
      check_evts-keeps layout show_itvl mem (Grows r) (tick-Grows r)
        (λ q t g j. rw (keep_data-counter layout mem q t) (g j)) (λ t g. g) (λ c g. g) fuel p te s h

  -- The errors of a block.
  abbrev blk_err : ℕ → ℕ → ℕ → Checked → ℕ
  blk_err p size e c =
      e + c.errors + count_if (not (mem (p + 5) == c.num)) + trl_err layout show_itvl mem p size

  after_events-counts :
      (p size e : ℕ) (c : Checked)
      → let t = after_events layout show_itvl mem p size e c in
        (blk_err p size e c ≡ 0) ⊎ (c.state.counter cnt_err_blks < t.counter cnt_err_blks)
  unfolding after_events
  after_events-counts p size e c = elim (Bool-cases (blk_err p size e c == 0)) [
    | inl z ↦ inl (ground (arith, z))
    | inr z ↦
        let content = tick_if (not (c.errors == 0)) cnt_err_blk_cont c.state in
        let trailer =
          tick_if (not (trl_err layout show_itvl mem p size == 0)) cnt_err_blk_trailer content in
        let grown =
          tick_if-Grows c.state (not (trl_err layout show_itvl mem p size == 0)) cnt_err_blk_trailer
            content
            (tick_if-Grows c.state (not (c.errors == 0)) cnt_err_blk_cont c.state
              (λ j. omega arith)) in
        inr (
          rw (z, after_events)
            (omega (arith, tick_some cnt_err_blks trailer cnt_err_blks, grown cnt_err_blks)))
  ]

  -- The header of a block is what the format asks for: its identifier, its size, a kind of block that there is, and a
  -- length that is within the words; and the block has the number that is expected if it
  -- is a data block.
  abbrev pub GoodHeader : ℕ → ℕ → ℕ → Type 0
  GoodHeader buf size blk_num =
      (mem buf ≡ blk_header_id)
      × (mem (buf + 1) ≡ 8)
      × (is_data layout show_itvl mem (mem (buf + 2))
            || (mem (buf + 2) == scaler_block_id
                || is_information layout show_itvl mem (mem (buf + 2)))
          ≡ true)
      × (bad_block_size layout show_itvl mem buf size ≡ false)
      × (is_data layout show_itvl mem (mem (buf + 2)) && not (mem (buf + 4) == blk_num) ≡ false)

  -- The trailer of a block ends before the words do, and is what the format asks for.
  abbrev pub GoodTrailer : ℕ → ℕ → Type 0
  GoodTrailer buf size =
      let p = trailer_at layout show_itvl mem buf in
      (p + 2 ≤ buf + size) × (mem p ≡ blk_trailer_id) × (mem (p + 1) ≡ 2)

  good_header :
      (buf size blk_num : ℕ)
      → blk_header_err layout show_itvl mem buf size blk_num ≡ 0
      → GoodHeader buf size blk_num
  unfolding blk_header_err
  good_header buf size n e =
      let size_err : count_if (bad_block_size layout show_itvl mem buf size) ≡ 0 =
        omega (arith, e) in
      let number_err : count_if
            (is_data layout show_itvl mem (mem (buf + 2)) && not (mem (buf + 4) == n))
          ≡ 0 =
        omega (arith, e) in
      let kind =
        is_data layout show_itvl mem (mem (buf + 2))
        || (mem (buf + 2) == scaler_block_id
            || is_information layout show_itvl mem (mem (buf + 2))) in
      let kind_err : count_if (not kind) ≡ 0 = omega (arith, e) in
      (
        ground (arith, e),
        ground (arith, e),
        not-false kind (none_counted (not kind) kind_err),
        none_counted _ size_err,
        none_counted _ number_err,
      )

  good_trailer : (buf size : ℕ) → trl_err layout show_itvl mem buf size ≡ 0 → GoodTrailer buf size
  unfolding trl_err
  good_trailer buf size e = (ground (arith, e), ground (arith, e), ground (arith, e))

  -- A block with events that is not counted as one with an error has a good header and a good trailer, its
  -- events have no errors that are counted, and there are as many of them as its header says.
  pub check_buf-accepts :
      (fuel buf size : ℕ) (s t : Checker)
      → is_information layout show_itvl mem (mem (buf + 2)) ≡ false
      → check_buf layout show_itvl mem fuel buf size s ≡ some t
      → t.counter cnt_err_blks ≡ s.counter cnt_err_blks
      → GoodHeader buf size s.blk_num
        × GoodTrailer buf size
        × ((c : Checked) × (check_evts layout show_itvl mem fuel
                (buf + 8)
                (buf + size - 2)
                (check_blk_header layout show_itvl mem buf size s)
              ≡ some c)
            × (c.errors ≡ 0)
            × (c.num ≡ mem (buf + 5)))
  unfolding check_buf
  check_buf-accepts fuel buf size s t d e k =
      let header = check_blk_header layout show_itvl mem buf size s in
      let grown =
        check_evts-Grows s fuel (buf + 8) (buf + size - 2) header (header-Grows buf size s) in
      let e1 = rw (d, check_buf) at e in
      elim (Option-cases (check_evts layout show_itvl mem fuel (buf + 8) (buf + size - 2) header)) [
        | inl f ↦ let e2 = rw f at e1 in absurd (ground (arith, e2))
        | inr (c, f) ↦
            let e3 = ap (or_else t) (rw f at e1) in
            let g = rw f at grown in
            elim (after_events-counts buf size
              (blk_header_err layout show_itvl mem buf size s.blk_num) c) [
                | inr l ↦
                    absurd
                      (omega (arith, l, ap (λ u. u.counter cnt_err_blks) e3, k, g cnt_err_blks))
                | inl z ↦
                    let number : count_if (not (mem (buf + 5) == c.num)) ≡ 0 = omega (arith, z) in
                    (
                      good_header buf size s.blk_num (omega (arith, z)),
                      good_trailer buf size (omega (arith, z)),
                      (c, f, omega (arith, z), ground (arith, number)),
                    )
              ]
      ]

-- ===== src/Format/Block.antt =====
-- check_com and check_buf of src/router/tools/check_format_lib.c: a block.
pub mod Encoded
pub mod Accepts
pub mod Ends
pub mod Arrays
use udaq.Base.{
  ℕ, zero, suc, ◌+◌, ◌-◌, ◌*◌, ◌/◌, ◌%◌, ◌^◌, Bool, true, false, ◌&&◌, ◌||◌, not, Option, none,
  some, ltb, leb, ◌==◌, if◌then◌else◌, List,
}
use udaq.Format.{Memory, count_if, words}
use udaq.Format.Counters.{
  cnt_num_blks, cnt_err_blks, cnt_err_blk_header, cnt_err_blk_trailer, cnt_err_blk_size,
  cnt_err_blk_cont,
}
use udaq.Format.State.{
  Layout, Checker, Checked, tick, tick_if, blk_header_id, blk_header_size, blk_trailer_id,
  blk_trailer_size, run_comment_size,
}
use udaq.Format.Events.{check_evts}

-- `size - k`, which is unsigned.
abbrev pub size_less : ℕ → ℕ → ℕ
size_less size k = (size + 2 ^ 64 - k) % 2 ^ 64

-- An `int` of two words, as an unsigned long.
abbrev pub long_of : ℕ → ℕ → ℕ
long_of low high =
    if ltb high 32768 then low + 65536 * high else 2 ^ 64 - 2 ^ 32 + (low + 65536 * high)

abbrev pub start_block_id : ℕ
start_block_id = 3841

abbrev pub end_block_id : ℕ
end_block_id = 3842

abbrev pub scaler_block_id : ℕ
scaler_block_id = 3584

-- What is shown of a `RunComment`, less the time.
pub record RunComment : Type 0 where
  pub version_major : ℕ
  pub version_minor : ℕ
  pub byte : ℕ
  pub run : ℕ
  pub comment : List ℕ

module _ (layout : Layout) (show_itvl : ℕ) (mem : Memory) where
  -- What is shown and `*error`: `*error++` moves the pointer, so a comment that is too short is no error.
  -- `size` is an `int` that goes into an unsigned comparison; the comment is 124 bytes in 62 words.
  unfoldable pub check_com : ℕ → ℕ → ℕ → Option RunComment × ℕ
  check_com buf size error = if ltb size run_comment_size then (none, error) else (
    some (record {
      version_major = mem buf / 256;
      version_minor = mem buf % 256;
      byte = mem (buf + 2) + 65536 * mem (buf + 3);
      run = mem (buf + 6);
      comment = words mem (buf + 8) 62;
    }),
    error,
  )

  abbrev pub blk_header_size_at : ℕ → ℕ
  blk_header_size_at p = mem (p + 1)

  abbrev pub block_id_at : ℕ → ℕ
  block_id_at p = mem (p + 2)

  abbrev pub block_number_at : ℕ → ℕ
  block_number_at p = mem (p + 4)

  abbrev pub num_events_at : ℕ → ℕ
  num_events_at p = mem (p + 5)

  -- `headerSize==6 ? blockSize : (blockSize32_l | (blockSize32_u<<16))`
  abbrev pub block_size_at : ℕ → ℕ
  block_size_at p =
      if blk_header_size_at p == 6 then mem (p + 3) else long_of (mem (p + 6)) (mem (p + 7))

  abbrev pub is_information : ℕ → Bool
  is_information id = id == start_block_id || id == end_block_id

  -- `(blockID & ~7)==DataBlockID`
  abbrev pub is_data : ℕ → Bool
  is_data id = id / 8 == 0

  unfoldable pub bad_block_size : ℕ → ℕ → Bool
  bad_block_size buf size =
      (blk_header_size_at buf == 6 || blk_header_size_at buf == 8)
      && ltb (size_less size blk_header_size) (block_size_at buf)

  -- `blk_err` after the header; `blk_num` is the number of the block that is expected.
  unfoldable pub blk_header_err : ℕ → ℕ → ℕ → ℕ
  blk_header_err buf size blk_num =
      count_if (not (mem buf == blk_header_id))
      + count_if (not (blk_header_size_at buf == blk_header_size))
      + count_if (
          not (
            is_data (block_id_at buf)
            || (block_id_at buf == scaler_block_id || is_information (block_id_at buf))))
      + count_if (bad_block_size buf size)
      + count_if (is_data (block_id_at buf) && not (block_number_at buf == blk_num))

  -- After a data block `blk_num` is one above the number in its header.
  unfoldable pub check_blk_header : ℕ → ℕ → Checker → Checker
  check_blk_header buf size s =
      let sized = tick_if (bad_block_size buf size) cnt_err_blk_size (tick cnt_num_blks s) in
      let numbered = record sized {
        blk_num = if is_data (block_id_at buf) then block_number_at buf + 1 else s.blk_num;
      } in
      tick_if (not (blk_header_err buf size s.blk_num == 0)) cnt_err_blk_header numbered

  -- `ptr` at the trailer: 2 words less than the size behind the header, in addresses of 64 bits.
  abbrev pub trailer_at : ℕ → ℕ
  trailer_at buf =
      (buf + blk_header_size + block_size_at buf + (2 ^ 64 - blk_trailer_size)) % 2 ^ 63

  unfoldable pub trl_err : ℕ → ℕ → ℕ
  trl_err buf size =
      if ltb (buf + size) (trailer_at buf + blk_trailer_size)
      then 1
      else count_if (not (mem (trailer_at buf) == blk_trailer_id))
        + count_if (not (mem (trailer_at buf + 1) == blk_trailer_size))

  -- From the number of events on.
  unfoldable pub after_events : ℕ → ℕ → ℕ → Checked → Checker
  after_events buf size header_err evts =
      let content = tick_if (not (evts.errors == 0)) cnt_err_blk_cont evts.state in
      let trailer = tick_if (not (trl_err buf size == 0)) cnt_err_blk_trailer content in
      let blk_err =
        header_err
        + evts.errors
        + count_if (not (num_events_at buf == evts.num))
        + trl_err buf size in
      tick_if (not (blk_err == 0)) cnt_err_blks trailer

  -- none where a loop has no end within the fuel.
  unfoldable pub check_buf : ℕ → ℕ → ℕ → Checker → Option Checker
  check_buf fuel buf size s =
      let header = check_blk_header buf size s in
      let blk_err = blk_header_err buf size s.blk_num in
      elim (is_information (block_id_at buf)) [
        | Bool.true ↦
            let (shown, error) =
              check_com (buf + blk_header_size) (size_less size blk_header_size) blk_err in
            some (tick_if (not (error == 0)) cnt_err_blk_header header)
        | Bool.false ↦
            elim (check_evts layout show_itvl mem fuel (buf + blk_header_size)
              (buf + size - blk_trailer_size) header) [
                | none ↦ none
                | some evts ↦ some (after_events buf size blk_err evts)
              ]
      ]

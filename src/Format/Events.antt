-- ===== src/Format/Events.antt =====
-- check_evts of src/router/tools/check_format_lib.c: the events of a block.
pub mod Loop
pub mod Sequence
pub mod Ends
use udaq.Base.{
  ℕ, zero, suc, ◌+◌, ◌-◌, Bool, true, false, ◌&&◌, ◌||◌, not, Option, none, some, ltb, leb, ◌==◌,
  if◌then◌else◌,
}
use udaq.Format.{Memory, count_if, search_word}
use udaq.Format.Counters.{
  cnt_num_evts, cnt_err_evts, cnt_err_evt_header, cnt_err_evt_size, cnt_err_evt_cont,
}
use udaq.Format.State.{
  Layout, Checker, Checked, tick, tick_if, evt_header_id, evt_header_size, blk_trailer_id,
}
use udaq.Format.Fields.{check_flds}

module _ (layout : Layout) (show_itvl : ℕ) (mem : Memory) where
  abbrev pub evt_header_size_at : ℕ → ℕ
  evt_header_size_at p = mem (p + 1)

  abbrev pub event_id_at : ℕ → ℕ
  event_id_at p = mem (p + 2)

  abbrev pub event_size_at : ℕ → ℕ
  event_size_at p = mem (p + 3)

  abbrev pub event_number_at : ℕ → ℕ
  event_number_at p = mem (p + 4)

  abbrev pub num_fields_at : ℕ → ℕ
  num_fields_at p = mem (p + 5)

  unfoldable pub next_event : ℕ → ℕ → ℕ
  next_event te p =
      if mem p == evt_header_id
      then p
      else search_word (λ w. w == evt_header_id || w == blk_trailer_id) mem (te - p) p

  -- `tp`
  abbrev pub event_end : ℕ → ℕ
  event_end p = p + (evt_header_size_at p + event_size_at p)

  unfoldable pub bad_evt_size : ℕ → ℕ → Bool
  bad_evt_size te p =
      ltb (event_end p) te
      && (not (mem (event_end p) == evt_header_id) && not (mem (event_end p) == blk_trailer_id))

  -- `evt_err` after the header of an event that ends before `te`; `evt_num` counts this event.
  unfoldable pub evt_header_err : ℕ → ℕ → ℕ → ℕ
  evt_header_err te p evt_num =
      count_if (not (mem p == evt_header_id))
      + count_if (not (evt_header_size_at p == evt_header_size))
      + count_if (not (event_id_at p == 0) && not (event_id_at p == 1))
      + count_if (bad_evt_size te p)
      + count_if (not (event_number_at p == evt_num - 1))

  -- `evt_num`, which goes on from the number in the header.
  unfoldable pub adjust_number : ℕ → ℕ → ℕ
  adjust_number p evt_num =
      if event_number_at p == evt_num - 1 then evt_num else event_number_at p + 1

  unfoldable pub check_evt_header : ℕ → ℕ → ℕ → Checker → Checker
  check_evt_header te p evt_num s =
      tick_if (not (evt_header_err te p evt_num == 0)) cnt_err_evt_header
        (tick_if (bad_evt_size te p) cnt_err_evt_size s)

  -- The end of the round, after the fields.
  unfoldable pub after_fields : ℕ → ℕ → Checked → Checked
  after_fields p header_err flds =
      let content = tick_if (not (flds.errors == 0)) cnt_err_evt_cont flds.state in
      let evt_err = header_err + flds.errors + count_if (not (num_fields_at p == flds.num)) in
      record {
        num = flds.num;
        errors = evt_err;
        state = tick_if (not (evt_err == 0)) cnt_err_evts content;
      }

  -- An event that ends before `te`, with its fields.
  unfoldable pub check_evt : ℕ → ℕ → ℕ → ℕ → Checker → Option Checked
  check_evt fuel te p evt_num s =
      let header = check_evt_header te p evt_num s in
      elim (leb (p + evt_header_size_at p) te) [
        | Bool.false ↦ some (record {
          num = 0;
          errors = evt_header_err te p evt_num;
          state = tick_if (not (evt_header_err te p evt_num == 0)) cnt_err_evts header;
        })
        | Bool.true ↦
            elim (check_flds layout show_itvl mem fuel (p + evt_header_size_at p) (event_size_at p)
              header) [
                | none ↦ none
                | some flds ↦ some (after_fields p (evt_header_err te p evt_num) flds)
              ]
      ]

  -- The loop, with less than `n` rounds, each with `fuel` for the fields; none where more are needed.
  unfoldable pub evts_loop : ℕ → ℕ → ℕ → ℕ → ℕ → ℕ → Checker → Option Checked
  evts_loop fuel te zero p evt_num errors s = none
  evts_loop fuel te (suc n) p evt_num errors s = elim (mem p == blk_trailer_id) [
    | Bool.true ↦ some (record { num = evt_num; errors = errors; state = s })
    | Bool.false ↦
        let q = next_event te p in
        elim (leb te q || mem q == blk_trailer_id) [
          | Bool.true ↦ some (record { num = evt_num; errors = errors; state = s })
          | Bool.false ↦ elim (ltb te (event_end q)) [
            | Bool.true ↦ some (record {
              num = evt_num + 1;
              errors = errors;
              state = tick cnt_err_evt_size (tick cnt_num_evts s);
            })
            | Bool.false ↦ elim (check_evt fuel te q (evt_num + 1) (tick cnt_num_evts s)) [
              | none ↦ none
              | some c ↦
                  evts_loop fuel te n (event_end q) (adjust_number q (evt_num + 1))
                    (errors + c.errors) c.state
            ]
          ]
        ]
  ]

  -- `te` is the position of `&buf[size]`, which is before `buf` where the block has no room for events.
  unfoldable pub check_evts : ℕ → ℕ → ℕ → Checker → Option Checked
  check_evts fuel buf te s = evts_loop fuel te fuel buf 0 0 s

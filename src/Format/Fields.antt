-- ===== src/Format/Fields.antt =====
-- check_flds of src/router/tools/check_format_lib.c: the fields of an event.
pub mod Loop
pub mod Sequence
pub mod Ends
use udaq.Base.{
  ℕ, zero, suc, ◌+◌, ◌-◌, ◌/◌, Bool, true, false, ◌&&◌, ◌||◌, not, Option, none, some, ltb, leb,
  ◌==◌, if◌then◌else◌,
}
use udaq.Format.{Memory, count_if, search_word}
use udaq.Format.Counters.{
  cnt_num_flds, cnt_err_flds, cnt_err_fld_header, cnt_err_fld_size, cnt_err_fld_cont,
}
use udaq.Format.State.{Layout, Checker, Checked, tick, tick_if, fld_header_id, fld_header_size}
use udaq.Format.Modules.Fera.{check_fera_init}
use udaq.Format.Modules.Lr3377.{check_lr3377_init}
use udaq.Format.Modules.Pcos.{check_pcos_init}
use udaq.Format.Modules.Inpreg.{check_inpreg_init, show_inpreg}
use udaq.Format.Regions.{check_rgns}

-- The modules are cleared for the next event.
unfoldable pub clear_modules : Checker → Checker
clear_modules s = record s {
  inpreg = check_inpreg_init s.inpreg;
  fera = check_fera_init s.fera;
  lr3377 = check_lr3377_init s.lr3377;
  pcos = check_pcos_init s.pcos;
}

module _ (layout : Layout) (show_itvl : ℕ) (mem : Memory) where
  abbrev pub fld_header_size_at : ℕ → ℕ
  fld_header_size_at p = mem (p + 1)

  abbrev pub field_id_at : ℕ → ℕ
  field_id_at p = mem (p + 2)

  abbrev pub field_size_at : ℕ → ℕ
  field_size_at p = mem (p + 3)

  -- `*ptr` or the next header word before `te`.
  unfoldable pub next_field : ℕ → ℕ → ℕ
  next_field te p =
      if mem p == fld_header_id then p else search_word (λ w. w == fld_header_id) mem (te - p) p

  unfoldable pub bad_fld_size : ℕ → ℕ → Bool
  bad_fld_size te p =
      let tp = p + (fld_header_size_at p + field_size_at p) in
      ltb te tp || (ltb tp te && not (mem tp == fld_header_id))

  -- `fld_err` after the header.
  unfoldable pub fld_header_err : ℕ → ℕ → ℕ
  fld_header_err te p =
      count_if (not (mem p == fld_header_id))
      + count_if (not (fld_header_size_at p == fld_header_size))
      + count_if (not (field_id_at p / 8 == 0))
      + count_if (bad_fld_size te p)

  unfoldable pub check_fld_header : ℕ → ℕ → Checker → Checker
  check_fld_header te p s =
      tick_if (not (fld_header_err te p == 0)) cnt_err_fld_header
        (tick_if (bad_fld_size te p) cnt_err_fld_size (tick cnt_num_flds s))

  -- The regions of a field, which are only read where they begin before `te`.
  unfoldable pub fld_regions : ℕ → ℕ → Checker → Checked
  fld_regions te p s =
      if leb (p + fld_header_size_at p) te
      then check_rgns layout mem (p + fld_header_size_at p) (field_size_at p) s
      else record { num = 0; errors = 0; state = s }

  -- The end of the round, after the regions; the number in the result is not used.
  unfoldable pub after_regions : ℕ → Checked → Checked
  after_regions header_err regions =
      let content = tick_if (not (regions.errors == 0)) cnt_err_fld_cont regions.state in
      let fld_err = header_err + regions.errors in
      record {
        num = regions.num;
        errors = fld_err;
        state = tick_if (not (fld_err == 0)) cnt_err_flds content;
      }

  unfoldable pub check_fld : ℕ → ℕ → Checker → Checked
  check_fld te p s =
      after_regions (fld_header_err te p) (fld_regions te p (check_fld_header te p s))

  -- The loop, with less than `n` rounds; none where more are needed.
  unfoldable pub flds_loop : ℕ → ℕ → ℕ → ℕ → ℕ → Checker → Option Checked
  flds_loop te zero p fld_num errors s = none
  flds_loop te (suc n) p fld_num errors s =
      let q = next_field te p in
      let fld = check_fld te q s in
      let rest =
        flds_loop te n (q + (fld_header_size_at q + field_size_at q)) (fld_num + 1)
          (errors + fld.errors) fld.state in
      let done = some (record { num = fld_num; errors = errors; state = s }) in
      if ltb p te then if ltb q te then rest else done else done

  abbrev pub show_modules : Checked → Checked
  show_modules c = record c {
    state = record (c.state) { inpreg = show_inpreg show_itvl c.state.inpreg };
  }

  unfoldable pub check_flds : ℕ → ℕ → ℕ → Checker → Option Checked
  check_flds fuel buf size s = elim (flds_loop (buf + size) fuel buf 0 0 (clear_modules s)) [
    | none ↦ none
    | some c ↦ some (show_modules c)
  ]

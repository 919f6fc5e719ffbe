-- ===== src/Format/Block/Arrays.antt =====
-- What check_buf of src/router/tools/check_format_lib.c keeps of the modules stays within its arrays.
use udaq.Base.{
  ℕ, ◌+◌, ◌-◌, ◌<◌, ◌≡◌, ap, Bool, ◌||◌, some, ◌==◌, if-either, inl, inr, Bool-cases, Option-cases,
  arith,
}
use mathlib.Core.Path.{subst}
use udaq.Format.{Memory}
use udaq.Format.Counters.{
  cnt_err_blks, cnt_err_blk_cont, cnt_err_blk_header, cnt_err_blk_size, cnt_err_blk_trailer,
  cnt_num_blks,
}
use udaq.Format.State.{Layout, Checker, Checked, tick, tick_if, fld_header_id, evt_header_id}
use udaq.Format.Regions.{rgn_id_of, keep_data}
use udaq.Format.Fields.{clear_modules}
use udaq.Format.Events.{check_evts}
use udaq.Format.Keeps.{check_evts-keeps}
use udaq.Format.Modules.Bounds.{
  IsFera, IsLr3377, IsPcos, IsInpreg, check_fera-IsFera, check_fera_init-IsFera,
  check_lr3377-IsLr3377, check_lr3377_init-IsLr3377, check_pcos-IsPcos, check_pcos_init-IsPcos,
  check_inpreg-IsInpreg, show_inpreg-IsInpreg,
}
use udaq.Format.Block.Accepts.{or_else}
use udaq.Format.Block.Ends.{check_buf-returns}
use udaq.Format.Block.{check_com, is_information, check_blk_header, after_events, check_buf}

-- All arrays of the checker are within their sizes, and no module has two entries.
abbrev pub FitsArrays : Checker → Type 0
FitsArrays s = IsFera s.fera × IsLr3377 s.lr3377 × IsPcos s.pcos × IsInpreg s.inpreg

tick-FitsArrays : (i : ℕ) (s : Checker) → FitsArrays s → FitsArrays (tick i s)
unfolding tick
tick-FitsArrays i s h = h

tick_if-FitsArrays : (b : Bool) (i : ℕ) (s : Checker) → FitsArrays s → FitsArrays (tick_if b i s)
unfolding tick_if
tick_if-FitsArrays b i s h = if-either FitsArrays b (tick-FitsArrays i s h) h

module _ (layout : Layout) (show_itvl : ℕ) (mem : Memory) where
  keep_data-FitsArrays :
      (p : ℕ) (s : Checker) → FitsArrays s → FitsArrays (keep_data layout mem p s)
  unfolding keep_data
  keep_data-FitsArrays p s h =
      let id = rgn_id_of (mem p) in
      let (f, l, c, i) = h in
      if-either FitsArrays (id == 13 || id == 14)
        (check_fera-IsFera layout.fera_bits mem _ _ s.fera f, l, c, i)
        (if-either FitsArrays (id == 7)
          (f, check_lr3377-IsLr3377 layout.lr3377_bits mem _ _ s.lr3377 l, c, i)
          (if-either FitsArrays (id == 2) (f, l, c, check_inpreg-IsInpreg mem _ _ s.inpreg i)
            (if-either FitsArrays (id == 10)
              (f, l, check_pcos-IsPcos layout.pcos_bits mem _ _ s.pcos c, i) h)))

  clear_modules-FitsArrays : (s : Checker) → FitsArrays s → FitsArrays (clear_modules s)
  unfolding clear_modules
  clear_modules-FitsArrays s h =
      let (f, l, c, i) = h in
      (
        check_fera_init-IsFera s.fera f,
        check_lr3377_init-IsLr3377 s.lr3377 l,
        check_pcos_init-IsPcos s.pcos c,
        (omega arith, i.1, omega arith),
      )

  header-FitsArrays :
      (p size : ℕ) (s : Checker)
      → FitsArrays s
      → FitsArrays (check_blk_header layout show_itvl mem p size s)
  unfolding check_blk_header
  header-FitsArrays p size s h =
      tick_if-FitsArrays _ cnt_err_blk_header _
        (tick_if-FitsArrays _ cnt_err_blk_size _ (tick-FitsArrays cnt_num_blks s h))

  after_events-FitsArrays :
      (p size e : ℕ) (c : Checked)
      → FitsArrays c.state
      → FitsArrays (after_events layout show_itvl mem p size e c)
  unfolding after_events
  after_events-FitsArrays p size e c h =
      tick_if-FitsArrays _ cnt_err_blks _
        (tick_if-FitsArrays _ cnt_err_blk_trailer _ (tick_if-FitsArrays _ cnt_err_blk_cont _ h))

  check_buf-fits :
      (fuel buf size : ℕ) (s t : Checker)
      → FitsArrays s
      → check_buf layout show_itvl mem fuel buf size s ≡ some t
      → FitsArrays t
  unfolding check_buf check_com
  check_buf-fits fuel buf size s t h e =
      let header = check_blk_header layout show_itvl mem buf size s in
      let start = header-FitsArrays buf size s h in
      let events =
        check_evts-keeps layout show_itvl mem FitsArrays tick-FitsArrays keep_data-FitsArrays
          clear_modules-FitsArrays
          (λ c k. (k.0, k.1, k.2, show_inpreg-IsInpreg show_itvl c.state.inpreg k.3)) fuel (buf + 8)
          (buf + size - 2) header start in
      elim (Bool-cases (is_information layout show_itvl mem (mem (buf + 2)))) [
        | inl d ↦
            let e1 = rw (d, check_buf) at e in
            subst FitsArrays (ap (or_else t) e1)
              (tick_if-FitsArrays _ cnt_err_blk_header header start)
        | inr d ↦
            let e1 = rw (d, check_buf) at e in
            elim (Option-cases
              (check_evts layout show_itvl mem fuel (buf + 8) (buf + size - 2) header)) [
                | inl f ↦ let e2 = rw f at e1 in absurd (ground (arith, e2))
                | inr (c, f) ↦
                    subst FitsArrays (ap (or_else t) (rw f at e1))
                      (after_events-FitsArrays buf size _ c (rw f at events))
              ]
      ]

  -- Where no header of an event or of a field in the memory has both sizes 0, the check of a block ends, whatever its
  -- words are, with as many rounds in each loop as the block has words, and one; where the modules were within
  -- the arrays that hold them, with no module twice, they are so at the end.
  pub check_buf-FitsArrays :
      (moves : (q : ℕ) → mem q ≡ fld_header_id → 0 < mem (q + 1) + mem (q + 3))
      (moves' : (q : ℕ) → mem q ≡ evt_header_id → 0 < mem (q + 1) + mem (q + 3)) (fuel buf size : ℕ)
      (s : Checker)
      → size < fuel
      → FitsArrays s
      → (t : Checker) × (check_buf layout show_itvl mem fuel buf size s ≡ some t) × FitsArrays t
  check_buf-FitsArrays moves moves' fuel buf size s l h =
      let (t, e) = check_buf-returns layout show_itvl mem moves moves' fuel buf size s l in
      (t, e, check_buf-fits fuel buf size s t h e)

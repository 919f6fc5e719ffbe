-- ===== src/Format/Keeps.antt =====
-- What holds through the loops of src/router/tools/check_format_lib.c because each step keeps it.
use udaq.Base.{
  ℕ, zero, suc, ◌+◌, Bool, ◌||◌, Option, none, some, ◌==◌, leb, ltb, if-either, inl, inr,
  Bool-cases, Option-cases,
}
use udaq.Format.{Memory}
use udaq.Format.Counters.{
  cnt_num_rgns, cnt_err_rgns, cnt_err_rgn_size, cnt_num_evts, cnt_err_evt_size, cnt_err_evts,
  cnt_err_evt_header, cnt_err_evt_cont, cnt_num_flds, cnt_err_flds, cnt_err_fld_header,
  cnt_err_fld_size, cnt_err_fld_cont,
}
use udaq.Format.State.{Layout, Checker, Checked, tick, tick_if, blk_trailer_id}
use udaq.Format.Regions.{keep_data, check_rgn, rgns_loop, check_rgns}
use udaq.Format.Fields.{
  clear_modules, next_field, check_fld_header, fld_regions, after_regions, check_fld, flds_loop,
  show_modules, check_flds, fld_header_err,
}
use udaq.Format.Events.{
  check_evt_header, after_fields, check_evt, evts_loop, check_evts, next_event, event_end,
}

-- A predicate of the globals, for the result of a loop that may have no end.
abbrev pub Kept : (Checker → Type 0) → Option Checked → Type 0
Kept P none = Unit {0}
Kept P (some c) = P c.state

module _ (layout : Layout) (show_itvl : ℕ) (mem : Memory) (P : Checker → Type 0)
    (ticked : (i : ℕ) (s : Checker) → P s → P (tick i s))
    (kept : (p : ℕ) (s : Checker) → P s → P (keep_data layout mem p s))
    (cleared : (s : Checker) → P s → P (clear_modules s))
    (shown : (c : Checked) → P c.state → P (show_modules layout show_itvl mem c).state) where
  pub ticked_if : (b : Bool) (i : ℕ) (s : Checker) → P s → P (tick_if b i s)
  unfolding tick_if
  ticked_if b i s h = if-either P b (ticked i s h) h

  check_rgn-keeps : (te p : ℕ) (s : Checker) → P s → P (check_rgn layout mem te p s)
  unfolding check_rgn
  check_rgn-keeps te p s h =
      ticked_if _ cnt_err_rgns _
        (ticked_if _ cnt_err_rgn_size _ (kept p _ (ticked _ _ (ticked cnt_num_rgns s h))))

  rgns_loop-keeps :
      (n te p rgn_num errors : ℕ) (s : Checker)
      → P s
      → P (rgns_loop layout mem te n p rgn_num errors s).state
  unfolding rgns_loop
  rgns_loop-keeps zero te p rgn_num errors s h = h
  rgns_loop-keeps (suc n) te p rgn_num errors s h =
      if-either (λ (c : Checked). P c.state) (ltb p te)
        (rgns_loop-keeps n te _ _ _ _ (check_rgn-keeps te p s h)) h

  fld_regions-keeps :
      (te p : ℕ) (s : Checker) → P s → P (fld_regions layout show_itvl mem te p s).state
  unfolding fld_regions check_rgns
  fld_regions-keeps te p s h =
      if-either (λ (c : Checked). P c.state) (leb (p + mem (p + 1)) te)
        (rgns_loop-keeps (mem (p + 3)) (p + mem (p + 1) + mem (p + 3)) (p + mem (p + 1)) 0 0 s h) h

  check_fld_header-keeps :
      (te p : ℕ) (s : Checker) → P s → P (check_fld_header layout show_itvl mem te p s)
  unfolding check_fld_header
  check_fld_header-keeps te p s h =
      ticked_if _ cnt_err_fld_header _ (ticked_if _ cnt_err_fld_size _ (ticked cnt_num_flds s h))

  after_regions-keeps :
      (e : ℕ) (c : Checked) → P c.state → P (after_regions layout show_itvl mem e c).state
  unfolding after_regions
  after_regions-keeps e c h = ticked_if _ cnt_err_flds _ (ticked_if _ cnt_err_fld_cont _ h)

  check_fld-keeps : (te p : ℕ) (s : Checker) → P s → P (check_fld layout show_itvl mem te p s).state
  unfolding check_fld
  check_fld-keeps te p s h =
      after_regions-keeps (fld_header_err layout show_itvl mem te p)
        (fld_regions layout show_itvl mem te p (check_fld_header layout show_itvl mem te p s))
        (fld_regions-keeps te p _ (check_fld_header-keeps te p s h))

  flds_loop-keeps :
      (n te p fld_num errors : ℕ) (s : Checker)
      → P s
      → Kept P (flds_loop layout show_itvl mem te n p fld_num errors s)
  unfolding flds_loop
  flds_loop-keeps zero te p fld_num errors s h = tt
  flds_loop-keeps (suc n) te p fld_num errors s h =
      let q = next_field layout show_itvl mem te p in
      let rest = flds_loop-keeps n te _ _ _ _ (check_fld-keeps te q s h) in
      if-either (Kept P) (ltb p te) (if-either (Kept P) (ltb q te) rest h) h

  check_flds-keeps :
      (fuel p size : ℕ) (s : Checker) → P s → Kept P (check_flds layout show_itvl mem fuel p size s)
  unfolding check_flds
  check_flds-keeps fuel p size s h =
      let loop = flds_loop-keeps fuel (p + size) p 0 0 (clear_modules s) (cleared s h) in
      elim (Option-cases (flds_loop layout show_itvl mem (p + size) fuel p 0 0 (clear_modules s))) [
        | inl e ↦ rw (e, check_flds) tt
        | inr (c, e) ↦ rw (e, check_flds) (shown c (rw e at loop))
      ]

  check_evt_header-keeps :
      (te p n : ℕ) (s : Checker) → P s → P (check_evt_header layout show_itvl mem te p n s)
  unfolding check_evt_header
  check_evt_header-keeps te p n s h =
      ticked_if _ cnt_err_evt_header _ (ticked_if _ cnt_err_evt_size _ h)

  after_fields-keeps :
      (p e : ℕ) (c : Checked) → P c.state → P (after_fields layout show_itvl mem p e c).state
  unfolding after_fields
  after_fields-keeps p e c h = ticked_if _ cnt_err_evts _ (ticked_if _ cnt_err_evt_cont _ h)

  check_evt-keeps :
      (fuel te p n : ℕ) (s : Checker) → P s → Kept P (check_evt layout show_itvl mem fuel te p n s)
  unfolding check_evt
  check_evt-keeps fuel te p n s h =
      let header = check_evt_header layout show_itvl mem te p n s in
      let start = check_evt_header-keeps te p n s h in
      elim (Bool-cases (leb (p + mem (p + 1)) te)) [
        | inr e ↦ rw (e, check_evt) (ticked_if _ cnt_err_evts header start)
        | inl e ↦
            let fields = check_flds-keeps fuel (p + mem (p + 1)) (mem (p + 3)) header start in
            elim (Option-cases
              (check_flds layout show_itvl mem fuel (p + mem (p + 1)) (mem (p + 3)) header)) [
                | inl f ↦ rw (e, check_evt) (rw f tt)
                | inr (c, f) ↦ rw (e, check_evt) (rw f (after_fields-keeps p _ c (rw f at fields)))
              ]
      ]

  evts_loop-keeps :
      (fuel n te p evt_num errors : ℕ) (s : Checker)
      → P s
      → Kept P (evts_loop layout show_itvl mem fuel te n p evt_num errors s)
  unfolding evts_loop
  evts_loop-keeps fuel zero te p evt_num errors s h = tt
  evts_loop-keeps fuel (suc n) te p evt_num errors s h =
      let q = next_event layout show_itvl mem te p in
      elim (Bool-cases (mem p == blk_trailer_id)) [
        | inl a ↦ rw (a, evts_loop) h
        | inr a ↦ elim (Bool-cases (leb te q || mem q == blk_trailer_id)) [
          | inl b ↦ rw (a, evts_loop) (rw b h)
          | inr b ↦ elim (Bool-cases (ltb te (event_end layout show_itvl mem q))) [
            | inl d ↦
                rw (a, evts_loop)
                  (rw b (rw d (ticked cnt_err_evt_size _ (ticked cnt_num_evts s h))))
            | inr d ↦
                let event =
                  check_evt-keeps fuel te q (evt_num + 1) (tick cnt_num_evts s)
                    (ticked cnt_num_evts s h) in
                elim (Option-cases
                  (check_evt layout show_itvl mem fuel te q (evt_num + 1) (tick cnt_num_evts s))) [
                    | inl f ↦ rw (a, evts_loop) (rw b (rw d (rw f tt)))
                    | inr (c, f) ↦
                        rw (a, evts_loop)
                          (rw b
                            (rw d (rw f (evts_loop-keeps fuel n te _ _ _ c.state (rw f at event)))))
                  ]
          ]
        ]
      ]

  pub check_evts-keeps :
      (fuel p te : ℕ) (s : Checker) → P s → Kept P (check_evts layout show_itvl mem fuel p te s)
  unfolding check_evts
  check_evts-keeps fuel p te s h = evts_loop-keeps fuel fuel te p 0 0 s h

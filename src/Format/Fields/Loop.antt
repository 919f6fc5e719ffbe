-- ===== src/Format/Fields/Loop.antt =====
-- a round of check_flds on the words of a field: src/router/tools/check_format_lib.c.
use udaq.Base.{
  ℕ, ◌+◌, ◌/◌, ◌≤◌, ◌<◌, ◌≡◌, refl, sym, ap, ◌∙◌, length, arith, ltb, leb, inl, inr, true, false,
  Bool-cases,
}
use udaq.Format.{Memory}
use udaq.Format.Counters.{
  cnt_num_flds, cnt_err_flds, cnt_err_fld_header, cnt_err_fld_size, cnt_err_fld_cont,
}
use udaq.Format.State.{Layout, Checker, Checked, tick, tick_if, fld_header_id}
use udaq.Format.Ticks.{tick-counter, tick_none}
use udaq.Format.Encode.{
  Field, IsField, Holds, Holds-at, regions_words, regions_tally, field_words, hits,
}
use udaq.Format.Regions.{rgns_loop, check_rgns}
use udaq.Format.Regions.Loop.{regions-counted}
use udaq.Format.Fields.{
  bad_fld_size, fld_header_err, check_fld_header, fld_regions, after_regions, check_fld,
}

module _ (layout : Layout) (show_itvl : ℕ) (mem : Memory) where
  no_header_err :
      (te p : ℕ)
      → mem p ≡ fld_header_id
      → mem (p + 1) ≡ 4
      → mem (p + 2) < 8
      → bad_fld_size layout show_itvl mem te p ≡ false
      → fld_header_err layout show_itvl mem te p ≡ 0
  unfolding fld_header_err
  no_header_err te p a b c d =
      let id : mem (p + 2) / 8 ≡ 0 = omega (arith, c) in rw (d, a, b, id, fld_header_err) refl

  pub size_fits :
      (te p : ℕ)
      → p + (mem (p + 1) + mem (p + 3)) ≤ te
      → (p + (mem (p + 1) + mem (p + 3)) < te
          → mem (p + (mem (p + 1) + mem (p + 3))) ≡ fld_header_id)
      → bad_fld_size layout show_itvl mem te p ≡ false
  unfolding bad_fld_size
  size_fits te p l next =
      let tp = p + (mem (p + 1) + mem (p + 3)) in
      let big : ltb te tp ≡ false = ground (arith, l) in
      elim (Bool-cases (ltb tp te)) [
        | inl e ↦ let at = next (ground (arith, e)) in rw (big, e, at) refl
        | inr e ↦ rw (big, e) refl
      ]

  -- A header without an error only counts the field.
  header-counter :
      (te p : ℕ) (s : Checker) (j : ℕ)
      → fld_header_err layout show_itvl mem te p ≡ 0
      → bad_fld_size layout show_itvl mem te p ≡ false
      → (check_fld_header layout show_itvl mem te p s).counter j ≡ s.counter j + hits cnt_num_flds j
  unfolding check_fld_header
  header-counter te p s j e b =
      rw (e, b, check_fld_header)
        (tick_none cnt_err_fld_header (tick_if false cnt_err_fld_size (tick cnt_num_flds s)) j
          ∙ tick_none cnt_err_fld_size (tick cnt_num_flds s) j
          ∙ tick-counter cnt_num_flds s j)

  pub field_read :
      (f : Field) (p : ℕ)
      → Holds mem p (field_words f)
      → (mem p ≡ fld_header_id)
        × (mem (p + 1) ≡ 4)
        × (mem (p + 2) ≡ f.field_id)
        × (mem (p + 3) ≡ length (regions_words f.regions))
        × Holds mem (p + mem (p + 1)) (regions_words f.regions)
  field_read f p h =
      let two : p + 1 + 1 ≡ p + 2 = omega arith in
      let three : p + 1 + 1 + 1 ≡ p + 3 = omega arith in
      let (h0, h1) = h in
      let (b, h2) = h1 in
      let (c, h3) = h2 in
      let (d, body) = h3 in
      (
        h0,
        b,
        ap mem (sym two) ∙ c,
        ap mem (sym three) ∙ d,
        Holds-at mem (regions_words f.regions) (p + 1 + 1 + 1 + 1) (p + mem (p + 1))
            (omega (arith, b)) body,
      )

  regions-kept :
      (c : Checked)
      → c.errors ≡ 0
      → let r = after_regions layout show_itvl mem 0 c in
        (r.errors ≡ 0) × ((j : ℕ) → r.state.counter j ≡ c.state.counter j)
  unfolding after_regions
  regions-kept c e =
      rw (e, after_regions)
        (
          refl,
          λ j.
              tick_none cnt_err_flds (tick_if false cnt_err_fld_cont c.state) j
              ∙ tick_none cnt_err_fld_cont c.state j,
        )

  pub field-counted :
      (f : Field) (te p : ℕ) (s : Checker)
      → IsField f
      → Holds mem p (field_words f)
      → p + length (field_words f) ≤ te
      → bad_fld_size layout show_itvl mem te p ≡ false
      → let c = check_fld layout show_itvl mem te p s in
        (c.errors ≡ 0)
        × ((j : ℕ)
            → c.state.counter j ≡ s.counter j + (hits cnt_num_flds j + regions_tally f.regions j))
  unfolding check_fld fld_regions check_rgns
  field-counted f te p s v h l b =
      let (a0, a1, a2, a3, body) = field_read f p h in
      let header = check_fld_header layout show_itvl mem te p s in
      let size = mem (p + 3) in
      let start = p + mem (p + 1) in
      let err = no_header_err te p a0 a1 (omega (arith, a2, v.0)) b in
      let room : leb start te ≡ true = ground (arith, a1, l) in
      let c = rgns_loop layout mem (start + size) size start 0 0 header in
      let rgns = λ (j : ℕ).
        regions-counted layout mem f.regions (start + size) size start 0 0 header j v.1 body
          (omega (arith, a3)) (omega (arith, a3)) in
      let (e, k) = regions-kept c ((rgns 0).1) in
      rw (err, check_fld)
        (rw (room, fld_regions)
          (e, λ j. k j ∙ omega (arith, (rgns j).2, header-counter te p s j err b)))

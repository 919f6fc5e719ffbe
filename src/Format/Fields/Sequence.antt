-- ===== src/Format/Fields/Sequence.antt =====
-- check_flds on the words of an event: src/router/tools/check_format_lib.c.
use udaq.Base.{
  ℕ, zero, suc, ◌+◌, ◌≤◌, ◌<◌, ◌≡◌, refl, ◌∙◌, List, [], ◌∷◌, length, length-append, All, some,
  arith, ltb, false, true,
}
use udaq.Format.{Memory}
use udaq.Format.State.{Layout, Checker, Checked, fld_header_id}
use udaq.Format.Encode.{
  Field, IsField, Holds, Holds-append, Holds-at, regions_words, field_words, fields_words,
  fields_tally,
}
use udaq.Format.Fields.{next_field, check_fld, flds_loop, check_flds, clear_modules, show_modules}
use udaq.Format.Fields.Loop.{size_fits, field_read, field-counted}

module _ (layout : Layout) (show_itvl : ℕ) (mem : Memory) where
  pub flds_loop_done :
      (te n p fld_num errors : ℕ) (s : Checker)
      → te ≤ p
      → flds_loop layout show_itvl mem te (suc n) p fld_num errors s
        ≡ some (record { num = fld_num; errors = errors; state = s })
  unfolding flds_loop
  flds_loop_done te n p fld_num errors s h =
      let out : ltb p te ≡ false = ground (arith, h) in rw (out, flds_loop) refl

  pub flds_loop_round :
      (te n p q fld_num errors : ℕ) (s : Checker)
      → next_field layout show_itvl mem te p ≡ q
      → p < te
      → q < te
      → let fld = check_fld layout show_itvl mem te q s in
        flds_loop layout show_itvl mem te (suc n) p fld_num errors s
        ≡ flds_loop layout show_itvl mem te n
            (q + (mem (q + 1) + mem (q + 3)))
            (fld_num + 1)
            (errors + fld.errors)
            fld.state
  unfolding flds_loop
  flds_loop_round te n p q fld_num errors s e h k =
      let more : ltb p te ≡ true = ground (arith, h) in
      let found : ltb q te ≡ true = ground (arith, k) in rw (e, more, found, flds_loop) refl

  pub next_here : (te p : ℕ) → mem p ≡ fld_header_id → next_field layout show_itvl mem te p ≡ p
  unfolding next_field
  next_here te p e = rw (e, next_field) refl

  -- What stands behind a field.
  next_header :
      (fs : List Field) (te q : ℕ)
      → Holds mem q (fields_words fs)
      → q + length (fields_words fs) ≡ te
      → q < te
      → mem q ≡ fld_header_id
  next_header [] te q h e l = absurd (omega (arith, e, l))
  next_header (f ∷ fs) te q h e l = h.0

  -- The loop from the first word of the fields `fs`.
  fields-counted :
      (fs : List Field) (te n p fld_num errors : ℕ) (s : Checker)
      → All IsField fs
      → Holds mem p (fields_words fs)
      → p + length (fields_words fs) ≡ te
      → length (fields_words fs) ≤ n
      → (c : Checked) × (flds_loop layout show_itvl mem te (suc n) p fld_num errors s ≡ some c)
        × (c.num ≡ fld_num + length fs)
        × (c.errors ≡ errors)
        × ((j : ℕ) → c.state.counter j ≡ s.counter j + fields_tally fs j)
  fields-counted [] te n p fld_num errors s v h e l = (
    record { num = fld_num; errors = errors; state = s },
    flds_loop_done te n p fld_num errors s (omega (arith, e)),
    omega arith,
    refl,
    λ j. omega arith,
  )
  fields-counted (f ∷ fs) te zero p fld_num errors s v h e l = absurd (omega (arith, l))
  fields-counted (f ∷ fs) te (suc n) p fld_num errors s v h e l =
      let (here, behind) = Holds-append mem p (field_words f) (fields_words fs) h in
      let (a0, a1, a2, a3, body) = field_read layout show_itvl mem f p here in
      let total = length-append (regions_words f.regions) (fields_words fs) in
      let tp = p + (mem (p + 1) + mem (p + 3)) in
      let next =
        Holds-at mem (fields_words fs) (p + length (field_words f)) tp (omega (arith, a1, a3))
          behind in
      let rest : tp + length (fields_words fs) ≡ te = omega (arith, e, total, a1, a3) in
      let fits =
        size_fits layout show_itvl mem te p (omega (arith, rest))
          (next_header fs te tp next rest) in
      let (err, counted) =
        field-counted layout show_itvl mem f te p s v.0 here (omega (arith, e, total)) fits in
      let fld = check_fld layout show_itvl mem te p s in
      let (c, run, num, errs, counts) =
        fields-counted fs te n tp (fld_num + 1) (errors + fld.errors) fld.state v.1 next rest
          (omega (arith, l, total)) in
      (
        c,
        flds_loop_round te (suc n) p p fld_num errors s (next_here te p a0) (omega (arith, e))
              (omega (arith, e))
            ∙ run,
        omega (arith, num),
        omega (arith, errs, err),
        λ j. omega (arith, counts j, counted j),
      )

  -- The fields of an event give no error, their number, and nothing but themselves in the counters.
  pub event_fields-counted :
      (fs : List Field) (fuel p : ℕ) (s : Checker)
      → All IsField fs
      → Holds mem p (fields_words fs)
      → length (fields_words fs) < fuel
      → (c : Checked) × (check_flds layout show_itvl mem fuel p (length (fields_words fs)) s
          ≡ some c)
        × (c.num ≡ length fs)
        × (c.errors ≡ 0)
        × ((j : ℕ) → c.state.counter j ≡ s.counter j + fields_tally fs j)
  unfolding check_flds clear_modules
  event_fields-counted fs zero p s v h l = absurd (omega (arith, l))
  event_fields-counted fs (suc n) p s v h l =
      let (c, run, num, errs, counts) =
        fields-counted fs (p + length (fields_words fs)) n p 0 0 (clear_modules s) v h refl
          (omega (arith, l)) in
      (
        show_modules layout show_itvl mem c,
        rw (run, check_flds) refl,
        omega (arith, num),
        errs,
        λ j. counts j,
      )

-- ===== src/Format/Fields/Ends.antt =====
-- When check_flds of src/router/tools/check_format_lib.c comes to an end.
use udaq.Base.{
  ℕ, zero, suc, ◌+◌, ◌-◌, ◌≤◌, ◌<◌, ◌≡◌, refl, ◌∙◌, none, some, arith, ◌==◌, ltb, inl, inr,
  Bool-cases, false, true,
}
use udaq.Format.{Memory}
use udaq.Format.State.{Layout, Checker, Checked, fld_header_id}
use udaq.Format.Search.{search_word-stops}
use udaq.Format.Fields.{next_field, check_fld, flds_loop, check_flds, clear_modules, show_modules}
use udaq.Format.Fields.Sequence.{next_here, flds_loop_done, flds_loop_round}

module _ (layout : Layout) (show_itvl : ℕ) (mem : Memory) where
  next_field-stops :
      (te p : ℕ)
      → let q = next_field layout show_itvl mem te p in
        (p ≤ q) × (p < te → q < te → mem q ≡ fld_header_id)
  unfolding next_field
  next_field-stops te p = elim (Bool-cases (mem p == fld_header_id)) [
    | inl e ↦ rw (e, next_field) (omega arith, λ h k. ground (arith, e))
    | inr e ↦
        let (a, b) = search_word-stops (λ w. w == fld_header_id) mem (te - p) p in
        rw (e, next_field) (a, λ h k. let found = b (omega (arith, h, k)) in ground (arith, found))
  ]

  flds_loop_none_left :
      (te n p fld_num errors : ℕ) (s : Checker)
      → p < te
      → te ≤ next_field layout show_itvl mem te p
      → flds_loop layout show_itvl mem te (suc n) p fld_num errors s
        ≡ some (record { num = fld_num; errors = errors; state = s })
  unfolding flds_loop
  flds_loop_none_left te n p fld_num errors s h k =
      let more : ltb p te ≡ true = ground (arith, h) in
      let found : ltb (next_field layout show_itvl mem te p) te ≡ false = ground (arith, k) in
      rw (more, found, flds_loop) refl

  flds_loop-returns :
      (moves : (q : ℕ) → mem q ≡ fld_header_id → 0 < mem (q + 1) + mem (q + 3))
      (te n p fld_num errors : ℕ) (s : Checker)
      → te ≤ p + n
      → (c : Checked) × (flds_loop layout show_itvl mem te (suc n) p fld_num errors s ≡ some c)
  flds_loop-returns moves te zero p fld_num errors s l =
      (_, flds_loop_done layout show_itvl mem te zero p fld_num errors s (omega (arith, l)))
  flds_loop-returns moves te (suc n) p fld_num errors s l = elim (Bool-cases (ltb p te)) [
    | inr e ↦
        (_, flds_loop_done layout show_itvl mem te (suc n) p fld_num errors s (ground (arith, e)))
    | inl e ↦
        let q = next_field layout show_itvl mem te p in
        let (ahead, header) = next_field-stops te p in
        let h : p < te = ground (arith, e) in
        elim (Bool-cases (ltb q te)) [
          | inr out ↦ (_, flds_loop_none_left te (suc n) p fld_num errors s h (ground (arith, out)))
          | inl inside ↦
              let k : q < te = ground (arith, inside) in
              let fld = check_fld layout show_itvl mem te q s in
              let (c, run) =
                flds_loop-returns moves te n (q + (mem (q + 1) + mem (q + 3))) (fld_num + 1)
                  (errors + fld.errors) fld.state (omega (arith, l, ahead, moves q (header h k))) in
              (
                c,
                flds_loop_round layout show_itvl mem te (suc n) p q fld_num errors s refl h k ∙ run,
              )
        ]
  ]

  -- Where no header of a field has both sizes 0, the check of fields ends after at most as many rounds as there
  -- are words, and one.
  pub check_flds-returns :
      (moves : (q : ℕ) → mem q ≡ fld_header_id → 0 < mem (q + 1) + mem (q + 3)) (fuel buf size : ℕ)
      (s : Checker)
      → size < fuel
      → (c : Checked) × (check_flds layout show_itvl mem fuel buf size s ≡ some c)
  unfolding check_flds
  check_flds-returns moves zero buf size s l = absurd (omega (arith, l))
  check_flds-returns moves (suc n) buf size s l =
      let (c, run) =
        flds_loop-returns moves (buf + size) n buf 0 0 (clear_modules s) (omega (arith, l)) in
      (show_modules layout show_itvl mem c, rw (run, check_flds) refl)

  flds_loop-hangs :
      (te fuel p fld_num errors : ℕ) (s : Checker)
      → p < te
      → mem p ≡ fld_header_id
      → mem (p + 1) ≡ 0
      → mem (p + 3) ≡ 0
      → flds_loop layout show_itvl mem te fuel p fld_num errors s ≡ none
  unfolding flds_loop
  flds_loop-hangs te zero p fld_num errors s h a b c = refl
  flds_loop-hangs te (suc n) p fld_num errors s h a b c =
      let fld = check_fld layout show_itvl mem te p s in
      let here : p + (mem (p + 1) + mem (p + 3)) ≡ p = omega (arith, b, c) in
      flds_loop_round layout show_itvl mem te n p p fld_num errors s
        (next_here layout show_itvl mem te p a) h h
      ∙ rw here (flds_loop-hangs te n p (fld_num + 1) (errors + fld.errors) fld.state h a b c)

  -- A field whose header gives 0 for the size of the header and for the size of the field is checked again
  -- and again: no number of rounds is enough.
  pub check_flds-hangs :
      (fuel buf size : ℕ) (s : Checker)
      → 0 < size
      → mem buf ≡ fld_header_id
      → mem (buf + 1) ≡ 0
      → mem (buf + 3) ≡ 0
      → check_flds layout show_itvl mem fuel buf size s ≡ none
  unfolding check_flds
  check_flds-hangs fuel buf size s l a b c =
      rw
        (
          flds_loop-hangs (buf + size) fuel buf 0 0 (clear_modules s) (omega (arith, l)) a b c,
          check_flds,
        )
        refl

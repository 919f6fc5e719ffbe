-- ===== src/Format/Events/Ends.antt =====
-- How check_evts of src/router/tools/check_format_lib.c comes to an end.
use udaq.Base.{
  ℕ, zero, suc, ◌+◌, ◌-◌, ◌≤◌, ◌<◌, ◌≡◌, refl, ◌∙◌, ◌⊎◌, ◌||◌, some, arith, ◌==◌, ltb, leb, inl,
  inr, Bool-cases, false, true,
}
use udaq.Format.{Memory, search_word}
use udaq.Format.Counters.{cnt_num_evts, cnt_err_evt_size}
use udaq.Format.State.{Layout, Checker, Checked, tick, evt_header_id, blk_trailer_id, fld_header_id}
use udaq.Format.Search.{search_word-stops}
use udaq.Format.Fields.Ends.{check_flds-returns}
use udaq.Format.Events.{
  next_event, event_end, adjust_number, check_evt_header, check_evt, evts_loop, check_evts,
}
use udaq.Format.Events.Sequence.{Goes, evts_loop_round, next_here}

module _ (layout : Layout) (show_itvl : ℕ) (mem : Memory) where
  -- An event that does not end before `te` ends the check of the block: it is counted with a wrong size, but not
  -- as an event with an error, and no error goes to the block.
  check_evts-overlong :
      (fuel p te : ℕ) (s : Checker)
      → 0 < fuel
      → p < te
      → mem p ≡ evt_header_id
      → te < event_end layout show_itvl mem p
      → check_evts layout show_itvl mem fuel p te s
        ≡ some (record { num = 1; errors = 0; state = tick cnt_err_evt_size (tick cnt_num_evts s) })
  unfolding check_evts evts_loop
  check_evts-overlong zero p te s f h a l = absurd (omega (arith, f))
  check_evts-overlong (suc n) p te s f h a l =
      let first : mem p == blk_trailer_id ≡ false = ground (arith, a) in
      let here = next_here layout show_itvl mem te p a in
      let q = next_event layout show_itvl mem te p in
      let inside : leb te q || mem q == blk_trailer_id ≡ false = rw here (ground (arith, a, h)) in
      let long : ltb te (event_end layout show_itvl mem q) ≡ true = rw here (ground (arith, l)) in
      rw (first, check_evts, evts_loop) (rw inside (rw long refl))

  next_event-stops :
      (te p : ℕ)
      → let q = next_event layout show_itvl mem te p in
        (p ≤ q) × (leb te q || mem q == blk_trailer_id ≡ false → (q < te) × (mem q ≡ evt_header_id))
  unfolding next_event
  next_event-stops te p = elim (Bool-cases (mem p == evt_header_id)) [
    | inl e ↦ rw (e, next_event) (omega arith, λ h. (ground (arith, h), ground (arith, e)))
    | inr e ↦
        let (a, b) =
          search_word-stops (λ w. w == evt_header_id || w == blk_trailer_id) mem (te - p) p in
        rw (e, next_event)
          (
            a,
            λ h.
                let inside : search_word (λ w. w == evt_header_id || w == blk_trailer_id) mem
                      (te - p) p
                    < te =
                  ground (arith, h) in
                let found = b (omega (arith, inside, a)) in (inside, ground (arith, found, h)),
          )
  ]

  check_evt-returns :
      (moves : (q : ℕ) → mem q ≡ fld_header_id → 0 < mem (q + 1) + mem (q + 3)) (fuel te p n : ℕ)
      (s : Checker)
      → mem (p + 3) < fuel
      → (c : Checked) × (check_evt layout show_itvl mem fuel te p n s ≡ some c)
  unfolding check_evt
  check_evt-returns moves fuel te p n s l =
      let header = check_evt_header layout show_itvl mem te p n s in
      elim (Bool-cases (leb (p + mem (p + 1)) te)) [
        | inr e ↦ rw (e, check_evt) (_, refl)
        | inl e ↦
            let (c, run) =
              check_flds-returns layout show_itvl mem moves fuel (p + mem (p + 1)) (mem (p + 3))
                header l in
            rw (e, check_evt) (rw run (_, refl))
      ]

  -- A round ends the loop, or it moves on from a word before `te`.
  round_or_end :
      (moves : (q : ℕ) → mem q ≡ fld_header_id → 0 < mem (q + 1) + mem (q + 3))
      (moves' : (q : ℕ) → mem q ≡ evt_header_id → 0 < mem (q + 1) + mem (q + 3))
      (fuel te n p evt_num errors : ℕ) (s : Checker)
      → te < p + fuel
      → ((c : Checked) × (evts_loop layout show_itvl mem fuel te (suc n) p evt_num errors s
            ≡ some c))
        ⊎ ((p' num' errors' : ℕ) × (s' : Checker) × (p < te)
            × (p < p')
            × (evts_loop layout show_itvl mem fuel te (suc n) p evt_num errors s
                ≡ evts_loop layout show_itvl mem fuel te n p' num' errors' s'))
  unfolding evts_loop Goes
  round_or_end moves moves' fuel te n p evt_num errors s f =
      elim (Bool-cases (mem p == blk_trailer_id)) [
        | inl a ↦ inl (rw (a, evts_loop) (_, refl))
        | inr a ↦
            let q = next_event layout show_itvl mem te p in
            let (ahead, stops) = next_event-stops te p in
            elim (Bool-cases (leb te q || mem q == blk_trailer_id)) [
              | inl b ↦ inl (rw (a, evts_loop) (rw b (_, refl)))
              | inr b ↦ elim (Bool-cases (ltb te (event_end layout show_itvl mem q))) [
                | inl d ↦ inl (rw (a, evts_loop) (rw b (rw d (_, refl))))
                | inr d ↦
                    let (inside, header) = stops b in
                    let fits : event_end layout show_itvl mem q ≤ te = ground (arith, d) in
                    let (c, run) =
                      check_evt-returns moves fuel te q (evt_num + 1) (tick cnt_num_evts s)
                        (omega (arith, fits, f, ahead)) in
                    let round =
                      evts_loop_round layout show_itvl mem fuel te n p q evt_num errors s a refl c b
                        fits run in
                    inr (
                      event_end layout show_itvl mem q,
                      adjust_number layout show_itvl mem q (evt_num + 1),
                      errors + c.errors,
                      c.state,
                      omega (arith, ahead, inside),
                      omega (arith, ahead, moves' q header),
                      round,
                    )
              ]
            ]
      ]

  evts_loop-returns :
      (moves : (q : ℕ) → mem q ≡ fld_header_id → 0 < mem (q + 1) + mem (q + 3))
      (moves' : (q : ℕ) → mem q ≡ evt_header_id → 0 < mem (q + 1) + mem (q + 3))
      (fuel te n p evt_num errors : ℕ) (s : Checker)
      → te ≤ p + n
      → te < p + fuel
      → (c : Checked) × (evts_loop layout show_itvl mem fuel te (suc n) p evt_num errors s ≡ some c)
  evts_loop-returns moves moves' fuel te zero p evt_num errors s l f =
      elim (round_or_end moves moves' fuel te zero p evt_num errors s f) [
        | inl done ↦ done
        | inr (_, _, _, _, inside, _, _) ↦ absurd (omega (arith, l, inside))
      ]
  evts_loop-returns moves moves' fuel te (suc n) p evt_num errors s l f =
      elim (round_or_end moves moves' fuel te (suc n) p evt_num errors s f) [
        | inl done ↦ done
        | inr (p', num', errors', s', inside, ahead, round) ↦
            let (c, run) =
              evts_loop-returns moves moves' fuel te n p' num' errors' s' (omega (arith, l, ahead))
                (omega (arith, f, ahead)) in
            (c, round ∙ run)
      ]

  -- The check of events ends if no header of an event or a field has both sizes 0.
  pub check_evts-returns :
      (moves : (q : ℕ) → mem q ≡ fld_header_id → 0 < mem (q + 1) + mem (q + 3))
      (moves' : (q : ℕ) → mem q ≡ evt_header_id → 0 < mem (q + 1) + mem (q + 3)) (fuel p te : ℕ)
      (s : Checker)
      → 0 < fuel
      → te < p + fuel
      → (c : Checked) × (check_evts layout show_itvl mem fuel p te s ≡ some c)
  unfolding check_evts
  check_evts-returns moves moves' zero p te s z f = absurd (omega (arith, z))
  check_evts-returns moves moves' (suc n) p te s z f =
      evts_loop-returns moves moves' (suc n) te n p 0 0 s (omega (arith, f)) f

-- ===== src/Format/Events/Loop.antt =====
-- A round of check_evts on the words of an event: src/router/tools/check_format_lib.c.
use udaq.Base.{
  ℕ, ◌+◌, ◌-◌, ◌≤◌, ◌<◌, ◌≡◌, refl, sym, ap, ◌∙◌, ◌&&◌, length, some, arith, ◌==◌, ltb, leb, not,
  inl, inr, true, false, Bool-cases,
}
use udaq.Format.{Memory}
use udaq.Format.Counters.{cnt_err_evts, cnt_err_evt_header, cnt_err_evt_size, cnt_err_evt_cont}
use udaq.Format.State.{Layout, Checker, Checked, tick_if, evt_header_id}
use udaq.Format.Ticks.{tick_none}
use udaq.Format.Encode.{Event, IsEvent, Holds, Holds-at, fields_words, fields_tally, event_words}
use udaq.Format.Fields.Sequence.{event_fields-counted}
use udaq.Format.Events.{
  event_end, bad_evt_size, evt_header_err, check_evt_header, after_fields, check_evt,
}

module _ (layout : Layout) (show_itvl : ℕ) (mem : Memory) where
  no_header_err :
      (te p n : ℕ)
      → mem p ≡ evt_header_id
      → mem (p + 1) ≡ 6
      → mem (p + 2) ≤ 1
      → mem (p + 4) ≡ n
      → bad_evt_size layout show_itvl mem te p ≡ false
      → evt_header_err layout show_itvl mem te p (n + 1) ≡ 0
  unfolding evt_header_err
  no_header_err te p n a b c d e =
      let id : not (mem (p + 2) == 0) && not (mem (p + 2) == 1) ≡ false = ground (arith, c) in
      let number : mem (p + 4) == n + 1 - 1 ≡ true = ground (arith, d) in
      rw (e, id, number, a, b, evt_header_err) refl

  pub size_fits :
      (te p : ℕ)
      → event_end layout show_itvl mem p ≤ te
      → (event_end layout show_itvl mem p < te
          → mem (event_end layout show_itvl mem p) ≡ evt_header_id)
      → bad_evt_size layout show_itvl mem te p ≡ false
  unfolding bad_evt_size
  size_fits te p l next =
      let tp = event_end layout show_itvl mem p in
      elim (Bool-cases (ltb tp te)) [
        | inl e ↦ let at = next (ground (arith, e)) in rw (e, at) refl
        | inr e ↦ rw e refl
      ]

  pub event_read :
      (n : ℕ) (e : Event) (p : ℕ)
      → Holds mem p (event_words n e)
      → (mem p ≡ evt_header_id)
        × (mem (p + 1) ≡ 6)
        × (mem (p + 2) ≡ e.event_id)
        × (mem (p + 3) ≡ length (fields_words e.fields))
        × (mem (p + 4) ≡ n)
        × (mem (p + 5) ≡ length e.fields)
        × Holds mem (p + mem (p + 1)) (fields_words e.fields)
  event_read n e p h =
      let two : p + 2 ≡ p + 1 + 1 = omega arith in
      let three : p + 3 ≡ p + 1 + 1 + 1 = omega arith in
      let four : p + 4 ≡ p + 1 + 1 + 1 + 1 = omega arith in
      let five : p + 5 ≡ p + 1 + 1 + 1 + 1 + 1 = omega arith in
      let (h0, h1) = h in
      let (b, h2) = h1 in
      let (c, h3) = h2 in
      let (d, h4) = h3 in
      let (f, h5) = h4 in
      let (g, body) = h5 in
      (
        h0,
        b,
        ap mem two ∙ c,
        ap mem three ∙ d,
        ap mem four ∙ f,
        ap mem five ∙ g,
        Holds-at mem (fields_words e.fields) (p + 1 + 1 + 1 + 1 + 1 + 1) (p + mem (p + 1))
            (omega (arith, b)) body,
      )

  header-counter :
      (te p n : ℕ) (s : Checker) (j : ℕ)
      → evt_header_err layout show_itvl mem te p n ≡ 0
      → bad_evt_size layout show_itvl mem te p ≡ false
      → (check_evt_header layout show_itvl mem te p n s).counter j ≡ s.counter j
  unfolding check_evt_header
  header-counter te p n s j e b =
      rw (e, b, check_evt_header)
        (tick_none cnt_err_evt_header (tick_if false cnt_err_evt_size s) j
          ∙ tick_none cnt_err_evt_size s j)

  fields-kept :
      (p : ℕ) (c : Checked)
      → c.errors ≡ 0
      → mem (p + 5) ≡ c.num
      → let r = after_fields layout show_itvl mem p 0 c in
        (r.errors ≡ 0) × ((j : ℕ) → r.state.counter j ≡ c.state.counter j)
  unfolding after_fields
  fields-kept p c e n =
      let number : mem (p + 5) == c.num ≡ true = ground (arith, n) in
      rw (e, number, after_fields)
        (
          refl,
          λ j.
              tick_none cnt_err_evts (tick_if false cnt_err_evt_cont c.state) j
              ∙ tick_none cnt_err_evt_cont c.state j,
        )

  pub event-counted :
      (e : Event) (fuel te p n : ℕ) (s : Checker)
      → IsEvent e
      → Holds mem p (event_words n e)
      → p + length (event_words n e) ≤ te
      → length (fields_words e.fields) < fuel
      → bad_evt_size layout show_itvl mem te p ≡ false
      → (c : Checked) × (check_evt layout show_itvl mem fuel te p (n + 1) s ≡ some c)
        × (c.errors ≡ 0)
        × ((j : ℕ) → c.state.counter j ≡ s.counter j + fields_tally e.fields j)
  unfolding check_evt
  event-counted e fuel te p n s v h l f b =
      let (a0, a1, a2, a3, a4, a5, body) = event_read n e p h in
      let header = check_evt_header layout show_itvl mem te p (n + 1) s in
      let start = p + mem (p + 1) in
      let err = no_header_err te p n a0 a1 (omega (arith, a2, v.0)) a4 b in
      let room : leb start te ≡ true = ground (arith, a1, l) in
      let (c, run, num, errs, counts) =
        event_fields-counted layout show_itvl mem e.fields fuel start header v.1 body f in
      let (good, kept) = fields-kept p c errs (a5 ∙ sym num) in
      (
        after_fields layout show_itvl mem p 0 c,
        rw (room, check_evt) (rw (a3, run, err) refl),
        good,
        λ j. kept j ∙ omega (arith, counts j, header-counter te p (n + 1) s j err b),
      )

-- ===== src/Format/Events/Sequence.antt =====
-- check_evts on the words of a block: src/router/tools/check_format_lib.c.
use udaq.Base.{
  ℕ, zero, suc, ◌+◌, ◌-◌, ◌≤◌, ◌<◌, ◌≡◌, refl, ap, ◌∙◌, ◌||◌, List, [], ◌∷◌, length, length-append,
  All, some, arith, ◌==◌, ltb, leb, true, false,
}
use mathlib.Core.Path.{subst}
use udaq.Format.{Memory}
use udaq.Format.Counters.{cnt_num_evts}
use udaq.Format.State.{Layout, Checker, Checked, tick, evt_header_id, blk_trailer_id}
use udaq.Format.Ticks.{tick-counter}
use udaq.Format.Encode.{
  Event, IsEvent, Holds, Holds-append, Holds-at, fields_words, event_words, events_words,
  events_tally,
}
use udaq.Format.Events.{event_end, next_event, adjust_number, check_evt, evts_loop, check_evts}
use udaq.Format.Events.Loop.{size_fits, event_read, event-counted}

module _ (layout : Layout) (show_itvl : ℕ) (mem : Memory) where
  pub evts_loop_trailer :
      (fuel te n p evt_num errors : ℕ) (s : Checker)
      → mem p ≡ blk_trailer_id
      → evts_loop layout show_itvl mem fuel te (suc n) p evt_num errors s
        ≡ some (record { num = evt_num; errors = errors; state = s })
  unfolding evts_loop
  evts_loop_trailer fuel te n p evt_num errors s e = rw (e, evts_loop) refl

  -- What a round does with the event at `q`, where that is checked to its end.
  unfoldable pub Goes : (fuel te n p evt_num errors : ℕ) (s : Checker) (q : ℕ) → Type 0
  Goes fuel te n p evt_num errors s q =
      (c : Checked)
      → leb te q || mem q == blk_trailer_id ≡ false
      → event_end layout show_itvl mem q ≤ te
      → check_evt layout show_itvl mem fuel te q (evt_num + 1) (tick cnt_num_evts s) ≡ some c
      → evts_loop layout show_itvl mem fuel te (suc n) p evt_num errors s
        ≡ evts_loop layout show_itvl mem fuel te n (event_end layout show_itvl mem q)
            (adjust_number layout show_itvl mem q (evt_num + 1)) (errors + c.errors) c.state

  pub evts_loop_round :
      (fuel te n p q evt_num errors : ℕ) (s : Checker)
      → mem p == blk_trailer_id ≡ false
      → next_event layout show_itvl mem te p ≡ q
      → Goes fuel te n p evt_num errors s q
  unfolding Goes evts_loop
  evts_loop_round fuel te n p q evt_num errors s a b =
      subst (Goes fuel te n p evt_num errors s) b (λ c d e f.
        let big : ltb te (event_end layout show_itvl mem (next_event layout show_itvl mem te p))
            ≡ false =
          ground (arith, e) in
        rw (a, evts_loop) (rw d (rw big (rw f refl))))

  pub next_here : (te p : ℕ) → mem p ≡ evt_header_id → next_event layout show_itvl mem te p ≡ p
  unfolding next_event
  next_here te p e = rw (e, next_event) refl

  same_number : (p n : ℕ) → mem (p + 4) ≡ n → adjust_number layout show_itvl mem p (n + 1) ≡ n + 1
  unfolding adjust_number
  same_number p n e =
      let number : mem (p + 4) == n + 1 - 1 ≡ true = ground (arith, e) in
      rw (number, adjust_number) refl

  next_header :
      (n : ℕ) (es : List Event) (te q : ℕ)
      → Holds mem q (events_words n es)
      → q + length (events_words n es) ≡ te
      → q < te
      → mem q ≡ evt_header_id
  next_header n [] te q h e l = absurd (omega (arith, e, l))
  next_header n (f ∷ es) te q h e l = h.0

  -- The loop from the first word of the events `es`, which are numbered from `n` on.
  events-counted :
      (es : List Event) (fuel te k p n errors : ℕ) (s : Checker)
      → All IsEvent es
      → Holds mem p (events_words n es)
      → p + length (events_words n es) ≡ te
      → mem te ≡ blk_trailer_id
      → length (events_words n es) ≤ k
      → length (events_words n es) < fuel
      → (c : Checked) × (evts_loop layout show_itvl mem fuel te (suc k) p n errors s ≡ some c)
        × (c.num ≡ n + length es)
        × (c.errors ≡ errors)
        × ((j : ℕ) → c.state.counter j ≡ s.counter j + events_tally es j)
  unfolding Goes
  events-counted [] fuel te k p n errors s v h e t l f =
      let end : p ≡ te = omega (arith, e) in
      (
        record { num = n; errors = errors; state = s },
        evts_loop_trailer fuel te k p n errors s (ap mem end ∙ t),
        omega arith,
        refl,
        λ j. omega arith,
      )
  events-counted (e ∷ es) fuel te zero p n errors s v h end t l f = absurd (omega (arith, l))
  events-counted (e ∷ es) fuel te (suc k) p n errors s v h end t l f =
      let (here, behind) = Holds-append mem p (event_words n e) (events_words (n + 1) es) h in
      let (a0, a1, a2, a3, a4, a5, body) = event_read layout show_itvl mem n e p here in
      let total = length-append (fields_words e.fields) (events_words (n + 1) es) in
      let tp = event_end layout show_itvl mem p in
      let next =
        Holds-at mem (events_words (n + 1) es) (p + length (event_words n e)) tp
          (omega (arith, a1, a3)) behind in
      let rest : tp + length (events_words (n + 1) es) ≡ te = omega (arith, end, total, a1, a3) in
      let fits =
        size_fits layout show_itvl mem te p (omega (arith, rest))
          (next_header (n + 1) es te tp next rest) in
      let (c, run, errs, counts) =
        event-counted layout show_itvl mem e fuel te p n (tick cnt_num_evts s) v.0 here
          (omega (arith, end, total)) (omega (arith, f, total)) fits in
      let (c', run', num', errs', counts') =
        events-counted es fuel te k tp (n + 1) (errors + c.errors) c.state v.1 next rest t
          (omega (arith, l, total)) (omega (arith, f, total)) in
      (
        c',
        evts_loop_round fuel te (suc k) p p n errors s (ground (arith, a0)) (next_here te p a0) c
              (ground (arith, a0, end)) (omega (arith, rest)) run
            ∙ rw (same_number p n a4) run',
        omega (arith, num'),
        omega (arith, errs', errs),
        λ j. omega (arith, counts' j, counts j, tick-counter cnt_num_evts s j),
      )

  pub block_events-counted :
      (es : List Event) (fuel p : ℕ) (s : Checker)
      → All IsEvent es
      → Holds mem p (events_words 0 es)
      → mem (p + length (events_words 0 es)) ≡ blk_trailer_id
      → length (events_words 0 es) < fuel
      → (c : Checked) × (check_evts layout show_itvl mem fuel p (p + length (events_words 0 es)) s
          ≡ some c)
        × (c.num ≡ length es)
        × (c.errors ≡ 0)
        × ((j : ℕ) → c.state.counter j ≡ s.counter j + events_tally es j)
  unfolding check_evts
  block_events-counted es zero p s v h t l = absurd (omega (arith, l))
  block_events-counted es (suc k) p s v h t l =
      let (c, run, num, errs, counts) =
        events-counted es (suc k) (p + length (events_words 0 es)) k p 0 0 s v h refl t
          (omega (arith, l)) l in
      (c, run, omega (arith, num), errs, counts)

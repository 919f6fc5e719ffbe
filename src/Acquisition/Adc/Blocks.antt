-- ===== src/Acquisition/Adc/Blocks.antt =====
-- What madc32_check_data of src/vmedaq/vmedaq.c makes of whole events.
use udaq.Base.{
  ℕ, ◌+◌, ◌*◌, ◌<◌, ◌≡◌, refl, sym, ap, ◌∙◌, false, Option, some, List, [], ◌∷◌, ◌++◌, length,
  length-append, All, arith,
}
use mathlib.Core.Path.{subst}
use mathlib.Core.List.{append_assoc, append-nil}
use udaq.Acquisition.{vmedaq_write_header}
use udaq.Acquisition.Adc.{
  Adc, event_counter_of, set_counter, read_words, close_event, fill_word, start, with_header,
  madc32_check_data,
}
use udaq.Acquisition.Adc.Events.{
  Event, IsEvent, event_words, all_words, after_event, after_events, read_words-events,
  read_words-event,
}

module _ (mid : ℕ) where
  pub after_events-body :
      (es : List Event) (s : Adc) → (after_events mid es s).body ≡ s.body ++ all_words es
  after_events-body [] s = sym (append-nil s.body)
  after_events-body (e ∷ es) s =
      after_events-body es (after_event mid e s)
      ∙ append_assoc s.body (event_words e) (all_words es)

  pub after_events-kept :
      (es : List Event) (s : Adc)
      → ((after_events mid es s).wild ≡ s.wild)
        × ((after_events mid es s).header_pos ≡ s.header_pos)
  after_events-kept [] s = (refl, refl)
  after_events-kept (e ∷ es) s = after_events-kept es (after_event mid e s)

module _ (mid res buf_size : ℕ) where
  pub read_words-fifo :
      (es : List Event) (e : Event) (rest : List ℕ) (s : Adc)
      → All IsEvent es
      → IsEvent e
      → 4 + (length s.body + length (all_words es ++ event_words e)) < buf_size
      → read_words mid res buf_size (all_words es ++ (event_words e ++ rest)) s
        ≡ read_words mid res buf_size rest (after_event mid e (after_events mid es s))
  read_words-fifo es e rest s hs h room =
      let n = length-append (all_words es) (event_words e) in
      let m = length-append s.body (all_words es) in
      let b = after_events-body mid es s in
      let fits : 4 + (length s.body + length (all_words es)) < buf_size = omega (arith, n, room) in
      let fits_last : 4 + (length (after_events mid es s).body + length (event_words e))
          < buf_size =
        rw b (omega (arith, n, m, room)) in
      read_words-events mid res buf_size es (event_words e ++ rest) s hs fits
      ∙ read_words-event mid res buf_size e rest (after_events mid es s) h fits_last

  pub read_words-none : (s : Adc) → read_words mid res buf_size [] s ≡ s
  unfolding read_words
  read_words-none s = refl

  pub close_event-ended : (s : Adc) → s.header_flag ≡ false → close_event mid res s ≡ s
  unfolding close_event
  close_event-ended s h = rw h refl

  pub set_counter-same : (i n : ℕ) (f : ℕ → ℕ) → set_counter i n f i ≡ n
  set_counter-same i n f = ground arith

  with_header-some :
      (block_counter : ℕ) (s : Adc) (n : ℕ)
      → s.event_count ≡ some n
      → with_header mid res block_counter s ≡ (
        vmedaq_write_header 4096 block_counter (4 * (4 + length (fill_word mid res s.body)))
            ++ fill_word mid res s.body,
        s,
      )
  unfolding with_header
  with_header-some block_counter s n e =
      subst
        (λ (o : Option ℕ). with_header mid res block_counter (record s { event_count = o }) ≡ (
          vmedaq_write_header 4096 block_counter (4 * (4 + length (fill_word mid res s.body)))
              ++ fill_word mid res s.body,
          record s { event_count = o },
        ))
        (sym e) refl

  pub checked :
      (block_counter : ℕ) (counters : ℕ → ℕ) (fifo : List ℕ) (read closed : Adc) (n : ℕ)
      → read_words mid res buf_size fifo (start mid res counters) ≡ read
      → close_event mid res read ≡ closed
      → closed.event_count ≡ some n
      → madc32_check_data mid res buf_size block_counter fifo counters ≡ (
        vmedaq_write_header 4096 block_counter (4 * (4 + length (fill_word mid res closed.body)))
            ++ fill_word mid res closed.body,
        closed,
      )
  unfolding madc32_check_data
  checked block_counter counters fifo read closed n r c e =
      ap (λ (s : Adc). with_header mid res block_counter (close_event mid res s)) r
      ∙ ap (with_header mid res block_counter) c
      ∙ with_header-some block_counter closed n e

  -- Where the FIFO holds whole events, each a header, data words and an end, and leaves room in the buffer: the block is
  -- the header with its size in bytes, the words of the FIFO and the filler to an even number, the number that is
  -- returned and the counter of the module are that of the last end, and no counter with the number -1 is written.
  pub madc32_check_data-whole :
      (block_counter : ℕ) (counters : ℕ → ℕ) (es : List Event) (e : Event)
      → All IsEvent es
      → IsEvent e
      → 4 + length (all_words es ++ event_words e) < buf_size
      → let fifo = all_words es ++ event_words e in
        let (block, s) = madc32_check_data mid res buf_size block_counter fifo counters in
        (block
          ≡ vmedaq_write_header 4096 block_counter (4 * (4 + length (fill_word mid res fifo)))
            ++ fill_word mid res fifo)
        × (s.event_count ≡ some (event_counter_of e.last))
        × (s.counters mid ≡ event_counter_of e.last)
        × (s.wild ≡ false)
  madc32_check_data-whole block_counter counters es e hs h room =
      let fifo = all_words es ++ event_words e in
      let s = after_event mid e (after_events mid es (start mid res counters)) in
      let b : s.body ≡ fifo =
        ap (λ (l : List ℕ). l ++ event_words e)
          (after_events-body mid es (start mid res counters)) in
      let r : read_words mid res buf_size fifo (start mid res counters) ≡ s =
        ap
          (λ (l : List ℕ). read_words mid res buf_size (all_words es ++ l) (start mid res counters))
          (sym (append-nil (event_words e)))
        ∙ read_words-fifo es e [] (start mid res counters) hs h (omega (arith, room))
        ∙ read_words-none s in
      let c =
        checked block_counter counters fifo s s (event_counter_of e.last) r
          (close_event-ended s refl) refl in
      (
        ap (λ (r : List ℕ × Adc). r.0) c
            ∙ ap
                (λ (l : List ℕ).
                  vmedaq_write_header 4096 block_counter (4 * (4 + length (fill_word mid res l)))
                  ++ fill_word mid res l)
                b,
        ap (λ (r : List ℕ × Adc). r.1.event_count) c,
        ap (λ (r : List ℕ × Adc). r.1.counters mid) c
            ∙ set_counter-same mid (event_counter_of e.last)
                (after_events mid es (start mid res counters)).counters,
        ap (λ (r : List ℕ × Adc). r.1.wild) c
            ∙ (after_events-kept mid es (start mid res counters)).0,
      )
